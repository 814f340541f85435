-- ===== src/Lsm.antt =====
-- crates/ingodb-lsm: the storage engine above the log, the memtable and the tables on disk.
pub mod Merge
pub mod Compaction
pub mod SizeTiered
pub mod Engine
pub mod Scan
pub mod Traverse
pub mod Secondary
pub mod Follow
pub mod Indexed
pub mod State
pub mod Flush
pub mod Compact
pub mod Stats
pub mod Adapt
