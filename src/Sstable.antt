-- ===== src/Sstable.antt =====
-- crates/ingodb-sstable: the parts of an on-disk table.
pub mod Bloom
pub mod Keys
pub mod Error
pub mod Writer
pub mod Reader
pub mod Lookup
pub mod Range
