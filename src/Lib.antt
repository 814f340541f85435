-- ===== src/Lib.antt =====
-- ingodb, an LSM storage engine for documents (crates/): a model of its core, with the theorems that
-- make it correct.
--
-- A document (`IBlob`) has an id, a version that the engine stamps at write time, flags and named
-- values. A write goes to the write-ahead log and to the memtable; full memtables become sorted table
-- files, and compaction merges these. A reader at a snapshot sees, for an id, the highest version up
-- to the snapshot.
--
--   Base         numbers, lists, orders, stable sorting, and association lists for `BTreeMap`
--   Bytes        fixed-width integers as bytes, slices
--   Blob         crates/ingodb-blob: ids, errors, values (`Value`), documents (`IBlob`), their binary
--                form (`IBlob.Codec`), and the search for a field in it (`IBlob.Extract`)
--   Wal          crates/ingodb-wal: `open`, `append`, `append_batch`, `recover`
--   Memtable     crates/ingodb-memtable: all methods
--   Lsm.Merge    crates/ingodb-lsm/src/lib.rs, the merge of `run_compaction`, and the filters of compaction.rs
--   Lsm.Compaction
--                crates/ingodb-lsm/src/compaction.rs: which tables are compacted; `Lsm.SizeTiered` is the
--                legacy strategy
--   Lsm.Engine   crates/ingodb-lsm/src/lib.rs, `LsmEngine`: the layers that a read goes through,
--                `get_at`, the insertion of a batch into the log and the memtable, the swap of a
--                rotation (`swap_memtable`, the first part of `rotate_memtable`), and the log at `open`
--   Lsm.Scan     crates/ingodb-lsm/src/lib.rs, `scan_at` without an index: all versions of all layers,
--                the newest of each document, filter, sort, limit and projection
--   Lsm.Follow   the same file: the loops of a scan over the entries of an index
--   Lsm.Indexed  the same file, `scan_with_secondary_index`, `scan_with_filter_index`, and `scan_at`,
--                which tries them first
--   Lsm.Traverse the same file, `traverse_at` and `execute`; the scan is an argument
--   Lsm.State    the same file, the whole state of `LsmEngine`, with `put`, `put_batch`, `delete` and the
--                snapshots
--   Lsm.Flush    the same file, the flush of queued memtables and the rotation
--   Lsm.Compact  the same file, `run_compaction` with its files and counters, and `maybe_compact`
--   Lsm.Adapt    the same file, `maybe_adjust_w`
--   Lsm.Stats    crates/ingodb-lsm/src/stats.rs: the statistics of queries
--   Lsm.Secondary
--                crates/ingodb-lsm/src/secondary.rs: which queries an index serves, and (`Index`) what its
--                methods read and write
--   Sstable      crates/ingodb-sstable: the Bloom filter (`Bloom`), the sort keys (`Keys`), the writer of
--                table files (`Writer`), blocks and the block index (`Reader`), opening, lookups and
--                iteration (`Lookup`), scans between two keys (`Range`)
--   Query        crates/ingodb-query: filters, the comparison of values, and the queries (`Ast`)
--   Tests        the theorems at concrete documents
--
-- State is passed explicitly: a method of `&self` or `&mut self` is a function of the state that
-- returns the new one. The locks serialise the methods. A file is its bytes, and what a crash
-- leaves of the log is a prefix. Strings are their UTF-8 bytes, signed integers and doubles their
-- bit patterns (`Lsm.Adapt` shifts an `i32` by 2 ^ 31), ids the numbers whose big-endian bytes they
-- are. Lengths and offsets in memory stay below 2 ^ 64, and casts to 32 bits cut.
--
-- BLAKE3, CRC-32, LZ4 and the UUID generator are other packages: the hash, the checksum and the
-- codec are parameters, with the hash's length, the checksum's range and the codec's inverse as
-- hypotheses, and new ids and versions are arguments. Which of several equal elements a binary
-- search finds, as the standard library leaves open, is an argument of a range scan (`among`). The
-- logarithms of doubles that give a table's level and the size from which an index is rebuilt are
-- parameters, as is the target of the scaling parameter. The clock is an argument.
--
-- Recursion that is not structural runs on fuel: the decoder of values on the length of the buffer and
-- one, recovery on the length of the file and one, the choice of groups on the number of tables and
-- one, and the flush on the number of queued memtables. The theorems show that this is enough: a decoder
-- that ran out, or a loop that was cut off, would return another result than they state.
--
-- Not modelled: `maybe_compact_indexes`, the tables that `open` loads, the indexes that a scan spills or
-- builds, what a scan records in the statistics, the collections, file-system errors, and the order of
-- concurrent calls.
pub mod Base
pub mod Bytes
pub mod Blob
pub mod Wal
pub mod Memtable
pub mod Lsm
pub mod Sstable
pub mod Query
mod Tests
