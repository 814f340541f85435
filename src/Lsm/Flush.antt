-- ===== src/Lsm/Flush.antt =====
-- crates/ingodb-lsm/src/lib.rs, `LsmEngine`: the flush of queued memtables, and the rotation that starts
-- it. What a compaction after a flush does is an argument, `then_compact`.
pub mod Queue
pub mod Rotate
pub mod Reached
use ingodb.Base.{
  ℕ, zero, suc, ◌+◌, ◌*◌, ◌/◌, ◌%◌, ◌^◌, Bool, true, false, Option, none, some, List, [], ◌∷◌, ◌++◌,
  map, length, compare, Ordering, then_with, lt, eq, gt, if◌then◌else◌,
}
use ingodb.Base.Sort.{sort_by}
use ingodb.Blob.Id.{DocumentId}
use ingodb.Blob.IBlob.{IBlob, set_version, tombstone}
use ingodb.Wal
use ingodb.Wal.{Wal}
use ingodb.Memtable
use ingodb.Memtable.{MemTable, should_flush}
use ingodb.Sstable.Error.{Outcome, done, failed, stuck, ◌>>=◌}
use ingodb.Sstable.Keys.{mvcc_key}
use ingodb.Sstable.Writer
use ingodb.Sstable.Reader.{SstableReader}
use ingodb.Sstable.Lookup.{open_table, file_size}
use ingodb.Lsm.Compaction
use ingodb.Lsm.Compaction.{UcsCompaction, Scaling, level_for_size}
use ingodb.Lsm.Engine.{Layers, insert_all}
use ingodb.Lsm.Secondary.{SecondaryIndex}
use ingodb.Lsm.Secondary.Index.{notify_put, notify_delete, compact}
use ingodb.Lsm.State.{SstFile, LsmEngine, layers, Ran, and_then, ucs, sort_sstables_by_level}

-- `Vec::pop`: the last element.
abbrev pub pop : List MemTable → Option (List MemTable × MemTable)
pop [] = none
pop (mt ∷ []) = some ([], mt)
pop (mt ∷ next ∷ mts) = elim (pop (next ∷ mts)) [
  | none ↦ none
  | some popped ↦ some (mt ∷ popped.0, popped.1)
]

abbrev pub flush_popped :
    LsmEngine
    → Option (List MemTable × MemTable)
    → (MemTable → LsmEngine → Ran)
    → (LsmEngine → Ran)
    → Ran
flush_popped e none flush_one rest = (e, done tt)
flush_popped e (some (mts, mt)) flush_one rest =
    and_then (flush_one mt (record e { immutable_memtables = mts })) rest

-- The documents on disk, estimated at 400 bytes each.
abbrev pub estimated_doc_count : LsmEngine → List IBlob → ℕ
estimated_doc_count e blobs = length e.sstables * (e.memtable_size / 400) + length blobs

-- `next_sst_id.fetch_add(1)`
abbrev pub named : LsmEngine → LsmEngine
named e = record e { next_sst_id = (e.next_sst_id + 1) % 2 ^ 64 }

module _ (float_level : ℕ → ℕ → ℕ → ℕ) where
  -- The new table becomes visible, and the log starts anew.
  abbrev pub publish : ℕ → LsmEngine → SstableReader → LsmEngine
  publish sst_id e reader = record e {
    sstables =
        sort_sstables_by_level float_level (ucs e)
          (record { path = sst_id; reader = reader } ∷ e.sstables);
    wal = Wal.open_wal [];
  }

  abbrev pub published : (LsmEngine → Ran) → ℕ → LsmEngine → Outcome SstableReader → Ran
  published then_compact sst_id e (done reader) =
      if e.has_compaction_thread
      then (publish sst_id e reader, done tt)
      else then_compact (publish sst_id e reader)
  published then_compact sst_id e (failed x) = (e, failed x)
  published then_compact sst_id e stuck = (e, stuck)

module _ (float_level : ℕ → ℕ → ℕ → ℕ) (rebuild : ℕ → ℕ → Bool) (blake3 : List ℕ → List ℕ)
    (compress : List ℕ → List ℕ) (decompress : List ℕ → Option (List ℕ)) (crc32 : List ℕ → ℕ) where
  -- `let _ = index.compact(...)`
  unfoldable pub compact_all :
      ℕ → List SstableReader → ℕ → List SecondaryIndex → List SecondaryIndex
  unfolding compact
  compact_all block_size sst_refs count [] = []
  compact_all block_size sst_refs count (idx ∷ indexes) =
      (compact blake3 decompress crc32 compress block_size rebuild sst_refs count idx).0
      ∷ compact_all block_size sst_refs count indexes

  -- The indexes are compacted against the tables before the new one.
  abbrev pub reindexed : List IBlob → LsmEngine → LsmEngine
  reindexed blobs e = record (named e) {
    secondary_indexes =
        compact_all e.block_size (map (λ s. s.reader) e.sstables) (estimated_doc_count e blobs)
          e.secondary_indexes;
  }

  -- The table is written, and then opened.
  abbrev pub flush_written : (LsmEngine → Ran) → List IBlob → LsmEngine → Outcome (List ℕ) → Ran
  flush_written then_compact blobs e (failed x) = (named e, failed x)
  flush_written then_compact blobs e stuck = (named e, stuck)
  flush_written then_compact blobs e (done bytes) =
      published float_level then_compact e.next_sst_id (reindexed blobs e)
        (open_table blake3 decompress crc32 bytes)

  abbrev pub flush_drained : (LsmEngine → Ran) → LsmEngine → List IBlob → Ran
  flush_drained then_compact e [] = (e, done tt)
  flush_drained then_compact e (b ∷ bs) =
      flush_written then_compact (b ∷ bs) e
        (Writer.write compress crc32 blake3 e.block_size (b ∷ bs) mvcc_key)

  unfoldable pub flush_single_memtable : (LsmEngine → Ran) → MemTable → LsmEngine → Ran
  unfolding Memtable.drain Writer.write open_table compact_all sort_sstables_by_level
  flush_single_memtable then_compact memtable e =
      flush_drained then_compact e (Memtable.drain memtable).0

  -- The loop over the queue, on fuel: the memtable that was queued last is flushed first.
  unfoldable pub flush_immutable_memtables : (LsmEngine → Ran) → ℕ → LsmEngine → Ran
  unfolding flush_single_memtable
  flush_immutable_memtables then_compact zero e = (e, done tt)
  flush_immutable_memtables then_compact (suc fuel) e =
      flush_popped e (pop e.immutable_memtables) (flush_single_memtable then_compact)
        (flush_immutable_memtables then_compact fuel)

  -- The swap, and the flush of the queue unless a thread does it.
  unfoldable pub rotate_memtable : (LsmEngine → Ran) → LsmEngine → Ran
  unfolding flush_immutable_memtables Memtable.new
  rotate_memtable then_compact e =
      let e' : LsmEngine = record e {
        memtable = Memtable.new e.memtable_size;
        immutable_memtables = e.immutable_memtables ++ e.memtable ∷ [];
      } in
      if e'.has_compaction_thread
      then (e', done tt)
      else flush_immutable_memtables then_compact (length e'.immutable_memtables) e'
