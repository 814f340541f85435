-- ===== src/Lsm/Compact.antt =====
-- crates/ingodb-lsm/src/lib.rs, `run_compaction` and `maybe_compact`: the tables that a compaction reads,
-- writes and replaces.
--
-- `open_file` gives what opening the file of a table reads. What `maybe_adjust_w` makes of the scaling
-- parameter and what `maybe_compact_indexes` does are arguments. Removing a file has no failure.
pub mod Tables
use ingodb.Base.{
  ℕ, zero, suc, ◌+◌, ◌%◌, ◌^◌, Bool, true, false, not, Option, none, some, List, [], ◌∷◌, ◌++◌, map,
  length, retain,
}
use ingodb.Blob.Id.{DocumentId}
use ingodb.Blob.IBlob.{IBlob}
use ingodb.Sstable.Error.{Outcome, done, failed, stuck, ◌>>=◌}
use ingodb.Sstable.Keys.{mvcc_key}
use ingodb.Sstable.Writer
use ingodb.Sstable.Reader.{SstableReader}
use ingodb.Sstable.Lookup
use ingodb.Sstable.Lookup.{file_size, min_id, max_id}
use ingodb.Lsm.Merge.{CompactionAction, merge, purges, tombstone_filter}
use ingodb.Lsm.Compaction
use ingodb.Lsm.Compaction.{SstMeta, CompactionPick, pick_compaction, contains_path}
use ingodb.Lsm.Scan.{blobs_of}
use ingodb.Lsm.State.{
  SstFile, LsmEngine, CompactionStats, Ran, and_then, ucs, oldest_snapshot, sort_sstables_by_level,
}
use ingodb.Lsm.Flush.{named}

-- The tables that are not among the inputs.
abbrev pub without : List ℕ → List SstFile → List SstFile
without inputs sstables = retain (λ s. not (contains_path inputs s.path)) sstables

-- `fetch_add` on the counters.
abbrev pub count_run : ℕ → ℕ → ℕ → CompactionStats → CompactionStats
count_run input_bytes output_bytes num_inputs s = record {
  runs = (s.runs + 1) % 2 ^ 64;
  bytes_read = (s.bytes_read + input_bytes) % 2 ^ 64;
  bytes_written = (s.bytes_written + output_bytes) % 2 ^ 64;
  sstables_read = (s.sstables_read + num_inputs) % 2 ^ 64;
  sstables_written = (s.sstables_written + 1) % 2 ^ 64;
}

-- The metadata of the tables, numbered from `seq`.
abbrev pub metas : ℕ → List SstFile → List SstMeta
metas seq [] = []
metas seq (s ∷ sstables) =
    record {
      path = s.path;
      min_id = min_id s.reader;
      max_id = max_id s.reader;
      file_size = file_size s.reader;
      seq = seq;
    }
    ∷ metas (seq + 1) sstables

abbrev pub has_some {ℓ} : {A : Type ℓ} → Option A → Bool
has_some none = false
has_some (some a) = true

module _ (float_level : ℕ → ℕ → ℕ → ℕ) where
  -- The new table stands for the inputs.
  abbrev pub swapped : List ℕ → ℕ → ℕ → LsmEngine → Outcome SstableReader → Ran
  swapped inputs input_bytes sst_id e (failed x) = (e, failed x)
  swapped inputs input_bytes sst_id e stuck = (e, stuck)
  swapped inputs input_bytes sst_id e (done new_reader) = (
    record e {
      compaction_stats =
          count_run input_bytes (file_size new_reader) (length inputs) e.compaction_stats;
      sstables =
          sort_sstables_by_level float_level (ucs e)
            (without inputs e.sstables ++ record { path = sst_id; reader = new_reader } ∷ []);
    },
    done tt,
  )

module _ (float_level : ℕ → ℕ → ℕ → ℕ) (blake3 : List ℕ → List ℕ) (compress : List ℕ → List ℕ)
    (decompress : List ℕ → Option (List ℕ)) (crc32 : List ℕ → ℕ)
    (open_file : ℕ → Outcome SstableReader) where
  -- The bytes of the inputs, and their blobs in the order of the inputs.
  unfoldable pub read_inputs : List ℕ → Outcome (ℕ × List IBlob)
  unfolding Lookup.iter
  read_inputs [] = done (0, [])
  read_inputs (path ∷ paths) = open_file path >>= (λ reader.
      Lookup.iter blake3 decompress crc32 reader >>= (λ entries.
        read_inputs paths
        >>= (λ rest. done (file_size reader + rest.0, blobs_of entries ++ rest.1))))

  abbrev pub compacted : List ℕ → ℕ → LsmEngine → List IBlob → Ran
  compacted inputs input_bytes e [] = (record e { sstables = without inputs e.sstables }, done tt)
  compacted inputs input_bytes e (b ∷ bs) =
      swapped float_level inputs input_bytes e.next_sst_id (named e) (
        Writer.write compress crc32 blake3 e.block_size (b ∷ bs) mvcc_key
        >>= Lookup.open_table blake3 decompress crc32)

  abbrev pub compact_inputs :
      List ℕ → (IBlob → CompactionAction) → LsmEngine → Outcome (ℕ × List IBlob) → Ran
  compact_inputs inputs filter e (failed x) = (e, failed x)
  compact_inputs inputs filter e stuck = (e, stuck)
  compact_inputs inputs filter e (done (input_bytes, blobs)) =
      compacted inputs input_bytes e (merge (oldest_snapshot e) filter blobs)

  unfoldable pub run_compaction : List ℕ → (IBlob → CompactionAction) → LsmEngine → Ran
  unfolding read_inputs merge oldest_snapshot Writer.write Lookup.open_table sort_sstables_by_level
  run_compaction inputs filter e = compact_inputs inputs filter e (read_inputs inputs)

  abbrev pub run_pick : LsmEngine → Option CompactionPick → Ran
  run_pick e none = (e, done tt)
  run_pick e (some pick) =
      run_compaction pick.inputs
        (tombstone_filter (purges pick.output_level pick.max_level (has_some (oldest_snapshot e))))
        e

  unfoldable pub maybe_compact : (LsmEngine → LsmEngine) → (LsmEngine → Ran) → LsmEngine → Ran
  unfolding run_compaction pick_compaction tombstone_filter oldest_snapshot
  maybe_compact adjust_w compact_indexes e =
      let adjusted = adjust_w e in
      and_then
        (run_pick adjusted (pick_compaction float_level (ucs adjusted) (metas 0 adjusted.sstables)))
        compact_indexes
