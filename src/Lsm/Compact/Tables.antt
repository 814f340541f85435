-- ===== src/Lsm/Compact/Tables.antt =====
-- crates/ingodb-lsm/src/lib.rs, `run_compaction`: which tables are left when it returns.
use ingodb.Base.{
  ℕ, ◌≡◌, ◌≤◌, refl, Option, List, [], ◌∷◌, ◌++◌, append-nil, arith, length, subst, sym,
}
use mathlib.Core.List.{Perm}
use mathlib.Core.List.Perm
use ingodb.Base.Sort.Permuted.{sort_by-perm}
use ingodb.Blob.IBlob.{IBlob}
use ingodb.Sstable.Error.{Outcome, done, failed, stuck}
use ingodb.Sstable.Reader.{SstableReader}
use ingodb.Lsm.Merge.{CompactionAction, merge}
use ingodb.Lsm.State.{
  SstFile, LsmEngine, Ran, ucs, by_level, oldest_snapshot, sort_sstables_by_level,
}
use ingodb.Lsm.Flush.{named}
use ingodb.Lsm.Compact.{without, swapped, compacted, compact_inputs, run_compaction}

-- The tables of the engine after a compaction that returned, and what a failure leaves.
abbrev pub Replaced : List ℕ → LsmEngine → Ran → Type 0
Replaced inputs e (e', done u) =
    (added : List SstFile) × (length added ≤ 1)
    × Perm e'.sstables (without inputs e.sstables ++ added)
Replaced inputs e (e', failed x) = e'.sstables ≡ e.sstables
Replaced inputs e (e', stuck) = e'.sstables ≡ e.sstables

module _ (float_level : ℕ → ℕ → ℕ → ℕ) where
  swapped-Replaced :
      (inputs : List ℕ) (input_bytes sst_id : ℕ) (e : LsmEngine) (r : Outcome SstableReader)
      → Replaced inputs e (swapped float_level inputs input_bytes sst_id (named e) r)
  unfolding sort_sstables_by_level
  swapped-Replaced inputs input_bytes sst_id e (failed x) = refl
  swapped-Replaced inputs input_bytes sst_id e stuck = refl
  swapped-Replaced inputs input_bytes sst_id e (done new_reader) =
      let added : List SstFile = record { path = sst_id; reader = new_reader } ∷ [] in
      (
        added,
        omega arith,
        sort_by-perm (by_level float_level (ucs e)) (without inputs e.sstables ++ added),
      )

module _ (float_level : ℕ → ℕ → ℕ → ℕ) (blake3 : List ℕ → List ℕ) (compress : List ℕ → List ℕ)
    (decompress : List ℕ → Option (List ℕ)) (crc32 : List ℕ → ℕ)
    (open_file : ℕ → Outcome SstableReader) where
  compacted-Replaced :
      (inputs : List ℕ) (input_bytes : ℕ) (e : LsmEngine) (blobs : List IBlob)
      → Replaced inputs e (
          compacted float_level blake3 compress decompress crc32 open_file inputs input_bytes e
            blobs)
  compacted-Replaced inputs input_bytes e [] = (
    [],
    omega arith,
    subst (Perm (without inputs e.sstables)) (sym (append-nil (without inputs e.sstables)))
        (Perm.refl (without inputs e.sstables)),
  )
  compacted-Replaced inputs input_bytes e (b ∷ bs) =
      swapped-Replaced float_level inputs input_bytes e.next_sst_id e _

  read-Replaced :
      (inputs : List ℕ) (filter : IBlob → CompactionAction) (e : LsmEngine)
      (read : Outcome (ℕ × List IBlob))
      → Replaced inputs e (
          compact_inputs float_level blake3 compress decompress crc32 open_file inputs filter e
            read)
  read-Replaced inputs filter e (failed x) = refl
  read-Replaced inputs filter e stuck = refl
  read-Replaced inputs filter e (done (input_bytes, blobs)) =
      compacted-Replaced inputs input_bytes e (merge (oldest_snapshot e) filter blobs)

  -- A compaction of any inputs with any filter: where it returns without an error, the tables are
  -- those that were no inputs, with at most one new table; where it fails, the tables are what they
  -- were.
  pub run_compaction-Replaced :
      (inputs : List ℕ) (filter : IBlob → CompactionAction) (e : LsmEngine)
      → Replaced inputs e
          (run_compaction float_level blake3 compress decompress crc32 open_file inputs filter e)
  unfolding run_compaction
  run_compaction-Replaced inputs filter e = read-Replaced inputs filter e _
