-- ===== src/Lsm/Flush/Rotate.antt =====
-- crates/ingodb-lsm/src/lib.rs, `rotate_memtable`: what a reader sees of a rotation.
use ingodb.Base.{ℕ, ◌≡◌, Bool, true, Option, List}
use ingodb.Blob.Id.{DocumentId}
use ingodb.Lsm.Engine.{get_at, swap_memtable}
use ingodb.Lsm.Engine.Reads.{get_at-swap_memtable}
use ingodb.Lsm.State.{LsmEngine, Ran, layers}
use ingodb.Lsm.Flush.{rotate_memtable}

module _ (float_level : ℕ → ℕ → ℕ → ℕ) (rebuild : ℕ → ℕ → Bool) (blake3 : List ℕ → List ℕ)
    (compress : List ℕ → List ℕ) (decompress : List ℕ → Option (List ℕ)) (crc32 : List ℕ → ℕ)
    (then_compact : LsmEngine → Ran) where
  abbrev rotated : LsmEngine → LsmEngine
  rotated e =
      (rotate_memtable float_level rebuild blake3 compress decompress crc32 then_compact e).0

  -- Where a thread runs, to which the flush is left, a rotation changes no read, at any id and snapshot.
  pub get_at-rotate_memtable :
      (e : LsmEngine) (id snapshot : DocumentId)
      → e.has_compaction_thread ≡ true
      → get_at blake3 decompress crc32 (layers (rotated e)) id snapshot
        ≡ get_at blake3 decompress crc32 (layers e) id snapshot
  unfolding rotate_memtable swap_memtable
  get_at-rotate_memtable e id snapshot thread =
      rw thread
        (get_at-swap_memtable blake3 decompress crc32 e.memtable_size (layers e) id snapshot)
