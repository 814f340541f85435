-- ===== src/Lsm/Engine.antt =====
-- crates/ingodb-lsm/src/lib.rs, `LsmEngine`: the layers that a read searches, and what a write and a
-- rotation do to them.
--
-- The counters, the query statistics and the secondary indexes do not affect a point lookup, and the
-- log and the flush stand apart: a `Layers` is the part of the engine that `get_at` reads.
pub mod Reads
pub mod Reopen
use ingodb.Base.{ℕ, Bool, true, false, Option, none, some, List, [], ◌∷◌, ◌++◌, if◌then◌else◌}
use ingodb.Blob.Id
use ingodb.Blob.Id.{DocumentId}
use ingodb.Blob.IBlob.{IBlob}
use ingodb.Wal
use ingodb.Wal.{Wal}
use ingodb.Memtable
use ingodb.Memtable.{MemTable, should_flush}
use ingodb.Sstable.Error.{Outcome, done, ◌>>=◌}
use ingodb.Sstable.Reader.{SstableReader}
use ingodb.Sstable.Lookup.{get_by_id_at}
use ingodb.Lsm.Merge.Purge.{live}

pub record Layers : Type 0 where
  pub memtable : MemTable
  pub immutable_memtables : List MemTable
  pub sstables : List SstableReader

-- A version that was found ends the search.
abbrev pub or_else : Option IBlob → Option IBlob → Option IBlob
or_else (some b) second = some b
or_else none second = second

-- `immutables.iter().rev()`: the last memtable that was queued first.
unfoldable pub search_memtables : List MemTable → DocumentId → DocumentId → Option IBlob
search_memtables [] id snapshot = none
search_memtables (mt ∷ immutables) id snapshot =
    or_else (search_memtables immutables id snapshot) (Memtable.get mt id snapshot)

-- The early returns of `get_at`: what the memtable has, else what the queued memtables have, else what
-- the tables have; a tombstone counts as nothing.
abbrev pub first_of : Option IBlob → Option IBlob → Outcome (Option IBlob) → Outcome (Option IBlob)
first_of (some b) immutables tables = done (live (some b))
first_of none (some b) tables = done (live (some b))
first_of none none tables = tables

-- The swap and the queueing of `swap_memtable`, for `config.memtable_size`.
unfoldable pub swap_memtable : ℕ → Layers → Layers
swap_memtable memtable_size e = record e {
  memtable = Memtable.new memtable_size;
  immutable_memtables = e.immutable_memtables ++ e.memtable ∷ [];
}

module _ (blake3 : List ℕ → List ℕ) where
  -- The loop of `put` and `put_batch` over the documents that are in the log.
  unfoldable pub insert_all : List IBlob → MemTable → MemTable
  insert_all [] m = m
  insert_all (blob ∷ blobs) m = insert_all blobs (Memtable.insert blake3 m blob).0

  unfoldable pub write_memtable : List IBlob → Layers → Layers × Bool
  unfolding insert_all
  write_memtable blobs e =
      let m = insert_all blobs e.memtable in (record e { memtable = m }, should_flush m)

  module _ (decompress : List ℕ → Option (List ℕ)) (crc32 : List ℕ → ℕ) where
    unfoldable pub search_sstables :
        List SstableReader → DocumentId → DocumentId → Outcome (Option IBlob)
    unfolding get_by_id_at
    search_sstables [] id snapshot = done none
    search_sstables (sst ∷ sstables) id snapshot =
        let rest = search_sstables sstables id snapshot in
        get_by_id_at blake3 decompress crc32 sst id snapshot
        >>= (λ found. elim found [ some b ↦ done (live (some b)) | none ↦ rest ])

    unfoldable pub get_at : Layers → DocumentId → DocumentId → Outcome (Option IBlob)
    unfolding search_memtables search_sstables
    get_at e id snapshot =
        first_of (Memtable.get e.memtable id snapshot)
          (search_memtables e.immutable_memtables id snapshot)
          (search_sstables e.sstables id snapshot)

    unfoldable pub get : Layers → DocumentId → Outcome (Option IBlob)
    unfolding get_at
    get e id = get_at e id Id.max

    unfoldable pub contains : Layers → DocumentId → Outcome Bool
    unfolding get
    contains e id = get e id >>= (λ found. done (elim found [ none ↦ false | some b ↦ true ]))

-- What `open` does with the log: the recovered documents go into a new memtable, and the log is
-- removed if there are any.
module _ (blake3 : List ℕ → List ℕ) (crc32 : List ℕ → ℕ) where
  abbrev pub reopened : List IBlob → List ℕ → Wal
  reopened [] file = Wal.open_wal file
  reopened (blob ∷ blobs) file = Wal.open_wal []

  unfoldable pub open_log : ℕ → List ℕ → Wal × MemTable
  unfolding insert_all
  open_log memtable_size file =
      let recovered = Wal.recover blake3 crc32 file in
      (reopened recovered file, insert_all blake3 recovered (Memtable.new memtable_size))

  -- `append_batch` and the insertions of `put`, for documents whose versions are stamped.
  unfoldable pub put_stamped : List IBlob → Wal × MemTable → Wal × MemTable
  unfolding insert_all
  put_stamped blobs s =
      let (w, encoded) = Wal.append_batch blake3 crc32 s.0 blobs in
      (w, insert_all blake3 encoded s.1)
