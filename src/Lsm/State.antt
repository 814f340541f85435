-- ===== src/Lsm/State.antt =====
-- crates/ingodb-lsm/src/lib.rs, `LsmEngine`: the whole state, and the operations that change it.
--
-- The locks serialise the operations. A version that `DocumentId::new()` makes is an argument. The name
-- of a table is the number in it, which orders as the twelve digits do for numbers below 10 ^ 12. What
-- the file system can answer is left out.
use ingodb.Base.{
  ℕ, ◌+◌, ◌%◌, ◌^◌, Bool, Option, none, some, List, [], ◌∷◌, ◌++◌, map, length, compare, Ordering,
  then_with, lt, eq, gt, if◌then◌else◌,
}
use ingodb.Base.Sort.{sort_by}
use ingodb.Blob.Id.{DocumentId}
use ingodb.Blob.IBlob.{IBlob, set_version, tombstone}
use ingodb.Wal
use ingodb.Wal.{Wal}
use ingodb.Memtable
use ingodb.Memtable.{MemTable, should_flush}
use ingodb.Sstable.Error.{Outcome, done, failed, stuck}
use ingodb.Sstable.Reader.{SstableReader}
use ingodb.Sstable.Lookup.{file_size}
use ingodb.Lsm.Compaction
use ingodb.Lsm.Compaction.{UcsCompaction, Scaling, level_for_size}
use ingodb.Lsm.Engine.{Layers, insert_all}
use ingodb.Lsm.Secondary.{SecondaryIndex}
use ingodb.Lsm.Secondary.Index.{notify_put, notify_delete}

pub record SstFile : Type 0 where
  pub path : ℕ
  pub reader : SstableReader

pub record CompactionStats : Type 0 where
  pub runs : ℕ
  pub bytes_read : ℕ
  pub bytes_written : ℕ
  pub sstables_read : ℕ
  pub sstables_written : ℕ

pub record LsmEngine : Type 0 where
  pub memtable_size : ℕ
  pub block_size : ℕ
  pub memtable : MemTable
  pub immutable_memtables : List MemTable
  pub wal : Wal
  pub sstables : List SstFile
  pub next_sst_id : ℕ
  pub secondary_indexes : List SecondaryIndex
  pub active_snapshots : List DocumentId
  pub wal_batch : List IBlob
  pub has_compaction_thread : Bool
  pub compaction_stats : CompactionStats
  pub effective_w : Scaling
  pub write_count : ℕ

-- What `get_at` and `scan_at` read.
abbrev pub layers : LsmEngine → Layers
layers e = record {
  memtable = e.memtable;
  immutable_memtables = e.immutable_memtables;
  sstables = map (λ s. s.reader) e.sstables;
}

-- The engine after an operation, and what it returns; an error leaves what was done before it.
abbrev pub Ran : Type 0
Ran = LsmEngine × Outcome (Unit {0})

abbrev pub and_then : Ran → (LsmEngine → Ran) → Ran
and_then (e, done u) next = next e
and_then (e, failed x) next = (e, failed x)
and_then (e, stuck) next = (e, stuck)

-- `fetch_add` on a 64-bit counter.
abbrev pub count_writes : ℕ → LsmEngine → LsmEngine
count_writes n e = record e { write_count = (e.write_count + n) % 2 ^ 64 }

-- `BTreeSet::insert` and `remove`, on the elements in their order.
unfoldable pub insert_version : DocumentId → List DocumentId → List DocumentId
insert_version v [] = v ∷ []
insert_version v (w ∷ ws) = elim (compare v w) [
  | lt ↦ v ∷ w ∷ ws
  | eq ↦ w ∷ ws
  | gt ↦ w ∷ insert_version v ws
]

unfoldable pub remove_version : DocumentId → List DocumentId → List DocumentId
remove_version v [] = []
remove_version v (w ∷ ws) = elim (compare v w) [ eq ↦ ws | _ ↦ w ∷ remove_version v ws ]

-- `snapshot`; the snapshot is its version.
unfoldable pub snapshot : DocumentId → LsmEngine → DocumentId × LsmEngine
unfolding insert_version
snapshot version e =
    (version, record e { active_snapshots = insert_version version e.active_snapshots })

-- `Drop for Snapshot`
unfoldable pub drop_snapshot : DocumentId → LsmEngine → LsmEngine
unfolding remove_version
drop_snapshot version e = record e { active_snapshots = remove_version version e.active_snapshots }

unfoldable pub oldest_snapshot : LsmEngine → Option DocumentId
oldest_snapshot e = elim e.active_snapshots [ [] ↦ none | v ∷ vs ↦ some v ]

abbrev pub ucs : LsmEngine → UcsCompaction
ucs e = Compaction.new e.effective_w e.memtable_size

module _ (float_level : ℕ → ℕ → ℕ → ℕ) where
  abbrev pub by_level : UcsCompaction → SstFile → SstFile → Ordering
  by_level u a b =
      then_with
        (compare (level_for_size float_level u (file_size a.reader))
          (level_for_size float_level u (file_size b.reader)))
        (compare b.path a.path)

  unfoldable pub sort_sstables_by_level : UcsCompaction → List SstFile → List SstFile
  sort_sstables_by_level u sstables = sort_by (by_level u) sstables

module _ (blake3 : List ℕ → List ℕ) (crc32 : List ℕ → ℕ) where
  unfoldable pub notify_all : List IBlob → SecondaryIndex → SecondaryIndex
  unfolding notify_put
  notify_all [] idx = idx
  notify_all (b ∷ bs) idx = notify_all bs (notify_put blake3 b idx)

  -- `wal_batch.lock().push(blob)`, of a document that is stamped.
  unfoldable pub enqueue : DocumentId → IBlob → LsmEngine → LsmEngine
  unfolding set_version
  enqueue version blob e = record (count_writes 1 e) {
    wal_batch = e.wal_batch ++ set_version version blob ∷ [];
  }

  abbrev pub written : List IBlob → LsmEngine → LsmEngine
  written blobs e =
      let (wal, encoded) = Wal.append_batch blake3 crc32 e.wal blobs in
      record e {
        wal = wal;
        secondary_indexes = map (notify_all encoded) e.secondary_indexes;
        memtable = insert_all blake3 encoded e.memtable;
      }

  -- What the writer does that gets the lock of the log: it takes the whole batch, and returns if
  -- another writer took it before.
  unfoldable pub commit : (LsmEngine → Ran) → LsmEngine → Ran
  unfolding notify_all Wal.append_batch insert_all
  commit rotate e = elim e.wal_batch [
    | [] ↦ (e, done tt)
    | b ∷ bs ↦
        let e' = written (b ∷ bs) (record e { wal_batch = [] }) in
        if should_flush e'.memtable then rotate e' else (e', done tt)
  ]

  unfoldable pub put : (LsmEngine → Ran) → DocumentId → IBlob → LsmEngine → Ran
  unfolding enqueue commit
  put rotate version blob e = commit rotate (enqueue version blob e)

  -- A new version for each document. The appends one by one write what a batch writes.
  abbrev pub stamp : List (DocumentId × IBlob) → List IBlob
  stamp [] = []
  stamp ((v, b) ∷ bs) = set_version v b ∷ stamp bs

  unfoldable pub put_batch : (LsmEngine → Ran) → List (DocumentId × IBlob) → LsmEngine → Ran
  unfolding notify_all Wal.append_batch insert_all set_version
  put_batch rotate [] e = (e, done tt)
  put_batch rotate (vb ∷ vbs) e =
      let e' = written (stamp (vb ∷ vbs)) (count_writes (length (vb ∷ vbs)) e) in
      if should_flush e'.memtable then rotate e' else (e', done tt)

  unfoldable pub delete : (LsmEngine → Ran) → DocumentId → DocumentId → LsmEngine → Ran
  unfolding Wal.append notify_delete set_version tombstone Memtable.insert
  delete rotate version id e =
      let (offset, wal, tomb) =
        Wal.append blake3 crc32 e.wal (set_version version (tombstone id)) in
      let (memtable, flush) = Memtable.insert blake3 e.memtable tomb in
      let e' : LsmEngine = record (count_writes 1 e) {
        wal = wal;
        secondary_indexes = map (notify_delete blake3 id) e.secondary_indexes;
        memtable = memtable;
      } in
      if flush then rotate e' else (e', done tt)
