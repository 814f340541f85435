-- ===== src/Lsm/Scan.antt =====
-- crates/ingodb-lsm/src/lib.rs, `scan_at`: the scan that reads every layer.
--
-- What the scan records in the query statistics is left out, as is the partial index that a large
-- sorted scan spills: neither changes the documents that this scan returns.
pub mod Select
pub mod Memtables
pub mod Ordered
pub mod Kept
pub mod Sorted
pub mod Tables
use ingodb.Base.{
  ℕ, Bool, true, false, not, Option, none, some, List, [], ◌∷◌, ◌++◌, map, length, take, leb,
  retain, Ordering, lt, eq, gt, then_with,
}
use ingodb.Base.Sort.{sort_by}
use ingodb.Blob.Id.{DocumentId}
use ingodb.Blob.Value.{Value}
use ingodb.Blob.IBlob
use ingodb.Blob.IBlob.{IBlob, is_deleted, get_field}
use ingodb.Memtable
use ingodb.Memtable.{MemTable}
use ingodb.Query.{Filter, matches, compare_values}
use ingodb.Query.Ast.{SortDirection, ascending, descending, SortField}
use ingodb.Sstable.Error.{Outcome, done, ◌>>=◌}
use ingodb.Sstable.Reader.{Entry, SstableReader}
use ingodb.Sstable.Lookup
use ingodb.Lsm.Merge.{by_id_version, dedup_by_id}
use ingodb.Lsm.Engine.{Layers}

-- `.map(|(_, blob)| blob)`
abbrev pub blobs_of {ℓ} : {A : Type ℓ} → List (A × IBlob) → List IBlob
blobs_of [] = []
blobs_of (kv ∷ kvs) = kv.1 ∷ blobs_of kvs

unfoldable pub immutable_blobs : List MemTable → List IBlob
immutable_blobs [] = []
immutable_blobs (mt ∷ mts) = blobs_of (Memtable.iter mt) ++ immutable_blobs mts

unfoldable pub memtable_blobs : Layers → List IBlob
unfolding immutable_blobs
memtable_blobs e = blobs_of (Memtable.iter e.memtable) ++ immutable_blobs e.immutable_memtables

unfoldable pub visible : DocumentId → IBlob → Bool
visible snapshot b = leb b.version snapshot

-- The versions up to the snapshot, the newest of each document.
unfoldable pub current : DocumentId → List IBlob → List IBlob
unfolding visible dedup_by_id
current snapshot all = dedup_by_id (sort_by by_id_version (retain (visible snapshot) all))

-- `docs_scanned`
unfoldable pub live_count : List IBlob → ℕ
live_count all = length (retain (λ b. not (is_deleted b)) all)

abbrev pub passes : Option Filter → IBlob → Bool
passes none b = true
passes (some f) b = matches f (get_field b)

-- The loop that skips tombstones and what the filter does not match.
unfoldable pub select : Option Filter → List IBlob → List IBlob
select filter [] = []
select filter (b ∷ bs) = elim (is_deleted b) [
  | true ↦ select filter bs
  | false ↦ elim (passes filter b) [ true ↦ b ∷ select filter bs | false ↦ select filter bs ]
]

abbrev pub reverse : Ordering → Ordering
reverse lt = gt
reverse eq = eq
reverse gt = lt

-- `unwrap_or(Equal)`
abbrev pub or_equal : Option Ordering → Ordering
or_equal none = eq
or_equal (some o) = o

-- A document that has the field stands before one that has not.
abbrev pub field_order : Option Value → Option Value → Ordering
field_order (some a) (some b) = or_equal (compare_values a b)
field_order (some a) none = lt
field_order none (some b) = gt
field_order none none = eq

abbrev pub directed : SortDirection → Ordering → Ordering
directed ascending o = o
directed descending o = reverse o

abbrev pub field_cmp : SortField → IBlob → IBlob → Ordering
field_cmp sf a b = directed sf.direction (field_order (get_field a sf.name) (get_field b sf.name))

-- The comparator of the sort: the first field that tells two documents apart.
unfoldable pub compare_fields : List SortField → IBlob → IBlob → Ordering
compare_fields [] a b = eq
compare_fields (sf ∷ sfs) a b = then_with (field_cmp sf a b) (compare_fields sfs a b)

unfoldable pub sort_results : Option (List SortField) → List IBlob → List IBlob
unfolding compare_fields
sort_results none results = results
sort_results (some sort_fields) results = sort_by (compare_fields sort_fields) results

-- `results.truncate(lim)`
unfoldable pub truncate : Option ℕ → List IBlob → List IBlob
truncate none results = results
truncate (some lim) results = take lim results

unfoldable pub project_all : Option (List (List ℕ)) → List IBlob → List IBlob
project_all none results = results
project_all (some fields) results = map (λ b. IBlob.project b fields) results

module _ (blake3 : List ℕ → List ℕ) (decompress : List ℕ → Option (List ℕ))
    (crc32 : List ℕ → ℕ) where
  unfoldable pub sstable_blobs : List SstableReader → Outcome (List IBlob)
  unfolding Lookup.iter
  sstable_blobs [] = done []
  sstable_blobs (sst ∷ sstables) =
      Lookup.iter blake3 decompress crc32 sst
      >>= (λ kvs. sstable_blobs sstables >>= (λ rest. done (blobs_of kvs ++ rest)))

  -- The blobs of the memtable, of the queued memtables, and of the tables.
  unfoldable pub collect_layers : Layers → Outcome (List IBlob)
  unfolding memtable_blobs sstable_blobs
  collect_layers e = sstable_blobs e.sstables >>= (λ tables. done (memtable_blobs e ++ tables))

  -- The scan that no index serves.
  unfoldable pub scan_layers :
      Option Filter
      → Option (List SortField)
      → Option (List (List ℕ))
      → Option ℕ
      → DocumentId
      → Layers
      → Outcome (List IBlob)
  unfolding collect_layers current select sort_results truncate project_all
  scan_layers filter sort project limit snapshot e = collect_layers e >>= (λ all. done (
      project_all project
        (truncate limit (sort_results sort (select filter (current snapshot all))))))
