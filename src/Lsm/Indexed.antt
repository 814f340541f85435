-- ===== src/Lsm/Indexed.antt =====
-- crates/ingodb-lsm/src/lib.rs: the scans that a secondary index serves, and `scan_at`, which tries them
-- first.
--
-- The statistics of the queries are left out, and with them the indexes that a scan spills or builds
-- when it is done. `now` is the clock.
pub mod Sound
pub mod Scans
pub mod Oldest
pub mod Limit
use ingodb.Base.{
  ℕ, Bool, true, false, not, ◌&&◌, ◌||◌, ◌==◌, leb, ltb, Option, none, some, List, [], ◌∷◌, ◌++◌,
  map, retain, length, take, if◌then◌else◌,
}
use mathlib.Core.List.{reverse}
use ingodb.Blob.Id
use ingodb.Blob.Id.{DocumentId}
use ingodb.Blob.Value.{Value}
use ingodb.Blob.IBlob.{IBlob, is_deleted, get_field}
use ingodb.Memtable
use ingodb.Query.{Filter, equals, greater, less, range, matches, value_eq, bytes_eq}
use ingodb.Query.Ast.{SortDirection, ascending, descending, SortField}
use ingodb.Sstable.Error.{Outcome, done, failed, stuck, ◌>>=◌}
use ingodb.Lsm.Engine.{Layers, get_at}
use ingodb.Lsm.Scan.{
  blobs_of, select, passes, visible, sort_results, truncate, project_all, scan_layers,
}
use ingodb.Lsm.Traverse.{has_id}
use ingodb.Lsm.Traverse.Members.{has_blob}
use ingodb.Lsm.Secondary.{SecondaryIndex, matches_query, mark_used, names_eq}
use ingodb.Lsm.Secondary.Index.{iter_sorted, range_scan}
use ingodb.Lsm.Follow.{
  option_eq, is_current, is_reached, push_unseen, ids_of, all_ascending, merge_memtable, boundaries,
  is_single, memtable_matches, follow_sorted, follow_filter,
}

-- `iter().find(...)`, with the indexes after the one found is marked as used.
abbrev pub cons_second :
    SecondaryIndex
    → Option (SecondaryIndex × List SecondaryIndex)
    → Option (SecondaryIndex × List SecondaryIndex)
cons_second idx none = none
cons_second idx (some (found, rest)) = some (found, idx ∷ rest)

unfoldable pub find_index :
    ℕ
    → (SecondaryIndex → Bool)
    → List SecondaryIndex
    → Option (SecondaryIndex × List SecondaryIndex)
find_index now test [] = none
find_index now test (idx ∷ indexes) =
    let rest = cons_second idx (find_index now test indexes) in
    if test idx then some (mark_used now idx, mark_used now idx ∷ indexes) else rest

-- The names and the directions of the sort fields.
abbrev pub names_of : List SortField → List (List ℕ)
names_of [] = []
names_of (sf ∷ sfs) = sf.name ∷ names_of sfs

abbrev pub is_ascending : SortDirection → Bool
is_ascending ascending = true
is_ascending descending = false

abbrev pub are_ascending : List SortField → Bool
are_ascending [] = true
are_ascending (sf ∷ sfs) = is_ascending sf.direction && are_ascending sfs

abbrev pub are_descending : List SortField → Bool
are_descending [] = true
are_descending (sf ∷ sfs) = not (is_ascending sf.direction) && are_descending sfs

-- The result of a scan, where an index serves it, with the indexes after it.
abbrev pub Served : Type 0
Served = Option (Outcome (List IBlob)) × List SecondaryIndex

-- A scan without an index is not served, and uses none.
abbrev pub serve :
    List SecondaryIndex
    → Option (SecondaryIndex × List SecondaryIndex)
    → (SecondaryIndex → Outcome (List IBlob))
    → Served
serve indexes none result = (none, indexes)
serve indexes (some (idx, later)) result = (some (result idx), later)

-- What a served scan does with a result: the reversal of a descending scan, and the projection.
abbrev pub finish_sorted :
    List SortField → Option (List (List ℕ)) → Option ℕ → Outcome (List IBlob) → Outcome (List IBlob)
finish_sorted sort_fields project limit result = result >>= (λ results. done (
    project_all project
      (if are_descending sort_fields then truncate limit (reverse results) else results)))

abbrev pub finish_filter : Option (List (List ℕ)) → Outcome (List IBlob) → Outcome (List IBlob)
finish_filter project result = result >>= (λ results. done (project_all project results))

abbrev pub finish : (Outcome (List IBlob) → Outcome (List IBlob)) → Served → Served
finish f (none, indexes) = (none, indexes)
finish f (some result, indexes) = (some (f result), indexes)

abbrev pub or_layers : Served → Outcome (List IBlob) → Outcome (List IBlob) × List SecondaryIndex
or_layers (some result, indexes) layers = (result, indexes)
or_layers (none, indexes) layers = (layers, indexes)

module _ (blake3 : List ℕ → List ℕ) (decompress : List ℕ → Option (List ℕ))
    (crc32 : List ℕ → ℕ) where
  -- The results of the sorted scan by an index.
  unfoldable pub by_sorted_index :
      List (List ℕ) → Option Filter → Option ℕ → Layers → SecondaryIndex → Outcome (List IBlob)
  unfolding iter_sorted follow_sorted select merge_memtable
  by_sorted_index sort_fields filter limit e idx =
      let memtable_docs = select filter (blobs_of (Memtable.iter e.memtable)) in
      iter_sorted blake3 decompress crc32 idx >>= (λ sorted_entries.
        follow_sorted (λ id. get_at blake3 decompress crc32 e id Id.max) idx.fields filter limit
          sorted_entries []
        >>= (λ results. done (merge_memtable sort_fields limit memtable_docs results)))

  -- The results of the filter scan by an index.
  unfoldable pub by_filter_index :
      ℕ
      → Filter
      → Option Value
      → Option Value
      → Option ℕ
      → DocumentId
      → Layers
      → SecondaryIndex
      → Outcome (List IBlob)
  unfolding range_scan follow_filter memtable_matches
  by_filter_index among filter start_val end_val limit snapshot e idx =
      range_scan blake3 decompress crc32 among start_val end_val idx >>= (λ range_entries.
        follow_filter (λ id. get_at blake3 decompress crc32 e id snapshot) filter limit
          range_entries [] []
        >>= (λ found. done (
            found.0
            ++ memtable_matches filter snapshot (blobs_of (Memtable.iter e.memtable)) found.1)))

module _ (blake3 : List ℕ → List ℕ) (decompress : List ℕ → Option (List ℕ)) (crc32 : List ℕ → ℕ)
    (now among : ℕ) where
  unfoldable pub scan_with_secondary_index :
      List (List ℕ) → Option Filter → Option ℕ → Layers → List SecondaryIndex → Served
  unfolding find_index matches_query by_sorted_index
  scan_with_secondary_index sort_fields filter limit e indexes =
      serve indexes (find_index now (λ idx. matches_query idx sort_fields filter) indexes)
        (by_sorted_index blake3 decompress crc32 sort_fields filter limit e)

  abbrev pub serve_filter :
      Filter
      → Option ℕ
      → DocumentId
      → Layers
      → List SecondaryIndex
      → Option (List ℕ × Option Value × Option Value)
      → Served
  serve_filter filter limit snapshot e indexes none = (none, indexes)
  serve_filter filter limit snapshot e indexes (some (field, start_val, end_val)) =
      serve indexes (find_index now (λ idx. is_single field idx.fields) indexes)
        (by_filter_index blake3 decompress crc32 among filter start_val end_val limit snapshot e)

  unfoldable pub scan_with_filter_index :
      Filter → Option ℕ → DocumentId → Layers → List SecondaryIndex → Served
  unfolding find_index boundaries by_filter_index
  scan_with_filter_index filter limit snapshot e indexes =
      serve_filter filter limit snapshot e indexes (boundaries filter)

  -- Which index is tried: for a sorted scan one on its fields, where they have one direction; for a
  -- scan with a filter alone one on the field of the filter. An old snapshot is served by none.
  unfoldable pub try_index :
      Option Filter
      → Option (List SortField)
      → Option (List (List ℕ))
      → Option ℕ
      → DocumentId
      → Layers
      → List SecondaryIndex
      → Served
  unfolding scan_with_secondary_index scan_with_filter_index truncate project_all
  try_index filter (some sort_fields) project limit snapshot e indexes =
      if snapshot == Id.max && (are_ascending sort_fields || are_descending sort_fields)
      then finish (finish_sorted sort_fields project limit)
          (scan_with_secondary_index (names_of sort_fields) filter limit e indexes)
      else (none, indexes)
  try_index (some filter) none project limit snapshot e indexes =
      if snapshot == Id.max
      then finish (finish_filter project) (scan_with_filter_index filter limit snapshot e indexes)
      else (none, indexes)
  try_index none none project limit snapshot e indexes = (none, indexes)

  unfoldable pub scan_at :
      Option Filter
      → Option (List SortField)
      → Option (List (List ℕ))
      → Option ℕ
      → DocumentId
      → Layers
      → List SecondaryIndex
      → Outcome (List IBlob) × List SecondaryIndex
  unfolding try_index scan_layers
  scan_at filter sort project limit snapshot e indexes =
      or_layers (try_index filter sort project limit snapshot e indexes)
        (scan_layers blake3 decompress crc32 filter sort project limit snapshot e)

  unfoldable pub scan :
      Option Filter
      → Option (List SortField)
      → Option (List (List ℕ))
      → Option ℕ
      → Layers
      → List SecondaryIndex
      → Outcome (List IBlob) × List SecondaryIndex
  unfolding scan_at
  scan filter sort project limit e indexes = scan_at filter sort project limit Id.max e indexes
