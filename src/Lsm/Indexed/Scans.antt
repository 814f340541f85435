-- ===== src/Lsm/Indexed/Scans.antt =====
-- crates/ingodb-lsm/src/lib.rs, `scan_at`: the three ways to serve a scan, put together.
use ingodb.Base.{
  ℕ, zero, suc, sym, Bool, true, false, not, ◌&&◌, ◌||◌, Bool-cases, inl, inr, Option, none, some,
  List, [], ◌∷◌, arith, All, All-append, retain, take, if◌then◌else◌, subst, ◌==◌,
}
use mathlib.Core.List.{reverse, reverse-cons}
use ingodb.Base.Sort.{All-sort_by}
use ingodb.Blob.Id
use ingodb.Blob.Id.{DocumentId}
use ingodb.Blob.IBlob.{IBlob}
use ingodb.Memtable
use ingodb.Blob.Value.{Value}
use ingodb.Query.{Filter}
use ingodb.Query.Ast.{SortField}
use ingodb.Sstable.Error.{Outcome}
use ingodb.Lsm.Engine.{Layers, get_at}
use ingodb.Lsm.Scan.{
  blobs_of, select, sort_results, compare_fields, truncate, project_all, scan_layers,
  collect_layers, current,
}
use ingodb.Lsm.Traverse.Members.{has_blob}
use ingodb.Lsm.Secondary.{SecondaryIndex, matches_query}
use ingodb.Lsm.Secondary.Index.{iter_sorted, range_scan}
use ingodb.Lsm.Indexed.{
  find_index, scan_with_secondary_index, scan_with_filter_index, finish_sorted, Served, serve,
  serve_filter, by_sorted_index, by_filter_index, finish, or_layers, finish_filter, try_index,
  scan_at, names_of, are_ascending, are_descending,
}
use ingodb.Lsm.Follow.{
  push_unseen, ids_of, all_ascending, merge_memtable, memtable_matches, boundaries, is_single,
}
use ingodb.Lsm.Indexed.Sound.{
  IsMatch, Returns, Returns-bind, Returns-any, follow_sorted-IsMatch, follow_filter-IsMatch,
  get_at-IsLive,
}

select-IsMatch :
    (filter : Option Filter) (bs : List IBlob) → All (IsMatch filter) (select filter bs)
unfolding select
select-IsMatch filter [] = tt
select-IsMatch filter (b ∷ bs) = ground (arith, select-IsMatch filter bs)

module _ (P : IBlob → Type 0) where
  All-take : (n : ℕ) (bs : List IBlob) → All P bs → All P (take n bs)
  All-take zero bs a = tt
  All-take (suc n) [] a = tt
  All-take (suc n) (b ∷ bs) a = (a.0, All-take n bs a.1)

  All-truncate : (limit : Option ℕ) (bs : List IBlob) → All P bs → All P (truncate limit bs)
  unfolding truncate
  All-truncate none bs a = a
  All-truncate (some lim) bs a = All-take lim bs a

  All-reverse : (bs : List IBlob) → All P bs → All P (reverse bs)
  All-reverse [] a = tt
  All-reverse (b ∷ bs) a =
      subst (All P) (sym (reverse-cons b bs))
        (All-append P (reverse bs) (b ∷ []) (All-reverse bs a.1) (a.0, tt))

  All-retain : (test : IBlob → Bool) (bs : List IBlob) → All P bs → All P (retain test bs)
  All-retain test [] a = tt
  All-retain test (b ∷ bs) a = ground (arith, All-retain test bs a.1)

  All-push_unseen :
      (docs : List IBlob) (seen : List DocumentId) → All P docs → All P (push_unseen docs seen)
  unfolding push_unseen
  All-push_unseen [] seen a = tt
  All-push_unseen (d ∷ docs) seen a =
      ground (arith, All-push_unseen docs seen a.1, All-push_unseen docs (d.id ∷ seen) a.1)

  All-sort_results :
      (sort : Option (List SortField)) (bs : List IBlob) → All P bs → All P (sort_results sort bs)
  unfolding sort_results
  All-sort_results none bs a = a
  All-sort_results (some sfs) bs a = All-sort_by (compare_fields sfs) P bs a

  All-merge_memtable :
      (fields : List (List ℕ)) (limit : Option ℕ) (docs results : List IBlob)
      → All P docs
      → All P results
      → All P (merge_memtable fields limit docs results)
  unfolding merge_memtable
  All-merge_memtable fields limit [] results a b = b
  All-merge_memtable fields limit (d ∷ docs) results a b =
      let kept = retain (λ c. not (has_blob c.id (d ∷ docs))) results in
      All-truncate limit _ (
        All-sort_results (some (all_ascending fields)) _ (
          All-append P kept _ (All-retain _ results b)
            (All-push_unseen (d ∷ docs) (ids_of kept) a)))

memtable_matches-IsMatch :
    (filter : Filter) (snapshot : DocumentId) (bs : List IBlob) (seen : List DocumentId)
    → All (IsMatch (some filter)) (memtable_matches filter snapshot bs seen)
unfolding memtable_matches
memtable_matches-IsMatch filter snapshot [] seen = tt
memtable_matches-IsMatch filter snapshot (b ∷ bs) seen = ground (
  arith,
  memtable_matches-IsMatch filter snapshot bs seen,
  memtable_matches-IsMatch filter snapshot bs (b.id ∷ seen),
)

-- What a scan returns, if it was served, has the property.
abbrev pub IsServed : (List IBlob → Type 0) → Option (Outcome (List IBlob)) → Type 0
IsServed P none = Unit
IsServed P (some result) = Returns P result

pub serve-IsServed :
    (P : List IBlob → Type 0) (indexes : List SecondaryIndex)
    (found : Option (SecondaryIndex × List SecondaryIndex))
    (result : SecondaryIndex → Outcome (List IBlob))
    → ((idx : SecondaryIndex) → Returns P (result idx))
    → IsServed P (serve indexes found result).0
serve-IsServed P indexes none result h = tt
serve-IsServed P indexes (some (idx, later)) result h = h idx

pub finish-IsServed :
    (P : List IBlob → Type 0) (f : Outcome (List IBlob) → Outcome (List IBlob)) (served : Served)
    → ((r : Outcome (List IBlob)) → Returns P r → Returns P (f r))
    → IsServed P served.0
    → IsServed P (finish f served).0
finish-IsServed P f (none, indexes) h k = tt
finish-IsServed P f (some r, indexes) h k = h r k

finish_sorted-IsMatch :
    (filter : Option Filter) (sfs : List SortField) (limit : Option ℕ) (r : Outcome (List IBlob))
    → Returns (All (IsMatch filter)) r
    → Returns (All (IsMatch filter)) (finish_sorted sfs none limit r)
unfolding project_all
finish_sorted-IsMatch filter sfs limit r h =
    Returns-bind (All (IsMatch filter)) (All (IsMatch filter)) r _ h (λ results a.
      elim (Bool-cases (are_descending sfs)) [
        | inl down ↦ rw down (All-truncate _ limit _ (All-reverse _ results a))
        | inr up ↦ rw up a
      ])

finish_filter-IsMatch :
    (filter : Option Filter) (r : Outcome (List IBlob))
    → Returns (All (IsMatch filter)) r
    → Returns (All (IsMatch filter)) (finish_filter none r)
unfolding project_all
finish_filter-IsMatch filter r h =
    Returns-bind (All (IsMatch filter)) (All (IsMatch filter)) r _ h (λ results a. a)

pub IsServed-if :
    (P : List IBlob → Type 0) (t : Bool) (a b : Served)
    → IsServed P a.0
    → IsServed P b.0
    → IsServed P (if t then a else b).0
IsServed-if P true a b h k = h
IsServed-if P false a b h k = k

pub or_layers-Returns :
    (P : List IBlob → Type 0) (served : Served) (layers : Outcome (List IBlob))
    → IsServed P served.0
    → Returns P layers
    → Returns P (or_layers served layers).0
or_layers-Returns P (some r, indexes) layers h k = h
or_layers-Returns P (none, indexes) layers h k = k

module _ (blake3 : List ℕ → List ℕ) (decompress : List ℕ → Option (List ℕ))
    (crc32 : List ℕ → ℕ) where
  scan_layers-IsMatch :
      (filter : Option Filter) (sort : Option (List SortField)) (limit : Option ℕ)
      (snapshot : DocumentId) (e : Layers)
      → Returns
          (All (IsMatch filter))
          (scan_layers blake3 decompress crc32 filter sort none limit snapshot e)
  unfolding scan_layers project_all
  scan_layers-IsMatch filter sort limit snapshot e =
      Returns-bind (λ all. Unit {0}) (All (IsMatch filter)) _ _
        (Returns-any (collect_layers blake3 decompress crc32 e))
        (λ all h.
          All-truncate _ limit _
            (All-sort_results _ sort _ (select-IsMatch filter (current snapshot all))))

  by_sorted_index-IsMatch :
      (fields : List (List ℕ)) (filter : Option Filter) (limit : Option ℕ) (e : Layers)
      (idx : SecondaryIndex)
      → Returns
          (All (IsMatch filter))
          (by_sorted_index blake3 decompress crc32 fields filter limit e idx)
  unfolding by_sorted_index
  by_sorted_index-IsMatch fields filter limit e idx =
      Returns-bind (λ entries. Unit {0}) (All (IsMatch filter)) _ _
        (Returns-any (iter_sorted blake3 decompress crc32 idx))
        (λ entries h.
          Returns-bind (All (IsMatch filter)) (All (IsMatch filter)) _ _
            (follow_sorted-IsMatch (λ id. get_at blake3 decompress crc32 e id Id.max)
              (λ id. get_at-IsLive blake3 decompress crc32 e id Id.max) idx.fields filter limit
              entries [] tt)
            (λ results a.
              All-merge_memtable _ fields limit _ results
                (select-IsMatch filter (blobs_of (Memtable.iter e.memtable))) a))

  by_filter_index-IsMatch :
      (among : ℕ) (filter : Filter) (start_val end_val : Option Value) (limit : Option ℕ)
      (snapshot : DocumentId) (e : Layers) (idx : SecondaryIndex)
      → Returns (All (IsMatch (some filter))) (
          by_filter_index blake3 decompress crc32 among filter start_val end_val limit snapshot e
            idx)
  unfolding by_filter_index
  by_filter_index-IsMatch among filter start_val end_val limit snapshot e idx =
      Returns-bind (λ entries. Unit {0}) (All (IsMatch (some filter))) _ _
        (Returns-any (range_scan blake3 decompress crc32 among start_val end_val idx))
        (λ entries h.
          Returns-bind (λ (r : List IBlob × List DocumentId). All (IsMatch (some filter)) r.0)
            (All (IsMatch (some filter))) _ _
            (follow_filter-IsMatch (λ id. get_at blake3 decompress crc32 e id snapshot)
              (λ id. get_at-IsLive blake3 decompress crc32 e id snapshot) filter limit entries [] []
              tt)
            (λ found a. All-append _ found.0 _ a (
              memtable_matches-IsMatch filter snapshot (blobs_of (Memtable.iter e.memtable))
                found.1)))

  module _ (now among : ℕ) where
    serve_filter-IsServed :
        (filter : Filter) (limit : Option ℕ) (snapshot : DocumentId) (e : Layers)
        (indexes : List SecondaryIndex) (ends : Option (List ℕ × Option Value × Option Value))
        → IsServed
            (All (IsMatch (some filter)))
            (serve_filter blake3 decompress crc32 now among filter limit snapshot e indexes ends).0
    serve_filter-IsServed filter limit snapshot e indexes none = tt
    serve_filter-IsServed filter limit snapshot e indexes (some (field, start_val, end_val)) =
        serve-IsServed (All (IsMatch (some filter))) indexes
          (find_index now (λ idx. is_single field idx.fields) indexes) _
          (by_filter_index-IsMatch among filter start_val end_val limit snapshot e)

    try_index-IsServed :
        (filter : Option Filter) (sort : Option (List SortField)) (limit : Option ℕ)
        (snapshot : DocumentId) (e : Layers) (indexes : List SecondaryIndex)
        → IsServed
            (All (IsMatch filter))
            (try_index blake3 decompress crc32 now among filter sort none limit snapshot e
              indexes).0
    unfolding try_index scan_with_secondary_index scan_with_filter_index
    try_index-IsServed filter (some sfs) limit snapshot e indexes =
        IsServed-if (All (IsMatch filter))
          (snapshot == Id.max && (are_ascending sfs || are_descending sfs)) _ (none, indexes)
          (finish-IsServed (All (IsMatch filter)) (finish_sorted sfs none limit) _
            (finish_sorted-IsMatch filter sfs limit)
            (serve-IsServed (All (IsMatch filter)) indexes
              (find_index now (λ idx. matches_query idx (names_of sfs) filter) indexes) _
              (by_sorted_index-IsMatch (names_of sfs) filter limit e)))
          tt
    try_index-IsServed (some filter) none limit snapshot e indexes =
        IsServed-if (All (IsMatch (some filter))) (snapshot == Id.max) _ (none, indexes)
          (finish-IsServed (All (IsMatch (some filter))) (finish_filter none) _
            (finish_filter-IsMatch (some filter))
            (serve_filter-IsServed filter limit snapshot e indexes (boundaries filter)))
          tt
    try_index-IsServed none none limit snapshot e indexes = tt

    -- A scan without a projection, at any snapshot, over any layers and indexes: whatever serves it, a
    -- document that it returns is no tombstone, and the filter matches it.
    pub scan_at-IsMatch :
        (filter : Option Filter) (sort : Option (List SortField)) (limit : Option ℕ)
        (snapshot : DocumentId) (e : Layers) (indexes : List SecondaryIndex)
        → Returns
            (All (IsMatch filter))
            (scan_at blake3 decompress crc32 now among filter sort none limit snapshot e indexes).0
    unfolding scan_at
    scan_at-IsMatch filter sort limit snapshot e indexes =
        or_layers-Returns (All (IsMatch filter)) _ _
          (try_index-IsServed filter sort limit snapshot e indexes)
          (scan_layers-IsMatch filter sort limit snapshot e)
