-- ===== src/Lsm/Indexed/Limit.antt =====
-- crates/ingodb-lsm/src/lib.rs, `scan_at`: how many documents a sorted scan with a limit returns.
use ingodb.Base.{
  ℕ, ◌≤◌, ◌<◌, ◌≡◌, refl, ap, ◌∙◌, ◌&&◌, ◌||◌, Bool-cases, inl, inr, Option, none, some, List, [],
  ◌∷◌, ◌++◌, arith, length, length-append, length-take, leb, max, ◌==◌,
}
use mathlib.Core.List.{reverse, reverse-cons}
use ingodb.Blob.Id
use ingodb.Blob.Id.{DocumentId}
use ingodb.Blob.IBlob.{IBlob, is_deleted}
use ingodb.Memtable
use ingodb.Query.{Filter}
use ingodb.Query.Ast.{SortField}
use ingodb.Sstable.Error.{Outcome}
use ingodb.Lsm.Engine.{Layers, get_at}
use ingodb.Lsm.Scan.{blobs_of, passes, select, truncate, project_all, scan_layers, collect_layers}
use ingodb.Lsm.Secondary.{SecondaryIndex, matches_query}
use ingodb.Lsm.Secondary.Index.{iter_sorted}
use ingodb.Lsm.Indexed.{
  by_sorted_index, find_index, scan_with_secondary_index, finish_sorted, try_index, scan_at,
  names_of, are_ascending, are_descending,
}
use ingodb.Lsm.Follow.{is_current, follow_sorted, merge_memtable}
use ingodb.Lsm.Indexed.Sound.{
  Returns, Returns-bind, Returns-any, Returns-elim, Returns-if, Returns-option,
}
use ingodb.Lsm.Indexed.Scans.{serve-IsServed, finish-IsServed, IsServed-if, or_layers-Returns}

-- At most as many documents as the limit, or one where the limit is zero.
abbrev pub IsWithin : ℕ → List IBlob → Type 0
IsWithin lim results = length results ≤ max 1 lim

truncate-IsWithin : (lim : ℕ) (bs : List IBlob) → IsWithin lim (truncate (some lim) bs)
unfolding truncate
truncate-IsWithin lim bs = omega (arith, length-take lim bs)

follow_sorted-IsWithin :
    (get : DocumentId → Outcome (Option IBlob)) (fields : List (List ℕ)) (filter : Option Filter)
    (lim : ℕ) (entries : List (DocumentId × IBlob)) (results : List IBlob)
    → length results < max 1 lim
    → Returns (IsWithin lim) (follow_sorted get fields filter (some lim) entries results)
unfolding follow_sorted
follow_sorted-IsWithin get fields filter lim [] results h = omega arith
follow_sorted-IsWithin get fields filter lim ((id, projected) ∷ entries) results h =
    let P = IsWithin lim in
    let same = follow_sorted-IsWithin get fields filter lim entries results h in
    Returns-elim P (is_deleted projected) _ _ (λ gone. same)
      (Returns-bind (λ o. Unit {0}) P (get id) _ (Returns-any (get id))
        (λ o t. Returns-option P o _ _ same (λ b.
          let n = length-append results (b ∷ []) in
          Returns-if P (is_current fields b projected && passes filter b) _ _
            (λ ok. elim (Bool-cases (leb lim (length (results ++ b ∷ [])))) [
              | inl full ↦ rw full (omega (arith, n))
              | inr room ↦ rw room (
                  follow_sorted-IsWithin get fields filter lim entries (results ++ b ∷ [])
                    (ground (arith, n)))
            ])
            same)))

merge_memtable-IsWithin :
    (fields : List (List ℕ)) (lim : ℕ) (docs results : List IBlob)
    → IsWithin lim results
    → IsWithin lim (merge_memtable fields (some lim) docs results)
unfolding merge_memtable
merge_memtable-IsWithin fields lim [] results h = h
merge_memtable-IsWithin fields lim (d ∷ docs) results h = truncate-IsWithin lim _

length-reverse : (bs : List IBlob) → length (reverse bs) ≡ length bs
length-reverse [] = refl
length-reverse (b ∷ bs) =
    ap length (reverse-cons b bs)
    ∙ omega (arith, length-append (reverse bs) (b ∷ []), length-reverse bs)

module _ (blake3 : List ℕ → List ℕ) (decompress : List ℕ → Option (List ℕ))
    (crc32 : List ℕ → ℕ) where
  by_sorted_index-IsWithin :
      (fields : List (List ℕ)) (filter : Option Filter) (lim : ℕ) (e : Layers)
      (idx : SecondaryIndex)
      → Returns
          (IsWithin lim)
          (by_sorted_index blake3 decompress crc32 fields filter (some lim) e idx)
  unfolding by_sorted_index
  by_sorted_index-IsWithin fields filter lim e idx =
      let P = IsWithin lim in
      Returns-bind (λ entries. Unit {0}) P _ _
        (Returns-any (iter_sorted blake3 decompress crc32 idx))
        (λ entries t.
          Returns-bind P P _ _
            (follow_sorted-IsWithin (λ id. get_at blake3 decompress crc32 e id Id.max) idx.fields
              filter lim entries [] (omega arith))
            (λ results h.
              merge_memtable-IsWithin fields lim
                (select filter (blobs_of (Memtable.iter e.memtable))) results h))

  finish_sorted-IsWithin :
      (sfs : List SortField) (lim : ℕ) (r : Outcome (List IBlob))
      → Returns (IsWithin lim) r
      → Returns (IsWithin lim) (finish_sorted sfs none (some lim) r)
  unfolding project_all
  finish_sorted-IsWithin sfs lim r h =
      Returns-bind (IsWithin lim) (IsWithin lim) r _ h (λ results a.
        elim (Bool-cases (are_descending sfs)) [
          | inl down ↦ rw down (truncate-IsWithin lim (reverse results))
          | inr up ↦ rw up a
        ])

  scan_layers-IsWithin :
      (filter : Option Filter) (sort : Option (List SortField)) (lim : ℕ) (snapshot : DocumentId)
      (e : Layers)
      → Returns
          (IsWithin lim)
          (scan_layers blake3 decompress crc32 filter sort none (some lim) snapshot e)
  unfolding scan_layers project_all
  scan_layers-IsWithin filter sort lim snapshot e =
      Returns-bind (λ all. Unit {0}) (IsWithin lim) _ _
        (Returns-any (collect_layers blake3 decompress crc32 e)) (λ all t. truncate-IsWithin lim _)

  -- A sorted scan with a limit and no projection, whether an index serves it or not: it returns at most as
  -- many documents as the limit, or one where the limit is zero.
  pub scan_at-IsWithin :
      (now among : ℕ) (filter : Option Filter) (sfs : List SortField) (lim : ℕ)
      (snapshot : DocumentId) (e : Layers) (indexes : List SecondaryIndex)
      → Returns
          (IsWithin lim)
          (scan_at blake3 decompress crc32 now among filter
            (some sfs)
            none
            (some lim)
            snapshot
            e
            indexes).0
  unfolding scan_at try_index scan_with_secondary_index
  scan_at-IsWithin now among filter sfs lim snapshot e indexes =
      let P = IsWithin lim in
      or_layers-Returns P _ _
        (IsServed-if P (snapshot == Id.max && (are_ascending sfs || are_descending sfs)) _
          (none, indexes)
          (finish-IsServed P (finish_sorted sfs none (some lim)) _ (finish_sorted-IsWithin sfs lim)
            (serve-IsServed P indexes
              (find_index now (λ idx. matches_query idx (names_of sfs) filter) indexes) _
              (by_sorted_index-IsWithin (names_of sfs) filter lim e)))
          tt)
        (scan_layers-IsWithin filter (some sfs) lim snapshot e)
