-- ===== src/Lsm/Follow.antt =====
-- crates/ingodb-lsm/src/lib.rs: the loops of a scan over the entries of an index, and what the scan takes
-- from the memtable.
use ingodb.Base.{
  ℕ, Bool, true, false, not, ◌&&◌, ◌||◌, leb, Option, none, some, List, [], ◌∷◌, ◌++◌, retain,
  length, if◌then◌else◌,
}
use ingodb.Blob.Id.{DocumentId}
use ingodb.Blob.Value.{Value}
use ingodb.Blob.IBlob.{IBlob, is_deleted, get_field}
use ingodb.Query.{Filter, equals, greater, less, range, matches, value_eq, bytes_eq}
use ingodb.Query.Ast.{ascending, SortField}
use ingodb.Sstable.Error.{Outcome, done, ◌>>=◌}
use ingodb.Lsm.Scan.{passes, visible, sort_results, truncate}
use ingodb.Lsm.Traverse.{has_id}
use ingodb.Lsm.Traverse.Members.{has_blob}

abbrev pub option_eq : Option Value → Option Value → Bool
option_eq none none = true
option_eq (some v) (some w) = value_eq v w
option_eq _ _ = false

-- The stale check: the indexed fields have the values that the index holds.
unfoldable pub is_current : List (List ℕ) → IBlob → IBlob → Bool
is_current [] b projected = true
is_current (f ∷ fs) b projected =
    option_eq (get_field b f) (get_field projected f) && is_current fs b projected

-- `results.len() >= lim`
abbrev pub is_reached : Option ℕ → List IBlob → Bool
is_reached none results = false
is_reached (some lim) results = leb lim (length results)

-- The documents whose ids were not seen, in order.
unfoldable pub push_unseen : List IBlob → List DocumentId → List IBlob
push_unseen [] seen = []
push_unseen (doc ∷ docs) seen = elim (has_id doc.id seen) [
  | true ↦ push_unseen docs seen
  | false ↦ doc ∷ push_unseen docs (doc.id ∷ seen)
]

abbrev pub ids_of : List IBlob → List DocumentId
ids_of [] = []
ids_of (b ∷ bs) = b.id ∷ ids_of bs

abbrev pub all_ascending : List (List ℕ) → List SortField
all_ascending [] = []
all_ascending (f ∷ fs) = record { name = f; direction = ascending } ∷ all_ascending fs

-- The merge of what the index gave with the documents of the memtable.
unfoldable pub merge_memtable : List (List ℕ) → Option ℕ → List IBlob → List IBlob → List IBlob
unfolding push_unseen sort_results truncate
merge_memtable sort_fields limit [] results = results
merge_memtable sort_fields limit (doc ∷ docs) results =
    let memtable_docs = doc ∷ docs in
    let kept = retain (λ b. not (has_blob b.id memtable_docs)) results in
    truncate limit (
      sort_results (some (all_ascending sort_fields))
        (kept ++ push_unseen memtable_docs (ids_of kept)))

-- The field and the ends of the range that a simple filter asks for.
unfoldable pub boundaries : Filter → Option (List ℕ × Option Value × Option Value)
boundaries (equals name v) = some (name, some v, some v)
boundaries (greater name v) = some (name, some v, none)
boundaries (less name v) = some (name, none, some v)
boundaries (range name low high) = some (name, some low, some high)
boundaries _ = none

abbrev pub is_single : List ℕ → List (List ℕ) → Bool
is_single name (f ∷ []) = bytes_eq f name
is_single name _ = false

-- The documents of the memtable that the filter matches and that were not seen.
unfoldable pub memtable_matches : Filter → DocumentId → List IBlob → List DocumentId → List IBlob
unfolding visible
memtable_matches filter snapshot [] seen = []
memtable_matches filter snapshot (b ∷ bs) seen =
    elim (not (is_deleted b || not (visible snapshot b))
      && (matches filter (get_field b) && not (has_id b.id seen))) [
        | true ↦ b ∷ memtable_matches filter snapshot bs (b.id ∷ seen)
        | false ↦ memtable_matches filter snapshot bs seen
      ]

module _ (get : DocumentId → Outcome (Option IBlob)) where
  -- The loop of the sorted scan over the entries of the index, from the results so far.
  unfoldable pub follow_sorted :
      List (List ℕ)
      → Option Filter
      → Option ℕ
      → List (DocumentId × IBlob)
      → List IBlob
      → Outcome (List IBlob)
  unfolding is_current
  follow_sorted fields filter limit [] results = done results
  follow_sorted fields filter limit ((id, projected) ∷ entries) results =
      let same = follow_sorted fields filter limit entries results in
      elim (is_deleted projected) [
        | true ↦ same
        | false ↦ get id >>= (λ found. elim found [
          | none ↦ same
          | some blob ↦
              let more = follow_sorted fields filter limit entries (results ++ blob ∷ []) in
              if is_current fields blob projected && passes filter blob
              then (if is_reached limit (results ++ blob ∷ [])
                  then done (results ++ blob ∷ [])
                  else more)
              else same
        ])
      ]

  -- The loop of the filter scan: the results, and the ids seen.
  unfoldable pub follow_filter :
      Filter
      → Option ℕ
      → List (DocumentId × IBlob)
      → List IBlob
      → List DocumentId
      → Outcome (List IBlob × List DocumentId)
  follow_filter filter limit [] results seen = done (results, seen)
  follow_filter filter limit ((id, projected) ∷ entries) results seen =
      let same = follow_filter filter limit entries results seen in
      elim (is_deleted projected) [
        | true ↦ same
        | false ↦ get id >>= (λ found. elim found [
          | none ↦ same
          | some blob ↦
              let results' = results ++ blob ∷ [] in
              let more = follow_filter filter limit entries results' (blob.id ∷ seen) in
              if matches filter (get_field blob) && not (has_id blob.id seen)
              then (if is_reached limit results' then done (results', blob.id ∷ seen) else more)
              else same
        ])
      ]
