-- ===== src/Lsm/Traverse.antt =====
-- crates/ingodb-lsm/src/lib.rs, `traverse_at` and `execute`: joins by value, and the queries.
--
-- A traversal calls the scan of the engine, which is an argument here: the scan of the candidates is
-- the same in every round. The query statistics are left out. The set `seen` is the list of its ids.
pub mod Members
pub mod Round
pub mod Joined
pub mod Reach
use ingodb.Base.{
  ℕ, zero, suc, Bool, true, false, not, ◌&&◌, ◌||◌, ◌==◌, Option, none, some, List, [], ◌∷◌, ◌++◌,
}
use ingodb.Blob.Id.{DocumentId}
use ingodb.Blob.Value.{Value}
use ingodb.Blob.IBlob.{IBlob, get_field}
use ingodb.Query.{Filter, value_eq, holds_of}
use ingodb.Query.Ast.{Query, SortField}
use ingodb.Sstable.Error.{Outcome, done, ◌>>=◌}

-- `join_values.contains(&target_val)`
abbrev pub contains_value : List Value → Value → Bool
contains_value [] target = false
contains_value (v ∷ vs) target = value_eq v target || contains_value vs target

-- `seen.contains(&id)`
abbrev pub has_id : DocumentId → List DocumentId → Bool
has_id id [] = false
has_id id (i ∷ ids) = i == id || has_id id ids

-- The values of the field, of the documents that have it.
unfoldable pub join_values : List ℕ → List IBlob → List Value
join_values from_field [] = []
join_values from_field (b ∷ bs) = elim (get_field b from_field) [
  | none ↦ join_values from_field bs
  | some v ↦ v ∷ join_values from_field bs
]

-- Whether the target value of a document is among the join values.
abbrev pub is_target : List ℕ → List Value → IBlob → Bool
is_target to_field values doc = holds_of (contains_value values) (get_field doc to_field)

-- The loop over the candidates: the documents that are joined for the first time, and the set of the
-- ids seen.
unfoldable pub next_round :
    List ℕ → List Value → List IBlob → List DocumentId → List IBlob × List DocumentId
next_round to_field values [] seen = ([], seen)
next_round to_field values (doc ∷ docs) seen =
    elim (is_target to_field values doc && not (has_id doc.id seen)) [
      | true ↦
          let (next, later) = next_round to_field values docs (doc.id ∷ seen) in (doc ∷ next, later)
      | false ↦ next_round to_field values docs seen
    ]

module _ (scan : Option Filter → Outcome (List IBlob)) (from_field to_field : List ℕ) where
  -- `for _ in 0..depth`: it ends early when no document has a value to join by, and when no new
  -- document is joined.
  unfoldable pub rounds : ℕ → List IBlob → List IBlob → List DocumentId → Outcome (List IBlob)
  unfolding join_values next_round
  rounds zero all_results current seen = done all_results
  rounds (suc depth) all_results current seen = elim (join_values from_field current) [
    | [] ↦ done all_results
    | v ∷ vs ↦ scan none >>= (λ candidates.
        let (next, later) = next_round to_field (v ∷ vs) candidates seen in
        elim next [
          | [] ↦ done all_results
          | doc ∷ docs ↦ rounds depth (all_results ++ doc ∷ docs) (doc ∷ docs) later
        ])
  ]

  unfoldable pub traverse_at : Option Filter → ℕ → Outcome (List IBlob)
  unfolding rounds
  traverse_at start zero = done []
  traverse_at start (suc depth) = scan start >>= (λ current. rounds (suc depth) [] current [])

-- `into_iter().collect()` of an optional document
abbrev pub option_list : Option IBlob → List IBlob
option_list none = []
option_list (some b) = b ∷ []

module _ (get : DocumentId → Outcome (Option IBlob))
    (scan : Option Filter
      → Option (List SortField)
      → Option (List (List ℕ))
      → Option ℕ
      → Outcome (List IBlob)) where
  unfoldable pub execute : Query → Outcome (List IBlob)
  unfolding traverse_at
  execute (Query.get id) = get id >>= (λ found. done (option_list found))
  execute (Query.scan filter sort project limit) = scan filter sort project limit
  execute (Query.traverse start from_field to_field depth) =
      traverse_at (λ filter. scan filter none none none) from_field to_field start depth
