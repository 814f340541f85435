-- ===== src/Lsm/Traverse/Round.antt =====
-- crates/ingodb-lsm/src/lib.rs, `traverse_at`: one round of joins.
use ingodb.Base.{
  ℕ, ◌≡◌, refl, ap, inl, inr, true, false, Bool-cases, some, List, [], ◌∷◌, arith, All, subst,
  Option-cases, ◌||◌,
}
use ingodb.Blob.Id.{DocumentId}
use ingodb.Blob.Value.{Value}
use ingodb.Blob.IBlob.{IBlob, get_field}
use ingodb.Query.{value_eq}
use ingodb.Lsm.Traverse.Members.{In, has_blob, IsDistinct}
use ingodb.Lsm.Traverse.{contains_value, has_id, join_values, is_target, next_round}

-- A document joins another by a value of its field.
abbrev pub Joins : List ℕ → List ℕ → IBlob → IBlob → Type 0
Joins from_field to_field b c =
    (v : Value) × (get_field b from_field ≡ some v)
    × (w : Value) × (get_field c to_field ≡ some w)
    × (value_eq v w ≡ true)

contains_value-join :
    (from_field : List ℕ) (bs : List IBlob) (w : Value)
    → contains_value (join_values from_field bs) w ≡ true
    → (b : IBlob) × In b bs
      × (v : Value) × (get_field b from_field ≡ some v)
      × (value_eq v w ≡ true)
unfolding join_values
contains_value-join from_field [] w h = absurd (ground arith)
contains_value-join from_field (b ∷ bs) w h = elim (Option-cases (get_field b from_field)) [
  | inl missing ↦
      let (c, at, v, f, e) = contains_value-join from_field bs w (ground (arith, missing)) in
      (c, inr at, v, f, e)
  | inr found ↦ elim (Bool-cases (value_eq found.0 w)) [
    | inl same ↦ (b, inl refl, found.0, found.1, same)
    | inr other ↦
        let (c, at, v, f, e) = contains_value-join from_field bs w (ground (arith, found.1)) in
        (c, inr at, v, f, e)
  ]
]

contains_value-intro :
    (from_field : List ℕ) (b : IBlob) (bs : List IBlob) (v w : Value)
    → In b bs
    → get_field b from_field ≡ some v
    → value_eq v w ≡ true
    → contains_value (join_values from_field bs) w ≡ true
unfolding join_values
contains_value-intro from_field b [] v w h f e = absurd h
contains_value-intro from_field b (c ∷ bs) v w (inl h) f e =
    let f' : get_field c from_field ≡ some v = subst (λ x. get_field x from_field ≡ some v) h f in
    ground arith
contains_value-intro from_field b (c ∷ bs) v w (inr h) f e =
    ground (arith, contains_value-intro from_field b bs v w h f e)

-- The targets of the join values of some documents are the documents that one of them joins.
pub is_target-Joins :
    (from_field to_field : List ℕ) (bs : List IBlob) (c : IBlob)
    → is_target to_field (join_values from_field bs) c ≡ true
    → (b : IBlob) × In b bs × Joins from_field to_field b c
is_target-Joins from_field to_field bs c h = elim (Option-cases (get_field c to_field)) [
  | inl missing ↦ absurd (ground (arith, missing))
  | inr found ↦
      let (b, at, v, f, e) = contains_value-join from_field bs found.0 (ground (arith, found.1)) in
      (b, at, (v, f, found.0, found.1, e))
]

pub Joins-is_target :
    (from_field to_field : List ℕ) (b c : IBlob) (bs : List IBlob)
    → In b bs
    → Joins from_field to_field b c
    → is_target to_field (join_values from_field bs) c ≡ true
Joins-is_target from_field to_field b c bs at (v, f, w, g, e) =
    rw g (contains_value-intro from_field b bs v w at f e)

module _ (to_field : List ℕ) (values : List Value) where
  abbrev pub Target : IBlob → Type 0
  Target c = is_target to_field values c ≡ true

  All-fresh :
      (P : IBlob → Type 0) (id : ℕ) (seen : List DocumentId) (bs : List IBlob)
      → All (λ c. P c × Target c × (has_id c.id (id ∷ seen) ≡ false)) bs
      → All (λ c. P c × Target c × (has_id c.id seen ≡ false)) bs
  All-fresh P id seen [] a = tt
  All-fresh P id seen (b ∷ bs) a =
      ((a.0.0, a.0.1, ground (arith, a.0.2)), All-fresh P id seen bs a.1)

  -- What a round joins are candidates that are targets, with ids that were not seen.
  pub next_round-All :
      (P : IBlob → Type 0) (docs : List IBlob) (seen : List DocumentId)
      → All P docs
      → All
          (λ c. P c × Target c × (has_id c.id seen ≡ false))
          (next_round to_field values docs seen).0
  unfolding next_round
  next_round-All P [] seen a = tt
  next_round-All P (doc ∷ docs) seen a = ground (
    arith,
    All-fresh P doc.id seen (next_round to_field values docs (doc.id ∷ seen)).0,
    next_round-All P docs (doc.id ∷ seen) a.1,
    next_round-All P docs seen a.1,
  )

  -- The ids seen after a round: those seen before, and those of the joined documents.
  pub next_round-seen :
      (docs : List IBlob) (seen : List DocumentId) (id : DocumentId)
      → has_id id (next_round to_field values docs seen).1
        ≡ (has_id id seen || has_blob id (next_round to_field values docs seen).0)
  unfolding next_round
  next_round-seen [] seen id = ground arith
  next_round-seen (doc ∷ docs) seen id =
      ground (arith, next_round-seen docs (doc.id ∷ seen) id, next_round-seen docs seen id)

  -- Every candidate that is a target has been seen after the round.
  pub next_round-Target :
      (docs : List IBlob) (seen : List DocumentId) (c : IBlob)
      → In c docs
      → Target c
      → has_id c.id (next_round to_field values docs seen).1 ≡ true
  unfolding next_round
  next_round-Target [] seen c at t = absurd at
  next_round-Target (doc ∷ docs) seen c (inl here) t =
      let t' : Target doc = subst Target here t in
      let i : c.id ≡ doc.id = ap (λ x. x.id) here in
      ground (arith, next_round-seen docs (doc.id ∷ seen) c.id, next_round-seen docs seen c.id)
  next_round-Target (doc ∷ docs) seen c (inr later) t = ground (
    arith,
    next_round-Target docs (doc.id ∷ seen) c later t,
    next_round-Target docs seen c later t,
  )

  -- No two documents of a round have one id, and none has an id that was seen.
  pub next_round-IsDistinct :
      (docs : List IBlob) (seen : List DocumentId)
      → IsDistinct (next_round to_field values docs seen).0
        × ((id : ℕ)
            → has_id id seen ≡ true
            → has_blob id (next_round to_field values docs seen).0 ≡ false)
  unfolding next_round
  next_round-IsDistinct [] seen = (tt, λ id h. refl)
  next_round-IsDistinct (doc ∷ docs) seen =
      let new = next_round-IsDistinct docs (doc.id ∷ seen) in
      let old = next_round-IsDistinct docs seen in
      (ground (arith, new, old, new.1 doc.id), λ id h. ground (arith, new.1 id, old.1 id))
