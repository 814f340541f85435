-- ===== src/Lsm/Traverse/Members.antt =====
-- crates/ingodb-lsm/src/lib.rs, `traverse_at`: lists of documents, and the ids in them.
use ingodb.Base.{
  ℕ, ◌<◌, ◌≡◌, refl, sym, ap, ◌∙◌, ◌⊎◌, inl, inr, Bool, true, false, Bool-cases, List, [], ◌∷◌,
  ◌++◌, arith, All, subst, ◌==◌, ◌||◌,
}
use ingodb.Blob.Id.{DocumentId}
use ingodb.Blob.IBlob.{IBlob}
use ingodb.Lsm.Merge.Purge.{IsAscending}

-- The document is an element of the list.
abbrev pub In : IBlob → List IBlob → Type 0
In b [] = ⊥
In b (c ∷ cs) = (b ≡ c) ⊎ In b cs

pub In-All : (P : IBlob → Type 0) (b : IBlob) (bs : List IBlob) → All P bs → In b bs → P b
In-All P b [] a h = absurd h
In-All P b (c ∷ cs) a h = elim h [
  | inl e ↦ subst P (sym e) a.0
  | inr later ↦ In-All P b cs a.1 later
]

pub In-left : (b : IBlob) (bs cs : List IBlob) → In b bs → In b (bs ++ cs)
In-left b [] cs h = absurd h
In-left b (c ∷ bs) cs h = elim h [ inl e ↦ inl e | inr later ↦ inr (In-left b bs cs later) ]

pub In-right : (b : IBlob) (bs cs : List IBlob) → In b cs → In b (bs ++ cs)
In-right b [] cs h = h
In-right b (c ∷ bs) cs h = inr (In-right b bs cs h)

pub In-append : (b : IBlob) (bs cs : List IBlob) → In b (bs ++ cs) → In b bs ⊎ In b cs
In-append b [] cs h = inr h
In-append b (c ∷ bs) cs h = elim h [
  | inl e ↦ inl (inl e)
  | inr later ↦ elim (In-append b bs cs later) [ inl l ↦ inl (inr l) | inr r ↦ inr r ]
]

-- The list holds a document of the id.
abbrev pub has_blob : DocumentId → List IBlob → Bool
has_blob id [] = false
has_blob id (b ∷ bs) = b.id == id || has_blob id bs

-- No id is listed twice.
abbrev pub IsDistinct : List IBlob → Type 0
IsDistinct [] = Unit
IsDistinct (b ∷ bs) = (has_blob b.id bs ≡ false) × IsDistinct bs

pub has_blob-append :
    (id : ℕ) (bs cs : List IBlob) → has_blob id (bs ++ cs) ≡ (has_blob id bs || has_blob id cs)
has_blob-append id [] cs = refl
has_blob-append id (b ∷ bs) cs = ground (arith, has_blob-append id bs cs)

pub IsDistinct-append :
    (bs cs : List IBlob)
    → IsDistinct bs
    → IsDistinct cs
    → ((id : ℕ) → has_blob id bs ≡ true → has_blob id cs ≡ false)
    → IsDistinct (bs ++ cs)
IsDistinct-append [] cs a b apart = b
IsDistinct-append (b ∷ bs) cs a b' apart = (
  ground (arith, has_blob-append b.id bs cs, apart b.id, a),
  IsDistinct-append bs cs a.1 b' (λ id h. ground (arith, apart id)),
)

-- An id in a list is that of one of its documents.
pub has_blob-In :
    (id : ℕ) (bs : List IBlob) → has_blob id bs ≡ true → (b : IBlob) × In b bs × (b.id ≡ id)
has_blob-In id [] h = cc
has_blob-In id (b ∷ bs) h = elim (Bool-cases (b.id == id)) [
  | inl same ↦ (b, inl refl, ground arith)
  | inr other ↦ let (c, at, e) = has_blob-In id bs (ground arith) in (c, inr at, e)
]

-- In ascending order of the ids, a document is determined by its id.
pub In-unique :
    (b c : IBlob) (bs : List IBlob) → IsAscending bs → In b bs → In c bs → b.id ≡ c.id → b ≡ c
In-unique b c [] a h k e = absurd h
In-unique b c (d ∷ bs) a (inl h) (inl k) e = h ∙ sym k
In-unique b c (d ∷ bs) a (inl h) (inr k) e =
    let lt : d.id < c.id = In-All (λ x. d.id < x.id) c bs a.0 k in
    let same : b.id ≡ d.id = ap (λ x. x.id) h in absurd (omega arith)
In-unique b c (d ∷ bs) a (inr h) (inl k) e =
    let lt : d.id < b.id = In-All (λ x. d.id < x.id) b bs a.0 h in
    let same : c.id ≡ d.id = ap (λ x. x.id) k in absurd (omega arith)
In-unique b c (d ∷ bs) a (inr h) (inr k) e = In-unique b c bs a.1 h k e

All-cons_In : (c : IBlob) (cs bs : List IBlob) → All (λ b. In b cs) bs → All (λ b. In b (c ∷ cs)) bs
All-cons_In c cs [] a = tt
All-cons_In c cs (b ∷ bs) a = (inr a.0, All-cons_In c cs bs a.1)

pub All-In_self : (bs : List IBlob) → All (λ b. In b bs) bs
All-In_self [] = tt
All-In_self (b ∷ bs) = (inl refl, All-cons_In b bs bs (All-In_self bs))

-- An id is in a list exactly if a document of the list has it.
pub All-apart :
    (id : ℕ) (ids : ℕ → Bool) (bs : List IBlob)
    → All (λ c. ids c.id ≡ false) bs
    → ids id ≡ true
    → has_blob id bs ≡ false
All-apart id ids [] a h = refl
All-apart id ids (b ∷ bs) a h = elim (Bool-cases (b.id == id)) [
  | inl same ↦
      let e : b.id ≡ id = ground arith in
      let no : ids id ≡ false = subst (λ i. ids i ≡ false) e a.0 in absurd (cc (h, no))
  | inr other ↦ ground (arith, All-apart id ids bs a.1 h)
]

pub In-has_blob : (b : IBlob) (bs : List IBlob) → In b bs → has_blob b.id bs ≡ true
In-has_blob b [] h = absurd h
In-has_blob b (c ∷ bs) (inl e) = let i : b.id ≡ c.id = ap (λ x. x.id) e in ground arith
In-has_blob b (c ∷ bs) (inr later) = ground (arith, In-has_blob b bs later)
