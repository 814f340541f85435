-- ===== src/Base/Sort.antt =====
-- The standard library's stable sort (`sort_by`, `sort_by_key`), by insertion.
pub mod Permuted
use Prim.Native.Nat.{Ordering}
use Prim.Native.Nat.Ordering.{gt}
use mathlib.Core.Path.{◌≡◌}
use mathlib.Core.Logic.{◌≢◌}
use mathlib.Core.List.{List, [], ◌∷◌}
use native.Mathlib.Omega.{arith}
use ingodb.Base.Lists.{All, length}

module _ {ℓ} {A : Type ℓ} (cmp : A → A → Ordering) where
  -- `x` goes before the first element that is not below it.
  unfoldable pub place : A → List A → List A
  place x [] = x ∷ []
  place x (y ∷ ys) = elim (cmp x y) [ gt ↦ y ∷ place x ys | _ ↦ x ∷ y ∷ ys ]

  unfoldable pub sort_by : List A → List A
  sort_by [] = []
  sort_by (x ∷ xs) = place x (sort_by xs)

  pub All-place : (P : A → Type 0) (x : A) (ys : List A) → P x → All P ys → All P (place x ys)
  unfolding place
  All-place P x [] p a = (p, tt)
  All-place P x (y ∷ ys) p a = ground (arith, All-place P x ys p)

  pub All-sort_by : (P : A → Type 0) (xs : List A) → All P xs → All P (sort_by xs)
  unfolding sort_by
  All-sort_by P [] a = tt
  All-sort_by P (x ∷ xs) a = All-place P x (sort_by xs) a.0 (All-sort_by P xs a.1)

  length-place : (x : A) (ys : List A) → length (place x ys) ≡ length (x ∷ ys)
  unfolding place
  length-place x [] = ground arith
  length-place x (y ∷ ys) = ground (arith, length-place x ys)

  pub length-sort_by : (xs : List A) → length (sort_by xs) ≡ length xs
  unfolding sort_by
  length-sort_by [] = ground arith
  length-sort_by (x ∷ xs) = ground (arith, length-place x (sort_by xs), length-sort_by xs)

  -- Each element is not above any later one.
  abbrev pub IsSortedBy : List A → Type 0
  IsSortedBy [] = Unit
  IsSortedBy (x ∷ xs) = All (λ y. cmp x y ≢ gt) xs × IsSortedBy xs

  -- The comparator orders the elements of which `P` holds.
  module _ (P : A → Type 0) (flip : (x y : A) → P x → P y → cmp x y ≡ gt → cmp y x ≢ gt)
      (trans : (x y z : A) → P x → P y → P z → cmp x y ≢ gt → cmp y z ≢ gt → cmp x z ≢ gt) where
    pub All-trans_on :
        (x y : A) (zs : List A)
        → P x
        → P y
        → All P zs
        → cmp x y ≢ gt
        → All (λ z. cmp y z ≢ gt) zs
        → All (λ z. cmp x z ≢ gt) zs
    All-trans_on x y [] p q r h a = tt
    All-trans_on x y (z ∷ zs) p q r h a =
        (trans x y z p q r.0 h a.0, All-trans_on x y zs p q r.1 h a.1)

    place-IsSortedBy_on :
        (x : A) (ys : List A) → P x → All P ys → IsSortedBy ys → IsSortedBy (place x ys)
    unfolding place
    place-IsSortedBy_on x [] p q s = (tt, tt)
    place-IsSortedBy_on x (y ∷ ys) p q s = ground (
      arith,
      place-IsSortedBy_on x ys p q.1 s.1,
      All-place (λ z. cmp y z ≢ gt) x ys,
      All-trans_on x y ys p q.0 q.1,
      flip x y p q.0,
    )

    pub sort_by-IsSortedBy_on : (xs : List A) → All P xs → IsSortedBy (sort_by xs)
    unfolding sort_by
    sort_by-IsSortedBy_on [] p = tt
    sort_by-IsSortedBy_on (x ∷ xs) p =
        place-IsSortedBy_on x (sort_by xs) p.0 (All-sort_by P xs p.1) (sort_by-IsSortedBy_on xs p.1)

  All-Unit : (xs : List A) → All (λ x. Unit {0}) xs
  All-Unit [] = tt
  All-Unit (x ∷ xs) = (tt, All-Unit xs)

  module _ (flip : (x y : A) → cmp x y ≡ gt → cmp y x ≢ gt)
      (trans : (x y z : A) → cmp x y ≢ gt → cmp y z ≢ gt → cmp x z ≢ gt) where
    pub All-trans :
        (x y : A) (zs : List A)
        → cmp x y ≢ gt
        → All (λ z. cmp y z ≢ gt) zs
        → All (λ z. cmp x z ≢ gt) zs
    All-trans x y zs =
        All-trans_on (λ x. Unit {0}) (λ x y p q. flip x y) (λ x y z p q r. trans x y z) x y zs tt tt
          (All-Unit zs)

    pub sort_by-IsSortedBy : (xs : List A) → IsSortedBy (sort_by xs)
    sort_by-IsSortedBy xs =
        sort_by-IsSortedBy_on (λ x. Unit {0}) (λ x y p q. flip x y) (λ x y z p q r. trans x y z) xs
          (All-Unit xs)
