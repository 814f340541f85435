-- ===== src/Base/Orders.antt =====
-- The trait `Ord`: a comparison with its laws, as an instance; numbers, pairs and byte strings.
use mathlib.Core.List.{List, [], ◌∷◌}
use mathlib.Core.Path.{◌≡◌, refl}
use native.Mathlib.Omega.{arith}
use Prim.Native.Nat.{Ordering, compare, ℕ}
use Prim.Native.Nat.Ordering.{eq, gt, lt}

-- What the documentation of `Ord` asks of a comparison: a total order, whose equality is that of the
-- values.
pub record IsTotal {ℓ} {A : Type ℓ} (cmp : A → A → Ordering) : Type ℓ where
  pub lt_trans : (x y z : A) → cmp x y ≡ lt → cmp y z ≡ lt → cmp x z ≡ lt
  pub eq_of_cmp : (x y : A) → cmp x y ≡ eq → x ≡ y
  pub cmp_refl : (x : A) → cmp x x ≡ eq
  pub gt_of_lt : (x y : A) → cmp x y ≡ lt → cmp y x ≡ gt
  pub lt_of_gt : (x y : A) → cmp x y ≡ gt → cmp y x ≡ lt

pub record Ord {ℓ} (A : Type ℓ) : Type ℓ where
  pub cmp : A → A → Ordering
  pub total : IsTotal cmp
  pub open total use *

pub compare-IsTotal : IsTotal compare
compare-IsTotal = ground arith

instance unfoldable pub nat_ord : Ord ℕ
nat_ord = record { total = compare-IsTotal; cmp = compare }

-- `Ordering::then`
abbrev pub then_with : Ordering → Ordering → Ordering
then_with eq second = second
then_with first _ = first

-- Tuples compare lexicographically.
abbrev pub lex : ℕ × ℕ → ℕ × ℕ → Ordering
lex x y = then_with (compare x.0 y.0) (compare x.1 y.1)

pub lex-IsTotal : IsTotal {A = ℕ × ℕ} lex
lex-IsTotal = record {
  lt_trans = λ x y z. ground arith;
  eq_of_cmp = λ x y. ground arith;
  cmp_refl = λ x. ground arith;
  gt_of_lt = λ x y. ground arith;
  lt_of_gt = λ x y. ground arith;
}

instance unfoldable pub pair_ord : Ord (ℕ × ℕ)
pair_ord = record { total = lex-IsTotal; cmp = lex }

-- Slices compare lexicographically, a proper prefix first.
abbrev pub cmp_bytes : List ℕ → List ℕ → Ordering
cmp_bytes [] [] = eq
cmp_bytes [] (b ∷ ys) = lt
cmp_bytes (a ∷ xs) [] = gt
cmp_bytes (a ∷ xs) (b ∷ ys) = then_with (compare a b) (cmp_bytes xs ys)

pub cmp_bytes_refl : (xs : List ℕ) → cmp_bytes xs xs ≡ eq
cmp_bytes_refl [] = refl
cmp_bytes_refl (a ∷ xs) = ground (arith, cmp_bytes_refl xs)

pub cmp_bytes-eq : (xs ys : List ℕ) → cmp_bytes xs ys ≡ eq → xs ≡ ys
cmp_bytes-eq [] [] h = refl
cmp_bytes-eq [] (b ∷ ys) h = cc
cmp_bytes-eq (a ∷ xs) [] h = cc
cmp_bytes-eq (a ∷ xs) (b ∷ ys) h = ground (arith, cmp_bytes-eq xs ys)

cmp_bytes-gt : (xs ys : List ℕ) → cmp_bytes xs ys ≡ gt → cmp_bytes ys xs ≡ lt
cmp_bytes-gt [] [] h = cc
cmp_bytes-gt [] (b ∷ ys) h = cc
cmp_bytes-gt (a ∷ xs) [] h = refl
cmp_bytes-gt (a ∷ xs) (b ∷ ys) h = ground (arith, cmp_bytes-gt xs ys)

cmp_bytes-lt : (xs ys : List ℕ) → cmp_bytes xs ys ≡ lt → cmp_bytes ys xs ≡ gt
cmp_bytes-lt [] [] h = cc
cmp_bytes-lt [] (b ∷ ys) h = refl
cmp_bytes-lt (a ∷ xs) [] h = cc
cmp_bytes-lt (a ∷ xs) (b ∷ ys) h = ground (arith, cmp_bytes-lt xs ys)

cmp_bytes-lt_trans :
    (xs ys zs : List ℕ) → cmp_bytes xs ys ≡ lt → cmp_bytes ys zs ≡ lt → cmp_bytes xs zs ≡ lt
cmp_bytes-lt_trans [] [] zs h k = cc
cmp_bytes-lt_trans [] (b ∷ ys) [] h k = cc
cmp_bytes-lt_trans [] (b ∷ ys) (c ∷ zs) h k = refl
cmp_bytes-lt_trans (a ∷ xs) [] zs h k = cc
cmp_bytes-lt_trans (a ∷ xs) (b ∷ ys) [] h k = cc
cmp_bytes-lt_trans (a ∷ xs) (b ∷ ys) (c ∷ zs) h k = ground (arith, cmp_bytes-lt_trans xs ys zs)

pub cmp_bytes-IsTotal : IsTotal cmp_bytes
cmp_bytes-IsTotal = record {
  cmp_refl = cmp_bytes_refl;
  eq_of_cmp = cmp_bytes-eq;
  lt_of_gt = cmp_bytes-gt;
  gt_of_lt = cmp_bytes-lt;
  lt_trans = cmp_bytes-lt_trans;
}

instance unfoldable pub bytes_ord : Ord (List ℕ)
bytes_ord = record { cmp = cmp_bytes; total = cmp_bytes-IsTotal }
