-- ===== src/Bytes/Order.antt =====
-- Big-endian bytes compare as the numbers do, and terminated strings as the strings do.
use native.Mathlib.Nat.{pow-suc}
use ingodb.Base.{
  ◌⊎◌, inl, inr, ℕ, zero, suc, ◌+◌, ◌*◌, ◌/◌, ◌%◌, ◌^◌, ◌<◌, ◌≡◌, refl, ap, compare, then_with,
  List, [], ◌∷◌, ◌++◌, arith, cmp_bytes, length,
}
use ingodb.Bytes.{to_be_bytes}
use ingodb.Bytes.Laws.{leading_digit, pow-pos}

compare-cases : (q s : ℕ) → (q < s) ⊎ ((q ≡ s) ⊎ (s < q))
compare-cases q s = omega arith

smaller : (p a b q r s t : ℕ) → a ≡ q * p + r → b ≡ s * p + t → r < p → q < s → a < b
smaller p a b q r s t ea eb hr h = grind arith

-- Numbers compare by their leading digits, and by the rest where these agree.
compare_digits :
    (p a b q r s t : ℕ)
    → a ≡ q * p + r
    → b ≡ s * p + t
    → r < p
    → t < p
    → then_with (compare q s) (compare r t) ≡ compare a b
compare_digits p a b q r s t ea eb hr ht = elim (compare-cases q s) [
  | inl below ↦ ground (arith, below, smaller p a b q r s t ea eb hr below)
  | inr (inl same) ↦ ground (arith, same)
  | inr (inr above) ↦ ground (arith, above, smaller p b a s t q r eb ea ht above)
]

pub cmp_bytes-to_be_bytes :
    (n a b : ℕ)
    → a < 256 ^ n
    → b < 256 ^ n
    → cmp_bytes (to_be_bytes n a) (to_be_bytes n b) ≡ compare a b
unfolding to_be_bytes
cmp_bytes-to_be_bytes zero a b h k = ground arith
cmp_bytes-to_be_bytes (suc n) a b h k =
    let p : 256 ^ suc n ≡ 256 ^ n * 256 = pow-suc 256 n in
    let d = leading_digit (256 ^ n) a (pow-pos n) (omega arith) in
    let e = leading_digit (256 ^ n) b (pow-pos n) (omega arith) in
    let x : a / 256 ^ n % 256 ≡ a / 256 ^ n = omega arith in
    let y : b / 256 ^ n % 256 ≡ b / 256 ^ n = omega arith in
    rw (x, y, cmp_bytes-to_be_bytes n (a % 256 ^ n) (b % 256 ^ n) d.2 e.2)
      (compare_digits (256 ^ n) a b (a / 256 ^ n) (a % 256 ^ n) (b / 256 ^ n) (b % 256 ^ n) d.1 e.1
        d.2 e.2)

-- A terminator of zero keeps the order, of strings with a zero in them too.
pub cmp_bytes-terminated :
    (xs ys : List ℕ) → cmp_bytes (xs ++ 0 ∷ []) (ys ++ 0 ∷ []) ≡ cmp_bytes xs ys
cmp_bytes-terminated [] [] = refl
cmp_bytes-terminated [] (zero ∷ []) = refl
cmp_bytes-terminated [] (zero ∷ y ∷ ys) = refl
cmp_bytes-terminated [] (suc y ∷ ys) = ground arith
cmp_bytes-terminated (zero ∷ []) [] = refl
cmp_bytes-terminated (zero ∷ x ∷ xs) [] = refl
cmp_bytes-terminated (suc x ∷ xs) [] = ground arith
cmp_bytes-terminated (x ∷ xs) (y ∷ ys) = ap (then_with (compare x y)) (cmp_bytes-terminated xs ys)

-- Strings whose first parts are of one length compare by these, and by the rest where they agree.
pub cmp_bytes-append :
    (xs ys zs ws : List ℕ)
    → length xs ≡ length zs
    → cmp_bytes (xs ++ ys) (zs ++ ws) ≡ then_with (cmp_bytes xs zs) (cmp_bytes ys ws)
cmp_bytes-append [] ys [] ws e = refl
cmp_bytes-append [] ys (z ∷ zs) ws e = absurd (omega arith)
cmp_bytes-append (x ∷ xs) ys [] ws e = absurd (omega arith)
cmp_bytes-append (x ∷ xs) ys (z ∷ zs) ws e =
    ground (arith, cmp_bytes-append xs ys zs ws (omega arith))
