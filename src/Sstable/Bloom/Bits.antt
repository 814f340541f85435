-- ===== src/Sstable/Bloom/Bits.antt =====
-- crates/ingodb-sstable/src/bloom.rs: single bits of the filter.
use Prim.Native.Nat.{bit_and, bit_or}
use ingodb.Base.{
  ℕ, zero, suc, ◌/◌, ◌%◌, ◌^◌, ◌<◌, ◌≡◌, Bool, true, false, ◌&&◌, ◌||◌, ◌⊎◌, inl, inr, ap, not,
  ◌==◌, ltb, ltb→lt, arith, refl, List, [], ◌∷◌, length, set, get_or, subst,
}
use ingodb.Bytes.{IsBytes}
use ingodb.Sstable.Bloom.{set_bit, is_clear}

-- A test that holds of each number below a bound, by evaluation.
unfoldable holds_below : (ℕ → Bool) → ℕ → Bool
holds_below test zero = true
holds_below test (suc bound) = holds_below test bound && test bound

holds_below-at :
    (test : ℕ → Bool) (bound i : ℕ) → holds_below test bound ≡ true → i < bound → test i ≡ true
unfolding holds_below
holds_below-at test zero i checked below = absurd (omega arith)
holds_below-at test (suc bound) i checked below = ground (arith, holds_below-at test bound i)

-- Setting bit `i` of a byte sets it and yields a byte.
abbrev sets : ℕ → ℕ → Bool
sets b i = not (bit_and (bit_or b (2 ^ i)) (2 ^ i) == 0) && ltb (bit_or b (2 ^ i)) 256

-- It leaves the bits that are set.
abbrev keeps : ℕ → ℕ → ℕ → Bool
keeps b i j = bit_and b (2 ^ j) == 0 || not (bit_and (bit_or b (2 ^ i)) (2 ^ j) == 0)

sets_table : holds_below (λ b. holds_below (λ i. sets b i) 8) 256 ≡ true
unfolding holds_below
sets_table = refl

keeps_table : holds_below (λ b. holds_below (λ i. holds_below (λ j. keeps b i j) 8) 8) 256 ≡ true
unfolding holds_below
keeps_table = refl

sets_all : (b i : ℕ) → b < 256 → i < 8 → sets b i ≡ true
sets_all b i h k =
    holds_below-at (sets b) 8 i
      (holds_below-at (λ b. holds_below (λ i. sets b i) 8) 256 b sets_table h) k

keeps_all : (b i j : ℕ) → b < 256 → i < 8 → j < 8 → keeps b i j ≡ true
keeps_all b i j h k l =
    holds_below-at (keeps b i) 8 j
      (holds_below-at (λ i. holds_below (λ j. keeps b i j) 8) 8 i
        (holds_below-at (λ b. holds_below (λ i. holds_below (λ j. keeps b i j) 8) 8) 256 b
          keeps_table h)
        k)
      l

sets_bit : (b i : ℕ) → sets b i ≡ true → (bit_and (bit_or b (2 ^ i)) (2 ^ i) == 0) ≡ false
sets_bit b i h = ground (arith, h)

keeps_bit :
    (b i j : ℕ)
    → keeps b i j ≡ true
    → (bit_and b (2 ^ j) == 0) ≡ false
    → (bit_and (bit_or b (2 ^ i)) (2 ^ j) == 0) ≡ false
keeps_bit b i j h c = ground (arith, h, c)

get_or-set : (xs : List ℕ) (i v : ℕ) → i < length xs → get_or (set xs i v) i 0 ≡ v
get_or-set [] i v h = absurd (omega arith)
get_or-set (x ∷ xs) zero v h = refl
get_or-set (x ∷ xs) (suc i) v h = get_or-set xs i v (omega arith)

get_or-set_other :
    (xs : List ℕ) (i j v : ℕ)
    → (get_or (set xs i v) j 0 ≡ get_or xs j 0) ⊎ ((get_or (set xs i v) j 0 ≡ v) × (j ≡ i))
get_or-set_other [] i j v = inl refl
get_or-set_other (x ∷ xs) zero zero v = inr (refl, refl)
get_or-set_other (x ∷ xs) zero (suc j) v = inl refl
get_or-set_other (x ∷ xs) (suc i) zero v = inl refl
get_or-set_other (x ∷ xs) (suc i) (suc j) v = elim (get_or-set_other xs i j v) [
  | inl same ↦ inl same
  | inr (new, here) ↦ inr (new, ap suc here)
]

get_or-byte : (xs : List ℕ) (i : ℕ) → IsBytes xs → get_or xs i 0 < 256
get_or-byte [] i h = omega arith
get_or-byte (x ∷ xs) zero h = h.0
get_or-byte (x ∷ xs) (suc i) h = get_or-byte xs i h.1

set-IsBytes : (xs : List ℕ) (i v : ℕ) → IsBytes xs → v < 256 → IsBytes (set xs i v)
set-IsBytes [] i v h k = tt
set-IsBytes (x ∷ xs) zero v h k = (k, h.1)
set-IsBytes (x ∷ xs) (suc i) v h k = (h.0, set-IsBytes xs i v h.1 k)

pub set_bit-IsBytes : (bits : List ℕ) (p : ℕ) → IsBytes bits → IsBytes (set_bit bits p)
unfolding set_bit
set_bit-IsBytes bits p h =
    let byte = get_or bits (p / 8) 0 in
    let small = sets_all byte (p % 8) (get_or-byte bits (p / 8) h) (omega arith) in
    set-IsBytes bits (p / 8) (bit_or byte (2 ^ (p % 8))) h
      (ltb→lt (bit_or byte (2 ^ (p % 8))) 256 (ground (arith, small)))

pub is_clear-set_bit :
    (bits : List ℕ) (p : ℕ)
    → IsBytes bits
    → p / 8 < length bits
    → is_clear (set_bit bits p) p ≡ false
unfolding set_bit is_clear
is_clear-set_bit bits p h k =
    let byte = get_or bits (p / 8) 0 in
    let found = sets_all byte (p % 8) (get_or-byte bits (p / 8) h) (omega arith) in
    rw (get_or-set bits (p / 8) (bit_or byte (2 ^ (p % 8))) k) (sets_bit byte (p % 8) found)

-- No bit is ever cleared.
pub is_clear-set_bit_other :
    (bits : List ℕ) (p q : ℕ)
    → IsBytes bits
    → is_clear bits q ≡ false
    → is_clear (set_bit bits p) q ≡ false
unfolding set_bit is_clear
is_clear-set_bit_other bits p q h c =
    let byte = get_or bits (p / 8) 0 in
    let kept =
      keeps_all byte (p % 8) (q % 8) (get_or-byte bits (p / 8) h) (omega arith) (omega arith) in
    elim (get_or-set_other bits (p / 8) (q / 8) (bit_or byte (2 ^ (p % 8)))) [
      | inl same ↦ rw same c
      | inr (new, here) ↦ rw new (
          keeps_bit byte (p % 8) (q % 8) kept
            (subst (λ i. (bit_and (get_or bits i 0) (2 ^ (q % 8)) == 0) ≡ false) here c))
    ]
