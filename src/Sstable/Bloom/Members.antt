-- ===== src/Sstable/Bloom/Members.antt =====
-- crates/ingodb-sstable/src/bloom.rs: a filter never denies a key that was inserted.
use Prim.Native.Nat.{bit_or}
use native.Mathlib.Omega.{mod_fact}
use ingodb.Base.{
  ℕ, zero, suc, ◌+◌, ◌*◌, ◌/◌, ◌%◌, ◌^◌, ◌≤◌, ◌<◌, max, ◌≡◌, true, false, Bool-cases, inl, inr,
  arith, refl, List, [], ◌∷◌, ◌++◌, length, length-set, length-replicate, replicate, get_or,
}
use ingodb.Bytes.{IsBytes}
use ingodb.Sstable.Bloom.{
  BloomFilter, set_bit, is_clear, bit_pos, insert_from, may_contain_from, hash_key, insert,
  may_contain,
}
use ingodb.Sstable.Bloom
use ingodb.Sstable.Bloom.Bits.{set_bit-IsBytes, is_clear-set_bit, is_clear-set_bit_other}

-- The bytes hold the bits that the filter counts, at least one.
abbrev pub IsRoomy : ℕ → List ℕ → Type 0
IsRoomy num_bits bits = IsBytes bits × (0 < num_bits) × (num_bits ≤ 8 * length bits)

abbrev pub IsValid : BloomFilter → Type 0
IsValid f = IsRoomy f.num_bits f.bits

position-lt :
    (h : ℕ × ℕ) (i num_bits : ℕ) (bits : List ℕ)
    → IsRoomy num_bits bits
    → bit_pos h i num_bits / 8 < length bits
position-lt h i num_bits bits v =
    below ((h.0 + h.1 * i % 2 ^ 64) % 2 ^ 64) num_bits (length bits) v.1 v.2
  where
    below : (x n l : ℕ) → 0 < n → n ≤ 8 * l → x % n / 8 < l
    below x zero l a b = absurd (omega arith)
    below x (suc n) l a b = omega (arith, mod_fact x n, b)

set_bit-IsRoomy :
    (num_bits p : ℕ) (bits : List ℕ) → IsRoomy num_bits bits → IsRoomy num_bits (set_bit bits p)
unfolding set_bit
set_bit-IsRoomy num_bits p bits v = (
  set_bit-IsBytes bits p v.0,
  v.1,
  omega (arith, length-set bits (p / 8) (bit_or (get_or bits (p / 8) 0) (2 ^ (p % 8))), v.2),
)

insert_from-IsRoomy :
    (h : ℕ × ℕ) (num_bits i n : ℕ) (bits : List ℕ)
    → IsRoomy num_bits bits
    → IsRoomy num_bits (insert_from h num_bits i n bits)
unfolding insert_from
insert_from-IsRoomy h num_bits i zero bits v = v
insert_from-IsRoomy h num_bits i (suc n) bits v =
    insert_from-IsRoomy h num_bits (suc i) n (set_bit bits (bit_pos h i num_bits))
      (set_bit-IsRoomy num_bits (bit_pos h i num_bits) bits v)

insert_from-keeps :
    (h : ℕ × ℕ) (num_bits i n q : ℕ) (bits : List ℕ)
    → IsRoomy num_bits bits
    → is_clear bits q ≡ false
    → is_clear (insert_from h num_bits i n bits) q ≡ false
unfolding insert_from
insert_from-keeps h num_bits i zero q bits v c = c
insert_from-keeps h num_bits i (suc n) q bits v c =
    insert_from-keeps h num_bits (suc i) n q (set_bit bits (bit_pos h i num_bits))
      (set_bit-IsRoomy num_bits (bit_pos h i num_bits) bits v)
      (is_clear-set_bit_other bits (bit_pos h i num_bits) q v.0 c)

-- What is set stays set, whatever else is inserted.
may_contain_from-keeps :
    (h g : ℕ × ℕ) (num_bits i j n m : ℕ) (bits : List ℕ)
    → IsRoomy num_bits bits
    → may_contain_from g num_bits j m bits ≡ true
    → may_contain_from g num_bits j m (insert_from h num_bits i n bits) ≡ true
unfolding may_contain_from
may_contain_from-keeps h g num_bits i j n zero bits v c = refl
may_contain_from-keeps h g num_bits i j n (suc m) bits v c =
    elim (Bool-cases (is_clear bits (bit_pos g j num_bits))) [
      | inl clear ↦ ground (arith, clear, c)
      | inr full ↦
          rw (may_contain_from, insert_from-keeps h num_bits i n (bit_pos g j num_bits) bits v full)
            (may_contain_from-keeps h g num_bits i (suc j) n m bits v (ground (arith, full, c)))
    ]

may_contain_from-insert_from :
    (h : ℕ × ℕ) (num_bits i n : ℕ) (bits : List ℕ)
    → IsRoomy num_bits bits
    → may_contain_from h num_bits i n (insert_from h num_bits i n bits) ≡ true
unfolding may_contain_from insert_from
may_contain_from-insert_from h num_bits i zero bits v = refl
may_contain_from-insert_from h num_bits i (suc n) bits v =
    let p = bit_pos h i num_bits in
    let roomy = set_bit-IsRoomy num_bits p bits v in
    let full = is_clear-set_bit bits p v.0 (position-lt h i num_bits bits v) in
    rw (may_contain_from, insert_from-keeps h num_bits (suc i) n p (set_bit bits p) roomy full)
      (may_contain_from-insert_from h num_bits (suc i) n (set_bit bits p) roomy)

replicate-IsBytes : (n : ℕ) → IsBytes (replicate n 0)
replicate-IsBytes zero = tt
replicate-IsBytes (suc n) = (omega arith, replicate-IsBytes n)

pub new-IsValid : (num_keys : ℕ) → IsValid (Bloom.new num_keys)
unfolding Bloom.new
new-IsValid num_keys =
    let num_bits = max (num_keys * 10) 64 in
    let room = length-replicate {A = ℕ} ((num_bits + 7) / 8) 0 in
    (replicate-IsBytes ((num_bits + 7) / 8), omega arith, omega (arith, room))

module _ (blake3 : List ℕ → List ℕ) where
  -- The keys of a table, inserted in turn.
  abbrev pub inserts : List (List ℕ) → BloomFilter → BloomFilter
  inserts [] f = f
  inserts (key ∷ keys) f = inserts keys (insert blake3 key f)

  pub insert-IsRoomy : (key : List ℕ) (f : BloomFilter) → IsValid f → IsValid (insert blake3 key f)
  unfolding insert
  insert-IsRoomy key f v =
      insert_from-IsRoomy (hash_key blake3 key) f.num_bits 0 f.num_hashes f.bits v

  inserts-IsValid : (keys : List (List ℕ)) (f : BloomFilter) → IsValid f → IsValid (inserts keys f)
  inserts-IsValid [] f v = v
  inserts-IsValid (key ∷ keys) f v =
      inserts-IsValid keys (insert blake3 key f) (insert-IsRoomy key f v)

  inserts-keep :
      (key : List ℕ) (keys : List (List ℕ)) (f : BloomFilter)
      → IsValid f
      → may_contain blake3 f key ≡ true
      → may_contain blake3 (inserts keys f) key ≡ true
  unfolding insert may_contain
  inserts-keep key [] f v c = c
  inserts-keep key (k ∷ keys) f v c =
      inserts-keep key keys (insert blake3 k f) (insert-IsRoomy k f v) (
        may_contain_from-keeps (hash_key blake3 k) (hash_key blake3 key) f.num_bits 0 0 f.num_hashes
          f.num_hashes f.bits v c)

  -- No false negative: a filter with room for the bits that it counts may contain each key that was
  -- inserted, whatever was inserted before and after it.
  pub may_contain-inserts :
      (before after : List (List ℕ)) (key : List ℕ) (f : BloomFilter)
      → IsValid f
      → may_contain blake3 (inserts (before ++ key ∷ after) f) key ≡ true
  unfolding insert may_contain
  may_contain-inserts [] after key f v =
      inserts-keep key after (insert blake3 key f) (insert-IsRoomy key f v)
        (may_contain_from-insert_from (hash_key blake3 key) f.num_bits 0 f.num_hashes f.bits v)
  may_contain-inserts (k ∷ before) after key f v =
      may_contain-inserts before after key (insert blake3 k f) (insert-IsRoomy k f v)
