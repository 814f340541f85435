-- ===== src/Sstable/Bloom.antt =====
-- crates/ingodb-sstable/src/bloom.rs: the Bloom filter over the keys of a table.
--
-- BLAKE3 is another package and a parameter. A filter's bytes are numbers below 256, and an index out
-- of range, where the source would panic, reads 0 and writes nothing.
pub mod Bits
pub mod Members
use Prim.Native.Nat.{bit_and, bit_or}
use ingodb.Base.{
  ℕ, zero, suc, ◌+◌, ◌*◌, ◌/◌, ◌%◌, ◌^◌, max, Bool, true, false, ◌==◌, List, set, get_or, replicate,
  take, drop,
}
use ingodb.Bytes.{from_le_bytes}

pub record BloomFilter : Type 0 where
  pub bits : List ℕ
  pub num_bits : ℕ
  pub num_hashes : ℕ

abbrev pub default_bits_per_key : ℕ
default_bits_per_key = 10

abbrev pub default_num_hashes : ℕ
default_num_hashes = 7

unfoldable pub new : ℕ → BloomFilter
new num_keys =
    let num_bits = max (num_keys * default_bits_per_key) 64 in
    record {
      bits = replicate ((num_bits + 7) / 8) 0;
      num_bits = num_bits;
      num_hashes = default_num_hashes;
    }

unfoldable pub from_bytes : List ℕ → ℕ → ℕ → BloomFilter
from_bytes bytes num_bits num_hashes = record {
  bits = bytes;
  num_bits = num_bits;
  num_hashes = num_hashes;
}

-- `bits[bit_pos / 8] |= 1 << (bit_pos % 8)`
unfoldable pub set_bit : List ℕ → ℕ → List ℕ
set_bit bits bit_pos =
    set bits (bit_pos / 8) (bit_or (get_or bits (bit_pos / 8) 0) (2 ^ (bit_pos % 8)))

-- `bits[bit_pos / 8] & (1 << (bit_pos % 8)) == 0`
unfoldable pub is_clear : List ℕ → ℕ → Bool
is_clear bits bit_pos = bit_and (get_or bits (bit_pos / 8) 0) (2 ^ (bit_pos % 8)) == 0

-- The i-th position: 64-bit wrapping arithmetic, then the remainder.
abbrev pub bit_pos : ℕ × ℕ → ℕ → ℕ → ℕ
bit_pos h i num_bits = (h.0 + h.1 * i % 2 ^ 64) % 2 ^ 64 % num_bits

-- The loops for `n` positions from the i-th on.
unfoldable pub insert_from : ℕ × ℕ → ℕ → ℕ → ℕ → List ℕ → List ℕ
unfolding set_bit
insert_from h num_bits i zero bits = bits
insert_from h num_bits i (suc n) bits =
    insert_from h num_bits (suc i) n (set_bit bits (bit_pos h i num_bits))

unfoldable pub may_contain_from : ℕ × ℕ → ℕ → ℕ → ℕ → List ℕ → Bool
unfolding is_clear
may_contain_from h num_bits i zero bits = true
may_contain_from h num_bits i (suc n) bits = elim (is_clear bits (bit_pos h i num_bits)) [
  | true ↦ false
  | false ↦ may_contain_from h num_bits (suc i) n bits
]

module _ (blake3 : List ℕ → List ℕ) where
  unfoldable pub hash_key : List ℕ → ℕ × ℕ
  hash_key key =
      let bytes = blake3 key in
      (from_le_bytes (take 8 bytes), from_le_bytes (take 8 (drop 8 bytes)))

  unfoldable pub insert : List ℕ → BloomFilter → BloomFilter
  unfolding hash_key insert_from
  insert key f = record f { bits = insert_from (hash_key key) f.num_bits 0 f.num_hashes f.bits }

  unfoldable pub may_contain : BloomFilter → List ℕ → Bool
  unfolding hash_key may_contain_from
  may_contain f key = may_contain_from (hash_key key) f.num_bits 0 f.num_hashes f.bits
