-- ===== src/Sstable/Keys.antt =====
-- crates/ingodb-sstable/src/keys.rs: the keys that tables are sorted by.
--
-- The trait `KeyExtractor` is a function from documents to bytes. Flipping the sign bit of a 64-bit
-- pattern adds it modulo 2 ^ 64, and flipping all bits subtracts from 2 ^ 64 - 1.
pub mod Order
use ingodb.Base.{
  ℕ, ◌+◌, ◌-◌, ◌^◌, ◌%◌, Bool, true, false, ltb, Option, none, some, List, [], ◌∷◌, ◌++◌, take,
  if◌then◌else◌,
}
use ingodb.Bytes.{to_be_bytes}
use ingodb.Blob.Id.{as_bytes}
use ingodb.Blob.Value.{
  Value, null, bool, i64, u64, f64, string, bytes, uuid, array, document, encode,
}
use ingodb.Blob.IBlob.{IBlob, get_field}

-- `IdKeyExtractor`
unfoldable pub id_key : IBlob → List ℕ
id_key blob = as_bytes blob.id

-- `MvccKeyExtractor`
unfoldable pub mvcc_key : IBlob → List ℕ
mvcc_key blob = as_bytes blob.id ++ as_bytes blob.version

abbrev pub flip_sign : ℕ → ℕ
flip_sign n = (n + 2 ^ 63) % 2 ^ 64

abbrev pub sortable : ℕ → ℕ
sortable bits = if ltb bits (2 ^ 63) then flip_sign bits else 2 ^ 64 - 1 - bits

module _ (blake3 : List ℕ → List ℕ) where
  abbrev pub complex_key : Value → List ℕ
  complex_key v = 0x08 ∷ take 16 (blake3 (encode v))

  unfoldable pub encode_comparable_value : Value → List ℕ
  encode_comparable_value null = 0x00 ∷ []
  encode_comparable_value (bool b) = 0x01 ∷ (if b then 1 else 0) ∷ []
  encode_comparable_value (i64 n) = 0x02 ∷ to_be_bytes 8 (flip_sign n)
  encode_comparable_value (u64 n) = 0x03 ∷ to_be_bytes 8 n
  encode_comparable_value (f64 bits) = 0x04 ∷ to_be_bytes 8 (sortable bits)
  encode_comparable_value (string s) = 0x05 ∷ s ++ 0x00 ∷ []
  encode_comparable_value (bytes b) = 0x06 ∷ b ++ 0x00 ∷ []
  encode_comparable_value (uuid id) = 0x07 ∷ as_bytes id
  encode_comparable_value (array arr) = complex_key (array arr)
  encode_comparable_value (document fields) = complex_key (document fields)

  -- `FieldKeyExtractor`: a field that is missing sorts last.
  unfoldable pub field_key : List (List ℕ) → IBlob → List ℕ
  unfolding encode_comparable_value
  field_key [] blob = []
  field_key (name ∷ names) blob =
      elim (get_field blob name) [ some v ↦ encode_comparable_value v | none ↦ 0xFF ∷ [] ]
      ++ field_key names blob
