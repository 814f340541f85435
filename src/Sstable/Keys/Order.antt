-- ===== src/Sstable/Keys/Order.antt =====
-- crates/ingodb-sstable/src/keys.rs: the bytes of comparable values compare as the values do.
use ingodb.Base.{ℕ, ◌^◌, ◌<◌, ◌≡◌, ◌≢◌, ◌∙◌, compare, Ordering, eq, some, List, arith, cmp_bytes}
use ingodb.Bytes.Order.{cmp_bytes-to_be_bytes, cmp_bytes-terminated}
use ingodb.Blob.Value.{Value, bool, i64, u64, f64, string, bytes, IsValue}
use ingodb.Query.{compare_values, f64_key}
use ingodb.Sstable.Keys.{flip_sign, sortable, encode_comparable_value}

sortable-f64_key :
    (a b : ℕ) (o : Ordering)
    → a < 2 ^ 64
    → b < 2 ^ 64
    → compare (f64_key a) (f64_key b) ≡ o
    → o ≢ eq
    → compare (sortable a) (sortable b) ≡ o
sortable-f64_key a b o h k c n = ground (arith, c, n)

sortable-lt : (a : ℕ) → sortable a < 256 ^ 8
sortable-lt a = ground arith

module _ (blake3 : List ℕ → List ℕ) where
  -- Of two values that the format can hold and that compare as less or greater, the encodings compare in the same way, byte by
  -- byte. (Two doubles that compare as equal can have two encodings: 0.0 and -0.0.)
  pub encode_comparable_value-order :
      (a b : Value) (o : Ordering)
      → IsValue a
      → IsValue b
      → compare_values a b ≡ some o
      → o ≢ eq
      → cmp_bytes (encode_comparable_value blake3 a) (encode_comparable_value blake3 b) ≡ o
  unfolding encode_comparable_value compare_values IsValue
  encode_comparable_value-order (i64 a) (i64 b) o h k c n =
      ground
        (arith, c, cmp_bytes-to_be_bytes 8 (flip_sign a) (flip_sign b) (omega arith) (omega arith))
  encode_comparable_value-order (u64 a) (u64 b) o h k c n =
      ground (arith, c, cmp_bytes-to_be_bytes 8 a b h k)
  encode_comparable_value-order (f64 a) (f64 b) o h k c n =
      cmp_bytes-to_be_bytes 8 (sortable a) (sortable b) (sortable-lt a) (sortable-lt b)
      ∙ sortable-f64_key a b o h k (ground (arith, c)) n
  encode_comparable_value-order (string a) (string b) o h k c n =
      ground (arith, c, cmp_bytes-terminated a b)
  encode_comparable_value-order (bytes a) (bytes b) o h k c n =
      ground (arith, c, cmp_bytes-terminated a b)
  encode_comparable_value-order (bool a) (bool b) o h k c n = ground (arith, c)
  encode_comparable_value-order a b o h k c n = ground (arith, c)
