-- ===== src/Blob/Value/Size.antt =====
-- The nesting of a value, and that it is less than the length of its encoding.
use ingodb.Base.{ℕ, suc, ◌<◌, ◌≤◌, max, ◌++◌, arith, length, length-append}
use ingodb.Bytes.{to_le_bytes}
use ingodb.Bytes.Laws.{length-to_le_bytes}
use ingodb.Blob.Value.{
  Value, null, bool, i64, u64, f64, string, bytes, uuid, array, document, Values, nil, cons, Fields,
  end, field, encode, encode_array, encode_fields, count, count_fields, with_length,
}

unfoldable mutual
  pub depth : Value → ℕ
  depth null = 0
  depth (bool b) = 0
  depth (i64 v) = 0
  depth (u64 v) = 0
  depth (f64 v) = 0
  depth (string s) = 0
  depth (bytes b) = 0
  depth (uuid id) = 0
  depth (array arr) = suc (depth_array arr)
  depth (document fields) = suc (depth_fields fields)

  pub depth_array : Values → ℕ
  depth_array nil = 0
  depth_array (cons v vs) = max (depth v) (depth_array vs)

  pub depth_fields : Fields → ℕ
  depth_fields end = 0
  depth_fields (field k v fs) = max (depth v) (depth_fields fs)

mutual
  unfolding depth depth_array depth_fields encode encode_array encode_fields

  depth-lt : (v : Value) → depth v < length (encode v)
  depth-lt null = omega arith
  depth-lt (bool b) = omega arith
  depth-lt (i64 v) = omega arith
  depth-lt (u64 v) = omega arith
  depth-lt (f64 v) = omega arith
  depth-lt (string s) = omega arith
  depth-lt (bytes b) = omega arith
  depth-lt (uuid id) = omega arith
  depth-lt (array arr) = omega (
    arith,
    length-append (to_le_bytes 4 (count arr)) (encode_array arr),
    length-to_le_bytes 4 (count arr),
    depth_array-le arr,
  )
  depth-lt (document fs) = omega (
    arith,
    length-append (to_le_bytes 4 (count_fields fs)) (encode_fields fs),
    length-to_le_bytes 4 (count_fields fs),
    depth_fields-le fs,
  )

  depth_array-le : (vs : Values) → depth_array vs ≤ length (encode_array vs)
  depth_array-le nil = omega arith
  depth_array-le (cons v vs) =
      omega (arith, length-append (encode v) (encode_array vs), depth-lt v, depth_array-le vs)

  depth_fields-le : (fs : Fields) → depth_fields fs ≤ length (encode_fields fs)
  depth_fields-le end = omega arith
  depth_fields-le (field k v fs) = omega (
    arith,
    length-append (with_length k) (encode v ++ encode_fields fs),
    length-append (encode v) (encode_fields fs),
    depth-lt v,
    depth_fields-le fs,
  )

-- The encoding of a value is longer than the value is deep.
pub depth-lt-encode : (v : Value) → depth v < length (encode v)
depth-lt-encode v = depth-lt v
