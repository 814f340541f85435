-- ===== src/Query/Order.antt =====
-- crates/ingodb-query/src/lib.rs, `compare_values`: the order of values of one kind.
use ingodb.Base.{
  ℕ, ◌≡◌, ◌≢◌, refl, some, List, [], arith, compare, Ordering, then_with, cmp_bytes, if◌then◌else◌,
}
use ingodb.Blob.Value.{Value, bool, i64, u64, f64, string, bytes}
use ingodb.Query.{compare_values, i64_key, f64_key, is_nan, bool_number}

-- The kinds of values that have an order; 0 is for the others, of which NaN is one.
abbrev pub kind : Value → ℕ
kind (bool b) = 1
kind (i64 n) = 2
kind (u64 n) = 3
kind (f64 n) = if is_nan n then 0 else 4
kind (string s) = 5
kind (bytes s) = 6
kind _ = 0

-- What a value is ordered by: a number, then a byte string.
abbrev pub number : Value → ℕ
number (bool b) = bool_number b
number (i64 n) = i64_key n
number (u64 n) = n
number (f64 n) = f64_key n
number _ = 0

abbrev pub text : Value → List ℕ
text (string s) = s
text (bytes s) = s
text _ = []

abbrev pub key_order : Value → Value → Ordering
key_order a b = then_with (compare (number a) (number b)) (cmp_bytes (text a) (text b))

-- Two values of one kind compare by their keys.
pub compare_values-key_order :
    (a b : Value) → kind a ≡ kind b → kind a ≢ 0 → compare_values a b ≡ some (key_order a b)
unfolding compare_values
compare_values-key_order (bool a) (bool b) h k = ground arith
compare_values-key_order (i64 a) (i64 b) h k = ground arith
compare_values-key_order (u64 a) (u64 b) h k = ground arith
compare_values-key_order (f64 a) (f64 b) h k = ground arith
compare_values-key_order (string a) (string b) h k = refl
compare_values-key_order (bytes a) (bytes b) h k = refl
compare_values-key_order a b h k = absurd (ground arith)
