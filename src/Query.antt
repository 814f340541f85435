-- ===== src/Query.antt =====
-- crates/ingodb-query/src/lib.rs: filters, and the comparison of values.
--
-- A value of type `i64` or `f64` is a bit pattern. `a == b` and `partial_cmp` of doubles are taken
-- through their order key; a NaN is neither equal nor comparable to anything.
pub mod Laws
pub mod Ast
pub mod Order
use ingodb.Base.{
  ℕ, suc, ◌+◌, ◌-◌, ◌^◌, ◌%◌, Bool, true, false, not, ◌&&◌, ◌||◌, ◌==◌, ltb, leb, compare, Ordering,
  lt, eq, gt, Option, none, some, List, [], ◌∷◌, cmp_bytes, if◌then◌else◌,
}
use ingodb.Blob.Id.{DocumentId}
use ingodb.Blob.Value.{
  Value, Values, Fields, null, bool, i64, u64, f64, string, bytes, uuid, array, document, nil, cons,
  end, field,
}

-- The order of two's complement patterns of 64 bits: the sign bit is flipped.
abbrev pub i64_key : ℕ → ℕ
i64_key n = (n + 2 ^ 63) % 2 ^ 64

-- An exponent of ones with a fraction that is not zero.
abbrev pub is_nan : ℕ → Bool
is_nan bits = ltb 0x7ff0000000000000 (bits % 2 ^ 63)

-- The order of doubles other than NaN: negative ones by falling magnitude, both zeros at 2 ^ 63.
abbrev pub f64_key : ℕ → ℕ
f64_key bits = if ltb bits (2 ^ 63) then 2 ^ 63 + bits else 2 ^ 64 - bits

-- `f64::partial_cmp`
abbrev pub f64_partial_cmp : ℕ → ℕ → Option Ordering
f64_partial_cmp a b = if is_nan a || is_nan b then none else some (compare (f64_key a) (f64_key b))

abbrev pub bool_number : Bool → ℕ
bool_number b = if b then 1 else 0

unfoldable pub compare_values : Value → Value → Option Ordering
compare_values (i64 a) (i64 b) = some (compare (i64_key a) (i64_key b))
compare_values (u64 a) (u64 b) = some (compare a b)
compare_values (f64 a) (f64 b) = f64_partial_cmp a b
compare_values (string a) (string b) = some (cmp_bytes a b)
compare_values (bytes a) (bytes b) = some (cmp_bytes a b)
compare_values (bool a) (bool b) = some (compare (bool_number a) (bool_number b))
compare_values _ _ = none

-- `==` of doubles: neither is NaN, and the two are the same number.
abbrev pub f64_eq : ℕ → ℕ → Bool
f64_eq a b = not (is_nan a || is_nan b) && f64_key a == f64_key b

abbrev pub bytes_eq : List ℕ → List ℕ → Bool
bytes_eq a b = elim (cmp_bytes a b) [ eq ↦ true | _ ↦ false ]

-- The derived `PartialEq`.
unfoldable mutual
  pub value_eq : Value → Value → Bool
  value_eq null null = true
  value_eq (bool a) (bool b) = bool_number a == bool_number b
  value_eq (i64 a) (i64 b) = a == b
  value_eq (u64 a) (u64 b) = a == b
  value_eq (f64 a) (f64 b) = f64_eq a b
  value_eq (string a) (string b) = bytes_eq a b
  value_eq (bytes a) (bytes b) = bytes_eq a b
  value_eq (uuid a) (uuid b) = a == b
  value_eq (array a) (array b) = values_eq a b
  value_eq (document a) (document b) = fields_eq a b
  value_eq _ _ = false

  pub values_eq : Values → Values → Bool
  values_eq nil nil = true
  values_eq (cons a as') (cons b bs) = value_eq a b && values_eq as' bs
  values_eq _ _ = false

  pub fields_eq : Fields → Fields → Bool
  fields_eq end end = true
  fields_eq (field k a as') (field l b bs) = bytes_eq k l && value_eq a b && fields_eq as' bs
  fields_eq _ _ = false

mutual
  pub data Filter : Type 0 where
    equals : List ℕ → Value → Filter
    greater : List ℕ → Value → Filter
    less : List ℕ → Value → Filter
    range : List ℕ → Value → Value → Filter
    exists : List ℕ → Filter
    and : Filters → Filter
    or : Filters → Filter
    negation : Filter → Filter

  pub data Filters : Type 0 where
    none_left : Filters
    filter : Filter → Filters → Filters

abbrev pub is_ordering : Option Ordering → Ordering → Bool
is_ordering (some lt) lt = true
is_ordering (some eq) eq = true
is_ordering (some gt) gt = true
is_ordering _ _ = false

-- `map_or(false, test)`
abbrev pub holds_of : (Value → Bool) → Option Value → Bool
holds_of test none = false
holds_of test (some v) = test v

abbrev pub within : Value → Value → Value → Bool
within low high v =
    (is_ordering (compare_values v low) gt || is_ordering (compare_values v low) eq)
    && is_ordering (compare_values v high) lt

unfoldable mutual
  pub matches : Filter → (List ℕ → Option Value) → Bool
  matches (equals name v) get_field = holds_of (λ w. value_eq w v) (get_field name)
  matches (greater name v) get_field =
      holds_of (λ w. is_ordering (compare_values w v) gt) (get_field name)
  matches (less name v) get_field =
      holds_of (λ w. is_ordering (compare_values w v) lt) (get_field name)
  matches (range name low high) get_field = holds_of (within low high) (get_field name)
  matches (exists name) get_field = holds_of (λ w. true) (get_field name)
  matches (and filters) get_field = all_match filters get_field
  matches (or filters) get_field = any_match filters get_field
  matches (negation f) get_field = not (matches f get_field)

  pub all_match : Filters → (List ℕ → Option Value) → Bool
  all_match none_left get_field = true
  all_match (filter f fs) get_field = matches f get_field && all_match fs get_field

  pub any_match : Filters → (List ℕ → Option Value) → Bool
  any_match none_left get_field = false
  any_match (filter f fs) get_field = matches f get_field || any_match fs get_field
