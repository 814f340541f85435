-- ===== src/Tests/Keys.antt =====
-- The Bloom filter, the keys and the filters at concrete keys and values.
use ingodb.Base.{
  ℕ, ◌^◌, ◌<◌, ◌≡◌, ◌≢◌, ◌↔◌, refl, arith, true, Option, none, some, List, [], ◌∷◌, cmp_bytes, lt,
  eq,
}
use ingodb.Blob.Value.{Value, i64, IsValue}
use ingodb.Query.{compare_values, value_eq, matches, range, negation, less, and, filter, none_left}
use ingodb.Query.Laws.{matches-range, compare_values-value_eq}
use ingodb.Sstable.Bloom
use ingodb.Sstable.Bloom.{may_contain}
use ingodb.Sstable.Bloom.Members.{inserts, new-IsValid, may_contain-inserts}
use ingodb.Sstable.Keys.{encode_comparable_value}
use ingodb.Sstable.Keys.Order.{encode_comparable_value-order}
use ingodb.Tests.{hash}

abbrev some_key : List ℕ
some_key = 3 ∷ 4 ∷ []

may_contain-inserts_example :
    may_contain hash (inserts hash ((9 ∷ []) ∷ some_key ∷ [] ∷ []) (Bloom.new 3)) some_key ≡ true
may_contain-inserts_example =
    may_contain-inserts hash ((9 ∷ []) ∷ []) ([] ∷ []) some_key (Bloom.new 3) (new-IsValid 3)

-- The pattern of -1.
abbrev minus_one : ℕ
minus_one = 18446744073709551615

word-IsValue : (n : ℕ) → n < 256 ^ 8 → IsValue (i64 n)
unfolding IsValue
word-IsValue n h = h

minus_one-lt : compare_values (i64 minus_one) (i64 5) ≡ some lt
unfolding compare_values
minus_one-lt = refl

encode_comparable_value-order_example :
    cmp_bytes (encode_comparable_value hash (i64 minus_one)) (encode_comparable_value hash (i64 5))
    ≡ lt
encode_comparable_value-order_example =
    encode_comparable_value-order hash (i64 minus_one) (i64 5) lt
      (word-IsValue minus_one (omega arith)) (word-IsValue 5 (omega arith)) minus_one-lt (λ e. cc e)

comparable : compare_values (i64 minus_one) (i64 5) ≢ none
comparable e = cc (e, minus_one-lt)

compare_values-value_eq_example :
    (compare_values (i64 minus_one) (i64 5) ≡ some eq) ↔ (value_eq (i64 minus_one) (i64 5) ≡ true)
compare_values-value_eq_example =
    compare_values-value_eq (i64 minus_one) (i64 5) (word-IsValue minus_one (omega arith))
      (word-IsValue 5 (omega arith)) comparable

abbrev age : List ℕ → Option Value
age name = some (i64 minus_one)

matches-range_example :
    matches (range (1 ∷ []) (i64 5) (i64 9)) age
    ≡ matches
        (and (filter (negation (less (1 ∷ []) (i64 5))) (filter (less (1 ∷ []) (i64 9)) none_left)))
        age
matches-range_example = matches-range (1 ∷ []) (i64 5) (i64 9) (i64 minus_one) age refl comparable
