-- ===== src/Query/Laws.antt =====
-- crates/ingodb-query/src/lib.rs: what the filters mean to each other.
use ingodb.Base.{
  ℕ, ◌≡◌, ◌≢◌, ◌↔◌, refl, true, not, ◌&&◌, ◌||◌, Option, none, some, List, arith, Ordering, lt, eq,
  gt,
}
use ingodb.Blob.Value.{Value, bool, i64, u64, f64, string, bytes, IsValue}
use ingodb.Query.{
  Filters, less, range, and, negation, none_left, filter, matches, all_match, any_match,
  compare_values, value_eq, is_ordering,
}

-- The negations of all filters of a list.
abbrev pub negations : Filters → Filters
negations none_left = none_left
negations (filter f fs) = filter (negation f) (negations fs)

pub any_match-negations :
    (fs : Filters) (get_field : List ℕ → Option Value)
    → any_match (negations fs) get_field ≡ not (all_match fs get_field)
unfolding any_match all_match matches
any_match-negations none_left get_field = refl
any_match-negations (filter f fs) get_field = ground (arith, any_match-negations fs get_field)

within_orders :
    (low high : Option Ordering)
    → low ≢ none
    → ((is_ordering low gt || is_ordering low eq) && is_ordering high lt)
      ≡ (not (is_ordering low lt) && (is_ordering high lt && true))
within_orders none high h = absurd (h refl)
within_orders (some lt) high h = refl
within_orders (some eq) high h = ground arith
within_orders (some gt) high h = ground arith

-- For a field whose value can be compared with the lower end, a range filter matches what is not less
-- than the lower end and less than the upper end.
pub matches-range :
    (name : List ℕ) (low high v : Value) (get_field : List ℕ → Option Value)
    → get_field name ≡ some v
    → compare_values v low ≢ none
    → matches (range name low high) get_field
      ≡ matches
          (and (filter (negation (less name low)) (filter (less name high) none_left)))
          get_field
unfolding matches all_match
matches-range name low high v get_field found comparable =
    rw found (within_orders (compare_values v low) (compare_values v high) comparable)

-- Comparison and `==` agree: of two values that the format can hold and that can be compared, the comparison finds them equal
-- exactly when `==` does.
pub compare_values-value_eq :
    (a b : Value)
    → IsValue a
    → IsValue b
    → compare_values a b ≢ none
    → (compare_values a b ≡ some eq) ↔ (value_eq a b ≡ true)
unfolding compare_values value_eq IsValue
compare_values-value_eq (bool a) (bool b) h k c = ground arith
compare_values-value_eq (i64 a) (i64 b) h k c = ground arith
compare_values-value_eq (u64 a) (u64 b) h k c = ground arith
compare_values-value_eq (f64 a) (f64 b) h k c = ground (arith, c)
compare_values-value_eq (string a) (string b) h k c = ground arith
compare_values-value_eq (bytes a) (bytes b) h k c = ground arith
compare_values-value_eq a b h k c = absurd (c refl)
