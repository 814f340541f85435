-- ===== src/Lsm/Stats.antt =====
-- crates/ingodb-lsm/src/stats.rs: the statistics of queries, by the pattern of the query.
--
-- The mutex serialises the methods. A duration is in nanoseconds, and the clock an argument. The hash
-- map is the list of its entries in the order in which the patterns came first; the code promises no
-- order. Doubles are a type `F` with their division of counts, the number one, and the order.
use ingodb.Base.{
  ℕ, ◌+◌, ◌-◌, ◌/◌, ◌%◌, ◌^◌, ◌==◌, Bool, true, false, ◌&&◌, leb, Option, none, some, List, [], ◌∷◌,
  ◌++◌, retain, take, compare, cmp_bytes, Ordering, if◌then◌else◌,
}
use ingodb.Base.Sort.{sort_by}
use ingodb.Query.{
  Filter, Filters, equals, greater, less, range, exists, and, or, negation, none_left, filter,
  bytes_eq,
}
use ingodb.Lsm.Secondary.{names_eq}

pub record QueryPattern : Type 0 where
  pub query_type : List ℕ
  pub filter_fields : List (List ℕ)
  pub sort_fields : List (List ℕ)
  pub join_edge : Option (List ℕ × List ℕ)

pub record QueryMetrics : Type 0 where
  pub pattern : QueryPattern
  pub latency : ℕ
  pub docs_scanned : ℕ
  pub docs_returned : ℕ

pub record PatternStats : Type 0 where
  pub count : ℕ
  pub total_latency : ℕ
  pub total_scanned : ℕ
  pub total_returned : ℕ

abbrev pub no_stats : PatternStats
no_stats = record { count = 0; total_latency = 0; total_scanned = 0; total_returned = 0 }

unfoldable pub add_metrics : PatternStats → QueryMetrics → PatternStats
add_metrics s m = record {
  count = (s.count + 1) % 2 ^ 64;
  total_latency = s.total_latency + m.latency;
  total_scanned = (s.total_scanned + m.docs_scanned) % 2 ^ 64;
  total_returned = (s.total_returned + m.docs_returned) % 2 ^ 64;
}

-- The count is cut to 32 bits, and a division by zero panics.
unfoldable pub avg_latency : PatternStats → Option ℕ
avg_latency s =
    if s.count == 0
    then some 0
    else if s.count % 2 ^ 32 == 0
    then none
    else some (s.total_latency / (s.count % 2 ^ 32))

abbrev pub edge_eq : Option (List ℕ × List ℕ) → Option (List ℕ × List ℕ) → Bool
edge_eq none none = true
edge_eq (some e) (some f) = bytes_eq e.0 f.0 && bytes_eq e.1 f.1
edge_eq _ _ = false

-- The derived `PartialEq`.
abbrev pub pattern_eq : QueryPattern → QueryPattern → Bool
pattern_eq p q =
    bytes_eq p.query_type q.query_type
    && (names_eq p.filter_fields q.filter_fields
        && (names_eq p.sort_fields q.sort_fields && edge_eq p.join_edge q.join_edge))

abbrev pub QueryStats : Type 0
QueryStats = List (QueryPattern × PatternStats)

-- `entry(...).or_insert_with(PatternStats::new).record(&metrics)`
unfoldable pub record_metrics : QueryMetrics → QueryStats → QueryStats
unfolding add_metrics
record_metrics m [] = (m.pattern, add_metrics no_stats m) ∷ []
record_metrics m ((p, s) ∷ patterns) =
    let rest = record_metrics m patterns in
    if pattern_eq p m.pattern then (p, add_metrics s m) ∷ patterns else (p, s) ∷ rest

unfoldable pub get_pattern : QueryPattern → QueryStats → Option PatternStats
get_pattern pattern [] = none
get_pattern pattern ((p, s) ∷ patterns) =
    let rest = get_pattern pattern patterns in if pattern_eq p pattern then some s else rest

abbrev pub by_count : QueryPattern × PatternStats → QueryPattern × PatternStats → Ordering
by_count a b = compare b.1.count a.1.count

unfoldable pub top_by_count : ℕ → QueryStats → QueryStats
top_by_count n patterns = take n (sort_by by_count patterns)

module _ (F : Type 0) (one : F) (divide : ℕ → ℕ → F) (less_than : F → F → Bool) where
  unfoldable pub selectivity : PatternStats → F
  selectivity s = if s.total_scanned == 0 then one else divide s.total_returned s.total_scanned

  unfoldable pub low_selectivity : F → ℕ → QueryStats → QueryStats
  unfolding selectivity
  low_selectivity threshold min_count patterns =
      retain (λ ps. leb min_count ps.1.count && less_than (selectivity ps.1) threshold) patterns

pub record QueryTimer : Type 0 where
  pub pattern : QueryPattern
  pub start : ℕ
  pub docs_scanned : ℕ

unfoldable pub start_timer : ℕ → QueryPattern → QueryTimer
start_timer now pattern = record { pattern = pattern; start = now; docs_scanned = 0 }

unfoldable pub set_docs_scanned : ℕ → QueryTimer → QueryTimer
set_docs_scanned count t = record t { docs_scanned = count }

unfoldable pub finish : ℕ → ℕ → QueryTimer → QueryMetrics
finish now docs_returned t = record {
  pattern = t.pattern;
  latency = now - t.start;
  docs_scanned = t.docs_scanned;
  docs_returned = docs_returned;
}

-- The fields that a filter names, in the order of the filter.
unfoldable mutual
  pub collect_filter_fields : Filter → List (List ℕ)
  collect_filter_fields (equals field v) = field ∷ []
  collect_filter_fields (greater field v) = field ∷ []
  collect_filter_fields (less field v) = field ∷ []
  collect_filter_fields (range field low high) = field ∷ []
  collect_filter_fields (exists field) = field ∷ []
  collect_filter_fields (and fs) = collect_fields fs
  collect_filter_fields (or fs) = collect_fields fs
  collect_filter_fields (negation f) = collect_filter_fields f

  pub collect_fields : Filters → List (List ℕ)
  collect_fields none_left = []
  collect_fields (filter f fs) = collect_filter_fields f ++ collect_fields fs

-- `fields.dedup()`: of equal neighbours the first stays.
abbrev pub dedup_from : List ℕ → List (List ℕ) → List (List ℕ)
dedup_from last [] = []
dedup_from last (f ∷ fields) =
    let dropped = dedup_from last fields in
    let kept = dedup_from f fields in if bytes_eq f last then dropped else f ∷ kept

abbrev pub dedup : List (List ℕ) → List (List ℕ)
dedup [] = []
dedup (f ∷ fields) = f ∷ dedup_from f fields

-- The names of the fields that a filter asks for, in their order, each once.
unfoldable pub extract_filter_fields : Filter → List (List ℕ)
unfolding collect_filter_fields
extract_filter_fields f = dedup (sort_by cmp_bytes (collect_filter_fields f))
