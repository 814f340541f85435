-- ===== src/Lsm/Compaction.antt =====
-- crates/ingodb-lsm/src/compaction.rs: which tables are compacted.
--
-- A path is the number in the file's name; the names have twelve digits, so paths are ordered as
-- these numbers are. The scaling parameter is an `i32` away from its least value, whose negation
-- overflows. The level of a table, a quotient of logarithms of doubles, takes its floating-point
-- expression as a parameter.
pub mod Sweep
pub mod Cluster
pub mod Groups
use ingodb.Base.{
  ℕ, zero, suc, ◌+◌, ◌≤◌, ◌<◌, max, Bool, true, false, ◌||◌, ◌==◌, not, Option, none, some, List,
  [], ◌∷◌, ◌++◌, map, length, ltb, leb, compare, Ordering, retain, if◌then◌else◌, nat_ord,
}
use ingodb.Base.Maps
use ingodb.Base.Maps.{BTreeMap}
use ingodb.Base.Sort.{sort_by}
use ingodb.Blob.Id.{DocumentId}

pub record SstMeta : Type 0 where
  pub path : ℕ
  pub min_id : DocumentId
  pub max_id : DocumentId
  pub file_size : ℕ
  pub seq : ℕ

-- The scaling parameter W: `below n` is -(n + 1).
pub data Scaling : Type 0 where
  at_least : ℕ → Scaling
  below : ℕ → Scaling

pub record UcsCompaction : Type 0 where
  pub scaling_parameter : Scaling
  pub flush_size : ℕ

unfoldable pub new : Scaling → ℕ → UcsCompaction
new w flush_size = record { scaling_parameter = w; flush_size = max flush_size 1 }

-- The double that the source returns is this whole number.
unfoldable pub fanout : UcsCompaction → ℕ
fanout u = elim u.scaling_parameter [ at_least w ↦ 2 + w | below n ↦ 2 + suc n ]

unfoldable pub threshold : UcsCompaction → ℕ
unfolding fanout
threshold u = elim u.scaling_parameter [ at_least w ↦ if w == 0 then 2 else fanout u | below n ↦ 2 ]

-- The best of the two groups: a longer one replaces an earlier one, and must reach the threshold.
unfoldable pub better : ℕ → Option (List SstMeta) → List SstMeta → Option (List SstMeta)
better t none group = if leb t (length group) then some group else none
better t (some best) group =
    if leb t (length group)
    then if ltb (length best) (length group) then some group else some best
    else some best

-- The loop over the tables by their least ids: a table that starts within the running range joins the
-- current group, any other closes it and starts the next.
unfoldable pub sweep :
    ℕ → Option (List SstMeta) → List SstMeta → DocumentId → List SstMeta → Option (List SstMeta)
unfolding better
sweep t best group running_max [] = better t best group
sweep t best group running_max (s ∷ ssts) = elim (leb s.min_id running_max) [
  | true ↦
      sweep t best (group ++ s ∷ []) (if ltb running_max s.max_id then s.max_id else running_max)
        ssts
  | false ↦ sweep t (better t best group) (s ∷ []) s.max_id ssts
]

abbrev pub by_min_id : SstMeta → SstMeta → Ordering
by_min_id a b = compare a.min_id b.min_id

-- With a threshold of 0 the source would index an empty slice; `threshold` is at least 2.
abbrev pub sweep_sorted : ℕ → List SstMeta → Option (List SstMeta)
sweep_sorted t [] = none
sweep_sorted t (s ∷ ssts) = sweep t none (s ∷ []) s.max_id ssts

unfoldable pub find_overlap_group : List SstMeta → ℕ → Option (List SstMeta)
unfolding sweep
find_overlap_group ssts t =
    if ltb (length ssts) t then none else sweep_sorted t (sort_by by_min_id ssts)

pub record CompactionPick : Type 0 where
  pub inputs : List ℕ
  pub output_level : ℕ
  pub max_level : ℕ

abbrev pub paths : List SstMeta → List ℕ
paths = map (λ s. s.path)

abbrev pub make_pick : ℕ → ℕ → List SstMeta → CompactionPick
make_pick level max_level group = record {
  inputs = paths group;
  output_level = level + 1;
  max_level = max_level;
}

-- `levels.entry(level).or_default().push(meta)`
abbrev pub push_level : BTreeMap ℕ (List SstMeta) → ℕ → SstMeta → BTreeMap ℕ (List SstMeta)
push_level levels level s =
    Maps.insert level (elim (Maps.get levels level) [ none ↦ s ∷ [] | some ssts ↦ ssts ++ s ∷ [] ])
      levels

unfoldable pub contains_path : List ℕ → ℕ → Bool
contains_path [] p = false
contains_path (q ∷ ps) p = q == p || contains_path ps p

-- The levels from the lowest up: the first group that is found.
unfoldable pub pick_level : ℕ → ℕ → BTreeMap ℕ (List SstMeta) → Option CompactionPick
unfolding find_overlap_group
pick_level t max_level [] = none
pick_level t max_level ((level, ssts) ∷ levels) = elim (find_overlap_group ssts t) [
  | some group ↦ some (make_pick level max_level group)
  | none ↦ pick_level t max_level levels
]

-- The `while let` over one level, on fuel: each round takes a group of two tables or more away.
unfoldable pub all_groups : ℕ → ℕ → ℕ → ℕ → List SstMeta → List CompactionPick
unfolding find_overlap_group contains_path
all_groups zero t level max_level remaining = []
all_groups (suc fuel) t level max_level remaining = elim (find_overlap_group remaining t) [
  | some group ↦
      make_pick level max_level group
      ∷ all_groups fuel t level max_level
          (retain (λ s. not (contains_path (paths group) s.path)) remaining)
  | none ↦ []
]

unfoldable pub pick_levels : ℕ → ℕ → BTreeMap ℕ (List SstMeta) → List CompactionPick
unfolding all_groups
pick_levels t max_level [] = []
pick_levels t max_level ((level, ssts) ∷ levels) =
    all_groups (suc (length ssts)) t level max_level ssts ++ pick_levels t max_level levels

-- `float_level f size flush` is `(size as f64 / flush as f64).log(f).floor().max(0.0) as u32`.
module _ (float_level : ℕ → ℕ → ℕ → ℕ) where
  unfoldable pub level_for_size : UcsCompaction → ℕ → ℕ
  unfolding fanout
  level_for_size u file_size =
      if leb file_size u.flush_size then 0 else float_level (fanout u) file_size u.flush_size

  unfoldable pub group_levels :
      UcsCompaction → List SstMeta → BTreeMap ℕ (List SstMeta) → BTreeMap ℕ (List SstMeta)
  unfolding level_for_size
  group_levels u [] levels = levels
  group_levels u (s ∷ ssts) levels =
      group_levels u ssts (push_level levels (level_for_size u s.file_size) s)

  unfoldable pub max_level_of : UcsCompaction → List SstMeta → ℕ
  unfolding level_for_size
  max_level_of u [] = 0
  max_level_of u (s ∷ ssts) = max (level_for_size u s.file_size) (max_level_of u ssts)

  -- `None` for no tables, as no level is found then.
  unfoldable pub pick_compaction : UcsCompaction → List SstMeta → Option CompactionPick
  unfolding threshold group_levels max_level_of pick_level
  pick_compaction u ssts = pick_level (threshold u) (max_level_of u ssts) (group_levels u ssts [])

  unfoldable pub pick_all_compactions : UcsCompaction → List SstMeta → List CompactionPick
  unfolding threshold group_levels max_level_of pick_levels
  pick_all_compactions u ssts =
      pick_levels (threshold u) (max_level_of u ssts) (group_levels u ssts [])
