-- ===== src/Lsm/SizeTiered.antt =====
-- crates/ingodb-lsm/src/compaction.rs, `SizeTieredCompaction`: the strategy that groups tables by size.
--
-- A path is a number, and `size_of` what the file system answers for its length, if it answers.
use ingodb.Base.{
  ℕ, ◌*◌, Option, none, some, List, [], ◌∷◌, ◌++◌, length, leb, ltb, compare, Ordering,
  if◌then◌else◌,
}
use ingodb.Base.Sort.{sort_by}

pub record SizeTieredCompaction : Type 0 where
  pub threshold : ℕ

-- The path and the size of a file.
abbrev pub Sized : Type 0
Sized = ℕ × ℕ

unfoldable pub sized_of : (ℕ → Option ℕ) → List ℕ → List Sized
sized_of size_of [] = []
sized_of size_of (p ∷ sst_paths) = elim (size_of p) [
  | none ↦ sized_of size_of sst_paths
  | some size ↦ (p, size) ∷ sized_of size_of sst_paths
]

abbrev pub by_size : Sized → Sized → Ordering
by_size a b = compare a.1 b.1

abbrev pub paths_of : List Sized → List ℕ
paths_of [] = []
paths_of (s ∷ group) = s.0 ∷ paths_of group

-- A group that is long enough, before the groups that follow it.
abbrev pub push_group : ℕ → List Sized → List (List ℕ) → List (List ℕ)
push_group threshold current_group groups =
    if leb threshold (length current_group) then paths_of current_group ∷ groups else groups

-- The loop over the sizes in their order, with the current group and the size of its first file.
unfoldable pub groups_from : ℕ → ℕ → List Sized → List Sized → List (List ℕ)
groups_from threshold group_min current_group [] = push_group threshold current_group []
groups_from threshold group_min current_group ((path, size) ∷ sized) =
    let joined = groups_from threshold group_min (current_group ++ (path, size) ∷ []) sized in
    let started = groups_from threshold size ((path, size) ∷ []) sized in
    if leb size (group_min * 2) then joined else push_group threshold current_group started

unfoldable pub size_groups : ℕ → List Sized → List (List ℕ)
unfolding groups_from
size_groups threshold [] = push_group threshold [] []
size_groups threshold ((path, size) ∷ sized) = groups_from threshold size ((path, size) ∷ []) sized

abbrev pub first_group : List (List ℕ) → Option (List ℕ)
first_group [] = none
first_group (g ∷ groups) = some g

unfoldable pub pick_by_size : (ℕ → Option ℕ) → SizeTieredCompaction → List ℕ → Option (List ℕ)
unfolding sized_of size_groups
pick_by_size size_of c sst_paths =
    if ltb (length sst_paths) c.threshold
    then none
    else first_group (size_groups c.threshold (sort_by by_size (sized_of size_of sst_paths)))
