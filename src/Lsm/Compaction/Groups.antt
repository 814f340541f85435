-- ===== src/Lsm/Compaction/Groups.antt =====
-- crates/ingodb-lsm/src/compaction.rs, `pick_all_compactions`: the loop that takes group after group
-- from a level ends.
use ingodb.Base.{
  ℕ, zero, suc, ◌≤◌, ◌<◌, ◌≡◌, refl, ap, Bool, true, Bool-cases, not, ◌⊎◌, inl, inr, some, List, [],
  ◌∷◌, ◌++◌, arith, All, All-right, length, retain, ==_refl, subst, Option-cases,
}
use ingodb.Base.Sort.{All-sort_by}
use ingodb.Lsm.Compaction.{
  SstMeta, by_min_id, find_overlap_group, paths, contains_path, make_pick, all_groups,
}
use ingodb.Lsm.Compaction.Sweep.{IsChain}
use ingodb.Lsm.Compaction.Cluster.{find_overlap_group-IsCluster}

retain_le : (f : SstMeta → Bool) (xs : List SstMeta) → length (retain f xs) ≤ length xs
retain_le f [] = omega arith
retain_le f (x ∷ xs) = ground (arith, retain_le f xs)

-- What `retain` leaves is shorter, or it took nothing away.
retain-shorter :
    (f : SstMeta → Bool) (xs : List SstMeta)
    → (length (retain f xs) < length xs) ⊎ All (λ x. f x ≡ true) xs
retain-shorter f [] = inr tt
retain-shorter f (x ∷ xs) = elim (Bool-cases (f x)) [
  | inl kept ↦ elim (retain-shorter f xs) [
    | inl shorter ↦ inl (ground (arith, kept, shorter))
    | inr all ↦ inr (kept, all)
  ]
  | inr gone ↦ inl (ground (arith, gone, retain_le f xs))
]

-- What is left of a level when a group is taken.
abbrev without : List SstMeta → List SstMeta → List SstMeta
without group remaining = retain (λ s. not (contains_path (paths group) s.path)) remaining

taken :
    (group behind : List SstMeta)
    → IsChain group
    → All (λ s. not (contains_path (paths group) s.path) ≡ true) (group ++ behind)
    → ⊥
unfolding contains_path
taken [] behind c a = c
taken (g ∷ gs) behind c a = ground (arith, a.0, ==_refl g.path)

-- A group that is found leaves fewer tables.
without-shorter :
    (remaining : List SstMeta) (t : ℕ) (group : List SstMeta)
    → find_overlap_group remaining t ≡ some group
    → length (without group remaining) < length remaining
without-shorter remaining t group found =
    let kept = λ (s : SstMeta). not (contains_path (paths group) s.path) in
    let cluster = find_overlap_group-IsCluster remaining t group found in
    elim (retain-shorter kept remaining) [
      | inl shorter ↦ shorter
      | inr all ↦
          let sorted = All-sort_by by_min_id (λ s. kept s ≡ true) remaining all in
          absurd (
            taken group cluster.behind cluster.chain (
              All-right (λ s. kept s ≡ true) cluster.before (group ++ cluster.behind)
                (subst (All (λ s. kept s ≡ true)) cluster.split sorted)))
    ]

-- The loop over a level of `n` tables is over within n + 1 rounds: more fuel, from anything above the
-- number of tables, changes no pick.
pub all_groups_enough :
    (fuel more t level max_level : ℕ) (remaining : List SstMeta)
    → length remaining < fuel
    → length remaining < more
    → all_groups fuel t level max_level remaining ≡ all_groups more t level max_level remaining
unfolding all_groups
all_groups_enough zero more t level max_level remaining h k = absurd (omega arith)
all_groups_enough (suc fuel) zero t level max_level remaining h k = absurd (omega arith)
all_groups_enough (suc fuel) (suc more) t level max_level remaining h k =
    elim (Option-cases (find_overlap_group remaining t)) [
      | inl absent ↦ rw (all_groups, absent) refl
      | inr (group, found) ↦
          let fewer = without-shorter remaining t group found in
          rw (all_groups, found)
            (ap (λ picks. make_pick level max_level group ∷ picks)
              (all_groups_enough fuel more t level max_level (without group remaining) (omega arith)
                (omega arith)))
    ]
