-- ===== src/Lsm/Compaction/Cluster.antt =====
-- crates/ingodb-lsm/src/compaction.rs, `find_overlap_group`: the loop of the sweep keeps its groups
-- apart, and what it returns is one of them.
use ingodb.Base.{
  ℕ, ◌≤◌, ◌≡◌, ◌≢◌, refl, sym, ap, ◌∙◌, true, false, Bool-cases, ◌⊎◌, inl, inr, Option, none, some,
  List, [], ◌∷◌, ◌++◌, arith, All, All-append, length, ltb, leb, leb→le, leb_false→lt, append_assoc,
  gt, if◌then◌else◌, subst,
}
use ingodb.Base.Sort.{sort_by, IsSortedBy, sort_by-IsSortedBy}
use ingodb.Lsm.Compaction.{SstMeta, by_min_id, better, sweep, sweep_sorted, find_overlap_group}
use ingodb.Lsm.Compaction.Sweep.{
  Apart, Apart-nil, Apart-left, Apart-right, Apart-beyond, reach, reach-snoc, IsLinked,
  IsLinked-snoc, IsCluster, IsFound, starts_beyond, All-within,
}

-- The state of the sweep at the current group, `g` and `gs`.
record IsSwept (all before : List SstMeta) (g : SstMeta) (gs rest : List SstMeta) (running_max : ℕ)
    : Type 0 where
  split : all ≡ before ++ ((g ∷ gs) ++ rest)
  chain : IsLinked g.max_id gs
  running : running_max ≡ reach g.max_id gs
  below : Apart before ((g ∷ gs) ++ rest)
  within : All (λ s. s.max_id ≤ running_max) (g ∷ gs)
  sorted : IsSortedBy by_min_id rest

-- Closing the current group leaves the best one or takes the current one, long enough.
better_cases :
    (t : ℕ) (best : Option (List SstMeta)) (group : List SstMeta)
    → (better t best group ≡ best) ⊎ ((better t best group ≡ some group) × (t ≤ length group))
unfolding better
better_cases t none group = elim (Bool-cases (leb t (length group))) [
  | inl long ↦ inr (rw long refl, leb→le t (length group) long)
  | inr short ↦ inl (rw short refl)
]
better_cases t (some best) group = elim (Bool-cases (leb t (length group))) [
  | inl long ↦ elim (Bool-cases (ltb (length best) (length group))) [
    | inl longer ↦ inr (rw long (rw longer refl), leb→le t (length group) long)
    | inr shorter ↦ inl (rw long (rw shorter refl))
  ]
  | inr short ↦ inl (rw short refl)
]

better-IsFound :
    (t : ℕ) (all before : List SstMeta) (best : Option (List SstMeta)) (g : SstMeta)
    (gs rest : List SstMeta) (r : ℕ)
    → IsFound t all best
    → IsSwept all before g gs rest r
    → Apart (g ∷ gs) rest
    → IsFound t all (better t best (g ∷ gs))
better-IsFound t all before best g gs rest r f st apart = elim (better_cases t best (g ∷ gs)) [
  | inl kept ↦ subst (IsFound t all) (sym kept) f
  | inr taken ↦ subst (IsFound t all) (sym taken.0) (record {
    before = before;
    behind = rest;
    split = st.split;
    chain = st.chain;
    below = Apart-left before (g ∷ gs) rest st.below;
    above = apart;
    reaches = taken.1;
  })
]

-- The running maximum never falls.
next_max-le : (r m : ℕ) → (r ≤ (if ltb r m then m else r)) × (m ≤ (if ltb r m then m else r))
next_max-le r m = (ground arith, ground arith)

Apart-append : (xs ys zs : List SstMeta) → Apart xs zs → Apart ys zs → Apart (xs ++ ys) zs
Apart-append [] ys zs a b = b
Apart-append (x ∷ xs) ys zs a b = (a.0, Apart-append xs ys zs a.1 b)

joined :
    (all before : List SstMeta) (g : SstMeta) (gs : List SstMeta) (s : SstMeta)
    (rest : List SstMeta) (r : ℕ)
    → s.min_id ≤ r
    → IsSwept all before g gs (s ∷ rest) r
    → IsSwept all before g (gs ++ s ∷ []) rest (if ltb r s.max_id then s.max_id else r)
joined all before g gs s rest r joins st = record {
  split = st.split ∙ ap (λ xs. before ++ (g ∷ xs)) (sym (append_assoc gs (s ∷ []) rest));
  chain = IsLinked-snoc g.max_id gs s st.chain (subst (λ q. s.min_id ≤ q) st.running joins);
  running =
      ap (λ q. if ltb q s.max_id then s.max_id else q) st.running ∙ sym (reach-snoc g.max_id gs s);
  below = subst (λ xs. Apart before (g ∷ xs)) (sym (append_assoc gs (s ∷ []) rest)) st.below;
  within =
      let next = if ltb r s.max_id then s.max_id else r in
      let grown = next_max-le r s.max_id in
      All-append (λ x. x.max_id ≤ next) (g ∷ gs) (s ∷ [])
        (All-within r next (g ∷ gs) grown.0 st.within) (grown.1, tt);
  sorted = st.sorted.1;
}

started :
    (all before : List SstMeta) (g : SstMeta) (gs : List SstMeta) (s : SstMeta)
    (rest : List SstMeta) (r : ℕ)
    → Apart (g ∷ gs) (s ∷ rest)
    → IsSwept all before g gs (s ∷ rest) r
    → IsSwept all (before ++ (g ∷ gs)) s [] rest s.max_id
started all before g gs s rest r apart st = record {
  split = st.split ∙ sym (append_assoc before (g ∷ gs) (s ∷ rest));
  chain = tt;
  running = refl;
  below =
      Apart-append before (g ∷ gs) (s ∷ rest) (Apart-right before (g ∷ gs) (s ∷ rest) st.below)
        apart;
  within = (omega arith, tt);
  sorted = st.sorted.1;
}

sweep-IsFound :
    (t : ℕ) (all before : List SstMeta) (best : Option (List SstMeta)) (g : SstMeta)
    (gs rest : List SstMeta) (r : ℕ)
    → IsFound t all best
    → IsSwept all before g gs rest r
    → IsFound t all (sweep t best (g ∷ gs) r rest)
unfolding sweep
sweep-IsFound t all before best g gs [] r f st =
    better-IsFound t all before best g gs [] r f st (Apart-nil (g ∷ gs))
sweep-IsFound t all before best g gs (s ∷ rest) r f st = elim (Bool-cases (leb s.min_id r)) [
  | inl joins ↦
      subst
        (λ b. IsFound t all (elim b [
          | true ↦ sweep t best (g ∷ gs ++ s ∷ []) (if ltb r s.max_id then s.max_id else r) rest
          | false ↦ sweep t (better t best (g ∷ gs)) (s ∷ []) s.max_id rest
        ]))
        (sym joins)
        (sweep-IsFound t all before best g (gs ++ s ∷ []) rest
          (if ltb r s.max_id then s.max_id else r) f
          (joined all before g gs s rest r (leb→le s.min_id r joins) st))
  | inr starts ↦
      let beyond = leb_false→lt s.min_id r starts in
      let later = starts_beyond r s rest beyond st.sorted.0 in
      let apart = Apart-beyond r (g ∷ gs) (s ∷ rest) st.within (beyond, later) in
      subst
        (λ b. IsFound t all (elim b [
          | true ↦ sweep t best (g ∷ gs ++ s ∷ []) (if ltb r s.max_id then s.max_id else r) rest
          | false ↦ sweep t (better t best (g ∷ gs)) (s ∷ []) s.max_id rest
        ]))
        (sym starts)
        (sweep-IsFound t all (before ++ (g ∷ gs)) (better t best (g ∷ gs)) s [] rest s.max_id
          (better-IsFound t all before best g gs (s ∷ rest) r f st apart)
          (started all before g gs s rest r apart st))
]

min_id_flip : (a b : SstMeta) → by_min_id a b ≡ gt → by_min_id b a ≢ gt
min_id_flip a b h = ground arith

min_id_trans : (a b c : SstMeta) → by_min_id a b ≢ gt → by_min_id b c ≢ gt → by_min_id a c ≢ gt
min_id_trans a b c h k = ground arith

sweep_sorted-IsFound :
    (t : ℕ) (all : List SstMeta) → IsSortedBy by_min_id all → IsFound t all (sweep_sorted t all)
sweep_sorted-IsFound t [] sorted = tt
sweep_sorted-IsFound t (s ∷ ssts) sorted =
    sweep-IsFound t (s ∷ ssts) [] none s [] ssts s.max_id tt (record {
      split = refl;
      chain = tt;
      running = refl;
      below = tt;
      within = (omega arith, tt);
      sorted = sorted.1;
    })

-- A group that is found consists of at least `threshold` tables, next to each other in the order of
-- least ids, each of which starts within the range of those before it. All ids of the tables before
-- the group lie below those of the group, and all ids of the group below those of the tables behind
-- it: no table of the level that is left out overlaps one that is taken.
pub find_overlap_group-IsCluster :
    (ssts : List SstMeta) (t : ℕ) (group : List SstMeta)
    → find_overlap_group ssts t ≡ some group
    → IsCluster t (sort_by by_min_id ssts) group
unfolding find_overlap_group
find_overlap_group-IsCluster ssts t group found = elim (Bool-cases (ltb (length ssts) t)) [
  | inl few ↦ ground (arith, few, found)
  | inr enough ↦
      let sorted = sort_by-IsSortedBy by_min_id min_id_flip min_id_trans ssts in
      subst (IsFound t (sort_by by_min_id ssts)) (sym (rw enough refl) ∙ found)
        (sweep_sorted-IsFound t (sort_by by_min_id ssts) sorted)
]
