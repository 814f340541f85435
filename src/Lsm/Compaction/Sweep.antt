-- ===== src/Lsm/Compaction/Sweep.antt =====
-- crates/ingodb-lsm/src/compaction.rs, `find_overlap_group`: runs of tables whose ranges of ids
-- overlap, and what the sweep's running maximum is to them.
use ingodb.Base.{
  ℕ, ◌≤◌, ◌<◌, ◌≡◌, ◌≢◌, refl, Option, none, some, List, [], ◌∷◌, ◌++◌, arith, All, All-left,
  All-right, length, ltb, gt, if◌then◌else◌,
}
use ingodb.Lsm.Compaction.{SstMeta, by_min_id}

-- No table of `xs` reaches into one of `ys`: all ids of the first lie below all ids of the second.
abbrev pub Apart : List SstMeta → List SstMeta → Type 0
Apart xs ys = All (λ x. All (λ y. x.max_id < y.min_id) ys) xs

pub All-beyond :
    (m r : ℕ) (ys : List SstMeta) → m ≤ r → All (λ y. r < y.min_id) ys → All (λ y. m < y.min_id) ys
All-beyond m r [] h a = tt
All-beyond m r (y ∷ ys) h a = (omega arith, All-beyond m r ys h a.1)

pub Apart-nil : (xs : List SstMeta) → Apart xs []
Apart-nil [] = tt
Apart-nil (x ∷ xs) = (tt, Apart-nil xs)

-- The greatest id of a table of `m` and of those behind it, as the sweep computes it.
abbrev pub reach : ℕ → List SstMeta → ℕ
reach m [] = m
reach m (s ∷ ssts) = reach (if ltb m s.max_id then s.max_id else m) ssts

-- Each table starts within the range of those before it.
abbrev pub IsLinked : ℕ → List SstMeta → Type 0
IsLinked m [] = Unit
IsLinked m (s ∷ ssts) = (s.min_id ≤ m) × IsLinked (if ltb m s.max_id then s.max_id else m) ssts

abbrev pub IsChain : List SstMeta → Type 0
IsChain [] = ⊥
IsChain (s ∷ ssts) = IsLinked s.max_id ssts

-- The group is a chain of overlapping tables in the order `all`, and no table before or behind it
-- overlaps one of its own.
pub record IsCluster (t : ℕ) (all group : List SstMeta) : Type 0 where
  pub before : List SstMeta
  pub behind : List SstMeta
  pub split : all ≡ before ++ (group ++ behind)
  pub chain : IsChain group
  pub below : Apart before group
  pub above : Apart group behind
  pub reaches : t ≤ length group

abbrev pub IsFound : ℕ → List SstMeta → Option (List SstMeta) → Type 0
IsFound t all none = Unit
IsFound t all (some group) = IsCluster t all group

pub reach-snoc :
    (m : ℕ) (ssts : List SstMeta) (s : SstMeta)
    → reach m (ssts ++ s ∷ []) ≡ (if ltb (reach m ssts) s.max_id then s.max_id else reach m ssts)
reach-snoc m [] s = refl
reach-snoc m (x ∷ ssts) s = reach-snoc (if ltb m x.max_id then x.max_id else m) ssts s

pub IsLinked-snoc :
    (m : ℕ) (ssts : List SstMeta) (s : SstMeta)
    → IsLinked m ssts
    → s.min_id ≤ reach m ssts
    → IsLinked m (ssts ++ s ∷ [])
IsLinked-snoc m [] s l h = (h, tt)
IsLinked-snoc m (x ∷ ssts) s l h =
    (l.0, IsLinked-snoc (if ltb m x.max_id then x.max_id else m) ssts s l.1 h)

pub Apart-left : (xs ys zs : List SstMeta) → Apart xs (ys ++ zs) → Apart xs ys
Apart-left [] ys zs h = tt
Apart-left (x ∷ xs) ys zs h =
    (All-left (λ y. x.max_id < y.min_id) ys zs h.0, Apart-left xs ys zs h.1)

pub Apart-right : (xs ys zs : List SstMeta) → Apart xs (ys ++ zs) → Apart xs zs
Apart-right [] ys zs h = tt
Apart-right (x ∷ xs) ys zs h =
    (All-right (λ y. x.max_id < y.min_id) ys zs h.0, Apart-right xs ys zs h.1)

pub Apart-beyond :
    (r : ℕ) (xs ys : List SstMeta)
    → All (λ x. x.max_id ≤ r) xs
    → All (λ y. r < y.min_id) ys
    → Apart xs ys
Apart-beyond r [] ys a b = tt
Apart-beyond r (x ∷ xs) ys a b = (All-beyond x.max_id r ys a.0 b, Apart-beyond r xs ys a.1 b)

pub starts_beyond :
    (r : ℕ) (s : SstMeta) (ssts : List SstMeta)
    → r < s.min_id
    → All (λ y. by_min_id s y ≢ gt) ssts
    → All (λ y. r < y.min_id) ssts
starts_beyond r s [] h a = tt
starts_beyond r s (y ∷ ssts) h a = (ground (arith, a.0), starts_beyond r s ssts h a.1)

pub All-within :
    (r q : ℕ) (xs : List SstMeta) → r ≤ q → All (λ x. x.max_id ≤ r) xs → All (λ x. x.max_id ≤ q) xs
All-within r q [] h a = tt
All-within r q (x ∷ xs) h a = (omega arith, All-within r q xs h a.1)
