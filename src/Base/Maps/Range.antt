-- ===== src/Base/Maps/Range.antt =====
-- `BTreeMap::range(lo..=hi)` and its last entry.
use Prim.Native.Nat.Ordering.{lt, gt}
use mathlib.Core.Path.{◌≡◌, refl, sym, subst}
use mathlib.Core.Bool.{Bool, true, false, ◌&&◌}
use mathlib.Core.Logic.{inl, inr}
use mathlib.Core.List.{[], ◌∷◌}
use mathlib.Core.Option.{Option, none, some}
use native.Mathlib.Omega.{arith}
use ingodb.Base.Orders.{Ord}
use ingodb.Base.Tests.{Bool-cases}
use ingodb.Base.Maps.{BTreeMap, get, Above, Above-lt, IsSorted, get-Above}

module _ {ℓ} {K : Type ℓ} ⦃o : Ord K⦄ where
  abbrev pub le_key : K → K → Bool
  le_key a b = elim (o.cmp a b) [ gt ↦ false | _ ↦ true ]

  lt_of_le_key : (lo j k : K) → le_key lo j ≡ true → o.cmp j k ≡ lt → o.cmp lo k ≡ lt
  lt_of_le_key lo j k h g = ground (arith, o.lt_trans lo j k, o.eq_of_cmp lo j)

module _ {ℓ} {K V : Type ℓ} ⦃o : Ord K⦄ where
  unfoldable pub range : K → K → BTreeMap K V → BTreeMap K V
  range lo hi [] = []
  range lo hi ((j, w) ∷ m) = elim (le_key lo j && le_key j hi) [
    | true ↦ (j, w) ∷ range lo hi m
    | false ↦ range lo hi m
  ]

  -- `next_back()`
  unfoldable pub last : BTreeMap K V → Option (K × V)
  last [] = none
  last (kv ∷ m) = elim (last m) [ none ↦ some kv | some other ↦ some other ]

  -- The entry of the greatest key in the range, if there is one.
  abbrev pub IsGreatest : K → K → BTreeMap K V → Option (K × V) → Type ℓ
  IsGreatest lo hi m none = (k : K) → le_key lo k ≡ true → le_key k hi ≡ true → get m k ≡ none
  IsGreatest lo hi m (some (j, w)) =
      (le_key lo j ≡ true)
      × (le_key j hi ≡ true)
      × (get m j ≡ some w)
      × ((k : K) → o.cmp j k ≡ lt → le_key k hi ≡ true → get m k ≡ none)

  -- A key that a map holds is above every bound below the map.
  lt_of_get : (j i : K) (u : V) (m : BTreeMap K V) → Above j m → get m i ≡ some u → o.cmp i j ≡ gt
  unfolding get
  lt_of_get j i u m a g = ground (arith, get-Above i m, Above-lt i j m, o.eq_of_cmp i j)

  get-tail : (j k : K) (w : V) (m : BTreeMap K V) → o.cmp k j ≡ gt → get ((j, w) ∷ m) k ≡ get m k
  unfolding get
  get-tail j k w m h = ground arith

  last-range_later :
      (lo hi j i : K) (w u : V) (m : BTreeMap K V)
      → Above j m
      → IsGreatest lo hi m (some (i, u))
      → IsGreatest lo hi ((j, w) ∷ m) (some (i, u))
  last-range_later lo hi j i w u m a ih =
      let above = lt_of_get j i u m a ih.2 in
      (
        ih.0,
        ih.1,
        rw (get-tail j i w m above) ih.2,
        λ k h g.
            rw (get-tail j k w m (o.gt_of_lt j k (o.lt_trans j i k (o.lt_of_gt i j above) h)))
              (ih.3 k h g),
      )

  last-range_here :
      (lo hi j : K) (w : V) (m : BTreeMap K V)
      → IsGreatest lo hi m none
      → le_key lo j ≡ true
      → le_key j hi ≡ true
      → IsGreatest lo hi ((j, w) ∷ m) (some (j, w))
  unfolding get
  last-range_here lo hi j w m ih p q = (
    p,
    q,
    ground (arith, o.cmp_refl j),
    λ k h g. ground (arith, o.gt_of_lt j k, ih k, lt_of_le_key lo j k),
  )

  last-range_none :
      (lo hi j : K) (w : V) (m : BTreeMap K V)
      → IsGreatest lo hi m none
      → (le_key lo j && le_key j hi) ≡ false
      → IsGreatest lo hi ((j, w) ∷ m) none
  unfolding get
  last-range_none lo hi j w m ih out = λ k p q. ground (arith, ih k, o.eq_of_cmp k j)

  last-range_inside :
      (lo hi j : K) (w : V) (m : BTreeMap K V) (r : Option (K × V))
      → Above j m
      → IsGreatest lo hi m r
      → (le_key lo j && le_key j hi) ≡ true
      → IsGreatest lo hi ((j, w) ∷ m) (elim r [ none ↦ some (j, w) | some other ↦ some other ])
  last-range_inside lo hi j w m none a ih h =
      last-range_here lo hi j w m ih (ground arith) (ground arith)
  last-range_inside lo hi j w m (some (i, u)) a ih h = last-range_later lo hi j i w u m a ih

  last-range_outside :
      (lo hi j : K) (w : V) (m : BTreeMap K V) (r : Option (K × V))
      → Above j m
      → IsGreatest lo hi m r
      → (le_key lo j && le_key j hi) ≡ false
      → IsGreatest lo hi ((j, w) ∷ m) r
  last-range_outside lo hi j w m none a ih h = last-range_none lo hi j w m ih h
  last-range_outside lo hi j w m (some (i, u)) a ih h = last-range_later lo hi j i w u m a ih

  last-range_in :
      (lo hi j : K) (w : V) (m : BTreeMap K V)
      → (le_key lo j && le_key j hi) ≡ true
      → last (range lo hi ((j, w) ∷ m))
        ≡ (elim (last (range lo hi m)) [ none ↦ some (j, w) | some other ↦ some other ])
  unfolding last range
  last-range_in lo hi j w m h = ground arith

  last-range_out :
      (lo hi j : K) (w : V) (m : BTreeMap K V)
      → (le_key lo j && le_key j hi) ≡ false
      → last (range lo hi ((j, w) ∷ m)) ≡ last (range lo hi m)
  unfolding last range
  last-range_out lo hi j w m h = ground arith

  -- The last entry of a range is the one of the greatest key in it.
  pub last-range :
      (lo hi : K) (m : BTreeMap K V) → IsSorted m → IsGreatest lo hi m (last (range lo hi m))
  last-range lo hi [] s = unfold last range get in (λ k p q. refl)
  last-range lo hi ((j, w) ∷ m) s = elim (Bool-cases (le_key lo j && le_key j hi)) [
    | inl inside ↦
        subst (IsGreatest lo hi ((j, w) ∷ m)) (sym (last-range_in lo hi j w m inside))
          (last-range_inside lo hi j w m (last (range lo hi m)) s.0 (last-range lo hi m s.1) inside)
    | inr out ↦
        subst (IsGreatest lo hi ((j, w) ∷ m)) (sym (last-range_out lo hi j w m out))
          (last-range_outside lo hi j w m (last (range lo hi m)) s.0 (last-range lo hi m s.1) out)
  ]
