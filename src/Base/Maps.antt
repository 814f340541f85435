-- ===== src/Base/Maps.antt =====
-- `BTreeMap` as an association list in the order of its keys, which iteration follows.
pub mod Collect
pub mod Range
use Prim.Native.Nat.Ordering.{lt, eq, gt}
use mathlib.Core.Path.{◌≡◌, refl, sym, subst}
use mathlib.Core.List.{List, [], ◌∷◌}
use mathlib.Core.Option.{Option, none, some}
use native.Mathlib.Omega.{arith}
use ingodb.Base.Lists.{All}
use ingodb.Base.Orders.{Ord}

-- `BTreeMap<K, V>`
abbrev pub BTreeMap {ℓ} : Type ℓ → Type ℓ → Type ℓ
BTreeMap K V = List (K × V)

module _ {ℓ} {K V : Type ℓ} ⦃o : Ord K⦄ where
  -- `map.get(&key).cloned()`
  unfoldable pub get : BTreeMap K V → K → Option V
  get [] k = none
  get ((j, v) ∷ m) k = elim (o.cmp k j) [ lt ↦ none | eq ↦ some v | gt ↦ get m k ]

  -- The map after `map.insert(key, value)`; the value that it displaces is `get map key`.
  unfoldable pub insert : K → V → BTreeMap K V → BTreeMap K V
  insert k v [] = (k, v) ∷ []
  insert k v ((j, w) ∷ m) = elim (o.cmp k j) [
    | lt ↦ (k, v) ∷ (j, w) ∷ m
    | eq ↦ (k, v) ∷ m
    | gt ↦ (j, w) ∷ insert k v m
  ]

  -- `.collect()` into a map: a later pair replaces an earlier one of its key.
  unfoldable pub collect : List (K × V) → BTreeMap K V → BTreeMap K V
  collect [] acc = acc
  collect ((k, v) ∷ pairs) acc = collect pairs (insert k v acc)

  -- Every key of the map is above `k`.
  abbrev pub Above : K → BTreeMap K V → Type 0
  Above k [] = Unit
  Above k ((j, w) ∷ m) = (o.cmp k j ≡ lt) × Above k m

  abbrev pub IsSorted : BTreeMap K V → Type 0
  IsSorted [] = Unit
  IsSorted ((j, w) ∷ m) = Above j m × IsSorted m

  pub Above-lt : (k j : K) (m : BTreeMap K V) → o.cmp k j ≡ lt → Above j m → Above k m
  Above-lt k j [] h a = tt
  Above-lt k j ((i, w) ∷ m) h a = (o.lt_trans k j i h a.0, Above-lt k j m h a.1)

  Above-insert :
      (b k : K) (v : V) (m : BTreeMap K V) → o.cmp b k ≡ lt → Above b m → Above b (insert k v m)
  unfolding insert
  Above-insert b k v [] h a = (h, tt)
  Above-insert b k v ((j, w) ∷ m) h a = ground (arith, Above-insert b k v m)

  -- Insertion keeps the order of the keys.
  pub insert-IsSorted : (k : K) (v : V) (m : BTreeMap K V) → IsSorted m → IsSorted (insert k v m)
  unfolding insert
  insert-IsSorted k v [] s = (tt, tt)
  insert-IsSorted k v ((j, w) ∷ m) s = ground (
    arith,
    insert-IsSorted k v m,
    Above-lt k j m,
    Above-insert j k v m,
    o.lt_of_gt k j,
    o.eq_of_cmp k j,
  )

  pub get-Above : (k : K) (m : BTreeMap K V) → Above k m → get m k ≡ none
  unfolding get
  get-Above k [] a = refl
  get-Above k ((j, w) ∷ m) a = ground arith

  -- A lookup after an insertion.
  pub get-insert :
      (k j : K) (v : V) (m : BTreeMap K V)
      → IsSorted m
      → get (insert k v m) j ≡ (elim (o.cmp j k) [ eq ↦ some v | _ ↦ get m j ])
  unfolding get insert
  get-insert k j v [] s = ground arith
  get-insert k j v ((i, w) ∷ m) s = ground (
    arith,
    get-insert k j v m,
    o.eq_of_cmp k i,
    o.eq_of_cmp j k,
    o.eq_of_cmp j i,
    o.lt_of_gt k i,
    o.lt_of_gt j i,
    o.lt_of_gt j k,
    o.gt_of_lt k i,
    o.gt_of_lt j k,
    o.gt_of_lt j i,
    o.lt_trans j k i,
    o.lt_trans k i j,
    o.lt_trans k j i,
    o.cmp_refl j,
  )

  -- The lookups of a map determine those of its tail.
  get_tail :
      (j : K) (v w : V) (m n : BTreeMap K V)
      → Above j m
      → Above j n
      → ((k : K) → get ((j, v) ∷ m) k ≡ get ((j, w) ∷ n) k)
      → (k : K) → get m k ≡ get n k
  unfolding get
  get_tail j v w m n a b h k =
      ground
        (arith, h k, o.eq_of_cmp k j, get-Above k m, get-Above k n, Above-lt k j m, Above-lt k j n)

  get_head :
      (j i : K) (v w : V) (m n : BTreeMap K V)
      → Above j m
      → Above i n
      → ((k : K) → get ((j, v) ∷ m) k ≡ get ((i, w) ∷ n) k)
      → (j ≡ i) × (v ≡ w)
  unfolding get
  get_head j i v w m n a b h =
      ground (arith, h j, h i, o.cmp_refl j, o.cmp_refl i, o.eq_of_cmp j i, o.lt_of_gt j i)

  -- Maps with the same lookups are the same list.
  pub get_ext :
      (m n : BTreeMap K V) → IsSorted m → IsSorted n → ((k : K) → get m k ≡ get n k) → m ≡ n
  unfolding get
  get_ext [] [] s t h = refl
  get_ext [] ((j, w) ∷ n) s t h = ground (arith, h j, o.cmp_refl j)
  get_ext ((j, w) ∷ m) [] s t h = ground (arith, h j, o.cmp_refl j)
  get_ext ((j, v) ∷ m) ((i, w) ∷ n) s t h =
      let (e, f) = get_head j i v w m n s.0 t.0 h in
      let b : Above j n = rw e t.0 in
      let same : (k : K) → get ((j, v) ∷ m) k ≡ get ((j, w) ∷ n) k =
        λ k. subst (λ x. get ((j, v) ∷ m) k ≡ get ((x, w) ∷ n) k) (sym e) (h k) in
      cc (e, f, get_ext m n s.1 t.1 (get_tail j v w m n s.0 b same))

  -- What holds of every entry holds of one that is looked up.
  pub get-All :
      (P : K × V → Type 0) (m : BTreeMap K V) (k : K) (v : V)
      → All P m
      → get m k ≡ some v
      → P (k, v)
  unfolding get
  get-All P [] k v a h = cc
  get-All P ((j, w) ∷ m) k v a h = ground (arith, get-All P m k v, o.eq_of_cmp k j)

  pub All-insert :
      (P : K × V → Type 0) (k : K) (v : V) (m : BTreeMap K V)
      → P (k, v)
      → All P m
      → All P (insert k v m)
  unfolding insert
  All-insert P k v [] p a = (p, tt)
  All-insert P k v ((j, w) ∷ m) p a = ground (arith, All-insert P k v m)
