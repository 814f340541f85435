-- ===== src/Base/Maps/Collect.antt =====
-- Collecting pairs of distinct keys into a map does not depend on their order.
use Prim.Native.Nat.{Ordering}
use Prim.Native.Nat.Ordering.{lt, eq}
use mathlib.Core.Path.{◌≡◌, refl, sym, ◌∙◌}
use mathlib.Core.Logic.{◌≢◌}
use mathlib.Core.List.{List, [], ◌∷◌, ◌++◌, map, append_assoc, append-nil}
use native.Mathlib.Omega.{arith}
use ingodb.Base.Orders.{Ord}
use ingodb.Base.Lists.{All}
use ingodb.Base.Sort.{place, sort_by, All-sort_by}
use ingodb.Base.Maps.{BTreeMap, insert, collect, Above, IsSorted}

module _ {ℓ} {K V : Type ℓ} ⦃o : Ord K⦄ where
  abbrev pub Apart : K → List (K × V) → Type 0
  Apart k m = All (λ kv. o.cmp k kv.0 ≢ eq) m

  abbrev pub Distinct : List (K × V) → Type 0
  Distinct [] = Unit
  Distinct ((k, v) ∷ m) = Apart k m × Distinct m

  insert_comm :
      (k j : K) (v w : V) (m : BTreeMap K V)
      → o.cmp k j ≢ eq
      → insert k v (insert j w m) ≡ insert j w (insert k v m)
  unfolding insert
  insert_comm k j v w [] h =
      ground (arith, o.lt_of_gt k j, o.gt_of_lt k j, o.lt_of_gt j k, o.gt_of_lt j k)
  insert_comm k j v w ((i, u) ∷ m) h = ground (
    arith,
    insert_comm k j v w m,
    o.lt_of_gt k j,
    o.gt_of_lt k j,
    o.eq_of_cmp k i,
    o.eq_of_cmp j i,
    o.cmp_refl k,
    o.lt_of_gt k i,
    o.gt_of_lt k i,
    o.lt_of_gt j i,
    o.gt_of_lt j i,
    o.lt_trans k j i,
    o.lt_trans j k i,
    o.lt_trans k i j,
    o.lt_trans j i k,
  )

  module _ {A : Type ℓ} (f : A → K × V) where
    -- One element may be collected before those that it was placed among.
    collect-place :
        (cmp : A → A → Ordering) (x : A) (ys : List A) (acc : BTreeMap K V)
        → Apart (f x).0 (map f ys)
        → collect (map f (place cmp x ys)) acc ≡ collect (map f (x ∷ ys)) acc
    unfolding place collect
    collect-place cmp x [] acc h = refl
    collect-place cmp x (y ∷ ys) acc h = ground (
      arith,
      collect-place cmp x ys (insert (f y).0 (f y).1 acc) h.1,
      insert_comm (f x).0 (f y).0 (f x).1 (f y).1 acc h.0,
    )

    Apart-map : (k : K) (xs : List A) → Apart k (map f xs) → All (λ a. o.cmp k (f a).0 ≢ eq) xs
    Apart-map k [] h = tt
    Apart-map k (x ∷ xs) h = (h.0, Apart-map k xs h.1)

    map-Apart : (k : K) (xs : List A) → All (λ a. o.cmp k (f a).0 ≢ eq) xs → Apart k (map f xs)
    map-Apart k [] h = tt
    map-Apart k (x ∷ xs) h = (h.0, map-Apart k xs h.1)

    -- Collecting after a sort gives the map that collecting before it gives.
    pub collect-sort_by :
        (cmp : A → A → Ordering) (xs : List A) (acc : BTreeMap K V)
        → Distinct (map f xs)
        → collect (map f (sort_by cmp xs)) acc ≡ collect (map f xs) acc
    unfolding sort_by collect
    collect-sort_by cmp [] acc h = refl
    collect-sort_by cmp (x ∷ xs) acc h =
        let apart =
          All-sort_by cmp (λ a. o.cmp (f x).0 (f a).0 ≢ eq) xs (Apart-map (f x).0 xs h.0) in
        collect-place cmp x (sort_by cmp xs) acc (map-Apart (f x).0 (sort_by cmp xs) apart)
        ∙ collect-sort_by cmp xs (insert (f x).0 (f x).1 acc) h.1

  Above-Apart : (k : K) (m : BTreeMap K V) → Above k m → Apart k m
  Above-Apart k [] h = tt
  Above-Apart k ((j, w) ∷ m) h = ((λ e. cc (e, h.0)), Above-Apart k m h.1)

  -- The keys of a map are distinct.
  pub IsSorted-Distinct : (m : BTreeMap K V) → IsSorted m → Distinct m
  IsSorted-Distinct [] s = tt
  IsSorted-Distinct ((j, w) ∷ m) s = (Above-Apart j m s.0, IsSorted-Distinct m s.1)

  Above-split :
      (j k : K) (v : V) (acc m : BTreeMap K V) → Above j (acc ++ (k, v) ∷ m) → o.cmp j k ≡ lt
  Above-split j k v [] m h = h.0
  Above-split j k v ((i, w) ∷ acc) m h = Above-split j k v acc m h.1

  -- A key above all others is inserted at the end.
  insert_end :
      (k : K) (v : V) (acc m : BTreeMap K V)
      → IsSorted (acc ++ (k, v) ∷ m)
      → insert k v acc ≡ acc ++ (k, v) ∷ []
  unfolding insert
  insert_end k v [] m s = refl
  insert_end k v ((j, w) ∷ acc) m s =
      ground (arith, Above-split j k v acc m s.0, o.gt_of_lt j k, insert_end k v acc m s.1)

  collect-append : (m acc : BTreeMap K V) → IsSorted (acc ++ m) → collect m acc ≡ acc ++ m
  unfolding collect
  collect-append [] acc s = sym (append-nil acc)
  collect-append ((k, v) ∷ m) acc s =
      let e : (acc ++ (k, v) ∷ []) ++ m ≡ acc ++ (k, v) ∷ m = append_assoc acc ((k, v) ∷ []) m in
      rw (insert_end k v acc m s) (collect-append m (acc ++ (k, v) ∷ []) (rw e s) ∙ e)

  -- Collecting a map gives that map.
  pub collect-IsSorted : (m : BTreeMap K V) → IsSorted m → collect m [] ≡ m
  collect-IsSorted m s = collect-append m [] s
