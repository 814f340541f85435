-- ===== src/Base/Sort/Permuted.antt =====
-- The standard library's sort only rearranges.
use Prim.Native.Nat.{Ordering}
use Prim.Native.Nat.Ordering.{lt, eq, gt}
use mathlib.Core.List.{List, [], ◌∷◌, Perm}
use mathlib.Core.List.Perm
use ingodb.Base.Sort.{place, sort_by}

module _ {ℓ} {A : Type ℓ} (cmp : A → A → Ordering) where
  place-perm : (x : A) (ys : List A) → Perm (place cmp x ys) (x ∷ ys)
  unfolding place
  place-perm x [] = Perm.refl (x ∷ [])
  place-perm x (y ∷ ys) =
      elim (cmp x y)
        as (λ o. Perm (elim o [ gt ↦ y ∷ place cmp x ys | _ ↦ x ∷ y ∷ ys ]) (x ∷ y ∷ ys)) [
          | lt ↦ Perm.refl (x ∷ y ∷ ys)
          | eq ↦ Perm.refl (x ∷ y ∷ ys)
          | gt ↦ Perm.trans (Perm.cons y (place-perm x ys)) (Perm.swap x y ys)
        ]

  pub sort_by-perm : (xs : List A) → Perm (sort_by cmp xs) xs
  unfolding sort_by
  sort_by-perm [] = Perm.refl []
  sort_by-perm (x ∷ xs) = Perm.trans (place-perm x (sort_by cmp xs)) (Perm.cons x (sort_by-perm xs))
