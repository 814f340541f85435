-- ===== src/Sstable/Lookup/Layout.antt =====
-- crates/ingodb-sstable: blocks that stand one behind the other, and the index over them.
use ingodb.Base.{
  ℕ, ◌+◌, ◌≡◌, refl, sym, ap, ◌∙◌, List, [], ◌∷◌, ◌++◌, map, arith, length, length-append,
  append-nil, append_assoc,
}
use ingodb.Sstable.Writer.{BlockIndex}
use ingodb.Sstable.Reader.{Entry}

abbrev pub flat : List (List Entry) → List Entry
flat [] = []
flat (g ∷ gs) = g ++ flat gs

pub map-append : (f : Entry → Entry) (xs ys : List Entry) → map f (xs ++ ys) ≡ map f xs ++ map f ys
map-append f [] ys = refl
map-append f (x ∷ xs) ys = ap (λ t. f x ∷ t) (map-append f xs ys)

pub flat-snoc : (gs : List (List Entry)) (g : List Entry) → flat (gs ++ g ∷ []) ≡ flat gs ++ g
flat-snoc [] g = append-nil g
flat-snoc (f ∷ gs) g = ap (λ t. f ++ t) (flat-snoc gs g) ∙ sym (append_assoc f (flat gs) g)

-- `block` makes the bytes of a block of some entries.
module _ (block : List Entry → List ℕ) where
  unfoldable pub blocks_bytes : List (List Entry) → List ℕ
  blocks_bytes [] = []
  blocks_bytes (g ∷ gs) = block g ++ blocks_bytes gs

  -- The entries of the index say where the blocks of the groups stand, one behind the other.
  abbrev pub AreBlocks : ℕ → List BlockIndex → List (List Entry) → Type 0
  AreBlocks pos [] [] = Unit
  AreBlocks pos [] (g ∷ gs) = ⊥
  AreBlocks pos (e ∷ es) [] = ⊥
  AreBlocks pos (e ∷ es) (g ∷ gs) =
      (e.offset ≡ pos) × (e.size ≡ length (block g)) × AreBlocks (pos + length (block g)) es gs

  pub blocks_bytes-snoc :
      (gs : List (List Entry)) (g : List Entry)
      → blocks_bytes (gs ++ g ∷ []) ≡ blocks_bytes gs ++ block g
  unfolding blocks_bytes
  blocks_bytes-snoc [] g = append-nil (block g)
  blocks_bytes-snoc (f ∷ gs) g =
      ap (λ t. block f ++ t) (blocks_bytes-snoc gs g)
      ∙ sym (append_assoc (block f) (blocks_bytes gs) (block g))

  pub AreBlocks-snoc :
      (pos : ℕ) (es : List BlockIndex) (gs : List (List Entry)) (e : BlockIndex) (g : List Entry)
      → AreBlocks pos es gs
      → e.offset ≡ pos + length (blocks_bytes gs)
      → e.size ≡ length (block g)
      → AreBlocks pos (es ++ e ∷ []) (gs ++ g ∷ [])
  unfolding blocks_bytes
  AreBlocks-snoc pos [] [] e g b o s = (omega arith, s, tt)
  AreBlocks-snoc pos [] (f ∷ gs) e g b o s = absurd b
  AreBlocks-snoc pos (d ∷ es) [] e g b o s = absurd b
  AreBlocks-snoc pos (d ∷ es) (f ∷ gs) e g b o s = (
    b.0,
    b.1,
    AreBlocks-snoc (pos + length (block f)) es gs e g b.2
        (omega (arith, length-append (block f) (blocks_bytes gs))) s,
  )
