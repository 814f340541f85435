-- ===== src/Sstable/Range/Groups.antt =====
-- crates/ingodb-sstable/src/reader.rs: a table whose blocks can be read and are in the order of the
-- keys.
use ingodb.Base.{ℕ, ◌≡◌, true, List, [], ◌∷◌, ◌++◌, arith, All, All-left, Option}
use ingodb.Base.Orders.{cmp_bytes-IsTotal}
use ingodb.Sstable.Error.{done}
use ingodb.Sstable.Writer.{BlockIndex}
use ingodb.Sstable.Reader.{Entry, read_block}
use ingodb.Sstable.Lookup.{le_bytes, lt_bytes}
use ingodb.Sstable.Lookup.Layout.{flat}

-- Each key is not above any later one.
abbrev pub IsOrdered : List Entry → Type 0
IsOrdered [] = Unit
IsOrdered (kv ∷ kvs) = All (λ e. le_bytes kv.0 e.0 ≡ true) kvs × IsOrdered kvs

-- The blocks hold the groups of entries: no key of a group is above its block's last key, and no later
-- key is below it.
abbrev pub AreGroups : List BlockIndex → List (List Entry) → Type 0
AreGroups [] [] = Unit
AreGroups (b ∷ bs) (g ∷ gs) =
    All (λ kv. le_bytes kv.0 b.last_key ≡ true) g
    × All (λ kv. le_bytes b.last_key kv.0 ≡ true) (flat gs)
    × AreGroups bs gs
AreGroups _ _ = ⊥

module _ (blake3 : List ℕ → List ℕ) (decompress : List ℕ → Option (List ℕ))
    (crc32 : List ℕ → ℕ) where
  -- Reading each block gives its group.
  abbrev pub AreRead : List ℕ → List BlockIndex → List (List Entry) → Type 0
  AreRead bytes [] [] = Unit
  AreRead bytes (b ∷ bs) (g ∷ gs) =
      (read_block blake3 decompress crc32 bytes b ≡ done g) × AreRead bytes bs gs
  AreRead bytes _ _ = ⊥

pub le_trans : (a b c : List ℕ) → le_bytes a b ≡ true → le_bytes b c ≡ true → le_bytes a c ≡ true
le_trans a b c h k = ground (
  arith,
  cmp_bytes-IsTotal.lt_trans a b c,
  cmp_bytes-IsTotal.eq_of_cmp a b,
  cmp_bytes-IsTotal.eq_of_cmp b c,
)

pub le_lt_trans : (a b c : List ℕ) → le_bytes a b ≡ true → lt_bytes b c ≡ true → lt_bytes a c ≡ true
le_lt_trans a b c h k =
    ground (arith, cmp_bytes-IsTotal.lt_trans a b c, cmp_bytes-IsTotal.eq_of_cmp a b)

pub lt_le_trans : (a b c : List ℕ) → lt_bytes a b ≡ true → le_bytes b c ≡ true → lt_bytes a c ≡ true
lt_le_trans a b c h k =
    ground (arith, cmp_bytes-IsTotal.lt_trans a b c, cmp_bytes-IsTotal.eq_of_cmp b c)

pub IsOrdered-left : (xs ys : List Entry) → IsOrdered (xs ++ ys) → IsOrdered xs
IsOrdered-left [] ys o = tt
IsOrdered-left (x ∷ xs) ys o =
    (All-left (λ e. le_bytes x.0 e.0 ≡ true) xs ys o.0, IsOrdered-left xs ys o.1)

pub IsOrdered-right : (xs ys : List Entry) → IsOrdered (xs ++ ys) → IsOrdered ys
IsOrdered-right [] ys o = o
IsOrdered-right (x ∷ xs) ys o = IsOrdered-right xs ys o.1

-- The same, with later keys above the last key of a block, and no group empty.
abbrev pub AreApart : List BlockIndex → List (List Entry) → Type 0
AreApart [] [] = Unit
AreApart (b ∷ bs) ((x ∷ g) ∷ gs) =
    All (λ kv. le_bytes kv.0 b.last_key ≡ true) (x ∷ g)
    × All (λ kv. lt_bytes b.last_key kv.0 ≡ true) (flat gs)
    × AreApart bs gs
AreApart _ _ = ⊥

-- Each key is below any later one.
abbrev pub IsStrict : List Entry → Type 0
IsStrict [] = Unit
IsStrict (kv ∷ kvs) = All (λ e. lt_bytes kv.0 e.0 ≡ true) kvs × IsStrict kvs

lt-le :
    (k : List ℕ) (es : List Entry)
    → All (λ e. lt_bytes k e.0 ≡ true) es
    → All (λ e. le_bytes k e.0 ≡ true) es
lt-le k [] a = tt
lt-le k (e ∷ es) a = (ground (arith, a.0), lt-le k es a.1)

pub IsStrict-IsOrdered : (kvs : List Entry) → IsStrict kvs → IsOrdered kvs
IsStrict-IsOrdered [] s = tt
IsStrict-IsOrdered (kv ∷ kvs) s = (lt-le kv.0 kvs s.0, IsStrict-IsOrdered kvs s.1)
