-- ===== src/Sstable/Range/Scanned.antt =====
-- crates/ingodb-sstable/src/reader.rs, `range_scan`: it returns exactly the entries in the range.
use ingodb.Base.{
  zero, suc, ℕ, ◌≡◌, refl, ap, ◌∙◌, sym, ◌&&◌, not, Bool, true, false, Bool-cases, inl, inr, List,
  [], ◌∷◌, ◌++◌, arith, All, retain, append-nil, if◌then◌else◌, Option,
}
use ingodb.Base.Orders.{cmp_bytes-IsTotal}
use ingodb.Blob.IBlob.{same_key}
use ingodb.Sstable.Error.{Outcome, done}
use ingodb.Sstable.Writer.{BlockIndex}
use ingodb.Sstable.Reader.{Entry, SstableReader}
use ingodb.Sstable.Lookup.{le_bytes, lt_bytes, search_blocks}
use ingodb.Sstable.Lookup.Layout.{flat}
use ingodb.Sstable.Range.{
  scan_entries, walk_back, found_among, first_blocks, is_none_found, scan_blocks, range_scan,
}
use ingodb.Sstable.Range.Groups.{
  IsOrdered, AreGroups, AreRead, le_lt_trans, lt_le_trans, IsOrdered-left, IsOrdered-right,
}

-- The key of the entry is not below the first key and not above the second.
abbrev pub in_range : List ℕ → List ℕ → Entry → Bool
in_range start_key end_key kv = not (lt_bytes kv.0 start_key) && not (lt_bytes end_key kv.0)

module _ (start_key end_key : List ℕ) where
  abbrev inside : List Entry → List Entry
  inside = retain (in_range start_key end_key)

  inside-append : (xs ys : List Entry) → inside (xs ++ ys) ≡ inside xs ++ inside ys
  inside-append [] ys = refl
  inside-append (x ∷ xs) ys = ground (arith, inside-append xs ys)

  inside_above : (kvs : List Entry) → All (λ e. lt_bytes end_key e.0 ≡ true) kvs → inside kvs ≡ []
  inside_above [] a = refl
  inside_above (kv ∷ kvs) a = ground (arith, inside_above kvs a.1)

  inside_below : (kvs : List Entry) → All (λ e. lt_bytes e.0 start_key ≡ true) kvs → inside kvs ≡ []
  inside_below [] a = refl
  inside_below (kv ∷ kvs) a = ground (arith, inside_below kvs a.1)

  All-above :
      (k : List ℕ) (kvs : List Entry)
      → lt_bytes end_key k ≡ true
      → All (λ e. le_bytes k e.0 ≡ true) kvs
      → All (λ e. lt_bytes end_key e.0 ≡ true) kvs
  All-above k [] h a = tt
  All-above k (kv ∷ kvs) h a = (lt_le_trans end_key k kv.0 h a.0, All-above k kvs h a.1)

  All-below :
      (k : List ℕ) (kvs : List Entry)
      → lt_bytes k start_key ≡ true
      → All (λ e. le_bytes e.0 k ≡ true) kvs
      → All (λ e. lt_bytes e.0 start_key ≡ true) kvs
  All-below k [] h a = tt
  All-below k (kv ∷ kvs) h a = (le_lt_trans kv.0 k start_key a.0 h, All-below k kvs h a.1)

  scan_entries-inside :
      (kvs : List Entry) → IsOrdered kvs → (scan_entries start_key end_key kvs).0 ≡ inside kvs
  unfolding scan_entries
  scan_entries-inside [] o = refl
  scan_entries-inside (kv ∷ kvs) o =
      ground (arith, scan_entries-inside kvs o.1, inside_above kvs, All-above kv.0 kvs, o.0)

  -- The loop ends early at a key past the end only.
  scan_entries_past :
      (k : List ℕ) (kvs : List Entry)
      → All (λ e. le_bytes e.0 k ≡ true) kvs
      → (scan_entries start_key end_key kvs).1 ≡ true
      → lt_bytes end_key k ≡ true
  unfolding scan_entries
  scan_entries_past k [] a h = cc
  scan_entries_past k (kv ∷ kvs) a h =
      ground (arith, scan_entries_past k kvs a.1, lt_le_trans end_key kv.0 k, a.0)

  -- An early end is right where nothing follows.
  early :
      (past beyond : Bool) (xs ys : List Entry)
      → (past ≡ true → beyond ≡ true)
      → (beyond ≡ true → ys ≡ [])
      → (if past then done xs else if is_none_found xs && beyond then done xs else done (xs ++ ys))
        ≡ done (xs ++ ys)
  early true beyond xs ys p e = ap done (sym (append-nil xs)) ∙ rw (e (p refl)) refl
  early false false xs ys p e = ground arith
  early false true [] ys p e = rw (e refl) refl
  early false true (x ∷ xs) ys p e = refl

  abbrev IsPassed : List BlockIndex → Type 0
  IsPassed [] = Unit
  IsPassed (b ∷ before) = lt_bytes b.last_key start_key ≡ true

  -- The blocks from the first that does not end before the start key.
  abbrev skip : List BlockIndex → List BlockIndex
  skip [] = []
  skip (b ∷ bs) = elim (lt_bytes b.last_key start_key) [ true ↦ skip bs | false ↦ b ∷ bs ]

  skip_passed :
      (b : BlockIndex) (bs : List BlockIndex)
      → skip (b ∷ bs) ≡ (if lt_bytes b.last_key start_key then skip bs else b ∷ bs)
  skip_passed b bs = ground arith

  first_blocks-passed :
      (before : List BlockIndex) (b : BlockIndex) (bs : List BlockIndex)
      → IsPassed before
      → first_blocks start_key (before, b ∷ bs) ≡ b ∷ bs
  unfolding walk_back
  first_blocks-passed [] b bs p = refl
  first_blocks-passed (c ∷ before) b bs p =
      ground (arith, cmp_bytes-IsTotal.gt_of_lt c.last_key start_key)

  first_blocks-skip :
      (before bs : List BlockIndex)
      → IsPassed before
      → first_blocks start_key (search_blocks start_key before bs) ≡ skip bs
  unfolding search_blocks
  first_blocks-skip before [] p = refl
  first_blocks-skip before (b ∷ bs) p =
      ground (arith, first_blocks-skip (b ∷ before) bs, first_blocks-passed before b bs p)

  -- The first of the blocks does not end before the start key.
  abbrev IsFrom : List BlockIndex → Type 0
  IsFrom [] = Unit
  IsFrom (b ∷ bs) = le_bytes start_key b.last_key ≡ true

  search_blocks-IsFrom :
      (before bs : List BlockIndex) → IsFrom (search_blocks start_key before bs).1
  unfolding search_blocks
  search_blocks-IsFrom before [] = tt
  search_blocks-IsFrom before (b ∷ bs) =
      ground (
        arith,
        search_blocks-IsFrom (b ∷ before) bs,
        cmp_bytes-IsTotal.lt_of_gt start_key b.last_key,
      )

  same_key-le : (k : List ℕ) → same_key k start_key ≡ true → le_bytes start_key k ≡ true
  same_key-le k same =
      ground (arith, cmp_bytes-IsTotal.eq_of_cmp k start_key, cmp_bytes-IsTotal.cmp_refl start_key)

  first_blocks-back :
      (before : List BlockIndex) (b c : BlockIndex) (bs : List BlockIndex)
      → le_bytes start_key b.last_key ≡ true
      → first_blocks start_key (b ∷ before, c ∷ bs) ≡ first_blocks start_key (before, b ∷ c ∷ bs)
  unfolding walk_back
  first_blocks-back [] b c bs f = ground (arith, f)
  first_blocks-back (a ∷ before) b c bs f = ground (arith, f)

  found_among_step :
      (n : ℕ) (before : List BlockIndex) (b c : BlockIndex) (bs : List BlockIndex)
      → found_among (suc n) start_key before (b ∷ c ∷ bs) ≡ (
          if same_key c.last_key start_key
          then found_among n start_key (b ∷ before) (c ∷ bs)
          else (before, b ∷ c ∷ bs))
  unfolding found_among
  found_among_step n before b c bs = ground arith

  -- Whichever of the equal blocks was found, the walk backward comes to the first of them.
  found_among-first_blocks :
      (among : ℕ) (before bs : List BlockIndex)
      → IsFrom bs
      → first_blocks start_key (found_among among start_key before bs)
        ≡ first_blocks start_key (before, bs)
  unfolding found_among walk_back
  found_among-first_blocks zero before bs f = refl
  found_among-first_blocks (suc n) before [] f = refl
  found_among-first_blocks (suc n) before (b ∷ []) f = refl
  found_among-first_blocks (suc n) before (b ∷ c ∷ bs) f =
      elim (Bool-cases (same_key c.last_key start_key)) [
        | inl same ↦
            rw (found_among_step n before b c bs, same)
              (found_among-first_blocks n (b ∷ before) (c ∷ bs) (same_key-le c.last_key same)
                ∙ first_blocks-back before b c bs f)
        | inr differs ↦ rw (found_among_step n before b c bs, differs) refl
      ]

  module _ (blake3 : List ℕ → List ℕ) (decompress : List ℕ → Option (List ℕ)) (crc32 : List ℕ → ℕ)
      (bytes : List ℕ) where
    abbrev scanned : List BlockIndex → Outcome (List Entry)
    scanned = scan_blocks blake3 decompress crc32 bytes start_key end_key

    scan_blocks-inside :
        (bs : List BlockIndex) (gs : List (List Entry))
        → AreRead blake3 decompress crc32 bytes bs gs
        → AreGroups bs gs
        → IsOrdered (flat gs)
        → scanned bs ≡ done (inside (flat gs))
    unfolding scan_blocks
    scan_blocks-inside [] [] r a o = refl
    scan_blocks-inside [] (g ∷ gs) r a o = absurd r
    scan_blocks-inside (b ∷ bs) [] r a o = absurd r
    scan_blocks-inside (b ∷ bs) (g ∷ gs) r a o =
        let rest = scan_blocks-inside bs gs r.1 a.2 (IsOrdered-right g (flat gs) o) in
        let found = scan_entries-inside g (IsOrdered-left g (flat gs) o) in
        let past = scan_entries_past b.last_key g a.0 in
        let after = inside_above (flat gs) in
        let above = All-above b.last_key (flat gs) in
        rw (r.0, rest, found, inside-append g (flat gs))
          (early (scan_entries start_key end_key g).1 (lt_bytes end_key b.last_key) (inside g)
            (inside (flat gs)) past (λ h. after (above h a.1)))

    scan_blocks-skip :
        (bs : List BlockIndex) (gs : List (List Entry))
        → AreRead blake3 decompress crc32 bytes bs gs
        → AreGroups bs gs
        → IsOrdered (flat gs)
        → scanned (skip bs) ≡ done (inside (flat gs))
    scan_blocks-skip [] [] r a o = scan_blocks-inside [] [] r a o
    scan_blocks-skip [] (g ∷ gs) r a o = absurd r
    scan_blocks-skip (b ∷ bs) [] r a o = absurd r
    scan_blocks-skip (b ∷ bs) (g ∷ gs) r a o = elim (Bool-cases (lt_bytes b.last_key start_key)) [
      | inl before ↦
          let none_in : inside g ≡ [] = inside_below g (All-below b.last_key g before a.0) in
          rw (skip_passed b bs, before, inside-append g (flat gs), none_in)
            (scan_blocks-skip bs gs r.1 a.2 (IsOrdered-right g (flat gs) o))
      | inr from ↦ rw (skip_passed b bs, from) (scan_blocks-inside (b ∷ bs) (g ∷ gs) r a o)
    ]

-- A range scan of a table whose blocks can be read and are in the order of the keys, in which several
-- blocks can end at one key: whichever of these the binary search finds, the scan returns exactly the
-- entries whose keys are not below the first key and not above the second, in their order.
pub range_scan-in_range :
    (blake3 : List ℕ → List ℕ) (decompress : List ℕ → Option (List ℕ)) (crc32 : List ℕ → ℕ)
    (among : ℕ) (start_key end_key : List ℕ) (r : SstableReader) (gs : List (List Entry))
    → AreRead blake3 decompress crc32 r.data_bytes r.block_indices gs
    → AreGroups r.block_indices gs
    → IsOrdered (flat gs)
    → range_scan blake3 decompress crc32 among r start_key end_key
      ≡ done (retain (in_range start_key end_key) (flat gs))
unfolding range_scan
range_scan-in_range blake3 decompress crc32 among start_key end_key r gs read groups ordered =
    let (before, blocks) = search_blocks start_key [] r.block_indices in
    rw
      (
        found_among-first_blocks start_key end_key among before blocks
            (search_blocks-IsFrom start_key end_key [] r.block_indices),
        first_blocks-skip start_key end_key [] r.block_indices tt,
      )
      (scan_blocks-skip start_key end_key blake3 decompress crc32 r.data_bytes r.block_indices gs
        read groups ordered)
