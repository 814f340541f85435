-- ===== src/Sstable/Range/Latest.antt =====
-- crates/ingodb-sstable/src/reader.rs, `get_latest_by_prefix`: the block that the search finds and the
-- one before it are enough.
use ingodb.Base.{
  ℕ, zero, suc, ◌≤◌, ◌≡◌, refl, ap, ◌∙◌, sym, ◌&&◌, Bool, true, false, Bool-cases, Option-cases,
  inl, inr, Option, none, some, List, [], ◌∷◌, ◌++◌, arith, All, All-right, length, take, leb,
  cmp_bytes-eq, cmp_bytes_refl, if◌then◌else◌, append_assoc, append-nil, subst,
}
use ingodb.Base.Orders.{cmp_bytes-IsTotal}
use ingodb.Blob.IBlob.{IBlob, same_key}
use ingodb.Sstable.Error.{Outcome, done}
use ingodb.Sstable.Writer.{BlockIndex}
use ingodb.Sstable.Reader.{Entry, read_block}
use ingodb.Sstable.Lookup.{le_bytes, lt_bytes, search_blocks, latest_in, look_before, latest_from}
use ingodb.Sstable.Lookup.Layout.{flat}
use ingodb.Sstable.Range.Groups.{IsOrdered, AreApart, AreRead, le_lt_trans}

-- A key between two keys with one prefix has the prefix.
between :
    (n : ℕ) (k e m : List ℕ)
    → n ≤ length k
    → take n k ≡ take n m
    → le_bytes k e ≡ true
    → le_bytes e m ≡ true
    → (n ≤ length e) × (take n e ≡ take n m)
between zero k e m h p a b = (omega arith, refl)
between (suc n) [] e m h p a b = absurd (omega arith)
between (suc n) (x ∷ k) e [] h p a b = absurd (cc p)
between (suc n) (x ∷ k) [] (z ∷ m) h p a b = absurd (cc a)
between (suc n) (x ∷ k) (y ∷ e) (z ∷ m) h p a b =
    let ih = between n k e m (omega arith) in ground (arith, ih, p)

IsOrdered-above :
    (xs : List Entry) (x : Entry) (ys : List Entry)
    → IsOrdered (xs ++ x ∷ ys)
    → All (λ k. le_bytes k.0 x.0 ≡ true) xs
IsOrdered-above [] x ys o = tt
IsOrdered-above (k ∷ xs) x ys o =
    ((All-right (λ e. le_bytes k.0 e.0 ≡ true) xs (x ∷ ys) o.0).0, IsOrdered-above xs x ys o.1)

module _ (max_key : List ℕ) where
  All-beyond :
      (k : List ℕ) (es : List Entry)
      → lt_bytes k max_key ≡ false
      → All (λ e. lt_bytes k e.0 ≡ true) es
      → All (λ e. lt_bytes max_key e.0 ≡ true) es
  All-beyond k [] h a = tt
  All-beyond k (e ∷ es) h a = (
    ground (
      arith,
      cmp_bytes-IsTotal.lt_trans max_key k e.0,
      cmp_bytes-IsTotal.eq_of_cmp k max_key,
      cmp_bytes-IsTotal.lt_of_gt k max_key,
      a.0,
    ),
    All-beyond k es h a.1,
  )

  -- The test of the loop over a block.
  abbrev pub is_version : Entry → Bool
  is_version kv =
      leb 16 (length kv.0) && (same_key (take 16 kv.0) (take 16 max_key) && le_bytes kv.0 max_key)

  abbrev later_or : Option IBlob → Option IBlob → Option IBlob
  later_or (some b) o = some b
  later_or none o = o

  pub latest_in-append :
      (xs ys : List Entry)
      → latest_in max_key (xs ++ ys) ≡ later_or (latest_in max_key ys) (latest_in max_key xs)
  unfolding latest_in
  latest_in-append [] ys = ground arith
  latest_in-append (x ∷ xs) ys = ground (arith, latest_in-append xs ys)

  latest_in-above :
      (xs : List Entry) → All (λ e. lt_bytes max_key e.0 ≡ true) xs → latest_in max_key xs ≡ none
  unfolding latest_in
  latest_in-above [] a = refl
  latest_in-above (x ∷ xs) a =
      ground (arith, latest_in-above xs a.1, cmp_bytes-IsTotal.gt_of_lt max_key x.0)

  latest_in-All :
      (P : Entry → Type 0) (xs : List Entry) (b : IBlob)
      → All P xs
      → latest_in max_key xs ≡ some b
      → (kv : Entry) × P kv × (is_version kv ≡ true)
  unfolding latest_in
  latest_in-All P [] b a h = absurd (cc h)
  latest_in-All P (x ∷ xs) b a h = elim (Option-cases (latest_in max_key xs)) [
    | inl none_later ↦ (x, a.0, ground (arith, none_later))
    | inr later ↦ latest_in-All P xs later.0 a.1 later.1
  ]

  latest_in_first :
      (x : Entry) (xs : List Entry)
      → is_version x ≡ true
      → (b : IBlob) × (latest_in max_key (x ∷ xs) ≡ some b)
  unfolding latest_in
  latest_in_first x xs h = elim (Option-cases (latest_in max_key xs)) [
    | inl none_later ↦ (x.1, ground (arith, none_later))
    | inr later ↦ (later.0, ground (arith, later.1))
  ]

  -- An entry between a version of the id and the greatest key is a version of the id.
  is_version-between :
      (kv : Entry) (e : List ℕ)
      → is_version kv ≡ true
      → le_bytes kv.0 e ≡ true
      → le_bytes e max_key ≡ true
      → (16 ≤ length e) × (take 16 e ≡ take 16 max_key)
  is_version-between kv e h a b =
      between 16 kv.0 e max_key (ground arith)
        (cmp_bytes-eq (take 16 kv.0) (take 16 max_key) (ground arith)) a b

  module _ (blake3 : List ℕ → List ℕ) (decompress : List ℕ → Option (List ℕ)) (crc32 : List ℕ → ℕ)
      (bytes : List ℕ) where
    abbrev back : List BlockIndex → Option IBlob → Outcome (Option IBlob)
    back = look_before blake3 decompress crc32 bytes max_key

    -- The look into the block before finds what all earlier entries have.
    abbrev IsBack : List BlockIndex → List Entry → Type 0
    IsBack before earlier = back before none ≡ done (latest_in max_key earlier)

    look_after :
        (before : List BlockIndex) (earlier g : List Entry)
        → IsBack before earlier
        → back before (latest_in max_key g) ≡ done (latest_in max_key (earlier ++ g))
    unfolding look_before
    look_after before earlier g h =
        rw (latest_in-append earlier g) (elim (Option-cases (latest_in max_key g)) [
          | inl none_here ↦ rw none_here h
          | inr here ↦ rw here.1 refl
        ])

    abbrev guard : BlockIndex → Bool
    guard b = leb 16 (length b.last_key) && le_bytes (take 16 max_key) (take 16 b.last_key)

    look_back :
        (b : BlockIndex) (before : List BlockIndex) (g : List Entry)
        → read_block blake3 decompress crc32 bytes b ≡ done g
        → back (b ∷ before) none ≡ (if guard b then done (latest_in max_key g) else done none)
    unfolding look_before
    look_back b before g r = rw r refl

    guard-between :
        (kv : Entry) (b : BlockIndex)
        → is_version kv ≡ true
        → le_bytes kv.0 b.last_key ≡ true
        → lt_bytes b.last_key max_key ≡ true
        → guard b ≡ true
    guard-between kv b h a l =
        let (len, same) = is_version-between kv b.last_key h a (ground arith) in
        let e : take 16 max_key ≡ take 16 b.last_key = sym same in
        ground (arith, cmp_bytes_refl (take 16 max_key), e)

    IsBack-next :
        (b : BlockIndex) (before : List BlockIndex) (earlier : List Entry) (x : Entry)
        (g : List Entry)
        → read_block blake3 decompress crc32 bytes b ≡ done (x ∷ g)
        → All (λ k. le_bytes k.0 x.0 ≡ true) earlier
        → All (λ e. le_bytes e.0 b.last_key ≡ true) (x ∷ g)
        → lt_bytes b.last_key max_key ≡ true
        → IsBack (b ∷ before) (earlier ++ x ∷ g)
    IsBack-next b before earlier x g r first last l =
        rw (look_back b before (x ∷ g) r, latest_in-append earlier (x ∷ g))
          (elim (Option-cases (latest_in max_key (x ∷ g))) [
            | inl none_here ↦
                let none_before : latest_in max_key earlier ≡ none =
                  elim (Option-cases (latest_in max_key earlier)) [
                    | inl e ↦ e
                    | inr found ↦
                        let (k, at, v) = latest_in-All _ earlier found.0 first found.1 in
                        let (len, same) =
                          is_version-between k x.0 v at
                            (ground (arith, le_lt_trans x.0 b.last_key max_key last.0 l)) in
                        let (c, some_here) = latest_in_first x g (
                          ground (
                            arith,
                            cmp_bytes_refl (take 16 max_key),
                            same,
                            le_lt_trans x.0 b.last_key max_key last.0 l,
                          )) in
                        absurd (cc (none_here, some_here))
                  ] in
                rw (none_here, none_before) (ground arith)
            | inr here ↦
                let (k, at, v) = latest_in-All _ (x ∷ g) here.0 last here.1 in
                rw (here.1, guard-between k b v at l) refl
          ])

    search_blocks_step :
        (before bs : List BlockIndex) (b : BlockIndex)
        → search_blocks max_key before (b ∷ bs) ≡ (
            if lt_bytes b.last_key max_key
            then search_blocks max_key (b ∷ before) bs
            else (before, b ∷ bs))
    unfolding search_blocks
    search_blocks_step before bs b = ground arith

    pub latest_from-flat :
        (before bs : List BlockIndex) (earlier : List Entry) (gs : List (List Entry))
        → IsBack before earlier
        → latest_from blake3 decompress crc32 bytes max_key (before, [])
          ≡ done (latest_in max_key earlier)
        → AreRead blake3 decompress crc32 bytes bs gs
        → AreApart bs gs
        → IsOrdered (earlier ++ flat gs)
        → latest_from blake3 decompress crc32 bytes max_key (search_blocks max_key before bs)
          ≡ done (latest_in max_key (earlier ++ flat gs))
    unfolding search_blocks latest_from
    latest_from-flat before [] earlier [] h k r a o = rw (append-nil earlier) k
    latest_from-flat before [] earlier (g ∷ gs) h k r a o = absurd r
    latest_from-flat before (b ∷ bs) earlier [] h k r a o = absurd r
    latest_from-flat before (b ∷ bs) earlier ([] ∷ gs) h k r a o = absurd a
    latest_from-flat before (b ∷ bs) earlier ((x ∷ g) ∷ gs) h k r a o =
        let here = look_after before earlier (x ∷ g) h in
        let grouped = append_assoc earlier (x ∷ g) (flat gs) in
        elim (Bool-cases (lt_bytes b.last_key max_key)) [
          | inl passed ↦
              let next =
                latest_from-flat (b ∷ before) bs (earlier ++ x ∷ g) gs
                  (IsBack-next b before earlier x g r.0 (IsOrdered-above earlier x _ o) a.0 passed)
                  (rw r.0 here) r.1 a.2 (subst IsOrdered (sym grouped) o) in
              rw (search_blocks_step before bs b, passed, ← grouped) next
          | inr found ↦
              let beyond = latest_in-above (flat gs) (All-beyond b.last_key (flat gs) found a.1) in
              rw (search_blocks_step before bs b, found, r.0, here, ← grouped)
                (ap done (sym (latest_in-append (earlier ++ x ∷ g) (flat gs) ∙ rw beyond refl)))
        ]
