-- ===== src/Lsm/Scan/Tables.antt =====
-- crates/ingodb-sstable/src/reader.rs: the lookup at a snapshot and the iteration over all entries of a
-- table that is sorted by (id, version).
use ingodb.Base.{
  ℕ, ◌<◌, ◌≡◌, refl, sym, ap, ◌∙◌, ◌&&◌, true, false, Bool-cases, Option-cases, inl, inr, Option,
  none, List, [], ◌∷◌, ◌++◌, arith, All, length, take, take-append, leb, ◌==◌, compare, then_with,
  cmp_bytes, length-append, subst,
}
use ingodb.Bytes.Order.{cmp_bytes-to_be_bytes, cmp_bytes-append}
use ingodb.Blob.Id.{DocumentId, IsId, as_bytes, length-as_bytes}
use ingodb.Sstable.Error.{done}
use ingodb.Sstable.Bloom
use ingodb.Sstable.Keys.{mvcc_key}
use ingodb.Sstable.Writer.{BlockIndex}
use ingodb.Sstable.Reader.{Entry, SstableReader}
use ingodb.Sstable.Lookup.{
  lt_bytes, latest_in, get_by_id_at, get_latest_by_prefix, iter, iter_blocks,
}
use ingodb.Sstable.Lookup.Layout.{flat}
use ingodb.Sstable.Range.Groups.{AreRead, AreApart, IsStrict, IsStrict-IsOrdered}
use ingodb.Sstable.Range.Latest.{is_version, latest_from-flat}
use ingodb.Lsm.Merge.Latest.{latest}
use ingodb.Lsm.Scan.{blobs_of}
use ingodb.Lsm.Scan.Select.{latest_at}
use ingodb.Lsm.Scan.Memtables.{latest_at-cons, latest_at-All}

-- The entry stands under the id and the version of its document.
abbrev pub IsKeyed : Entry → Type 0
IsKeyed kv = (kv.0 ≡ mvcc_key kv.1) × IsId kv.1.id × IsId kv.1.version

cmp-as_bytes : (a b : ℕ) → IsId a → IsId b → cmp_bytes (as_bytes a) (as_bytes b) ≡ compare a b
unfolding as_bytes
cmp-as_bytes a b h k = cmp_bytes-to_be_bytes 16 a b h k

cmp-keys :
    (i v j w : ℕ)
    → IsId i
    → IsId v
    → IsId j
    → IsId w
    → cmp_bytes (as_bytes i ++ as_bytes v) (as_bytes j ++ as_bytes w)
      ≡ then_with (compare i j) (compare v w)
cmp-keys i v j w a b c d =
    cmp_bytes-append (as_bytes i) (as_bytes v) (as_bytes j) (as_bytes w)
      (length-as_bytes i ∙ sym (length-as_bytes j))
    ∙ rw (cmp-as_bytes i j a c, cmp-as_bytes v w b d) refl

take-key : (i v : ℕ) → take 16 (as_bytes i ++ as_bytes v) ≡ as_bytes i
take-key i v =
    subst (λ n. take n (as_bytes i ++ as_bytes v) ≡ as_bytes i) (length-as_bytes i)
      (take-append (as_bytes i) (as_bytes v))

is_version-keyed :
    (id snapshot : ℕ) (kv : Entry)
    → IsId id
    → IsId snapshot
    → IsKeyed kv
    → is_version (as_bytes id ++ as_bytes snapshot) kv
      ≡ (leb kv.1.version snapshot && kv.1.id == id)
unfolding mvcc_key
is_version-keyed id snapshot kv h k (e, i, v) =
    let len : length (as_bytes kv.1.id ++ as_bytes kv.1.version) ≡ 32 = omega (
      arith,
      length-append (as_bytes kv.1.id) (as_bytes kv.1.version),
      length-as_bytes kv.1.id,
      length-as_bytes kv.1.version,
    ) in
    let long : length kv.0 ≡ 32 = ap length e ∙ len in
    let prefix : take 16 kv.0 ≡ as_bytes kv.1.id = ap (take 16) e ∙ take-key kv.1.id kv.1.version in
    let order : cmp_bytes kv.0 (as_bytes id ++ as_bytes snapshot)
        ≡ then_with (compare kv.1.id id) (compare kv.1.version snapshot) =
      ap (λ k. cmp_bytes k (as_bytes id ++ as_bytes snapshot)) e
      ∙ cmp-keys kv.1.id kv.1.version id snapshot i v h k in
    let ids : cmp_bytes (take 16 kv.0) (take 16 (as_bytes id ++ as_bytes snapshot))
        ≡ compare kv.1.id id =
      ap (λ a. cmp_bytes a (take 16 (as_bytes id ++ as_bytes snapshot))) prefix
      ∙ ap (cmp_bytes (as_bytes kv.1.id)) (take-key id snapshot)
      ∙ cmp-as_bytes kv.1.id id i h in
    ground (arith, long, order, ids)

-- The version that a later entry of the same id has is higher.
newer_after :
    (kv e : Entry)
    → IsKeyed kv
    → IsKeyed e
    → lt_bytes kv.0 e.0 ≡ true
    → kv.1.id ≡ e.1.id
    → kv.1.version < e.1.version
unfolding mvcc_key
newer_after kv e (a, i, v) (b, j, w) h same =
    let order : cmp_bytes kv.0 e.0
        ≡ then_with (compare kv.1.id e.1.id) (compare kv.1.version e.1.version) =
      ap (λ k. cmp_bytes k e.0) a
      ∙ ap (cmp_bytes (as_bytes kv.1.id ++ as_bytes kv.1.version)) b
      ∙ cmp-keys kv.1.id kv.1.version e.1.id e.1.version i v j w in
    ground (arith, order)

All-newer :
    (kv : Entry) (es : List Entry)
    → IsKeyed kv
    → All IsKeyed es
    → All (λ e. lt_bytes kv.0 e.0 ≡ true) es
    → All (λ b. kv.1.id ≡ b.id → kv.1.version < b.version) (blobs_of es)
All-newer kv [] k a h = tt
All-newer kv (e ∷ es) k a h = (newer_after kv e k a.0 h.0, All-newer kv es k a.1 h.1)

latest_in-latest_at :
    (id snapshot : ℕ) (kvs : List Entry)
    → IsId id
    → IsId snapshot
    → All IsKeyed kvs
    → IsStrict kvs
    → latest_in (as_bytes id ++ as_bytes snapshot) kvs ≡ latest_at snapshot id (blobs_of kvs)
unfolding latest_in latest
latest_in-latest_at id snapshot [] h k a s = refl
latest_in-latest_at id snapshot (kv ∷ kvs) h k a s =
    let test = is_version-keyed id snapshot kv h k a.0 in
    let rest = latest_in-latest_at id snapshot kvs h k a.1 s.1 in
    let newer = All-newer kv kvs a.0 a.1 s.0 in
    rw (latest_at-cons id snapshot kv.1 (blobs_of kvs))
      (elim (Option-cases (latest_at snapshot id (blobs_of kvs))) [
        | inl none_later ↦ ground (arith, test, rest, none_later)
        | inr (b, later) ↦
            let (above, same) = latest_at-All _ id snapshot (blobs_of kvs) b newer later in
            ground (arith, test, rest, later, above)
      ])

module _ (blake3 : List ℕ → List ℕ) (decompress : List ℕ → Option (List ℕ))
    (crc32 : List ℕ → ℕ) where
  -- A table whose blocks can be read and hold the groups of entries, in the order of (id, version), and
  -- whose filter has the id of every entry.
  pub record IsTable (r : SstableReader) (gs : List (List Entry)) : Type 0 where
    pub read : AreRead blake3 decompress crc32 r.data_bytes r.block_indices gs
    pub apart : AreApart r.block_indices gs
    pub strict : IsStrict (flat gs)
    pub keyed : All IsKeyed (flat gs)
    pub filtered : All (λ kv. Bloom.may_contain blake3 r.bloom (as_bytes kv.1.id) ≡ true) (flat gs)

  -- The bloom filter does not hide a version.
  filtered-none :
      (r : SstableReader) (id snapshot : ℕ) (kvs : List Entry)
      → All (λ kv. Bloom.may_contain blake3 r.bloom (as_bytes kv.1.id) ≡ true) kvs
      → Bloom.may_contain blake3 r.bloom (as_bytes id) ≡ false
      → latest_at snapshot id (blobs_of kvs) ≡ none
  unfolding latest
  filtered-none r id snapshot [] a h = refl
  filtered-none r id snapshot (kv ∷ kvs) a h =
      rw (latest_at-cons id snapshot kv.1 (blobs_of kvs)) (elim (Bool-cases (kv.1.id == id)) [
        | inl same ↦
            let e : kv.1.id ≡ id = ground arith in
            let there : Bloom.may_contain blake3 r.bloom (as_bytes id) ≡ true =
              subst (λ i. Bloom.may_contain blake3 r.bloom (as_bytes i) ≡ true) e a.0 in
            absurd (cc (there, h))
        | inr other ↦ ground (arith, filtered-none r id snapshot kvs a.1 h)
      ])

  iter_blocks-flat :
      (bytes : List ℕ) (bs : List BlockIndex) (gs : List (List Entry))
      → AreRead blake3 decompress crc32 bytes bs gs
      → iter_blocks blake3 decompress crc32 bytes bs ≡ done (flat gs)
  unfolding iter_blocks
  iter_blocks-flat bytes [] [] r = refl
  iter_blocks-flat bytes [] (g ∷ gs) r = absurd r
  iter_blocks-flat bytes (b ∷ bs) [] r = absurd r
  iter_blocks-flat bytes (b ∷ bs) (g ∷ gs) r = rw (r.0, iter_blocks-flat bytes bs gs r.1) refl

  -- A lookup of an id at a snapshot in such a table finds the newest version up to the snapshot among
  -- the entries that the iteration gives, and nothing exactly if there is none.
  pub get_by_id_at-latest_at :
      (r : SstableReader) (gs : List (List Entry)) (id snapshot : DocumentId)
      → IsTable r gs
      → IsId id
      → IsId snapshot
      → (get_by_id_at blake3 decompress crc32 r id snapshot
          ≡ done (latest_at snapshot id (blobs_of (flat gs))))
        × (iter blake3 decompress crc32 r ≡ done (flat gs))
  unfolding get_by_id_at get_latest_by_prefix iter
  get_by_id_at-latest_at r gs id snapshot t h k =
      let max_key = as_bytes id ++ as_bytes snapshot in
      let found =
        latest_from-flat max_key blake3 decompress crc32 r.data_bytes [] r.block_indices [] gs refl
          refl t.read t.apart (IsStrict-IsOrdered (flat gs) t.strict) in
      (
        elim (Bool-cases (Bloom.may_contain blake3 r.bloom (as_bytes id))) [
          | inl may ↦
              rw may
                (found ∙ ap done (latest_in-latest_at id snapshot (flat gs) h k t.keyed t.strict))
          | inr not_in ↦ rw (not_in, filtered-none r id snapshot (flat gs) t.filtered not_in) refl
        ],
        iter_blocks-flat r.data_bytes r.block_indices gs t.read,
      )
