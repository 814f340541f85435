-- ===== src/Memtable/Lookup.antt =====
-- What a reader at a snapshot sees in a memtable.
use ingodb.Base.{
  ℕ, ◌≤◌, ◌<◌, ◌≡◌, ◌==◌, ◌&&◌, refl, ap, ◌∙◌, Bool, true, false, Option, none, some, List, arith,
  All, leb, if◌then◌else◌, pair_ord,
}
use ingodb.Base.Maps
use ingodb.Base.Maps.{BTreeMap, IsSorted, get-insert, get-All}
use ingodb.Base.Maps.Range
use ingodb.Base.Maps.Range.{IsGreatest, last-range}
use ingodb.Blob.Id.{DocumentId}
use ingodb.Blob.IBlob.{IBlob}
use ingodb.Blob.IBlob.Codec
use ingodb.Memtable.{Key, MemTable, get, insert}
use ingodb.Memtable.Size.{IsValid, encode-key, insert-IsValid}

-- `found` is the version of `id` with the highest number up to `snapshot`, among the entries `m`.
abbrev pub IsLatest : BTreeMap Key IBlob → DocumentId → DocumentId → Option IBlob → Type 0
IsLatest m id snapshot none = (v : ℕ) → v ≤ snapshot → Maps.get m (id, v) ≡ none
IsLatest m id snapshot (some b) =
    (b.id ≡ id)
    × (b.version ≤ snapshot)
    × (Maps.get m (id, b.version) ≡ some b)
    × ((v : ℕ) → b.version < v → v ≤ snapshot → Maps.get m (id, v) ≡ none)

in_range :
    (id snapshot i v : ℕ)
    → Range.le_key {K = Key} (id, 0) (i, v) ≡ true
    → Range.le_key {K = Key} (i, v) (id, snapshot) ≡ true
    → (i ≡ id) × (v ≤ snapshot)
unfolding pair_ord
in_range id snapshot i v p q = ground arith

IsLatest-IsGreatest :
    (m : BTreeMap Key IBlob) (id snapshot : ℕ) (r : Option (Key × IBlob))
    → All (λ kv. kv.0 ≡ (kv.1.id, kv.1.version)) m
    → IsGreatest (id, 0) (id, snapshot) m r
    → IsLatest m id snapshot (elim r [ none ↦ none | some kv ↦ some kv.1 ])
unfolding pair_ord
IsLatest-IsGreatest m id snapshot none a h = λ v le. h (id, v) (ground arith) (ground arith)
IsLatest-IsGreatest m id snapshot (some ((i, v), b)) a h =
    let key : (i, v) ≡ (b.id, b.version) =
      get-All (λ kv. kv.0 ≡ (kv.1.id, kv.1.version)) m (i, v) b a h.2 in
    let ids : i ≡ b.id = ap (λ p. p.0) key in
    let versions : v ≡ b.version = ap (λ p. p.1) key in
    let (same, below) = in_range id snapshot i v h.0 h.1 in
    (
      cc (ids, same),
      omega arith,
      cc (h.2, same, versions),
      λ u lt le. h.3 (id, u) (ground arith) (ground arith),
    )

-- A lookup in a valid table finds the latest version up to the snapshot, and nothing exactly if there is none.
pub get-IsLatest :
    (blake3 : List ℕ → List ℕ) (m : MemTable) (id snapshot : DocumentId)
    → IsValid blake3 m
    → IsLatest m.entries id snapshot (get m id snapshot)
unfolding get
get-IsLatest blake3 m id snapshot v =
    IsLatest-IsGreatest m.entries id snapshot _ v.keyed
      (last-range (id, 0) (id, snapshot) m.entries v.sorted)

-- The latest version is unique.
pub IsLatest-unique :
    (m : BTreeMap Key IBlob) (id snapshot : DocumentId) (a b : Option IBlob)
    → IsLatest m id snapshot a
    → IsLatest m id snapshot b
    → a ≡ b
IsLatest-unique m id snapshot none none p q = refl
IsLatest-unique m id snapshot none (some b) p q = cc (p b.version q.1, q.2)
IsLatest-unique m id snapshot (some a) none p q = cc (q a.version p.1, p.2)
IsLatest-unique m id snapshot (some a) (some b) p q = ground (arith, p.3 b.version, q.3 a.version)

-- The newer of a version that was just written and the one that was found before.
abbrev pub newer : DocumentId → DocumentId → IBlob → Option IBlob → Option IBlob
newer id snapshot b none = if b.id == id && leb b.version snapshot then some b else none
newer id snapshot b (some old) =
    if b.id == id && (leb b.version snapshot && leb old.version b.version) then some b else some old

IsLatest-if :
    (m : BTreeMap Key IBlob) (id snapshot : ℕ) (test : Bool) (a b : Option IBlob)
    → (test ≡ true → IsLatest m id snapshot a)
    → (test ≡ false → IsLatest m id snapshot b)
    → IsLatest m id snapshot (if test then a else b)
IsLatest-if m id snapshot true a b p q = p refl
IsLatest-if m id snapshot false a b p q = q refl

-- `n` is `m` with the version `c` written.
module _ (m n : BTreeMap Key IBlob) (c : IBlob) (id snapshot : ℕ)
    (written : (u : ℕ)
      → Maps.get n (id, u)
        ≡ (if c.id == id && c.version == u then some c else Maps.get m (id, u))) where
  IsLatest-written :
      (old : Option IBlob)
      → IsLatest m id snapshot old
      → IsLatest n id snapshot (newer id snapshot c old)
  IsLatest-written none h =
      IsLatest-if n id snapshot (c.id == id && leb c.version snapshot) (some c) none
        (λ t. (
          ground arith,
          ground arith,
          ground (arith, written c.version),
          λ u lt le. ground (arith, written u, h u le),
        ))
        (λ t u le. ground (arith, written u, h u le))
  IsLatest-written (some old) h =
      IsLatest-if n id snapshot
        (c.id == id && (leb c.version snapshot && leb old.version c.version)) (some c) (some old)
        (λ t. (
          ground arith,
          ground arith,
          ground (arith, written c.version),
          λ u lt le. ground (arith, written u, h.3 u),
        ))
        (λ t. (
          h.0,
          h.1,
          ground (arith, written old.version, h.2),
          λ u lt le. ground (arith, written u, h.3 u lt le),
        ))

module _ (blake3 : List ℕ → List ℕ) where
  lookup-insert :
      (m : MemTable) (b : IBlob) (id v : ℕ)
      → IsValid blake3 m
      → Maps.get (insert blake3 m b).0.entries (id, v) ≡ (
          if (Codec.encode blake3 b).1.id == id && (Codec.encode blake3 b).1.version == v
          then some (Codec.encode blake3 b).1
          else Maps.get m.entries (id, v))
  unfolding insert
  lookup-insert m b id v w =
      get-insert (b.id, b.version) (id, v) (Codec.encode blake3 b).1 m.entries w.sorted
      ∙ unfold pair_ord in ground (arith, encode-key blake3 b)

  -- A read after a write to a valid table, for every id and every snapshot: the written version if it is of that id, no
  -- newer than the snapshot and no older than what was found before; else what was found before.
  pub get-insert_lem :
      (m : MemTable) (b : IBlob) (id snapshot : DocumentId)
      → IsValid blake3 m
      → get (insert blake3 m b).0 id snapshot
        ≡ newer id snapshot (Codec.encode blake3 b).1 (get m id snapshot)
  get-insert_lem m b id snapshot w =
      let c = (Codec.encode blake3 b).1 in
      IsLatest-unique (insert blake3 m b).0.entries id snapshot _ _
        (get-IsLatest blake3 (insert blake3 m b).0 id snapshot (insert-IsValid blake3 m b w).0)
        (IsLatest-written m.entries (insert blake3 m b).0.entries c id snapshot
          (λ u. lookup-insert m b id u w) (get m id snapshot) (get-IsLatest blake3 m id snapshot w))
