-- ===== src/Memtable/Size.antt =====
-- The counter of a memtable is the size of what it holds.
use ingodb.Base.{
  ℕ, ◌+◌, ◌≤◌, ◌≡◌, refl, ap, Option, none, some, List, [], ◌∷◌, arith, All, length, pair_ord,
}
use ingodb.Base.Maps
use ingodb.Base.Maps.{BTreeMap, IsSorted, insert-IsSorted, All-insert, get-Above}
use ingodb.Blob.IBlob.{IBlob}
use ingodb.Blob.IBlob.Codec
use ingodb.Memtable.{Key, MemTable, new, drain, insert, should_flush, encoded_size, resized}

module _ (blake3 : List ℕ → List ℕ) where
  -- A document that was encoded keeps its bytes.
  pub encode-encode :
      (b : IBlob) → (Codec.encode blake3 (Codec.encode blake3 b).1).0 ≡ (Codec.encode blake3 b).0
  unfolding Codec.encode
  encode-encode b = ground arith

  -- Encoding fills the cache and the hash only.
  pub encode-key :
      (b : IBlob)
      → ((Codec.encode blake3 b).1.id ≡ b.id) × ((Codec.encode blake3 b).1.version ≡ b.version)
  unfolding Codec.encode
  encode-key b = ground arith

  unfoldable pub total : BTreeMap Key IBlob → ℕ
  total [] = 0
  total ((k, b) ∷ m) = encoded_size blake3 b + total m

  pub record IsValid (m : MemTable) : Type 0 where
    pub sorted : IsSorted m.entries
    pub keyed : All (λ kv. kv.0 ≡ (kv.1.id, kv.1.version)) m.entries
    pub counted : m.size_bytes ≡ total m.entries

  abbrev size_of : Option IBlob → ℕ
  size_of none = 0
  size_of (some b) = encoded_size blake3 b

  total-insert :
      (k : Key) (b : IBlob) (m : BTreeMap Key IBlob)
      → IsSorted m
      → total (Maps.insert k b m) + size_of (Maps.get m k) ≡ total m + encoded_size blake3 b
  unfolding total Maps.insert Maps.get
  total-insert k b [] s = omega arith
  total-insert k b ((j, c) ∷ m) s = ground (arith, total-insert k b m s.1)

  size_of-le : (k : Key) (m : BTreeMap Key IBlob) → size_of (Maps.get m k) ≤ total m
  unfolding total Maps.get
  size_of-le k [] = omega arith
  size_of-le k ((j, c) ∷ m) = ground (arith, size_of-le k m)

  resized_lem :
      (old : Option IBlob) (size added n : ℕ)
      → size_of old ≤ size
      → n + size_of old ≡ size + added
      → resized blake3 old size added ≡ n
  resized_lem none size added n h e = omega arith
  resized_lem (some b) size added n h e = omega arith

  -- An insertion into a valid table keeps the entries in order and under their own keys, and the counter exact, also
  -- where it replaces a version; it asks for a flush exactly if the new table should be flushed.
  pub insert-IsValid :
      (m : MemTable) (b : IBlob)
      → IsValid m
      → IsValid (insert blake3 m b).0 × ((insert blake3 m b).1 ≡ should_flush (insert blake3 m b).0)
  unfolding insert should_flush
  insert-IsValid m b v =
      let k : Key = (b.id, b.version) in
      let b' = (Codec.encode blake3 b).1 in
      let same = encode-key b in
      let size = ap length (encode-encode b) in
      (
        record {
          sorted = insert-IsSorted k b' m.entries v.sorted;
          keyed =
              All-insert (λ kv. kv.0 ≡ (kv.1.id, kv.1.version)) k b' m.entries
                (rw (same.0, same.1) refl) v.keyed;
          counted =
              resized_lem (Maps.get m.entries k) m.size_bytes (length (Codec.encode blake3 b).0)
                (total (Maps.insert k b' m.entries))
                (omega (arith, v.counted, size_of-le k m.entries))
                (omega (arith, v.counted, size, total-insert k b' m.entries v.sorted));
        },
        refl,
      )

  pub new-IsValid : (max_size : ℕ) → IsValid (new max_size)
  unfolding new total
  new-IsValid max_size = record { sorted = tt; keyed = tt; counted = refl }

  pub drain-IsValid : (m : MemTable) → IsValid (drain m).1
  unfolding drain total
  drain-IsValid m = record { sorted = tt; keyed = tt; counted = refl }
