-- ===== src/Lsm/Engine/Reads.antt =====
-- crates/ingodb-lsm/src/lib.rs, `LsmEngine`: a rotation is invisible to readers, and a read sees the
-- write before it.
use ingodb.Base.{
  ℕ, ◌+◌, ◌<◌, ◌≤◌, ◌≡◌, ◌≢◌, ◌==◌, ◌&&◌, refl, sym, ap, ◌∙◌, Bool, true, false, Option, none, some,
  Option-cases, inl, inr, List, [], ◌∷◌, ◌++◌, arith, leb, if◌then◌else◌, pair_ord,
}
use ingodb.Blob.Id.{DocumentId}
use ingodb.Blob.IBlob.{IBlob}
use ingodb.Blob.IBlob.Codec
use ingodb.Memtable
use ingodb.Memtable.{MemTable}
use ingodb.Memtable.Size.{IsValid, encode-key}
use ingodb.Memtable.Lookup.{newer, get-insert_lem}
use ingodb.Sstable.Error.{Outcome, done}
use ingodb.Lsm.Merge.Purge.{live}
use ingodb.Lsm.Engine.{
  Layers, search_memtables, swap_memtable, write_memtable, insert_all, first_of, or_else,
  search_sstables, get_at,
}

or_else-none : (o : Option IBlob) → o ≡ or_else o none
or_else-none none = refl
or_else-none (some b) = refl

or_else_assoc : (o p q : Option IBlob) → or_else (or_else o p) q ≡ or_else o (or_else p q)
or_else_assoc none p q = refl
or_else_assoc (some b) p q = refl

first_of-or_else :
    (o p : Option IBlob) (t : Outcome (Option IBlob))
    → first_of none (or_else o p) t ≡ first_of o p t
first_of-or_else none p t = refl
first_of-or_else (some b) p t = refl

-- The newer of a written version and the one before, as the first layer of a read.
first_of-newer :
    (c : IBlob) (id snapshot : ℕ) (old immutables : Option IBlob) (t : Outcome (Option IBlob))
    → ((o : IBlob) → c.id ≡ id → old ≡ some o → o.version ≤ c.version)
    → first_of (newer id snapshot c old) immutables t ≡ (
        if c.id == id && leb c.version snapshot
        then done (live (some c))
        else first_of old immutables t)
first_of-newer c id snapshot none none t h = ground arith
first_of-newer c id snapshot none (some b) t h = ground arith
first_of-newer c id snapshot (some o) immutables t h = ground (arith, h o)

search_memtables-snoc :
    (mts : List MemTable) (mt : MemTable) (id snapshot : DocumentId)
    → search_memtables (mts ++ mt ∷ []) id snapshot
      ≡ or_else (Memtable.get mt id snapshot) (search_memtables mts id snapshot)
unfolding search_memtables
search_memtables-snoc [] mt id snapshot = or_else-none (Memtable.get mt id snapshot)
search_memtables-snoc (m ∷ mts) mt id snapshot =
    ap (λ o. or_else o (Memtable.get m id snapshot)) (search_memtables-snoc mts mt id snapshot)
    ∙ or_else_assoc (Memtable.get mt id snapshot) (search_memtables mts id snapshot)
        (Memtable.get m id snapshot)

get-new :
    (size : ℕ) (id snapshot : DocumentId) → Memtable.get (Memtable.new size) id snapshot ≡ none
unfolding Memtable.get Memtable.new ingodb.Base.Maps.Range.last ingodb.Base.Maps.Range.range
get-new size id snapshot = refl

module _ (blake3 : List ℕ → List ℕ) (decompress : List ℕ → Option (List ℕ))
    (crc32 : List ℕ → ℕ) where
  -- A memtable that is swapped for an empty one and queued is read in its place.
  pub get_at-swap_memtable :
      (size : ℕ) (e : Layers) (id snapshot : DocumentId)
      → get_at blake3 decompress crc32 (swap_memtable size e) id snapshot
        ≡ get_at blake3 decompress crc32 e id snapshot
  unfolding get_at swap_memtable
  get_at-swap_memtable size e id snapshot =
      let tables = search_sstables blake3 decompress crc32 e.sstables id snapshot in
      let queued = search_memtables (e.immutable_memtables ++ e.memtable ∷ []) id snapshot in
      ap (λ o. first_of o queued tables) (get-new size id snapshot)
      ∙ ap (λ o. first_of none o tables)
          (search_memtables-snoc e.immutable_memtables e.memtable id snapshot)
      ∙ first_of-or_else (Memtable.get e.memtable id snapshot)
          (search_memtables e.immutable_memtables id snapshot) tables

  -- A write of one document into a valid memtable, with a version no older than what the
  -- memtable holds for the id: a read at a snapshot that includes the version finds the document, or
  -- nothing if it is a tombstone; a read of another id, or before the version, is what it was.
  pub get_at-write_memtable :
      (e : Layers) (b : IBlob) (id snapshot : DocumentId)
      → IsValid blake3 e.memtable
      → ((old : IBlob) → Memtable.get e.memtable b.id snapshot ≡ some old → old.version ≤ b.version)
      → get_at blake3 decompress crc32 (write_memtable blake3 (b ∷ []) e).0 id snapshot ≡ (
          if b.id == id && leb b.version snapshot
          then done (live (some (Codec.encode blake3 b).1))
          else get_at blake3 decompress crc32 e id snapshot)
  unfolding get_at write_memtable insert_all
  get_at-write_memtable e b id snapshot v newest =
      let c = (Codec.encode blake3 b).1 in
      let same = encode-key blake3 b in
      let queued = search_memtables e.immutable_memtables id snapshot in
      let tables = search_sstables blake3 decompress crc32 e.sstables id snapshot in
      ap (λ o. first_of o queued tables) (get-insert_lem blake3 e.memtable b id snapshot v)
      ∙ first_of-newer c id snapshot (Memtable.get e.memtable id snapshot) queued tables
          (λ o here found. omega (
            arith,
            newest o (ap (λ i. Memtable.get e.memtable i snapshot) (sym same.0 ∙ here) ∙ found),
            same.1,
          ))
      ∙ rw (same.0, same.1) refl
