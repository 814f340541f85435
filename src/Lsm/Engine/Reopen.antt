-- ===== src/Lsm/Engine/Reopen.antt =====
-- crates/ingodb-lsm/src/lib.rs, `LsmEngine::open`: what a restart finds in the log, and what a second
-- restart finds.
use ingodb.Base.{
  ℕ, ◌^◌, ◌<◌, ◌≡◌, ◌==◌, ◌&&◌, refl, ap, Bool, true, false, Option, none, some, List, [], ◌∷◌, map,
  arith, All, leb, if◌then◌else◌,
}
use ingodb.Blob.Id.{DocumentId}
use ingodb.Blob.IBlob.{IBlob}
use ingodb.Blob.IBlob.Codec
use ingodb.Blob.IBlob.Codec.RoundTrip.{IsHash, decoded}
use ingodb.Wal
use ingodb.Wal.Append.{IsLoggable, recover-append_batch}
use ingodb.Memtable
use ingodb.Memtable.{MemTable}
use ingodb.Memtable.Size.{IsValid, new-IsValid, insert-IsValid}
use ingodb.Memtable.Lookup.{newer, get-insert_lem}
use ingodb.Lsm.Engine.{insert_all, open_log, put_stamped, reopened}

-- Two documents that differ at most in what is cached: the hash, the bytes, and the count of hashes.
abbrev pub IsSame : IBlob → IBlob → Type 0
IsSame a b = (a.id ≡ b.id) × (a.version ≡ b.version) × (a.flags ≡ b.flags) × (a.fields ≡ b.fields)

abbrev pub IsSameRead : Option IBlob → Option IBlob → Type 0
IsSameRead none none = Unit
IsSameRead (some a) (some b) = IsSame a b
IsSameRead _ _ = ⊥

abbrev AreSame : List IBlob → List IBlob → Type 0
AreSame [] [] = Unit
AreSame (a ∷ as') (b ∷ bs) = IsSame a b × AreSame as' bs
AreSame _ _ = ⊥

IsSameRead-refl : (o : Option IBlob) → IsSameRead o o
IsSameRead-refl none = tt
IsSameRead-refl (some b) = (refl, refl, refl, refl)

IsSameRead-if :
    (t u : Bool) (o p q r : Option IBlob)
    → t ≡ u
    → IsSameRead o p
    → IsSameRead q r
    → IsSameRead (if t then o else q) (if u then p else r)
IsSameRead-if true true o p q r e s h = s
IsSameRead-if false false o p q r e s h = h
IsSameRead-if true false o p q r e s h = cc
IsSameRead-if false true o p q r e s h = cc

newer-IsSameRead :
    (id snapshot : ℕ) (a b : IBlob) (o p : Option IBlob)
    → IsSame a b
    → IsSameRead o p
    → IsSameRead (newer id snapshot a o) (newer id snapshot b p)
newer-IsSameRead id snapshot a b none none s h =
    IsSameRead-if (a.id == id && leb a.version snapshot) (b.id == id && leb b.version snapshot)
      (some a) (some b) none none (rw (s.0, s.1) refl) s tt
newer-IsSameRead id snapshot a b (some c) (some d) s h =
    IsSameRead-if (a.id == id && (leb a.version snapshot && leb c.version a.version))
      (b.id == id && (leb b.version snapshot && leb d.version b.version)) (some a) (some b) (some c)
      (some d) (rw (s.0, s.1, h.1) refl) s h
newer-IsSameRead id snapshot a b none (some d) s h = absurd h
newer-IsSameRead id snapshot a b (some c) none s h = absurd h

module _ (blake3 : List ℕ → List ℕ) where
  encode-IsSame :
      (a b : IBlob) → IsSame a b → IsSame (Codec.encode blake3 a).1 (Codec.encode blake3 b).1
  unfolding Codec.encode Codec.ensure_hash Codec.compute_hash
  encode-IsSame a b s = ground (arith, s)

  insert_all-IsSameRead :
      (as' bs : List IBlob) (m n : MemTable)
      → AreSame as' bs
      → IsValid blake3 m
      → IsValid blake3 n
      → ((id snapshot : DocumentId)
          → IsSameRead (Memtable.get m id snapshot) (Memtable.get n id snapshot))
      → (id snapshot : DocumentId)
      → IsSameRead
          (Memtable.get (insert_all blake3 as' m) id snapshot)
          (Memtable.get (insert_all blake3 bs n) id snapshot)
  unfolding insert_all
  insert_all-IsSameRead [] [] m n s v w h id snapshot = h id snapshot
  insert_all-IsSameRead [] (b ∷ bs) m n s v w h id snapshot = absurd s
  insert_all-IsSameRead (a ∷ as') [] m n s v w h id snapshot = absurd s
  insert_all-IsSameRead (a ∷ as') (b ∷ bs) m n s v w h id snapshot =
      insert_all-IsSameRead as' bs (Memtable.insert blake3 m a).0 (Memtable.insert blake3 n b).0 s.1
        (insert-IsValid blake3 m a v).0 (insert-IsValid blake3 n b w).0
        (λ i q.
          rw (get-insert_lem blake3 m a i q v, get-insert_lem blake3 n b i q w)
            (newer-IsSameRead i q (Codec.encode blake3 a).1 (Codec.encode blake3 b).1
              (Memtable.get m i q) (Memtable.get n i q) (encode-IsSame a b s.0) (h i q)))
        id snapshot

  decoded-IsSame :
      (crc32 : List ℕ → ℕ) (w : Wal.Wal) (bs : List IBlob)
      → AreSame (map (decoded blake3) bs) (Wal.append_batch blake3 crc32 w bs).1
  unfolding Wal.append_batch Wal.write_record decoded Codec.encode Codec.ensure_hash
      Codec.compute_hash
  decoded-IsSame crc32 w [] = tt
  decoded-IsSame crc32 w (b ∷ bs) =
      (ground arith, decoded-IsSame crc32 (Wal.write_record blake3 crc32 w b).0 bs)

  module _ (h : IsHash blake3) (crc32 : List ℕ → ℕ)
      (crc-lt : (xs : List ℕ) → crc32 xs < 256 ^ 4) where
    -- A batch that was put into an empty engine, and a restart that finds the whole log: every read of
    -- the new memtable gives what the lost one gave, but for the hash and the bytes that are cached. The
    -- hash has 32 bytes and the checksum 32 bits, and the log can hold the documents.
    pub open_log-put_stamped :
        (size : ℕ) (bs : List IBlob) (id snapshot : DocumentId)
        → All (IsLoggable blake3 crc32) bs
        → IsSameRead
            (Memtable.get
              (open_log blake3 crc32 size
                (put_stamped blake3 crc32 bs (Wal.open_wal [], Memtable.new size)).0.file).1
              id
              snapshot)
            (Memtable.get
              (put_stamped blake3 crc32 bs (Wal.open_wal [], Memtable.new size)).1
              id
              snapshot)
    unfolding open_log put_stamped
    open_log-put_stamped size bs id snapshot w =
        rw (recover-append_batch blake3 crc32 h crc-lt bs w) (
          insert_all-IsSameRead (map (decoded blake3) bs)
            (Wal.append_batch blake3 crc32 (Wal.open_wal []) bs).1 (Memtable.new size)
            (Memtable.new size) (decoded-IsSame crc32 (Wal.open_wal []) bs)
            (new-IsValid blake3 size) (new-IsValid blake3 size)
            (λ i q. IsSameRead-refl (Memtable.get (Memtable.new size) i q)) id snapshot)

  recover-nothing : (crc32 : List ℕ → ℕ) → Wal.recover blake3 crc32 [] ≡ []
  unfolding Wal.recover Wal.recover_from
  recover-nothing crc32 = refl

  insert_all-reopened :
      (crc32 : List ℕ → ℕ) (size : ℕ) (file : List ℕ) (recovered : List IBlob)
      → Wal.recover blake3 crc32 file ≡ recovered
      → insert_all blake3
          (Wal.recover blake3 crc32 (reopened blake3 crc32 recovered file).file)
          (Memtable.new size)
        ≡ Memtable.new size
  unfolding insert_all Wal.open_wal
  insert_all-reopened crc32 size file [] e = ap (λ bs. insert_all blake3 bs (Memtable.new size)) e
  insert_all-reopened crc32 size file (b ∷ bs) e =
      ap (λ cs. insert_all blake3 cs (Memtable.new size)) (recover-nothing crc32)

  -- A restart after a restart, with no write between them, finds nothing, whatever the log was: the
  -- first restart removes the log, and holds what it recovered in the memtable only.
  pub open_log-twice :
      (crc32 : List ℕ → ℕ) (size : ℕ) (file : List ℕ)
      → (open_log blake3 crc32 size (open_log blake3 crc32 size file).0.file).1 ≡ Memtable.new size
  unfolding open_log insert_all Wal.open_wal
  open_log-twice crc32 size file =
      insert_all-reopened crc32 size file (Wal.recover blake3 crc32 file) refl
