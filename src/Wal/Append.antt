-- ===== src/Wal/Append.antt =====
-- What `append` and `append_batch` write, and that a reopened log gives it back.
use ingodb.Base.{
  ℕ, ◌+◌, ◌-◌, ◌^◌, ◌<◌, ◌≤◌, ◌≡◌, refl, sym, ap, ◌∙◌, List, [], ◌∷◌, ◌++◌, map, arith, All, length,
  length-append, take, append_assoc, append-nil, le→leb,
}
use ingodb.Blob.IBlob.{IBlob}
use ingodb.Blob.IBlob.Codec
use ingodb.Blob.IBlob.Codec.RoundTrip.{IsHash, IsStorable, IsCoherent, decode-encode_blob, decoded}
use ingodb.Wal.{Wal, open_wal, frame, write_record, append, append_batch, recover}
use ingodb.Wal.Recovery.{IsRecord, frames, whole, length-frame, recover-take}

-- The struct's `size` is that of the file.
pub record IsValid (w : Wal) : Type 0 where
  pub counted : w.size ≡ length w.file

module _ (blake3 : List ℕ → List ℕ) (crc32 : List ℕ → ℕ) where
  -- Each written document with its bytes.
  unfoldable pub record_of : IBlob → List ℕ × IBlob
  record_of b = ((Codec.encode blake3 b).0, decoded blake3 b)

  append_batch-file :
      (w : Wal) (bs : List IBlob)
      → ((append_batch blake3 crc32 w bs).0.file ≡ w.file ++ frames blake3 crc32 (map record_of bs))
        × ((append_batch blake3 crc32 w bs).0.size
            ≡ w.size + length (frames blake3 crc32 (map record_of bs)))
  unfolding append_batch frames record_of
  append_batch-file w [] = (sym (append-nil w.file), omega arith)
  append_batch-file w (b ∷ bs) =
      let (w1, b') = write_record blake3 crc32 w b in
      let (f, s) = append_batch-file w1 bs in
      let fr = frame blake3 crc32 (Codec.encode blake3 b).0 in
      (
        f ∙ append_assoc w.file fr (frames blake3 crc32 (map record_of bs)),
        omega (
          arith,
          s,
          length-append fr (frames blake3 crc32 (map record_of bs)),
          length-frame blake3 crc32 (Codec.encode blake3 b).0,
        ),
      )

  -- A document that the log can hold: the format can, and its record's length fits 32 bits.
  pub record IsLoggable (b : IBlob) : Type 0 where
    pub storable : IsStorable b
    pub coherent : IsCoherent blake3 b
    pub short : length (Codec.encode blake3 b).0 < 256 ^ 4

  -- Where the count of bytes is right, `append` returns the length of the file before it and keeps the
  -- count right. It writes what a batch of that one document writes.
  pub append_lem :
      (w : Wal) (b : IBlob)
      → IsValid w
      → ((append blake3 crc32 w b).0 ≡ length w.file)
        × IsValid (append blake3 crc32 w b).1
        × ((append blake3 crc32 w b).1 ≡ (append_batch blake3 crc32 w (b ∷ [])).0)
  unfolding append append_batch write_record frame
  append_lem w b v = (
    v.counted,
    record {
      counted = omega (
        arith,
        v.counted,
        length-append w.file (frame blake3 crc32 (Codec.encode blake3 b).0),
        length-frame blake3 crc32 (Codec.encode blake3 b).0,
      );
    },
    refl,
  )

  -- A batch keeps the count of bytes right.
  pub append_batch-IsValid :
      (w : Wal) (bs : List IBlob) → IsValid w → IsValid (append_batch blake3 crc32 w bs).0
  append_batch-IsValid w bs v =
      let (f, s) = append_batch-file w bs in
      record {
        counted = rw f (
            omega
              (arith, s, v.counted, length-append w.file (frames blake3 crc32 (map record_of bs))));
      }

  module _ (h : IsHash blake3) (crc-lt : (xs : List ℕ) → crc32 xs < 256 ^ 4) where
    records-IsRecord :
        (bs : List IBlob) → All IsLoggable bs → All (IsRecord blake3 crc32) (map record_of bs)
    unfolding record_of
    records-IsRecord [] w = tt
    records-IsRecord (b ∷ bs) w = (
      record {
        short = w.0.short;
        decodes = decode-encode_blob blake3 h b w.0.storable w.0.coherent;
      },
      records-IsRecord bs w.1,
    )

    -- A log that a batch wrote to an empty file, cut off after any number of bytes by a crash: recovery
    -- returns the documents whose records lie whole in what is left, with their ids, versions, flags
    -- and fields, in the order of the batch. The hash has 32 bytes and the checksum 32 bits, and the
    -- documents are such that the log can hold them, their hashes and caches missing or right.
    pub recover-append_batch_cut :
        (n : ℕ) (bs : List IBlob)
        → All IsLoggable bs
        → recover blake3 crc32 (take n (append_batch blake3 crc32 (open_wal []) bs).0.file)
          ≡ map (λ r. r.1) (whole blake3 crc32 n (map record_of bs))
    unfolding open_wal
    recover-append_batch_cut n bs w =
        rw (append_batch-file (open_wal []) bs).0
          (recover-take blake3 crc32 crc-lt n (map record_of bs) (records-IsRecord bs w))

    whole_all :
        (n : ℕ) (bs : List IBlob)
        → length (frames blake3 crc32 (map record_of bs)) ≤ n
        → map (λ r. r.1) (whole blake3 crc32 n (map record_of bs)) ≡ map (decoded blake3) bs
    unfolding whole frames record_of
    whole_all n [] le = refl
    whole_all n (b ∷ bs) le =
        let bytes = (Codec.encode blake3 b).0 in
        let k = length-append (frame blake3 crc32 bytes) (frames blake3 crc32 (map record_of bs)) in
        let f = length-frame blake3 crc32 bytes in
        rw (le→leb (8 + length bytes) n (omega (arith, k, f))) (
          ap (λ t. decoded blake3 b ∷ t)
            (whole_all (n - (8 + length bytes)) bs (omega (arith, k, f))))

    take_all : (xs : List ℕ) → take (length xs) xs ≡ xs
    take_all [] = refl
    take_all (x ∷ xs) = ap (λ t. x ∷ t) (take_all xs)

    -- The case in which nothing is cut off.
    pub recover-append_batch :
        (bs : List IBlob)
        → All IsLoggable bs
        → recover blake3 crc32 (append_batch blake3 crc32 (open_wal []) bs).0.file
          ≡ map (decoded blake3) bs
    unfolding open_wal
    recover-append_batch bs w =
        let log = frames blake3 crc32 (map record_of bs) in
        rw ((append_batch-file (open_wal []) bs).0, ← take_all log)
          (recover-take blake3 crc32 crc-lt (length log) (map record_of bs) (records-IsRecord bs w)
            ∙ whole_all (length log) bs (omega arith))
