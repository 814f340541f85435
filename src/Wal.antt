-- ===== src/Wal.antt =====
-- crates/ingodb-wal/src/lib.rs: the write-ahead log.
--
-- The log file is its bytes, and the file system does what it is asked: an `append` writes all of its
-- record. What a crash leaves is a prefix of the file. CRC-32 is another package, a parameter here.
pub mod Recovery
pub mod Append
use ingodb.Base.{
  ℕ, zero, suc, ◌+◌, ◌-◌, ◌*◌, ◌^◌, ◌<◌, ◌≡◌, ◌==◌, Bool, not, Option, none, some, List, [], ◌∷◌,
  ◌++◌, length, take, drop, ltb, if◌then◌else◌,
}
use ingodb.Bytes.{to_le_bytes, from_le_bytes, slice}
use ingodb.Blob.Error.{Result, ok, err, out_of_fuel}
use ingodb.Blob.IBlob.{IBlob}
use ingodb.Blob.IBlob.Codec

-- The file and the `size` that the struct counts.
pub record Wal : Type 0 where
  pub file : List ℕ
  pub size : ℕ

-- Opens for appending: the size is that of the file.
unfoldable pub open_wal : List ℕ → Wal
open_wal file = record { file = file; size = length file }

module _ (blake3 : List ℕ → List ℕ) (crc32 : List ℕ → ℕ) where
  -- The record of a document's bytes.
  unfoldable pub frame : List ℕ → List ℕ
  frame blob_bytes =
      to_le_bytes 4 (length blob_bytes) ++ (to_le_bytes 4 (crc32 blob_bytes) ++ blob_bytes)

  -- One round of the loop of `append_batch`, without the flush; the document comes back with its cache filled.
  unfoldable pub write_record : Wal → IBlob → Wal × IBlob
  unfolding frame
  write_record w b =
      let (blob_bytes, b') = Codec.encode blake3 b in
      (
        record { file = w.file ++ frame blob_bytes; size = w.size + (4 + 4 + length blob_bytes) },
        b',
      )

  -- Returns the offset of the record. The code writes the record a second time over, apart from the
  -- loop of `append_batch`.
  unfoldable pub append : Wal → IBlob → ℕ × Wal × IBlob
  append w b =
      let offset = w.size in
      let (blob_bytes, b') = Codec.encode blake3 b in
      let len_bytes = to_le_bytes 4 (length blob_bytes) in
      let crc_bytes = to_le_bytes 4 (crc32 blob_bytes) in
      (
        offset,
        record {
          file = w.file ++ (len_bytes ++ (crc_bytes ++ blob_bytes));
          size = w.size + (4 + 4 + length blob_bytes);
        },
        b',
      )

  unfoldable pub append_batch : Wal → List IBlob → Wal × List IBlob
  unfolding write_record
  append_batch w [] = (w, [])
  append_batch w (b ∷ blobs) =
      let (w1, b') = write_record w b in
      let (w2, blobs') = append_batch w1 blobs in (w2, b' ∷ blobs')

  -- `match IBlob::decode(..)`: the document is kept, and the loop goes on.
  abbrev pub keep : Result IBlob → List IBlob → List IBlob
  keep (ok b) rest = b ∷ rest
  keep (err e) rest = []
  keep out_of_fuel rest = []

  -- The loop of `recover`, from `offset`, on fuel: what it pushes from there on.
  unfoldable pub recover_from : ℕ → List ℕ → ℕ → List IBlob
  recover_from zero file offset = []
  recover_from (suc fuel) file offset =
      let len = from_le_bytes (slice file offset 4) in
      let stored_crc = from_le_bytes (slice file (offset + 4) 4) in
      let blob_bytes = slice file (offset + 8) len in
      let rest = recover_from fuel file (offset + (8 + len)) in
      if ltb (length file) (offset + 8)
      then []
      else if ltb (length file) (offset + 8 + len)
      then []
      else if not (crc32 blob_bytes == stored_crc)
      then []
      else keep (Codec.decode blake3 blob_bytes) rest

  -- A round consumes eight bytes or more, so the length of the file is fuel enough.
  unfoldable pub recover : List ℕ → List IBlob
  unfolding recover_from
  recover file = recover_from (suc (length file)) file 0
