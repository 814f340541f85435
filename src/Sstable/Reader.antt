-- ===== src/Sstable/Reader.antt =====
-- crates/ingodb-sstable/src/reader.rs: reading a table file.
--
-- `binary_search_by` is the standard library's: in a sorted slice it finds an element that compares as
-- equal, or the place where one belongs. Where several compare as equal, it may be any of them: `Range`
-- leaves the choice open, and the lookups by id search keys that differ, as they have the version in
-- them. LZ4 and CRC-32 are other packages and parameters: `decompress` returns `none` on an error.
pub mod Blocks
use ingodb.Base.{
  ℕ, zero, suc, ◌+◌, ◌-◌, ◌&&◌, ◌==◌, Bool, true, false, not, Option, none, some, List, [], ◌∷◌,
  ◌++◌, length, take, drop, get_elem?, leb, ltb, replicate, if◌then◌else◌, cmp_bytes, Ordering, lt,
  eq, gt,
}
use ingodb.Bytes.{from_le_bytes, slice}
use ingodb.Blob.Id
use ingodb.Blob.Id.{DocumentId, as_bytes, from_bytes}
use ingodb.Blob.IBlob.{IBlob, same_key}
use ingodb.Blob.IBlob.Codec
use ingodb.Sstable.Error.{
  Outcome, done, failed, stuck, ◌>>=◌, from_blob, corrupted, invalid_magic, unsupported_version,
  crc_mismatch,
}
use ingodb.Sstable.Bloom
use ingodb.Sstable.Bloom.{BloomFilter}
use ingodb.Sstable.Writer.{BlockIndex, footer_size, sstable_magic, sstable_version}

abbrev pub Entry : Type 0
Entry = List ℕ × IBlob

pub record SstableReader : Type 0 where
  pub data_bytes : List ℕ
  pub block_indices : List BlockIndex
  pub bloom : BloomFilter
  pub min_key : List ℕ
  pub max_key : List ℕ

-- The loop over the block index, from `pos`.
unfoldable pub read_block_index : List ℕ → ℕ → ℕ → ℕ → Outcome (List BlockIndex)
read_block_index bytes footer_start zero pos = done []
read_block_index bytes footer_start (suc n) pos =
    let key_len = from_le_bytes (slice bytes pos 2) in
    let entry : BlockIndex = record {
      last_key = slice bytes (pos + 2) key_len;
      offset = from_le_bytes (slice bytes (pos + 2 + key_len) 8);
      size = from_le_bytes (slice bytes (pos + 2 + key_len + 8) 4);
    } in
    let rest =
      read_block_index bytes footer_start n (pos + 2 + key_len + 12)
      >>= (λ es. done (entry ∷ es)) in
    if ltb footer_start (pos + 2)
    then failed corrupted
    else if ltb footer_start (pos + 2 + key_len + 12)
    then failed corrupted
    else rest

module _ (blake3 : List ℕ → List ℕ) where
  -- The loop over the entries of a decompressed block, from `pos`.
  unfoldable pub read_entries : List ℕ → ℕ → ℕ → Outcome (List Entry)
  read_entries bytes zero pos = done []
  read_entries bytes (suc n) pos =
      let key_len = from_le_bytes (slice bytes pos 2) in
      let key = slice bytes (pos + 2) key_len in
      let blob_len = from_le_bytes (slice bytes (pos + 2 + key_len) 4) in
      let blob_at = pos + 2 + key_len + 4 in
      let rest = read_entries bytes n (blob_at + blob_len) in
      let here =
        from_blob (Codec.decode blake3 (slice bytes blob_at blob_len))
        >>= (λ blob. rest >>= (λ es. done ((key, blob) ∷ es))) in
      if ltb (length bytes) (pos + 2)
      then failed corrupted
      else if ltb (length bytes) (pos + 2 + key_len)
      then failed corrupted
      else if ltb (length bytes) blob_at
      then failed corrupted
      else if ltb (length bytes) (blob_at + blob_len)
      then failed corrupted
      else here

  module _ (decompress : List ℕ → Option (List ℕ)) (crc32 : List ℕ → ℕ) where
    -- What `read_block` and `extract_first_key` do first: the block's bytes, checked and decompressed. A
    -- block of fewer than four bytes has no checksum, and the code panics at the slice.
    unfoldable pub open_block : List ℕ → BlockIndex → Outcome (List ℕ)
    open_block bytes block =
        let block_data = slice bytes block.offset block.size in
        let compressed = drop 4 block_data in
        let decompressed : Outcome (List ℕ) = elim (decompress compressed) [
          | none ↦ failed corrupted
          | some d ↦ done d
        ] in
        if ltb (length bytes) (block.offset + block.size)
        then failed corrupted
        else if ltb block.size 4
        then stuck
        else if not (from_le_bytes (take 4 block_data) == crc32 compressed)
        then failed (crc_mismatch block.offset)
        else decompressed

    -- The slice of the count panics where the bytes are fewer than four.
    unfoldable pub read_block : List ℕ → BlockIndex → Outcome (List Entry)
    unfolding open_block read_entries
    read_block bytes block = open_block bytes block >>= (λ d.
        let entries = read_entries d (from_le_bytes (slice d 0 4)) 4 in
        if ltb (length d) 4 then stuck else entries)
