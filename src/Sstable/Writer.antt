-- ===== src/Sstable/Writer.antt =====
-- crates/ingodb-sstable/src/writer.rs: writing a table file.
--
-- A file is its bytes, the field `file`. LZ4 and CRC-32 are other packages and parameters, and so is
-- the key extractor, a trait object. The caches that `encode` fills in the caller's documents are no
-- part of the result.
use ingodb.Base.{
  ℕ, ◌+◌, ◌%◌, ◌^◌, ◌&&◌, List, [], ◌∷◌, ◌++◌, length, take, drop, ltb, if◌then◌else◌, cmp_bytes,
  Ordering,
}
use ingodb.Base.Sort.{sort_by}
use ingodb.Bytes.{to_le_bytes}
use ingodb.Blob.IBlob.{IBlob}
use ingodb.Blob.IBlob.Codec
use ingodb.Sstable.Error.{Outcome, done, failed, empty}
use ingodb.Sstable.Bloom
use ingodb.Sstable.Bloom.{BloomFilter}

abbrev pub sstable_magic : List ℕ
sstable_magic = b'I' ∷ b'S' ∷ b'S' ∷ b'T' ∷ []

abbrev pub sstable_version : ℕ
sstable_version = 2

abbrev pub default_block_size : ℕ
default_block_size = 4096

abbrev pub footer_size : ℕ
footer_size = 30

-- An entry of the block index: the last key, the offset and the size of a block.
pub record BlockIndex : Type 0 where
  pub last_key : List ℕ
  pub offset : ℕ
  pub size : ℕ

-- The local variables of `write`.
pub record Building : Type 0 where
  pub file : List ℕ
  pub block_index_entries : List BlockIndex
  pub bloom : BloomFilter
  pub current_block : List ℕ
  pub block_entry_count : ℕ
  pub file_offset : ℕ
  pub last_key_in_block : List ℕ

-- The space for the count of entries at the start of a block.
abbrev pub reserved : List ℕ
reserved = to_le_bytes 4 0

unfoldable pub encode_block_entry : List ℕ → List ℕ → List ℕ
encode_block_entry key blob_bytes =
    to_le_bytes 2 (length key) ++ (key ++ (to_le_bytes 4 (length blob_bytes) ++ blob_bytes))

unfoldable pub encode_index_entry : BlockIndex → List ℕ
encode_index_entry e =
    to_le_bytes 2 (length e.last_key)
    ++ (e.last_key ++ (to_le_bytes 8 e.offset ++ to_le_bytes 4 e.size))

unfoldable pub encode_block_index : List BlockIndex → List ℕ
unfolding encode_index_entry
encode_block_index [] = []
encode_block_index (e ∷ es) = encode_index_entry e ++ encode_block_index es

abbrev pub by_key : List ℕ × IBlob → List ℕ × IBlob → Ordering
by_key a b = cmp_bytes a.0 b.0

-- Where the last block ends: `.last().map(|(_, o, s)| o + s).unwrap_or(0)`
abbrev pub blocks_end : List BlockIndex → ℕ
blocks_end [] = 0
blocks_end (e ∷ []) = e.offset + e.size
blocks_end (e ∷ f ∷ es) = blocks_end (f ∷ es)

module _ (compress : List ℕ → List ℕ) (crc32 : List ℕ → ℕ) where
  -- The bytes of a block: the count is patched into the reserved space.
  unfoldable pub block_bytes : List ℕ → ℕ → List ℕ
  block_bytes block_data entry_count =
      let compressed = compress (to_le_bytes 4 entry_count ++ drop 4 block_data) in
      to_le_bytes 4 (crc32 compressed) ++ compressed

  -- `(4 + compressed.len()) as u32`
  abbrev pub cut_size : List ℕ → ℕ
  cut_size block = length block % 2 ^ 32

  -- `flush_block`, with the entry that its two calls push to the block index.
  unfoldable pub flush_block : Building → Building
  unfolding block_bytes
  flush_block b =
      let block = block_bytes b.current_block b.block_entry_count in
      record b {
        file = b.file ++ block;
        block_index_entries =
            b.block_index_entries
            ++ record {
              last_key = b.last_key_in_block;
              offset = b.file_offset;
              size = cut_size block;
            }
              ∷ [];
      }

  -- The reset after a flush within the loop.
  unfoldable pub next_block : Building → Building
  unfolding flush_block
  next_block b =
      let size = cut_size (block_bytes b.current_block b.block_entry_count) in
      record (flush_block b) {
        file_offset = b.file_offset + size;
        current_block = reserved;
        block_entry_count = 0;
      }

  module _ (blake3 : List ℕ → List ℕ) (block_size : ℕ) where
    -- The filter gets the key, and the id that a longer key starts with.
    unfoldable pub insert_key : List ℕ → BloomFilter → BloomFilter
    unfolding Bloom.insert
    insert_key key bloom =
        let with_key = Bloom.insert blake3 key bloom in
        if ltb 16 (length key) then Bloom.insert blake3 (take 16 key) with_key else with_key

    unfoldable pub push_entry : List ℕ → List ℕ → Building → Building
    unfolding encode_block_entry
    push_entry key blob_bytes b = record b {
      current_block = b.current_block ++ encode_block_entry key blob_bytes;
      last_key_in_block = key;
      block_entry_count = b.block_entry_count + 1;
    }

    -- One round of the loop over the sorted documents.
    unfoldable pub add_entry : Building → List ℕ × IBlob → Building
    unfolding insert_key push_entry next_block
    add_entry b kv =
        let blob_bytes = (Codec.encode blake3 kv.1).0 in
        let entry_size = 2 + length kv.0 + 4 + length blob_bytes in
        let keyed = record b { bloom = insert_key kv.0 b.bloom } in
        let is_full =
          ltb 0 b.block_entry_count && ltb block_size (length b.current_block + entry_size) in
        push_entry kv.0 blob_bytes (if is_full then next_block keyed else keyed)

    unfoldable pub add_entries : Building → List (List ℕ × IBlob) → Building
    unfolding add_entry
    add_entries b [] = b
    add_entries b (kv ∷ keyed) = add_entries (add_entry b kv) keyed

    unfoldable pub start : ℕ → Building
    start count = record {
      file = [];
      block_index_entries = [];
      bloom = Bloom.new count;
      current_block = reserved;
      block_entry_count = 0;
      file_offset = 0;
      last_key_in_block = [];
    }

    -- The filter, the block index and the footer.
    unfoldable pub finish : Building → List ℕ
    unfolding encode_block_index
    finish b =
        let bloom_offset = blocks_end b.block_index_entries in
        let bloom_size = length b.bloom.bits + 4 + 4 in
        let index_offset = bloom_offset + bloom_size in
        b.file
        ++ (to_le_bytes 4 b.bloom.num_bits
            ++ (to_le_bytes 4 b.bloom.num_hashes
                ++ (b.bloom.bits
                    ++ (encode_block_index b.block_index_entries
                        ++ (to_le_bytes 8 index_offset
                            ++ (to_le_bytes 4 (length b.block_index_entries)
                                ++ (to_le_bytes 8 bloom_offset
                                    ++ (to_le_bytes 4 bloom_size
                                        ++ (sstable_magic ++ to_le_bytes 2 sstable_version)))))))))

    unfoldable pub with_keys : (IBlob → List ℕ) → List IBlob → List (List ℕ × IBlob)
    with_keys extract_key [] = []
    with_keys extract_key (blob ∷ blobs) = (extract_key blob, blob) ∷ with_keys extract_key blobs

    unfoldable pub write : List IBlob → (IBlob → List ℕ) → Outcome (List ℕ)
    unfolding add_entries start flush_block finish with_keys
    write [] extract_key = failed empty
    write (blob ∷ blobs) extract_key =
        let keyed = sort_by by_key (with_keys extract_key (blob ∷ blobs)) in
        done (finish (flush_block (add_entries (start (length (blob ∷ blobs))) keyed)))
