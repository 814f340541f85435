-- ===== src/Sstable/Lookup.antt =====
-- crates/ingodb-sstable/src/reader.rs: opening a table file, and its lookups and scans.
--
-- `slice` of a range that is out of bounds, where the source would panic, is what is left of the bytes.
pub mod Layout
pub mod Index
pub mod Footer
pub mod Written
use ingodb.Base.{
  ℕ, zero, suc, ◌+◌, ◌-◌, ◌&&◌, ◌==◌, Bool, true, false, not, Option, none, some, List, [], ◌∷◌,
  ◌++◌, length, take, drop, leb, ltb, replicate, if◌then◌else◌, cmp_bytes, Ordering, lt, eq, gt,
}
use ingodb.Bytes.{from_le_bytes, slice}
use ingodb.Blob.Id
use ingodb.Blob.Id.{DocumentId, as_bytes, from_bytes}
use ingodb.Blob.IBlob.{IBlob, same_key}
use ingodb.Sstable.Error.{
  Outcome, done, failed, ◌>>=◌, corrupted, invalid_magic, unsupported_version,
}
use ingodb.Sstable.Bloom
use ingodb.Sstable.Bloom.{BloomFilter}
use ingodb.Sstable.Writer.{BlockIndex, footer_size, sstable_magic, sstable_version}
use ingodb.Sstable.Reader.{Entry, SstableReader, read_block_index, open_block, read_block}

-- `a <= b` and `a < b` of byte slices.
abbrev pub le_bytes : List ℕ → List ℕ → Bool
le_bytes a b = elim (cmp_bytes a b) [ gt ↦ false | _ ↦ true ]

abbrev pub lt_bytes : List ℕ → List ℕ → Bool
lt_bytes a b = elim (cmp_bytes a b) [ lt ↦ true | _ ↦ false ]

-- `.last().unwrap().last_key`, behind the check that there is a block.
abbrev pub last_key_of : BlockIndex → List BlockIndex → List ℕ
last_key_of block [] = block.last_key
last_key_of block (next ∷ blocks) = last_key_of next blocks

abbrev pub key_id : List ℕ → DocumentId
key_id key = if leb 16 (length key) then from_bytes (take 16 key) else Id.nil

unfoldable pub min_id : SstableReader → DocumentId
min_id r = key_id r.min_key

unfoldable pub max_id : SstableReader → DocumentId
max_id r = key_id r.max_key

unfoldable pub file_size : SstableReader → ℕ
file_size r = length r.data_bytes

unfoldable pub block_count : SstableReader → ℕ
block_count r = length r.block_indices

-- `binary_search_by(|idx| idx.last_key.cmp(key))`: the blocks before the place found, the last of
-- them first, and those from there on. Of blocks that end at the key it is the first; a range scan
-- goes on from it by `found_among`.
unfoldable pub search_blocks :
    List ℕ → List BlockIndex → List BlockIndex → List BlockIndex × List BlockIndex
search_blocks key before [] = (before, [])
search_blocks key before (block ∷ blocks) = elim (lt_bytes block.last_key key) [
  | true ↦ search_blocks key (block ∷ before) blocks
  | false ↦ (before, block ∷ blocks)
]

-- `entries.binary_search_by(|(k, _)| k.cmp(key))`, with the document that is found.
unfoldable pub search_entries : List ℕ → List Entry → Option IBlob
search_entries key [] = none
search_entries key (kv ∷ kvs) = elim (cmp_bytes kv.0 key) [
  | lt ↦ search_entries key kvs
  | eq ↦ some kv.1
  | gt ↦ none
]

-- The backward loop over the entries of a block: the last one with the id of `max_key` that is not
-- above `max_key`.
unfoldable pub latest_in : List ℕ → List Entry → Option IBlob
latest_in max_key [] = none
latest_in max_key (kv ∷ kvs) =
    let here =
      leb 16 (length kv.0)
      && (same_key (take 16 kv.0) (take 16 max_key) && le_bytes kv.0 max_key) in
    elim (latest_in max_key kvs) [ some b ↦ some b | none ↦ if here then some kv.1 else none ]

module _ (blake3 : List ℕ → List ℕ) (decompress : List ℕ → Option (List ℕ))
    (crc32 : List ℕ → ℕ) where
  unfoldable pub extract_first_key : List ℕ → BlockIndex → Outcome (List ℕ)
  unfolding open_block
  extract_first_key bytes block = open_block blake3 decompress crc32 bytes block >>= (λ d.
      let key_len = from_le_bytes (slice d 4 2) in
      if ltb (length d) 6
      then failed corrupted
      else if ltb (length d) (6 + key_len)
      then failed corrupted
      else done (slice d 6 key_len))

  -- What `open` does once the block index is read.
  unfoldable pub open_blocks : List ℕ → BloomFilter → List BlockIndex → Outcome SstableReader
  unfolding extract_first_key
  open_blocks bytes bloom [] = failed corrupted
  open_blocks bytes bloom (block ∷ blocks) = extract_first_key bytes block >>= (λ min_key.
      done (record {
        data_bytes = bytes;
        block_indices = block ∷ blocks;
        bloom = bloom;
        min_key = min_key;
        max_key = last_key_of block blocks;
      }))

  unfoldable pub open_table : List ℕ → Outcome SstableReader
  unfolding Bloom.from_bytes read_block_index open_blocks
  open_table bytes =
      let footer_start = length bytes - footer_size in
      let footer = drop footer_start bytes in
      let index_offset = from_le_bytes (slice footer 0 8) in
      let index_count = from_le_bytes (slice footer 8 4) in
      let bloom_offset = from_le_bytes (slice footer 12 8) in
      let bloom_size = from_le_bytes (slice footer 20 4) in
      let version = from_le_bytes (slice footer 28 2) in
      let bloom_data = slice bytes bloom_offset bloom_size in
      let bloom =
        Bloom.from_bytes (drop 8 bloom_data) (from_le_bytes (slice bloom_data 0 4))
          (from_le_bytes (slice bloom_data 4 4)) in
      let rest =
        read_block_index bytes footer_start index_count index_offset >>= open_blocks bytes bloom in
      if ltb (length bytes) footer_size
      then failed corrupted
      else if not (same_key (slice footer 24 4) sstable_magic)
      then failed invalid_magic
      else if not (version == sstable_version)
      then failed (unsupported_version version)
      else if ltb (length bytes) (bloom_offset + bloom_size)
      then failed corrupted
      else rest

  -- The block that can hold the key, if the filter lets it pass.
  unfoldable pub get_in : List ℕ → List ℕ → List BlockIndex → Outcome (Option IBlob)
  unfolding read_block search_entries
  get_in bytes key [] = done none
  get_in bytes key (block ∷ blocks) =
      read_block blake3 decompress crc32 bytes block >>= (λ kvs. done (search_entries key kvs))

  unfoldable pub get : SstableReader → List ℕ → Outcome (Option IBlob)
  unfolding Bloom.may_contain search_blocks get_in
  get r key =
      if not (Bloom.may_contain blake3 r.bloom key)
      then done none
      else get_in r.data_bytes key (search_blocks key [] r.block_indices).1

  -- The second look, into the block before.
  unfoldable pub look_before :
      List ℕ → List ℕ → List BlockIndex → Option IBlob → Outcome (Option IBlob)
  unfolding read_block latest_in
  look_before bytes max_key before (some b) = done (some b)
  look_before bytes max_key [] none = done none
  look_before bytes max_key (block ∷ before) none =
      let found =
        read_block blake3 decompress crc32 bytes block >>= (λ kvs. done (latest_in max_key kvs)) in
      if leb 16 (length block.last_key) && le_bytes (take 16 max_key) (take 16 block.last_key)
      then found
      else done none

  -- The block at the place found, or the last one.
  unfoldable pub latest_from :
      List ℕ → List ℕ → List BlockIndex × List BlockIndex → Outcome (Option IBlob)
  unfolding look_before
  latest_from bytes max_key (before, block ∷ blocks) =
      read_block blake3 decompress crc32 bytes block
      >>= (λ kvs. look_before bytes max_key before (latest_in max_key kvs))
  latest_from bytes max_key (block ∷ before, []) =
      read_block blake3 decompress crc32 bytes block
      >>= (λ kvs. look_before bytes max_key before (latest_in max_key kvs))
  latest_from bytes max_key ([], []) = done none

  unfoldable pub get_latest_by_prefix : SstableReader → List ℕ → List ℕ → Outcome (Option IBlob)
  unfolding Bloom.may_contain search_blocks latest_from
  get_latest_by_prefix r prefix max_key =
      if not (Bloom.may_contain blake3 r.bloom prefix)
      then done none
      else latest_from r.data_bytes max_key (search_blocks max_key [] r.block_indices)

  unfoldable pub get_by_id_at : SstableReader → DocumentId → DocumentId → Outcome (Option IBlob)
  unfolding get_latest_by_prefix
  get_by_id_at r id snapshot =
      get_latest_by_prefix r (as_bytes id) (as_bytes id ++ as_bytes snapshot)

  unfoldable pub get_by_id : SstableReader → DocumentId → Outcome (Option IBlob)
  unfolding get get_latest_by_prefix
  get_by_id r id = get r (as_bytes id) >>= (λ direct. elim direct [
    | some b ↦ done (some b)
    | none ↦ get_latest_by_prefix r (as_bytes id) (as_bytes id ++ replicate 16 0xFF)
  ])

  unfoldable pub iter_blocks : List ℕ → List BlockIndex → Outcome (List Entry)
  unfolding read_block
  iter_blocks bytes [] = done []
  iter_blocks bytes (block ∷ blocks) =
      let rest = iter_blocks bytes blocks in
      read_block blake3 decompress crc32 bytes block
      >>= (λ kvs. rest >>= (λ more. done (kvs ++ more)))

  unfoldable pub iter : SstableReader → Outcome (List Entry)
  unfolding iter_blocks
  iter r = iter_blocks r.data_bytes r.block_indices
