-- ===== src/Tests/Table.antt =====
-- A table of two documents in two blocks.
use ingodb.Base.{
  ℕ, ◌+◌, ◌^◌, ◌<◌, ◌≤◌, ◌≡◌, refl, arith, Option, some, List, [], ◌∷◌, ◌++◌, map, length, All,
}
use ingodb.Blob.IBlob.Codec
use ingodb.Sstable.Error.{done}
use ingodb.Sstable.Writer.{Building, finish, flush_block, add_entries, start}
use ingodb.Sstable.Reader.{Entry}
use ingodb.Sstable.Reader.Blocks.{IsEntry, read_back}
use ingodb.Sstable.Keys.{mvcc_key}
use ingodb.Sstable.Bloom
use ingodb.Sstable.Lookup.{iter_blocks, open_table, open_blocks}
use ingodb.Sstable.Lookup.Footer.{IsFinished, open_table-written}
use ingodb.Sstable.Lookup.Written.{iter_blocks-add_entries}
use ingodb.Tests.{
  hash, hash-IsHash, checksum, checksum-lt, document, document-IsStorable, document-IsCoherent,
}

-- A codec that adds a byte in front.
abbrev pub pack : List ℕ → List ℕ
pack xs = 1 ∷ xs

abbrev pub unpack : List ℕ → Option (List ℕ)
unpack [] = Option.none
unpack (x ∷ xs) = some xs

pub unpack-pack : (xs : List ℕ) → unpack (pack xs) ≡ some xs
unpack-pack xs = refl

abbrev pub entries : List Entry
entries = (mvcc_key (document 9), document 9) ∷ (mvcc_key (document 12), document 12) ∷ []

mvcc_key-IsEntry :
    (version : ℕ)
    → version < 256 ^ 16
    → IsEntry hash (mvcc_key (document version), document version)
unfolding mvcc_key ingodb.Blob.Id.as_bytes ingodb.Bytes.to_be_bytes Codec.encode
    ingodb.Bytes.to_le_bytes ingodb.Base.Sort.sort_by ingodb.Base.Sort.place
    ingodb.Blob.Value.encode
mvcc_key-IsEntry version small = record {
  key = omega arith;
  short = omega arith;
  storable = document-IsStorable version small;
  coherent = document-IsCoherent version;
}

pub entries-IsEntry : All (IsEntry hash) entries
entries-IsEntry = (mvcc_key-IsEntry 9 (omega arith), (mvcc_key-IsEntry 12 (omega arith), tt))

entries_small :
    All (λ kv. 4 + (2 + length kv.0 + 4 + length (Codec.encode hash kv.1).0) ≤ 1000) entries
unfolding mvcc_key ingodb.Blob.Id.as_bytes ingodb.Bytes.to_be_bytes Codec.encode
    ingodb.Bytes.to_le_bytes ingodb.Base.Sort.sort_by ingodb.Base.Sort.place
    ingodb.Blob.Value.encode
entries_small = (omega arith, (omega arith, tt))

iter_blocks-add_entries_example :
    iter_blocks hash unpack checksum
      ((flush_block pack checksum
          (add_entries pack checksum hash 100 (start pack checksum hash 100 2) entries)).file
        ++ 7 ∷ [])
      (flush_block pack checksum (
        add_entries pack checksum hash 100
          (start pack checksum hash 100 2)
          entries)).block_index_entries
    ≡ done (map (read_back hash) entries)
iter_blocks-add_entries_example =
    iter_blocks-add_entries hash hash-IsHash pack unpack checksum unpack-pack checksum-lt 1000
      (omega arith) (λ xs le. omega (arith, le)) 100 (omega arith) 2 entries (7 ∷ [])
      entries-IsEntry entries_small (omega arith)

-- A builder with one block of five bytes.
abbrev built : Building
built = record {
  file = 1 ∷ 2 ∷ 3 ∷ 4 ∷ 5 ∷ [];
  block_index_entries = record { last_key = 7 ∷ []; offset = 0; size = 5 } ∷ [];
  bloom = Bloom.new 1;
  current_block = [];
  block_entry_count = 1;
  file_offset = 0;
  last_key_in_block = 7 ∷ [];
}

built-IsFinished : IsFinished built
unfolding Bloom.new
built-IsFinished = record {
  ends = refl;
  entries = (record { key = omega arith; offset = omega arith; size = omega arith }, tt);
  count = omega arith;
  num_bits = omega arith;
  num_hashes = omega arith;
  bits = omega arith;
  file = omega arith;
}

open_table-written_example :
    open_table hash unpack checksum (finish pack checksum hash 100 built)
    ≡ open_blocks hash unpack checksum
        (finish pack checksum hash 100 built)
        (Bloom.new 1)
        built.block_index_entries
open_table-written_example = open_table-written pack unpack checksum hash 100 built built-IsFinished
