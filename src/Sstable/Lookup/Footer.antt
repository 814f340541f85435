-- ===== src/Sstable/Lookup/Footer.antt =====
-- crates/ingodb-sstable: the footer, the filter and the block index that the writer puts behind the
-- blocks are what `open` reads.
use ingodb.Base.{
  ℕ, ◌+◌, ◌-◌, ◌^◌, ◌<◌, ◌≡◌, refl, sym, ap, ◌∙◌, true, Option, List, [], ◌++◌, arith, All, length,
  length-append, append-nil, append_assoc, drop, drop-append, le→ltb_false, subst,
}
use ingodb.Bytes.{to_le_bytes, from_le_bytes, slice}
use ingodb.Bytes.Laws.{At, At-append, At-slice, At-intro, from-to_le_bytes}
use ingodb.Blob.IBlob.{same_key}
use ingodb.Sstable.Bloom
use ingodb.Sstable.Writer.{
  Building, encode_block_index, blocks_end, finish, sstable_magic, sstable_version, footer_size,
}
use ingodb.Sstable.Lookup.{open_blocks, open_table}
use ingodb.Sstable.Lookup.Index.{IsIndexEntry, read_block_index-At}

-- What the builder of a table ends with: blocks, and fields of the footer that fit their widths.
pub record IsFinished (b : Building) : Type 0 where
  pub ends : blocks_end b.block_index_entries ≡ length b.file
  pub entries : All IsIndexEntry b.block_index_entries
  pub count : length b.block_index_entries < 256 ^ 4
  pub num_bits : b.bloom.num_bits < 256 ^ 4
  pub num_hashes : b.bloom.num_hashes < 256 ^ 4
  pub bits : length b.bloom.bits + 4 + 4 < 256 ^ 4
  pub file : length b.file + (length b.bloom.bits + 4 + 4) < 256 ^ 8

-- The part behind a first part of a known length.
behind :
    (buf : List ℕ) (pos n : ℕ) (xs ys : List ℕ)
    → length xs ≡ n
    → At buf pos (xs ++ ys)
    → At buf pos xs × At buf (pos + n) ys
behind buf pos n xs ys e at =
    let (a, b) = At-append buf pos xs ys at in (a, subst (λ l. At buf (pos + l) ys) e b)

abbrev bloom_bytes : Bloom.BloomFilter → List ℕ
bloom_bytes f = to_le_bytes 4 f.num_bits ++ (to_le_bytes 4 f.num_hashes ++ f.bits)

length-bloom_bytes : (f : Bloom.BloomFilter) → length (bloom_bytes f) ≡ length f.bits + 4 + 4
unfolding to_le_bytes
length-bloom_bytes f = omega arith

-- The filter that is made of the bytes of a filter.
bloom_bytes-read :
    (f : Bloom.BloomFilter)
    → f.num_bits < 256 ^ 4
    → f.num_hashes < 256 ^ 4
    → Bloom.from_bytes
        (drop 8 (bloom_bytes f))
        (from_le_bytes (slice (bloom_bytes f) 0 4))
        (from_le_bytes (slice (bloom_bytes f) 4 4))
      ≡ f
unfolding Bloom.from_bytes to_le_bytes
bloom_bytes-read f h k =
    rw (from-to_le_bytes 4 f.num_bits h, from-to_le_bytes 4 f.num_hashes k) refl

module _ (compress : List ℕ → List ℕ) (decompress : List ℕ → Option (List ℕ)) (crc32 : List ℕ → ℕ)
    (blake3 : List ℕ → List ℕ) (block_size : ℕ) (b : Building) (v : IsFinished b) where
  abbrev pub written : List ℕ
  written = finish compress crc32 blake3 block_size b

  bloom_size : ℕ
  bloom_size = length b.bloom.bits + 4 + 4

  footer : List ℕ
  footer =
      to_le_bytes 8 (length b.file + bloom_size)
      ++ (to_le_bytes 4 (length b.block_index_entries)
          ++ (to_le_bytes 8 (length b.file)
              ++ (to_le_bytes 4 bloom_size ++ (sstable_magic ++ to_le_bytes 2 sstable_version))))

  length-footer : length footer ≡ 30
  unfolding footer bloom_size to_le_bytes
  length-footer = omega arith

  behind_blocks : List ℕ
  behind_blocks = bloom_bytes b.bloom ++ (encode_block_index b.block_index_entries ++ footer)

  finish-parts : written ≡ b.file ++ behind_blocks
  unfolding finish behind_blocks footer bloom_size to_le_bytes
  finish-parts = rw v.ends refl

  -- Where the parts behind the blocks stand in a buffer.
  record Parts (buf : List ℕ) : Type 0 where
    bloom_at : At buf (length b.file) (bloom_bytes b.bloom)
    index_at : At buf (length b.file + bloom_size) (encode_block_index b.block_index_entries)
    footer_at :
        At buf
          (length b.file + bloom_size + length (encode_block_index b.block_index_entries))
          footer
    ends_at :
        length buf
        ≡ length b.file + bloom_size + length (encode_block_index b.block_index_entries) + 30

  written-Parts : Parts written
  unfolding behind_blocks bloom_size
  written-Parts =
      let bits = b.bloom.bits in
      let index = encode_block_index b.block_index_entries in
      let at : At (b.file ++ behind_blocks ++ []) (length b.file) behind_blocks =
        At-intro b.file behind_blocks [] in
      let at' : At written (length b.file) behind_blocks =
        subst (λ xs. At xs (length b.file) behind_blocks)
          (append_assoc b.file behind_blocks []
            ∙ ap (λ xs. b.file ++ xs) (append-nil behind_blocks)
            ∙ sym finish-parts)
          at in
      let (bs, r3) =
        behind written (length b.file) (length bits + 4 + 4) (bloom_bytes b.bloom) (index ++ footer)
          (length-bloom_bytes b.bloom) at' in
      let (ix, r4) =
        behind written (length b.file + bloom_size) (length index) index footer refl r3 in
      record {
        bloom_at = bs;
        index_at = ix;
        footer_at = r4;
        ends_at = omega (
          arith,
          ap length finish-parts,
          length-append b.file behind_blocks,
          length-append (bloom_bytes b.bloom) (index ++ footer),
          length-bloom_bytes b.bloom,
          length-append index footer,
          length-footer,
        );
      }

  before_footer : List ℕ
  before_footer = b.file ++ (bloom_bytes b.bloom ++ encode_block_index b.block_index_entries)

  written-footer : written ≡ before_footer ++ footer
  unfolding before_footer behind_blocks
  written-footer =
      finish-parts
      ∙ ap (λ t. b.file ++ t)
          (sym
            (append_assoc (bloom_bytes b.bloom) (encode_block_index b.block_index_entries) footer))
      ∙ sym (
          append_assoc b.file (bloom_bytes b.bloom ++ encode_block_index b.block_index_entries)
            footer)

  footer_start : length written - footer_size ≡ length before_footer
  footer_start =
      omega (arith, ap length written-footer, length-append before_footer footer, length-footer)

  footer_bytes : drop (length written - footer_size) written ≡ footer
  footer_bytes =
      ap (λ n. drop n written) footer_start
      ∙ ap (λ t. drop (length before_footer) t) written-footer
      ∙ drop-append before_footer footer

  footer-read :
      (from_le_bytes (slice footer 0 8) ≡ length b.file + bloom_size)
      × (from_le_bytes (slice footer 8 4) ≡ length b.block_index_entries)
      × (from_le_bytes (slice footer 12 8) ≡ length b.file)
      × (from_le_bytes (slice footer 20 4) ≡ bloom_size)
      × (same_key (slice footer 24 4) sstable_magic ≡ true)
      × (from_le_bytes (slice footer 28 2) ≡ sstable_version)
  unfolding footer bloom_size to_le_bytes from_le_bytes
  footer-read = (
    from-to_le_bytes 8 (length b.file + (length b.bloom.bits + 4 + 4)) v.file,
    from-to_le_bytes 4 (length b.block_index_entries) v.count,
    from-to_le_bytes 8 (length b.file) (omega (arith, v.file)),
    from-to_le_bytes 4 (length b.bloom.bits + 4 + 4) v.bits,
    refl,
    refl,
  )

  -- `open` of the file that the writer finishes reads the filter and the block index that the writer
  -- had, and goes on to the first block with them. This holds for blocks that end where the index
  -- says, keys of less than 64 KiB, and fields that fit their widths.
  pub open_table-written :
      open_table blake3 decompress crc32 written
      ≡ open_blocks blake3 decompress crc32 written b.bloom b.block_index_entries
  unfolding open_table bloom_size
  open_table-written =
      let p = written-Parts in
      let f = footer-read in
      let bloom_data : slice written (length b.file) (length b.bloom.bits + 4 + 4)
          ≡ bloom_bytes b.bloom =
        rw (length-bloom_bytes b.bloom) at
          (At-slice written (length b.file) (bloom_bytes b.bloom) p.bloom_at) in
      let index =
        read_block_index-At written (length before_footer)
          (length b.file + (length b.bloom.bits + 4 + 4)) b.block_index_entries v.entries p.index_at
          (omega (arith, p.ends_at, footer_start)) in
      rw
        (
          footer_bytes,
          footer_start,
          f.0,
          f.1,
          f.2,
          f.3,
          f.4,
          f.5,
          le→ltb_false (length written) footer_size (omega (arith, p.ends_at)),
          le→ltb_false (length written) (length b.file + (length b.bloom.bits + 4 + 4))
              (omega (arith, p.ends_at)),
          bloom_data,
          bloom_bytes-read b.bloom v.num_bits v.num_hashes,
          index,
        )
        refl
