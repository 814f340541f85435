-- ===== src/Sstable/Reader/Blocks.antt =====
-- crates/ingodb-sstable: a block that was written is read back.
use ingodb.Base.{
  ℕ, ◌+◌, ◌^◌, ◌<◌, ◌≤◌, ◌≡◌, refl, Option, some, List, [], ◌∷◌, ◌++◌, map, arith, All, length,
  length-append, ap, append-nil, append_assoc, take, drop, le→ltb_false, ==_refl, take-append,
  drop-append,
}
use ingodb.Bytes.{to_le_bytes, from_le_bytes, slice}
use ingodb.Bytes.Laws.{
  length-to_le_bytes, from-to_le_bytes, At, At-append, At-length, At-slice, At-le_bytes, At-intro,
}
use ingodb.Blob.IBlob.Codec
use ingodb.Blob.IBlob.Codec.RoundTrip.{IsHash, IsStorable, IsCoherent, decode-encode_blob, decoded}
use ingodb.Sstable.Error.{done}
use ingodb.Sstable.Writer.{BlockIndex, reserved, encode_block_entry, block_bytes}
use ingodb.Sstable.Reader.{Entry, read_entries, open_block, read_block}

module _ (blake3 : List ℕ → List ℕ) where
  -- A document with its key that a block can hold: 16 bits for the key's length, 32 for the document's.
  pub record IsEntry (kv : Entry) : Type 0 where
    pub key : length kv.0 < 256 ^ 2
    pub short : length (Codec.encode blake3 kv.1).0 < 256 ^ 4
    pub storable : IsStorable kv.1
    pub coherent : IsCoherent blake3 kv.1

  unfoldable pub entries_bytes : List Entry → List ℕ
  entries_bytes [] = []
  entries_bytes (kv ∷ kvs) =
      encode_block_entry kv.0 (Codec.encode blake3 kv.1).0 ++ entries_bytes kvs

  -- What a reader gets of an entry.
  abbrev pub read_back : Entry → Entry
  read_back kv = (kv.0, decoded blake3 kv.1)

  -- Where the parts of an entry stand.
  record Parts (buf : List ℕ) (pos : ℕ) (key blob_bytes rest : List ℕ) : Type 0 where
    key_len : from_le_bytes (slice buf pos 2) ≡ length key
    key_at : slice buf (pos + 2) (length key) ≡ key
    blob_len : from_le_bytes (slice buf (pos + 2 + length key) 4) ≡ length blob_bytes
    blob_at : slice buf (pos + 2 + length key + 4) (length blob_bytes) ≡ blob_bytes
    rest_at : At buf (pos + 2 + length key + 4 + length blob_bytes) rest
    inside : pos + 2 + length key + 4 + length blob_bytes ≤ length buf

  parts :
      (buf : List ℕ) (pos : ℕ) (key blob_bytes rest : List ℕ)
      → length key < 256 ^ 2
      → length blob_bytes < 256 ^ 4
      → At buf pos (encode_block_entry key blob_bytes ++ rest)
      → Parts buf pos key blob_bytes rest
  unfolding encode_block_entry
  parts buf pos key blob_bytes rest k s at =
      let two = to_le_bytes 2 (length key) in
      let four = to_le_bytes 4 (length blob_bytes) in
      let l2 = length-to_le_bytes 2 (length key) in
      let l4 = length-to_le_bytes 4 (length blob_bytes) in
      let flat : At buf pos (two ++ (key ++ (four ++ (blob_bytes ++ rest)))) =
        rw
          (
            append_assoc two (key ++ (four ++ blob_bytes)) rest,
            append_assoc key (four ++ blob_bytes) rest,
            append_assoc four blob_bytes rest,
          )
          at at in
      let (a, b) = At-append buf pos two (key ++ (four ++ (blob_bytes ++ rest))) flat in
      let b' : At buf (pos + 2) (key ++ (four ++ (blob_bytes ++ rest))) = rw l2 at b in
      let (c, d) = At-append buf (pos + 2) key (four ++ (blob_bytes ++ rest)) b' in
      let (e, f) = At-append buf (pos + 2 + length key) four (blob_bytes ++ rest) d in
      let f' : At buf (pos + 2 + length key + 4) (blob_bytes ++ rest) = rw l4 at f in
      let (g, h) = At-append buf (pos + 2 + length key + 4) blob_bytes rest f' in
      record {
        key_len = At-le_bytes buf pos 2 (length key) k a;
        key_at = At-slice buf (pos + 2) key c;
        blob_len = At-le_bytes buf (pos + 2 + length key) 4 (length blob_bytes) s e;
        blob_at = At-slice buf (pos + 2 + length key + 4) blob_bytes g;
        rest_at = h;
        inside = At-length buf (pos + 2 + length key + 4) blob_bytes g;
      }

  module _ (h : IsHash blake3) where
    read_entries-At :
        (buf : List ℕ) (pos : ℕ) (kvs : List Entry)
        → All IsEntry kvs
        → At buf pos (entries_bytes kvs)
        → read_entries blake3 buf (length kvs) pos ≡ done (map read_back kvs)
    unfolding read_entries entries_bytes
    read_entries-At buf pos [] w at = refl
    read_entries-At buf pos (kv ∷ kvs) w at =
        let bytes = (Codec.encode blake3 kv.1).0 in
        let p = parts buf pos kv.0 bytes (entries_bytes kvs) w.0.key w.0.short at in
        rw
          (
            p.key_len,
            p.blob_len,
            le→ltb_false (length buf) (pos + 2) (omega (arith, p.inside)),
            le→ltb_false (length buf) (pos + 2 + length kv.0) (omega (arith, p.inside)),
            le→ltb_false (length buf) (pos + 2 + length kv.0 + 4) (omega (arith, p.inside)),
            le→ltb_false (length buf) (pos + 2 + length kv.0 + 4 + length bytes) p.inside,
            p.blob_at,
            decode-encode_blob blake3 h kv.1 w.0.storable w.0.coherent,
            read_entries-At buf (pos + 2 + length kv.0 + 4 + length bytes) kvs w.1 p.rest_at,
            p.key_at,
          )
          refl

    module _ (compress : List ℕ → List ℕ) (decompress : List ℕ → Option (List ℕ))
        (crc32 : List ℕ → ℕ) (inverse : (xs : List ℕ) → decompress (compress xs) ≡ some xs)
        (crc-lt : (xs : List ℕ) → crc32 xs < 256 ^ 4) where
      -- The bytes of a block with the entries `kvs`.
      abbrev pub block_of : List Entry → List ℕ
      block_of kvs = block_bytes compress crc32 (reserved ++ entries_bytes kvs) (length kvs)

      counted : (kvs : List Entry) → List ℕ
      counted kvs = to_le_bytes 4 (length kvs) ++ entries_bytes kvs

      block_of-counted :
          (kvs : List Entry)
          → block_of kvs ≡ to_le_bytes 4 (crc32 (compress (counted kvs))) ++ compress (counted kvs)
      unfolding block_bytes counted to_le_bytes
      block_of-counted kvs = refl

      -- A block is no longer than the codec makes of the bytes that it holds.
      pub block_of-lt :
          (kvs : List Entry) (limit : ℕ)
          → ((xs : List ℕ) → length xs ≤ limit → 4 + length (compress xs) < 2 ^ 32)
          → length (reserved ++ entries_bytes kvs) ≤ limit
          → length (block_of kvs) < 2 ^ 32
      unfolding counted to_le_bytes
      block_of-lt kvs limit fits le =
          let packed = compress (counted kvs) in
          let sum = to_le_bytes 4 (crc32 packed) in
          omega (arith, fits (counted kvs) le, ap length (block_of-counted kvs))

      open_block-At :
          (buf : List ℕ) (block : BlockIndex) (kvs : List Entry)
          → At buf block.offset (block_of kvs)
          → block.size ≡ length (block_of kvs)
          → open_block blake3 decompress crc32 buf block ≡ done (counted kvs)
      unfolding open_block
      open_block-At buf block kvs at n =
          let whole = block_of kvs in
          let packed = compress (counted kvs) in
          let sum = to_le_bytes 4 (crc32 packed) in
          let parts_of : whole ≡ sum ++ packed = block_of-counted kvs in
          let four : length sum ≡ 4 = length-to_le_bytes 4 (crc32 packed) in
          let data_at : slice buf block.offset block.size ≡ whole =
            rw n (At-slice buf block.offset whole at) in
          let sum_at : take 4 (sum ++ packed) ≡ sum = rw four at (take-append sum packed) in
          let packed_at : drop 4 (sum ++ packed) ≡ packed = rw four at (drop-append sum packed) in
          let inside : block.offset + block.size ≤ length buf =
            omega (arith, At-length buf block.offset whole at) in
          let large : 4 ≤ block.size =
            omega (arith, n, ap length parts_of, length-append sum packed, four) in
          rw
            (
              le→ltb_false (length buf) (block.offset + block.size) inside,
              le→ltb_false block.size 4 large,
              data_at,
              parts_of,
              sum_at,
              packed_at,
              from-to_le_bytes 4 (crc32 packed) (crc-lt packed),
              ==_refl (crc32 packed),
              inverse (counted kvs),
            )
            refl

      -- The block of some entries, wherever it stands in a file, is read back as these entries, with
      -- the documents as decoding gives them.
      pub read_block-block_of :
          (buf : List ℕ) (block : BlockIndex) (kvs : List Entry)
          → All IsEntry kvs
          → length kvs < 256 ^ 4
          → At buf block.offset (block_of kvs)
          → block.size ≡ length (block_of kvs)
          → read_block blake3 decompress crc32 buf block ≡ done (map read_back kvs)
      unfolding read_block counted
      read_block-block_of buf block kvs w small at n =
          let bytes = to_le_bytes 4 (length kvs) ++ entries_bytes kvs in
          let four = length-to_le_bytes 4 (length kvs) in
          let here : At (bytes ++ []) 0 bytes = At-intro [] bytes [] in
          let whole : At bytes 0 bytes = rw append-nil at here in
          let (a, b) = At-append bytes 0 (to_le_bytes 4 (length kvs)) (entries_bytes kvs) whole in
          let b' : At bytes 4 (entries_bytes kvs) = rw four at b in
          rw
            (
              open_block-At buf block kvs at n,
              le→ltb_false (length bytes) 4 (
                  omega
                    (arith, four, length-append (to_le_bytes 4 (length kvs)) (entries_bytes kvs))),
              At-le_bytes bytes 0 4 (length kvs) small a,
              read_entries-At bytes 4 kvs w b',
            )
            refl
