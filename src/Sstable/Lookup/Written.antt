-- ===== src/Sstable/Lookup/Written.antt =====
-- crates/ingodb-sstable: the blocks that the writer lays out are what the reader iterates over.
use ingodb.Base.{
  ℕ, ◌+◌, ◌^◌, ◌<◌, ◌≡◌, refl, sym, ap, ◌∙◌, Bool-cases, inl, inr, Option, some, List, [], ◌∷◌,
  ◌++◌, map, arith, All, All-left, All-right, length, length-append, append-nil, append_assoc, ltb,
  ◌&&◌, ◌≤◌, false, subst,
}
use ingodb.Bytes.{to_le_bytes}
use ingodb.Bytes.Laws.{length-to_le_bytes, At, At-append, At-intro}
use ingodb.Blob.IBlob.Codec
use ingodb.Blob.IBlob.Codec.RoundTrip.{IsHash}
use ingodb.Sstable.Error.{done}
use ingodb.Sstable.Writer.{
  BlockIndex, Building, reserved, encode_block_entry, block_bytes, flush_block, next_block,
  push_entry, add_entry, add_entries, start, insert_key,
}
use ingodb.Sstable.Reader.{Entry}
use ingodb.Sstable.Reader.Blocks.{
  IsEntry, entries_bytes, read_back, block_of, block_of-lt, read_block-block_of,
}
use ingodb.Sstable.Lookup.{iter_blocks}
use ingodb.Sstable.Lookup.Layout.{
  flat, map-append, flat-snoc, blocks_bytes, AreBlocks, blocks_bytes-snoc, AreBlocks-snoc,
}

module _ (blake3 : List ℕ → List ℕ) (h : IsHash blake3) (compress : List ℕ → List ℕ)
    (decompress : List ℕ → Option (List ℕ)) (crc32 : List ℕ → ℕ)
    (inverse : (xs : List ℕ) → decompress (compress xs) ≡ some xs)
    (crc-lt : (xs : List ℕ) → crc32 xs < 256 ^ 4) (limit : ℕ) (room : 4 ≤ limit)
    (fits : (xs : List ℕ) → length xs ≤ limit → 4 + length (compress xs) < 2 ^ 32) where
  abbrev block : List Entry → List ℕ
  block = block_of blake3 h compress decompress crc32 inverse crc-lt

  iter_blocks-At :
      (buf : List ℕ) (pos : ℕ) (es : List BlockIndex) (gs : List (List Entry))
      → AreBlocks block pos es gs
      → All (IsEntry blake3) (flat gs)
      → length (flat gs) < 256 ^ 4
      → At buf pos (blocks_bytes block gs)
      → iter_blocks blake3 decompress crc32 buf es ≡ done (map (read_back blake3) (flat gs))
  unfolding iter_blocks blocks_bytes
  iter_blocks-At buf pos [] [] b w small at = refl
  iter_blocks-At buf pos [] (g ∷ gs) b w small at = absurd b
  iter_blocks-At buf pos (e ∷ es) [] b w small at = absurd b
  iter_blocks-At buf pos (e ∷ es) (g ∷ gs) b w small at =
      let n = length-append g (flat gs) in
      let (here, later) = At-append buf pos (block g) (blocks_bytes block gs) at in
      let here' : At buf e.offset (block g) = rw b.0 here in
      rw
        (
          read_block-block_of blake3 h compress decompress crc32 inverse crc-lt buf e g
              (All-left (IsEntry blake3) g (flat gs) w) (omega arith) here' b.1,
          iter_blocks-At buf (pos + length (block g)) es gs b.2
              (All-right (IsEntry blake3) g (flat gs) w) (omega arith) later,
          map-append (read_back blake3) g (flat gs),
        )
        refl

  -- The closed blocks and the current one, at some point of the loop.
  record IsBuilt (b : Building) (closed : List (List Entry)) (current : List Entry) : Type 0 where
    file : b.file ≡ blocks_bytes block closed
    blocks : AreBlocks block 0 b.block_index_entries closed
    offset : b.file_offset ≡ length b.file
    current_block : b.current_block ≡ reserved ++ entries_bytes blake3 current
    count : b.block_entry_count ≡ length current
    small : length b.current_block ≤ limit

  entries_bytes-snoc :
      (kvs : List Entry) (kv : Entry)
      → entries_bytes blake3 (kvs ++ kv ∷ [])
        ≡ entries_bytes blake3 kvs ++ encode_block_entry kv.0 (Codec.encode blake3 kv.1).0
  unfolding entries_bytes
  entries_bytes-snoc [] kv = append-nil (encode_block_entry kv.0 (Codec.encode blake3 kv.1).0)
  entries_bytes-snoc (k ∷ kvs) kv =
      ap (λ t. encode_block_entry k.0 (Codec.encode blake3 k.1).0 ++ t) (entries_bytes-snoc kvs kv)
      ∙ sym (
          append_assoc (encode_block_entry k.0 (Codec.encode blake3 k.1).0)
            (entries_bytes blake3 kvs) _)

  -- The current block is closed.
  record IsFlushed (b : Building) (closed : List (List Entry)) : Type 0 where
    file : b.file ≡ blocks_bytes block closed
    blocks : AreBlocks block 0 b.block_index_entries closed

  closed_bytes :
      (b : Building) (closed : List (List Entry)) (current : List Entry)
      → IsBuilt b closed current
      → block_bytes compress crc32 b.current_block b.block_entry_count ≡ block current
  closed_bytes b closed current v = rw (v.current_block, v.count) refl

  closed-lt :
      (b : Building) (closed : List (List Entry)) (current : List Entry)
      → IsBuilt b closed current
      → length (block_bytes compress crc32 b.current_block b.block_entry_count) < 2 ^ 32
  closed-lt b closed current v = rw (closed_bytes b closed current v) (
      block_of-lt blake3 h compress decompress crc32 inverse crc-lt current limit fits
        (omega (arith, v.small, ap length v.current_block)))

  flush_block-IsFlushed :
      (b : Building) (closed : List (List Entry)) (current : List Entry)
      → IsBuilt b closed current
      → IsFlushed (flush_block compress crc32 b) (closed ++ current ∷ [])
  unfolding flush_block
  flush_block-IsFlushed b closed current v =
      let bytes = closed_bytes b closed current v in
      record {
        file = rw (bytes, v.file) (sym (blocks_bytes-snoc block closed current));
        blocks =
            AreBlocks-snoc block 0 b.block_index_entries closed _ current v.blocks
              (omega (arith, v.offset, ap length v.file))
              (omega (arith, ap length bytes, closed-lt b closed current v));
      }

  next_block-IsBuilt :
      (b : Building) (closed : List (List Entry)) (current : List Entry)
      → IsBuilt b closed current
      → IsBuilt (next_block compress crc32 b) (closed ++ current ∷ []) []
  unfolding next_block entries_bytes flush_block
  next_block-IsBuilt b closed current v =
      let f = flush_block-IsFlushed b closed current v in
      record {
        file = f.file;
        blocks = f.blocks;
        offset = omega (
          arith,
          v.offset,
          closed-lt b closed current v,
          length-append b.file (block_bytes compress crc32 b.current_block b.block_entry_count),
        );
        current_block = sym (append-nil reserved);
        count = refl;
        small = omega (arith, room, length-to_le_bytes 4 0);
      }

  -- What an entry takes of a block.
  abbrev pub entry_size : Entry → ℕ
  entry_size kv = 2 + length kv.0 + 4 + length (Codec.encode blake3 kv.1).0

  length-encode_block_entry :
      (key bytes : List ℕ)
      → length (encode_block_entry key bytes) ≡ 2 + length key + 4 + length bytes
  unfolding encode_block_entry
  length-encode_block_entry key bytes =
      let sizes = to_le_bytes 4 (length bytes) in
      omega (
        arith,
        length-to_le_bytes 2 (length key),
        length-to_le_bytes 4 (length bytes),
        length-append (to_le_bytes 2 (length key)) (key ++ (sizes ++ bytes)),
        length-append key (sizes ++ bytes),
        length-append sizes bytes,
      )

  module _ (block_size : ℕ) (bounded : block_size ≤ limit) where
    push_entry-IsBuilt :
        (b : Building) (closed : List (List Entry)) (current : List Entry) (kv : Entry)
        → IsBuilt b closed current
        → length b.current_block + entry_size kv ≤ limit
        → IsBuilt
            (push_entry compress crc32 blake3 block_size kv.0 (Codec.encode blake3 kv.1).0 b)
            closed
            (current ++ kv ∷ [])
    unfolding push_entry
    push_entry-IsBuilt b closed current kv v le = record {
      file = v.file;
      blocks = v.blocks;
      offset = v.offset;
      current_block =
          rw (v.current_block, entries_bytes-snoc current kv)
            (append_assoc reserved (entries_bytes blake3 current)
              (encode_block_entry kv.0 (Codec.encode blake3 kv.1).0));
      count = omega (arith, v.count, length-append current (kv ∷ []));
      small = omega (
        arith,
        le,
        length-encode_block_entry kv.0 (Codec.encode blake3 kv.1).0,
        length-append b.current_block (encode_block_entry kv.0 (Codec.encode blake3 kv.1).0),
      );
    }

    -- The entries that were added so far stand in the closed blocks and the current one, in order.
    record IsWritten (b : Building) (kvs : List Entry) : Type 0 where
      closed : List (List Entry)
      current : List Entry
      built : IsBuilt b closed current
      all : flat closed ++ current ≡ kvs

    pushed :
        (b : Building) (closed : List (List Entry)) (current kvs : List Entry) (kv : Entry)
        → IsBuilt b closed current
        → length b.current_block + entry_size kv ≤ limit
        → flat closed ++ current ≡ kvs
        → IsWritten
            (push_entry compress crc32 blake3 block_size kv.0 (Codec.encode blake3 kv.1).0 b)
            (kvs ++ kv ∷ [])
    pushed b closed current kvs kv v le all = record {
      closed = closed;
      current = current ++ kv ∷ [];
      built = push_entry-IsBuilt b closed current kv v le;
      all = sym (append_assoc (flat closed) current (kv ∷ [])) ∙ ap (λ t. t ++ kv ∷ []) all;
    }

    next_room :
        (b : Building) (kv : Entry)
        → 4 + entry_size kv ≤ limit
        → length (next_block compress crc32 b).current_block + entry_size kv ≤ limit
    unfolding next_block
    next_room b kv alone = omega (arith, alone, length-to_le_bytes 4 0)

    empty_block :
        (current : List Entry) (n : ℕ) (bytes : List ℕ)
        → n ≡ length current
        → ltb 0 n ≡ false
        → bytes ≡ reserved ++ entries_bytes blake3 current
        → length bytes ≡ 4
    unfolding entries_bytes to_le_bytes
    empty_block [] n bytes e none_yet same = ap length same
    empty_block (kv ∷ current) n bytes e none_yet same = absurd (ground arith)

    -- A block that is not full has room for the entry, or is empty.
    unfilled :
        {kvs : List Entry} (b : Building) (kv : Entry) (w : IsWritten b kvs)
        → 4 + entry_size kv ≤ limit
        → (ltb 0 b.block_entry_count && ltb block_size (length b.current_block + entry_size kv))
          ≡ false
        → length b.current_block + entry_size kv ≤ limit
    unfilled b kv w alone has_room = elim (Bool-cases (ltb 0 b.block_entry_count)) [
      | inl some_yet ↦ ground arith
      | inr none_yet ↦
          let four =
            empty_block w.current b.block_entry_count b.current_block w.built.count none_yet
              w.built.current_block in
          omega (arith, alone, four)
    ]

    add_entry-IsWritten :
        (b : Building) (kvs : List Entry) (kv : Entry)
        → 4 + entry_size kv ≤ limit
        → IsWritten b kvs
        → IsWritten (add_entry compress crc32 blake3 block_size b kv) (kvs ++ kv ∷ [])
    unfolding add_entry
    add_entry-IsWritten b kvs kv alone w =
        let keyed : Building = record b {
          bloom = insert_key compress crc32 blake3 block_size kv.0 b.bloom;
        } in
        let bytes = (Codec.encode blake3 kv.1).0 in
        let v : IsBuilt keyed w.closed w.current = record {
          file = w.built.file;
          blocks = w.built.blocks;
          offset = w.built.offset;
          current_block = w.built.current_block;
          count = w.built.count;
          small = w.built.small;
        } in
        let is_full =
          ltb 0 b.block_entry_count
          && ltb block_size (length b.current_block + (2 + length kv.0 + 4 + length bytes)) in
        elim (Bool-cases is_full) [
          | inl full ↦ rw full (
              pushed (next_block compress crc32 keyed) (w.closed ++ w.current ∷ []) [] kvs kv
                (next_block-IsBuilt keyed w.closed w.current v) (next_room keyed kv alone)
                (append-nil _ ∙ flat-snoc w.closed w.current ∙ w.all))
          | inr has_room ↦
              rw has_room
                (pushed keyed w.closed w.current kvs kv v (unfilled b kv w alone has_room) w.all)
        ]

    add_entries-IsWritten :
        (b : Building) (before kvs : List Entry)
        → All (λ kv. 4 + entry_size kv ≤ limit) kvs
        → IsWritten b before
        → IsWritten (add_entries compress crc32 blake3 block_size b kvs) (before ++ kvs)
    unfolding add_entries
    add_entries-IsWritten b before [] s w = subst (IsWritten b) (sym (append-nil before)) w
    add_entries-IsWritten b before (kv ∷ kvs) s w =
        subst
          (IsWritten (
            add_entries compress crc32 blake3 block_size
              (add_entry compress crc32 blake3 block_size b kv) kvs))
          (append_assoc before (kv ∷ []) kvs)
          (add_entries-IsWritten (add_entry compress crc32 blake3 block_size b kv)
            (before ++ kv ∷ []) kvs s.1 (add_entry-IsWritten b before kv s.0 w))

    start-IsWritten : (count : ℕ) → IsWritten (start compress crc32 blake3 block_size count) []
    unfolding start entries_bytes blocks_bytes
    start-IsWritten count = record {
      closed = [];
      current = [];
      built = record {
        file = refl;
        blocks = tt;
        offset = refl;
        current_block = sym (append-nil reserved);
        count = refl;
        small = omega (arith, room, length-to_le_bytes 4 0);
      };
      all = refl;
    }

    -- The bytes of the file that start with the blocks that the writer laid out for some entries: the
    -- reader's iteration over the block index gives these entries, in their order, with the documents
    -- as decoding gives them. The hash has 32 bytes and the checksum 32 bits, the codec decompresses
    -- what it compressed, and the entries fit a block's fields, with less than 2 ^ 32 of them. The block
    -- size, and the size of a block of each entry alone, are within a limit up to which the codec makes
    -- less than 2 ^ 32 - 4 bytes.
    pub iter_blocks-add_entries :
        (count : ℕ) (kvs : List Entry) (post : List ℕ)
        → All (IsEntry blake3) kvs
        → All (λ kv. 4 + entry_size kv ≤ limit) kvs
        → length kvs < 256 ^ 4
        → iter_blocks blake3 decompress crc32
            ((flush_block compress crc32 (
                add_entries compress crc32 blake3 block_size
                  (start compress crc32 blake3 block_size count)
                  kvs)).file
              ++ post)
            (flush_block compress crc32 (
              add_entries compress crc32 blake3 block_size
                (start compress crc32 blake3 block_size count)
                kvs)).block_index_entries
          ≡ done (map (read_back blake3) kvs)
    iter_blocks-add_entries count kvs post w sizes small =
        let b =
          add_entries compress crc32 blake3 block_size
            (start compress crc32 blake3 block_size count) kvs in
        let written =
          add_entries-IsWritten (start compress crc32 blake3 block_size count) [] kvs sizes
            (start-IsWritten count) in
        let groups = written.closed ++ written.current ∷ [] in
        let same : flat groups ≡ kvs = flat-snoc written.closed written.current ∙ written.all in
        let f = flush_block-IsFlushed b written.closed written.current written.built in
        let at : At (blocks_bytes block groups ++ post) 0 (blocks_bytes block groups) =
          At-intro [] (blocks_bytes block groups) post in
        rw f.file (
          iter_blocks-At (blocks_bytes block groups ++ post) 0
            (flush_block compress crc32 b).block_index_entries groups f.blocks (rw same w)
            (rw same small) at
          ∙ ap (λ xs. done (map (read_back blake3) xs)) same)
