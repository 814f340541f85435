-- ===== src/Sstable/Range.antt =====
-- crates/ingodb-sstable/src/reader.rs, `range_scan`: the entries whose keys lie between two keys.
pub mod Groups
pub mod Scanned
pub mod Latest
use ingodb.Base.{
  zero, suc, ℕ, ◌&&◌, not, Bool, true, false, List, [], ◌∷◌, ◌++◌, Option, if◌then◌else◌, cmp_bytes,
  Ordering, lt, eq, gt,
}
use ingodb.Blob.IBlob.{same_key}
use ingodb.Sstable.Error.{Outcome, done, ◌>>=◌}
use ingodb.Sstable.Writer.{BlockIndex}
use ingodb.Sstable.Reader.{Entry, SstableReader, read_block}
use ingodb.Sstable.Lookup.{le_bytes, lt_bytes, search_blocks}

-- The loop over the entries of a block: what is in range, and whether a key past the end was met.
unfoldable pub scan_entries : List ℕ → List ℕ → List Entry → List Entry × Bool
scan_entries start_key end_key [] = ([], false)
scan_entries start_key end_key (kv ∷ kvs) =
    let rest = scan_entries start_key end_key kvs in
    if lt_bytes kv.0 start_key
    then rest
    else if lt_bytes end_key kv.0
    then ([], true)
    else (kv ∷ rest.0, rest.1)

-- The walk backward: blocks before the place found that end at the start key or behind it.
unfoldable pub walk_back : List ℕ → List BlockIndex → List BlockIndex → List BlockIndex
walk_back start_key [] blocks = blocks
walk_back start_key (block ∷ before) blocks = elim (le_bytes start_key block.last_key) [
  | true ↦ walk_back start_key before (block ∷ blocks)
  | false ↦ blocks
]

abbrev pub is_none_found : List Entry → Bool
is_none_found [] = true
is_none_found (kv ∷ kvs) = false

-- `binary_search_by` puts a key that is past every block at their number.
abbrev pub first_blocks : List ℕ → List BlockIndex × List BlockIndex → List BlockIndex
first_blocks start_key (before, []) = []
first_blocks start_key (before, block ∷ blocks) = walk_back start_key before (block ∷ blocks)

-- `binary_search_by` finds any of the blocks that end at the key, and the standard library leaves open
-- which: from the first of them, up to `among` blocks on while the next one ends at the key too.
unfoldable pub found_among :
    ℕ → List ℕ → List BlockIndex → List BlockIndex → List BlockIndex × List BlockIndex
found_among zero start_key before blocks = (before, blocks)
found_among (suc n) start_key before [] = (before, [])
found_among (suc n) start_key before (block ∷ []) = (before, block ∷ [])
found_among (suc n) start_key before (block ∷ next ∷ blocks) =
    elim (same_key next.last_key start_key) [
      | true ↦ found_among n start_key (block ∷ before) (next ∷ blocks)
      | false ↦ (before, block ∷ next ∷ blocks)
    ]

module _ (blake3 : List ℕ → List ℕ) (decompress : List ℕ → Option (List ℕ))
    (crc32 : List ℕ → ℕ) where
  unfoldable pub scan_blocks : List ℕ → List ℕ → List ℕ → List BlockIndex → Outcome (List Entry)
  unfolding read_block scan_entries
  scan_blocks bytes start_key end_key [] = done []
  scan_blocks bytes start_key end_key (block ∷ blocks) =
      let rest = scan_blocks bytes start_key end_key blocks in
      read_block blake3 decompress crc32 bytes block >>= (λ kvs.
        let (found, past) = scan_entries start_key end_key kvs in
        if past
        then done found
        else if is_none_found found && lt_bytes end_key block.last_key
        then done found
        else rest >>= (λ more. done (found ++ more)))

  -- With `among`, the choice of the binary search.
  unfoldable pub range_scan : ℕ → SstableReader → List ℕ → List ℕ → Outcome (List Entry)
  unfolding search_blocks found_among walk_back scan_blocks
  range_scan among r start_key end_key =
      let (before, blocks) = search_blocks start_key [] r.block_indices in
      scan_blocks r.data_bytes start_key end_key
        (first_blocks start_key (found_among among start_key before blocks))
