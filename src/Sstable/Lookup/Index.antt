-- ===== src/Sstable/Lookup/Index.antt =====
-- crates/ingodb-sstable: the block index of a table file is read back.
use ingodb.Base.{
  ℕ, ◌+◌, ◌^◌, ◌<◌, ◌≤◌, ◌≡◌, refl, List, [], ◌∷◌, ◌++◌, arith, All, length, length-append,
  le→ltb_false, subst,
}
use ingodb.Bytes.{to_le_bytes}
use ingodb.Bytes.Laws.{length-to_le_bytes, At, At-append, At-slice, At-le_bytes}
use ingodb.Sstable.Error.{done}
use ingodb.Sstable.Writer.{BlockIndex, encode_index_entry, encode_block_index}
use ingodb.Sstable.Reader.{read_block_index}

-- An entry of the block index that the format can hold.
pub record IsIndexEntry (e : BlockIndex) : Type 0 where
  pub key : length e.last_key < 256 ^ 2
  pub offset : e.offset < 256 ^ 8
  pub size : e.size < 256 ^ 4

length-encode_index_entry :
    (e : BlockIndex) → length (encode_index_entry e) ≡ 14 + length e.last_key
unfolding encode_index_entry
length-encode_index_entry e = omega (
  arith,
  length-append (to_le_bytes 2 (length e.last_key))
      (e.last_key ++ (to_le_bytes 8 e.offset ++ to_le_bytes 4 e.size)),
  length-append e.last_key (to_le_bytes 8 e.offset ++ to_le_bytes 4 e.size),
  length-append (to_le_bytes 8 e.offset) (to_le_bytes 4 e.size),
  length-to_le_bytes 2 (length e.last_key),
  length-to_le_bytes 8 e.offset,
  length-to_le_bytes 4 e.size,
)

-- The loop of `open` reads the index that stands at `pos` and ends by the footer.
pub read_block_index-At :
    (buf : List ℕ) (footer_start pos : ℕ) (es : List BlockIndex)
    → All IsIndexEntry es
    → At buf pos (encode_block_index es)
    → pos + length (encode_block_index es) ≤ footer_start
    → read_block_index buf footer_start (length es) pos ≡ done es
unfolding read_block_index encode_block_index encode_index_entry
read_block_index-At buf footer_start pos [] w at end = refl
read_block_index-At buf footer_start pos (e ∷ es) w at end =
    let two = to_le_bytes 2 (length e.last_key) in
    let l2 = length-to_le_bytes 2 (length e.last_key) in
    let l8 = length-to_le_bytes 8 e.offset in
    let n = length-encode_index_entry e in
    let total = length-append (encode_index_entry e) (encode_block_index es) in
    let (a, rest) = At-append buf pos (encode_index_entry e) (encode_block_index es) at in
    let rest' : At buf (pos + 2 + length e.last_key + 12) (encode_block_index es) =
      subst (λ p. At buf p (encode_block_index es)) (omega (arith, n)) rest in
    let (b, c) =
      At-append buf pos two (e.last_key ++ (to_le_bytes 8 e.offset ++ to_le_bytes 4 e.size)) a in
    let c' : At buf (pos + 2) (e.last_key ++ (to_le_bytes 8 e.offset ++ to_le_bytes 4 e.size)) =
      rw l2 at c in
    let (d, f) =
      At-append buf (pos + 2) e.last_key (to_le_bytes 8 e.offset ++ to_le_bytes 4 e.size) c' in
    let (g, k) =
      At-append buf (pos + 2 + length e.last_key) (to_le_bytes 8 e.offset) (to_le_bytes 4 e.size)
        f in
    let k' : At buf (pos + 2 + length e.last_key + 8) (to_le_bytes 4 e.size) = rw l8 at k in
    rw
      (
        At-le_bytes buf pos 2 (length e.last_key) w.0.key b,
        le→ltb_false footer_start (pos + 2) (omega (arith, n, total)),
        le→ltb_false footer_start (pos + 2 + length e.last_key + 12) (omega (arith, n, total)),
        At-slice buf (pos + 2) e.last_key d,
        At-le_bytes buf (pos + 2 + length e.last_key) 8 e.offset w.0.offset g,
        At-le_bytes buf (pos + 2 + length e.last_key + 8) 4 e.size w.0.size k',
        read_block_index-At buf footer_start (pos + 2 + length e.last_key + 12) es w.1 rest'
            (omega (arith, n, total)),
      )
      refl
