-- ===== src/Blob/IBlob/Codec/Index.antt =====
-- The index of a serialised document is read back.
use ingodb.Base.{
  ℕ, ◌+◌, ◌^◌, ◌<◌, ◌≡◌, refl, ◌*◌, List, [], ◌∷◌, ◌++◌, arith, All, length, length-append,
}
use ingodb.Bytes.{to_le_bytes}
use ingodb.Bytes.Laws.{length-to_le_bytes, At, At-append, At-le_bytes}
use ingodb.Blob.IBlob.Codec.{IndexEntry, encode_entry, encode_index, read_entry, read_index}

-- The numbers of an entry have the width of their fields.
pub record IsEntry (e : IndexEntry) : Type 0 where
  pub key_hash : e.key_hash < 256 ^ 8
  pub offset : e.offset < 256 ^ 4
  pub length : e.length < 256 ^ 4

pub length-encode_entry : (e : IndexEntry) → length (encode_entry e) ≡ 16
unfolding encode_entry
length-encode_entry e = omega (
  arith,
  length-append (to_le_bytes 8 e.key_hash) (to_le_bytes 4 e.offset ++ to_le_bytes 4 e.length),
  length-append (to_le_bytes 4 e.offset) (to_le_bytes 4 e.length),
  length-to_le_bytes 8 e.key_hash,
  length-to_le_bytes 4 e.offset,
  length-to_le_bytes 4 e.length,
)

pub length-encode_index : (es : List IndexEntry) → length (encode_index es) ≡ 16 * length es
unfolding encode_index
length-encode_index [] = refl
length-encode_index (e ∷ es) = omega (
  arith,
  length-append (encode_entry e) (encode_index es),
  length-encode_entry e,
  length-encode_index es,
)

read_entry-encode_entry :
    (buf : List ℕ) (base : ℕ) (e : IndexEntry)
    → IsEntry e
    → At buf base (encode_entry e)
    → read_entry buf base ≡ e
unfolding read_entry encode_entry
read_entry-encode_entry buf base e w at =
    let (l, r) =
      At-append buf base (to_le_bytes 8 e.key_hash)
        (to_le_bytes 4 e.offset ++ to_le_bytes 4 e.length) at in
    let r' = rw (length-to_le_bytes 8 e.key_hash) at r in
    let (m, n) = At-append buf (base + 8) (to_le_bytes 4 e.offset) (to_le_bytes 4 e.length) r' in
    let n' = rw (length-to_le_bytes 4 e.offset) at n in
    let q : base + 8 + 4 ≡ base + 12 = omega arith in
    let n'' = rw q at n' in
    rw (
      At-le_bytes buf base 8 e.key_hash w.key_hash l,
      At-le_bytes buf (base + 8) 4 e.offset w.offset m,
      At-le_bytes buf (base + 12) 4 e.length w.length n'',
    )

-- The entries are read back in their order.
pub read_index-encode_index :
    (buf : List ℕ) (es : List IndexEntry) (base : ℕ)
    → All IsEntry es
    → At buf base (encode_index es)
    → read_index buf (length es) base ≡ es
unfolding read_index encode_index
read_index-encode_index buf [] base w at = refl
read_index-encode_index buf (e ∷ es) base w at =
    let (l, r) = At-append buf base (encode_entry e) (encode_index es) at in
    let r' = rw (length-encode_entry e) at r in
    cc (read_entry-encode_entry buf base e w.0 l, read_index-encode_index buf es (base + 16) w.1 r')
