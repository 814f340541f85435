-- ===== src/Blob/IBlob/Codec/Fields.antt =====
-- The payload of a serialised document is read back through its entries, in any order of these.
use ingodb.Base.{
  ℕ, ◌+◌, ◌^◌, ◌<◌, ◌≤◌, ◌≡◌, refl, ap, ◌∙◌, true, List, [], ◌∷◌, ◌++◌, arith, All, length, map,
  length-append, append-nil, le→ltb_false, Ordering, bytes_ord,
}
use ingodb.Base.Maps.{BTreeMap, insert, collect, IsSorted}
use ingodb.Base.Maps.Collect.{Distinct, IsSorted-Distinct, collect-sort_by, collect-IsSorted}
use ingodb.Base.Sort.{sort_by, All-sort_by}
use ingodb.Bytes.{to_le_bytes, slice}
use ingodb.Bytes.Laws.{
  length-to_le_bytes, At, At-append, At-length, At-slice, At-le_bytes, At-intro,
}
use ingodb.Blob.Utf8.{is_utf8, from_utf8}
use ingodb.Blob.Error.{Result, ok, err, out_of_fuel}
use ingodb.Blob.Value
use ingodb.Blob.Value.{Value, with_length, IsValue}
use ingodb.Blob.Value.RoundTrip.{decode-At, length-with_length}
use ingodb.Blob.IBlob.Codec.{
  IndexEntry, encode_field, encode_payload, read_field, read_fields, index_entries, key_hash,
}

-- What the Rust types guarantee of a field, and the lengths that the format can hold.
pub record IsField (kv : List ℕ × Value) : Type 0 where
  pub utf8 : is_utf8 kv.0 ≡ true
  pub short : length kv.0 < 256 ^ 4
  pub value : IsValue kv.1

-- A field that stands in the payload where its entry says is read back.
read_field-At :
    (payload : List ℕ) (index_end have : ℕ) (e : IndexEntry) (k : List ℕ) (v : Value)
    → IsField (k, v)
    → At payload e.offset (encode_field k v)
    → e.length ≡ length (encode_field k v)
    → read_field payload index_end have e ≡ ok (k, v)
unfolding read_field encode_field from_utf8
read_field-At payload index_end have e k v w at n =
    let fd = with_length k ++ Value.encode v in
    let bytes : slice payload e.offset e.length ≡ fd = rw n (At-slice payload e.offset fd at) in
    let len : length fd ≡ 4 + length k + length (Value.encode v) =
      omega (arith, length-append (with_length k) (Value.encode v), length-with_length k) in
    let b : e.offset + e.length ≤ length payload =
      omega (arith, At-length payload e.offset fd at) in
    let here : At (fd ++ []) 0 fd = At-intro [] fd [] in
    let whole : At fd 0 fd = rw append-nil at here in
    let (head, tail) = At-append fd 0 (with_length k) (Value.encode v) whole in
    let (count, name) = At-append fd 0 (to_le_bytes 4 (length k)) k head in
    let four : 0 + length (to_le_bytes 4 (length k)) ≡ 4 =
      omega (arith, length-to_le_bytes 4 (length k)) in
    let name' : At fd 4 k = rw four at name in
    let past : 0 + length (with_length k) ≡ 4 + length k = omega (arith, length-with_length k) in
    let tail' : At fd (4 + length k) (Value.encode v) = rw past at tail in
    rw (
      bytes,
      le→ltb_false (length payload) (e.offset + e.length) b,
      le→ltb_false (length fd) 4 (omega arith),
      At-le_bytes fd 0 4 (length k) w.short count,
      le→ltb_false (length fd) (4 + length k) (omega arith),
      At-slice fd 4 k name',
      w.utf8,
      decode-At fd (4 + length k) v w.value tail',
    )

-- The field that an entry stands for, with a default that no entry of a written document needs.
abbrev field_or : Result (List ℕ × Value) → List ℕ × Value
field_or (ok kv) = kv
field_or (err e) = ([], Value.null)
field_or out_of_fuel = ([], Value.null)

module _ (payload : List ℕ) (index_end have : ℕ) where
  abbrev entry_field : IndexEntry → List ℕ × Value
  entry_field e = field_or (read_field payload index_end have e)

  abbrev IsRead : IndexEntry → Type 0
  IsRead e = read_field payload index_end have e ≡ ok (entry_field e)

  read_fields-collect :
      (es : List IndexEntry) (acc : BTreeMap (List ℕ) Value)
      → All IsRead es
      → read_fields payload index_end have es acc ≡ ok (collect (map entry_field es) acc)
  unfolding read_fields collect
  read_fields-collect [] acc h = refl
  read_fields-collect (e ∷ es) acc h =
      rw h.0 (read_fields-collect es (insert (entry_field e).0 (entry_field e).1 acc) h.1)

  -- The entries of the fields from `offset` on read as these fields.
  index_entries-IsRead :
      (blake3 : List ℕ → List ℕ) (offset : ℕ) (fields : BTreeMap (List ℕ) Value)
      → All IsField fields
      → At payload offset (encode_payload fields)
      → All IsRead (index_entries blake3 offset fields)
        × (map entry_field (index_entries blake3 offset fields) ≡ fields)
  unfolding index_entries encode_payload
  index_entries-IsRead blake3 offset [] w at = (tt, refl)
  index_entries-IsRead blake3 offset ((k, v) ∷ fields) w at =
      let (l, r) = At-append payload offset (encode_field k v) (encode_payload fields) at in
      let e : IndexEntry = record {
        key_hash = key_hash blake3 k;
        offset = offset;
        length = length (encode_field k v);
      } in
      let one = read_field-At payload index_end have e k v w.0 l refl in
      let (rest, same) =
        index_entries-IsRead blake3 (offset + length (encode_field k v)) fields w.1 r in
      ((rw one refl, rest), cc (ap field_or one, same))

  -- Whatever order the entries are sorted into, the loop of `decode` fills the map with the fields.
  pub read_fields-sort_by :
      (blake3 : List ℕ → List ℕ) (cmp : IndexEntry → IndexEntry → Ordering)
      (fields : BTreeMap (List ℕ) Value)
      → All IsField fields
      → IsSorted fields
      → At payload 0 (encode_payload fields)
      → read_fields payload index_end have (sort_by cmp (index_entries blake3 0 fields)) []
        ≡ ok fields
  read_fields-sort_by blake3 cmp fields w s at =
      let es = index_entries blake3 0 fields in
      let (rest, same) = index_entries-IsRead blake3 0 fields w at in
      let distinct : Distinct (map entry_field es) = rw same (IsSorted-Distinct fields s) in
      read_fields-collect (sort_by cmp es) [] (All-sort_by cmp IsRead es rest)
      ∙ ap ok (
          collect-sort_by entry_field cmp es [] distinct
          ∙ ap (λ m. collect m []) same
          ∙ collect-IsSorted fields s)
