-- ===== src/Blob/IBlob/Codec.antt =====
-- crates/ingodb-blob/src/iblob.rs: `encode`, `decode` and the index of a serialised document.
pub mod Index
pub mod Fields
pub mod RoundTrip
use ingodb.Base.{
  ℕ, zero, suc, ◌+◌, ◌*◌, ◌^◌, ◌<◌, ◌≡◌, ◌==◌, Bool, not, Option, none, some, List, [], ◌∷◌, ◌++◌,
  length, take, drop, ltb, leb, get_or, if◌then◌else◌, compare, Ordering, cmp_bytes, bytes_ord,
}
use ingodb.Base.Maps
use ingodb.Base.Maps.{BTreeMap}
use ingodb.Base.Sort.{sort_by}
use ingodb.Bytes.{to_le_bytes, from_le_bytes, slice}
use ingodb.Blob.Id.{DocumentId, as_bytes, from_bytes, magic, format_version}
use ingodb.Blob.Utf8.{from_utf8}
use ingodb.Blob.Error.{
  Result, ok, err, invalid_magic, unsupported_version, buffer_too_short, hash_mismatch, ◌>>=◌, ◌>>◌,
}
use ingodb.Blob.Value
use ingodb.Blob.Value.{Value, with_length}
use ingodb.Blob.IBlob.{IBlob, no_hash, same_key}

pub record IndexEntry : Type 0 where
  pub key_hash : ℕ
  pub offset : ℕ
  pub length : ℕ

abbrev pub index_entry_size : ℕ
index_entry_size = 16

abbrev pub header_size : ℕ
header_size = 4 + 2 + 16 + 16 + 1 + 32 + 4

-- `sort_by_key(|e| e.key_hash)`
abbrev pub by_key_hash : IndexEntry → IndexEntry → Ordering
by_key_hash a b = compare a.key_hash b.key_hash

-- A field's bytes in the payload, and in the hashed content.
unfoldable pub encode_field : List ℕ → Value → List ℕ
encode_field key value = with_length key ++ Value.encode value

unfoldable pub encode_payload : BTreeMap (List ℕ) Value → List ℕ
unfolding encode_field
encode_payload [] = []
encode_payload ((key, value) ∷ fields) = encode_field key value ++ encode_payload fields

unfoldable pub encode_hashable : IBlob → List ℕ
unfolding encode_payload
encode_hashable b = as_bytes b.id ++ (as_bytes b.version ++ (b.flags ∷ encode_payload b.fields))

unfoldable pub encode_entry : IndexEntry → List ℕ
encode_entry e = to_le_bytes 8 e.key_hash ++ (to_le_bytes 4 e.offset ++ to_le_bytes 4 e.length)

unfoldable pub encode_index : List IndexEntry → List ℕ
unfolding encode_entry
encode_index [] = []
encode_index (e ∷ es) = encode_entry e ++ encode_index es

-- The bytes of an index entry that starts at `base`.
unfoldable pub read_entry : List ℕ → ℕ → IndexEntry
read_entry buf base = record {
  key_hash = from_le_bytes (slice buf base 8);
  offset = from_le_bytes (slice buf (base + 8) 4);
  length = from_le_bytes (slice buf (base + 12) 4);
}

-- The loop of `decode` over the index, from the entry that starts at `base`.
unfoldable pub read_index : List ℕ → ℕ → ℕ → List IndexEntry
unfolding read_entry
read_index buf zero base = []
read_index buf (suc n) base = read_entry buf base ∷ read_index buf n (base + index_entry_size)

-- One field of the payload; `index_end` and the buffer's length stand in the errors only.
unfoldable pub read_field : List ℕ → ℕ → ℕ → IndexEntry → Result (List ℕ × Value)
read_field payload index_end have e =
    let field_data = slice payload e.offset e.length in
    let key_len = from_le_bytes (slice field_data 0 4) in
    let rest = do
      key ← from_utf8 (slice field_data 4 key_len)
      one ← Value.decode field_data (4 + key_len)
      ok (key, one.0)
    in if ltb (length payload) (e.offset + e.length)
      then err (buffer_too_short (index_end + (e.offset + e.length)) have)
      else if ltb (length field_data) 4
      then err (buffer_too_short 4 (length field_data))
      else if ltb (length field_data) (4 + key_len)
      then err (buffer_too_short (4 + key_len) (length field_data))
      else rest

-- The loop of `decode` over the entries, which fills the map.
unfoldable pub read_fields :
    List ℕ → ℕ → ℕ → List IndexEntry → BTreeMap (List ℕ) Value → Result (BTreeMap (List ℕ) Value)
unfolding read_field
read_fields payload index_end have [] acc = ok acc
read_fields payload index_end have (e ∷ es) acc = do
  kv ← read_field payload index_end have e
  read_fields payload index_end have es (Maps.insert kv.0 kv.1 acc)

-- The integrity check at the end of `decode`.
unfoldable pub check_hash : List ℕ → IBlob → Result IBlob
check_hash stored b = if same_key b.hash stored then ok b else err (hash_mismatch b.hash stored)

module _ (blake3 : List ℕ → List ℕ) where
  -- The first eight bytes of the hash of the key.
  unfoldable pub key_hash : List ℕ → ℕ
  key_hash key = from_le_bytes (take 8 (blake3 key))

  unfoldable pub compute_hash : IBlob → IBlob
  compute_hash b = record b {
    hash_computations = b.hash_computations + 1;
    hash = blake3 (encode_hashable b);
  }

  -- The entries of the fields, whose payload starts at `offset`, before the sort.
  unfoldable pub index_entries : ℕ → BTreeMap (List ℕ) Value → List IndexEntry
  unfolding key_hash encode_field
  index_entries offset [] = []
  index_entries offset ((key, value) ∷ fields) =
      record { key_hash = key_hash key; offset = offset; length = length (encode_field key value) }
      ∷ index_entries (offset + length (encode_field key value)) fields

  -- The serialised form, for the hash that `b` holds.
  unfoldable pub serialize : IBlob → List ℕ
  unfolding index_entries encode_index encode_payload
  serialize b =
      magic
      ++ (to_le_bytes 2 format_version
          ++ (as_bytes b.id
              ++ (as_bytes b.version
                  ++ ((b.flags ∷ [])
                      ++ (b.hash
                          ++ (to_le_bytes 4 (length b.fields)
                              ++ (encode_index (sort_by by_key_hash (index_entries 0 b.fields))
                                  ++ encode_payload b.fields)))))))

  -- `if self.hash == [0; 32] { self.compute_hash() }`
  unfoldable pub ensure_hash : IBlob → IBlob
  unfolding compute_hash
  ensure_hash b = if same_key b.hash no_hash then compute_hash b else b

  -- The bytes, and the document with its hash and cache filled.
  unfoldable pub encode : IBlob → List ℕ × IBlob
  unfolding serialize ensure_hash
  encode b =
      let hashed = ensure_hash b in
      let bytes = serialize hashed in
      elim b.encoded [
        | some cached ↦ (cached, b)
        | none ↦ (bytes, record hashed { encoded = some bytes })
      ]

  -- What remains of `decode` once the header and the index are in range.
  unfoldable pub decode_body : List ℕ → ℕ → Result IBlob
  unfolding read_index read_fields compute_hash check_hash
  decode_body buf index_count = do
    let index_end = header_size + index_count * index_entry_size
    fields ←
        read_fields (drop index_end buf) index_end (length buf)
          (read_index buf index_count header_size) []
    let blob = compute_hash (record {
      id = from_bytes (slice buf 6 16);
      version = from_bytes (slice buf 22 16);
      flags = get_or buf 38 0;
      hash = no_hash;
      fields = fields;
      encoded = none;
      hash_computations = 0;
    })
    check_hash (slice buf 39 32) blob

  unfoldable pub decode : List ℕ → Result IBlob
  unfolding decode_body
  decode buf =
      let version = from_le_bytes (slice buf 4 2) in
      let index_count = from_le_bytes (slice buf 71 4) in
      let index_end = header_size + index_count * index_entry_size in
      if ltb (length buf) header_size
      then err (buffer_too_short header_size (length buf))
      else if not (same_key (slice buf 0 4) magic)
      then err invalid_magic
      else if not (version == format_version)
      then err (unsupported_version version)
      else if ltb (length buf) index_end
      then err (buffer_too_short index_end (length buf))
      else decode_body buf index_count
