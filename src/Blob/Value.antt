-- ===== src/Blob/Value.antt =====
-- crates/ingodb-blob/src/value.rs: the tagged values and their binary form.
--
-- A `String` is its UTF-8 bytes, an `i64` its 64-bit two's complement pattern and an `f64` its
-- IEEE 754 bit pattern. Offsets and lengths are not cut to 64 bits: a buffer in memory is shorter.
pub mod Size
pub mod RoundTrip
pub mod Total
use ingodb.Base.{
  ℕ, zero, suc, ◌+◌, ◌^◌, ◌<◌, ◌≡◌, ◌==◌, Bool, true, List, [], ◌∷◌, ◌++◌, length, leb, get_or,
  if◌then◌else◌, not,
}
use ingodb.Bytes.{IsBytes, to_le_bytes, from_le_bytes, slice}
use ingodb.Blob.Id.{DocumentId, IsId, as_bytes, from_bytes}
use ingodb.Blob.Utf8.{is_utf8, from_utf8}
use ingodb.Blob.Error.{
  Result, ok, err, out_of_fuel, buffer_too_short, unknown_value_type, check_len, ◌>>=◌, ◌>>◌,
}

mutual
  pub data Value : Type 0 where
    null : Value
    bool : Bool → Value
    i64 : ℕ → Value
    u64 : ℕ → Value
    f64 : ℕ → Value
    string : List ℕ → Value
    bytes : List ℕ → Value
    uuid : DocumentId → Value
    array : Values → Value
    document : Fields → Value

  pub data Values : Type 0 where
    nil : Values
    cons : Value → Values → Values

  pub data Fields : Type 0 where
    end : Fields
    field : List ℕ → Value → Fields → Fields

abbrev pub count : Values → ℕ
count nil = 0
count (cons v vs) = suc (count vs)

abbrev pub count_fields : Fields → ℕ
count_fields end = 0
count_fields (field k v fs) = suc (count_fields fs)

abbrev pub tag_null : ℕ
tag_null = 0

abbrev pub tag_bool : ℕ
tag_bool = 1

abbrev pub tag_i64 : ℕ
tag_i64 = 2

abbrev pub tag_u64 : ℕ
tag_u64 = 3

abbrev pub tag_f64 : ℕ
tag_f64 = 4

abbrev pub tag_string : ℕ
tag_string = 5

abbrev pub tag_bytes : ℕ
tag_bytes = 6

abbrev pub tag_uuid : ℕ
tag_uuid = 7

abbrev pub tag_array : ℕ
tag_array = 8

abbrev pub tag_document : ℕ
tag_document = 9

-- A length prefix, cut to 32 bits as by `len() as u32`, with the bytes behind it.
abbrev pub with_length : List ℕ → List ℕ
with_length bs = to_le_bytes 4 (length bs) ++ bs

-- The bytes that `encode` pushes.
unfoldable mutual
  pub encode : Value → List ℕ
  encode null = tag_null ∷ []
  encode (bool b) = tag_bool ∷ (if b then 1 else 0) ∷ []
  encode (i64 v) = tag_i64 ∷ to_le_bytes 8 v
  encode (u64 v) = tag_u64 ∷ to_le_bytes 8 v
  encode (f64 v) = tag_f64 ∷ to_le_bytes 8 v
  encode (string s) = tag_string ∷ with_length s
  encode (bytes b) = tag_bytes ∷ with_length b
  encode (uuid id) = tag_uuid ∷ as_bytes id
  encode (array arr) = tag_array ∷ to_le_bytes 4 (count arr) ++ encode_array arr
  encode (document fields) =
      tag_document ∷ to_le_bytes 4 (count_fields fields) ++ encode_fields fields

  pub encode_array : Values → List ℕ
  encode_array nil = []
  encode_array (cons v vs) = encode v ++ encode_array vs

  pub encode_fields : Fields → List ℕ
  encode_fields end = []
  encode_fields (field k v fs) = with_length k ++ (encode v ++ encode_fields fs)

-- The loops of the two nested cases, over the decoder of one value. They return the elements with
-- the bytes consumed, counted from `total`.
unfoldable pub decode_array : (ℕ → Result (Value × ℕ)) → ℕ → ℕ → ℕ → Result (Values × ℕ)
decode_array dec zero pos total = ok (nil, total)
decode_array dec (suc n) pos total = do
  one ← dec pos
  rest ← decode_array dec n (pos + one.1) (total + one.1)
  ok (cons one.0 rest.0, rest.1)

-- A length prefix at `pos`, with both bounds checked: the bytes behind it.
abbrev pub read_sized : List ℕ → ℕ → Result (List ℕ)
read_sized buf pos = do
  check_len buf pos 4
  let len = from_le_bytes (slice buf pos 4)
  check_len buf (pos + 4) len
  ok (slice buf (pos + 4) len)

unfoldable pub decode_fields : List ℕ → (ℕ → Result (Value × ℕ)) → ℕ → ℕ → ℕ → Result (Fields × ℕ)
decode_fields buf dec zero pos total = ok (end, total)
decode_fields buf dec (suc n) pos total = do
  raw ← read_sized buf pos
  let klen = from_le_bytes (slice buf pos 4)
  key ← from_utf8 raw
  one ← dec (pos + 4 + klen)
  rest ← decode_fields buf dec n (pos + 4 + klen + one.1) (total + 4 + klen + one.1)
  ok (field key one.0 rest.0, rest.1)

abbrev pub decode_bool : List ℕ → ℕ → Result (Value × ℕ)
decode_bool buf pos = do check_len buf pos 1; ok (bool (not (get_or buf pos 0 == 0)), 2)

-- The three 64-bit cases, which differ in the constructor.
abbrev pub decode_word : (ℕ → Value) → List ℕ → ℕ → Result (Value × ℕ)
decode_word make buf pos = do check_len buf pos 8; ok (make (from_le_bytes (slice buf pos 8)), 9)

abbrev pub decode_string : List ℕ → ℕ → Result (Value × ℕ)
decode_string buf pos = do
  raw ← read_sized buf pos
  s ← from_utf8 raw
  ok (string s, 5 + from_le_bytes (slice buf pos 4))

abbrev pub decode_bytes : List ℕ → ℕ → Result (Value × ℕ)
decode_bytes buf pos = do
  raw ← read_sized buf pos
  ok (bytes raw, 5 + from_le_bytes (slice buf pos 4))

abbrev pub decode_uuid : List ℕ → ℕ → Result (Value × ℕ)
decode_uuid buf pos = do check_len buf pos 16; ok (uuid (from_bytes (slice buf pos 16)), 17)

abbrev pub decode_elements : List ℕ → (ℕ → Result (Value × ℕ)) → ℕ → Result (Value × ℕ)
decode_elements buf dec pos = do
  check_len buf pos 4
  arr ← decode_array dec (from_le_bytes (slice buf pos 4)) (pos + 4) 5
  ok (array arr.0, arr.1)

abbrev pub decode_entries : List ℕ → (ℕ → Result (Value × ℕ)) → ℕ → Result (Value × ℕ)
decode_entries buf dec pos = do
  check_len buf pos 4
  fields ← decode_fields buf dec (from_le_bytes (slice buf pos 4)) (pos + 4) 5
  ok (document fields.0, fields.1)

-- The match on the tag, for the decoder of nested values. `pos` is past the tag.
unfoldable pub decode_tag : List ℕ → (ℕ → Result (Value × ℕ)) → ℕ → ℕ → Result (Value × ℕ)
decode_tag buf dec tag pos =
    if tag == tag_null
    then ok (null, 1)
    else if tag == tag_bool
    then decode_bool buf pos
    else if tag == tag_i64
    then decode_word i64 buf pos
    else if tag == tag_u64
    then decode_word u64 buf pos
    else if tag == tag_f64
    then decode_word f64 buf pos
    else if tag == tag_string
    then decode_string buf pos
    else if tag == tag_bytes
    then decode_bytes buf pos
    else if tag == tag_uuid
    then decode_uuid buf pos
    else if tag == tag_array
    then decode_elements buf dec pos
    else if tag == tag_document
    then decode_entries buf dec pos
    else err (unknown_value_type tag)

-- `decode` on fuel, which bounds the nesting.
unfoldable pub decode_fuel : ℕ → List ℕ → ℕ → Result (Value × ℕ)
decode_fuel zero buf offset = out_of_fuel
decode_fuel (suc fuel) buf offset =
    let dec = decode_fuel fuel buf in
    if leb (length buf) offset
    then err (buffer_too_short (offset + 1) (length buf))
    else decode_tag buf dec (get_or buf offset 0) (offset + 1)

-- Each nested value starts past its container's tag, so the length of the buffer bounds the nesting.
unfoldable pub decode : List ℕ → ℕ → Result (Value × ℕ)
decode buf offset = decode_fuel (suc (length buf)) buf offset

-- What the Rust types guarantee of a value, and the lengths that the format can hold.
unfoldable mutual
  pub IsValue : Value → Type 0
  IsValue null = Unit
  IsValue (bool b) = Unit
  IsValue (i64 v) = v < 256 ^ 8
  IsValue (u64 v) = v < 256 ^ 8
  IsValue (f64 v) = v < 256 ^ 8
  IsValue (string s) = (is_utf8 s ≡ true) × (length s < 256 ^ 4)
  IsValue (bytes b) = length b < 256 ^ 4
  IsValue (uuid id) = IsId id
  IsValue (array arr) = (count arr < 256 ^ 4) × AreValues arr
  IsValue (document fields) = (count_fields fields < 256 ^ 4) × AreFields fields

  pub AreValues : Values → Type 0
  AreValues nil = Unit
  AreValues (cons v vs) = IsValue v × AreValues vs

  pub AreFields : Fields → Type 0
  AreFields end = Unit
  AreFields (field k v fs) = (is_utf8 k ≡ true) × (length k < 256 ^ 4) × IsValue v × AreFields fs
