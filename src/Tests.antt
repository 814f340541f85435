-- ===== src/Tests.antt =====
-- Concrete documents, and the theorems at concrete documents, files and tables.
mod Log
mod Tables
mod Keys
mod Table
mod Engine
mod Reopen
mod Stored
mod Scans
mod Orders
mod State
use ingodb.Base.{
  ℕ, zero, suc, ◌+◌, ◌*◌, ◌%◌, ◌^◌, ◌<◌, ◌≤◌, ◌≡◌, ◌≢◌, ◌↔◌, refl, inl, inr, arith, true, false,
  not, Option, none, some, List, [], ◌∷◌, ◌++◌, map, length, length-replicate, replicate, take, All,
  retain, leb, lt, eq,
}
use ingodb.Base.Sort.{sort_by}
use ingodb.Bytes.{IsBytes}
use ingodb.Blob.Error.{ok}
use ingodb.Blob.Value
use ingodb.Blob.Value.{Value, Values, IsValue}
use ingodb.Blob.Value.RoundTrip.{decode-encode}
use ingodb.Blob.Value.Total.{EndsWithin, decode-EndsWithin}
use ingodb.Blob.Utf8.{is_utf8}
use ingodb.Blob.IBlob.{IBlob, no_hash}
use ingodb.Blob.IBlob.Codec
use ingodb.Blob.IBlob.Extract.{extract_field}
use ingodb.Blob.IBlob.Codec.Fields.{IsField}
use ingodb.Blob.IBlob.Codec.RoundTrip.{IsHash, IsStorable, IsCoherent, decoded, decode-encode_blob}

-- A hash of 32 bytes and a checksum of 32 bits.
abbrev pub hash : List ℕ → List ℕ
hash xs = replicate 32 (length xs % 256)

replicate-IsBytes : (n b : ℕ) → b < 256 → IsBytes (replicate n b)
replicate-IsBytes zero b h = tt
replicate-IsBytes (suc n) b h = (h, replicate-IsBytes n b h)

pub hash-IsHash : IsHash hash
hash-IsHash = record {
  size = λ xs. length-replicate 32 (length xs % 256);
  bytes = λ xs. replicate-IsBytes 32 (length xs % 256) (omega arith);
}

abbrev pub checksum : List ℕ → ℕ
checksum xs = length xs * 7 % 256 ^ 4

pub checksum-lt : (xs : List ℕ) → checksum xs < 256 ^ 4
checksum-lt xs = omega arith

abbrev pub nested : Value
nested =
    Value.array (Value.cons (Value.u64 5) (Value.cons (Value.string (b'h' ∷ b'i' ∷ [])) Value.nil))

pub nested-IsValue : IsValue nested
unfolding IsValue is_utf8
nested-IsValue = (omega arith, (omega arith, ((refl, omega arith), tt)))

decode-encode_example :
    Value.decode ((1 ∷ []) ++ Value.encode nested ++ (0 ∷ [])) 1
    ≡ ok (nested, length (Value.encode nested))
decode-encode_example = decode-encode (1 ∷ []) nested (0 ∷ []) nested-IsValue

-- A string whose length says more than the buffer has.
decode-EndsWithin_example :
    EndsWithin
      (Value.tag_string ∷ 9 ∷ 0 ∷ 0 ∷ 0 ∷ b'h' ∷ [])
      0
      0
      (Value.decode (Value.tag_string ∷ 9 ∷ 0 ∷ 0 ∷ 0 ∷ b'h' ∷ []) 0)
decode-EndsWithin_example = decode-EndsWithin (Value.tag_string ∷ 9 ∷ 0 ∷ 0 ∷ 0 ∷ b'h' ∷ []) 0

abbrev pub document : ℕ → IBlob
document version = record {
  id = 7;
  version = version;
  flags = 0;
  hash = no_hash;
  fields = (b'n' ∷ [], nested) ∷ [];
  encoded = none;
  hash_computations = 0;
}

pub document-IsStorable : (version : ℕ) → version < 256 ^ 16 → IsStorable (document version)
unfolding Codec.encode_payload Codec.encode_field Value.encode is_utf8 ingodb.Bytes.to_le_bytes
document-IsStorable version h = record {
  id = omega arith;
  version = h;
  sorted = (tt, tt);
  fields = (record { utf8 = refl; short = omega arith; value = nested-IsValue }, tt);
  count = omega arith;
  payload = omega arith;
}

pub document-IsCoherent : (version : ℕ) → IsCoherent hash (document version)
document-IsCoherent version = record { hash = inl refl; cache = inl refl }

decode-encode_blob_example :
    Codec.decode hash (Codec.encode hash (document 9)).0 ≡ ok (decoded hash (document 9))
decode-encode_blob_example =
    decode-encode_blob hash hash-IsHash (document 9) (document-IsStorable 9 (omega arith))
      (document-IsCoherent 9)

-- The field of a serialised document.
extract_found : extract_field hash (Codec.encode hash (document 9)).0 (b'n' ∷ []) ≡ some (ok nested)
unfolding extract_field Codec.encode ingodb.Bytes.to_le_bytes ingodb.Blob.Id.as_bytes
    ingodb.Bytes.to_be_bytes sort_by ingodb.Base.Sort.place Value.encode ingodb.Bytes.from_le_bytes
    ingodb.Blob.Utf8.from_utf8 is_utf8 Value.decode_fuel Value.decode_tag
    ingodb.Blob.Error.check_len Value.decode_array
extract_found = refl
