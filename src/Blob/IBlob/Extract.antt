-- ===== src/Blob/IBlob/Extract.antt =====
-- crates/ingodb-blob/src/iblob.rs, `extract_field`: one field of a serialised document, by a binary search
-- in its index.
--
-- The code slices the buffer without a test, and panics past its end: `none`. The search runs on fuel,
-- of which the length of the index is enough, since each round halves what is left.
use ingodb.Base.{
  ℕ, zero, suc, ◌+◌, ◌-◌, ◌*◌, ◌/◌, ◌==◌, true, false, Option, none, some, List, length, ltb,
  if◌then◌else◌,
}
use ingodb.Bytes.{slice, from_le_bytes}
use ingodb.Blob.Error.{Result, ok, err, buffer_too_short, field_not_found, ◌>>=◌}
use ingodb.Blob.Utf8.{from_utf8}
use ingodb.Blob.Value
use ingodb.Blob.Value.{Value}
use ingodb.Blob.IBlob.{same_key}
use ingodb.Blob.IBlob.Codec.{header_size, index_entry_size, read_entry, key_hash}

-- `buf[start..start + n]`
abbrev pub slice_or_panic : List ℕ → ℕ → ℕ → Option (List ℕ)
slice_or_panic buf start n = if ltb (length buf) (start + n) then none else some (slice buf start n)

abbrev pub base_of : ℕ → ℕ
base_of i = header_size + i * index_entry_size

-- The key hash of an entry of the index.
abbrev pub hash_at : List ℕ → ℕ → Option ℕ
hash_at buf i = elim (slice_or_panic buf (base_of i) 8) [
  | none ↦ none
  | some bytes ↦ some (from_le_bytes bytes)
]

-- The first entry whose hash is not below the target, among those from `lo` to `hi`.
unfoldable pub search_index : ℕ → List ℕ → ℕ → ℕ → ℕ → Option ℕ
search_index zero buf target lo hi = some lo
search_index (suc fuel) buf target lo hi =
    let mid = lo + (hi - lo) / 2 in
    elim (ltb lo hi) [
      | false ↦ some lo
      | true ↦ elim (hash_at buf mid) [
        | none ↦ none
        | some kh ↦ elim (ltb kh target) [
          | true ↦ search_index fuel buf target (mid + 1) hi
          | false ↦ search_index fuel buf target lo mid
        ]
      ]
    ]

-- The bytes of the field that an entry points to.
unfoldable pub field_at : List ℕ → ℕ → ℕ → Option (List ℕ)
unfolding read_entry
field_at buf index_end i =
    let e = read_entry buf (base_of i) in
    if ltb (length buf) (base_of i + index_entry_size)
    then none
    else slice_or_panic buf (index_end + e.offset) e.length

-- The key of the field, and where its value starts.
unfoldable pub key_at : List ℕ → Option (Result (List ℕ) × ℕ)
key_at field_data = elim (slice_or_panic field_data 0 4) [
  | none ↦ none
  | some bytes ↦ elim (slice_or_panic field_data 4 (from_le_bytes bytes)) [
    | none ↦ none
    | some key ↦ some (from_utf8 key, 4 + from_le_bytes bytes)
  ]
]

-- The value of the field if the key is the name, else what the entries behind it give.
abbrev pub value_or :
    List ℕ → List ℕ → Option (Result (List ℕ) × ℕ) → Option (Result Value) → Option (Result Value)
value_or field_name field_data none rest = none
value_or field_name field_data (some (Result.ok key, start)) rest =
    if same_key key field_name
    then some (Value.decode field_data start >>= (λ one. ok one.0))
    else rest
value_or field_name field_data (some (Result.err e, start)) rest = some (err e)
value_or field_name field_data (some (Result.out_of_fuel, start)) rest = some Result.out_of_fuel

-- The loop over the entries with the hash, of which several keys can have the same.
unfoldable pub match_entries : ℕ → List ℕ → List ℕ → ℕ → ℕ → ℕ → Option (Result Value)
unfolding field_at key_at Value.decode
match_entries zero buf field_name target index_end lo = some (err (field_not_found target))
match_entries (suc left) buf field_name target index_end lo =
    let rest = match_entries left buf field_name target index_end (lo + 1) in
    elim (hash_at buf lo) [
      | none ↦ none
      | some kh ↦ elim (kh == target) [
        | false ↦ some (err (field_not_found target))
        | true ↦ elim (field_at buf index_end lo) [
          | none ↦ none
          | some field_data ↦ value_or field_name field_data (key_at field_data) rest
        ]
      ]
    ]

module _ (blake3 : List ℕ → List ℕ) where
  unfoldable pub extract_field : List ℕ → List ℕ → Option (Result Value)
  unfolding search_index match_entries
  extract_field buf field_name =
      let index_count = from_le_bytes (slice buf 71 4) in
      let index_end = header_size + index_count * index_entry_size in
      let target = key_hash blake3 field_name in
      if ltb (length buf) header_size
      then some (err (buffer_too_short header_size (length buf)))
      else elim (search_index index_count buf target 0 index_count) [
        | none ↦ none
        | some lo ↦ match_entries (index_count - lo) buf field_name target index_end lo
      ]
