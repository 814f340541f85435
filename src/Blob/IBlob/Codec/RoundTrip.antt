-- ===== src/Blob/IBlob/Codec/RoundTrip.antt =====
-- A document survives `encode` and `decode`, whatever its cache holds.
use ingodb.Base.{
  ℕ, suc, ◌+◌, ◌*◌, ◌^◌, ◌<◌, ◌≤◌, ◌≡◌, refl, ap, ◌∙◌, ◌⊎◌, inl, inr, true, false, none, some, List,
  [], ◌∷◌, ◌++◌, arith, All, length, length-append, length-take, append-nil, take, drop,
  le→ltb_false, bytes_ord, cmp_bytes_refl, Bool-cases,
}
use ingodb.Base.Maps.{BTreeMap, IsSorted}
use ingodb.Base.Sort.{sort_by, All-sort_by, length-sort_by}
use ingodb.Bytes.{IsBytes, to_le_bytes, slice}
use ingodb.Bytes.Laws.{
  length-to_le_bytes, At, At-append, At-length, At-slice, At-get, At-le_bytes, At-intro, At-drop,
  from_le_bytes-lt, IsBytes-take,
}
use ingodb.Blob.Id.{
  IsId, as_bytes, from_bytes, from-as_bytes, length-as_bytes, magic, format_version,
}
use ingodb.Blob.Value.{Value}
use ingodb.Blob.Error.{ok}
use ingodb.Blob.IBlob.{IBlob, no_hash, same_key}
use ingodb.Blob.IBlob.Codec.{
  by_key_hash, encode_field, encode_payload, encode_hashable, encode_index, read_index,
  index_entries, key_hash, compute_hash, serialize, ensure_hash, encode, decode_body, decode,
  check_hash,
}
use ingodb.Blob.IBlob.Codec.Index.{IsEntry, length-encode_index, read_index-encode_index}
use ingodb.Blob.IBlob.Codec.Fields.{IsField, read_fields-sort_by}

-- What BLAKE3 is documented to return: 32 bytes.
pub record IsHash (blake3 : List ℕ → List ℕ) : Type 0 where
  pub size : (xs : List ℕ) → length (blake3 xs) ≡ 32
  pub bytes : (xs : List ℕ) → IsBytes (blake3 xs)

-- A document that the format can hold.
pub record IsStorable (b : IBlob) : Type 0 where
  pub id : IsId b.id
  pub version : IsId b.version
  pub sorted : IsSorted b.fields
  pub fields : All IsField b.fields
  pub count : length b.fields < 256 ^ 4
  pub payload : length (encode_payload b.fields) < 256 ^ 4

same_key_refl : (xs : List ℕ) → same_key xs xs ≡ true
same_key_refl xs = ground (arith, cmp_bytes_refl xs)

slice_id :
    (buf : List ℕ) (pos id : ℕ)
    → IsId id
    → At buf pos (as_bytes id)
    → from_bytes (slice buf pos 16) ≡ id
slice_id buf pos id w at =
    let e = rw (length-as_bytes id) at (At-slice buf pos (as_bytes id) at) in
    rw (e, from-as_bytes id w)

module _ (blake3 : List ℕ → List ℕ) where
  -- The hash is missing or right, and so is the cache.
  pub record IsCoherent (b : IBlob) : Type 0 where
    pub hash : (b.hash ≡ no_hash) ⊎ (b.hash ≡ blake3 (encode_hashable b))
    pub cache :
        (b.encoded ≡ none)
        ⊎ ((b.encoded ≡ some (serialize blake3 b)) × (b.hash ≡ blake3 (encode_hashable b)))

  -- The document with its hash, and nothing cached, as `decode` builds it.
  unfoldable pub decoded : IBlob → IBlob
  decoded b = record b { hash = blake3 (encode_hashable b); encoded = none; hash_computations = 1 }

  -- Where the parts of a serialised document stand.
  record Layout (b : IBlob) (buf : List ℕ) : Type 0 where
    magic_at : At buf 0 magic
    format_at : At buf 4 (to_le_bytes 2 format_version)
    id_at : At buf 6 (as_bytes b.id)
    version_at : At buf 22 (as_bytes b.version)
    flags_at : At buf 38 (b.flags ∷ [])
    hash_at : At buf 39 b.hash
    count_at : At buf 71 (to_le_bytes 4 (length b.fields))
    index_at : At buf 75 (encode_index (sort_by by_key_hash (index_entries blake3 0 b.fields)))
    payload_at : At (drop (75 + length b.fields * 16) buf) 0 (encode_payload b.fields)
    long : 75 + length b.fields * 16 ≤ length buf

  length-index_entries :
      (offset : ℕ) (fields : BTreeMap (List ℕ) _)
      → length (index_entries blake3 offset fields) ≡ length fields
  unfolding index_entries
  length-index_entries offset [] = refl
  length-index_entries offset ((k, v) ∷ fields) =
      ap suc (length-index_entries (offset + length (encode_field k v)) fields)

  Layout-serialize : (b : IBlob) → length b.hash ≡ 32 → Layout b (serialize blake3 b)
  unfolding serialize
  Layout-serialize b h =
      let index = encode_index (sort_by by_key_hash (index_entries blake3 0 b.fields)) in
      let tail = index ++ encode_payload b.fields in
      let p7 = to_le_bytes 4 (length b.fields) ++ tail in
      let p6 = b.hash ++ p7 in
      let p5 = (b.flags ∷ []) ++ p6 in
      let p4 = as_bytes b.version ++ p5 in
      let p3 = as_bytes b.id ++ p4 in
      let p2 = to_le_bytes 2 format_version ++ p3 in
      let buf = magic ++ p2 in
      let here : At (buf ++ []) 0 buf = At-intro [] buf [] in
      let all : At buf 0 buf = rw append-nil at here in
      let (a1, r1) = At-append buf 0 magic p2 all in
      let (a2, r2) = At-append buf 4 (to_le_bytes 2 format_version) p3 r1 in
      let (a3, r3) =
        At-append buf 6 (as_bytes b.id) p4 (rw (length-to_le_bytes 2 format_version) at r2) in
      let (a4, r4) = At-append buf 22 (as_bytes b.version) p5 (rw (length-as_bytes b.id) at r3) in
      let (a5, r5) = At-append buf 38 (b.flags ∷ []) p6 (rw (length-as_bytes b.version) at r4) in
      let (a6, r6) = At-append buf 39 b.hash p7 r5 in
      let (a7, r7) = At-append buf 71 (to_le_bytes 4 (length b.fields)) tail (rw h at r6) in
      let r7' = rw (length-to_le_bytes 4 (length b.fields)) at r7 in
      let (a8, r8) = At-append buf 75 index (encode_payload b.fields) r7' in
      let n : length index ≡ length b.fields * 16 = omega (
        arith,
        length-encode_index (sort_by by_key_hash (index_entries blake3 0 b.fields)),
        length-sort_by by_key_hash (index_entries blake3 0 b.fields),
        length-index_entries 0 b.fields,
      ) in
      record {
        magic_at = a1;
        format_at = a2;
        id_at = a3;
        version_at = a4;
        flags_at = a5;
        hash_at = a6;
        count_at = a7;
        index_at = a8;
        payload_at = At-drop buf (75 + length b.fields * 16) (encode_payload b.fields) (rw n at r8);
        long = omega (arith, At-length buf 75 index a8);
      }

  module _ (h : IsHash blake3) where
    key_hash-lt : (key : List ℕ) → key_hash blake3 key < 256 ^ 8
    unfolding key_hash
    key_hash-lt key =
        let w =
          from_le_bytes-lt (take 8 (blake3 key)) (IsBytes-take 8 (blake3 key) (h.bytes key)) in
        let n : length (take 8 (blake3 key)) ≡ 8 =
          omega (arith, length-take 8 (blake3 key), h.size key) in
        rw n at w

    index_entries-IsEntry :
        (offset : ℕ) (fields : BTreeMap (List ℕ) Value)
        → offset + length (encode_payload fields) < 256 ^ 4
        → All IsEntry (index_entries blake3 offset fields)
    unfolding index_entries encode_payload
    index_entries-IsEntry offset [] w = tt
    index_entries-IsEntry offset ((k, v) ∷ fields) w =
        let n = length-append (encode_field k v) (encode_payload fields) in
        (
          record { key_hash = key_hash-lt k; offset = omega (arith, n); length = omega (arith, n) },
          index_entries-IsEntry (offset + length (encode_field k v)) fields (omega (arith, n)),
        )

    decode_body-Layout :
        (b : IBlob) (buf : List ℕ)
        → IsStorable b
        → b.hash ≡ blake3 (encode_hashable b)
        → Layout b buf
        → decode_body blake3 buf (length b.fields) ≡ ok (decoded b)
    unfolding decode_body compute_hash check_hash decoded encode_hashable
    decode_body-Layout b buf w e at =
        let es = sort_by by_key_hash (index_entries blake3 0 b.fields) in
        let n : length es ≡ length b.fields = omega (
          arith,
          length-sort_by by_key_hash (index_entries blake3 0 b.fields),
          length-index_entries 0 b.fields,
        ) in
        let entries =
          All-sort_by by_key_hash IsEntry _
            (index_entries-IsEntry 0 b.fields (omega (arith, w.payload))) in
        let index : read_index buf (length b.fields) 75 ≡ es =
          rw n at (read_index-encode_index buf es 75 entries at.index_at) in
        let size : length b.hash ≡ 32 = rw e (h.size (encode_hashable b)) in
        let id : from_bytes (slice buf 6 16) ≡ b.id = slice_id buf 6 b.id w.id at.id_at in
        let version : from_bytes (slice buf 22 16) ≡ b.version =
          slice_id buf 22 b.version w.version at.version_at in
        let hash : slice buf 39 32 ≡ blake3 (encode_hashable b) =
          rw size at (At-slice buf 39 b.hash at.hash_at) ∙ e in
        rw (
          index,
          read_fields-sort_by (drop (75 + length b.fields * 16) buf) (75 + length b.fields * 16)
              (length buf) blake3 by_key_hash b.fields w.fields w.sorted at.payload_at,
          id,
          version,
          At-get buf 38 b.flags [] at.flags_at,
          hash,
          same_key_refl (blake3 (encode_hashable b)),
        )

    decode-Layout :
        (b : IBlob) (buf : List ℕ)
        → IsStorable b
        → b.hash ≡ blake3 (encode_hashable b)
        → Layout b buf
        → decode blake3 buf ≡ ok (decoded b)
    unfolding decode
    decode-Layout b buf w e at =
        rw
          (
            le→ltb_false (length buf) 75 (omega (arith, at.long)),
            At-slice buf 0 magic at.magic_at,
            At-le_bytes buf 4 2 format_version (omega arith) at.format_at,
            At-le_bytes buf 71 4 (length b.fields) w.count at.count_at,
            le→ltb_false (length buf) (75 + length b.fields * 16) at.long,
          )
          (decode_body-Layout b buf w e at)

    right_hash :
        (b : IBlob)
        → (b.hash ≡ no_hash) ⊎ (b.hash ≡ blake3 (encode_hashable b))
        → same_key b.hash no_hash ≡ false
        → b.hash ≡ blake3 (encode_hashable b)
    right_hash b (inl e) f =
        let t : same_key b.hash no_hash ≡ true =
          ap (λ x. same_key x no_hash) e ∙ same_key_refl no_hash in
        cc (t, f)
    right_hash b (inr e) f = e

    -- Hashing makes the hash right, and touches neither the metadata nor the fields.
    ensure_hash_lem :
        (b : IBlob)
        → IsCoherent b
        → ((ensure_hash blake3 b).hash ≡ blake3 (encode_hashable (ensure_hash blake3 b)))
          × (decoded (ensure_hash blake3 b) ≡ decoded b)
          × (IsStorable b → IsStorable (ensure_hash blake3 b))
    unfolding ensure_hash compute_hash decoded encode_hashable
    ensure_hash_lem b c = elim (Bool-cases (same_key b.hash no_hash)) [
      | inl missing ↦ rw missing (
        refl,
        refl,
        λ w. record {
          id = w.id;
          version = w.version;
          sorted = w.sorted;
          fields = w.fields;
          count = w.count;
          payload = w.payload;
        },
      )
      | inr present ↦ rw present (right_hash b c.hash present, refl, λ w. w)
    ]

    serialize-decode :
        (b : IBlob)
        → IsStorable b
        → b.hash ≡ blake3 (encode_hashable b)
        → decode blake3 (serialize blake3 b) ≡ ok (decoded b)
    serialize-decode b w e =
        decode-Layout b (serialize blake3 b) w e
          (Layout-serialize b (rw e (h.size (encode_hashable b))))

    -- The bytes of `encode`: the cache, or the form of the document with its hash.
    pub encode-bytes :
        (b : IBlob)
        → IsCoherent b
        → ((encode blake3 b).0 ≡ serialize blake3 (ensure_hash blake3 b))
          ⊎ (((encode blake3 b).0 ≡ serialize blake3 b) × (b.hash ≡ blake3 (encode_hashable b)))
    unfolding encode
    encode-bytes b c = ground (arith, c.cache)

    -- The document that `decode` returns for the bytes of `encode` has the id, version, flags and fields
    -- of the one that was encoded, its hash, and an empty cache. This holds for a document that the
    -- format can hold, whether its hash and its cache are empty or right, and for a hash of 32 bytes.
    pub decode-encode_blob :
        (b : IBlob)
        → IsStorable b
        → IsCoherent b
        → decode blake3 (encode blake3 b).0 ≡ ok (decoded b)
    decode-encode_blob b w c =
        let (right, same, keep) = ensure_hash_lem b c in
        elim (encode-bytes b c) [
          | inl e ↦ rw e (serialize-decode (ensure_hash blake3 b) (keep w) right ∙ ap ok same)
          | inr p ↦ rw p.0 (serialize-decode b w p.1)
        ]
