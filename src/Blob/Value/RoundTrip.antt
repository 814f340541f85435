-- ===== src/Blob/Value/RoundTrip.antt =====
-- `decode` reads back what `encode` wrote, wherever it stands in a buffer.
use ingodb.Base.{
  ℕ, zero, suc, ◌+◌, ◌^◌, ◌<◌, ◌≤◌, ◌≡◌, ap, List, [], ◌∷◌, ◌++◌, arith, length, length-append,
  if◌then◌else◌, le→ltb_false, lt→leb_false,
}
use ingodb.Bytes.{to_le_bytes, from_le_bytes, slice}
use ingodb.Bytes.Laws.{
  length-to_le_bytes, At, At-append, At-length, At-slice, At-get, At-le_bytes, At-intro,
}
use ingodb.Blob.Id.{as_bytes, IsId, from-as_bytes, length-as_bytes}
use ingodb.Blob.Utf8.{from_utf8}
use ingodb.Blob.Error.{Result, ok, check_len}
use ingodb.Blob.Value.{
  Value, null, bool, i64, u64, f64, string, bytes, uuid, array, document, Values, nil, cons, Fields,
  end, field, encode, encode_array, encode_fields, count, count_fields, with_length, read_sized,
  decode_array, decode_fields, decode_tag, decode_word, decode_uuid, decode_fuel, decode, IsValue,
  AreValues, AreFields,
}
use ingodb.Blob.Value.Size.{depth, depth_array, depth_fields, depth-lt-encode}

pub check_len-ok : (buf : List ℕ) (pos n : ℕ) → pos + n ≤ length buf → check_len buf pos n ≡ ok tt
unfolding check_len
check_len-ok buf pos n h = rw (le→ltb_false (length buf) (pos + n) h)

-- A length prefix and the bytes behind it are read back.
pub read_sized-with_length :
    (buf : List ℕ) (pos : ℕ) (bs : List ℕ)
    → length bs < 256 ^ 4
    → At buf pos (with_length bs)
    → (from_le_bytes (slice buf pos 4) ≡ length bs) × (read_sized buf pos ≡ ok bs)
read_sized-with_length buf pos bs h at =
    let (l, r) = At-append buf pos (to_le_bytes 4 (length bs)) bs at in
    let e = At-le_bytes buf pos 4 (length bs) h l in
    let r' : At buf (pos + 4) bs = rw (length-to_le_bytes 4 (length bs)) at r in
    let b = At-length buf (pos + 4) bs r' in
    (
      e,
      rw (
        check_len-ok buf pos 4 (omega arith),
        e,
        check_len-ok buf (pos + 4) (length bs) b,
        At-slice buf (pos + 4) bs r',
      ),
    )

pub length-with_length : (bs : List ℕ) → length (with_length bs) ≡ 4 + length bs
length-with_length bs =
    omega (arith, length-append (to_le_bytes 4 (length bs)) bs, length-to_le_bytes 4 (length bs))

-- A decoder of one value that reads every encoding of a bounded depth.
abbrev Reads : List ℕ → (ℕ → Result (Value × ℕ)) → ℕ → Type 0
Reads buf dec fuel =
    (v : Value) (pos : ℕ)
    → depth v < fuel
    → IsValue v
    → At buf pos (encode v)
    → dec pos ≡ ok (v, length (encode v))

module _ (buf : List ℕ) (dec : ℕ → Result (Value × ℕ)) (fuel : ℕ) (reads : Reads buf dec fuel) where
  decode_array-encode :
      (vs : Values) (pos total : ℕ)
      → depth_array vs < fuel
      → AreValues vs
      → At buf pos (encode_array vs)
      → decode_array dec (count vs) pos total ≡ ok (vs, total + length (encode_array vs))
  unfolding decode_array encode_array depth_array AreValues
  decode_array-encode nil pos total d w at = ap (λ t. ok (nil, t)) (omega arith)
  decode_array-encode (cons v vs) pos total d w at =
      let (l, r) = At-append buf pos (encode v) (encode_array vs) at in
      rw
        (
          reads v pos (omega arith) w.0 l,
          decode_array-encode vs (pos + length (encode v)) (total + length (encode v)) (omega arith)
              w.1 r,
        )
        (ap (λ t. ok (cons v vs, t)) (omega (arith, length-append (encode v) (encode_array vs))))

  decode_fields-encode :
      (fs : Fields) (pos total : ℕ)
      → depth_fields fs < fuel
      → AreFields fs
      → At buf pos (encode_fields fs)
      → decode_fields buf dec (count_fields fs) pos total
        ≡ ok (fs, total + length (encode_fields fs))
  unfolding decode_fields encode_fields depth_fields AreFields from_utf8
  decode_fields-encode end pos total d w at = ap (λ t. ok (end, t)) (omega arith)
  decode_fields-encode (field k v fs) pos total d w at =
      let (l, r) = At-append buf pos (with_length k) (encode v ++ encode_fields fs) at in
      let (e, raw) = read_sized-with_length buf pos k w.1 l in
      let q : pos + length (with_length k) ≡ pos + 4 + length k =
        omega (arith, length-with_length k) in
      let r' : At buf (pos + 4 + length k) (encode v ++ encode_fields fs) = rw q at r in
      let (lv, rv) = At-append buf (pos + 4 + length k) (encode v) (encode_fields fs) r' in
      rw
        (
          raw,
          e,
          w.0,
          reads v (pos + 4 + length k) (omega arith) w.2 lv,
          decode_fields-encode fs (pos + 4 + length k + length (encode v))
              (total + 4 + length k + length (encode v)) (omega arith) w.3 rv,
        )
        (ap (λ t. ok (field k v fs, t))
          (omega (
            arith,
            length-append (with_length k) (encode v ++ encode_fields fs),
            length-append (encode v) (encode_fields fs),
            length-with_length k,
          )))

-- The tag is read, and what follows is left to its case.
decode_fuel-tag :
    (fuel : ℕ) (buf : List ℕ) (pos t : ℕ) (xs : List ℕ)
    → At buf pos (t ∷ xs)
    → (decode_fuel (suc fuel) buf pos ≡ decode_tag buf (decode_fuel fuel buf) t (pos + 1))
      × At buf (pos + 1) xs
      × (pos + 1 + length xs ≤ length buf)
unfolding decode_fuel
decode_fuel-tag fuel buf pos t xs at =
    let b : pos + 1 + length xs ≤ length buf = omega (arith, At-length buf pos (t ∷ xs) at) in
    (
      rw (lt→leb_false (length buf) pos (omega arith), At-get buf pos t xs at),
      (At-append buf pos (t ∷ []) xs at).1,
      b,
    )

-- A count and what follows it.
At-count :
    (buf : List ℕ) (pos n : ℕ) (xs : List ℕ)
    → n < 256 ^ 4
    → At buf pos (to_le_bytes 4 n ++ xs)
    → (from_le_bytes (slice buf pos 4) ≡ n) × At buf (pos + 4) xs
At-count buf pos n xs h at =
    let (l, r) = At-append buf pos (to_le_bytes 4 n) xs at in
    (At-le_bytes buf pos 4 n h l, rw (length-to_le_bytes 4 n) at r)

-- The three cases of eight bytes.
decode_word-encode :
    (make : ℕ → Value) (buf : List ℕ) (pos v : ℕ)
    → v < 256 ^ 8
    → At buf pos (to_le_bytes 8 v)
    → decode_word make buf pos ≡ ok (make v, 9)
decode_word-encode make buf pos v h at = rw (
  check_len-ok buf pos 8
      (omega (arith, At-length buf pos (to_le_bytes 8 v) at, length-to_le_bytes 8 v)),
  At-le_bytes buf pos 8 v h at,
)

decode_uuid-encode :
    (buf : List ℕ) (pos id : ℕ)
    → IsId id
    → At buf pos (as_bytes id)
    → decode_uuid buf pos ≡ ok (uuid id, 17)
decode_uuid-encode buf pos id h at =
    let e = rw (length-as_bytes id) at (At-slice buf pos (as_bytes id) at) in
    rw (
      check_len-ok buf pos 16
          (omega (arith, At-length buf pos (as_bytes id) at, length-as_bytes id)),
      e,
      from-as_bytes id h,
    )

-- A value at any offset is read back, with the number of its bytes.
pub decode_fuel-encode : (fuel : ℕ) (buf : List ℕ) → Reads buf (decode_fuel fuel buf) fuel
unfolding encode decode_tag depth IsValue from_utf8
decode_fuel-encode zero buf v pos d w at = absurd (omega arith)
decode_fuel-encode (suc fuel) buf null pos d w at = rw (decode_fuel-tag fuel buf pos 0 [] at).0
decode_fuel-encode (suc fuel) buf (bool b) pos d w at =
    let bit : ℕ = if b then 1 else 0 in
    let (e, r, l) = decode_fuel-tag fuel buf pos 1 (bit ∷ []) at in
    rw (e, check_len-ok buf (pos + 1) 1 (omega arith), At-get buf (pos + 1) bit [] r) (ground arith)
decode_fuel-encode (suc fuel) buf (i64 v) pos d w at =
    let (e, r, _) = decode_fuel-tag fuel buf pos 2 (to_le_bytes 8 v) at in
    rw (e, decode_word-encode i64 buf (pos + 1) v w r, length-to_le_bytes 8 v)
decode_fuel-encode (suc fuel) buf (u64 v) pos d w at =
    let (e, r, _) = decode_fuel-tag fuel buf pos 3 (to_le_bytes 8 v) at in
    rw (e, decode_word-encode u64 buf (pos + 1) v w r, length-to_le_bytes 8 v)
decode_fuel-encode (suc fuel) buf (f64 v) pos d w at =
    let (e, r, _) = decode_fuel-tag fuel buf pos 4 (to_le_bytes 8 v) at in
    rw (e, decode_word-encode f64 buf (pos + 1) v w r, length-to_le_bytes 8 v)
decode_fuel-encode (suc fuel) buf (string s) pos d w at =
    let (e, r, _) = decode_fuel-tag fuel buf pos 5 (with_length s) at in
    let (n, raw) = read_sized-with_length buf (pos + 1) s w.1 r in
    rw (e, raw, w.0, n) (ap (λ t. ok (string s, t)) (omega (arith, length-with_length s)))
decode_fuel-encode (suc fuel) buf (bytes b) pos d w at =
    let (e, r, _) = decode_fuel-tag fuel buf pos 6 (with_length b) at in
    let (n, raw) = read_sized-with_length buf (pos + 1) b w r in
    rw (e, raw, n) (ap (λ t. ok (bytes b, t)) (omega (arith, length-with_length b)))
decode_fuel-encode (suc fuel) buf (uuid id) pos d w at =
    let (e, r, _) = decode_fuel-tag fuel buf pos 7 (as_bytes id) at in
    rw (e, decode_uuid-encode buf (pos + 1) id w r, length-as_bytes id)
decode_fuel-encode (suc fuel) buf (array arr) pos d w at =
    let (e, r, l) =
      decode_fuel-tag fuel buf pos 8 (to_le_bytes 4 (count arr) ++ encode_array arr) at in
    let (c, body) = At-count buf (pos + 1) (count arr) (encode_array arr) w.0 r in
    let n = length-append (to_le_bytes 4 (count arr)) (encode_array arr) in
    let four = length-to_le_bytes 4 (count arr) in
    rw
      (
        e,
        check_len-ok buf (pos + 1) 4 (omega (arith, n, four)),
        c,
        decode_array-encode buf (decode_fuel fuel buf) fuel (decode_fuel-encode fuel buf) arr
            (pos + 1 + 4) 5 (omega arith) w.1 body,
      )
      (ap (λ t. ok (array arr, t)) (omega (arith, n, four)))
decode_fuel-encode (suc fuel) buf (document fs) pos d w at =
    let (e, r, l) =
      decode_fuel-tag fuel buf pos 9 (to_le_bytes 4 (count_fields fs) ++ encode_fields fs) at in
    let (c, body) = At-count buf (pos + 1) (count_fields fs) (encode_fields fs) w.0 r in
    let n = length-append (to_le_bytes 4 (count_fields fs)) (encode_fields fs) in
    let four = length-to_le_bytes 4 (count_fields fs) in
    rw
      (
        e,
        check_len-ok buf (pos + 1) 4 (omega (arith, n, four)),
        c,
        decode_fields-encode buf (decode_fuel fuel buf) fuel (decode_fuel-encode fuel buf) fs
            (pos + 1 + 4) 5 (omega arith) w.1 body,
      )
      (ap (λ t. ok (document fs, t)) (omega (arith, n, four)))

pub decode-At :
    (buf : List ℕ) (pos : ℕ) (v : Value)
    → IsValue v
    → At buf pos (encode v)
    → decode buf pos ≡ ok (v, length (encode v))
unfolding decode
decode-At buf pos v w at =
    decode_fuel-encode (suc (length buf)) buf v pos
      (omega (arith, depth-lt-encode v, At-length buf pos (encode v) at)) w at

-- A value that the format can hold, as `encode` wrote it, at any offset of any buffer, is what `decode` returns, with the
-- number of the bytes that were written.
pub decode-encode :
    (pre : List ℕ) (v : Value) (post : List ℕ)
    → IsValue v
    → decode (pre ++ encode v ++ post) (length pre) ≡ ok (v, length (encode v))
decode-encode pre v post w =
    decode-At (pre ++ encode v ++ post) (length pre) v w (At-intro pre (encode v) post)
