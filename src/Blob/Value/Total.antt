-- ===== src/Blob/Value/Total.antt =====
-- `decode` always returns, and what it consumes lies in the buffer.
use ingodb.Base.{
  ℕ, zero, suc, ◌+◌, ◌<◌, ◌≤◌, inl, inr, Bool-cases, leb, leb_false→lt, List, arith, length, get_or,
}
use ingodb.Bytes.{from_le_bytes, slice}
use ingodb.Blob.Utf8.{from_utf8}
use ingodb.Blob.Error.{
  Result, ok, err, out_of_fuel, check_len, Ensures, Ensures-bind, check_len-Ensures,
}
use ingodb.Blob.Value.{
  Value, read_sized, decode_array, decode_fields, decode_tag, decode_string, decode_bytes,
  decode_elements, decode_entries, decode_fuel, decode,
}

-- A read from `pos`, whose count starts at `total`, ends within the buffer.
abbrev pub EndsWithin {ℓ} : {A : Type ℓ} → List ℕ → ℕ → ℕ → Result (A × ℕ) → Type 0
EndsWithin buf pos total = Ensures (λ a. pos + a.1 ≤ total + length buf)

read_sized-Ensures :
    (buf : List ℕ) (pos : ℕ)
    → Ensures (λ _. pos + 4 + from_le_bytes (slice buf pos 4) ≤ length buf) (read_sized buf pos)
read_sized-Ensures buf pos =
    let len = from_le_bytes (slice buf pos 4) in
    let P : Unit {0} → Type 0 = λ _. pos + 4 + len ≤ length buf in
    let Q : List ℕ → Type 0 = λ _. pos + 4 + len ≤ length buf in
    Ensures-bind (λ _. pos + 4 ≤ length buf) Q (check_len buf pos 4) _ (check_len-Ensures buf pos 4)
      (λ _ _.
        Ensures-bind P Q (check_len buf (pos + 4) len) _ (check_len-Ensures buf (pos + 4) len)
          (λ _ h. h))

from_utf8-Ensures : (bs : List ℕ) → Ensures (λ _. Unit) (from_utf8 bs)
unfolding from_utf8
from_utf8-Ensures bs = ground arith

decode_string-EndsWithin : (buf : List ℕ) (pos : ℕ) → EndsWithin buf pos 1 (decode_string buf pos)
decode_string-EndsWithin buf pos =
    let len = from_le_bytes (slice buf pos 4) in
    Ensures-bind (λ _. pos + 4 + len ≤ length buf) _ (read_sized buf pos) _
      (read_sized-Ensures buf pos)
      (λ raw h.
        Ensures-bind (λ _. Unit) _ (from_utf8 raw) _ (from_utf8-Ensures raw) (λ s _. omega arith))

decode_bytes-EndsWithin : (buf : List ℕ) (pos : ℕ) → EndsWithin buf pos 1 (decode_bytes buf pos)
decode_bytes-EndsWithin buf pos =
    let len = from_le_bytes (slice buf pos 4) in
    Ensures-bind (λ _. pos + 4 + len ≤ length buf) _ (read_sized buf pos) _
      (read_sized-Ensures buf pos) (λ raw h. omega arith)

module _ (buf : List ℕ) (dec : ℕ → Result (Value × ℕ)) (fuel : ℕ)
    (ends : (pos : ℕ)
      → pos ≤ length buf
      → length buf < pos + fuel
      → EndsWithin buf pos 0 (dec pos)) where
  decode_array-EndsWithin :
      (n pos total : ℕ)
      → length buf < pos + fuel
      → pos ≤ length buf
      → EndsWithin buf pos total (decode_array dec n pos total)
  unfolding decode_array
  decode_array-EndsWithin zero pos total f h = omega arith
  decode_array-EndsWithin (suc n) pos total f h =
      Ensures-bind (λ a. pos + a.1 ≤ 0 + length buf) _ (dec pos) _ (ends pos h f)
        (λ one h1.
          Ensures-bind (λ a. pos + one.1 + a.1 ≤ total + one.1 + length buf) _
            (decode_array dec n (pos + one.1) (total + one.1)) _
            (decode_array-EndsWithin n (pos + one.1) (total + one.1) (omega arith) (omega arith))
            (λ rest h2. omega arith))

  decode_fields-EndsWithin :
      (n pos total : ℕ)
      → length buf < pos + fuel
      → pos ≤ length buf
      → EndsWithin buf pos total (decode_fields buf dec n pos total)
  unfolding decode_fields
  decode_fields-EndsWithin zero pos total f h = omega arith
  decode_fields-EndsWithin (suc n) pos total f h =
      let len = from_le_bytes (slice buf pos 4) in
      Ensures-bind (λ _. pos + 4 + len ≤ length buf) _ (read_sized buf pos) _
        (read_sized-Ensures buf pos)
        (λ raw h0.
          Ensures-bind (λ _. Unit) _ (from_utf8 raw) _ (from_utf8-Ensures raw)
            (λ key _.
              Ensures-bind (λ a. pos + 4 + len + a.1 ≤ 0 + length buf) _ (dec (pos + 4 + len)) _
                (ends (pos + 4 + len) h0 (omega arith))
                (λ one h1.
                  Ensures-bind
                    (λ a. pos + 4 + len + one.1 + a.1 ≤ total + 4 + len + one.1 + length buf) _
                    (decode_fields buf dec n (pos + 4 + len + one.1) (total + 4 + len + one.1)) _
                    (decode_fields-EndsWithin n (pos + 4 + len + one.1) (total + 4 + len + one.1)
                      (omega arith) (omega arith))
                    (λ rest h2. omega arith))))

  decode_elements-EndsWithin :
      (pos : ℕ) → length buf < pos + fuel → EndsWithin buf pos 1 (decode_elements buf dec pos)
  decode_elements-EndsWithin pos f =
      let n = from_le_bytes (slice buf pos 4) in
      Ensures-bind (λ _. pos + 4 ≤ length buf) _ (check_len buf pos 4) _
        (check_len-Ensures buf pos 4)
        (λ _ h.
          Ensures-bind (λ a. pos + 4 + a.1 ≤ 5 + length buf) _ (decode_array dec n (pos + 4) 5) _
            (decode_array-EndsWithin n (pos + 4) 5 (omega arith) h) (λ a h1. omega arith))

  decode_entries-EndsWithin :
      (pos : ℕ) → length buf < pos + fuel → EndsWithin buf pos 1 (decode_entries buf dec pos)
  decode_entries-EndsWithin pos f =
      let n = from_le_bytes (slice buf pos 4) in
      Ensures-bind (λ _. pos + 4 ≤ length buf) _ (check_len buf pos 4) _
        (check_len-Ensures buf pos 4)
        (λ _ h.
          Ensures-bind (λ a. pos + 4 + a.1 ≤ 5 + length buf) _ (decode_fields buf dec n (pos + 4) 5)
            _ (decode_fields-EndsWithin n (pos + 4) 5 (omega arith) h) (λ a h1. omega arith))

  decode_tag-EndsWithin :
      (tag pos : ℕ)
      → length buf < pos + fuel
      → pos ≤ length buf
      → EndsWithin buf pos 1 (decode_tag buf dec tag pos)
  unfolding decode_tag
  decode_tag-EndsWithin tag pos f h = ground (
    arith,
    check_len-Ensures buf pos 1,
    check_len-Ensures buf pos 8,
    check_len-Ensures buf pos 16,
    decode_string-EndsWithin buf pos,
    decode_bytes-EndsWithin buf pos,
    decode_elements-EndsWithin pos f,
    decode_entries-EndsWithin pos f,
  )

EndsWithin-tag :
    (buf : List ℕ) (offset : ℕ) (r : Result (Value × ℕ))
    → EndsWithin buf (offset + 1) 1 r
    → EndsWithin buf offset 0 r
EndsWithin-tag buf offset (ok a) h = omega arith
EndsWithin-tag buf offset (err e) h = tt
EndsWithin-tag buf offset out_of_fuel h = h

decode_fuel-EndsWithin :
    (fuel : ℕ) (buf : List ℕ) (offset : ℕ)
    → offset ≤ length buf
    → length buf < offset + fuel
    → EndsWithin buf offset 0 (decode_fuel fuel buf offset)
unfolding decode_fuel
decode_fuel-EndsWithin zero buf offset b h = absurd (omega arith)
decode_fuel-EndsWithin (suc fuel) buf offset b h = elim (Bool-cases (leb (length buf) offset)) [
  | inl past ↦ rw past tt
  | inr inside ↦ rw inside (
      EndsWithin-tag buf offset _ (
        decode_tag-EndsWithin buf (decode_fuel fuel buf) fuel (decode_fuel-EndsWithin fuel buf)
          (get_or buf offset 0) (offset + 1) (omega arith)
          (omega (arith, leb_false→lt (length buf) offset inside))))
]

-- Every call of `decode` ends, whatever the bytes: in an error, or in a value whose bytes lie between
-- the offset and the end of the buffer. The fuel never runs out.
pub decode-EndsWithin : (buf : List ℕ) (offset : ℕ) → EndsWithin buf offset 0 (decode buf offset)
unfolding decode
decode-EndsWithin buf offset = elim (Bool-cases (leb (length buf) offset)) [
  | inl past ↦ unfold decode_fuel in rw past tt
  | inr inside ↦
      decode_fuel-EndsWithin (suc (length buf)) buf offset
        (omega (arith, leb_false→lt (length buf) offset inside)) (omega arith)
]
