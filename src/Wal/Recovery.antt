-- ===== src/Wal/Recovery.antt =====
-- Recovery returns the documents whose records are whole, whatever a crash cut off.
use ingodb.Base.{
  ℕ, zero, suc, ◌+◌, ◌-◌, ◌^◌, ◌<◌, ◌≤◌, ◌≡◌, refl, sym, ◌∙◌, ◌⊎◌, inl, inr, List, [], ◌∷◌, ◌++◌,
  map, arith, All, length, length-append, take, append_assoc, subst, leb, leb→le, leb_false→lt,
  le→ltb_false, if◌then◌else◌, Bool-cases, ==_refl, take-append_le, take-append_lt, length-take,
}
use native.Mathlib.Nat.{add-zero, zero-add}
use ingodb.Bytes.{to_le_bytes, from_le_bytes, slice}
use ingodb.Bytes.Laws.{
  length-to_le_bytes, At, At-append, At-length, At-slice, At-le_bytes, At-intro, At-beyond,
}
use ingodb.Blob.Error.{ok}
use ingodb.Blob.IBlob.{IBlob}
use ingodb.Blob.IBlob.Codec
use ingodb.Wal.{frame, recover_from, recover}

module _ (blake3 : List ℕ → List ℕ) (crc32 : List ℕ → ℕ) where
  -- The bytes of a record with the document that they decode to.
  pub record IsRecord (r : List ℕ × IBlob) : Type 0 where
    pub short : length r.0 < 256 ^ 4
    pub decodes : Codec.decode blake3 r.0 ≡ ok r.1

  unfoldable pub frames : List (List ℕ × IBlob) → List ℕ
  frames [] = []
  frames (r ∷ rs) = frame blake3 crc32 r.0 ++ frames rs

  -- The records that lie whole within the first `n` bytes of the log.
  unfoldable pub whole : ℕ → List (List ℕ × IBlob) → List (List ℕ × IBlob)
  whole n [] = []
  whole n (r ∷ rs) = if leb (8 + length r.0) n then r ∷ whole (n - (8 + length r.0)) rs else []

  -- What is left of the record that the cut falls into.
  torn : ℕ → List (List ℕ × IBlob) → List ℕ
  torn n [] = []
  torn n (r ∷ rs) =
      if leb (8 + length r.0) n
      then torn (n - (8 + length r.0)) rs
      else take n (frame blake3 crc32 r.0)

  pub length-frame : (bs : List ℕ) → length (frame blake3 crc32 bs) ≡ 8 + length bs
  unfolding frame
  length-frame bs = omega (
    arith,
    length-append (to_le_bytes 4 (length bs)) (to_le_bytes 4 (crc32 bs) ++ bs),
    length-append (to_le_bytes 4 (crc32 bs)) bs,
    length-to_le_bytes 4 (length bs),
    length-to_le_bytes 4 (crc32 bs),
  )

  take-frames :
      (n : ℕ) (rs : List (List ℕ × IBlob)) → take n (frames rs) ≡ frames (whole n rs) ++ torn n rs
  unfolding frames whole torn
  take-frames zero [] = refl
  take-frames (suc n) [] = refl
  take-frames n (r ∷ rs) = elim (Bool-cases (leb (8 + length r.0) n)) [
    | inl fits ↦
        let k = length-frame r.0 in
        rw fits (
          take-append_le (frame blake3 crc32 r.0) (frames rs) n (omega (arith, k, leb→le _ n fits))
          ∙ rw (k, take-frames (n - (8 + length r.0)) rs)
              (sym (append_assoc (frame blake3 crc32 r.0) _ _)))
    | inr cut ↦ rw cut (
        take-append_lt (frame blake3 crc32 r.0) (frames rs) n
          (omega (arith, length-frame r.0, leb_false→lt _ n cut)))
  ]

  -- The log ends before a record that would start at `offset`.
  Stops : List ℕ → ℕ → Type 0
  Stops file offset =
      (length file < offset + 8) ⊎ (length file < offset + 8 + from_le_bytes (slice file offset 4))

  recover_from-Stops :
      (fuel : ℕ) (file : List ℕ) (offset : ℕ)
      → Stops file offset
      → recover_from blake3 crc32 fuel file offset ≡ []
  unfolding recover_from Stops
  recover_from-Stops zero file offset s = refl
  recover_from-Stops (suc fuel) file offset (inl s) = ground arith
  recover_from-Stops (suc fuel) file offset (inr s) = ground arith

  module _ (crc-lt : (xs : List ℕ) → crc32 xs < 256 ^ 4) where
    -- A whole record is recovered, and the loop goes on behind it.
    recover_from-frame :
        (fuel : ℕ) (file : List ℕ) (offset : ℕ) (r : List ℕ × IBlob)
        → IsRecord r
        → At file offset (frame blake3 crc32 r.0)
        → recover_from blake3 crc32 (suc fuel) file offset
          ≡ r.1 ∷ recover_from blake3 crc32 fuel file (offset + (8 + length r.0))
    unfolding recover_from frame
    recover_from-frame fuel file offset r w at =
        let bs = r.0 in
        let (l, x) =
          At-append file offset (to_le_bytes 4 (length bs)) (to_le_bytes 4 (crc32 bs) ++ bs) at in
        let x' = rw (length-to_le_bytes 4 (length bs)) at x in
        let (c, y) = At-append file (offset + 4) (to_le_bytes 4 (crc32 bs)) bs x' in
        let four : offset + 4 + length (to_le_bytes 4 (crc32 bs)) ≡ offset + 8 =
          omega (arith, length-to_le_bytes 4 (crc32 bs)) in
        let y' = rw four at y in
        let long = At-length file (offset + 8) bs y' in
        rw (
          At-le_bytes file offset 4 (length bs) w.short l,
          At-le_bytes file (offset + 4) 4 (crc32 bs) (crc-lt bs) c,
          At-slice file (offset + 8) bs y',
          le→ltb_false (length file) (offset + 8) (omega arith),
          le→ltb_false (length file) (offset + 8 + length bs) long,
          ==_refl (crc32 bs),
          w.decodes,
        )

    recover_from-frames :
        (rs : List (List ℕ × IBlob)) (fuel : ℕ) (file : List ℕ) (offset : ℕ)
        → length rs < fuel
        → All IsRecord rs
        → At file offset (frames rs)
        → Stops file (offset + length (frames rs))
        → recover_from blake3 crc32 fuel file offset ≡ map (λ r. r.1) rs
    unfolding frames Stops
    recover_from-frames [] fuel file offset f w at s =
        recover_from-Stops fuel file offset (rw add-zero at s)
    recover_from-frames (r ∷ rs) zero file offset f w at s = absurd (omega arith)
    recover_from-frames (r ∷ rs) (suc fuel) file offset f w at s =
        let (one, rest) = At-append file offset (frame blake3 crc32 r.0) (frames rs) at in
        let rest' = rw (length-frame r.0) at rest in
        let e : offset + length (frame blake3 crc32 r.0 ++ frames rs)
            ≡ offset + (8 + length r.0) + length (frames rs) =
          omega (arith, length-append (frame blake3 crc32 r.0) (frames rs), length-frame r.0) in
        let s' : Stops file (offset + (8 + length r.0) + length (frames rs)) = rw e at s in
        rw (
          recover_from-frame fuel file offset r w.0 one,
          recover_from-frames rs fuel file (offset + (8 + length r.0)) (omega arith) w.1 rest' s',
        )

    torn_cut :
        (pre : List ℕ) (n : ℕ) (bs : List ℕ)
        → length bs < 256 ^ 4
        → n < 8 + length bs
        → Stops (pre ++ take n (frame blake3 crc32 bs)) (length pre)
    unfolding Stops frame
    torn_cut pre n bs w h =
        let body = to_le_bytes 4 (crc32 bs) ++ bs in
        let cut = take n (frame blake3 crc32 bs) in
        let size : length (pre ++ cut) ≡ length pre + n =
          omega (
            arith,
            length-append pre cut,
            length-take n (frame blake3 crc32 bs),
            length-frame bs,
          ) in
        elim (Bool-cases (leb 8 n)) [
          | inl long ↦
              let four = length-to_le_bytes 4 (length bs) in
              let e : cut
                  ≡ to_le_bytes 4 (length bs)
                    ++ take (n - length (to_le_bytes 4 (length bs))) body =
                take-append_le (to_le_bytes 4 (length bs)) body n
                  (omega (arith, leb→le 8 n long, four)) in
              let at : At (pre ++ cut) (length pre) cut = At-beyond pre cut in
              let at' : At (pre ++ cut) (length pre) (
                  to_le_bytes 4 (length bs) ++ take (n - length (to_le_bytes 4 (length bs))) body) =
                subst (λ t. At (pre ++ cut) (length pre) t) e at in
              let l = (At-append (pre ++ cut) (length pre) (to_le_bytes 4 (length bs)) _ at').0 in
              let v = At-le_bytes (pre ++ cut) (length pre) 4 (length bs) w l in
              inr (omega (arith, v))
          | inr tiny ↦ inl (omega (arith, leb_false→lt 8 n tiny))
        ]

    torn-Stops :
        (pre : List ℕ) (n : ℕ) (rs : List (List ℕ × IBlob))
        → All IsRecord rs
        → Stops (pre ++ torn n rs) (length pre)
    unfolding torn
    torn-Stops pre n [] w = unfold Stops in inl (omega (arith, length-append {0} pre []))
    torn-Stops pre n (r ∷ rs) w = elim (Bool-cases (leb (8 + length r.0) n)) [
      | inl fits ↦ rw fits (torn-Stops pre (n - (8 + length r.0)) rs w.1)
      | inr cut ↦ rw cut (torn_cut pre n r.0 w.0.short (leb_false→lt _ n cut))
    ]

    whole-IsRecord :
        (n : ℕ) (rs : List (List ℕ × IBlob)) → All IsRecord rs → All IsRecord (whole n rs)
    unfolding whole
    whole-IsRecord n [] w = tt
    whole-IsRecord n (r ∷ rs) w = ground (arith, whole-IsRecord (n - (8 + length r.0)) rs)

    length-frames : (rs : List (List ℕ × IBlob)) → length rs ≤ length (frames rs)
    unfolding frames
    length-frames [] = omega arith
    length-frames (r ∷ rs) = omega (
      arith,
      length-append (frame blake3 crc32 r.0) (frames rs),
      length-frame r.0,
      length-frames rs,
    )

    -- A log cut off anywhere: recovery returns the documents of the records that are whole, in their
    -- order, and nothing else. Here the log is written records, each of fewer than 2^32 bytes.
    pub recover-take :
        (n : ℕ) (rs : List (List ℕ × IBlob))
        → All IsRecord rs
        → recover blake3 crc32 (take n (frames rs)) ≡ map (λ r. r.1) (whole n rs)
    unfolding recover
    recover-take n rs w =
        let ws = whole n rs in
        let pre = frames ws in
        let file = pre ++ torn n rs in
        rw (take-frames n rs) (
          recover_from-frames ws (suc (length file)) file 0
            (omega (arith, length-append pre (torn n rs), length-frames ws)) (whole-IsRecord n rs w)
            (At-intro [] pre (torn n rs)) (rw zero-add (torn-Stops pre n rs w)))
