-- ===== src/Bytes/Laws.antt =====
-- Reading back what was written: fixed-width integers and slices.
use Prim.Native.Nat.add
use native.Mathlib.Nat.{pow-suc}
use ingodb.Base.{
  ℕ, zero, suc, ◌+◌, ◌*◌, ◌/◌, ◌%◌, ◌^◌, ◌≤◌, ◌<◌, ◌≡◌, refl, ap, List, [], ◌∷◌, ◌++◌, append-nil,
  arith, length, take, drop, get_or,
}
use ingodb.Bytes.{IsBytes, to_le_bytes, from_le_bytes, to_be_bytes, from_be_bytes, slice}

pub length-to_le_bytes : (n v : ℕ) → length (to_le_bytes n v) ≡ n
unfolding to_le_bytes
length-to_le_bytes zero v = refl
length-to_le_bytes (suc n) v = ap suc (length-to_le_bytes n (v / 256))

pub to_le_bytes-IsBytes : (n v : ℕ) → IsBytes (to_le_bytes n v)
unfolding to_le_bytes
to_le_bytes-IsBytes zero v = tt
to_le_bytes-IsBytes (suc n) v = (omega arith, to_le_bytes-IsBytes n (v / 256))

pub from-to_le_bytes : (n v : ℕ) → v < 256 ^ n → from_le_bytes (to_le_bytes n v) ≡ v
unfolding to_le_bytes from_le_bytes
from-to_le_bytes zero v h = omega arith
from-to_le_bytes (suc n) v h =
    let k : 256 ^ suc n ≡ 256 ^ n * 256 = pow-suc 256 n in
    omega (arith, from-to_le_bytes n (v / 256) (omega arith))

-- The bytes `xs` stand in the buffer at `pos`.
abbrev pub IsPrefix : List ℕ → List ℕ → Type 0
IsPrefix [] buf = Unit
IsPrefix (x ∷ xs) [] = ⊥
IsPrefix (x ∷ xs) (b ∷ buf) = (b ≡ x) × IsPrefix xs buf

abbrev pub At : List ℕ → ℕ → List ℕ → Type 0
At buf zero xs = IsPrefix xs buf
At [] (suc pos) xs = ⊥
At (b ∷ buf) (suc pos) xs = At buf pos xs

IsPrefix-append :
    (xs ys buf : List ℕ) → IsPrefix (xs ++ ys) buf → IsPrefix xs buf × At buf (length xs) ys
IsPrefix-append [] ys buf h = (tt, h)
IsPrefix-append (x ∷ xs) ys [] h = absurd h
IsPrefix-append (x ∷ xs) ys (b ∷ buf) h =
    let (p, q) = IsPrefix-append xs ys buf h.1 in ((h.0, p), q)

-- What stands at `pos` falls into its parts.
pub At-append :
    (buf : List ℕ) (pos : ℕ) (xs ys : List ℕ)
    → At buf pos (xs ++ ys)
    → At buf pos xs × At buf (pos + length xs) ys
At-append buf zero xs ys h = rw add.zero (IsPrefix-append xs ys buf h)
At-append [] (suc pos) xs ys h = absurd h
At-append (b ∷ buf) (suc pos) xs ys h = rw add.suc (At-append buf pos xs ys h)

IsPrefix-intro : (xs ys : List ℕ) → IsPrefix xs (xs ++ ys)
IsPrefix-intro [] ys = tt
IsPrefix-intro (x ∷ xs) ys = (refl, IsPrefix-intro xs ys)

pub At-intro : (pre xs post : List ℕ) → At (pre ++ xs ++ post) (length pre) xs
At-intro [] xs post = IsPrefix-intro xs post
At-intro (b ∷ pre) xs post = At-intro pre xs post

IsPrefix-length : (xs buf : List ℕ) → IsPrefix xs buf → length xs ≤ length buf
IsPrefix-length [] buf h = omega arith
IsPrefix-length (x ∷ xs) [] h = absurd h
IsPrefix-length (x ∷ xs) (b ∷ buf) h = omega (arith, IsPrefix-length xs buf h.1)

pub At-length :
    (buf : List ℕ) (pos : ℕ) (xs : List ℕ) → At buf pos xs → pos + length xs ≤ length buf
At-length buf zero xs h = omega (arith, IsPrefix-length xs buf h)
At-length [] (suc pos) xs h = absurd h
At-length (b ∷ buf) (suc pos) xs h = omega (arith, At-length buf pos xs h)

IsPrefix-take : (xs buf : List ℕ) → IsPrefix xs buf → take (length xs) buf ≡ xs
IsPrefix-take [] buf h = refl
IsPrefix-take (x ∷ xs) [] h = absurd h
IsPrefix-take (x ∷ xs) (b ∷ buf) h = cc (h.0, IsPrefix-take xs buf h.1)

pub At-slice :
    (buf : List ℕ) (pos : ℕ) (xs : List ℕ) → At buf pos xs → slice buf pos (length xs) ≡ xs
At-slice buf zero xs h = IsPrefix-take xs buf h
At-slice [] (suc pos) xs h = absurd h
At-slice (b ∷ buf) (suc pos) xs h = At-slice buf pos xs h

pub At-get : (buf : List ℕ) (pos x : ℕ) (xs : List ℕ) → At buf pos (x ∷ xs) → get_or buf pos 0 ≡ x
At-get [] zero x xs h = absurd h
At-get (b ∷ buf) zero x xs h = h.0
At-get [] (suc pos) x xs h = absurd h
At-get (b ∷ buf) (suc pos) x xs h = At-get buf pos x xs h

-- A fixed-width integer is read back from where it stands.
pub At-le_bytes :
    (buf : List ℕ) (pos n v : ℕ)
    → v < 256 ^ n
    → At buf pos (to_le_bytes n v)
    → from_le_bytes (slice buf pos n) ≡ v
At-le_bytes buf pos n v h at =
    let e = rw (length-to_le_bytes n v) at (At-slice buf pos (to_le_bytes n v) at) in
    rw e (from-to_le_bytes n v h)

pub length-to_be_bytes : (n v : ℕ) → length (to_be_bytes n v) ≡ n
unfolding to_be_bytes
length-to_be_bytes zero v = refl
length-to_be_bytes (suc n) v = ap suc (length-to_be_bytes n (v % 256 ^ n))

-- The leading digit of a number of `n + 1` base-256 digits.
pub leading_digit :
    (p v : ℕ) → 0 < p → v < 256 * p → (v / p < 256) × (v ≡ v / p * p + v % p) × (v % p < p)
leading_digit p v h k = grind arith

pub pow-pos : (n : ℕ) → 0 < 256 ^ n
pow-pos zero = omega arith
pow-pos (suc n) = omega (arith, pow-suc 256 n, pow-pos n)

shift_digit : (p acc q r v : ℕ) → v ≡ q * p + r → (acc * 256 + q) * p + r ≡ acc * (p * 256) + v
shift_digit p acc q r v h = omega arith

pub from-to_be_bytes :
    (n v acc : ℕ) → v < 256 ^ n → from_be_bytes (to_be_bytes n v) acc ≡ acc * 256 ^ n + v
unfolding to_be_bytes from_be_bytes
from-to_be_bytes zero v acc h = omega arith
from-to_be_bytes (suc n) v acc h =
    let k : 256 ^ suc n ≡ 256 ^ n * 256 = pow-suc 256 n in
    let d = leading_digit (256 ^ n) v (pow-pos n) (omega arith) in
    let e : v / 256 ^ n % 256 ≡ v / 256 ^ n = omega arith in
    rw (e, from-to_be_bytes n (v % 256 ^ n) (acc * 256 + v / 256 ^ n) d.2, k)
      (shift_digit (256 ^ n) acc (v / 256 ^ n) (v % 256 ^ n) v d.1)

pub At-drop : (buf : List ℕ) (pos : ℕ) (xs : List ℕ) → At buf pos xs → At (drop pos buf) 0 xs
At-drop buf zero xs h = h
At-drop [] (suc pos) xs h = absurd h
At-drop (b ∷ buf) (suc pos) xs h = At-drop buf pos xs h

pub from_le_bytes-lt : (bs : List ℕ) → IsBytes bs → from_le_bytes bs < 256 ^ length bs
unfolding from_le_bytes
from_le_bytes-lt [] w = omega arith
from_le_bytes-lt (b ∷ bs) w = omega (arith, pow-suc 256 (length bs), from_le_bytes-lt bs w.1, w.0)

pub IsBytes-take : (n : ℕ) (bs : List ℕ) → IsBytes bs → IsBytes (take n bs)
IsBytes-take zero bs w = tt
IsBytes-take (suc n) [] w = tt
IsBytes-take (suc n) (b ∷ bs) w = (w.0, IsBytes-take n bs w.1)

-- What stands at the end of a known beginning.
pub At-beyond : (pre xs : List ℕ) → At (pre ++ xs) (length pre) xs
At-beyond [] xs = rw append-nil at (IsPrefix-intro xs [])
At-beyond (b ∷ pre) xs = At-beyond pre xs
