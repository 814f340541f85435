-- ===== src/Bytes.antt =====
-- Fixed-width integers as bytes, and slices: what the codecs use of the standard library's
-- `to_le_bytes`, `from_le_bytes`, `to_be_bytes` and range indexing.
pub mod Laws
pub mod Order
use ingodb.Base.{ℕ, zero, suc, ◌+◌, ◌*◌, ◌/◌, ◌%◌, ◌^◌, ◌<◌, List, [], ◌∷◌, ◌++◌, take, drop, All}

-- A byte string: each element of it is below 256.
abbrev pub IsBytes : List ℕ → Type 0
IsBytes = All (λ b. b < 256)

-- The low `n` bytes of a number, least significant first. A cast to the width comes for free.
unfoldable pub to_le_bytes : ℕ → ℕ → List ℕ
to_le_bytes zero v = []
to_le_bytes (suc n) v = v % 256 ∷ to_le_bytes n (v / 256)

unfoldable pub from_le_bytes : List ℕ → ℕ
from_le_bytes [] = 0
from_le_bytes (b ∷ bs) = b + 256 * from_le_bytes bs

-- The low `n` bytes of a number, most significant first.
unfoldable pub to_be_bytes : ℕ → ℕ → List ℕ
to_be_bytes zero v = []
to_be_bytes (suc n) v = (v / 256 ^ n) % 256 ∷ to_be_bytes n (v % 256 ^ n)

unfoldable pub from_be_bytes : List ℕ → ℕ → ℕ
from_be_bytes [] acc = acc
from_be_bytes (b ∷ bs) acc = from_be_bytes bs (acc * 256 + b)

-- `&buf[start..start + n]`, where it is in range.
abbrev pub slice : List ℕ → ℕ → ℕ → List ℕ
slice buf start n = take n (drop start buf)
