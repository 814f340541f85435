-- ===== src/Blob/Utf8.antt =====
-- `std::str::from_utf8`: the well-formed byte sequences of the Unicode standard, as an automaton.
use ingodb.Base.{
  ℕ, zero, suc, ◌&&◌, Bool, false, Option, none, some, List, [], ◌∷◌, ltb, leb, ◌==◌, if◌then◌else◌,
}
use ingodb.Blob.Error.{Result, ok, err, utf8}

-- The continuation bytes that are left, and the range of the next one.
pub record Expect : Type 0 where
  pub left : ℕ
  pub low : ℕ
  pub high : ℕ

abbrev pub start : Expect
start = record { left = 0; low = 0x80; high = 0xBF }

first_byte : ℕ → Option Expect
first_byte b =
    if ltb b 0x80
    then some start
    else if ltb b 0xC2
    then none
    else if ltb b 0xE0
    then some (record { left = 1; low = 0x80; high = 0xBF })
    else if b == 0xE0
    then some (record { left = 2; low = 0xA0; high = 0xBF })
    else if b == 0xED
    then some (record { left = 2; low = 0x80; high = 0x9F })
    else if ltb b 0xF0
    then some (record { left = 2; low = 0x80; high = 0xBF })
    else if b == 0xF0
    then some (record { left = 3; low = 0x90; high = 0xBF })
    else if ltb b 0xF4
    then some (record { left = 3; low = 0x80; high = 0xBF })
    else if b == 0xF4
    then some (record { left = 3; low = 0x80; high = 0x8F })
    else none

next_byte : ℕ → Expect → ℕ → Option Expect
unfolding first_byte
next_byte zero e b = first_byte b
next_byte (suc left) e b =
    if leb e.low b && leb b e.high
    then some (record { left = left; low = 0x80; high = 0xBF })
    else none

accepts : Expect → List ℕ → Bool
unfolding next_byte
accepts e [] = e.left == 0
accepts e (b ∷ bs) = elim (next_byte e.left e b) [ none ↦ false | some e' ↦ accepts e' bs ]

unfoldable pub is_utf8 : List ℕ → Bool
unfolding accepts
is_utf8 bs = accepts start bs

unfoldable pub from_utf8 : List ℕ → Result (List ℕ)
from_utf8 bs = if is_utf8 bs then ok bs else err utf8
