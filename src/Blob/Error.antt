-- ===== src/Blob/Error.antt =====
-- crates/ingodb-blob/src/error.rs, and the result of a fallible read.
use ingodb.Base.{ℕ, ◌+◌, ◌≤◌, List, arith, ltb, length, if◌then◌else◌}

-- `HashMismatch` holds the two hashes themselves in place of their hexadecimal text.
pub data BlobError : Type 0 where
  invalid_magic : BlobError
  unsupported_version : ℕ → BlobError
  buffer_too_short : ℕ → ℕ → BlobError
  hash_mismatch : List ℕ → List ℕ → BlobError
  unknown_value_type : ℕ → BlobError
  field_not_found : ℕ → BlobError
  utf8 : BlobError

-- `Result<A, BlobError>`. `out_of_fuel` is the model's: a recursion that was cut off.
pub data Result {ℓ} (A : Type ℓ) : Type ℓ where
  ok : A → Result A
  err : BlobError → Result A
  out_of_fuel : Result A

infixl 5 ◌>>=◌ ◌>>◌
abbrev pub ◌>>=◌ {ℓ κ} : {A : Type ℓ} {B : Type κ} → Result A → (A → Result B) → Result B
ok a >>= f = f a
err e >>= f = err e
out_of_fuel >>= f = out_of_fuel

abbrev pub ◌>>◌ {ℓ} : {B : Type ℓ} → Result (Unit {0}) → Result B → Result B
m >> k = m >>= λ _. k

-- `check_len` of value.rs
unfoldable pub check_len : List ℕ → ℕ → ℕ → Result (Unit {0})
check_len buf offset need =
    if ltb (length buf) (offset + need)
    then err (buffer_too_short (offset + need) (length buf))
    else ok tt

-- The recursion is not cut off, and a returned value satisfies `P`.
abbrev pub Ensures {ℓ} : {A : Type ℓ} → (A → Type 0) → Result A → Type 0
Ensures P (ok a) = P a
Ensures P (err e) = Unit
Ensures P out_of_fuel = ⊥

-- The rule for a sequence of two steps.
pub Ensures-bind {ℓ κ} :
    {A : Type ℓ} {B : Type κ} (P : A → Type 0) (Q : B → Type 0) (m : Result A) (f : A → Result B)
    → Ensures P m
    → ((a : A) → P a → Ensures Q (f a))
    → Ensures Q (m >>= f)
Ensures-bind P Q (ok a) f h k = k a h
Ensures-bind P Q (err e) f h k = tt
Ensures-bind P Q out_of_fuel f h k = absurd h

-- A bound that was checked holds in what follows.
pub check_len-Ensures :
    (buf : List ℕ) (offset need : ℕ)
    → Ensures (λ _. offset + need ≤ length buf) (check_len buf offset need)
unfolding check_len
check_len-Ensures buf offset need = ground arith
