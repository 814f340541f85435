-- ===== src/Sstable/Error.antt =====
-- crates/ingodb-sstable/src/error.rs: what goes wrong with a table. The messages of `Corrupted` and the
-- variant `Io` are left out.
use ingodb.Base.{ℕ}
use ingodb.Blob.Error.{BlobError, Result, ok, err, out_of_fuel}

pub data SstableError : Type 0 where
  invalid_magic : SstableError
  unsupported_version : ℕ → SstableError
  crc_mismatch : ℕ → SstableError
  blob_decode : BlobError → SstableError
  empty : SstableError
  corrupted : SstableError

-- The result of an operation on a table; `stuck` is a decoder that ran out of fuel, or a panic at a slice.
pub data Outcome {ℓ} (A : Type ℓ) : Type ℓ where
  done : A → Outcome A
  failed : SstableError → Outcome A
  stuck : Outcome A

infixl 20 ◌>>=◌
abbrev pub ◌>>=◌ {ℓ κ} : {A : Type ℓ} {B : Type κ} → Outcome A → (A → Outcome B) → Outcome B
done a >>= f = f a
failed e >>= f = failed e
stuck >>= f = stuck

-- `#[from] BlobError`
abbrev pub from_blob {ℓ} : {A : Type ℓ} → Result A → Outcome A
from_blob (ok a) = done a
from_blob (err e) = failed (blob_decode e)
from_blob out_of_fuel = stuck
