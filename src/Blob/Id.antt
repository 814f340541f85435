-- ===== src/Blob/Id.antt =====
-- crates/ingodb-blob/src/lib.rs: `DocumentId`, the sixteen bytes of a UUIDv7.
--
-- An id is the number whose sixteen big-endian bytes the array holds. The derived order of the
-- array, which is lexicographic, is the order of these numbers (`Bytes.Order`).
use ingodb.Base.{ℕ, ◌-◌, ◌^◌, ◌<◌, ◌==◌, ◌≡◌, Bool, List, [], ◌∷◌, arith, length}
use ingodb.Bytes.{to_be_bytes, from_be_bytes}
use ingodb.Bytes.Laws.{from-to_be_bytes, length-to_be_bytes}

abbrev pub DocumentId : Type 0
DocumentId = ℕ

abbrev pub IsId : DocumentId → Type 0
IsId id = id < 256 ^ 16

unfoldable pub as_bytes : DocumentId → List ℕ
as_bytes id = to_be_bytes 16 id

unfoldable pub from_bytes : List ℕ → DocumentId
from_bytes bytes = from_be_bytes bytes 0

-- All bytes 0xFF: the snapshot that sees every version.
abbrev pub max : DocumentId
max = 256 ^ 16 - 1

abbrev pub nil : DocumentId
nil = 0

unfoldable pub is_nil : DocumentId → Bool
is_nil id = id == nil

abbrev pub magic : List ℕ
magic = b'I' ∷ b'N' ∷ b'G' ∷ b'O' ∷ []

abbrev pub format_version : ℕ
format_version = 2

-- The bytes of an id determine it.
pub from-as_bytes : (id : DocumentId) → IsId id → from_bytes (as_bytes id) ≡ id
unfolding from_bytes as_bytes
from-as_bytes id h = omega (arith, from-to_be_bytes 16 id 0 h)

pub length-as_bytes : (id : DocumentId) → length (as_bytes id) ≡ 16
unfolding as_bytes
length-as_bytes id = length-to_be_bytes 16 id
