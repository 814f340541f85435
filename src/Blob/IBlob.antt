-- ===== src/Blob/IBlob.antt =====
-- crates/ingodb-blob/src/iblob.rs: documents, without their binary form (`IBlob.Codec`).
--
-- BLAKE3 and the UUID generator are other packages: the hash is a parameter of `Codec`, and a new id
-- or version is an argument.
pub mod Codec
pub mod Extract
use Prim.Native.Nat.{bit_and, bit_or}
use ingodb.Base.{
  ℕ, suc, ◌+◌, Bool, true, not, ◌==◌, Option, none, some, List, [], ◌∷◌, replicate, if◌then◌else◌,
  cmp_bytes, bytes_ord, eq, Ordering,
}
use ingodb.Base.Maps
use ingodb.Base.Maps.{BTreeMap}
use ingodb.Blob.Id
use ingodb.Blob.Id.{DocumentId}
use ingodb.Blob.Value.{Value, uuid}

pub record IBlob : Type 0 where
  pub id : DocumentId
  pub version : DocumentId
  pub flags : ℕ
  pub hash : List ℕ
  pub fields : BTreeMap (List ℕ) Value
  pub encoded : Option (List ℕ)
  pub hash_computations : ℕ

abbrev pub flag_deleted : ℕ
flag_deleted = 0x01

abbrev pub flag_projection : ℕ
flag_projection = 0x02

-- `[0; 32]`, the hash that is not computed yet.
abbrev pub no_hash : List ℕ
no_hash = replicate 32 0

unfoldable pub with_id : DocumentId → BTreeMap (List ℕ) Value → IBlob
with_id id fields = record {
  id = id;
  version = Id.nil;
  flags = 0;
  hash = no_hash;
  fields = fields;
  encoded = none;
  hash_computations = 0;
}

-- `new`, for the id that the generator returns.
unfoldable pub new : DocumentId → BTreeMap (List ℕ) Value → IBlob
unfolding with_id
new fresh fields = with_id fresh fields

unfoldable pub tombstone : DocumentId → IBlob
tombstone id = record {
  id = id;
  version = Id.nil;
  flags = flag_deleted;
  hash = no_hash;
  fields = [];
  encoded = none;
  hash_computations = 0;
}

-- The fields of `names` that the document has, collected into a map.
unfoldable pub select :
    BTreeMap (List ℕ) Value → List (List ℕ) → BTreeMap (List ℕ) Value → BTreeMap (List ℕ) Value
select fields [] acc = acc
select fields (name ∷ names) acc =
    select fields names
      (elim (Maps.get fields name) [ none ↦ acc | some v ↦ Maps.insert name v acc ])

unfoldable pub project : IBlob → List (List ℕ) → IBlob
unfolding select
project b names = record {
  id = b.id;
  version = b.version;
  flags = bit_or b.flags flag_projection;
  hash = no_hash;
  fields = select b.fields names [];
  encoded = none;
  hash_computations = 0;
}

unfoldable pub from_pairs : DocumentId → List (List ℕ × Value) → IBlob
unfolding new
from_pairs fresh pairs = new fresh (Maps.collect pairs [])

unfoldable pub set_version : DocumentId → IBlob → IBlob
set_version v b = record b { version = v; hash = no_hash; encoded = none }

unfoldable pub is_deleted : IBlob → Bool
is_deleted b = not (bit_and b.flags flag_deleted == 0)

unfoldable pub is_projection : IBlob → Bool
is_projection b = not (bit_and b.flags flag_projection == 0)

unfoldable pub get : IBlob → List ℕ → Option Value
get b key = Maps.get b.fields key

abbrev pub id_name : List ℕ
id_name = b'_' ∷ b'i' ∷ b'd' ∷ []

abbrev pub version_name : List ℕ
version_name = b'_' ∷ b'v' ∷ b'e' ∷ b'r' ∷ b's' ∷ b'i' ∷ b'o' ∷ b'n' ∷ []

abbrev pub same_key : List ℕ → List ℕ → Bool
same_key a b = elim (cmp_bytes a b) [ eq ↦ true | _ ↦ not true ]

-- The metadata fields take precedence over user fields of their names.
unfoldable pub get_field : IBlob → List ℕ → Option Value
unfolding get
get_field b key =
    if same_key key id_name
    then some (uuid b.id)
    else if same_key key version_name
    then some (uuid b.version)
    else get b key
