-- ===== src/Memtable.antt =====
-- crates/ingodb-memtable/src/lib.rs: the table of recent writes, by (id, version).
--
-- The locks and the atomic counter serialise the methods, which are functions of the state here.
-- BLAKE3, which the encoding of a document calls, is a parameter.
pub mod Size
pub mod Lookup
use ingodb.Base.{
  ℕ, suc, ◌+◌, ◌-◌, ◌*◌, ◌≤◌, Bool, true, false, not, Option, none, some, List, [], ◌∷◌, map,
  length, leb, get_elem?, pair_ord,
}
use ingodb.Base.Maps
use ingodb.Base.Maps.{BTreeMap}
use ingodb.Base.Maps.Range
use ingodb.Blob.Id
use ingodb.Blob.Id.{DocumentId}
use ingodb.Blob.IBlob.{IBlob}
use ingodb.Blob.IBlob.Codec

abbrev pub Key : Type 0
Key = DocumentId × DocumentId

pub record MemTable : Type 0 where
  pub entries : BTreeMap Key IBlob
  pub size_bytes : ℕ
  pub max_size : ℕ

unfoldable pub new : ℕ → MemTable
new max_size = record { entries = []; size_bytes = 0; max_size = max_size }

unfoldable pub with_default_size : MemTable
unfolding new
with_default_size = new (64 * 1024 * 1024)

-- The latest version up to `snapshot`: the range scan from (id, nil) to (id, snapshot), read backwards.
unfoldable pub get : MemTable → DocumentId → DocumentId → Option IBlob
get m id snapshot = elim (Range.last (Range.range (id, Id.nil) (id, snapshot) m.entries)) [
  | none ↦ none
  | some kv ↦ some kv.1
]

unfoldable pub get_latest : MemTable → DocumentId → Option IBlob
unfolding get
get_latest m id = get m id Id.max

unfoldable pub contains : MemTable → DocumentId → Bool
contains m id = elim (Range.range (id, Id.nil) (id, Id.max) m.entries) [
  | [] ↦ false
  | kv ∷ rest ↦ true
]

unfoldable pub len : MemTable → ℕ
len m = length m.entries

unfoldable pub is_empty : MemTable → Bool
is_empty m = elim m.entries [ [] ↦ true | kv ∷ rest ↦ false ]

unfoldable pub should_flush : MemTable → Bool
should_flush m = leb m.max_size m.size_bytes

unfoldable pub values : BTreeMap Key IBlob → List IBlob
values [] = []
values ((k, b) ∷ m) = b ∷ values m

-- Returns all versions, and leaves an empty table.
unfoldable pub drain : MemTable → List IBlob × MemTable
unfolding values
drain m = (values m.entries, record m { entries = []; size_bytes = 0 })

-- The items of the iterator.
unfoldable pub iter : MemTable → List (DocumentId × IBlob)
unfolding values
iter m = map (λ b. (b.id, b)) (values m.entries)

pub record MemTableIter : Type 0 where
  pub entries : List (DocumentId × IBlob)
  pub pos : ℕ

unfoldable pub next : MemTableIter → Option (DocumentId × IBlob) × MemTableIter
next it = elim (get_elem? it.entries it.pos) [
  | none ↦ (none, it)
  | some item ↦ (some item, record it { pos = it.pos + 1 })
]

module _ (blake3 : List ℕ → List ℕ) where
  abbrev pub encoded_size : IBlob → ℕ
  encoded_size b = length (Codec.encode blake3 b).0

  -- `size_bytes` after the insertion: what a replaced version of the key counted is taken off.
  -- `IsValid.counted` makes the subtraction exact.
  abbrev pub resized : Option IBlob → ℕ → ℕ → ℕ
  resized none size_bytes added = size_bytes + added
  resized (some old) size_bytes added = (size_bytes - encoded_size old) + added

  -- Returns the table, and whether it should be flushed. The document is kept with its cache filled.
  unfoldable pub insert : MemTable → IBlob → MemTable × Bool
  insert m b =
      let (bytes, b') = Codec.encode blake3 b in
      let size = resized (Maps.get m.entries (b.id, b.version)) m.size_bytes (length bytes) in
      (
        record m { entries = Maps.insert (b.id, b.version) b' m.entries; size_bytes = size },
        leb m.max_size size,
      )
