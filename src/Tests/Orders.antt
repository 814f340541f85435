-- ===== src/Tests/Orders.antt =====
-- A chain of documents that refer to each other by value, scans with a sort order, and what an index
-- scan takes from the memtable.
use ingodb.Base.{
  ℕ, ◌+◌, ◌^◌, ◌<◌, ◌≤◌, ◌≡◌, ◌≢◌, refl, arith, Option, some, none, List, [], ◌∷◌, ◌++◌, map,
  length, All, true, min,
}
use mathlib.Core.List.{Perm}
use ingodb.Base.Sort.{IsSortedBy, sort_by}
use ingodb.Blob.Id
use ingodb.Blob.IBlob.{IBlob, no_hash}
use ingodb.Memtable.{MemTable}
use ingodb.Memtable.Size.{IsValid, total}
use ingodb.Sstable.Bloom
use ingodb.Sstable.Keys.{encode_comparable_value}
use ingodb.Lsm.Merge.Latest.{find_id}
use ingodb.Lsm.Engine.{Layers}
use ingodb.Lsm.Secondary.{SecondaryIndex}
use ingodb.Lsm.Scan.{blobs_of, collect_layers, memtable_blobs, scan_layers, current, compare_fields}
use ingodb.Lsm.Scan.Sorted.{IsSortable, scan_layers-IsSortedBy}
use ingodb.Lsm.Indexed.{scan_at}
use ingodb.Lsm.Follow.{push_unseen}
use ingodb.Lsm.Indexed.Sound.{IsMatch, Returns}
use ingodb.Lsm.Indexed.Scans.{scan_at-IsMatch}
use ingodb.Lsm.Indexed.Limit.{IsWithin, scan_at-IsWithin}
use ingodb.Lsm.Indexed.Oldest.{push_unseen-oldest}
use ingodb.Tests.{hash, checksum, document}
use ingodb.Tests.Table.{unpack}
use ingodb.Blob.Value.{u64}
use ingodb.Memtable
use ingodb.Query.{Filter, equals}
use ingodb.Query.Ast.{SortField, ascending}
use ingodb.Sstable.Error.{Outcome, done}
use ingodb.Lsm.Merge.Purge.{IsAscending}
use ingodb.Lsm.Scan.{select}
use ingodb.Lsm.Traverse.{traverse_at}
use ingodb.Lsm.Traverse.Members.{In, IsDistinct, has_blob}
use ingodb.Lsm.Traverse.Joined.{IsReached}
use ingodb.Lsm.Traverse.Reach.{traverse_at-Reached}

-- A document with a key and a reference.
abbrev node : ℕ → ℕ → IBlob
node id next = record {
  id = id;
  version = 1;
  flags = 0;
  hash = no_hash;
  fields = (b'k' ∷ [], u64 id) ∷ (b'r' ∷ [], u64 next) ∷ [];
  encoded = none;
  hash_computations = 0;
}

abbrev nodes : List IBlob
nodes = node 1 2 ∷ node 2 3 ∷ node 3 1 ∷ []

abbrev scan_nodes : Option Filter → Outcome (List IBlob)
scan_nodes filter = done (select filter nodes)

abbrev first_key : Option Filter
first_key = some (equals (b'k' ∷ []) (u64 1))

starts_found : scan_nodes first_key ≡ done (node 1 2 ∷ [])
unfolding select ingodb.Query.matches ingodb.Blob.IBlob.get_field ingodb.Blob.IBlob.is_deleted
    ingodb.Base.Maps.get ingodb.Base.bytes_ord ingodb.Query.value_eq
starts_found = refl

nodes_found : scan_nodes none ≡ done nodes
unfolding select ingodb.Blob.IBlob.is_deleted
nodes_found = refl

nodes-IsAscending : IsAscending nodes
nodes-IsAscending = ((omega arith, (omega arith, tt)), ((omega arith, tt), (tt, tt)))

traverse_at-Reached_example :
    (res : List IBlob) × (traverse_at scan_nodes (b'r' ∷ []) (b'k' ∷ []) first_key 2 ≡ done res)
    × IsDistinct res
    × All (λ c. In c nodes × IsReached (b'r' ∷ []) (b'k' ∷ []) nodes (node 1 2 ∷ []) 2 c) res
    × ((c : IBlob)
        → IsReached (b'r' ∷ []) (b'k' ∷ []) nodes (node 1 2 ∷ []) 2 c
        → has_blob c.id res ≡ true)
traverse_at-Reached_example =
    traverse_at-Reached scan_nodes (b'r' ∷ []) (b'k' ∷ []) nodes first_key 2 (node 1 2 ∷ [])
      starts_found nodes_found nodes-IsAscending

abbrev table_of : List (Memtable.Key × IBlob) → MemTable
table_of entries = record { entries = entries; size_bytes = total hash entries; max_size = 1000 }

-- Three documents, in the active memtable.
abbrev held : Layers
held = record {
  memtable = table_of (((1, 1), node 1 2) ∷ ((2, 1), node 2 3) ∷ ((3, 1), node 3 1) ∷ []);
  immutable_memtables = [];
  sstables = [];
}

abbrev by_reference : List SortField
by_reference = record { name = b'r' ∷ []; direction = ascending } ∷ []

held-collected : collect_layers hash unpack checksum held ≡ done (memtable_blobs held ++ [])
unfolding collect_layers ingodb.Lsm.Scan.sstable_blobs
held-collected = refl

held-selected : select none (current 30 (memtable_blobs held ++ [])) ≡ nodes
unfolding select current memtable_blobs ingodb.Lsm.Scan.immutable_blobs Memtable.iter
    ingodb.Lsm.Merge.dedup_by_id ingodb.Lsm.Scan.visible sort_by ingodb.Base.Sort.place
    ingodb.Blob.IBlob.is_deleted
held-selected = refl

one_kind : ◌≢◌ {A = ℕ} 3 0
one_kind = λ e. absurd (omega arith)

held-IsSortable :
    All (IsSortable (λ name. 3) by_reference) (select none (current 30 (memtable_blobs held ++ [])))
unfolding ingodb.Blob.IBlob.get_field ingodb.Base.Maps.get ingodb.Base.bytes_ord
held-IsSortable =
    rw held-selected
      (((refl, one_kind), tt), (((refl, one_kind), tt), (((refl, one_kind), tt), tt)))

scan_layers-IsSortedBy_example :
    (bs rest : List IBlob) × (scan_layers hash unpack checksum none
        (some by_reference)
        none
        (some 2)
        30
        held
      ≡ done bs)
    × IsSortedBy (compare_fields by_reference) (bs ++ rest)
    × Perm (bs ++ rest) (select none (current 30 (memtable_blobs held ++ [])))
    × (length bs ≡ min 2 (length (select none (current 30 (memtable_blobs held ++ [])))))
scan_layers-IsSortedBy_example =
    scan_layers-IsSortedBy (λ name. 3) hash unpack checksum none by_reference 2 30 held
      (memtable_blobs held ++ []) held-collected held-IsSortable

-- An index on the references, with one entry in its buffer.
abbrev index : SecondaryIndex
index = record {
  fields = (b'r' ∷ []) ∷ [];
  range = none;
  reader = record {
    data_bytes = [];
    block_indices = [];
    bloom = Bloom.new 1;
    min_key = [];
    max_key = [];
  };
  buffer = (encode_comparable_value hash (u64 3), node 2 3) ∷ [];
  last_used = 0;
  compactions_since_use = 0;
}

scan_at-IsMatch_example :
    Returns
      (All (IsMatch first_key))
      (scan_at hash unpack checksum 5 0 first_key none none none Id.max held (index ∷ [])).0
scan_at-IsMatch_example =
    scan_at-IsMatch hash unpack checksum 5 0 first_key none none Id.max held (index ∷ [])

scan_at-IsWithin_example :
    Returns
      (IsWithin 2)
      (scan_at hash unpack checksum 5 0 none
        (some by_reference)
        none
        (some 2)
        Id.max
        held
        (index ∷ [])).0
scan_at-IsWithin_example =
    scan_at-IsWithin hash unpack checksum 5 0 none by_reference 2 Id.max held (index ∷ [])

-- Two versions of one document.
abbrev rewritten : MemTable
rewritten = table_of (((7, 9), document 9) ∷ ((7, 12), document 12) ∷ [])

rewritten-IsValid : IsValid hash rewritten
unfolding ingodb.Base.pair_ord
rewritten-IsValid = record {
  sorted = ((refl, tt), (tt, tt));
  keyed = (refl, (refl, tt));
  counted = refl;
}

oldest_found :
    find_id 7 (push_unseen (select none (blobs_of (Memtable.iter rewritten))) [])
    ≡ some (document 9)
unfolding push_unseen select Memtable.iter ingodb.Blob.IBlob.is_deleted find_id
oldest_found = refl

push_unseen-oldest_example :
    All
      (λ c. c.id ≡ 7 → (document 9).version ≤ c.version)
      (select none (blobs_of (Memtable.iter rewritten)))
push_unseen-oldest_example =
    push_unseen-oldest hash rewritten none 7 (document 9) rewritten-IsValid oldest_found
