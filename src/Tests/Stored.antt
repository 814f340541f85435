-- ===== src/Tests/Stored.antt =====
-- An engine with a memtable, a queued memtable and a table of one block.
use ingodb.Base.{retain, ℕ, ◌≡◌, refl, arith, List, [], ◌∷◌, ◌++◌, map, length, All}
use ingodb.Bytes.Laws.{At-intro}
use ingodb.Blob.IBlob.Codec
use ingodb.Blob.IBlob.Codec.RoundTrip.{decoded}
use ingodb.Sstable.Error.{done}
use ingodb.Sstable.Bloom
use ingodb.Sstable.Lookup.{get_by_id_at, iter}
use ingodb.Sstable.Lookup.Layout.{flat}
use ingodb.Lsm.Scan.{blobs_of}
use ingodb.Lsm.Scan.Select.{latest_at}
use ingodb.Sstable.Writer.{BlockIndex}
use ingodb.Sstable.Keys.{mvcc_key}
use ingodb.Sstable.Reader.{read_block, Entry, SstableReader}
use ingodb.Sstable.Reader.Blocks.{block_of, read_back, read_block-block_of}
use ingodb.Sstable.Range.{range_scan}
use ingodb.Sstable.Range.Groups.{IsOrdered, AreRead, AreGroups, AreApart, IsStrict}
use ingodb.Sstable.Range.Scanned.{in_range, range_scan-in_range}
use ingodb.Lsm.Scan.Tables.{IsTable, IsKeyed, get_by_id_at-latest_at}
use ingodb.Tests.{hash, hash-IsHash, checksum, checksum-lt, document}
use ingodb.Tests.Table.{pack, unpack, unpack-pack, entries, entries-IsEntry}

abbrev pub group : List Entry
group = map (read_back hash) entries

abbrev file : List ℕ
file = block_of hash hash-IsHash pack unpack checksum unpack-pack checksum-lt entries

abbrev block : BlockIndex
block = record { last_key = mvcc_key (document 12); offset = 0; size = length file }

abbrev pub table : SstableReader
table = record {
  data_bytes = file ++ [];
  block_indices = block ∷ [];
  bloom = record { bits = []; num_bits = 1; num_hashes = 0 };
  min_key = mvcc_key (document 9);
  max_key = mvcc_key (document 12);
}

pub table-AreRead : AreRead hash unpack checksum table.data_bytes table.block_indices (group ∷ [])
table-AreRead = (
  read_block-block_of hash hash-IsHash pack unpack checksum unpack-pack checksum-lt table.data_bytes
      block entries entries-IsEntry (omega arith) (At-intro [] file []) refl,
  tt,
)

table-AreApart : AreApart table.block_indices (group ∷ [])
unfolding mvcc_key ingodb.Blob.Id.as_bytes ingodb.Bytes.to_be_bytes Codec.encode
table-AreApart = ((refl, (refl, tt)), tt, tt)

group-IsStrict : IsStrict group
unfolding mvcc_key ingodb.Blob.Id.as_bytes ingodb.Bytes.to_be_bytes
group-IsStrict = ((refl, tt), (tt, tt))

group-IsKeyed : All IsKeyed group
unfolding mvcc_key decoded
group-IsKeyed = ((refl, omega arith, omega arith), ((refl, omega arith, omega arith), tt))

table-AreGroups : AreGroups table.block_indices (group ∷ [])
unfolding mvcc_key ingodb.Blob.Id.as_bytes ingodb.Bytes.to_be_bytes
table-AreGroups = ((refl, (refl, tt)), tt, tt)

pub table-IsTable : IsTable hash unpack checksum table (group ∷ [])
unfolding Bloom.may_contain Bloom.may_contain_from
table-IsTable = record {
  read = table-AreRead;
  apart = table-AreApart;
  strict = group-IsStrict;
  keyed = group-IsKeyed;
  filtered = (refl, (refl, tt));
}

-- The version 12 at the snapshot 15.
get_by_id_at-latest_at_example :
    (get_by_id_at hash unpack checksum table 7 15
      ≡ done (latest_at 15 7 (blobs_of (flat (group ∷ [])))))
    × (iter hash unpack checksum table ≡ done (flat (group ∷ [])))
get_by_id_at-latest_at_example =
    get_by_id_at-latest_at hash unpack checksum table (group ∷ []) 7 15 table-IsTable (omega arith)
      (omega arith)

-- Two blocks of one entry, which end at the same key.
abbrev one_entry : List Entry
one_entry = (mvcc_key (document 12), document 12) ∷ []

abbrev one_group : List Entry
one_group = map (read_back hash) one_entry

abbrev one_file : List ℕ
one_file = block_of hash hash-IsHash pack unpack checksum unpack-pack checksum-lt one_entry

abbrev one_block : BlockIndex
one_block = record { last_key = mvcc_key (document 12); offset = 0; size = length one_file }

abbrev twice : SstableReader
twice = record {
  data_bytes = one_file ++ [];
  block_indices = one_block ∷ one_block ∷ [];
  bloom = record { bits = []; num_bits = 1; num_hashes = 0 };
  min_key = mvcc_key (document 12);
  max_key = mvcc_key (document 12);
}

one_block-read : read_block hash unpack checksum twice.data_bytes one_block ≡ done one_group
one_block-read =
    read_block-block_of hash hash-IsHash pack unpack checksum unpack-pack checksum-lt
      twice.data_bytes one_block one_entry (entries-IsEntry.1.0, tt) (omega arith)
      (At-intro [] one_file []) refl

twice-AreGroups : AreGroups twice.block_indices (one_group ∷ one_group ∷ [])
unfolding mvcc_key ingodb.Blob.Id.as_bytes ingodb.Bytes.to_be_bytes
twice-AreGroups = ((refl, tt), (refl, tt), ((refl, tt), tt, tt))

twice-IsOrdered : IsOrdered (flat (one_group ∷ one_group ∷ []))
unfolding mvcc_key ingodb.Blob.Id.as_bytes ingodb.Bytes.to_be_bytes
twice-IsOrdered = ((refl, tt), (tt, tt))

-- The binary search finds the second of them.
range_scan-in_range_example :
    range_scan hash unpack checksum 1 twice (mvcc_key (document 12)) (mvcc_key (document 14))
    ≡ done (
        retain
          (in_range (mvcc_key (document 12)) (mvcc_key (document 14)))
          (flat (one_group ∷ one_group ∷ [])))
range_scan-in_range_example =
    range_scan-in_range hash unpack checksum 1 (mvcc_key (document 12)) (mvcc_key (document 14))
      twice (one_group ∷ one_group ∷ []) (one_block-read, (one_block-read, tt)) twice-AreGroups
      twice-IsOrdered
