-- ===== src/Tests/State.antt =====
-- Flushes of an engine, its indexes, and its scaling parameter.
use ingodb.Base.{
  All, ℕ, ◌+◌, ◌*◌, ◌^◌, ◌-◌, ◌≤◌, ◌≡◌, ◌≢◌, refl, arith, Bool, true, not, Option, some, none, List,
  [], ◌∷◌, length,
}
use ingodb.Blob.IBlob.{IBlob, get_field}
use ingodb.Wal
use ingodb.Memtable
use ingodb.Memtable.{MemTable}
use ingodb.Sstable.Error.{Outcome, done}
use ingodb.Sstable.Bloom
use ingodb.Sstable.Keys.{field_key}
use ingodb.Lsm.Compaction
use ingodb.Lsm.Secondary.{SecondaryIndex}
use ingodb.Lsm.Secondary.Index.{notify_put}
use ingodb.Lsm.Secondary.Index.Lost.{notify_put-notify_put}
use ingodb.Lsm.State.{LsmEngine, Ran, layers}
use ingodb.Lsm.Flush.Rotate.{get_at-rotate_memtable}
use ingodb.Lsm.Engine.{get_at}
use ingodb.Lsm.Flush.{flush_immutable_memtables, flush_single_memtable, rotate_memtable}
use ingodb.Lsm.Flush.Queue.{flush_immutable_memtables-drains}
use ingodb.Lsm.Adapt.{Config, Load, maybe_adjust_w, maybe_adjust_w-bounds}
use ingodb.Sstable.Reader.{SstableReader}
use ingodb.Lsm.Merge.{tombstone_filter}
use ingodb.Lsm.Compact.{run_compaction}
use ingodb.Lsm.Compact.Tables.{Replaced, run_compaction-Replaced}
use ingodb.Tests.Stored.{table}
use ingodb.Tests.{hash, checksum, document}
use ingodb.Tests.Table.{pack, unpack}

-- An index on the one field of the documents, with nothing in its table.
abbrev named_index : SecondaryIndex
named_index = record {
  fields = (b'n' ∷ []) ∷ [];
  range = none;
  reader = record {
    data_bytes = [];
    block_indices = [];
    bloom = Bloom.new 1;
    min_key = [];
    max_key = [];
  };
  buffer = [];
  last_used = 0;
  compactions_since_use = 0;
}

-- Another document with the same field.
abbrev other : IBlob
other = record (document 12) { id = 8 }

same_name : All (λ name. get_field (document 9) name ≡ get_field other name) named_index.fields
unfolding get_field
same_name = (refl, tt)

notify_put-notify_put_example :
    notify_put hash other (notify_put hash (document 9) named_index)
    ≡ notify_put hash other named_index
notify_put-notify_put_example = notify_put-notify_put hash (document 9) other named_index same_name

-- A queued memtable with one document.
abbrev single : MemTable
single = record { entries = ((7, 9), document 9) ∷ []; size_bytes = 0; max_size = 1000 }

abbrev engine : MemTable → LsmEngine
engine queued = record {
  memtable_size = 1000;
  block_size = 100;
  memtable = Memtable.new 1000;
  immutable_memtables = queued ∷ [];
  wal = Wal.open_wal [];
  sstables = [];
  next_sst_id = 1;
  secondary_indexes = [];
  active_snapshots = [];
  wal_batch = [];
  has_compaction_thread = true;
  compaction_stats = record {
    runs = 0;
    bytes_read = 0;
    bytes_written = 0;
    sstables_read = 0;
    sstables_written = 0;
  };
  effective_w = Compaction.at_least 0;
  write_count = 0;
}

abbrev load : Load
load = record {
  effective_w = 2 ^ 31;
  target_w = 2 ^ 31;
  read_count = 90;
  write_count = 10;
  last_w_adjustment = 0;
}

abbrev config : Config
config = record {
  adaptive_w = true;
  adaptive_w_cooldown_secs = 900;
  adaptive_w_min = 2 ^ 31 - 8;
  adaptive_w_max = 2 ^ 31 + 8;
  adaptive_w_max_step = 2 ^ 31 + 2;
}

abbrev target : ℕ → ℕ → ℕ
target reads total = 2 ^ 31 - 6

maybe_adjust_w-bounds_example :
    (config.adaptive_w_min ≤ (maybe_adjust_w target config 1000 load).effective_w)
    × ((maybe_adjust_w target config 1000 load).effective_w ≤ config.adaptive_w_max)
    × ((maybe_adjust_w target config 1000 load).effective_w
        ≤ load.effective_w + (config.adaptive_w_max_step - 2 ^ 31))
    × (load.effective_w
        ≤ (maybe_adjust_w target config 1000 load).effective_w
          + (config.adaptive_w_max_step - 2 ^ 31))
maybe_adjust_w-bounds_example =
    maybe_adjust_w-bounds target config 1000 load (omega arith) (omega arith) (omega arith)
      (omega arith) (omega arith)

abbrev float_level : ℕ → ℕ → ℕ → ℕ
float_level a b c = 0

abbrev never : ℕ → ℕ → Bool
never a b = not true

abbrev then_compact : LsmEngine → Ran
then_compact e = (e, done tt)

abbrev drained : Ran
drained =
    flush_immutable_memtables float_level never hash pack unpack checksum then_compact 1
      (engine single)

drained-done : drained.1 ≡ done tt
unfolding flush_immutable_memtables flush_single_memtable Memtable.drain ingodb.Base.Sort.sort_by
    ingodb.Base.Sort.place ingodb.Bytes.to_le_bytes ingodb.Sstable.Keys.mvcc_key
    ingodb.Blob.Id.as_bytes ingodb.Bytes.to_be_bytes ingodb.Blob.IBlob.Codec.encode
    ingodb.Blob.Value.encode Bloom.new ingodb.Bytes.from_le_bytes
drained-done = refl

-- A newer version of the document in the active memtable.
abbrev two_memtables : LsmEngine
two_memtables = record (engine single) {
  memtable = record { entries = ((7, 12), document 12) ∷ []; size_bytes = 0; max_size = 1000 };
}

get_at-rotate_memtable_example :
    get_at hash unpack checksum
      (layers (
        (rotate_memtable float_level never hash pack unpack checksum then_compact two_memtables).0))
      7
      12
    ≡ get_at hash unpack checksum (layers two_memtables) 7 12
get_at-rotate_memtable_example =
    get_at-rotate_memtable float_level never hash pack unpack checksum then_compact two_memtables 7
      12 refl

flush_immutable_memtables-drains_example : drained.0.immutable_memtables ≡ []
flush_immutable_memtables-drains_example =
    flush_immutable_memtables-drains float_level never hash pack unpack checksum then_compact
      (λ e. refl) 1 (engine single) (omega arith) drained-done

-- A compaction of the table 1, of an engine that has it and another table.
abbrev two_tables : LsmEngine
two_tables = record (engine single) {
  sstables = record { path = 2; reader = table } ∷ record { path = 1; reader = table } ∷ [];
}

abbrev open_file : ℕ → Outcome SstableReader
open_file path = done table

run_compaction-Replaced_example : Replaced (1 ∷ []) two_tables (
    run_compaction float_level hash pack unpack checksum open_file
      (1 ∷ [])
      (tombstone_filter (not true))
      two_tables)
run_compaction-Replaced_example =
    run_compaction-Replaced float_level hash pack unpack checksum open_file (1 ∷ [])
      (tombstone_filter (not true)) two_tables
