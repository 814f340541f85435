-- ===== src/Tests/Scans.antt =====
-- Scans and traversals of an engine with a memtable, a queued memtable and a table.
use ingodb.Base.{
  ℕ, ◌+◌, ◌^◌, ◌<◌, ◌≡◌, refl, arith, Option, some, none, List, [], ◌∷◌, ◌++◌, map, length, All,
  true, min,
}
use ingodb.Blob.Id.{IsId}
use ingodb.Blob.IBlob.{IBlob}
use ingodb.Blob.IBlob.Codec
use ingodb.Blob.IBlob.Codec.RoundTrip.{decoded}
use ingodb.Memtable
use ingodb.Memtable.Size.{encode-key}
use ingodb.Memtable.{MemTable}
use ingodb.Sstable.Error.{done}
use ingodb.Lsm.Merge.Latest.{find_id}
use ingodb.Lsm.Merge.Purge.{IsAscending}
use ingodb.Lsm.Engine.{Layers, swap_memtable, write_memtable, get_at}
use ingodb.Lsm.Scan.{memtable_blobs, immutable_blobs, scan_layers}
use ingodb.Lsm.Scan.Select.{matching}
use ingodb.Lsm.Scan.Ordered.{IsLayered, AreTables, Newer, table_blobs, scan_layers-get_at}
use ingodb.Lsm.Flush.{pop}
use ingodb.Lsm.Flush.Reached.{
  IsReachable, opened, later, write, rotate, flush, IsReachable-IsLayered,
}
use ingodb.Tests.{hash, checksum, document}
use ingodb.Tests.Engine.{with_document, with_document-IsValid}
use ingodb.Tests.Table.{unpack}
use ingodb.Tests.Stored.{group, table, table-IsTable}

abbrev pub full : Layers
full = record {
  memtable = with_document 20;
  immutable_memtables = with_document 15 ∷ [];
  sstables = table ∷ [];
}

fresh :
    (v w : ℕ)
    → v < w
    → 7 ≡ (Codec.encode hash (document v)).1.id
    → (Codec.encode hash (document v)).1.version < w
fresh v w h i = omega (arith, (encode-key hash (document v)).1)

newer_version :
    (v w : ℕ)
    → v < w
    → (Codec.encode hash (document w)).1.id ≡ (Codec.encode hash (document v)).1.id
    → (Codec.encode hash (document v)).1.version < (Codec.encode hash (document w)).1.version
newer_version v w h i =
    omega (arith, (encode-key hash (document v)).1, (encode-key hash (document w)).1)

stored :
    (v w : ℕ)
    → v < w
    → (Codec.encode hash (document w)).1.id ≡ (decoded hash (document v)).id
    → (decoded hash (document v)).version < (Codec.encode hash (document w)).1.version
unfolding decoded
stored v w h i = omega (arith, (encode-key hash (document w)).1)

full-IsLayered : IsLayered hash full
unfolding Memtable.iter Memtable.insert Memtable.new ingodb.Base.Maps.insert immutable_blobs
full-IsLayered = record {
  active = with_document-IsValid 20;
  queued = (with_document-IsValid 15, tt);
  queue = (tt, tt);
  newest = ((newer_version 15 20 (omega arith), tt), tt);
}

full-AreTables : AreTables hash unpack checksum full.sstables ((group ∷ []) ∷ [])
full-AreTables = (table-IsTable, (tt, (tt, tt)), tt)

full-Newer : Newer (memtable_blobs full) (table_blobs ((group ∷ []) ∷ []))
unfolding Memtable.iter Memtable.insert Memtable.new ingodb.Base.Maps.insert immutable_blobs
    memtable_blobs
full-Newer = (
  (stored 9 20 (omega arith), (stored 12 20 (omega arith), tt)),
  ((stored 9 15 (omega arith), (stored 12 15 (omega arith), tt)), tt),
)

opened_layers :
    IsReachable hash
      (record { memtable = Memtable.new 1000; immutable_memtables = []; sstables = [] })
opened_layers = opened 1000 []

-- Two documents written, the memtable rotated, a newer version written, and the queue flushed.
abbrev first_write : Layers
first_write =
    (write_memtable hash (document 9 ∷ document 12 ∷ [])
      (record { memtable = Memtable.new 1000; immutable_memtables = []; sstables = [] })).0

abbrev queued : Layers
queued = swap_memtable 1000 first_write

abbrev second_write : Layers
second_write = (write_memtable hash (document 15 ∷ []) queued).0

abbrev flushed : Layers
flushed = record {
  memtable = second_write.memtable;
  immutable_memtables = [];
  sstables = table ∷ [];
}

queued-Newer : Newer (document 15 ∷ []) (immutable_blobs queued.immutable_memtables)
unfolding immutable_blobs Memtable.iter Memtable.insert Memtable.new ingodb.Base.Maps.insert
    swap_memtable write_memtable ingodb.Lsm.Engine.insert_all ingodb.Base.pair_ord
queued-Newer = ((fresh 9 15 (omega arith), (fresh 12 15 (omega arith), tt)), tt)

second_write_popped : pop second_write.immutable_memtables ≡ some ([], first_write.memtable)
unfolding swap_memtable write_memtable
second_write_popped = refl

flushed-IsReachable : IsReachable hash flushed
unfolding immutable_blobs
flushed-IsReachable =
    later
      (later
        (later (later opened_layers (write (document 9 ∷ document 12 ∷ []) (tt, (tt, tt))))
          (rotate 1000))
        (write (document 15 ∷ []) queued-Newer))
      (flush [] first_write.memtable (table ∷ []) second_write_popped)

IsReachable-IsLayered_example : IsLayered hash flushed
IsReachable-IsLayered_example = IsReachable-IsLayered hash flushed flushed-IsReachable

scan_layers-get_at_example :
    (bs : List IBlob) × (scan_layers hash unpack checksum none none none none 30 full ≡ done bs)
    × IsAscending bs
    × ((id : ℕ)
        → IsId id
        → (o : Option IBlob) × (get_at hash unpack checksum full id 30 ≡ done o)
          × (find_id id bs ≡ matching none o))
scan_layers-get_at_example =
    scan_layers-get_at hash unpack checksum none 30 full ((group ∷ []) ∷ []) (omega arith)
      full-IsLayered full-AreTables full-Newer
