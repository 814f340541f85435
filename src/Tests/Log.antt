-- ===== src/Tests/Log.antt =====
-- The write-ahead log and the memtable at concrete documents.
use ingodb.Base.{
  ℕ, ◌+◌, ◌^◌, ◌<◌, ◌≡◌, refl, arith, List, [], ◌∷◌, map, length, take, All, Option, some, none,
}
use ingodb.Blob.IBlob.{IBlob}
use ingodb.Blob.IBlob.Codec
use ingodb.Wal.{Wal, open_wal, append, append_batch, recover}
use ingodb.Wal.Recovery.{whole}
use ingodb.Wal.Append.{record_of, IsLoggable, append_lem, recover-append_batch_cut}
use ingodb.Wal.Append
use ingodb.Memtable
use ingodb.Memtable.{MemTable, get, insert, should_flush}
use ingodb.Memtable.Size
use ingodb.Memtable.Size.{new-IsValid, insert-IsValid}
use ingodb.Memtable.Lookup.{IsLatest, newer, get-IsLatest, get-insert_lem}
use ingodb.Tests.{
  hash, hash-IsHash, checksum, checksum-lt, document, document-IsStorable, document-IsCoherent,
}

abbrev pub batch : List IBlob
batch = document 9 ∷ document 12 ∷ []

document-IsLoggable :
    (version : ℕ) → version < 256 ^ 16 → IsLoggable hash checksum (document version)
unfolding Codec.encode Codec.serialize ingodb.Bytes.to_le_bytes ingodb.Blob.Id.as_bytes
    ingodb.Bytes.to_be_bytes ingodb.Base.Sort.sort_by ingodb.Base.Sort.place
    ingodb.Blob.Value.encode
document-IsLoggable version h = record {
  storable = document-IsStorable version h;
  coherent = document-IsCoherent version;
  short = omega arith;
}

pub batch-IsLoggable : All (IsLoggable hash checksum) batch
batch-IsLoggable = (document-IsLoggable 9 (omega arith), (document-IsLoggable 12 (omega arith), tt))

recover-append_batch_cut_example :
    recover hash checksum (take 150 (append_batch hash checksum (open_wal []) batch).0.file)
    ≡ map (λ r. r.1) (whole hash checksum 150 (map (record_of hash checksum) batch))
recover-append_batch_cut_example =
    recover-append_batch_cut hash checksum hash-IsHash checksum-lt 150 batch batch-IsLoggable

abbrev log : Wal
log = record { file = 1 ∷ 2 ∷ []; size = 2 }

log-IsValid : Append.IsValid log
log-IsValid = record { counted = refl }

append_lem_example :
    ((append hash checksum log (document 9)).0 ≡ 2)
    × Append.IsValid (append hash checksum log (document 9)).1
    × ((append hash checksum log (document 9)).1
        ≡ (append_batch hash checksum log (document 9 ∷ [])).0)
append_lem_example = append_lem hash checksum log (document 9) log-IsValid

abbrev small_table : MemTable
small_table = (insert hash (Memtable.new 100) (document 9)).0

small_table-IsValid : Size.IsValid hash small_table
small_table-IsValid = (insert-IsValid hash (Memtable.new 100) (document 9) (new-IsValid hash 100)).0

insert-IsValid_example :
    Size.IsValid hash (insert hash small_table (document 12)).0
    × ((insert hash small_table (document 12)).1
        ≡ should_flush (insert hash small_table (document 12)).0)
insert-IsValid_example = insert-IsValid hash small_table (document 12) small_table-IsValid

get-IsLatest_example : IsLatest small_table.entries 7 10 (get small_table 7 10)
get-IsLatest_example = get-IsLatest hash small_table 7 10 small_table-IsValid

get-insert_lem_example :
    get (insert hash small_table (document 12)).0 7 20
    ≡ newer 7 20 (Codec.encode hash (document 12)).1 (get small_table 7 20)
get-insert_lem_example = get-insert_lem hash small_table (document 12) 7 20 small_table-IsValid
