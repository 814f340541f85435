-- ===== src/Tests/Reopen.antt =====
-- Restarts of an engine whose log holds two documents.
use ingodb.Base.{ℕ, ◌≡◌, List, []}
use ingodb.Wal
use ingodb.Memtable
use ingodb.Lsm.Engine.{open_log, put_stamped}
use ingodb.Lsm.Engine.Reopen.{IsSameRead, open_log-put_stamped, open_log-twice}
use ingodb.Tests.{hash, hash-IsHash, checksum, checksum-lt, document}
use ingodb.Tests.Log.{batch, batch-IsLoggable}

open_log-put_stamped_example :
    IsSameRead
      (Memtable.get
        (open_log hash checksum 1000
          (put_stamped hash checksum batch (Wal.open_wal [], Memtable.new 1000)).0.file).1
        7
        10)
      (Memtable.get (put_stamped hash checksum batch (Wal.open_wal [], Memtable.new 1000)).1 7 10)
open_log-put_stamped_example =
    open_log-put_stamped hash hash-IsHash checksum checksum-lt 1000 batch 7 10 batch-IsLoggable

abbrev file : List ℕ
file = (Wal.append hash checksum (Wal.open_wal []) (document 9)).1.file

open_log-twice_example :
    (open_log hash checksum 1000 (open_log hash checksum 1000 file).0.file).1 ≡ Memtable.new 1000
open_log-twice_example = open_log-twice hash checksum 1000 file
