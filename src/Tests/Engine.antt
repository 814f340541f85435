-- ===== src/Tests/Engine.antt =====
-- Reads of an engine that holds two memtables.
use ingodb.Base.{
  ℕ, ◌+◌, ◌≤◌, ◌≡◌, ◌==◌, ◌&&◌, refl, sym, ap, ◌∙◌, arith, Option, none, some, List, [], ◌∷◌, leb,
  if◌then◌else◌,
}
use ingodb.Blob.IBlob.{IBlob}
use ingodb.Blob.IBlob.Codec
use ingodb.Memtable
use ingodb.Memtable.{MemTable}
use ingodb.Memtable.Size.{IsValid, new-IsValid, insert-IsValid, encode-key}
use ingodb.Sstable.Error.{done}
use ingodb.Lsm.Merge.Purge.{live}
use ingodb.Lsm.Engine.{Layers, write_memtable, get_at}
use ingodb.Lsm.Engine.Reads.{get_at-write_memtable}
use ingodb.Tests.{hash, checksum, document}

abbrev pub no_codec : List ℕ → Option (List ℕ)
no_codec xs = none

abbrev pub with_document : ℕ → MemTable
with_document version = (Memtable.insert hash (Memtable.new 1000) (document version)).0

pub with_document-IsValid : (version : ℕ) → IsValid hash (with_document version)
with_document-IsValid version =
    (insert-IsValid hash (Memtable.new 1000) (document version) (new-IsValid hash 1000)).0

abbrev layers : Layers
layers = record {
  memtable = with_document 9;
  immutable_memtables = with_document 4 ∷ [];
  sstables = [];
}

held : Memtable.get (with_document 9) 7 20 ≡ some (Codec.encode hash (document 9)).1
unfolding Memtable.get Memtable.insert ingodb.Base.Maps.Range.last ingodb.Base.Maps.Range.range
    ingodb.Base.Maps.insert Memtable.new ingodb.Base.pair_ord
held = refl

version_of : Option IBlob → ℕ
version_of none = 0
version_of (some b) = b.version

layers-newest : (old : IBlob) → Memtable.get (with_document 9) 7 20 ≡ some old → old.version ≤ 12
unfolding version_of
layers-newest old found =
    omega (arith, ap version_of (sym held ∙ found), (encode-key hash (document 9)).1)

get_at-write_memtable_example :
    get_at hash no_codec checksum (write_memtable hash (document 12 ∷ []) layers).0 7 20 ≡ (
      if 7 == 7 && leb 12 20
      then done (live (some (Codec.encode hash (document 12)).1))
      else get_at hash no_codec checksum layers 7 20)
get_at-write_memtable_example =
    get_at-write_memtable hash no_codec checksum layers (document 12) 7 20 (with_document-IsValid 9)
      layers-newest
