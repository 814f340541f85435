-- ===== src/Lsm/Flush/Reached.antt =====
-- crates/ingodb-lsm/src/lib.rs, `LsmEngine`: the states of the layers that writes, rotations and flushes
-- lead to.
use ingodb.Base.{
  ℕ, ◌≡◌, refl, ap, Option, none, some, List, [], ◌∷◌, ◌++◌, ◌∙◌, All, All-left, subst,
}
use ingodb.Blob.IBlob.{IBlob}
use ingodb.Memtable
use ingodb.Memtable.{MemTable}
use ingodb.Memtable.Size.{IsValid, new-IsValid}
use ingodb.Sstable.Reader.{SstableReader}
use ingodb.Lsm.Engine.{Layers, swap_memtable, write_memtable}
use ingodb.Lsm.Flush.{pop}
use ingodb.Lsm.Scan.{blobs_of, immutable_blobs}
use ingodb.Lsm.Scan.Ordered.{Newer, IsQueue, IsLayered}
use ingodb.Lsm.Scan.Kept.{
  immutable_blobs-snoc, Newer-left, swap_memtable-IsLayered, write_memtable-IsLayered,
}

-- The memtable that is popped was the last of the queue.
abbrev IsLast : List MemTable → Option (List MemTable × MemTable) → Type 0
IsLast mts none = Unit {0}
IsLast mts (some (rest, mt)) = mts ≡ rest ++ mt ∷ []

pop-IsLast : (mts : List MemTable) → IsLast mts (pop mts)
pop-IsLast [] = tt
pop-IsLast (m ∷ []) = refl
pop-IsLast (m ∷ n ∷ mts) =
    elim (pop (n ∷ mts))
        as (λ o.
          IsLast (n ∷ mts) o
          → IsLast (m ∷ n ∷ mts)
              (elim o [ none ↦ none | some popped ↦ some (m ∷ popped.0, popped.1) ])) [
                | none ↦ λ last. tt
                | some popped ↦ λ last. ap (λ t. m ∷ t) last
              ]
      (pop-IsLast (n ∷ mts))

IsQueue-left : (mts : List MemTable) (mt : MemTable) → IsQueue (mts ++ mt ∷ []) → IsQueue mts
IsQueue-left [] mt q = tt
IsQueue-left (m ∷ mts) mt q = (
  All-left _ (immutable_blobs mts) (blobs_of (Memtable.iter mt))
      (subst (λ bs. Newer bs (blobs_of (Memtable.iter m))) (immutable_blobs-snoc mts mt) q.0),
  IsQueue-left mts mt q.1,
)

module _ (blake3 : List ℕ → List ℕ) where
  -- A write, of versions that are newer than those that the queue holds of their ids; a rotation; and
  -- a flush, which takes the last memtable of the queue and changes the tables.
  pub data Step (e : Layers) : Layers → Type 0 where
    write :
        (blobs : List IBlob)
        → Newer blobs (immutable_blobs e.immutable_memtables)
        → Step e (write_memtable blake3 blobs e).0
    rotate : (memtable_size : ℕ) → Step e (swap_memtable memtable_size e)
    flush :
        (mts : List MemTable) (mt : MemTable) (sstables : List SstableReader)
        → pop e.immutable_memtables ≡ some (mts, mt)
        → Step e (record { memtable = e.memtable; immutable_memtables = mts; sstables = sstables })

  -- From an engine that was opened with an empty memtable.
  pub data IsReachable : Layers → Type 0 where
    opened :
        (memtable_size : ℕ) (sstables : List SstableReader)
        → IsReachable (record {
          memtable = Memtable.new memtable_size;
          immutable_memtables = [];
          sstables = sstables;
        })
    later : {e e' : Layers} → IsReachable e → Step e e' → IsReachable e'

  popped-IsLayered :
      (e : Layers) (mts : List MemTable) (mt : MemTable) (sstables : List SstableReader)
      → e.immutable_memtables ≡ mts ++ mt ∷ []
      → IsLayered blake3 e
      → IsLayered blake3
          (record { memtable = e.memtable; immutable_memtables = mts; sstables = sstables })
  popped-IsLayered e mts mt sstables last l = record {
    active = l.active;
    queued = All-left _ mts (mt ∷ []) (subst (All (IsValid blake3)) last l.queued);
    queue = IsQueue-left mts mt (subst IsQueue last l.queue);
    newest = Newer-left _ (immutable_blobs mts) (blobs_of (Memtable.iter mt)) (
        subst (Newer (blobs_of (Memtable.iter e.memtable)))
          (ap immutable_blobs last ∙ immutable_blobs-snoc mts mt) l.newest);
  }

  step-IsLayered : (e e' : Layers) → Step e e' → IsLayered blake3 e → IsLayered blake3 e'
  step-IsLayered e e' (write blobs fresh) l = write_memtable-IsLayered blake3 blobs e fresh l
  step-IsLayered e e' (rotate memtable_size) l = swap_memtable-IsLayered blake3 memtable_size e l
  step-IsLayered e e' (flush mts mt sstables popped) l =
      popped-IsLayered e mts mt sstables
        (subst (IsLast e.immutable_memtables) popped (pop-IsLast e.immutable_memtables)) l

  -- Whatever writes of newer versions, rotations and flushes of the last queued memtable follow the
  -- opening, in whatever order: the memtables are valid, and of each id the active one holds newer
  -- versions than the queue, and the queue newer ones the later it was filled.
  pub IsReachable-IsLayered : (e : Layers) → IsReachable e → IsLayered blake3 e
  unfolding immutable_blobs Memtable.new Memtable.iter
  IsReachable-IsLayered e (opened memtable_size sstables) = record {
    active = new-IsValid blake3 memtable_size;
    queued = tt;
    queue = tt;
    newest = tt;
  }
  IsReachable-IsLayered e (later {e = e0} before step) =
      step-IsLayered e0 e step (IsReachable-IsLayered e0 before)
