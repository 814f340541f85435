-- ===== src/Lsm/Flush/Queue.antt =====
-- crates/ingodb-lsm/src/lib.rs, `flush_immutable_memtables`: what a flush leaves of the queue.
use ingodb.Base.{
  ℕ, zero, suc, ◌≡◌, ◌≤◌, refl, ap, Bool, Bool-cases, inl, inr, Option, none, some, List, [], ◌∷◌,
  ◌++◌, arith, length,
}
use ingodb.Blob.IBlob.{IBlob}
use ingodb.Memtable
use ingodb.Memtable.{MemTable}
use ingodb.Sstable.Error.{Outcome, done, failed, stuck}
use ingodb.Sstable.Keys.{mvcc_key}
use ingodb.Sstable.Writer
use ingodb.Sstable.Reader.{SstableReader}
use ingodb.Sstable.Lookup.{open_table}
use ingodb.Lsm.State.{LsmEngine, Ran, and_then}
use ingodb.Lsm.Flush.{
  pop, published, reindexed, flush_written, flush_drained, flush_popped, flush_single_memtable,
  flush_immutable_memtables,
}

pop-snoc : (mts : List MemTable) (mt : MemTable) → pop (mts ++ mt ∷ []) ≡ some (mts, mt)
pop-snoc [] mt = refl
pop-snoc (m ∷ []) mt = refl
pop-snoc (m ∷ n ∷ mts) mt = rw (pop-snoc (n ∷ mts) mt) refl

abbrev IsPopped : List MemTable → Option (List MemTable × MemTable) → Type 0
IsPopped mts none = length mts ≡ 0
IsPopped mts (some (rest, mt)) = length mts ≡ suc (length rest)

pop-IsPopped : (mts : List MemTable) → IsPopped mts (pop mts)
pop-IsPopped [] = refl
pop-IsPopped (m ∷ []) = refl
pop-IsPopped (m ∷ n ∷ mts) = ground (arith, pop-IsPopped (n ∷ mts))

length-nil : (mts : List MemTable) → length mts ≡ 0 → mts ≡ []
length-nil [] h = refl
length-nil (m ∷ mts) h = absurd (omega arith)

module _ (float_level : ℕ → ℕ → ℕ → ℕ) (rebuild : ℕ → ℕ → Bool) (blake3 : List ℕ → List ℕ)
    (compress : List ℕ → List ℕ) (decompress : List ℕ → Option (List ℕ)) (crc32 : List ℕ → ℕ)
    (then_compact : LsmEngine → Ran) where
  abbrev flush_one : MemTable → LsmEngine → Ran
  flush_one =
      flush_single_memtable float_level rebuild blake3 compress decompress crc32 then_compact

  abbrev flush_all : ℕ → LsmEngine → Ran
  flush_all =
      flush_immutable_memtables float_level rebuild blake3 compress decompress crc32 then_compact

  abbrev queue_of : Ran → List MemTable
  queue_of r = (r.0).immutable_memtables

  abbrev flush_bytes : List IBlob → LsmEngine → Outcome (List ℕ) → Ran
  flush_bytes = flush_written float_level rebuild blake3 compress decompress crc32 then_compact

  module _ (keeps : (e : LsmEngine) → queue_of (then_compact e) ≡ e.immutable_memtables) where
    published-queue :
        (sst_id : ℕ) (e : LsmEngine) (r : Outcome SstableReader)
        → queue_of (published float_level then_compact sst_id e r) ≡ e.immutable_memtables
    published-queue sst_id e (failed x) = refl
    published-queue sst_id e stuck = refl
    published-queue sst_id e (done reader) = elim (Bool-cases e.has_compaction_thread) [
      | inl yes_thread ↦ rw yes_thread refl
      | inr no_thread ↦ rw no_thread (keeps _)
    ]

    flush_bytes-queue :
        (blobs : List IBlob) (e : LsmEngine) (bytes : Outcome (List ℕ))
        → queue_of (flush_bytes blobs e bytes) ≡ e.immutable_memtables
    flush_bytes-queue blobs e (failed x) = refl
    flush_bytes-queue blobs e stuck = refl
    flush_bytes-queue blobs e (done bytes) =
        published-queue e.next_sst_id
          (reindexed float_level rebuild blake3 compress decompress crc32 blobs e)
          (open_table blake3 decompress crc32 bytes)

    drained-queue :
        (e : LsmEngine) (blobs : List IBlob)
        → queue_of (
            flush_drained float_level rebuild blake3 compress decompress crc32 then_compact e blobs)
          ≡ e.immutable_memtables
    drained-queue e [] = refl
    drained-queue e (b ∷ bs) =
        flush_bytes-queue (b ∷ bs) e
          (Writer.write compress crc32 blake3 e.block_size (b ∷ bs) mvcc_key)

    flush_one-queue :
        (mt : MemTable) (e : LsmEngine) → queue_of (flush_one mt e) ≡ e.immutable_memtables
    unfolding flush_single_memtable
    flush_one-queue mt e = drained-queue e (Memtable.drain mt).0

    IsDrained : Ran → Type 0
    IsDrained r = r.1 ≡ done tt → queue_of r ≡ []

    and_then-IsDrained :
        (r : Ran) (next : LsmEngine → Ran)
        → ((r.1 ≡ done tt) → IsDrained (next r.0))
        → IsDrained (and_then r next)
    unfolding IsDrained
    and_then-IsDrained (e, done u) next h = h refl
    and_then-IsDrained (e, failed x) next h = λ c. absurd (cc c)
    and_then-IsDrained (e, stuck) next h = λ c. absurd (cc c)

    popped-IsDrained :
        (fuel : ℕ) (e : LsmEngine) (o : Option (List MemTable × MemTable))
        → length e.immutable_memtables ≤ suc fuel
        → IsPopped e.immutable_memtables o
        → ((e' : LsmEngine) → length e'.immutable_memtables ≤ fuel → IsDrained (flush_all fuel e'))
        → IsDrained (flush_popped e o flush_one (flush_all fuel))
    unfolding IsDrained
    popped-IsDrained fuel e none h p rest = λ ok. length-nil e.immutable_memtables p
    popped-IsDrained fuel e (some (mts, mt)) h p rest =
        let e' : LsmEngine = record e { immutable_memtables = mts } in
        and_then-IsDrained (flush_one mt e') (flush_all fuel)
          (λ ok. rest (flush_one mt e').0 (omega (arith, ap length (flush_one-queue mt e'), p)))

    drains :
        (fuel : ℕ) (e : LsmEngine)
        → length e.immutable_memtables ≤ fuel
        → IsDrained (flush_all fuel e)
    unfolding flush_immutable_memtables IsDrained
    drains zero e h = λ ok. length-nil e.immutable_memtables (omega arith)
    drains (suc fuel) e h =
        popped-IsDrained fuel e (pop e.immutable_memtables) (omega arith)
          (pop-IsPopped e.immutable_memtables) (drains fuel)

    -- A flush of the queue, with a round for each memtable and a compaction that leaves the queue alone:
    -- where it returns without an error, no memtable is left in the queue.
    pub flush_immutable_memtables-drains :
        (fuel : ℕ) (e : LsmEngine)
        → length e.immutable_memtables ≤ fuel
        → (flush_all fuel e).1 ≡ done tt
        → queue_of (flush_all fuel e) ≡ []
    unfolding IsDrained
    flush_immutable_memtables-drains fuel e h = drains fuel e h
