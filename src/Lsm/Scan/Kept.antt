-- ===== src/Lsm/Scan/Kept.antt =====
-- crates/ingodb-lsm/src/lib.rs, `LsmEngine`: the order of the layers under writes and rotations.
use ingodb.Base.{
  ℕ, ◌<◌, ◌≡◌, refl, sym, ap, ◌∙◌, List, [], ◌∷◌, ◌++◌, All, All-append, All-left, All-right,
  append_assoc, append-nil, subst, pair_ord,
}
use ingodb.Base.Maps
use ingodb.Base.Maps.{BTreeMap, All-insert}
use ingodb.Blob.IBlob.{IBlob}
use ingodb.Blob.IBlob.Codec
use ingodb.Memtable
use ingodb.Memtable.{Key, MemTable, values}
use ingodb.Memtable.Size.{IsValid, encode-key, insert-IsValid, total}
use ingodb.Lsm.Engine.{Layers, swap_memtable, write_memtable, insert_all}
use ingodb.Lsm.Scan.{blobs_of, immutable_blobs}
use ingodb.Lsm.Scan.Memtables.{blobs_of-values}
use ingodb.Lsm.Scan.Ordered.{Newer, IsQueue, IsLayered}

pub immutable_blobs-snoc :
    (mts : List MemTable) (mt : MemTable)
    → immutable_blobs (mts ++ mt ∷ []) ≡ immutable_blobs mts ++ blobs_of (Memtable.iter mt)
unfolding immutable_blobs
immutable_blobs-snoc [] mt = append-nil (blobs_of (Memtable.iter mt))
immutable_blobs-snoc (m ∷ mts) mt =
    ap (λ t. blobs_of (Memtable.iter m) ++ t) (immutable_blobs-snoc mts mt)
    ∙ sym (append_assoc (blobs_of (Memtable.iter m)) (immutable_blobs mts) _)

pub Newer-left : (bs cs ds : List IBlob) → Newer bs (cs ++ ds) → Newer bs cs
Newer-left [] cs ds n = tt
Newer-left (b ∷ bs) cs ds n = (All-left _ cs ds n.0, Newer-left bs cs ds n.1)

Newer-right : (bs cs ds : List IBlob) → Newer bs (cs ++ ds) → Newer bs ds
Newer-right [] cs ds n = tt
Newer-right (b ∷ bs) cs ds n = (All-right _ cs ds n.0, Newer-right bs cs ds n.1)

-- A memtable whose versions are newer than all of the queue is queued last.
IsQueue-snoc :
    (mts : List MemTable) (mt : MemTable)
    → IsQueue mts
    → Newer (blobs_of (Memtable.iter mt)) (immutable_blobs mts)
    → IsQueue (mts ++ mt ∷ [])
unfolding immutable_blobs
IsQueue-snoc [] mt q n = (tt, tt)
IsQueue-snoc (m ∷ mts) mt q n =
    let here = blobs_of (Memtable.iter mt) in
    let there = blobs_of (Memtable.iter m) in
    (
      subst (λ bs. Newer bs there) (sym (immutable_blobs-snoc mts mt))
          (All-append _ (immutable_blobs mts) here q.0
            (Newer-left here there (immutable_blobs mts) n)),
      IsQueue-snoc mts mt q.1 (Newer-right here there (immutable_blobs mts) n),
    )

All-values : (P : IBlob → Type 0) (m : BTreeMap Key IBlob) → All (λ kv. P kv.1) m → All P (values m)
unfolding values
All-values P [] a = tt
All-values P ((k, b) ∷ m) a = (a.0, All-values P m a.1)

All-entries :
    (P : IBlob → Type 0) (m : BTreeMap Key IBlob) → All P (values m) → All (λ kv. P kv.1) m
unfolding values
All-entries P [] a = tt
All-entries P ((k, b) ∷ m) a = (a.0, All-entries P m a.1)

All-iter :
    (P : IBlob → Type 0) (m : MemTable)
    → All P (values m.entries)
    → All P (blobs_of (Memtable.iter m))
unfolding Memtable.iter
All-iter P m a = subst (All P) (sym (blobs_of-values m.entries)) a

iter-All :
    (P : IBlob → Type 0) (m : MemTable)
    → All P (blobs_of (Memtable.iter m))
    → All P (values m.entries)
unfolding Memtable.iter
iter-All P m a = subst (All P) (blobs_of-values m.entries) a

module _ (blake3 : List ℕ → List ℕ) where
  -- A rotation keeps the layers valid and in order.
  pub swap_memtable-IsLayered :
      (memtable_size : ℕ) (e : Layers)
      → IsLayered blake3 e
      → IsLayered blake3 (swap_memtable memtable_size e)
  unfolding swap_memtable Memtable.new Memtable.iter values total
  swap_memtable-IsLayered memtable_size e l = record {
    active = record { sorted = tt; keyed = tt; counted = refl };
    queued = All-append _ e.immutable_memtables _ l.queued (l.active, tt);
    queue = IsQueue-snoc e.immutable_memtables e.memtable l.queue l.newest;
    newest = tt;
  }

  insert-Newer :
      (m : MemTable) (b : IBlob) (cs : List IBlob)
      → Newer (b ∷ []) cs
      → Newer (blobs_of (Memtable.iter m)) cs
      → Newer (blobs_of (Memtable.iter (Memtable.insert blake3 m b).0)) cs
  unfolding Memtable.insert
  insert-Newer m b cs fresh n =
      let same = encode-key blake3 b in
      let P : IBlob → Type 0 = λ x. All (λ c. x.id ≡ c.id → c.version < x.version) cs in
      let b' = (Codec.encode blake3 b).1 in
      All-iter P (Memtable.insert blake3 m b).0 (
        All-values P (Maps.insert (b.id, b.version) b' m.entries) (
          All-insert (λ kv. P kv.1) (b.id, b.version) b' m.entries (rw (same.0, same.1) fresh.0)
            (All-entries P m.entries (iter-All P m n))))

  insert_all-IsValid :
      (blobs : List IBlob) (m : MemTable) (cs : List IBlob)
      → Newer blobs cs
      → IsValid blake3 m
      → Newer (blobs_of (Memtable.iter m)) cs
      → IsValid blake3 (insert_all blake3 blobs m)
        × Newer (blobs_of (Memtable.iter (insert_all blake3 blobs m))) cs
  unfolding insert_all
  insert_all-IsValid [] m cs fresh v n = (v, n)
  insert_all-IsValid (b ∷ blobs) m cs fresh v n =
      insert_all-IsValid blobs (Memtable.insert blake3 m b).0 cs fresh.1
        (insert-IsValid blake3 m b v).0 (insert-Newer m b cs (fresh.0, tt) n)

  -- A write of documents whose versions are newer than those that the queue holds of their ids keeps
  -- the layers valid and in order.
  pub write_memtable-IsLayered :
      (blobs : List IBlob) (e : Layers)
      → Newer blobs (immutable_blobs e.immutable_memtables)
      → IsLayered blake3 e
      → IsLayered blake3 (write_memtable blake3 blobs e).0
  unfolding write_memtable
  write_memtable-IsLayered blobs e fresh l =
      let (v, n) =
        insert_all-IsValid blobs e.memtable (immutable_blobs e.immutable_memtables) fresh l.active
          l.newest in
      record { active = v; queued = l.queued; queue = l.queue; newest = n }
