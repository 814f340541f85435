-- ===== src/Lsm/Indexed/Oldest.antt =====
-- crates/ingodb-lsm/src/lib.rs, `scan_with_secondary_index`: the versions of a document that the merge
-- with the memtable meets.
use ingodb.Base.{
  ℕ, ◌≤◌, ◌≡◌, ap, Bool-cases, inl, inr, Option, none, some, List, [], ◌∷◌, arith, All, ◌==◌,
  if◌then◌else◌, subst, sym, ◌∙◌, pair_ord,
}
use ingodb.Base.Maps.{BTreeMap, IsSorted, Above}
use ingodb.Blob.Id.{DocumentId}
use ingodb.Blob.IBlob.{IBlob}
use ingodb.Memtable
use ingodb.Memtable.{Key, MemTable, values}
use ingodb.Memtable.Size.{IsValid}
use ingodb.Query.{Filter}
use ingodb.Lsm.Merge.Latest.{find_id}
use ingodb.Lsm.Scan.{blobs_of, select}
use ingodb.Lsm.Scan.Select.{All-select}
use ingodb.Lsm.Scan.Memtables.{blobs_of-values}
use ingodb.Lsm.Traverse.{has_id}
use ingodb.Lsm.Follow.{push_unseen}

-- The first document of an id, unless the id was seen.
find_id-push_unseen :
    (id : ℕ) (docs : List IBlob) (seen : List DocumentId)
    → find_id id (push_unseen docs seen) ≡ (if has_id id seen then none else find_id id docs)
unfolding find_id push_unseen
find_id-push_unseen id [] seen = ground arith
find_id-push_unseen id (d ∷ docs) seen =
    ground (arith, find_id-push_unseen id docs seen, find_id-push_unseen id docs (d.id ∷ seen))

-- No version of a document stands before an older one.
abbrev IsOldestFirst : List IBlob → Type 0
IsOldestFirst [] = Unit
IsOldestFirst (b ∷ bs) = All (λ c. b.id ≡ c.id → b.version ≤ c.version) bs × IsOldestFirst bs

select-IsOldestFirst :
    (filter : Option Filter) (bs : List IBlob) → IsOldestFirst bs → IsOldestFirst (select filter bs)
unfolding select
select-IsOldestFirst filter [] o = tt
select-IsOldestFirst filter (b ∷ bs) o = ground (
  arith,
  select-IsOldestFirst filter bs o.1,
  All-select (λ c. b.id ≡ c.id → b.version ≤ c.version) filter bs o.0,
)

All-Above :
    (b : IBlob) (m : BTreeMap Key IBlob)
    → Above (b.id, b.version) m
    → All (λ kv. kv.0 ≡ (kv.1.id, kv.1.version)) m
    → All (λ c. b.id ≡ c.id → b.version ≤ c.version) (values m)
unfolding values pair_ord
All-Above b [] a k = tt
All-Above b (((j, u), c) ∷ m) a k =
    let i : j ≡ c.id = ap (λ p. p.0) k.0 in
    let w : u ≡ c.version = ap (λ p. p.1) k.0 in
    (λ same. ground (arith, a.0), All-Above b m a.1 k.1)

values-IsOldestFirst :
    (m : BTreeMap Key IBlob)
    → IsSorted m
    → All (λ kv. kv.0 ≡ (kv.1.id, kv.1.version)) m
    → IsOldestFirst (values m)
unfolding values
values-IsOldestFirst [] s k = tt
values-IsOldestFirst (((j, u), c) ∷ m) s k =
    let above : Above (c.id, c.version) m = subst (λ p. Above p m) k.0 s.0 in
    (All-Above c m above k.1, values-IsOldestFirst m s.1 k.1)

find_id-oldest :
    (id : ℕ) (b : IBlob) (bs : List IBlob)
    → IsOldestFirst bs
    → find_id id bs ≡ some b
    → All (λ c. c.id ≡ id → b.version ≤ c.version) bs
unfolding find_id
find_id-oldest id b [] o h = tt
find_id-oldest id b (c ∷ bs) o h = elim (Bool-cases (c.id == id)) [
  | inl same ↦
      let e : b ≡ c = ground arith in
      let i : c.id ≡ id = ground arith in (λ j. ground (arith, e), all_of c bs i e o.0)
  | inr other ↦ (λ j. absurd (ground arith), find_id-oldest id b bs o.1 (ground arith))
]
  where
    all_of :
        (c : IBlob) (cs : List IBlob)
        → c.id ≡ id
        → b ≡ c
        → All (λ d. c.id ≡ d.id → c.version ≤ d.version) cs
        → All (λ d. d.id ≡ id → b.version ≤ d.version) cs
    all_of c [] i e a = tt
    all_of c (d ∷ cs) i e a =
        let v : b.version ≡ c.version = ap (λ x. x.version) e in
        (λ j. let s : c.version ≤ d.version = a.0 (omega arith) in omega arith, all_of c cs i e a.1)

-- The documents of a valid memtable that a sorted scan by an index merges: of the versions of an id
-- that are no tombstones and pass the filter, it takes the oldest one, whatever newer ones there are.
pub push_unseen-oldest :
    (blake3 : List ℕ → List ℕ) (m : MemTable) (filter : Option Filter) (id : ℕ) (b : IBlob)
    → IsValid blake3 m
    → find_id id (push_unseen (select filter (blobs_of (Memtable.iter m))) []) ≡ some b
    → All (λ c. c.id ≡ id → b.version ≤ c.version) (select filter (blobs_of (Memtable.iter m)))
unfolding Memtable.iter
push_unseen-oldest blake3 m filter id b v h =
    let docs = select filter (blobs_of (Memtable.iter m)) in
    let o : IsOldestFirst docs = select-IsOldestFirst filter _ (
      subst IsOldestFirst (sym (blobs_of-values m.entries))
        (values-IsOldestFirst m.entries v.sorted v.keyed)) in
    find_id-oldest id b docs o (sym (find_id-push_unseen id docs []) ∙ h)
