-- ===== src/Lsm/Merge/Purge.antt =====
-- Without snapshots a merge leaves one version of each document, and may drop the deleted ones.
use ingodb.Base.{
  ℕ, ◌<◌, ◌≤◌, ◌≡◌, ◌≢◌, refl, ap, ◌∙◌, Bool, true, false, Option, none, some, List, [], ◌∷◌, arith,
  All, gt, if◌then◌else◌,
}
use ingodb.Base.Sort.{sort_by, IsSortedBy}
use ingodb.Blob.IBlob.{IBlob, is_deleted}
use ingodb.Lsm.Merge.{
  by_id_version, dedup_after, dedup_by_id, apply_filter, tombstone_filter, merge,
}
use ingodb.Lsm.Merge.Latest.{find_id, latest, sorted, find_id-merge}

-- One document for each id, in the order of the ids.
abbrev pub IsAscending : List IBlob → Type 0
IsAscending [] = Unit
IsAscending (b ∷ bs) = All (λ c. b.id < c.id) bs × IsAscending bs

All-below : (i j : ℕ) (bs : List IBlob) → i ≤ j → All (λ c. j < c.id) bs → All (λ c. i < c.id) bs
All-below i j [] h a = tt
All-below i j (c ∷ bs) h a = (omega arith, All-below i j bs h a.1)

pub ids_from :
    (b : IBlob) (bs : List IBlob) → All (λ c. by_id_version b c ≢ gt) bs → All (λ c. b.id ≤ c.id) bs
ids_from b [] a = tt
ids_from b (c ∷ bs) a = (ground (arith, a.0), ids_from b bs a.1)

dedup_after-IsAscending :
    (j : ℕ) (bs : List IBlob)
    → All (λ c. j ≤ c.id) bs
    → IsSortedBy by_id_version bs
    → All (λ c. j < c.id) (dedup_after j bs) × IsAscending (dedup_after j bs)
unfolding dedup_after
dedup_after-IsAscending j [] a s = (tt, tt)
dedup_after-IsAscending j (c ∷ bs) a s = ground (
  arith,
  dedup_after-IsAscending j bs a.1 s.1,
  dedup_after-IsAscending c.id bs (ids_from c bs s.0) s.1,
  All-below j c.id (dedup_after c.id bs),
)

pub dedup_by_id-IsAscending :
    (bs : List IBlob) → IsSortedBy by_id_version bs → IsAscending (dedup_by_id bs)
unfolding dedup_by_id
dedup_by_id-IsAscending [] s = tt
dedup_by_id-IsAscending (b ∷ bs) s = dedup_after-IsAscending b.id bs (ids_from b bs s.0) s.1

pub All-tombstone_filter :
    (P : IBlob → Type 0) (purge : Bool) (bs : List IBlob)
    → All P bs
    → All P (apply_filter (tombstone_filter purge) bs)
unfolding apply_filter tombstone_filter
All-tombstone_filter P purge [] a = tt
All-tombstone_filter P purge (b ∷ bs) a = ground (arith, All-tombstone_filter P purge bs)

tombstone_filter-IsAscending :
    (purge : Bool) (bs : List IBlob)
    → IsAscending bs
    → IsAscending (apply_filter (tombstone_filter purge) bs)
unfolding apply_filter tombstone_filter
tombstone_filter-IsAscending purge [] a = tt
tombstone_filter-IsAscending purge (b ∷ bs) a =
    ground (
      arith,
      tombstone_filter-IsAscending purge bs,
      All-tombstone_filter (λ c. b.id < c.id) purge bs,
    )

-- What a reader makes of the version that it finds.
abbrev pub live : Option IBlob → Option IBlob
live none = none
live (some b) = if is_deleted b then none else some b

pub find_id-none : (id : ℕ) (bs : List IBlob) → All (λ c. id < c.id) bs → find_id id bs ≡ none
unfolding find_id
find_id-none id [] a = refl
find_id-none id (b ∷ bs) a = ground (arith, find_id-none id bs)

live-tombstone_filter :
    (purge : Bool) (id : ℕ) (bs : List IBlob)
    → IsAscending bs
    → live (find_id id (apply_filter (tombstone_filter purge) bs)) ≡ live (find_id id bs)
unfolding apply_filter tombstone_filter find_id
live-tombstone_filter purge id [] a = refl
live-tombstone_filter purge id (b ∷ bs) a =
    ground (arith, live-tombstone_filter purge id bs a.1, find_id-none b.id bs a.0)

-- A compaction without snapshots, whether it purges tombstones or not: its output has at most one
-- version of each document, in the order of the ids, and a reader finds in it for every id what is
-- newest in the inputs, or nothing where that is a tombstone.
pub merge-latest :
    (purge : Bool) (bs : List IBlob)
    → IsAscending (merge none (tombstone_filter purge) bs)
      × ((id : ℕ)
          → live (find_id id (merge none (tombstone_filter purge) bs)) ≡ live (latest id bs))
unfolding merge
merge-latest purge bs =
    let kept = dedup_by_id (sort_by by_id_version bs) in
    let asc = dedup_by_id-IsAscending (sort_by by_id_version bs) (sorted bs) in
    (
      tombstone_filter-IsAscending purge kept asc,
      λ id. live-tombstone_filter purge id kept asc ∙ ap live (find_id-merge none id bs),
    )

-- A purge leaves no tombstone.
pub purge-live :
    (bs : List IBlob) → All (λ b. is_deleted b ≡ false) (apply_filter (tombstone_filter true) bs)
unfolding apply_filter tombstone_filter
purge-live [] = tt
purge-live (b ∷ bs) = ground (arith, purge-live bs)
