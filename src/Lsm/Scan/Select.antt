-- ===== src/Lsm/Scan/Select.antt =====
-- crates/ingodb-lsm/src/lib.rs, `scan_at`: which documents a scan returns.
use ingodb.Base.{
  ℕ, ◌<◌, ◌≡◌, refl, ap, ◌∙◌, Option, none, some, List, [], ◌∷◌, arith, All, retain, if◌then◌else◌,
}
use ingodb.Base.Sort.{sort_by}
use ingodb.Blob.Id.{DocumentId}
use ingodb.Blob.IBlob.{IBlob}
use ingodb.Query.{Filter}
use ingodb.Sstable.Error.{done}
use ingodb.Lsm.Merge.{by_id_version}
use ingodb.Lsm.Merge.Latest.{find_id, latest, sorted, find_id-merge}
use ingodb.Lsm.Merge.Purge.{IsAscending, live, dedup_by_id-IsAscending, find_id-none}
use ingodb.Lsm.Engine.{Layers}
use ingodb.Lsm.Scan.{
  passes, select, visible, current, collect_layers, scan_layers, sort_results, truncate,
  project_all,
}

-- What a filter leaves of the version that a reader finds.
abbrev pub matching : Option Filter → Option IBlob → Option IBlob
matching filter none = none
matching filter (some b) = if passes filter b then some b else none

-- What a reader at the snapshot finds of an id among all versions: the newest one up to the snapshot,
-- unless it is a tombstone.
abbrev pub latest_at : DocumentId → DocumentId → List IBlob → Option IBlob
latest_at snapshot id all = latest id (retain (visible snapshot) all)

pub All-select :
    (P : IBlob → Type 0) (filter : Option Filter) (bs : List IBlob)
    → All P bs
    → All P (select filter bs)
unfolding select
All-select P filter [] a = tt
All-select P filter (b ∷ bs) a = ground (arith, All-select P filter bs)

select-IsAscending :
    (filter : Option Filter) (bs : List IBlob) → IsAscending bs → IsAscending (select filter bs)
unfolding select
select-IsAscending filter [] a = tt
select-IsAscending filter (b ∷ bs) a =
    ground (arith, select-IsAscending filter bs, All-select (λ c. b.id < c.id) filter bs)

find_id-select :
    (filter : Option Filter) (id : ℕ) (bs : List IBlob)
    → IsAscending bs
    → find_id id (select filter bs) ≡ matching filter (live (find_id id bs))
unfolding select find_id
find_id-select filter id [] a = refl
find_id-select filter id (b ∷ bs) a =
    ground (arith, find_id-select filter id bs a.1, find_id-none b.id bs a.0)

pub current-IsAscending :
    (snapshot : DocumentId) (all : List IBlob) → IsAscending (current snapshot all)
unfolding current
current-IsAscending snapshot all =
    dedup_by_id-IsAscending (sort_by by_id_version (retain (visible snapshot) all))
      (sorted (retain (visible snapshot) all))

-- The documents that pass the filter, of the versions that the layers hold: each id at most once, in
-- the order of the ids, and for every id the newest version up to the snapshot, exactly if that is no
-- tombstone and passes the filter.
pub select-current :
    (filter : Option Filter) (snapshot : DocumentId) (all : List IBlob)
    → IsAscending (select filter (current snapshot all))
      × ((id : ℕ)
          → find_id id (select filter (current snapshot all))
            ≡ matching filter (live (latest_at snapshot id all)))
unfolding current
select-current filter snapshot all =
    let asc = current-IsAscending snapshot all in
    (
      select-IsAscending filter (current snapshot all) asc,
      λ id.
          find_id-select filter id (current snapshot all) asc
          ∙ ap (λ o. matching filter (live o))
              (find_id-merge none id (retain (visible snapshot) all)),
    )

-- A scan of layers whose blobs can be read, with a filter and no sort, projection or limit.
pub scan_layers-latest_at :
    (blake3 : List ℕ → List ℕ) (decompress : List ℕ → Option (List ℕ)) (crc32 : List ℕ → ℕ)
    (filter : Option Filter) (snapshot : DocumentId) (e : Layers) (all : List IBlob)
    → collect_layers blake3 decompress crc32 e ≡ done all
    → (bs : List IBlob) × (scan_layers blake3 decompress crc32 filter none none none snapshot e
        ≡ done bs)
      × IsAscending bs
      × ((id : ℕ) → find_id id bs ≡ matching filter (live (latest_at snapshot id all)))
unfolding scan_layers sort_results truncate project_all
scan_layers-latest_at blake3 decompress crc32 filter snapshot e all read =
    let (asc, found) = select-current filter snapshot all in
    (select filter (current snapshot all), rw read refl, asc, found)
