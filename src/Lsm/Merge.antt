-- ===== src/Lsm/Merge.antt =====
-- crates/ingodb-lsm/src/lib.rs and compaction.rs: merging the documents of several tables, as
-- `run_compaction`, `scan_at` and the index builds do, and the tombstone filter.
pub mod Latest
pub mod Purge
pub mod Snapshots
use ingodb.Base.{
  ℕ, ◌<◌, ◌≤◌, ◌==◌, ◌&&◌, Bool, true, false, not, Option, none, some, List, [], ◌∷◌, ltb, leb,
  compare, Ordering, then_with, if◌then◌else◌,
}
use ingodb.Base.Sort.{sort_by}
use ingodb.Blob.Id.{DocumentId}
use ingodb.Blob.IBlob.{IBlob, is_deleted}

-- By id, then the newest version first.
abbrev pub by_id_version : IBlob → IBlob → Ordering
by_id_version a b = then_with (compare a.id b.id) (compare b.version a.version)

-- `dedup_by(|a, b| a.id() == b.id())`, behind a document of the id `id` that stays.
unfoldable pub dedup_after : DocumentId → List IBlob → List IBlob
dedup_after id [] = []
dedup_after id (b ∷ bs) = elim (b.id == id) [
  | true ↦ dedup_after id bs
  | false ↦ b ∷ dedup_after b.id bs
]

unfoldable pub dedup_by_id : List IBlob → List IBlob
unfolding dedup_after
dedup_by_id [] = []
dedup_by_id (b ∷ bs) = b ∷ dedup_after b.id bs

-- The loop under an active snapshot: of the older versions of `id`, those from `oldest` on stay.
unfoldable pub keep_after : DocumentId → DocumentId → List IBlob → List IBlob
keep_after oldest id [] = []
keep_after oldest id (b ∷ bs) = elim (b.id == id) [
  | true ↦ elim (leb oldest b.version) [
    | true ↦ b ∷ keep_after oldest id bs
    | false ↦ keep_after oldest id bs
  ]
  | false ↦ b ∷ keep_after oldest b.id bs
]

unfoldable pub keep_versions : DocumentId → List IBlob → List IBlob
unfolding keep_after
keep_versions oldest [] = []
keep_versions oldest (b ∷ bs) = b ∷ keep_after oldest b.id bs

-- `match oldest_snap`, on the sorted documents
abbrev pub dedup_mvcc : Option DocumentId → List IBlob → List IBlob
dedup_mvcc none bs = dedup_by_id bs
dedup_mvcc (some oldest) bs = keep_versions oldest bs

pub data CompactionAction : Type 0 where
  keep : CompactionAction
  drop : CompactionAction
  transform : IBlob → CompactionAction

-- `retain_mut` with a filter.
unfoldable pub apply_filter : (IBlob → CompactionAction) → List IBlob → List IBlob
apply_filter filter [] = []
apply_filter filter (b ∷ bs) =
    let rest = apply_filter filter bs in
    elim (filter b) [ keep ↦ b ∷ rest | drop ↦ rest | transform c ↦ c ∷ rest ]

-- `TombstoneFilter::new`: whether tombstones are purged.
unfoldable pub purges : ℕ → ℕ → Bool → Bool
purges output_level max_level has_active_snapshots =
    ltb max_level output_level && not has_active_snapshots

unfoldable pub tombstone_filter : Bool → IBlob → CompactionAction
tombstone_filter purge b = if purge && is_deleted b then drop else keep

-- What `run_compaction` writes, for the documents of its inputs in the order in which it reads them.
unfoldable pub merge : Option DocumentId → (IBlob → CompactionAction) → List IBlob → List IBlob
unfolding dedup_by_id keep_versions apply_filter
merge oldest filter inputs = apply_filter filter (dedup_mvcc oldest (sort_by by_id_version inputs))
