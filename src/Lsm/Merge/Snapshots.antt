-- ===== src/Lsm/Merge/Snapshots.antt =====
-- Compaction under an active snapshot: which versions stay, and which read is lost.
use ingodb.Base.{
  ℕ, suc, ◌<◌, ◌≤◌, ◌≡◌, ◌≢◌, ◌⊎◌, inl, inr, Bool-cases, refl, ap, sym, ◌∙◌, subst, Bool, true,
  false, Option, none, some, List, [], ◌∷◌, All, arith, leb, retain, ◌==◌, if◌then◌else◌,
}
use ingodb.Base.Sort.{sort_by, IsSortedBy, All-sort_by}
use ingodb.Blob.Id.{DocumentId}
use ingodb.Blob.IBlob.{IBlob}
use ingodb.Lsm.Merge.{
  by_id_version, keep_after, keep_versions, apply_filter, tombstone_filter, merge,
}
use ingodb.Lsm.Merge.Latest.{find_id, latest, sorted, find_id-sort_by}
use ingodb.Lsm.Merge.Purge.{ids_from, All-tombstone_filter, find_id-none}

-- What a reader at `snapshot` finds: the highest version up to it.
abbrev pub latest_at : DocumentId → DocumentId → List IBlob → Option IBlob
latest_at snapshot id bs = latest id (retain (λ b. leb b.version snapshot) bs)

keep_after-retain :
    (oldest j : ℕ) (bs : List IBlob)
    → retain (λ b. leb oldest b.version) (keep_after oldest j bs)
      ≡ retain (λ b. leb oldest b.version) bs
unfolding keep_after
keep_after-retain oldest j [] = refl
keep_after-retain oldest j (b ∷ bs) =
    ground (arith, keep_after-retain oldest j bs, keep_after-retain oldest b.id bs)

keep_versions-retain :
    (oldest : ℕ) (bs : List IBlob)
    → retain (λ b. leb oldest b.version) (keep_versions oldest bs)
      ≡ retain (λ b. leb oldest b.version) bs
unfolding keep_versions
keep_versions-retain oldest [] = refl
keep_versions-retain oldest (b ∷ bs) = ground (arith, keep_after-retain oldest b.id bs)

apply_filter-keep : (bs : List IBlob) → apply_filter (tombstone_filter false) bs ≡ bs
unfolding apply_filter tombstone_filter
apply_filter-keep [] = refl
apply_filter-keep (b ∷ bs) = ap (λ t. b ∷ t) (apply_filter-keep bs)

-- Under an active snapshot, when no tombstones are purged, every version from the oldest snapshot on
-- stays, in the order of the merge.
pub merge-retain :
    (oldest : DocumentId) (bs : List IBlob)
    → retain (λ b. leb oldest b.version) (merge (some oldest) (tombstone_filter false) bs)
      ≡ retain (λ b. leb oldest b.version) (sort_by by_id_version bs)
unfolding merge
merge-retain oldest bs =
    rw (apply_filter-keep (keep_versions oldest (sort_by by_id_version bs)))
      (keep_versions-retain oldest (sort_by by_id_version bs))

-- A version of `id` that is newer than the snapshot.
abbrev IsAfter : DocumentId → DocumentId → IBlob → Type 0
IsAfter snapshot id b = b.id ≡ id → snapshot < b.version

abbrev IsFirstAfter : DocumentId → Option IBlob → Type 0
IsFirstAfter snapshot none = Unit
IsFirstAfter snapshot (some b) = snapshot < b.version

All-above : (i j : ℕ) (bs : List IBlob) → i < j → All (λ c. j ≤ c.id) bs → All (λ c. i < c.id) bs
All-above i j [] h a = tt
All-above i j (c ∷ bs) h a = (omega arith, All-above i j bs h a.1)

-- The first version of `id` is newer, or the id that came last is `id`: the same holds one document on.
IsSettled-next :
    (snapshot id j : ℕ) (b : IBlob) (bs : List IBlob)
    → j ≤ b.id
    → All (λ c. b.id ≤ c.id) bs
    → (j ≡ id) ⊎ IsFirstAfter snapshot (find_id id (b ∷ bs))
    → (b.id ≡ id) ⊎ IsFirstAfter snapshot (find_id id bs)
unfolding find_id
IsSettled-next snapshot id j b bs h a f = elim (Bool-cases (b.id == id)) [
  | inl same ↦ inl (ground arith)
  | inr other ↦ elim f [
    | inl e ↦ inr (
        subst (λ r. IsFirstAfter snapshot r)
          (sym (find_id-none id bs (All-above id b.id bs (ground arith) a))) tt)
    | inr p ↦ inr (subst (λ t. IsFirstAfter snapshot (if t then some b else find_id id bs)) other p)
  ]
]

IsSettled-first :
    (snapshot id j : ℕ) (b : IBlob) (bs : List IBlob)
    → (j ≡ id) ⊎ IsFirstAfter snapshot (find_id id (b ∷ bs))
    → b.id ≢ j
    → IsAfter snapshot id b
unfolding find_id
IsSettled-first snapshot id j b bs (inl e) n q = ground (arith, e)
IsSettled-first snapshot id j b bs (inr p) n q =
    let same : (b.id == id) ≡ true = ground arith in
    subst (λ t. IsFirstAfter snapshot (if t then some b else find_id id bs)) same p

-- Behind a version of the id `j`, of `id` only versions that are newer than the snapshot stay, when none
-- is as old as the snapshot, and the first one is newer or follows another of `id`.
keep_after-IsAfter :
    (snapshot id j : ℕ) (bs : List IBlob)
    → IsSortedBy by_id_version bs
    → All (λ c. j ≤ c.id) bs
    → All (λ c. c.id ≡ id → c.version ≢ snapshot) bs
    → (j ≡ id) ⊎ IsFirstAfter snapshot (find_id id bs)
    → All (IsAfter snapshot id) (keep_after snapshot j bs)
unfolding keep_after find_id
keep_after-IsAfter snapshot id j [] s a d f = tt
keep_after-IsAfter snapshot id j (b ∷ bs) s a d f =
    let after = ids_from b bs s.0 in
    let next = IsSettled-next snapshot id j b bs a.0 after f in
    let above = keep_after-IsAfter snapshot id b.id bs s.1 after d.1 next in
    let behind =
      λ (e : b.id ≡ j). subst (λ i. All (IsAfter snapshot id) (keep_after snapshot i bs)) e above in
    ground (arith, above, behind, IsSettled-first snapshot id j b bs f, d.0)

keep_versions-IsAfter :
    (snapshot id : ℕ) (bs : List IBlob)
    → IsSortedBy by_id_version bs
    → All (λ c. c.id ≡ id → c.version ≢ snapshot) bs
    → IsFirstAfter snapshot (find_id id bs)
    → All (IsAfter snapshot id) (keep_versions snapshot bs)
unfolding keep_versions
keep_versions-IsAfter snapshot id [] s d p = tt
keep_versions-IsAfter snapshot id (b ∷ bs) s d p =
    let after = ids_from b bs s.0 in
    let next = IsSettled-next snapshot id 0 b bs (omega arith) after (inr p) in
    (
      IsSettled-first snapshot id (suc b.id) b bs (inr p) (omega arith),
      keep_after-IsAfter snapshot id b.id bs s.1 after d.1 next,
    )

latest_at-none :
    (snapshot id : ℕ) (bs : List IBlob)
    → All (IsAfter snapshot id) bs
    → latest_at snapshot id bs ≡ none
unfolding latest
latest_at-none snapshot id [] a = refl
latest_at-none snapshot id (b ∷ bs) a = ground (arith, latest_at-none snapshot id bs a.1)

-- Where the newest version of a document in the inputs is newer than the oldest snapshot, and no version
-- of it is as old as the snapshot itself, a reader at that snapshot finds nothing of the document in
-- the output of the compaction, whatever it found in the inputs.
pub snapshot_loses :
    (snapshot : DocumentId) (purge : Bool) (id : DocumentId) (bs : List IBlob) (new : IBlob)
    → latest id bs ≡ some new
    → snapshot < new.version
    → All (λ b. b.id ≡ id → b.version ≢ snapshot) bs
    → latest_at snapshot id (merge (some snapshot) (tombstone_filter purge) bs) ≡ none
unfolding merge
snapshot_loses snapshot purge id bs new e h d =
    let kept = keep_versions snapshot (sort_by by_id_version bs) in
    latest_at-none snapshot id (apply_filter (tombstone_filter purge) kept) (
      All-tombstone_filter (IsAfter snapshot id) purge kept (
        keep_versions-IsAfter snapshot id (sort_by by_id_version bs) (sorted bs)
          (All-sort_by by_id_version (λ b. b.id ≡ id → b.version ≢ snapshot) bs d)
          (subst (λ r. IsFirstAfter snapshot r) (sym (find_id-sort_by id bs ∙ e)) h)))
