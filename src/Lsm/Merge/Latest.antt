-- ===== src/Lsm/Merge/Latest.antt =====
-- Merging keeps the newest version of every document.
use ingodb.Base.{
  ℕ, ◌≡◌, ◌≢◌, ◌==◌, refl, ap, ◌∙◌, Option, none, some, List, [], ◌∷◌, arith, All, ltb, gt,
  if◌then◌else◌,
}
use ingodb.Base.Sort.{place, sort_by, IsSortedBy, All-trans, sort_by-IsSortedBy}
use ingodb.Blob.Id.{DocumentId}
use ingodb.Blob.IBlob.{IBlob}
use ingodb.Lsm.Merge.{
  by_id_version, dedup_after, dedup_by_id, keep_after, keep_versions, dedup_mvcc,
}

-- The newer of two versions, and the first where they are equal.
abbrev pub prefer : IBlob → Option IBlob → IBlob
prefer b none = b
prefer b (some c) = if ltb b.version c.version then c else b

-- The version of `id` with the highest number, wherever it stands.
unfoldable pub latest : DocumentId → List IBlob → Option IBlob
latest id [] = none
latest id (b ∷ bs) = if b.id == id then some (prefer b (latest id bs)) else latest id bs

-- The first document of the id.
unfoldable pub find_id : DocumentId → List IBlob → Option IBlob
find_id id [] = none
find_id id (b ∷ bs) = if b.id == id then some b else find_id id bs

flip : (a b : IBlob) → by_id_version a b ≡ gt → by_id_version b a ≢ gt
flip a b h = ground arith

trans : (a b c : IBlob) → by_id_version a b ≢ gt → by_id_version b c ≢ gt → by_id_version a c ≢ gt
trans a b c h k = ground arith

pub sorted : (bs : List IBlob) → IsSortedBy by_id_version (sort_by by_id_version bs)
sorted = sort_by-IsSortedBy by_id_version flip trans

-- A document that is not above any of a list is newer than the first of its id there.
prefer-find_id :
    (id : ℕ) (b : IBlob) (bs : List IBlob)
    → b.id ≡ id
    → All (λ c. by_id_version b c ≢ gt) bs
    → prefer b (find_id id bs) ≡ b
unfolding find_id
prefer-find_id id b [] e a = refl
prefer-find_id id b (c ∷ bs) e a = ground (arith, prefer-find_id id b bs)

find_id-place :
    (id : ℕ) (b : IBlob) (bs : List IBlob)
    → IsSortedBy by_id_version bs
    → find_id id (place by_id_version b bs)
      ≡ (if b.id == id then some (prefer b (find_id id bs)) else find_id id bs)
unfolding find_id place
find_id-place id b [] s = refl
find_id-place id b (c ∷ bs) s = ground (
  arith,
  find_id-place id b bs s.1,
  All-trans by_id_version flip trans b c bs,
  λ (e : b.id ≡ id) (h : by_id_version b c ≢ gt).
      prefer-find_id id b (c ∷ bs) e (h, All-trans by_id_version flip trans b c bs h s.0),
)

-- The first document of an id, after the sort, is its newest version.
pub find_id-sort_by :
    (id : ℕ) (bs : List IBlob) → find_id id (sort_by by_id_version bs) ≡ latest id bs
unfolding sort_by latest find_id
find_id-sort_by id [] = refl
find_id-sort_by id (b ∷ bs) =
    find_id-place id b (sort_by by_id_version bs) (sorted bs)
    ∙ ap (λ r. if b.id == id then some (prefer b r) else r) (find_id-sort_by id bs)

find_id-dedup_after :
    (id j : ℕ) (bs : List IBlob) → j ≢ id → find_id id (dedup_after j bs) ≡ find_id id bs
unfolding find_id dedup_after
find_id-dedup_after id j [] h = refl
find_id-dedup_after id j (b ∷ bs) h =
    ground (arith, find_id-dedup_after id j bs, find_id-dedup_after id b.id bs)

find_id-keep_after :
    (oldest id j : ℕ) (bs : List IBlob)
    → j ≢ id
    → find_id id (keep_after oldest j bs) ≡ find_id id bs
unfolding find_id keep_after
find_id-keep_after oldest id j [] h = refl
find_id-keep_after oldest id j (b ∷ bs) h =
    ground (arith, find_id-keep_after oldest id j bs, find_id-keep_after oldest id b.id bs)

pub find_id-dedup_mvcc :
    (oldest : Option DocumentId) (id : ℕ) (bs : List IBlob)
    → find_id id (dedup_mvcc oldest bs) ≡ find_id id bs
unfolding find_id dedup_by_id keep_versions
find_id-dedup_mvcc none id [] = refl
find_id-dedup_mvcc none id (b ∷ bs) = ground (arith, find_id-dedup_after id b.id bs)
find_id-dedup_mvcc (some oldest) id [] = refl
find_id-dedup_mvcc (some oldest) id (b ∷ bs) = ground (arith, find_id-keep_after oldest id b.id bs)

-- Sorting and deduplicating, with an active snapshot or without, keeps the newest version of every id,
-- and puts it before the other versions of the id.
pub find_id-merge :
    (oldest : Option DocumentId) (id : ℕ) (bs : List IBlob)
    → find_id id (dedup_mvcc oldest (sort_by by_id_version bs)) ≡ latest id bs
find_id-merge oldest id bs =
    find_id-dedup_mvcc oldest id (sort_by by_id_version bs) ∙ find_id-sort_by id bs
