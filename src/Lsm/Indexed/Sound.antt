-- ===== src/Lsm/Indexed/Sound.antt =====
-- crates/ingodb-lsm/src/lib.rs, `scan_at`: the documents that the loops over an index return.
use ingodb.Base.{
  ℕ, ◌≡◌, refl, Bool, true, false, not, ◌&&◌, Option, none, some, List, [], ◌∷◌, ◌++◌, arith, All,
  All-append, if◌then◌else◌,
}
use ingodb.Blob.Id.{DocumentId}
use ingodb.Blob.IBlob.{IBlob, is_deleted, get_field}
use ingodb.Memtable
use ingodb.Query.{Filter, matches}
use ingodb.Sstable.Error.{Outcome, done, failed, stuck, ◌>>=◌}
use ingodb.Sstable.Reader.{SstableReader}
use ingodb.Sstable.Lookup.{get_by_id_at}
use ingodb.Lsm.Merge.Purge.{live}
use ingodb.Lsm.Engine.{Layers, first_of, get_at, search_memtables, search_sstables}
use ingodb.Lsm.Scan.{passes}
use ingodb.Lsm.Traverse.{has_id}
use ingodb.Lsm.Follow.{is_current, is_reached, follow_sorted, follow_filter}

-- The document is no tombstone, and the filter matches it.
abbrev pub IsMatch : Option Filter → IBlob → Type 0
IsMatch filter b = (is_deleted b ≡ false) × (passes filter b ≡ true)

-- Whatever an outcome returns has a property.
abbrev pub Returns {ℓ κ} : {A : Type ℓ} → (A → Type κ) → Outcome A → Type κ
Returns P (done a) = P a
Returns P (failed e) = Unit {κ}
Returns P stuck = Unit {κ}

pub Returns-bind {ℓ κ} :
    {A B : Type ℓ} (P : A → Type κ) (Q : B → Type κ) (m : Outcome A) (f : A → Outcome B)
    → Returns P m
    → ((a : A) → P a → Returns Q (f a))
    → Returns Q (m >>= f)
Returns-bind P Q (done a) f h k = k a h
Returns-bind P Q (failed e) f h k = tt
Returns-bind P Q stuck f h k = tt

pub Returns-any {ℓ} : {A : Type ℓ} (m : Outcome A) → Returns (λ a. Unit {0}) m
Returns-any (done a) = tt
Returns-any (failed e) = tt
Returns-any stuck = tt

abbrev pub IsLive : Option IBlob → Type 0
IsLive none = Unit
IsLive (some b) = is_deleted b ≡ false

module _ {ℓ κ} {A : Type ℓ} (P : A → Type κ) where
  pub Returns-elim :
      (t : Bool) (m n : Outcome A)
      → (t ≡ true → Returns P m)
      → Returns P n
      → Returns P (elim t [ true ↦ m | false ↦ n ])
  Returns-elim true m n h k = h refl
  Returns-elim false m n h k = k

  pub Returns-if :
      (t : Bool) (m n : Outcome A)
      → (t ≡ true → Returns P m)
      → Returns P n
      → Returns P (if t then m else n)
  Returns-if true m n h k = h refl
  Returns-if false m n h k = k

  pub Returns-option :
      (o : Option IBlob) (n : Outcome A) (f : IBlob → Outcome A)
      → Returns P n
      → ((b : IBlob) → Returns P (f b))
      → Returns P (elim o [ none ↦ n | some b ↦ f b ])
  Returns-option none n f h k = h
  Returns-option (some b) n f h k = k b

  Returns-found :
      (o : Option IBlob) (n : Outcome A) (f : IBlob → Outcome A)
      → IsLive o
      → Returns P n
      → ((b : IBlob) → is_deleted b ≡ false → Returns P (f b))
      → Returns P (elim o [ none ↦ n | some b ↦ f b ])
  Returns-found none n f l h k = h
  Returns-found (some b) n f l h k = k b l

live-IsLive : (o : Option IBlob) → IsLive (live o)
live-IsLive none = tt
live-IsLive (some c) = ground arith

module _ (blake3 : List ℕ → List ℕ) (decompress : List ℕ → Option (List ℕ))
    (crc32 : List ℕ → ℕ) where
  search_sstables-IsLive :
      (rs : List SstableReader) (id snapshot : DocumentId)
      → Returns IsLive (search_sstables blake3 decompress crc32 rs id snapshot)
  unfolding search_sstables
  search_sstables-IsLive [] id snapshot = tt
  search_sstables-IsLive (r ∷ rs) id snapshot =
      Returns-bind (λ o. Unit {0}) IsLive (get_by_id_at blake3 decompress crc32 r id snapshot) _
        (Returns-any (get_by_id_at blake3 decompress crc32 r id snapshot))
        (λ o h.
          Returns-option IsLive o _ (λ b. done (live (some b)))
            (search_sstables-IsLive rs id snapshot) (λ b. live-IsLive (some b)))

  first_of-IsLive :
      (o p : Option IBlob) (t : Outcome (Option IBlob))
      → Returns IsLive t
      → Returns IsLive (first_of o p t)
  first_of-IsLive none none t h = h
  first_of-IsLive none (some b) t h = live-IsLive (some b)
  first_of-IsLive (some b) p t h = live-IsLive (some b)

  -- A lookup never returns a tombstone.
  pub get_at-IsLive :
      (e : Layers) (id snapshot : DocumentId)
      → Returns IsLive (get_at blake3 decompress crc32 e id snapshot)
  unfolding get_at
  get_at-IsLive e id snapshot =
      first_of-IsLive (Memtable.get e.memtable id snapshot)
        (search_memtables e.immutable_memtables id snapshot) _
        (search_sstables-IsLive e.sstables id snapshot)

module _ (get : DocumentId → Outcome (Option IBlob))
    (live_only : (id : DocumentId) → Returns IsLive (get id)) where
  pub follow_sorted-IsMatch :
      (fields : List (List ℕ)) (filter : Option Filter) (limit : Option ℕ)
      (entries : List (DocumentId × IBlob)) (results : List IBlob)
      → All (IsMatch filter) results
      → Returns (All (IsMatch filter)) (follow_sorted get fields filter limit entries results)
  unfolding follow_sorted
  follow_sorted-IsMatch fields filter limit [] results a = a
  follow_sorted-IsMatch fields filter limit ((id, projected) ∷ entries) results a =
      let P = All (IsMatch filter) in
      let same = follow_sorted-IsMatch fields filter limit entries results a in
      Returns-elim P (is_deleted projected) _ _ (λ gone. same)
        (Returns-bind IsLive P (get id) _ (live_only id) (λ o h.
          Returns-found P o _ _ h same (λ b l.
            Returns-if P (is_current fields b projected && passes filter b) _ _
              (λ ok.
                let more : P (results ++ b ∷ []) =
                  All-append _ results (b ∷ []) a ((l, ground arith), tt) in
                Returns-if P (is_reached limit (results ++ b ∷ [])) _ _ (λ full. more)
                  (follow_sorted-IsMatch fields filter limit entries (results ++ b ∷ []) more))
              same)))

  pub follow_filter-IsMatch :
      (filter : Filter) (limit : Option ℕ) (entries : List (DocumentId × IBlob))
      (results : List IBlob) (seen : List DocumentId)
      → All (IsMatch (some filter)) results
      → Returns
          (λ r. All (IsMatch (some filter)) r.0)
          (follow_filter get filter limit entries results seen)
  unfolding follow_filter
  follow_filter-IsMatch filter limit [] results seen a = a
  follow_filter-IsMatch filter limit ((id, projected) ∷ entries) results seen a =
      let P = λ (r : List IBlob × List DocumentId). All (IsMatch (some filter)) r.0 in
      let same = follow_filter-IsMatch filter limit entries results seen a in
      Returns-elim P (is_deleted projected) _ _ (λ gone. same)
        (Returns-bind IsLive P (get id) _ (live_only id) (λ o h.
          Returns-found P o _ _ h same (λ b l.
            Returns-if P (matches filter (get_field b) && not (has_id b.id seen)) _ _
              (λ ok.
                let more : All (IsMatch (some filter)) (results ++ b ∷ []) =
                  All-append _ results (b ∷ []) a ((l, ground arith), tt) in
                Returns-if P (is_reached limit (results ++ b ∷ [])) _ _ (λ full. more)
                  (follow_filter-IsMatch filter limit entries (results ++ b ∷ []) (b.id ∷ seen)
                    more))
              same)))
