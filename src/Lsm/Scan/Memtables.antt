-- ===== src/Lsm/Scan/Memtables.antt =====
-- crates/ingodb-memtable/src/lib.rs: the lookup at a snapshot against the iteration over all versions.
use ingodb.Base.{
  ℕ, ◌≤◌, ◌<◌, ◌≡◌, ◌≢◌, refl, sym, ap, ◌∙◌, Option, none, some, List, [], ◌∷◌, arith, All, lt, eq,
  leb, ◌==◌, ◌&&◌, if◌then◌else◌, Bool-cases, inl, inr, map, subst, pair_ord,
}
use ingodb.Base.Maps
use ingodb.Base.Maps.{BTreeMap, IsSorted, Above, get-Above}
use ingodb.Blob.Id.{DocumentId}
use ingodb.Blob.IBlob.{IBlob}
use ingodb.Memtable.{Key, MemTable, get, iter, values}
use ingodb.Memtable.Size.{IsValid}
use ingodb.Memtable.Lookup.{IsLatest, get-IsLatest, IsLatest-unique}
use ingodb.Lsm.Merge.Latest.{latest, prefer}
use ingodb.Lsm.Scan.{blobs_of, visible}
use ingodb.Lsm.Scan.Select.{latest_at}

abbrev IsKeyed : BTreeMap Key IBlob → Type 0
IsKeyed m = All (λ kv. kv.0 ≡ (kv.1.id, kv.1.version)) m

-- Every key of a map above `j` that has a value is above `j`.
Above-get :
    (i v : ℕ) (j : Key) (b : IBlob) (m : BTreeMap Key IBlob)
    → Above j m
    → Maps.get m (i, v) ≡ some b
    → pair_ord.cmp j (i, v) ≡ lt
unfolding Maps.get pair_ord
Above-get i v j b [] a h = cc
Above-get i v j b ((k, c) ∷ m) a h = ground (arith, Above-get i v j b m a.1)

get-cons_ne :
    (i v j u : ℕ) (c : IBlob) (m : BTreeMap Key IBlob)
    → Above (j, u) m
    → pair_ord.cmp (i, v) (j, u) ≢ eq
    → Maps.get (((j, u), c) ∷ m) (i, v) ≡ Maps.get m (i, v)
unfolding Maps.get pair_ord
get-cons_ne i v j u c m a h = ground (arith, get-Above (i, v) m, Maps.Above-lt (i, v) (j, u) m)

pub blobs_of-values :
    (m : BTreeMap Key IBlob) → blobs_of (map (λ b. (b.id, b)) (values m)) ≡ values m
unfolding values
blobs_of-values [] = refl
blobs_of-values ((k, b) ∷ m) = ap (λ t. b ∷ t) (blobs_of-values m)

-- An entry of another id, or above the snapshot, changes no latest version.
IsLatest-other :
    (id snapshot j u : ℕ) (c : IBlob) (m : BTreeMap Key IBlob) (o : Option IBlob)
    → Above (j, u) m
    → ((v : ℕ) → v ≤ snapshot → pair_ord.cmp (id, v) (j, u) ≢ eq)
    → IsLatest m id snapshot o
    → IsLatest (((j, u), c) ∷ m) id snapshot o
IsLatest-other id snapshot j u c m none a ne h =
    λ v le. get-cons_ne id v j u c m a (ne v le) ∙ h v le
IsLatest-other id snapshot j u c m (some b) a ne h = (
  h.0,
  h.1,
  get-cons_ne id b.version j u c m a (ne b.version h.1) ∙ h.2,
  λ v lt le. get-cons_ne id v j u c m a (ne v le) ∙ h.3 v lt le,
)

-- An entry of the id below all others is the latest version if there is no other.
IsLatest-first :
    (snapshot : ℕ) (c : IBlob) (m : BTreeMap Key IBlob) (o : Option IBlob)
    → Above (c.id, c.version) m
    → c.version ≤ snapshot
    → IsLatest m c.id snapshot o
    → IsLatest (((c.id, c.version), c) ∷ m) c.id snapshot (some (prefer c o))
unfolding Maps.get pair_ord
IsLatest-first snapshot c m none a le h =
    (refl, le, ground arith, λ v lt up. ground (arith, h v up))
IsLatest-first snapshot c m (some b) a le h =
    let above = Above-get c.id b.version (c.id, c.version) b m a h.2 in
    ground (arith, above, λ (v : ℕ) (lt : b.version < v) (up : v ≤ snapshot). h.3 v lt up)

pub latest_at-cons :
    (id snapshot : ℕ) (c : IBlob) (bs : List IBlob)
    → latest_at snapshot id (c ∷ bs) ≡ (
        if leb c.version snapshot && c.id == id
        then some (prefer c (latest_at snapshot id bs))
        else latest_at snapshot id bs)
unfolding latest visible
latest_at-cons id snapshot c bs = ground arith

-- What holds of all versions holds of the latest one.
pub latest_at-All :
    (P : IBlob → Type 0) (id snapshot : ℕ) (bs : List IBlob) (b : IBlob)
    → All P bs
    → latest_at snapshot id bs ≡ some b
    → P b × (b.id ≡ id)
unfolding latest
latest_at-All P id snapshot [] b a h = cc
latest_at-All P id snapshot (c ∷ bs) b a h =
    ground (arith, latest_at-cons id snapshot c bs, latest_at-All P id snapshot bs b a.1)

newest-IsLatest :
    (m : BTreeMap Key IBlob) (id snapshot : ℕ)
    → IsSorted m
    → IsKeyed m
    → IsLatest m id snapshot (latest_at snapshot id (values m))
unfolding latest values Maps.get pair_ord
newest-IsLatest [] id snapshot s k = λ v le. refl
newest-IsLatest (((j, u), c) ∷ m) id snapshot s k =
    let rest = newest-IsLatest m id snapshot s.1 k.1 in
    let o = latest_at snapshot id (values m) in
    let i : j ≡ c.id = ap (λ p. p.0) k.0 in
    let w : u ≡ c.version = ap (λ p. p.1) k.0 in
    let above : Above (c.id, c.version) m = rw (← i, ← w) s.0 in
    rw (i, w, latest_at-cons id snapshot c (values m))
      (elim (Bool-cases (leb c.version snapshot && c.id == id)) [
        | inl same ↦
            let here : c.id ≡ id = ground arith in
            rw same (
              subst (λ k. IsLatest (((c.id, c.version), c) ∷ m) k snapshot (some (prefer c o))) here
                (IsLatest-first snapshot c m o above (ground arith)
                  (subst (λ k. IsLatest m k snapshot o) (sym here) rest)))
        | inr apart ↦
            rw apart
              (IsLatest-other id snapshot c.id c.version c m o above (λ v le. ground arith) rest)
      ])

-- The lookup of a valid table finds the newest version up to the snapshot among those that its
-- iterator yields.
pub get-latest_at :
    (blake3 : List ℕ → List ℕ) (m : MemTable) (id snapshot : DocumentId)
    → IsValid blake3 m
    → get m id snapshot ≡ latest_at snapshot id (blobs_of (iter m))
unfolding iter
get-latest_at blake3 m id snapshot v =
    IsLatest-unique m.entries id snapshot (get m id snapshot) _
      (get-IsLatest blake3 m id snapshot v)
      (rw (blobs_of-values m.entries) (newest-IsLatest m.entries id snapshot v.sorted v.keyed))
