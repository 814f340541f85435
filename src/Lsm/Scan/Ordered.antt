-- ===== src/Lsm/Scan/Ordered.antt =====
-- crates/ingodb-lsm/src/lib.rs, `LsmEngine`: the order of the layers that a point lookup and a scan read.
use ingodb.Base.{
  ℕ, ◌<◌, ◌≡◌, refl, sym, Option, none, some, List, [], ◌∷◌, ◌++◌, arith, All, pair_ord,
}
use ingodb.Blob.Id.{DocumentId, IsId}
use ingodb.Sstable.Reader.{Entry, SstableReader}
use ingodb.Sstable.Lookup.Layout.{flat}
use ingodb.Lsm.Scan.Tables.{IsTable, get_by_id_at-latest_at}
use ingodb.Blob.IBlob.{IBlob}
use ingodb.Memtable
use ingodb.Memtable.{MemTable, values}
use ingodb.Memtable.Size.{IsValid}
use ingodb.Query.{Filter}
use ingodb.Sstable.Error.{Outcome, done}
use ingodb.Lsm.Merge.Latest.{find_id, latest, prefer}
use ingodb.Lsm.Merge.Purge.{IsAscending, live}
use ingodb.Lsm.Engine.{Layers, or_else, search_memtables, first_of, get_at, search_sstables}
use ingodb.Lsm.Scan.{
  blobs_of, immutable_blobs, memtable_blobs, collect_layers, sstable_blobs, scan_layers,
}
use ingodb.Lsm.Scan.Select.{latest_at, matching, scan_layers-latest_at}
use ingodb.Lsm.Scan.Memtables.{latest_at-cons, latest_at-All, get-latest_at}

-- Whatever the first list holds of an id is newer than what the second holds of it.
abbrev pub Newer : List IBlob → List IBlob → Type 0
Newer bs cs = All (λ b. All (λ c. b.id ≡ c.id → c.version < b.version) cs) bs

-- The later of two memtables in the queue holds the newer versions.
abbrev pub IsQueue : List MemTable → Type 0
IsQueue [] = Unit
IsQueue (mt ∷ mts) = Newer (immutable_blobs mts) (blobs_of (Memtable.iter mt)) × IsQueue mts

abbrev pick : Option IBlob → Option IBlob → Option IBlob
pick none o = o
pick (some b) o = some (prefer b o)

latest_at-append :
    (id snapshot : ℕ) (bs cs : List IBlob)
    → latest_at snapshot id (bs ++ cs) ≡ pick (latest_at snapshot id bs) (latest_at snapshot id cs)
unfolding latest
latest_at-append id snapshot [] cs = refl
latest_at-append id snapshot (b ∷ bs) cs =
    rw (latest_at-cons id snapshot b (bs ++ cs), latest_at-cons id snapshot b bs)
      (ground (arith, latest_at-append id snapshot bs cs))

-- The first of two layers has the newer version.
pick-or_else :
    (id snapshot : ℕ) (bs cs : List IBlob) (o p : Option IBlob)
    → latest_at snapshot id bs ≡ o
    → latest_at snapshot id cs ≡ p
    → Newer bs cs
    → (pick o p ≡ or_else o p) × (pick p o ≡ or_else o p)
pick-or_else id snapshot bs cs none none e f n = (refl, refl)
pick-or_else id snapshot bs cs none (some c) e f n = (refl, refl)
pick-or_else id snapshot bs cs (some b) none e f n = (refl, refl)
pick-or_else id snapshot bs cs (some b) (some c) e f n =
    let (above, i) = latest_at-All _ id snapshot bs b n e in
    let (below, j) = latest_at-All _ id snapshot cs c above f in ground (arith, below)

-- The versions in the tables, in the order of the tables.
abbrev pub table_blobs : List (List (List Entry)) → List IBlob
table_blobs [] = []
table_blobs (gs ∷ gss) = blobs_of (flat gs) ++ table_blobs gss

module _ (blake3 : List ℕ → List ℕ) where
  search_memtables-latest_at :
      (mts : List MemTable) (id snapshot : ℕ)
      → All (IsValid blake3) mts
      → IsQueue mts
      → search_memtables mts id snapshot ≡ latest_at snapshot id (immutable_blobs mts)
  unfolding search_memtables immutable_blobs latest
  search_memtables-latest_at [] id snapshot v q = refl
  search_memtables-latest_at (mt ∷ mts) id snapshot v q =
      let here = blobs_of (Memtable.iter mt) in
      let o = latest_at snapshot id (immutable_blobs mts) in
      let p = latest_at snapshot id here in
      rw
        (
          search_memtables-latest_at mts id snapshot v.1 q.1,
          get-latest_at blake3 mt id snapshot v.0,
          latest_at-append id snapshot here (immutable_blobs mts),
        )
        (sym (pick-or_else id snapshot (immutable_blobs mts) here o p refl refl q.0).1)

  -- The memtables are valid, and each holds newer versions than those before it.
  pub record IsLayered (e : Layers) : Type 0 where
    pub active : IsValid blake3 e.memtable
    pub queued : All (IsValid blake3) e.immutable_memtables
    pub queue : IsQueue e.immutable_memtables
    pub newest : Newer (blobs_of (Memtable.iter e.memtable)) (immutable_blobs e.immutable_memtables)

  memtables-latest_at :
      (e : Layers) (id snapshot : ℕ)
      → IsLayered e
      → or_else
          (Memtable.get e.memtable id snapshot)
          (search_memtables e.immutable_memtables id snapshot)
        ≡ latest_at snapshot id (memtable_blobs e)
  unfolding memtable_blobs
  memtables-latest_at e id snapshot l =
      let here = blobs_of (Memtable.iter e.memtable) in
      let below = immutable_blobs e.immutable_memtables in
      rw
        (
          search_memtables-latest_at e.immutable_memtables id snapshot l.queued l.queue,
          get-latest_at blake3 e.memtable id snapshot l.active,
          latest_at-append id snapshot here below,
        )
        (sym (pick-or_else id snapshot here below _ _ refl refl l.newest).0)

  first_of_done :
      (o p t : Option IBlob) → first_of o p (done (live t)) ≡ done (live (or_else (or_else o p) t))
  first_of_done none none t = refl
  first_of_done none (some b) t = refl
  first_of_done (some b) p t = refl

  module _ (decompress : List ℕ → Option (List ℕ)) (crc32 : List ℕ → ℕ) where
    -- The tables hold the groups of entries, each with newer versions than the tables behind it.
    abbrev pub AreTables : List SstableReader → List (List (List Entry)) → Type 0
    AreTables [] [] = Unit
    AreTables (r ∷ rs) (gs ∷ gss) =
        IsTable blake3 decompress crc32 r gs
        × Newer (blobs_of (flat gs)) (table_blobs gss)
        × AreTables rs gss
    AreTables _ _ = ⊥

    sstable_blobs-AreTables :
        (rs : List SstableReader) (gss : List (List (List Entry)))
        → AreTables rs gss
        → sstable_blobs blake3 decompress crc32 rs ≡ done (table_blobs gss)
    unfolding sstable_blobs
    sstable_blobs-AreTables [] [] a = refl
    sstable_blobs-AreTables [] (gs ∷ gss) a = absurd a
    sstable_blobs-AreTables (r ∷ rs) [] a = absurd a
    sstable_blobs-AreTables (r ∷ rs) (gs ∷ gss) a =
        let read =
          (get_by_id_at-latest_at blake3 decompress crc32 r gs 0 0 a.0 (omega arith)
            (omega arith)).1 in
        rw (read, sstable_blobs-AreTables rs gss a.2) refl

    later_table :
        (found o : Option IBlob) (rest : Outcome (Option IBlob))
        → rest ≡ done (live o)
        → (elim found [ some b ↦ done (live (some b)) | none ↦ rest ])
          ≡ done (live (or_else found o))
    later_table none o rest e = e
    later_table (some b) o rest e = refl

    search_sstables-latest_at :
        (rs : List SstableReader) (gss : List (List (List Entry))) (id snapshot : ℕ)
        → IsId id
        → IsId snapshot
        → AreTables rs gss
        → search_sstables blake3 decompress crc32 rs id snapshot
          ≡ done (live (latest_at snapshot id (table_blobs gss)))
    unfolding search_sstables latest
    search_sstables-latest_at [] [] id snapshot h k a = refl
    search_sstables-latest_at [] (gs ∷ gss) id snapshot h k a = absurd a
    search_sstables-latest_at (r ∷ rs) [] id snapshot h k a = absurd a
    search_sstables-latest_at (r ∷ rs) (gs ∷ gss) id snapshot h k a =
        let here = blobs_of (flat gs) in
        let found = (get_by_id_at-latest_at blake3 decompress crc32 r gs id snapshot a.0 h k).0 in
        rw
          (
            found,
            latest_at-append id snapshot here (table_blobs gss),
            (pick-or_else id snapshot here (table_blobs gss) _ _ refl refl a.1).0,
          )
          (later_table (latest_at snapshot id here) (latest_at snapshot id (table_blobs gss)) _
            (search_sstables-latest_at rs gss id snapshot h k a.2))

    -- The point lookup and a scan that no secondary index serves, without a sort, a limit or a
    -- projection, agree, at any snapshot, on an engine whose layers are in order: valid memtables, and
    -- tables whose blocks can be read and are sorted, where what a layer holds of an id is newer than
    -- what the layers behind it hold. Such a scan gives, in the order of the ids, exactly the documents that a
    -- lookup of their id finds and that pass the filter.
    pub scan_layers-get_at :
        (filter : Option Filter) (snapshot : DocumentId) (e : Layers)
        (gss : List (List (List Entry)))
        → IsId snapshot
        → IsLayered e
        → AreTables e.sstables gss
        → Newer (memtable_blobs e) (table_blobs gss)
        → (bs : List IBlob) × (scan_layers blake3 decompress crc32 filter none none none snapshot e
            ≡ done bs)
          × IsAscending bs
          × ((id : ℕ)
              → IsId id
              → (o : Option IBlob) × (get_at blake3 decompress crc32 e id snapshot ≡ done o)
                × (find_id id bs ≡ matching filter o))
    unfolding collect_layers get_at
    scan_layers-get_at filter snapshot e gss k l tables newer =
        let tabled = table_blobs gss in
        let all : List IBlob = memtable_blobs e ++ tabled in
        let read : collect_layers blake3 decompress crc32 e ≡ done all =
          rw (sstable_blobs-AreTables e.sstables gss tables) refl in
        let (bs, ran, asc, found) =
          scan_layers-latest_at blake3 decompress crc32 filter snapshot e all read in
        (
          bs,
          ran,
          asc,
          λ id h. (
            live (latest_at snapshot id all),
            rw
                (
                  search_sstables-latest_at e.sstables gss id snapshot h k tables,
                  latest_at-append id snapshot (memtable_blobs e) tabled,
                  (pick-or_else id snapshot (memtable_blobs e) tabled _ _ refl refl newer).0,
                  ← memtables-latest_at e id snapshot l,
                )
                (first_of_done (Memtable.get e.memtable id snapshot)
                  (search_memtables e.immutable_memtables id snapshot)
                  (latest_at snapshot id tabled)),
            found id,
          ),
        )
