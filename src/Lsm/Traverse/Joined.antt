-- ===== src/Lsm/Traverse/Joined.antt =====
-- crates/ingodb-lsm/src/lib.rs, `traverse_at`: what a path of joins reaches, and the state of the loop
-- between two rounds.
use ingodb.Base.{
  ℕ, zero, suc, ◌≤◌, ◌≡◌, refl, sym, ◌∙◌, ◌⊎◌, inl, inr, true, List, [], ◌∷◌, ◌++◌, arith, All,
  All-append, All-map, subst, Option-cases,
}
use ingodb.Blob.Id.{DocumentId}
use ingodb.Blob.IBlob.{IBlob, get_field}
use ingodb.Lsm.Merge.Purge.{IsAscending}
use ingodb.Lsm.Traverse.{has_id, join_values, is_target, next_round}
use ingodb.Lsm.Traverse.Members.{
  In, In-All, In-append, In-unique, has_blob, has_blob-append, has_blob-In, IsDistinct,
  IsDistinct-append, All-In_self,
}
use ingodb.Lsm.Traverse.Round.{
  Joins, is_target-Joins, Joins-is_target, next_round-All, next_round-seen, next_round-Target,
  next_round-IsDistinct,
}

pub not_target : (to_field : List ℕ) (c : IBlob) {A : Type 0} → is_target to_field [] c ≡ true → A
not_target to_field c h = absurd (elim (Option-cases (get_field c to_field)) [
  | inl missing ↦ ground (arith, missing)
  | inr found ↦ ground (arith, found.1)
])

module _ (from_field to_field : List ℕ) (candidates : List IBlob) where
  -- `n` joins lead from a document to another, over documents of the scan.
  abbrev pub Linked : ℕ → IBlob → IBlob → Type 0
  Linked zero b c = b ≡ c
  Linked (suc n) b c = (d : IBlob) × In d candidates × Joins from_field to_field b d × Linked n d c

  -- Between one and `depth` joins lead to the document from a starting document.
  abbrev pub IsReached : List IBlob → ℕ → IBlob → Type 0
  IsReached starts depth c =
      (s : IBlob) × In s starts × (n : ℕ) × (1 ≤ n) × (n ≤ depth) × Linked n s c

  Linked-snoc :
      (n : ℕ) (b c d : IBlob)
      → Linked n b c
      → In d candidates
      → Joins from_field to_field c d
      → Linked (suc n) b d
  Linked-snoc zero b c d l at j =
      (d, at, subst (λ x. Joins from_field to_field x d) (sym l) j, refl)
  Linked-snoc (suc n) b c d (e, at', j', l) at j = (e, at', j', Linked-snoc n e c d l at j)

  -- All that a document joins is in the list.
  abbrev pub IsClosed : IBlob → List IBlob → Type 0
  IsClosed b found =
      (c : IBlob) → In c candidates → Joins from_field to_field b c → has_blob c.id found ≡ true

  module _ (unique : IsAscending candidates) (starts : List IBlob) (total : ℕ) where
    -- The state before a round, after `k` rounds.
    pub record Inv (k : ℕ) (found current : List IBlob) (seen : List DocumentId) : Type 0 where
      pub ids : (id : ℕ) → has_id id seen ≡ has_blob id found
      pub distinct : IsDistinct found
      pub scanned : All (λ c. In c candidates) found
      pub reached : All (IsReached starts total) found
      pub front : All (λ b. (s : IBlob) × In s starts × Linked k s b) current
      pub closed : (b : IBlob) → In b starts ⊎ In b found → In b current ⊎ IsClosed b found

    -- What the loop returns, from `found` with `depth` rounds left.
    pub record Post (depth : ℕ) (found res : List IBlob) : Type 0 where
      pub distinct : IsDistinct res
      pub scanned : All (λ c. In c candidates) res
      pub reached : All (IsReached starts total) res
      pub keeps : (id : ℕ) → has_blob id found ≡ true → has_blob id res ≡ true
      pub complete :
          (b c : IBlob) (n : ℕ)
          → In b starts ⊎ In b found
          → suc n ≤ depth
          → Linked (suc n) b c
          → has_blob c.id res ≡ true

    -- A document of the scan whose id was found was found itself.
    find_same :
        (d : IBlob) (found : List IBlob)
        → In d candidates
        → All (λ c. In c candidates) found
        → has_blob d.id found ≡ true
        → In d found
    find_same d found at scanned h =
        let (e, here, same) = has_blob-In d.id found h in
        let there = In-All (λ c. In c candidates) e found scanned here in
        subst (λ x. In x found) (In-unique e d candidates unique there at same) here

    -- When everything that was found is closed, nothing else can be reached.
    closed-Linked :
        (found : List IBlob)
        → All (λ c. In c candidates) found
        → ((b : IBlob) → In b starts ⊎ In b found → IsClosed b found)
        → (n : ℕ) (b c : IBlob) → In b starts ⊎ In b found
        → Linked (suc n) b c
        → has_blob c.id found ≡ true
    closed-Linked found scanned closed zero b c at (d, here, j, l) =
        subst (λ x. has_blob x.id found ≡ true) l (closed b at d here j)
    closed-Linked found scanned closed (suc n) b c at (d, here, j, l) =
        closed-Linked found scanned closed n d c
          (inr (find_same d found here scanned (closed b at d here j))) l

    -- The loop ends where no document before the round joins one that was not found.
    pub Post-closed :
        (depth k : ℕ) (found current : List IBlob) (seen : List DocumentId)
        → Inv k found current seen
        → ((b : IBlob) → In b current → IsClosed b found)
        → Post depth found found
    Post-closed depth k found current seen v stop = record {
      distinct = v.distinct;
      scanned = v.scanned;
      reached = v.reached;
      keeps = λ id h. h;
      complete = λ b c n at le l.
          closed-Linked found v.scanned
            (λ b at. elim (v.closed b at) [ inl here ↦ stop b here | inr closed ↦ closed ]) n b c at
            l;
    }

    -- After a round, everything that the documents before it join is found.
    pub round-IsClosed :
        (k : ℕ) (found current : List IBlob) (seen : List DocumentId)
        → Inv k found current seen
        → (b : IBlob) → In b current
        → IsClosed b
            (found ++ (next_round to_field (join_values from_field current) candidates seen).0)
    round-IsClosed k found current seen v b at c here j =
        let values = join_values from_field current in
        let next = (next_round to_field values candidates seen).0 in
        let t = Joins-is_target from_field to_field b c current at j in
        let s = next_round-Target to_field values candidates seen c here t in
        ground (
          arith,
          has_blob-append c.id found next,
          next_round-seen to_field values candidates seen c.id,
          v.ids c.id,
          s,
        )

    All-next :
        (k : ℕ) (current next : List IBlob)
        → suc k ≤ total
        → All (λ b. (s : IBlob) × In s starts × Linked k s b) current
        → All
            (λ c. In c candidates × (is_target to_field (join_values from_field current) c ≡ true))
            next
        → All (IsReached starts total) next
          × All (λ b. (s : IBlob) × In s starts × Linked (suc k) s b) next
    All-next k current [] le front a = (tt, tt)
    All-next k current (c ∷ cs) le front a =
        let (b, at, j) = is_target-Joins from_field to_field current c a.0.1 in
        let (s, here, l) =
          In-All (λ b. (s : IBlob) × In s starts × Linked k s b) b current front at in
        let l' = Linked-snoc k s b c l a.0.0 j in
        let (r, f) = All-next k current cs le front a.1 in
        (((s, here, suc k, omega arith, le, l'), r), ((s, here, l'), f))

    In-IsClosed-append :
        (b : IBlob) (found next : List IBlob) → IsClosed b found → IsClosed b (found ++ next)
    In-IsClosed-append b found next closed c at j =
        ground (arith, has_blob-append c.id found next, closed c at j)

    -- A round keeps the invariant.
    pub round-Inv :
        (k : ℕ) (found current : List IBlob) (seen : List DocumentId)
        → suc k ≤ total
        → Inv k found current seen
        → Inv
            (suc k)
            (found ++ (next_round to_field (join_values from_field current) candidates seen).0)
            (next_round to_field (join_values from_field current) candidates seen).0
            (next_round to_field (join_values from_field current) candidates seen).1
    round-Inv k found current seen le v =
        let values = join_values from_field current in
        let next = (next_round to_field values candidates seen).0 in
        let fresh =
          next_round-All to_field values (λ c. In c candidates) candidates seen
            (All-In_self candidates) in
        let (reached, front) =
          All-next k current next le v.front
            (All-map _ _ (λ (c : IBlob) h. (h.0, h.1)) next fresh) in
        let apart = next_round-IsDistinct to_field values candidates seen in
        record {
          ids = λ id. ground (
            arith,
            has_blob-append id found next,
            next_round-seen to_field values candidates seen id,
            v.ids id,
          );
          distinct =
              IsDistinct-append found next v.distinct apart.0 (λ id h. apart.1 id (v.ids id ∙ h));
          scanned =
              All-append _ found next v.scanned (All-map _ _ (λ (c : IBlob) h. h.0) next fresh);
          reached = All-append _ found next v.reached reached;
          front = front;
          closed = λ b at. elim at [
            | inl start ↦ elim (v.closed b (inl start)) [
              | inl here ↦ inr (round-IsClosed k found current seen v b here)
              | inr closed ↦ inr (In-IsClosed-append b found next closed)
            ]
            | inr later ↦ elim (In-append b found next later) [
              | inl old ↦ elim (v.closed b (inr old)) [
                | inl here ↦ inr (round-IsClosed k found current seen v b here)
                | inr closed ↦ inr (In-IsClosed-append b found next closed)
              ]
              | inr new ↦ inl new
            ]
          ];
        }

    -- What the later rounds find completes the round.
    pub Post-next :
        (depth k : ℕ) (found current : List IBlob) (seen : List DocumentId) (next res : List IBlob)
        → Inv k found current seen
        → Inv
            (suc k)
            (found ++ next)
            next
            (next_round to_field (join_values from_field current) candidates seen).1
        → ((b : IBlob) → In b current → IsClosed b (found ++ next))
        → Post depth (found ++ next) res
        → Post (suc depth) found res
    Post-next depth k found current seen next res v w round p =
        let keeps : (id : ℕ) → has_blob id found ≡ true → has_blob id res ≡ true =
          λ id h. p.keeps id (ground (arith, has_blob-append id found next)) in
        let closed : (b : IBlob) → In b starts ⊎ In b found → IsClosed b (found ++ next) = λ b at.
          elim (v.closed b at) [
            | inl here ↦ round b here
            | inr old ↦ In-IsClosed-append b found next old
          ] in
        record {
          distinct = p.distinct;
          scanned = p.scanned;
          reached = p.reached;
          keeps = keeps;
          complete = λ b c n at le l.
              elim n as (λ n. suc n ≤ suc depth → Linked (suc n) b c → has_blob c.id res ≡ true) [
                | zero ↦ λ le l.
                    let (d, here, j, e) = l in
                    subst (λ x. has_blob x.id res ≡ true) e (p.keeps d.id (closed b at d here j))
                | suc m ↦ λ le l.
                    let (d, here, j, l') = l in
                    let found' =
                      find_same d (found ++ next) here w.scanned (closed b at d here j) in
                    p.complete d c m (inr found') (omega arith) l'
              ]
                le l;
        }

    pub Post-complete :
        (depth : ℕ) (res : List IBlob)
        → Post depth [] res
        → (c : IBlob) → IsReached starts depth c
        → has_blob c.id res ≡ true
    Post-complete depth res p c (s, at, zero, pos, le, l) = absurd (omega arith)
    Post-complete depth res p c (s, at, suc n, pos, le, l) = p.complete s c n (inl at) le l
