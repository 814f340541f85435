-- ===== src/Lsm/Traverse/Reach.antt =====
-- crates/ingodb-lsm/src/lib.rs, `traverse_at`: a traversal, and the documents that paths of joins reach.
use ingodb.Base.{
  ℕ, zero, suc, ◌+◌, ◌≡◌, refl, sym, ap, ◌∙◌, inl, inr, true, Option, none, List, [], ◌∷◌, ◌++◌,
  arith, All, All-map, All-zip, subst, List-cases, append-nil,
}
use ingodb.Blob.Id.{DocumentId}
use ingodb.Blob.Value.{Value}
use ingodb.Blob.IBlob.{IBlob}
use ingodb.Query.{Filter}
use ingodb.Sstable.Error.{Outcome, done}
use ingodb.Lsm.Merge.Purge.{IsAscending}
use ingodb.Lsm.Traverse.{join_values, is_target, next_round, rounds, traverse_at}
use ingodb.Lsm.Traverse.Members.{In, has_blob, IsDistinct, All-In_self}
use ingodb.Lsm.Traverse.Round.{Joins-is_target}
use ingodb.Lsm.Traverse.Joined.{
  IsReached, IsClosed, not_target, Inv, Post, Post-closed, round-IsClosed, round-Inv, Post-next,
  Post-complete,
}

module _ (scan : Option Filter → Outcome (List IBlob)) (from_field to_field : List ℕ)
    (candidates : List IBlob) where
  module _ (unique : IsAscending candidates) (starts : List IBlob) (total : ℕ) where
    module _ (again : scan none ≡ done candidates) where
      -- What follows a scan for the targets of some values.
      abbrev after_round : ℕ → List IBlob → List IBlob → List DocumentId → Outcome (List IBlob)
      after_round depth found [] later = done found
      after_round depth found (doc ∷ docs) later =
          rounds scan from_field to_field depth (found ++ doc ∷ docs) (doc ∷ docs) later

      after_round_lem :
          (depth : ℕ) (found next : List IBlob) (later : List DocumentId)
          → (elim next [
            | [] ↦ done found
            | doc ∷ docs ↦
                rounds scan from_field to_field depth (found ++ doc ∷ docs) (doc ∷ docs) later
          ])
            ≡ after_round depth found next later
      after_round_lem depth found [] later = refl
      after_round_lem depth found (doc ∷ docs) later = refl

      rounds_step :
          (depth : ℕ) (found current : List IBlob) (seen : List DocumentId) (x : Value)
          (xs : List Value)
          → join_values from_field current ≡ x ∷ xs
          → rounds scan from_field to_field (suc depth) found current seen
            ≡ after_round depth found
                (next_round to_field (join_values from_field current) candidates seen).0
                (next_round to_field (join_values from_field current) candidates seen).1
      unfolding rounds
      rounds_step depth found current seen x xs e =
          rw (e, rounds) (rw again (after_round_lem depth found _ _))
          ∙ ap
              (λ vs.
                let round = next_round to_field vs candidates seen in
                after_round depth found round.0 round.1)
              (sym e)

      -- The loop ends with a result, and the result is what the joins reach.
      rounds-Post :
          (depth k : ℕ) (found current : List IBlob) (seen : List DocumentId)
          → k + depth ≡ total
          → Inv from_field to_field candidates unique starts total k found current seen
          → (res : List IBlob) × (rounds scan from_field to_field depth found current seen
              ≡ done res)
            × Post from_field to_field candidates unique starts total depth found res
      unfolding rounds
      rounds-Post zero k found current seen le v = (
        found,
        refl,
        record {
          distinct = v.distinct;
          scanned = v.scanned;
          reached = v.reached;
          keeps = λ id h. h;
          complete = λ b c n at le l. absurd (omega arith);
        },
      )
      rounds-Post (suc depth) k found current seen le v =
          let values = join_values from_field current in
          let round = next_round to_field values candidates seen in
          elim (List-cases values) [
            | inl none_left ↦
                let stop : (b : IBlob)
                    → In b current
                    → IsClosed from_field to_field candidates b found =
                  λ b at c here j. not_target to_field c (
                    subst (λ vs. is_target to_field vs c ≡ true) none_left
                      (Joins-is_target from_field to_field b c current at j)) in
                (
                  found,
                  rw (none_left, rounds) refl,
                  Post-closed from_field to_field candidates unique starts total (suc depth) k found
                      current seen v stop,
                )
            | inr (x, rest, some_left) ↦
                let step = rounds_step depth found current seen x rest some_left in
                let after =
                  round-IsClosed from_field to_field candidates unique starts total k found current
                    seen v in
                elim (List-cases round.0) [
                  | inl stopped ↦
                      let stop : (b : IBlob)
                          → In b current
                          → IsClosed from_field to_field candidates b found =
                        λ b at.
                          subst (IsClosed from_field to_field candidates b)
                            (ap (λ next. found ++ next) stopped ∙ append-nil found) (after b at) in
                      (
                        found,
                        step ∙ ap (λ next. after_round depth found next round.1) stopped,
                        Post-closed from_field to_field candidates unique starts total (suc depth) k
                            found current seen v stop,
                      )
                  | inr (doc, docs, joined) ↦
                      let w =
                        round-Inv from_field to_field candidates unique starts total k found current
                          seen (omega arith) v in
                      let (res, ran, p) =
                        rounds-Post depth (suc k) (found ++ round.0) round.0 round.1 (omega arith)
                          w in
                      (
                        res,
                        step
                            ∙ ap (λ next. after_round depth found next round.1) joined
                            ∙ ap
                                (λ next.
                                  rounds scan from_field to_field depth (found ++ next) next
                                    round.1)
                                (sym joined)
                            ∙ ran,
                        Post-next from_field to_field candidates unique starts total depth k found
                            current seen round.0 res v w after p,
                      )
                ]
          ]

  -- A traversal from the documents that the starting filter lets through, over the documents of a scan
  -- in the order of their ids: it ends with a result; no document is returned twice; each was scanned, and between
  -- one and `depth` joins lead to it from a starting document; and every document that so many joins
  -- reach is returned.
  pub traverse_at-Reached :
      (start : Option Filter) (depth : ℕ) (starts : List IBlob)
      → scan start ≡ done starts
      → scan none ≡ done candidates
      → IsAscending candidates
      → (res : List IBlob) × (traverse_at scan from_field to_field start depth ≡ done res)
        × IsDistinct res
        × All (λ c. In c candidates × IsReached from_field to_field candidates starts depth c) res
        × ((c : IBlob)
            → IsReached from_field to_field candidates starts depth c
            → has_blob c.id res ≡ true)
  unfolding traverse_at
  traverse_at-Reached start zero starts first again unique =
      ([], refl, tt, tt, λ c r. absurd (omega (arith, r.3, r.4)))
  traverse_at-Reached start (suc depth) starts first again unique =
      let v : Inv from_field to_field candidates unique starts (suc depth) 0 [] starts [] = record {
        ids = λ id. refl;
        distinct = tt;
        scanned = tt;
        reached = tt;
        front = All-map _ _ (λ (b : IBlob) at. (b, at, refl)) starts (All-In_self starts);
        closed = λ b at. elim at [ inl here ↦ inl here | inr none_found ↦ absurd none_found ];
      } in
      let (res, ran, p) =
        rounds-Post unique starts (suc depth) again (suc depth) 0 [] starts [] (omega arith) v in
      (
        res,
        rw first ran,
        p.distinct,
        All-zip _ _ res p.scanned p.reached,
        λ c r.
            Post-complete from_field to_field candidates unique starts (suc depth) (suc depth) res p
              c r,
      )
