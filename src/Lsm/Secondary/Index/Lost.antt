-- ===== src/Lsm/Secondary/Index/Lost.antt =====
-- crates/ingodb-lsm/src/secondary.rs, `notify_put`: documents that share an entry of the buffer.
use ingodb.Base.{All, ℕ, ◌≡◌, refl, ap, ◌∙◌, List, [], ◌∷◌, arith, bytes_ord}
use ingodb.Base.Maps
use ingodb.Base.Maps.{BTreeMap}
use ingodb.Base.Orders.{Ord}
use ingodb.Blob.IBlob
use ingodb.Blob.IBlob.{IBlob, get_field}
use ingodb.Sstable.Keys.{field_key}
use ingodb.Lsm.Secondary.{SecondaryIndex}
use ingodb.Lsm.Secondary.Index.{notify_put}

module _ {K V : Type 0} ⦃o : Ord K⦄ where
  insert-insert :
      (k : K) (v w : V) (m : BTreeMap K V) → Maps.insert k v (Maps.insert k w m) ≡ Maps.insert k v m
  unfolding Maps.insert
  insert-insert k v w [] = ground (arith, o.cmp_refl k)
  insert-insert k v w ((j, u) ∷ m) = ground (arith, o.cmp_refl k, insert-insert k v w m)

module _ (blake3 : List ℕ → List ℕ) where
  field_key-same :
      (fields : List (List ℕ)) (a b : IBlob)
      → All (λ name. get_field a name ≡ get_field b name) fields
      → field_key blake3 fields a ≡ field_key blake3 fields b
  unfolding field_key
  field_key-same [] a b same = refl
  field_key-same (name ∷ fields) a b same = rw (same.0, field_key-same fields a b same.1) refl

  -- Two documents with the same values of the indexed fields, whatever their ids, are written one after
  -- the other: the index is what it would be if the first had never been written.
  pub notify_put-notify_put :
      (a b : IBlob) (idx : SecondaryIndex)
      → All (λ name. get_field a name ≡ get_field b name) idx.fields
      → notify_put blake3 b (notify_put blake3 a idx) ≡ notify_put blake3 b idx
  unfolding notify_put
  notify_put-notify_put a b idx same = λ i. record idx {
    buffer =
        (ap
              (λ k.
                Maps.insert (field_key blake3 idx.fields b) (IBlob.project b idx.fields)
                  (Maps.insert k (IBlob.project a idx.fields) idx.buffer))
              (field_key-same idx.fields a b same)
            ∙ insert-insert (field_key blake3 idx.fields b) (IBlob.project b idx.fields)
                (IBlob.project a idx.fields) idx.buffer)
          i;
  }
