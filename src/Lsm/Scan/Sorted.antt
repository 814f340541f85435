-- ===== src/Lsm/Scan/Sorted.antt =====
-- crates/ingodb-lsm/src/lib.rs, `scan_at`: the comparator of a sorted scan, on documents whose sort fields
-- hold values of one kind each.
use ingodb.Base.{
  ℕ, ◌≡◌, ◌≢◌, refl, Option, none, some, List, [], ◌∷◌, arith, All, length, length-take, take, drop,
  take-append-drop, subst, sym, ◌++◌, min, gt,
}
use ingodb.Base.Orders.{cmp_bytes-IsTotal}
use ingodb.Base.Sort.{sort_by, IsSortedBy, sort_by-IsSortedBy_on, length-sort_by}
use ingodb.Blob.Id.{DocumentId}
use ingodb.Blob.Value.{Value}
use ingodb.Blob.IBlob.{IBlob, get_field}
use ingodb.Query.{Filter}
use ingodb.Query.Ast.{SortDirection, ascending, descending, SortField}
use ingodb.Query.Order.{kind, text, key_order, compare_values-key_order}
use ingodb.Lsm.Scan.{
  reverse, field_order, directed, compare_fields, sort_results, truncate, project_all, scan_layers,
  collect_layers, select, current,
}
use ingodb.Lsm.Engine.{Layers}
use ingodb.Sstable.Error.{done}
use mathlib.Core.List.{Perm}
use ingodb.Base.Sort.Permuted.{sort_by-perm}

key_order-reverse : (a b : Value) → key_order b a ≡ reverse (key_order a b)
key_order-reverse a b = ground (
  arith,
  cmp_bytes-IsTotal.lt_of_gt (text a) (text b),
  cmp_bytes-IsTotal.gt_of_lt (text a) (text b),
  cmp_bytes-IsTotal.eq_of_cmp (text a) (text b),
  cmp_bytes-IsTotal.cmp_refl (text a),
)

key_order_trans : (a b c : Value) → key_order a b ≢ gt → key_order b c ≢ gt → key_order a c ≢ gt
key_order_trans a b c h k = ground (
  arith,
  cmp_bytes-IsTotal.lt_trans (text a) (text b) (text c),
  cmp_bytes-IsTotal.eq_of_cmp (text a) (text b),
  cmp_bytes-IsTotal.eq_of_cmp (text b) (text c),
)

-- The field is missing, or holds a value of the kind.
abbrev pub IsOf : ℕ → Option Value → Type 0
IsOf k none = Unit
IsOf k (some v) = (kind v ≡ k) × (kind v ≢ 0)

field_order-reverse :
    (k : ℕ) (o p : Option Value) → IsOf k o → IsOf k p → field_order p o ≡ reverse (field_order o p)
field_order-reverse k none none x y = refl
field_order-reverse k none (some b) x y = refl
field_order-reverse k (some a) none x y = refl
field_order-reverse k (some a) (some b) x y =
    ground
      (arith, compare_values-key_order a b, compare_values-key_order b a, key_order-reverse a b)

field_order_trans :
    (k : ℕ) (o p q : Option Value)
    → IsOf k o
    → IsOf k p
    → IsOf k q
    → field_order o p ≢ gt
    → field_order p q ≢ gt
    → field_order o q ≢ gt
field_order_trans k (some a) (some b) (some c) x y z h l = ground (
  arith,
  compare_values-key_order a b,
  compare_values-key_order b c,
  compare_values-key_order a c,
  key_order_trans a b c,
)
field_order_trans k none none q x y z h l = l
field_order_trans k none (some b) q x y z h l = absurd (h refl)
field_order_trans k (some a) none none x y z h l = h
field_order_trans k (some a) none (some c) x y z h l = absurd (l refl)
field_order_trans k (some a) (some b) none x y z h l = ground arith

-- Every sort field of the document is missing, or holds a value of the kind that goes with the field.
abbrev pub IsSortable : (List ℕ → ℕ) → List SortField → IBlob → Type 0
IsSortable kinds [] b = Unit
IsSortable kinds (sf ∷ sfs) b = IsOf (kinds sf.name) (get_field b sf.name) × IsSortable kinds sfs b

field_cmp-reverse :
    (k : ℕ) (d : SortDirection) (o p : Option Value)
    → IsOf k o
    → IsOf k p
    → directed d (field_order p o) ≡ reverse (directed d (field_order o p))
field_cmp-reverse k ascending o p x y = field_order-reverse k o p x y
field_cmp-reverse k descending o p x y = ground (arith, field_order-reverse k o p x y)

field_cmp_trans :
    (k : ℕ) (d : SortDirection) (o p q : Option Value)
    → IsOf k o
    → IsOf k p
    → IsOf k q
    → directed d (field_order o p) ≢ gt
    → directed d (field_order p q) ≢ gt
    → directed d (field_order o q) ≢ gt
field_cmp_trans k ascending o p q x y z h l = field_order_trans k o p q x y z h l
field_cmp_trans k descending o p q x y z h l = ground (
  arith,
  field_order_trans k q p o z y x,
  field_order-reverse k o p x y,
  field_order-reverse k p q y z,
  field_order-reverse k o q x z,
)

module _ (kinds : List ℕ → ℕ) where
  compare_fields-reverse :
      (sfs : List SortField) (a b : IBlob)
      → IsSortable kinds sfs a
      → IsSortable kinds sfs b
      → compare_fields sfs b a ≡ reverse (compare_fields sfs a b)
  unfolding compare_fields
  compare_fields-reverse [] a b x y = refl
  compare_fields-reverse (sf ∷ sfs) a b x y = ground (
    arith,
    compare_fields-reverse sfs a b x.1 y.1,
    field_cmp-reverse (kinds sf.name) sf.direction (get_field a sf.name) (get_field b sf.name) x.0
        y.0,
  )

  compare_fields_trans :
      (sfs : List SortField) (a b c : IBlob)
      → IsSortable kinds sfs a
      → IsSortable kinds sfs b
      → IsSortable kinds sfs c
      → compare_fields sfs a b ≢ gt
      → compare_fields sfs b c ≢ gt
      → compare_fields sfs a c ≢ gt
  unfolding compare_fields
  compare_fields_trans [] a b c x y z h l = h
  compare_fields_trans (sf ∷ sfs) a b c x y z h l =
      let k = kinds sf.name in
      let d = sf.direction in
      let o = get_field a sf.name in
      let p = get_field b sf.name in
      let q = get_field c sf.name in
      ground (
        arith,
        compare_fields_trans sfs a b c x.1 y.1 z.1,
        field_cmp-reverse k d o p x.0 y.0,
        field_cmp-reverse k d p q y.0 z.0,
        field_cmp-reverse k d o q x.0 z.0,
        field_cmp_trans k d o p q x.0 y.0 z.0,
        field_cmp_trans k d p q o y.0 z.0 x.0,
        field_cmp_trans k d q o p z.0 x.0 y.0,
      )

  -- The sort of a scan whose results are sortable: no result compares above a later one, whatever
  -- holds of all results holds of all sorted ones, and their number stays.
  pub sort_results-IsSortedBy :
      (sfs : List SortField) (results : List IBlob)
      → All (IsSortable kinds sfs) results
      → IsSortedBy (compare_fields sfs) (sort_results (some sfs) results)
        × (length (sort_results (some sfs) results) ≡ length results)
  unfolding sort_results
  sort_results-IsSortedBy sfs results a = (
    sort_by-IsSortedBy_on (compare_fields sfs) (IsSortable kinds sfs)
        (λ x y p q h. ground (arith, compare_fields-reverse sfs x y p q)) (compare_fields_trans sfs)
        results a,
    length-sort_by (compare_fields sfs) results,
  )

  -- A sorted scan with a limit that no secondary index serves, of layers whose blobs can be read, where
  -- the documents that the filter lets through are sortable: it returns the first documents of an
  -- ordering of all of these by the sort fields, as many as the limit allows.
  pub scan_layers-IsSortedBy :
      (blake3 : List ℕ → List ℕ) (decompress : List ℕ → Option (List ℕ)) (crc32 : List ℕ → ℕ)
      (filter : Option Filter) (sfs : List SortField) (lim : ℕ) (snapshot : DocumentId) (e : Layers)
      (all : List IBlob)
      → collect_layers blake3 decompress crc32 e ≡ done all
      → All (IsSortable kinds sfs) (select filter (current snapshot all))
      → (bs rest : List IBlob) × (scan_layers blake3 decompress crc32 filter
            (some sfs)
            none
            (some lim)
            snapshot
            e
          ≡ done bs)
        × IsSortedBy (compare_fields sfs) (bs ++ rest)
        × Perm (bs ++ rest) (select filter (current snapshot all))
        × (length bs ≡ min lim (length (select filter (current snapshot all))))
  unfolding scan_layers truncate project_all sort_results
  scan_layers-IsSortedBy blake3 decompress crc32 filter sfs lim snapshot e all read a =
      let found = select filter (current snapshot all) in
      let ordered = sort_by (compare_fields sfs) found in
      let whole = take-append-drop lim ordered in
      let (sorted, same) = sort_results-IsSortedBy sfs found a in
      (
        take lim ordered,
        drop lim ordered,
        rw read refl,
        subst (IsSortedBy (compare_fields sfs)) (sym whole) sorted,
        subst (λ xs. Perm xs found) (sym whole) (sort_by-perm (compare_fields sfs) found),
        omega (arith, length-take lim ordered, same),
      )
