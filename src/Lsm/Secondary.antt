-- ===== src/Lsm/Secondary.antt =====
-- crates/ingodb-lsm/src/secondary.rs: the secondary indexes.
--
-- The mutexes serialise the methods. `Instant::now()` is an argument, in nanoseconds. The file of an
-- index is the bytes that its reader holds: opening it again after the rename reads what was written.
-- The logarithm in `should_full_rebuild` is a floating-point number and a parameter, `rebuild`, of
-- `n` entries and `m` documents for `n as f64 > 0.5 * m as f64 * ln(m as f64)`; `coverage >= 0.5` is
-- exact for counts below 2 ^ 53. What the file system can answer is left out.
pub mod Index
use ingodb.Base.{
  ℕ, ◌+◌, ◌-◌, ◌*◌, ◌^◌, ◌%◌, Bool, true, false, not, ◌&&◌, ◌||◌, ◌==◌, leb, Option, none, some,
  List, [], ◌∷◌, ◌++◌, map, retain, length, replicate, cmp_bytes, Ordering, lt, eq, gt, bytes_ord,
  if◌then◌else◌,
}
use ingodb.Base.Maps
use ingodb.Base.Maps.{BTreeMap}
use ingodb.Base.Sort.{sort_by}
use ingodb.Blob.Id.{DocumentId}
use ingodb.Blob.Value.{Value}
use ingodb.Blob.IBlob
use ingodb.Blob.IBlob.{IBlob, is_deleted, get_field, tombstone}
use ingodb.Query.{
  Filter, Filters, equals, greater, less, range, exists, and, or, negation, none_left, filter,
  value_eq, bytes_eq,
}
use ingodb.Sstable.Error.{Outcome, done, failed, stuck, ◌>>=◌, empty}
use ingodb.Sstable.Keys.{field_key, encode_comparable_value}
use ingodb.Sstable.Writer
use ingodb.Sstable.Reader.{Entry, SstableReader}
use ingodb.Sstable.Lookup
use ingodb.Sstable.Lookup.{open_table, le_bytes}
use ingodb.Sstable.Range.{range_scan}
use ingodb.Lsm.Merge.{by_id_version, dedup_by_id}
use ingodb.Lsm.Scan.{blobs_of, sstable_blobs, passes}

abbrev pub drop_compaction_cycles : ℕ
drop_compaction_cycles = 10

abbrev pub drop_hours : ℕ
drop_hours = 720

pub record SecondaryIndex : Type 0 where
  pub fields : List (List ℕ)
  pub range : Option Filter
  pub reader : SstableReader
  pub buffer : BTreeMap (List ℕ) IBlob
  pub last_used : ℕ
  pub compactions_since_use : ℕ

abbrev pub names_eq : List (List ℕ) → List (List ℕ) → Bool
names_eq [] [] = true
names_eq (a ∷ as') (b ∷ bs) = bytes_eq a b && names_eq as' bs
names_eq _ _ = false

-- The derived `PartialEq` of filters.
unfoldable mutual
  pub filter_eq : Filter → Filter → Bool
  filter_eq (equals a v) (equals b w) = bytes_eq a b && value_eq v w
  filter_eq (greater a v) (greater b w) = bytes_eq a b && value_eq v w
  filter_eq (less a v) (less b w) = bytes_eq a b && value_eq v w
  filter_eq (range a l h) (range b m i) = bytes_eq a b && (value_eq l m && value_eq h i)
  filter_eq (exists a) (exists b) = bytes_eq a b
  filter_eq (and fs) (and gs) = filters_eq fs gs
  filter_eq (or fs) (or gs) = filters_eq fs gs
  filter_eq (negation f) (negation g) = filter_eq f g
  filter_eq _ _ = false

  pub filters_eq : Filters → Filters → Bool
  filters_eq none_left none_left = true
  filters_eq (filter f fs) (filter g gs) = filter_eq f g && filters_eq fs gs
  filters_eq _ _ = false

unfoldable pub matches_sort : SecondaryIndex → List (List ℕ) → Bool
matches_sort idx sort_fields = names_eq idx.fields sort_fields

-- A full-range index serves every filter, a partial one the filter that it was made for.
abbrev pub covers : Option Filter → Option Filter → Bool
covers none query_filter = true
covers (some idx_range) none = false
covers (some idx_range) (some qf) = filter_eq idx_range qf

unfoldable pub matches_query : SecondaryIndex → List (List ℕ) → Option Filter → Bool
unfolding filter_eq
matches_query idx sort_fields query_filter =
    if not (names_eq idx.fields sort_fields) then false else covers idx.range query_filter

unfoldable pub mark_used : ℕ → SecondaryIndex → SecondaryIndex
mark_used now idx = record idx { last_used = now; compactions_since_use = 0 }

unfoldable pub mark_compaction : SecondaryIndex → SecondaryIndex
mark_compaction idx = record idx {
  compactions_since_use = (idx.compactions_since_use + 1) % 2 ^ 32;
}

unfoldable pub should_drop : ℕ → SecondaryIndex → Bool
should_drop now idx =
    leb drop_compaction_cycles idx.compactions_since_use
    && leb (drop_hours * 3600 * 1000000000) (now - idx.last_used)

abbrev pub by_key : Entry → Entry → Ordering
by_key a b = cmp_bytes a.0 b.0

abbrev pub with_ids : List Entry → List (DocumentId × IBlob)
with_ids [] = []
with_ids (kv ∷ kvs) = (kv.1.id, kv.1) ∷ with_ids kvs

-- The documents that an index is built from: the newest version of each, without tombstones.
unfoldable pub newest_live : List IBlob → List IBlob
unfolding dedup_by_id
newest_live all = retain (λ b. not (is_deleted b)) (dedup_by_id (sort_by by_id_version all))

module _ (rebuild : ℕ → ℕ → Bool) where
  unfoldable pub should_full_rebuild : ℕ → ℕ → Bool
  should_full_rebuild index_entries primary_docs =
      if primary_docs == 0 then true else rebuild index_entries primary_docs

-- `coverage >= 0.5`
unfoldable pub covers_half : ℕ → ℕ → Bool
covers_half index_entries primary_doc_count =
    if primary_doc_count == 0 then true else leb primary_doc_count (2 * index_entries)
