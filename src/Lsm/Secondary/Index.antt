-- ===== src/Lsm/Secondary/Index.antt =====
-- crates/ingodb-lsm/src/secondary.rs: what the methods of an index read and write.
pub mod Lost
use ingodb.Base.{
  ℕ, ◌+◌, Bool, true, false, ◌&&◌, ◌||◌, Option, none, some, List, [], ◌∷◌, ◌++◌, map, retain,
  length, replicate, bytes_ord, if◌then◌else◌,
}
use ingodb.Base.Maps
use ingodb.Base.Maps.{BTreeMap}
use ingodb.Base.Sort.{sort_by}
use ingodb.Blob.Id.{DocumentId}
use ingodb.Blob.Value.{Value}
use ingodb.Blob.IBlob
use ingodb.Blob.IBlob.{IBlob, tombstone}
use ingodb.Query.{Filter}
use ingodb.Sstable.Error.{Outcome, done, failed, stuck, ◌>>=◌, empty}
use ingodb.Sstable.Keys.{field_key, encode_comparable_value}
use ingodb.Sstable.Writer
use ingodb.Sstable.Reader.{Entry, SstableReader}
use ingodb.Sstable.Lookup
use ingodb.Sstable.Lookup.{open_table, le_bytes}
use ingodb.Sstable.Range
use ingodb.Lsm.Scan.{blobs_of, sstable_blobs, passes}
use ingodb.Lsm.Secondary.{
  SecondaryIndex, by_key, with_ids, newest_live, should_full_rebuild, covers_half, mark_compaction,
}

-- A result of `&mut self`: the index after it, which an error leaves as it was when it struck.
abbrev pub Changed : Type 0
Changed = SecondaryIndex × Outcome (Unit {0})

-- `self.reader = SSTableReader::open(...)?`
abbrev pub with_reader : SecondaryIndex → Outcome SstableReader → Changed
with_reader idx (done r) = (record idx { reader = r }, done tt)
with_reader idx (failed e) = (idx, failed e)
with_reader idx stuck = (idx, stuck)

-- A rebuilt index: another reader, an empty buffer, and the range.
abbrev pub with_rebuilt : SecondaryIndex → Option Filter → Outcome (Option SstableReader) → Changed
with_rebuilt idx range (done (some r)) =
    (record idx { reader = r; buffer = []; range = range }, done tt)
with_rebuilt idx range (done none) = (idx, done tt)
with_rebuilt idx range (failed e) = (idx, failed e)
with_rebuilt idx range stuck = (idx, stuck)

-- `map(...).unwrap_or(0)`
abbrev pub count_or_zero : Outcome (List Entry) → ℕ
count_or_zero (done kvs) = length kvs
count_or_zero (failed e) = 0
count_or_zero stuck = 0

module _ (blake3 : List ℕ → List ℕ) where
  -- A document with the key of another replaces its entry.
  unfoldable pub notify_put : IBlob → SecondaryIndex → SecondaryIndex
  unfolding field_key
  notify_put b idx = record idx {
    buffer = Maps.insert (field_key blake3 idx.fields b) (IBlob.project b idx.fields) idx.buffer;
  }

  unfoldable pub notify_delete : DocumentId → SecondaryIndex → SecondaryIndex
  unfolding field_key tombstone
  notify_delete id idx = record idx {
    buffer = Maps.insert (field_key blake3 idx.fields (tombstone id)) (tombstone id) idx.buffer;
  }

  abbrev pub start_of : Option Value → List ℕ
  start_of (some v) = encode_comparable_value blake3 v
  start_of none = 0x00 ∷ []

  abbrev pub end_of : Option Value → List ℕ
  end_of (some v) = encode_comparable_value blake3 v
  end_of none = replicate 32 0xFF

  module _ (decompress : List ℕ → Option (List ℕ)) (crc32 : List ℕ → ℕ) where
    -- The entries of the table and of the buffer, in the order of the keys.
    unfoldable pub iter_sorted : SecondaryIndex → Outcome (List (DocumentId × IBlob))
    unfolding Lookup.iter
    iter_sorted idx =
        Lookup.iter blake3 decompress crc32 idx.reader
        >>= (λ entries. done (with_ids (sort_by by_key (entries ++ idx.buffer))))

    unfoldable pub range_scan :
        ℕ → Option Value → Option Value → SecondaryIndex → Outcome (List (DocumentId × IBlob))
    unfolding Range.range_scan
    range_scan among start_value end_value idx =
        let start_key = start_of start_value in
        let end_key = end_of end_value in
        let within = λ (kv : Entry). le_bytes start_key kv.0 && le_bytes kv.0 end_key in
        Range.range_scan blake3 decompress crc32 among idx.reader start_key end_key
        >>= (λ entries. done (with_ids (sort_by by_key (entries ++ retain within idx.buffer))))

    unfoldable pub entry_count : SecondaryIndex → ℕ
    unfolding Lookup.iter
    entry_count idx =
        count_or_zero (Lookup.iter blake3 decompress crc32 idx.reader) + length idx.buffer

    -- `open`
    unfoldable pub open_index : ℕ → List (List ℕ) → Option Filter → List ℕ → Outcome SecondaryIndex
    unfolding open_table
    open_index now fields range bytes = open_table blake3 decompress crc32 bytes >>= (λ r.
        done (record {
          fields = fields;
          range = range;
          reader = r;
          buffer = [];
          last_used = now;
          compactions_since_use = 0;
        }))

    module _ (compress : List ℕ → List ℕ) (block_size : ℕ) where
      -- The table of some projected documents, written and opened.
      unfoldable pub write_index : List (List ℕ) → List IBlob → Outcome SstableReader
      unfolding Writer.write open_table
      write_index fields projected =
          Writer.write compress crc32 blake3 block_size projected (field_key blake3 fields)
          >>= (λ bytes. open_table blake3 decompress crc32 bytes)

      unfoldable pub build : ℕ → List (List ℕ) → List SstableReader → Outcome SecondaryIndex
      unfolding Writer.write open_index newest_live sstable_blobs
      build now fields primary_sstables =
          sstable_blobs blake3 decompress crc32 primary_sstables >>= (λ all.
            let projected = map (λ b. IBlob.project b fields) (newest_live all) in
            elim projected [
              | [] ↦ failed empty
              | b ∷ bs ↦
                  Writer.write compress crc32 blake3 block_size (b ∷ bs) (field_key blake3 fields)
                  >>= open_index now fields none
            ])

      unfoldable pub build_partial :
          ℕ → List (List ℕ) → Option Filter → List IBlob → Outcome SecondaryIndex
      unfolding Writer.write open_index
      build_partial now fields range [] = failed empty
      build_partial now fields range (b ∷ bs) =
          Writer.write compress crc32 blake3 block_size (map (λ c. IBlob.project c fields) (b ∷ bs))
            (field_key blake3 fields)
          >>= open_index now fields range

      abbrev pub rebuilt :
          List (List ℕ) → Option Filter → List SstableReader → Outcome (Option SstableReader)
      rebuilt fields range primary_sstables =
          sstable_blobs blake3 decompress crc32 primary_sstables >>= (λ all.
            let projected =
              map (λ b. IBlob.project b fields) (retain (passes range) (newest_live all)) in
            elim projected [
              | [] ↦ done none
              | b ∷ bs ↦ write_index fields (b ∷ bs) >>= (λ r. done (some r))
            ])

      unfoldable pub full_rebuild : List SstableReader → Option Filter → SecondaryIndex → Changed
      unfolding sstable_blobs newest_live write_index
      full_rebuild primary_sstables range idx =
          with_rebuilt idx range (rebuilt idx.fields range primary_sstables)

      -- The merge of the buffer that was taken: an error loses it.
      abbrev pub merge_taken : SecondaryIndex → BTreeMap (List ℕ) IBlob → Changed
      merge_taken idx [] = (idx, done tt)
      merge_taken idx (kv ∷ kvs) =
          with_reader (record idx { buffer = [] })
            (Lookup.iter blake3 decompress crc32 idx.reader >>= (λ entries.
              write_index idx.fields (blobs_of (sort_by by_key (entries ++ kv ∷ kvs)))))

      unfoldable pub merge_buffer : SecondaryIndex → Changed
      unfolding write_index Lookup.iter
      merge_buffer idx = merge_taken idx idx.buffer

      abbrev pub is_full : Option Filter → Bool
      is_full none = true
      is_full (some f) = false

      unfoldable pub compact : (ℕ → ℕ → Bool) → List SstableReader → ℕ → SecondaryIndex → Changed
      unfolding should_full_rebuild covers_half full_rebuild merge_buffer mark_compaction
          entry_count
      compact rebuild primary_sstables primary_doc_count idx =
          let marked = mark_compaction idx in
          let index_entries = entry_count marked in
          if should_full_rebuild rebuild index_entries primary_doc_count
          then (if covers_half index_entries primary_doc_count || is_full marked.range
              then full_rebuild primary_sstables none marked
              else full_rebuild primary_sstables marked.range marked)
          else merge_buffer marked
