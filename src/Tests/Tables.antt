-- ===== src/Tests/Tables.antt =====
-- Merging and the choice of tables at concrete documents and tables.
use ingodb.Base.{
  ℕ, ◌+◌, ◌<◌, ◌≡◌, refl, arith, Bool, true, false, Option, none, some, List, [], ◌∷◌, retain, leb,
  length,
}
use ingodb.Base.Sort.{sort_by}
use ingodb.Blob.IBlob.{IBlob}
use ingodb.Lsm.Merge.{by_id_version, dedup_mvcc, tombstone_filter, merge}
use ingodb.Lsm.Merge.Latest.{find_id, latest, find_id-merge}
use ingodb.Lsm.Merge.Purge.{IsAscending, live, merge-latest}
use ingodb.Lsm.Merge.Snapshots.{latest_at, merge-retain, snapshot_loses}
use ingodb.Lsm.Compaction.{SstMeta, by_min_id, find_overlap_group, all_groups}
use ingodb.Lsm.Compaction.Sweep.{IsCluster}
use ingodb.Lsm.Compaction.Cluster.{find_overlap_group-IsCluster}
use ingodb.Lsm.Compaction.Groups.{all_groups_enough}
use ingodb.Tests.{document}

abbrev versions : List IBlob
versions = document 9 ∷ document 12 ∷ record (document 4) { id = 3; flags = 1 } ∷ []

find_id-merge_example :
    find_id 7 (dedup_mvcc (some 10) (sort_by by_id_version versions)) ≡ latest 7 versions
find_id-merge_example = find_id-merge (some 10) 7 versions

merge-latest_example :
    IsAscending (merge none (tombstone_filter true) versions)
    × ((id : ℕ)
        → live (find_id id (merge none (tombstone_filter true) versions))
          ≡ live (latest id versions))
merge-latest_example = merge-latest true versions

merge-retain_example :
    retain (λ b. leb 10 b.version) (merge (some 10) (tombstone_filter false) versions)
    ≡ retain (λ b. leb 10 b.version) (sort_by by_id_version versions)
merge-retain_example = merge-retain 10 versions

-- What the reader at 10 finds before the compaction.
old_version : latest_at 10 7 versions ≡ some (document 9)
unfolding latest
old_version = refl

new_version : latest 7 versions ≡ some (document 12)
unfolding latest
new_version = refl

snapshot_loses_example : latest_at 10 7 (merge (some 10) (tombstone_filter true) versions) ≡ none
snapshot_loses_example =
    snapshot_loses 10 true 7 versions (document 12) new_version (omega arith)
      ((λ e. omega arith), ((λ e. omega arith), ((λ e. omega arith), tt)))

abbrev table : ℕ → ℕ → ℕ → SstMeta
table path min_id max_id = record {
  path = path;
  min_id = min_id;
  max_id = max_id;
  file_size = 100;
  seq = path;
}

abbrev level : List SstMeta
level = table 3 50 60 ∷ table 1 5 20 ∷ table 2 10 30 ∷ []

abbrev group : List SstMeta
group = table 1 5 20 ∷ table 2 10 30 ∷ []

level_found : find_overlap_group level 2 ≡ some group
unfolding find_overlap_group sort_by ingodb.Base.Sort.place
level_found = refl

find_overlap_group-IsCluster_example : IsCluster 2 (sort_by by_min_id level) group
find_overlap_group-IsCluster_example = find_overlap_group-IsCluster level 2 group level_found

all_groups_enough_example : all_groups 4 2 0 1 level ≡ all_groups 9 2 0 1 level
all_groups_enough_example = all_groups_enough 4 9 2 0 1 level (omega arith) (omega arith)
