-- ===== src/Iceberg/Manifests.antt =====
-- src/storage_utils.go, WriteManifestListFile: the records of a manifest list, and the statistics of
-- its snapshot. Sizes and counts of Go's int64 are natural numbers without a bound.
pub mod Statistics
use bemi_db.Prelude.{
  ℕ, suc, ◌+◌, String, ◌<>◌, List, [], ◌∷◌, map, Option, none, some, Bool, ◌==◌, nat_eq, ◌&&◌, ltb,
  if◌then◌else◌, length,
}
use bemi_db.Iceberg.Files.{ManifestFile, ManifestListItem, ManifestListFile}

-- An Avro record of a manifest list. Its fields that are always 0 or empty (content,
-- existing_files_count, existing_rows_count, partition_spec_id, partitions, key_metadata) are left out.
pub record ManifestListRecord : Type 0 where
  pub added_snapshot_id : ℕ
  pub manifest_length : ℕ
  pub manifest_path : String
  pub min_sequence_number : ℕ
  pub sequence_number : ℕ
  pub added_files_count : ℕ
  pub added_rows_count : ℕ
  pub deleted_files_count : ℕ
  pub deleted_rows_count : ℕ

unfoldable pub manifest_list_record : String → ManifestListItem → ManifestListRecord
manifest_list_record prefix item =
    let file = item.manifest_file in
    record {
      added_snapshot_id = file.snapshot_id;
      manifest_length = file.size;
      manifest_path = prefix <> file.path;
      min_sequence_number = item.sequence_number;
      sequence_number = item.sequence_number;
      added_files_count = if file.records_deleted then 0 else 1;
      added_rows_count = if file.records_deleted then 0 else file.record_count;
      deleted_files_count = if file.records_deleted then 1 else 0;
      deleted_rows_count = if file.records_deleted then file.record_count else 0;
    }

pub record ManifestListSequenceStats : Type 0 where
  pub added_files_size : ℕ
  pub added_data_files : ℕ
  pub added_records : ℕ
  pub removed_files_size : ℕ
  pub deleted_data_files : ℕ
  pub deleted_records : ℕ

-- Go's zero value, which a map returns for a missing key.
abbrev pub no_stats : ManifestListSequenceStats
no_stats = record {
  added_files_size = 0;
  added_data_files = 0;
  added_records = 0;
  removed_files_size = 0;
  deleted_data_files = 0;
  deleted_records = 0;
}

unfoldable pub count_file : ManifestFile → ManifestListSequenceStats → ManifestListSequenceStats
count_file file stats =
    if file.records_deleted
    then record stats {
      removed_files_size = stats.removed_files_size + file.data_file_size;
      deleted_data_files = stats.deleted_data_files + 1;
      deleted_records = stats.deleted_records + file.record_count;
    }
    else record stats {
      added_files_size = stats.added_files_size + file.data_file_size;
      added_data_files = stats.added_data_files + 1;
      added_records = stats.added_records + file.record_count;
    }

-- The map from sequence numbers, which the source writes in decimal, to their statistics.
abbrev pub StatsMap : Type 0
StatsMap = List (ℕ × ManifestListSequenceStats)

unfoldable pub stats_at : ℕ → StatsMap → ManifestListSequenceStats
stats_at n [] = no_stats
stats_at n ((m, stats) ∷ rest) = if m == n then stats else stats_at n rest

unfoldable pub put_stats : ℕ → ManifestListSequenceStats → StatsMap → StatsMap
put_stats n stats [] = (n, stats) ∷ []
put_stats n stats ((m, old) ∷ rest) =
    if m == n then (m, stats) ∷ rest else (m, old) ∷ put_stats n stats rest

-- The loop over the items.
unfoldable pub stats_by_sequence_number : List ManifestListItem → StatsMap → StatsMap
stats_by_sequence_number [] stats = stats
stats_by_sequence_number (item ∷ items) stats =
    let n = item.sequence_number in
    stats_by_sequence_number items
      (put_stats n (count_file item.manifest_file (stats_at n stats)) stats)

unfoldable pub snapshot_operation : ℕ → ℕ → ManifestListSequenceStats → String
snapshot_operation sequence_numbers records last =
    if sequence_numbers == 1
      && (records == 2 && (last.added_data_files == 1 && last.deleted_data_files == 1))
    then "overwrite"
    else if last.added_data_files == 0 && ltb 0 last.deleted_data_files
    then "delete"
    else "append"

-- The result for a list that has been written to `path` at the time `now`, in milliseconds; none is
-- the panic on an empty list.
unfoldable pub write_manifest_list_file :
    String → ℕ → List ManifestListItem → Option ManifestListFile
write_manifest_list_file path now [] = none
write_manifest_list_file path now (item ∷ items) =
    let stats = stats_by_sequence_number (item ∷ items) [] in
    let last = stats_at item.sequence_number stats in
    some (record {
      sequence_number = item.sequence_number;
      snapshot_id = item.manifest_file.snapshot_id;
      timestamp_ms = now;
      path = path;
      operation = snapshot_operation (length stats) (suc (length items)) last;
      added_files_size = last.added_files_size;
      added_data_files = last.added_data_files;
      added_records = last.added_records;
      removed_files_size = last.removed_files_size;
      deleted_data_files = last.deleted_data_files;
      deleted_records = last.deleted_records;
    })
