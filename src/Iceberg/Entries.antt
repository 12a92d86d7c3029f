-- ===== src/Iceberg/Entries.antt =====
-- src/storage_utils.go: WriteManifestFile, WriteDeletedRecordsManifestFile and ParseParquetFilePath,
-- on the one entry of a manifest. The statistics of the columns, and the fields that are always
-- null, are left out of the entry; what goavro does with it is not modelled.
use bemi_db.Prelude.{ℕ, String, ◌<>◌, Option, none, some, true, false}
use bemi_db.Iceberg.Files.{ParquetFile, ManifestFile}

pub data Status : Type 0 where
  added deleted : Status

pub record ManifestEntry : Type 0 where
  pub status : Status
  pub snapshot_id : ℕ
  pub sequence_number : Option ℕ
  pub file_sequence_number : Option ℕ
  pub file_path : String
  pub record_count : ℕ
  pub file_size_in_bytes : ℕ

-- At the time `now`, in nanoseconds, with `size` the size of the file that goavro has written.
unfoldable pub write_manifest_file :
    String → String → ℕ → ℕ → ParquetFile → ManifestEntry × ManifestFile
write_manifest_file prefix path now size file = (
  record {
    status = added;
    snapshot_id = now;
    sequence_number = none;
    file_sequence_number = none;
    file_path = prefix <> file.path;
    record_count = file.record_count;
    file_size_in_bytes = file.size;
  },
  record {
    records_deleted = false;
    snapshot_id = now;
    path = path;
    size = size;
    record_count = file.record_count;
    data_file_size = file.size;
  },
)

unfoldable pub write_deleted_records_manifest_file :
    String → ℕ → ManifestEntry → ManifestEntry × ManifestFile
write_deleted_records_manifest_file path size existing = (
  record existing { status = deleted; sequence_number = some 1; file_sequence_number = some 1 },
  record {
    records_deleted = true;
    snapshot_id = existing.snapshot_id;
    path = path;
    size = size;
    record_count = existing.record_count;
    data_file_size = existing.file_size_in_bytes;
  },
)

-- strings.TrimPrefix is a parameter.
unfoldable pub parse_parquet_file_path :
    (String → String → String) → String → ManifestEntry → String
parse_parquet_file_path trim_prefix prefix entry = trim_prefix entry.file_path prefix
