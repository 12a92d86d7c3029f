-- ===== src/Iceberg/Files.antt =====
-- src/storage_interface.go: what the program knows of the files of an Iceberg table.
use bemi_db.Prelude.{ℕ, String, List, [], Bool}

pub record ParquetFileStats : Type 0 where
  pub column_sizes : List (ℕ × ℕ)
  pub value_counts : List (ℕ × ℕ)
  pub null_value_counts : List (ℕ × ℕ)
  pub lower_bounds : List (ℕ × List ℕ)
  pub upper_bounds : List (ℕ × List ℕ)
  pub split_offsets : List ℕ

pub record ParquetFile : Type 0 where
  pub uuid : String
  pub path : String
  pub size : ℕ
  pub record_count : ℕ
  pub stats : ParquetFileStats

-- Go's zero value.
abbrev pub no_parquet_file : ParquetFile
no_parquet_file = record {
  uuid = "";
  path = "";
  size = 0;
  record_count = 0;
  stats = record {
    column_sizes = [];
    value_counts = [];
    null_value_counts = [];
    lower_bounds = [];
    upper_bounds = [];
    split_offsets = [];
  };
}

pub record ManifestFile : Type 0 where
  pub records_deleted : Bool
  pub snapshot_id : ℕ
  pub path : String
  pub size : ℕ
  pub record_count : ℕ
  pub data_file_size : ℕ

pub record ManifestListItem : Type 0 where
  pub sequence_number : ℕ
  pub manifest_file : ManifestFile

pub record ManifestListFile : Type 0 where
  pub sequence_number : ℕ
  pub snapshot_id : ℕ
  pub timestamp_ms : ℕ
  pub path : String
  pub operation : String
  pub added_files_size : ℕ
  pub added_data_files : ℕ
  pub added_records : ℕ
  pub removed_files_size : ℕ
  pub deleted_data_files : ℕ
  pub deleted_records : ℕ
