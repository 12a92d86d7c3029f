-- ===== src/Sync/Copy/Examples.antt =====
-- Tests of the model of a copy into a Parquet file, and its theorems at concrete inputs.
use bemi_db.Prelude.{◌≡◌, ℕ, ◌+◌, String, [], ◌∷◌, Option, none, some, false, arith}
use bemi_db.Columns.Types.{PgSchemaColumn}
use bemi_db.Columns.Values.{FormattedValue, missing}
use bemi_db.Sync.Metadata.{InternalTableMetadata, is_in_progress}
use bemi_db.Sync.Load.{LoadState}
use bemi_db.Sync.Parquet.{RowMap, Delivers, ParquetRun, written, failed, out_of_fuel}
use bemi_db.Sync.Copy.{
  IsReadToEnd, rows_left, copy_to_parquet, copy_to_parquet_complete, copy_write-terminates,
}
use bemi_db.Sync.Examples.{seven, two_rows}
use bemi_db.Iceberg.Files.{ParquetFile, no_parquet_file, ManifestFile, ManifestListFile}
use bemi_db.Iceberg.Storage.{Storage}
use bemi_db.Iceberg.Writer.{write}
use bemi_db.Iceberg.Writer.Termination.{Halts}

abbrev pub no_format : PgSchemaColumn → String → Option FormattedValue
no_format column text = some missing

abbrev pub letter : PgSchemaColumn
letter = record {
  column_name = "letter";
  data_type = "text";
  udt_name = "text";
  is_nullable = "YES";
  ordinal_position = "1";
  character_maximum_length = "0";
  numeric_precision = "0";
  numeric_scale = "0";
  datetime_precision = "0";
  namespace = "pg_catalog";
  part_of_primary_key = false;
}

-- A Parquet file that takes any row, of ten bytes.
abbrev pub ten_bytes : RowMap → Option ℕ
ten_bytes row = some 10

abbrev pub always : ℕ → Option {0} Unit
always rows = some tt

abbrev copy : ℕ → LoadState → ParquetRun LoadState
copy fuel s =
    copy_to_parquet seven 4 false 9 (λ s. 5) (λ c. c.column_name) no_format ten_bytes (letter ∷ [])
      100 always fuel s

copy_to_parquet_complete_example : Delivers (copy 4 two_rows) (λ count metadata s'.
    (count + rows_left s' ≡ 2) × (is_in_progress metadata ≡ false → IsReadToEnd s'))
copy_to_parquet_complete_example =
    copy_to_parquet_complete seven 4 false 9 (λ s. 5) (λ c. c.column_name) no_format ten_bytes
      (letter ∷ []) 100 always 4 two_rows (λ t. absurd (ground arith)) (omega arith)

abbrev pub file_of :
    ParquetRun LoadState → Option (ParquetFile × (InternalTableMetadata × LoadState))
file_of (written count metadata s) =
    some (record no_parquet_file { record_count = count }, (metadata, s))
file_of failed = none
file_of out_of_fuel = none

pub file_of-written :
    (run : ParquetRun LoadState) (file : ParquetFile) (metadata : InternalTableMetadata)
    (s : LoadState)
    → file_of run ≡ some (file, (metadata, s))
    → run ≡ written file.record_count metadata s
file_of-written (written count m s') file metadata s e = ground arith
file_of-written failed file metadata s e = absurd (ground arith)
file_of-written out_of_fuel file metadata s e = absurd (ground arith)

abbrev no_manifest_file : ManifestFile
no_manifest_file = record {
  records_deleted = false;
  snapshot_id = 1;
  path = "metadata/m0.avro";
  size = 3;
  record_count = 0;
  data_file_size = 0;
}

abbrev no_manifest_list : ManifestListFile
no_manifest_list = record {
  sequence_number = 1;
  snapshot_id = 1;
  timestamp_ms = 5;
  path = "metadata/list.avro";
  operation = "append";
  added_files_size = 0;
  added_data_files = 0;
  added_records = 0;
  removed_files_size = 0;
  deleted_data_files = 0;
  deleted_records = 0;
}

abbrev pub copying : Storage LoadState
copying = record {
  create_data_dir = λ h. some tt;
  create_metadata_dir = λ h. some tt;
  existing_manifest_list_files = λ h. some [];
  existing_manifest_list_items = λ h file. some [];
  existing_parquet_file_path = λ h m. some "data/old.parquet";
  create_parquet = λ h s. file_of (copy (rows_left s + 2) s);
  new_merge_duckdb = λ h path. some tt;
  create_overwritten_parquet = λ h path. some no_parquet_file;
  delete_parquet = λ h file. some tt;
  create_manifest = λ h file. some no_manifest_file;
  create_deleted_records_manifest = λ h uuid old. some old;
  create_manifest_list = λ h uuid items. some no_manifest_list;
  create_metadata = λ h files. some tt;
  write_internal_table_metadata = λ h m. some tt;
}

copy_write-terminates_example : Halts (write copying false 5 two_rows []) (λ r. Unit)
copy_write-terminates_example =
    copy_write-terminates seven 4 false 9 (λ s. 5) (λ c. c.column_name) no_format ten_bytes
      (letter ∷ []) 100 always copying false two_rows []
      (λ h s s' file metadata e. file_of-written (copy (rows_left s + 2) s) file metadata s' e)
