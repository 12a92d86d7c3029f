-- ===== src/Sync/Table/Examples.antt =====
-- Tests of the model of the copy of a table, and its theorem at a concrete input.
use bemi_db.Prelude.{ℕ, ◌+◌, List, [], ◌∷◌, none, some, true, false, length}
use bemi_db.Columns.Types.{PgSchemaColumn}
use bemi_db.Sync.Metadata.{InternalTableMetadata, unset}
use bemi_db.Sync.Load.{LoadState, read_error}
use bemi_db.Sync.Copy.{copy_to_parquet, rows_left}
use bemi_db.Sync.Copy.Examples.{
  no_format, letter, ten_bytes, always, file_of, copying, file_of-written,
}
use bemi_db.Sync.Examples.{seven, users}
use bemi_db.Sync.Parquet.{ParquetRun}
use bemi_db.Sync.Table.{TableAnswers, sync_pg_table}
use bemi_db.Sync.Table.Outcome.{IsReported, sync_pg_table-IsReported}
use bemi_db.Iceberg.Storage.{Storage}

-- A COPY that is aborted after its second row.
abbrev aborted : TableAnswers
aborted = record {
  current_txid = some 9;
  table_size = some (8192, 2);
  csv_headers = some ("letter" ∷ "xmin" ∷ []);
  columns = λ headers. some (letter ∷ []);
  stream = record {
    rows = ("a" ∷ "7" ∷ []) ∷ ("b" ∷ "7" ∷ []) ∷ [];
    ending = read_error "conflict with recovery";
    close_error = some "conflict with recovery";
  };
  error_is_sent = true;
}

abbrev new_table : InternalTableMetadata
new_table = record { last_refresh_mode = unset; last_synced_at = 0; last_txid = 0; max_xmin = none }

abbrev copy_with : List PgSchemaColumn → ℕ → ℕ → LoadState → ParquetRun LoadState
copy_with columns size txid s =
    copy_to_parquet seven size false txid (λ s. 5) (λ c. c.column_name) no_format ten_bytes columns
      100 always (rows_left s + 2) s

abbrev copying_with : List PgSchemaColumn → ℕ → ℕ → Storage LoadState
copying_with columns size txid = record copying {
  create_parquet = λ h s. file_of (copy_with columns size txid s);
}

sync_pg_table-IsReported_example :
    IsReported aborted
      (sync_pg_table aborted copying_with users new_table false (length aborted.stream.rows + 3) [])
sync_pg_table-IsReported_example =
    sync_pg_table-IsReported aborted copying_with users new_table false seven (λ s. 5)
      (λ c. c.column_name) no_format ten_bytes 100 always
      (λ columns size txid h s s' file metadata e.
        file_of-written (copy_with columns size txid s) file metadata s' e)
      []
