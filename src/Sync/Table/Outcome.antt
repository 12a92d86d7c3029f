-- ===== src/Sync/Table/Outcome.antt =====
-- What the result of the copy of a table says.
use bemi_db.Prelude.{
  ◌≡◌, refl, sym, ◌⊎◌, ℕ, ◌+◌, String, List, [], ◌∷◌, Option, none, some, Bool, false, length,
  Option-cases, Bool-cases, inl, inr,
}
use bemi_db.Names.{PgSchemaTable}
use bemi_db.Columns.Types.{PgSchemaColumn}
use bemi_db.Columns.Values.{FormattedValue}
use bemi_db.Sync.Metadata.{InternalTableMetadata}
use bemi_db.Sync.Window.{copy_from_pg_table_sql}
use bemi_db.Sync.Batch.{
  BatchSize, batch, query_failed, panicked, calculate_dynamic_row_count_per_batch,
}
use bemi_db.Sync.Load.{LoadState, split_last}
use bemi_db.Sync.Parquet.{RowMap}
use bemi_db.Sync.Copy.{CopiesRows, copy_write-terminates}
use bemi_db.Sync.Table.{
  structure_connection_lost, copy_failed, copy_stream_failed, TableEnd, synced, failed, ended,
  TableAnswers, continued_refresh, last_txid, initial_load, received, header_error, settle,
  write_rows_of, after_headers, copy_table, sync_pg_table,
}
use bemi_db.Iceberg.Storage.{Storage, History, Run, done, stopped, Stop, exited, out_of_fuel}
use bemi_db.Iceberg.Writer.Termination.{Halts}

-- A query on the structure connection has failed: that of the transaction, of the size, or of the
-- columns that the first line of the COPY names.
abbrev pub StructureFailed : TableAnswers → Type 0
StructureFailed a =
    (a.current_txid ≡ none)
    ⊎ ((calculate_dynamic_row_count_per_batch a.table_size ≡ query_failed)
        ⊎ ((line : List String) × (columns : List String) × (last : String) × (a.csv_headers
              ≡ some line)
            × (split_last line ≡ some (columns, last))
            × ((columns ≡ []) ⊎ (a.columns columns ≡ none))))

-- The COPY has not failed, or its error has not been sent in time.
abbrev pub IsUnreported : TableAnswers → Type 0
IsUnreported a = (a.stream.close_error ≡ none) ⊎ (a.error_is_sent ≡ false)

-- Only the error of the COPY is reported as such; a success and an unreadable first line are only
-- reported where none has been sent, and a lost structure connection where a query on it failed; and
-- the copy does not run out of fuel.
abbrev pub IsReported : TableAnswers → TableEnd → Type 0
IsReported a (synced h) = IsUnreported a
IsReported a (failed (copy_failed e) h) = a.stream.close_error ≡ some e
IsReported a (failed structure_connection_lost h) = StructureFailed a
IsReported a (failed copy_stream_failed h) = IsUnreported a
IsReported a (ended out_of_fuel h) = ⊥
IsReported a (ended exited h) = Unit
IsReported a (ended Stop.panicked h) = Unit

module _ (a : TableAnswers) (storage : List PgSchemaColumn → ℕ → ℕ → Storage LoadState)
    (table : PgSchemaTable) (existing : InternalTableMetadata) (incremental_refresh : Bool) where
  settle-IsReported :
      (r : Run Unit)
      → Halts r (λ x. Unit)
      → IsReported a (settle a storage table existing incremental_refresh r)
  settle-IsReported (done x h) halts = elim (Option-cases a.stream.close_error) [
    | inl n ↦ rw (n, IsReported) (inl n)
    | inr (e, n) ↦ elim (Bool-cases a.error_is_sent) [
      | inl sent ↦ rw (n, sent, IsReported) n
      | inr late ↦ rw (n, late, IsReported) (inr late)
    ]
  ]
  settle-IsReported (stopped exited h) halts = tt
  settle-IsReported (stopped Stop.panicked h) halts = tt
  settle-IsReported (stopped out_of_fuel h) halts = halts

  header_failure-IsReported :
      (h : History)
      → IsReported a (failed (header_error (received a.stream.close_error a.error_is_sent)) h)
  header_failure-IsReported h = elim (Option-cases a.stream.close_error) [
    | inl n ↦ rw (n, IsReported) (inl n)
    | inr (e, n) ↦ elim (Bool-cases a.error_is_sent) [
      | inl sent ↦ rw (n, sent, IsReported) n
      | inr late ↦ rw (n, late, IsReported) (inr late)
    ]
  ]

  module _ (string_to_uint32 : String → Option ℕ) (now : LoadState → ℕ)
      (name_of : PgSchemaColumn → String) (format : PgSchemaColumn → String → Option FormattedValue)
      (write_row : RowMap → Option ℕ) (max_payload_threshold : ℕ) (write_stop : ℕ → Option {0} Unit)
      (copies : (columns : List PgSchemaColumn) (size txid : ℕ)
        → CopiesRows string_to_uint32 size incremental_refresh txid now name_of format write_row
            columns max_payload_threshold write_stop
            (storage columns size txid)) where
    abbrev fuel : ℕ
    fuel = length a.stream.rows + 3

    write_rows_of-IsReported :
        (txid size : ℕ) (columns : List PgSchemaColumn) (h : History)
        → IsReported a
            (write_rows_of a storage table existing incremental_refresh fuel txid size columns h)
    unfolding write_rows_of initial_load
    write_rows_of-IsReported txid size columns h =
        let t = last_txid existing txid in
        settle-IsReported _ (
          copy_write-terminates string_to_uint32 size incremental_refresh t now name_of format
            write_row columns max_payload_threshold write_stop (storage columns size t)
            (continued_refresh existing incremental_refresh) (initial_load existing a.stream) h
            (copies columns size t))

    after_columns-IsReported :
        (txid size : ℕ) (columns : Option (List PgSchemaColumn)) (h : History)
        → (columns ≡ none → StructureFailed a)
        → IsReported a (elim columns as (λ x. TableEnd) [
          | none ↦ failed structure_connection_lost h
          | some c ↦ write_rows_of a storage table existing incremental_refresh fuel txid size c h
        ])
    after_columns-IsReported txid size none h lost = lost refl
    after_columns-IsReported txid size (some columns) h lost =
        write_rows_of-IsReported txid size columns h

    -- A failure that follows the line.
    abbrev Loses : Option (List String × String) → Type 0
    Loses headers =
        (columns : List String) (last : String)
        → headers ≡ some (columns, last)
        → (columns ≡ []) ⊎ (a.columns columns ≡ none)
        → StructureFailed a

    after_headers-IsReported :
        (txid size : ℕ) (headers : Option (List String × String)) (h : History)
        → Loses headers
        → IsReported a
            (after_headers a storage table existing incremental_refresh fuel txid size headers h)
    unfolding after_headers
    after_headers-IsReported txid size none h lost = tt
    after_headers-IsReported txid size (some ([], last)) h lost = lost [] last refl (inl refl)
    after_headers-IsReported txid size (some (c ∷ headers, last)) h lost =
        after_columns-IsReported txid size (a.columns (c ∷ headers)) h
          (λ e. lost (c ∷ headers) last refl (inr e))

    after_csv_headers-IsReported :
        (txid size : ℕ) (headers : Option (List String)) (h : History)
        → headers ≡ a.csv_headers
        → IsReported a (elim headers as (λ x. TableEnd) [
          | none ↦ failed (header_error (received a.stream.close_error a.error_is_sent)) h
          | some line ↦
              after_headers a storage table existing incremental_refresh fuel txid size
                (split_last line)
                h
        ])
    after_csv_headers-IsReported txid size none h e = header_failure-IsReported h
    after_csv_headers-IsReported txid size (some line) h e =
        after_headers-IsReported txid size (split_last line) h
          (λ columns last split f. inr (inr (line, columns, last, sym e, split, f)))

    after_sql-IsReported :
        (txid size : ℕ) (sql : Option String) (h : History)
        → IsReported a (elim sql as (λ x. TableEnd) [
          | none ↦ ended exited h
          | some s ↦ elim a.csv_headers as (λ x. TableEnd) [
            | none ↦ failed (header_error (received a.stream.close_error a.error_is_sent)) h
            | some line ↦
                after_headers a storage table existing incremental_refresh fuel txid size
                  (split_last line)
                  h
          ]
        ])
    after_sql-IsReported txid size none h = tt
    after_sql-IsReported txid size (some s) h =
        after_csv_headers-IsReported txid size a.csv_headers h refl

    copy_table-IsReported :
        (txid size : ℕ) (h : History)
        → IsReported a (copy_table a storage table existing incremental_refresh fuel txid size h)
    unfolding copy_table
    copy_table-IsReported txid size h =
        after_sql-IsReported txid size
          (copy_from_pg_table_sql table existing txid
            (continued_refresh existing incremental_refresh))
          h

    after_size-IsReported :
        (txid : ℕ) (size : BatchSize) (h : History)
        → size ≡ calculate_dynamic_row_count_per_batch a.table_size
        → IsReported a (elim size as (λ x. TableEnd) [
          | query_failed ↦ failed structure_connection_lost h
          | panicked ↦ ended Stop.panicked h
          | batch n ↦ copy_table a storage table existing incremental_refresh fuel txid n h
        ])
    after_size-IsReported txid query_failed h e = inr (inl (sym e))
    after_size-IsReported txid panicked h e = tt
    after_size-IsReported txid (batch n) h e = copy_table-IsReported txid n h

    after_txid-IsReported :
        (txid : Option ℕ) (h : History)
        → txid ≡ a.current_txid
        → IsReported a (elim txid as (λ x. TableEnd) [
          | none ↦ failed structure_connection_lost h
          | some txid ↦
              elim (calculate_dynamic_row_count_per_batch a.table_size) as (λ x. TableEnd) [
                | query_failed ↦ failed structure_connection_lost h
                | panicked ↦ ended Stop.panicked h
                | batch n ↦ copy_table a storage table existing incremental_refresh fuel txid n h
              ]
        ])
    after_txid-IsReported none h e = inl (sym e)
    after_txid-IsReported (some txid) h e =
        after_size-IsReported txid (calculate_dynamic_row_count_per_batch a.table_size) h refl

    -- When the storage writes its Parquet files as WriteParquetFile does, the copy of a table comes to
    -- an end. A success, or a first line that cannot be read, is only reported when the COPY has not
    -- failed or its error has not been sent yet; the error of a COPY is reported as it is; and a lost
    -- structure connection is only reported when a query on that connection failed (or the first line
    -- names no column but xmin), then whether or not the COPY failed. A process that ends does so by an
    -- exit or a panic.
    pub sync_pg_table-IsReported :
        (h : History)
        → IsReported a (
            sync_pg_table a storage table existing incremental_refresh (length a.stream.rows + 3) h)
    unfolding sync_pg_table
    sync_pg_table-IsReported h = after_txid-IsReported a.current_txid h refl
