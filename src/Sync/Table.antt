-- ===== src/Sync/Table.antt =====
-- src/syncer_table.go, SyncPgTable: the copy of a table from its first query to the error that is
-- returned. The goroutine of the ping does not touch the result.
pub mod Outcome
mod Examples
use bemi_db.Prelude.{
  ◌≡◌, ◌≢◌, refl, ℕ, zero, suc, ◌+◌, String, List, [], ◌∷◌, Option, none, some, Bool, true, false,
  ◌==◌, nat_eq, if◌then◌else◌, ◌||◌, ◌&&◌, not, Option-cases, Bool-cases, inl, inr, arith,
}
use bemi_db.Names.{PgSchemaTable}
use bemi_db.Columns.Types.{PgSchemaColumn}
use bemi_db.Sync.Metadata.{
  RefreshMode, InternalTableMetadata, full, full_in_progress, incremental, incremental_in_progress,
  unset,
}
use bemi_db.Sync.Window.{copy_from_pg_table_sql}
use bemi_db.Sync.Batch.{
  BatchSize, batch, query_failed, panicked, calculate_dynamic_row_count_per_batch,
}
use bemi_db.Sync.Load.{CopyStream, LoadState, split_last}
use bemi_db.Iceberg.Storage.{Storage, History, Run, done, stopped, Stop, exited}
use bemi_db.Iceberg.Writer.{write}

pub data TableError : Type 0 where
  -- with a lost structure connection, also when its query of the columns fails
  structure_connection_lost : TableError
  -- the error of the COPY
  copy_failed : String → TableError
  -- the first line of the COPY could not be read
  copy_stream_failed : TableError

pub data TableEnd : Type 0 where
  synced : History → TableEnd
  failed : TableError → History → TableEnd
  -- the process has ended
  ended : Stop → History → TableEnd

-- What Postgres answers.
pub record TableAnswers : Type 0 where
  pub current_txid : Option ℕ
  pub table_size : Option (ℕ × ℕ)
  -- the first line of the COPY
  pub csv_headers : Option (List String)
  pub columns : List String → Option (List PgSchemaColumn)
  -- the other lines, and the error of the COPY, with which the buffer is closed
  pub stream : CopyStream
  -- Whether the goroutine of the COPY has sent its error by the time that SyncPgTable looks: it tells
  -- the wait group that it is done, and only then sends.
  pub error_is_sent : Bool

abbrev is_full_in_progress : RefreshMode → Bool
is_full_in_progress full_in_progress = true
is_full_in_progress full = false
is_full_in_progress incremental = false
is_full_in_progress incremental_in_progress = false
is_full_in_progress unset = false

unfoldable pub continued_refresh : InternalTableMetadata → Bool → Bool
continued_refresh existing incremental_refresh = elim existing.max_xmin [
  | none ↦ false
  | some x ↦ incremental_refresh || is_full_in_progress existing.last_refresh_mode
]

-- An interrupted full refresh keeps the transaction that it began at.
unfoldable pub last_txid : InternalTableMetadata → ℕ → ℕ
last_txid existing current =
    if is_full_in_progress existing.last_refresh_mode && not (existing.last_txid == 0)
    then existing.last_txid
    else current

-- The closure's variables before the first call.
unfoldable pub initial_load : InternalTableMetadata → CopyStream → LoadState
initial_load existing stream = record {
  stream = stream;
  reached_end = false;
  total_row_count = 0;
  max_xmin = elim existing.max_xmin [ none ↦ 0 | some x ↦ x ];
}

-- `select` on the channel, which has the error only when it has been sent.
abbrev pub received : Option String → Bool → Option String
received none sent = none
received (some e) true = some e
received (some e) false = none

abbrev pub report : Option String → History → TableEnd
report none h = synced h
report (some e) h = failed (copy_failed e) h

abbrev pub header_error : Option String → TableError
header_error none = copy_stream_failed
header_error (some e) = copy_failed e

module _ (a : TableAnswers)
    -- the storage of the writer, with its columns, row count of a batch, and transaction
    (storage : List PgSchemaColumn → ℕ → ℕ → Storage LoadState) (table : PgSchemaTable)
    (existing : InternalTableMetadata) (incremental_refresh : Bool) where
  abbrev pub settle : Run Unit → TableEnd
  settle (done r h) = report (received a.stream.close_error a.error_is_sent) h
  settle (stopped s h) = ended s h

  -- The write of the rows, with the fuel of its loop.
  unfoldable pub write_rows_of : ℕ → ℕ → ℕ → List PgSchemaColumn → History → TableEnd
  unfolding continued_refresh last_txid initial_load
  write_rows_of fuel txid size columns h = settle (
      write (storage columns size (last_txid existing txid))
        (continued_refresh existing incremental_refresh) fuel (initial_load existing a.stream) h)

  unfoldable pub after_headers : ℕ → ℕ → ℕ → Option (List String × String) → History → TableEnd
  unfolding write_rows_of
  after_headers fuel txid size none h = ended Stop.panicked h
  after_headers fuel txid size (some ([], last)) h = failed structure_connection_lost h
  after_headers fuel txid size (some (c ∷ headers, last)) h = elim (a.columns (c ∷ headers)) [
    | none ↦ failed structure_connection_lost h
    | some columns ↦ write_rows_of fuel txid size columns h
  ]

  unfoldable pub copy_table : ℕ → ℕ → ℕ → History → TableEnd
  unfolding after_headers continued_refresh
  copy_table fuel txid size h =
      elim (copy_from_pg_table_sql table existing txid
        (continued_refresh existing incremental_refresh)) [
          | none ↦ ended exited h
          | some sql ↦ elim a.csv_headers [
            | none ↦ failed (header_error (received a.stream.close_error a.error_is_sent)) h
            | some headers ↦ after_headers fuel txid size (split_last headers) h
          ]
        ]

  unfoldable pub sync_pg_table : ℕ → History → TableEnd
  unfolding copy_table
  sync_pg_table fuel h = elim a.current_txid [
    | none ↦ failed structure_connection_lost h
    | some txid ↦ elim (calculate_dynamic_row_count_per_batch a.table_size) [
      | query_failed ↦ failed structure_connection_lost h
      | panicked ↦ ended Stop.panicked h
      | batch size ↦ copy_table fuel txid size h
    ]
  ]
