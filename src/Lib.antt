-- ===== src/Lib.antt =====
-- BemiDB: a Postgres-compatible read replica over Iceberg tables. The syncer copies tables from
-- Postgres into Parquet files and Iceberg metadata; the server answers Postgres clients from
-- those files through DuckDB. This library models the program's core logic, each function as the
-- code writes it.
--
-- Parts, and the Go files of src/ they model:
-- - CappedBuffer: capped_buffer.go. The bounded pipe between the goroutine that runs COPY and
--   the CSV reader. Its state is a record; Write, Read and CloseWithError are functions under
--   the mutex, and a call that waits on the condition variable is tried again, at any time: the
--   wakeups by Broadcast are not modelled, and nothing is said of whether a call that waits is ever
--   woken. CappedBuffer.Trace has the interleavings of a writer and a reader.
-- - Sync: syncer_table.go, with parts of storage_interface.go and utils.go. Sync.Metadata is the
--   checkpoint of a table; Sync.Window is CopyFromPgTableSql, with the rows that it selects apart
--   from its text; Sync.Batch is calculatedynamicRowCountPerBatch; Sync.Load is the closure that
--   SyncPgTable passes to the writer, over the rows that the CSV reader has yet to give;
--   Sync.Parquet is WriteParquetFile of storage_utils.go, and Sync.Copy puts these together.
--   Sync.Table is SyncPgTable, from the first query to the error that it returns.
-- - Syncer: syncer.go, and the directories of storage_local.go. Syncer.Connections are the two
--   connections and their transactions, Syncer.Retry is syncTableWithRetry, Syncer.Tables the loop
--   of SyncFromPostgres and shouldSyncTable, Syncer.Cleanup deleteOldIcebergSchemaTables over the
--   directories of Syncer.Catalog, and Syncer.Run a whole synchronisation. Postgres and SyncPgTable
--   are answers of a World, which may depend on the whole log of events so far.
-- - Iceberg: iceberg_writer_table.go and storage_utils.go. Iceberg.Writer is Write and
--   overwriteExistingFiles, over the calls of StorageInterface (Iceberg.Storage), which are a
--   record of functions of the calls made so far. Iceberg.Entries, Iceberg.Manifests and
--   Iceberg.Metadata are the manifest files, the manifest lists and the metadata file, written and
--   read back.
-- - Columns: pg_schema_column.go. The types, schema fields and values of a column.
-- - Names: custom_types.go. The names of tables and fields, and the sets.
-- - Wire: query_handler.go (Parse, Bind, Describe, Execute, row descriptions and data rows) and
--   postgres.go (handleExtendedQuery). Wire.Statement is PreparedStatement with the handles of
--   database/sql in a driver state; Wire.Handlers has one function for each Handle...Query;
--   Wire.Results the messages that rows become; Wire.Exchange the loop over the messages, with
--   Go panics as an ending; Wire.Simple is HandleSimpleQuery.
-- - Remapper: query_remapper.go with query_remapper_*.go, parser_*.go and pg_constants.go.
--   Remapper.Syntax is the syntax tree of pg_query as far as the remapper reads it.
--   Remapper.Statements is ParseAndRemapQuery; Remapper.Walk the walk over a SELECT, one function
--   for each clause, over Remapper.Steps; Remapper.Expressions RemappedExpression, with the casts of
--   Remapper.Casts; Remapper.Functions RemapFunctionCall over Remapper.Calls;
--   Remapper.Tables RemapTable and the set of known tables; Remapper.Where removeWhereClause and
--   the type of a JOIN; Remapper.Macros and Remapper.SystemTables the statements and names of the
--   catalog that DuckDB is given. Nodes that the code changes in place are given back: a step on an
--   expression gives the new node and what is left of the old one, and os.Exit and Go panics are
--   endings of a Rewrite.
--
-- The rows of a COPY go from the pipe through the closure of Sync.Load into the batches of
-- Sync.Parquet, and the writer of Iceberg.Writer makes a Parquet file, a manifest, a manifest
-- list, a metadata file and a checkpoint of each run of batches, until the checkpoint is
-- complete.
--
-- DuckDB (go-duckdb behind database/sql), pgproto3, pgtype, goavro, parquet-go, the parsers of
-- strconv and time and the parser of pg_query are parameters: the record Wire.Engine.Engine has
-- the results of the calls, which may be any, errors included. The handlers see the query remapper
-- as Wire.Handlers.Remapper and Wire.Simple.SimpleEngine, whose answer may also be that it ends the
-- process by a panic or an exit, as ParseAndRemapQuery does (Remapper.Rewrite). Whether DuckDB takes
-- the names of two tables for the same, which depends on more than their letters, is a parameter of
-- the theorem on DuckDB's tables, and that a BEGIN leaves an aborted transaction aborted is part of
-- Syncer.Connections.Transactions. The remapper's own parameters are the record
-- Remapper.State.Environment: the listing of the tables at each call, their fields and the
-- statements that DuckDB fails; and Remapper.Statements.Parser: parse and deparse of pg_query.
-- Bytes are native numbers; lists of messages that a client sends are finite, and a list that
-- ends is a connection that is lost.
--
-- Sizes, counts, sequence numbers and times of the Iceberg files are numbers without a bound,
-- where the code has int64 and int: none of them is negative, and the theorem that reads them
-- back has the bound as a hypothesis. Two loops have fuel, which counts their turns: that of
-- WriteParquetFile takes a row off the stream in each turn, and that of Write a record, so two
-- and three turns more than there are rows are enough; a run that is out of fuel is a result of
-- its own. The fuel of HandleSimpleQuery counts its calls, the first one included, of which two
-- are enough when DuckDB runs the query it falls back on. The walk of Remapper.Walk takes a unit
-- of fuel for each call, so the size of the tree is enough (Remapper.Walk.Termination), although
-- calls are rewritten on the way. The searches of a text have its length as fuel, and the digits
-- of a number the number. All other loops are structural recursion.
--
-- Not modelled: the ping of SyncPgTable, the connections that share one remapper at the same
-- time, the startup of a connection, the boot queries of DuckDB, the memory monitor, the calls of
-- the file system and of S3, the Parquet statistics, the configuration, and the logging, which is
-- left out of each function.
pub mod Prelude
pub mod CappedBuffer
pub mod Wire
pub mod Names
pub mod Sync
pub mod Syncer
pub mod Iceberg
pub mod Columns
pub mod Remapper
