-- ===== src/Syncer/Examples.antt =====
-- Tests of the model of the synchronisation of a database, and its theorems at concrete inputs.
use text.Mathlib.TextEquality.{eq_iff}
use bemi_db.Prelude.{
  ◌≡◌, ◌↔◌, refl, sym, String, List, [], ◌∷◌, none, some, Bool, true, false, ◌==◌, nat_eq,
  string_eq, if◌then◌else◌, arith,
}
use bemi_db.Names.{PgSchemaTable}
use bemi_db.Syncer.Connections.{
  SyncError, begin_serializable, begin_repeatable_read, select_one, select_export_snapshot,
  set_transaction_snapshot, opened, closed, executed, attempted, waited, Log, World, is_open, fresh,
  new_connection, new_connection_with_snapshot, export_snapshot,
}
use bemi_db.Syncer.Connections.Transactions.{
  IsUsable, transaction, running, new_connection_with_snapshot-IsUsable,
  export_snapshot-running_iff,
}
use bemi_db.Syncer.Retry.{Outcome, sync_table_with_retry}
use bemi_db.Syncer.Retry.Holding.{IsReady, uses_open}
use bemi_db.Syncer.Retry.Closing.{Closes, sync_table_with_retry-Closes}
use bemi_db.Syncer.Catalog.{Catalog, has_table}
use bemi_db.Syncer.Cleanup.{with_schema_prefix, schema_is_found, delete_old_iceberg_schema_tables}
use bemi_db.Syncer.Cleanup.Prefixed.{delete_old-prefixed}
use bemi_db.Syncer.Tables.{PendingTable, Connections, Synced, no_metadata}
use bemi_db.Syncer.Run.{SyncRun}

abbrev conflict : SyncError
conflict = record {
  message = "canceling statement due to conflict with recovery";
  code = some "40001";
}

abbrev tried : Log → Bool
tried (attempted s c m ok ∷ log) = true
tried (opened c ∷ log) = tried log
tried (closed c ∷ log) = tried log
tried (executed c sql ok ∷ log) = tried log
tried (waited ∷ log) = tried log
tried [] = false

-- The first try of a table meets a conflict, and the next one succeeds.
abbrev standby : World
standby = record {
  connects = λ log. true;
  executes = λ log c sql. none;
  exported_snapshot = λ log c. "00000003";
  sync_pg_table = λ log s c m. some (if tried log then none else some conflict);
  internal_table_metadata = λ log. none;
}

abbrev two_connections : Log
two_connections = opened 1 ∷ opened 0 ∷ []

abbrev retried : Log
retried =
    attempted 0 2 no_metadata true
    ∷ waited
    ∷ executed 2 (set_transaction_snapshot "00000003") true
    ∷ executed 2 begin_repeatable_read true
    ∷ opened 2
    ∷ executed 0 select_one true
    ∷ attempted 0 1 no_metadata false
    ∷ two_connections

abbrev succeeded_later : Outcome
succeeded_later = record { structure = 0; snapshot = "00000003"; error = none }

retry :
    sync_table_with_retry standby 0 1 "00000003" no_metadata two_connections
    ≡ some (succeeded_later, retried)
unfolding sync_table_with_retry new_connection_with_snapshot fresh
retry = refl

two_connections-IsReady : IsReady 0 1 two_connections
unfolding is_open fresh uses_open
two_connections-IsReady = record {
  ready_numbered = λ d ge. ground arith;
  ready_open = (refl, refl);
  ready_below = (omega arith, omega arith);
  ready_apart = λ e. omega arith;
  ready_uses = refl;
}

sync_table_with_retry-Closes_example :
    Closes standby 0 1 "00000003" two_connections 4 succeeded_later retried
sync_table_with_retry-Closes_example =
    sync_table_with_retry-Closes standby 0 1 "00000003" no_metadata two_connections retried
      succeeded_later two_connections-IsReady retry

new_connection_with_snapshot-IsUsable_example : IsUsable 1 (
    executed 1 (set_transaction_snapshot "00000003") true
    ∷ executed 1 begin_repeatable_read true
    ∷ opened 1
    ∷ opened 0
    ∷ [])
unfolding new_connection_with_snapshot fresh
new_connection_with_snapshot-IsUsable_example =
    new_connection_with_snapshot-IsUsable standby "00000003" (opened 0 ∷ [])
      (executed 1 (set_transaction_snapshot "00000003") true
        ∷ executed 1 begin_repeatable_read true
        ∷ opened 1
        ∷ opened 0
        ∷ [])
      1 refl

export_snapshot-running_iff_example :
    (transaction 0
        (export_snapshot standby 0 (executed 0 begin_serializable true ∷ opened 0 ∷ [])).1
      ≡ running)
    ↔ (standby.executes
          (executed 0 begin_serializable true ∷ opened 0 ∷ [])
          0
          select_export_snapshot
        ≡ none)
unfolding new_connection fresh
export_snapshot-running_iff_example =
    export_snapshot-running_iff standby [] (executed 0 begin_serializable true ∷ opened 0 ∷ []) 0
      refl

-- Each try of the table `orders` ends with an error that is not the standby's.
abbrev disk_full : SyncError
disk_full = record { message = "could not write: disk full"; code = some "53100" }

abbrev world_of : PendingTable → World
world_of t = record standby {
  sync_pg_table =
      λ log s c m. some (if t.pg_schema_table.table == "orders" then some disk_full else none);
}

abbrev table_of : String → PgSchemaTable
table_of name = record { schema = "public"; table = name; parent_partitioned_table = "" }

abbrev pending_of : String → PendingTable
pending_of name = record {
  pg_schema_table = table_of name;
  internal_table_metadata = no_metadata;
  incremental_refresh = false;
}

abbrev two_tables : List PendingTable
two_tables = pending_of "users" ∷ pending_of "orders" ∷ []

abbrev at_start : Connections
at_start = record { structure = 0; copy = 1; snapshot = "00000003" }

abbrev one_synced : Synced
one_synced = record {
  synced_pg_schema_tables = table_of "users" ∷ [];
  failed_tables = table_of "orders" ∷ [];
  connections = at_start;
}

abbrev both_tried : Log → Log
both_tried log =
    attempted 0 1 no_metadata false
    ∷ executed 1 select_one true
    ∷ executed 0 select_one true
    ∷ attempted 0 1 no_metadata true
    ∷ executed 1 select_one true
    ∷ executed 0 select_one true
    ∷ log

abbrev directories : Catalog
directories = record { name = "public"; tables = "users" ∷ "orders" ∷ [] } ∷ []

abbrev prefixed : Catalog
prefixed = record { name = "db_public"; tables = "users" ∷ "orders" ∷ [] } ∷ []

delete_old-prefixed_example :
    (has_table
        (delete_old_iceberg_schema_tables "db_" (table_of "users" ∷ []) prefixed)
        "db_public"
        "orders"
      ≡ true)
    ↔ ((has_table prefixed "db_public" "orders" ≡ true)
        × (schema_is_found "db_public" (with_schema_prefix "db_" (table_of "users" ∷ [])) ≡ true))
unfolding has_table
delete_old-prefixed_example =
    delete_old-prefixed "db_" (table_of "users" ∷ []) prefixed "db_public" "orders" (λ s t t' h.
      let e : "db_public" ≡ s = ground (arith, eq_iff "db_public" s) in rw (sym e) refl)

abbrev opening : Log
opening =
    executed 1 (set_transaction_snapshot "00000003") true
    ∷ executed 1 begin_repeatable_read true
    ∷ opened 1
    ∷ executed 0 select_export_snapshot true
    ∷ executed 0 begin_serializable true
    ∷ opened 0
    ∷ []

abbrev run_of : Catalog → SyncRun
run_of catalog = record {
  synced = one_synced;
  log = closed 1 ∷ closed 0 ∷ both_tried opening;
  catalog = catalog;
}

abbrev without_orders : Catalog
without_orders = record { name = "public"; tables = "users" ∷ [] } ∷ []
