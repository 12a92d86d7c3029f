-- ===== src/Syncer/Run.antt =====
-- src/syncer.go, SyncFromPostgres: a whole synchronisation.
use bemi_db.Prelude.{String, List, ◌∷◌, Option, none, some, Bool, if◌then◌else◌}
use bemi_db.Syncer.Connections.{closed, Log, World, open_connections}
use bemi_db.Syncer.Catalog.{Catalog}
use bemi_db.Syncer.Cleanup.{delete_old_iceberg_schema_tables}
use bemi_db.Syncer.Tables.{PendingTable, Connections, Synced, sync_tables}

pub record SyncRun : Type 0 where
  pub synced : Synced
  pub log : Log
  pub catalog : Catalog

module _ (w : World) (world : PendingTable → World)
    -- the pending tables that are found with the first connections
    (list_pending_tables : Log → Option (List PendingTable))
    -- the directories that are there at a time
    (catalog_at : Log → Catalog) (preserve_unsynced : Bool) (schema_prefix : String) where
  abbrev close_both : Connections → Log → Log
  close_both c log = closed c.copy ∷ closed c.structure ∷ log

  abbrev clean_up : Option (Synced × Log) → Option SyncRun
  clean_up none = none
  clean_up (some (s, log)) =
      let log₁ = close_both s.connections log in
      some (record {
        synced = s;
        log = log₁;
        catalog =
            if preserve_unsynced
            then catalog_at log₁
            else delete_old_iceberg_schema_tables schema_prefix s.synced_pg_schema_tables
                (catalog_at log₁);
      })

  -- none is an exit before the cleanup; after it the process exits when tables have failed. The file
  -- of start queries and the analytics are left out.
  unfoldable pub sync_from_postgres : Log → Option SyncRun
  unfolding open_connections delete_old_iceberg_schema_tables
  sync_from_postgres log = elim (open_connections w log) [
    | none ↦ none
    | some (structure, copy, snapshot, log₁) ↦ elim (list_pending_tables log₁) [
      | none ↦ none
      | some pending ↦ clean_up (
          sync_tables world pending
            (record { structure = structure; copy = copy; snapshot = snapshot }) log₁)
    ]
  ]
