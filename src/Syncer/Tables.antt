-- ===== src/Syncer/Tables.antt =====
-- src/syncer.go, SyncFromPostgres: the tables of a database, one after the other.
pub mod Settling
pub mod Safety
use bemi_db.Prelude.{
  ◌≡◌, ℕ, String, ◌<>◌, List, [], ◌∷◌, Option, none, some, Bool, true, false, ◌==◌, nat_eq,
  string_eq, if◌then◌else◌, ◌||◌, not,
}
use bemi_db.Names.{PgSchemaTable, to_config_arg, IcebergSchemaTable, pg_to_iceberg_schema_table}
use bemi_db.Sync.Metadata.{InternalTableMetadata, unset}
use bemi_db.Syncer.Connections.{
  SyncError, Event, closed, Log, World, new_connection, new_connection_with_snapshot,
  is_connection_healthy, check_health,
}
use bemi_db.Syncer.Retry.{Outcome, sync_table_with_retry, close_own}

-- The lists of the configuration; none is a nil list.
pub record TableFilters : Type 0 where
  pub exclude_tables : Option (List String)
  pub include_tables : Option (List String)
  pub incrementally_refreshed_tables : Option (List String)

pub record PendingTable : Type 0 where
  pub pg_schema_table : PgSchemaTable
  pub internal_table_metadata : InternalTableMetadata
  pub incremental_refresh : Bool

abbrev pub no_metadata : InternalTableMetadata
no_metadata = record {
  last_refresh_mode = unset;
  last_synced_at = 0;
  last_txid = 0;
  max_xmin = none;
}

-- The match of a text that has a `*`, by regexp, is a parameter.
module _ (matches_wildcard : String → String → Bool) where
  unfoldable pub has_exact_or_wildcard_match : List String → String → Bool
  has_exact_or_wildcard_match [] value = false
  has_exact_or_wildcard_match (s ∷ strs) value =
      if s == value || matches_wildcard s value
      then true
      else has_exact_or_wildcard_match strs value

  -- Whether a list that is not nil has a match.
  abbrev pub is_listed : Option (List String) → PgSchemaTable → Bool → Bool
  is_listed none table default = default
  is_listed (some strs) table default = has_exact_or_wildcard_match strs (to_config_arg table)

  unfoldable pub should_sync_table : TableFilters → PgSchemaTable → Bool
  unfolding has_exact_or_wildcard_match to_config_arg
  should_sync_table filters table =
      if is_listed filters.exclude_tables table false
      then false
      else is_listed filters.include_tables table true

  -- `synced_previously` looks up the Iceberg tables that were listed, and a checkpoint that is read
  -- from there; an error of the read, none, ends the process.
  module _ (filters : TableFilters) (synced_previously : IcebergSchemaTable → Bool)
      (read_internal_table_metadata : PgSchemaTable → Option InternalTableMetadata) where
    abbrev pending :
        PgSchemaTable
        → Option InternalTableMetadata
        → Option (List PendingTable)
        → Option (List PendingTable)
    pending table none rest = none
    pending table (some metadata) none = none
    pending table (some metadata) (some rest) = some (
        record {
          pg_schema_table = table;
          internal_table_metadata = metadata;
          incremental_refresh = is_listed filters.incrementally_refreshed_tables table false;
        }
        ∷ rest)

    unfoldable pub pending_tables : List PgSchemaTable → Option (List PendingTable)
    unfolding should_sync_table pg_to_iceberg_schema_table has_exact_or_wildcard_match to_config_arg
    pending_tables [] = some []
    pending_tables (table ∷ tables) =
        let rest = pending_tables tables in
        let metadata =
          if synced_previously (pg_to_iceberg_schema_table table)
          then read_internal_table_metadata table
          else some no_metadata in
        if should_sync_table filters table then pending table metadata rest else rest

pub record Connections : Type 0 where
  pub structure : ℕ
  pub copy : ℕ
  pub snapshot : String

-- The tables that were synchronised and those that failed, in order, with the connections at the end.
pub record Synced : Type 0 where
  pub synced_pg_schema_tables : List PgSchemaTable
  pub failed_tables : List PgSchemaTable
  pub connections : Connections

abbrev with_synced : PgSchemaTable → Option (Synced × Log) → Option (Synced × Log)
with_synced table none = none
with_synced table (some (s, log)) =
    some (record s { synced_pg_schema_tables = table ∷ s.synced_pg_schema_tables }, log)

abbrev with_failed : PgSchemaTable → Option (Synced × Log) → Option (Synced × Log)
with_failed table none = none
with_failed table (some (s, log)) = some (record s { failed_tables = table ∷ s.failed_tables }, log)

abbrev pub with_outcome :
    PgSchemaTable → Option SyncError → Option (Synced × Log) → Option (Synced × Log)
with_outcome table none rest = with_synced table rest
with_outcome table (some e) rest = with_failed table rest

-- The world as the synchronisation of a table meets it.
module _ (world : PendingTable → World) where
  abbrev new_structure : Connections → Option (ℕ × Log) → Option (Connections × Log)
  new_structure c none = none
  new_structure c (some (conn, log)) = some (record c { structure = conn; snapshot = "" }, log)

  abbrev new_copy : Connections → Option (ℕ × Log) → Option (Connections × Log)
  new_copy c none = none
  new_copy c (some (conn, log)) = some (record c { copy = conn }, log)

  unfoldable pub renew_structure : World → Connections → Log → Option (Connections × Log)
  renew_structure w c log =
      let log₁ = check_health w c.structure log in
      let new = new_connection w (closed c.structure ∷ log₁) in
      if is_connection_healthy w c.structure log then some (c, log₁) else new_structure c new

  unfoldable pub renew_copy : World → Connections → Log → Option (Connections × Log)
  renew_copy w c log =
      let log₁ = check_health w c.copy log in
      let new = new_connection_with_snapshot w c.snapshot (closed c.copy ∷ log₁) in
      if is_connection_healthy w c.copy log then some (c, log₁) else new_copy c new

  -- After a table the structure connection may be another one; the old one is closed.
  unfoldable pub adopt : Connections → Outcome → Log → Connections × Log
  unfolding close_own
  adopt c o log = (
    record c { structure = o.structure; snapshot = o.snapshot },
    close_own o.structure c.structure log,
  )

  unfoldable pub sync_tables : List PendingTable → Connections → Log → Option (Synced × Log)
  unfolding renew_structure renew_copy adopt
  sync_tables [] c log =
      some (record { synced_pg_schema_tables = []; failed_tables = []; connections = c }, log)
  sync_tables (table ∷ tables) c log =
      let w = world table in
      elim (renew_structure w c log) [
        | none ↦ none
        | some (c₁, log₁) ↦ elim (renew_copy w c₁ log₁) [
          | none ↦ none
          | some (c₂, log₂) ↦
              elim (sync_table_with_retry w c₂.structure c₂.copy c₂.snapshot
                table.internal_table_metadata log₂) [
                  | none ↦ none
                  | some (o, log₃) ↦
                      let (c₃, log₄) = adopt c₂ o log₃ in
                      with_outcome table.pg_schema_table o.error (sync_tables tables c₃ log₄)
                ]
        ]
      ]
