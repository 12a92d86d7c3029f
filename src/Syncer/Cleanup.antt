-- ===== src/Syncer/Cleanup.antt =====
-- src/syncer.go, deleteOldIcebergSchemaTables: the schemas and the tables that the last
-- synchronisation did not write are deleted.
pub mod Deletion
pub mod Prefixed
use bemi_db.Prelude.{
  ◌≡◌, refl, sym, ◌∙◌, String, ◌<>◌, List, [], ◌∷◌, ◌++◌, map, Bool, true, false, ◌==◌, string_eq,
  if◌then◌else◌, ◌&&◌, Bool-cases, inl, inr, arith,
}
use bemi_db.Names.{IcebergSchemaTable, PgSchemaTable, iceberg_table_string, pg_table_string}
use bemi_db.Syncer.Catalog.{
  Catalog, SchemaDirectory, iceberg_schemas, iceberg_schema_tables, delete_schema,
  delete_schema_table, has_table, remove_table_path, except_name,
}

-- The tables under the schema names that they have in the storage.
unfoldable pub with_schema_prefix : String → List PgSchemaTable → List PgSchemaTable
with_schema_prefix schema_prefix [] = []
with_schema_prefix schema_prefix (t ∷ tables) =
    record { schema = schema_prefix <> t.schema; table = t.table; parent_partitioned_table = "" }
    ∷ with_schema_prefix schema_prefix tables

unfoldable pub schema_is_found : String → List PgSchemaTable → Bool
schema_is_found schema [] = false
schema_is_found schema (t ∷ tables) =
    if schema == t.schema then true else schema_is_found schema tables

unfoldable pub table_is_found : IcebergSchemaTable → List PgSchemaTable → Bool
unfolding iceberg_table_string pg_table_string
table_is_found table [] = false
table_is_found table (t ∷ tables) =
    if iceberg_table_string table == pg_table_string t then true else table_is_found table tables

-- The loop over the schemas that were listed.
unfoldable pub delete_old_schemas : List PgSchemaTable → List String → Catalog → Catalog
unfolding schema_is_found
delete_old_schemas synced [] catalog = catalog
delete_old_schemas synced (schema ∷ schemas) catalog =
    delete_old_schemas synced schemas
      (if schema_is_found schema synced then catalog else delete_schema schema catalog)

-- The loop over the tables that were listed.
unfoldable pub delete_old_tables :
    String → List PgSchemaTable → List IcebergSchemaTable → Catalog → Catalog
unfolding table_is_found
delete_old_tables schema_prefix synced [] catalog = catalog
delete_old_tables schema_prefix synced (t ∷ tables) catalog =
    delete_old_tables schema_prefix synced tables
      (if table_is_found t synced then catalog else delete_schema_table schema_prefix t catalog)

unfoldable pub delete_old_iceberg_schema_tables : String → List PgSchemaTable → Catalog → Catalog
unfolding delete_old_schemas delete_old_tables with_schema_prefix
delete_old_iceberg_schema_tables schema_prefix pg_schema_tables catalog =
    let synced = with_schema_prefix schema_prefix pg_schema_tables in
    let kept = delete_old_schemas synced (iceberg_schemas catalog) catalog in
    delete_old_tables schema_prefix synced (iceberg_schema_tables kept) kept
