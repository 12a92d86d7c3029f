-- ===== src/Syncer/Catalog.antt =====
-- src/storage_local.go: the directories of schemas and tables, which the syncer lists and deletes.
use bemi_db.Prelude.{
  String, ◌<>◌, List, [], ◌∷◌, ◌++◌, map, Bool, true, false, ◌==◌, string_eq, if◌then◌else◌, ◌&&◌,
}
use bemi_db.Names.{IcebergSchemaTable}

-- A directory of the Iceberg path, with the names of those in it.
pub record SchemaDirectory : Type 0 where
  pub name : String
  pub tables : List String

abbrev pub Catalog : Type 0
Catalog = List SchemaDirectory

unfoldable pub iceberg_schemas : Catalog → List String
iceberg_schemas catalog = map (λ d. d.name) catalog

abbrev pub tables_in : String → List String → List IcebergSchemaTable
tables_in schema tables = map (λ table. record { schema = schema; table = table }) tables

unfoldable pub iceberg_schema_tables : Catalog → List IcebergSchemaTable
iceberg_schema_tables [] = []
iceberg_schema_tables (d ∷ catalog) = tables_in d.name d.tables ++ iceberg_schema_tables catalog

unfoldable pub except_name : String → List String → List String
except_name name [] = []
except_name name (n ∷ names) =
    let rest = except_name name names in if n == name then rest else n ∷ rest

-- os.RemoveAll of the schema's path, which may not be there.
unfoldable pub delete_schema : String → Catalog → Catalog
delete_schema schema [] = []
delete_schema schema (d ∷ catalog) =
    let rest = delete_schema schema catalog in if d.name == schema then rest else d ∷ rest

abbrev pub delete_in : String → String → SchemaDirectory → SchemaDirectory
delete_in schema table d =
    if d.name == schema then record d { tables = except_name table d.tables } else d

-- os.RemoveAll of the table's path.
unfoldable pub remove_table_path : String → String → Catalog → Catalog
unfolding except_name
remove_table_path schema table [] = []
remove_table_path schema table (d ∷ catalog) =
    delete_in schema table d ∷ remove_table_path schema table catalog

-- `tablePath` puts the prefix of the configuration before the schema.
unfoldable pub delete_schema_table : String → IcebergSchemaTable → Catalog → Catalog
unfolding remove_table_path
delete_schema_table schema_prefix t catalog =
    remove_table_path (schema_prefix <> t.schema) t.table catalog

-- Whether there is a directory of the table.
abbrev pub has_name : List String → String → Bool
has_name [] name = false
has_name (n ∷ names) name = if n == name then true else has_name names name

unfoldable pub has_table : Catalog → String → String → Bool
has_table [] schema table = false
has_table (d ∷ catalog) schema table =
    if d.name == schema && has_name d.tables table then true else has_table catalog schema table
