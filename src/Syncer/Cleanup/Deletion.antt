-- ===== src/Syncer/Cleanup/Deletion.antt =====
-- What the deletions leave of the tables.
use text.Mathlib.TextLemmas.{nil-append}
use text.Mathlib.TextEquality.{eq_iff}
use bemi_db.Prelude.{
  ◌≡◌, ◌↔◌, String, List, [], ◌∷◌, ◌++◌, Bool, true, false, not, ◌==◌, string_eq, if◌then◌else◌,
  ◌&&◌, Bool-cases, inl, inr, arith,
}
use bemi_db.Names.{IcebergSchemaTable, PgSchemaTable}
use bemi_db.Syncer.Catalog.{
  Catalog, iceberg_schemas, iceberg_schema_tables, tables_in, delete_schema, delete_schema_table,
  has_name, has_table, remove_table_path, except_name,
}
use bemi_db.Syncer.Cleanup.{
  with_schema_prefix, schema_is_found, table_is_found, delete_old_schemas, delete_old_tables,
  delete_old_iceberg_schema_tables,
}

has_name-except_name :
    (name n : String) (names : List String)
    → has_name (except_name name names) n ≡ (not (n == name) && has_name names n)
unfolding except_name
has_name-except_name name n [] = ground (arith)
has_name-except_name name n (m ∷ names) =
    ground (arith, has_name-except_name name n names, eq_iff m name, eq_iff n name, eq_iff m n)

has_table-delete_schema :
    (schema s t : String) (catalog : Catalog)
    → has_table (delete_schema schema catalog) s t ≡ (not (s == schema) && has_table catalog s t)
unfolding delete_schema has_table
has_table-delete_schema schema s t [] = ground arith
has_table-delete_schema schema s t (d ∷ catalog) = ground (
  arith,
  has_table-delete_schema schema s t catalog,
  eq_iff d.name schema,
  eq_iff s schema,
  eq_iff d.name s,
)

pub has_table-remove_table_path :
    (schema table s t : String) (catalog : Catalog)
    → has_table (remove_table_path schema table catalog) s t
      ≡ (not (s == schema && t == table) && has_table catalog s t)
unfolding remove_table_path has_table
has_table-remove_table_path schema table s t [] = ground arith
has_table-remove_table_path schema table s t (d ∷ catalog) = ground (
  arith,
  has_table-remove_table_path schema table s t catalog,
  has_name-except_name table t d.tables,
  eq_iff d.name schema,
  eq_iff s schema,
  eq_iff d.name s,
)

pub has_table-delete_old_schemas :
    (synced : List PgSchemaTable) (schemas : List String) (s t : String) (catalog : Catalog)
    → has_table (delete_old_schemas synced schemas catalog) s t
      ≡ (has_table catalog s t && not (has_name schemas s && not (schema_is_found s synced)))
unfolding delete_old_schemas
has_table-delete_old_schemas synced [] s t catalog = ground arith
has_table-delete_old_schemas synced (schema ∷ schemas) s t catalog =
    elim (Bool-cases (schema_is_found schema synced)) [
      | inl found ↦
          rw found (
            ground
              (arith, has_table-delete_old_schemas synced schemas s t catalog, eq_iff schema s))
      | inr old ↦ rw old (
          ground (
            arith,
            has_table-delete_old_schemas synced schemas s t (delete_schema schema catalog),
            has_table-delete_schema schema s t catalog,
            eq_iff schema s,
            eq_iff s schema,
          ))
    ]

-- Whether a table is in a list of tables.
unfoldable pub lists_table : List IcebergSchemaTable → String → String → Bool
lists_table [] s t = false
lists_table (x ∷ tables) s t =
    if x.schema == s && x.table == t then true else lists_table tables s t

abbrev found : String → String → List PgSchemaTable → Bool
found s t synced = table_is_found (record { schema = s; table = t }) synced

has_table-delete_old_tables :
    (synced : List PgSchemaTable) (tables : List IcebergSchemaTable) (s t : String)
    (catalog : Catalog)
    → has_table (delete_old_tables "" synced tables catalog) s t
      ≡ (has_table catalog s t && not (lists_table tables s t && not (found s t synced)))
unfolding delete_old_tables lists_table delete_schema_table
has_table-delete_old_tables synced [] s t catalog = ground arith
has_table-delete_old_tables synced (x ∷ tables) s t catalog =
    elim (Bool-cases (table_is_found x synced)) [
      | inl kept ↦ rw kept (
          ground (
            arith,
            has_table-delete_old_tables synced tables s t catalog,
            eq_iff x.schema s,
            eq_iff x.table t,
          ))
      | inr old ↦
          rw (old, nil-append x.schema)
            (ground (
              arith,
              has_table-delete_old_tables synced tables s t
                  (remove_table_path x.schema x.table catalog),
              has_table-remove_table_path x.schema x.table s t catalog,
              eq_iff x.schema s,
              eq_iff s x.schema,
              eq_iff x.table t,
              eq_iff t x.table,
            ))
    ]

lists_table-append :
    (xs ys : List IcebergSchemaTable) (s t : String)
    → lists_table ys s t ≡ true
    → lists_table (xs ++ ys) s t ≡ true
unfolding lists_table
lists_table-append [] ys s t h = h
lists_table-append (x ∷ xs) ys s t h = ground (arith, lists_table-append xs ys s t h)

lists_table-tables_in :
    (schema s t : String) (names : List String) (ys : List IcebergSchemaTable)
    → (schema == s && has_name names t) ≡ true
    → lists_table (tables_in schema names ++ ys) s t ≡ true
unfolding lists_table
lists_table-tables_in schema s t [] ys h = absurd (ground arith)
lists_table-tables_in schema s t (n ∷ names) ys h =
    ground (arith, lists_table-tables_in schema s t names ys)

lists_table-iceberg_schema_tables :
    (s t : String) (catalog : Catalog)
    → has_table catalog s t ≡ true
    → lists_table (iceberg_schema_tables catalog) s t ≡ true
unfolding has_table iceberg_schema_tables lists_table
lists_table-iceberg_schema_tables s t [] h = absurd (ground arith)
lists_table-iceberg_schema_tables s t (d ∷ catalog) h = ground (
  arith,
  lists_table-tables_in d.name s t d.tables (iceberg_schema_tables catalog),
  lists_table-iceberg_schema_tables s t catalog,
  lists_table-append (tables_in d.name d.tables) (iceberg_schema_tables catalog) s t,
)

pub has_name-iceberg_schemas :
    (s t : String) (catalog : Catalog)
    → has_table catalog s t ≡ true
    → has_name (iceberg_schemas catalog) s ≡ true
unfolding has_table iceberg_schemas
has_name-iceberg_schemas s t [] h = absurd (ground arith)
has_name-iceberg_schemas s t (d ∷ catalog) h = ground (arith, has_name-iceberg_schemas s t catalog)

-- Without a schema prefix, the tables that are left are those that were there and that the last
-- synchronisation wrote, by their quoted names and by their schemas.
pub delete_old_iff :
    (synced : List PgSchemaTable) (catalog : Catalog) (s t : String)
    → let written = with_schema_prefix "" synced in
      (has_table (delete_old_iceberg_schema_tables "" synced catalog) s t ≡ true) ↔ (
        (has_table catalog s t ≡ true)
        × (schema_is_found s written ≡ true)
        × (table_is_found (record { schema = s; table = t }) written ≡ true))
unfolding delete_old_iceberg_schema_tables
delete_old_iff synced catalog s t =
    let written = with_schema_prefix "" synced in
    let kept = delete_old_schemas written (iceberg_schemas catalog) catalog in
    ground (
      arith,
      has_table-delete_old_tables written (iceberg_schema_tables kept) s t kept,
      has_table-delete_old_schemas written (iceberg_schemas catalog) s t catalog,
      lists_table-iceberg_schema_tables s t kept,
      has_name-iceberg_schemas s t catalog,
    )
