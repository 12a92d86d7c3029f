-- ===== src/Syncer/Cleanup/Prefixed.antt =====
-- What the deletions leave of the tables when the schemas have a prefix.
use text.Mathlib.TextEquality.{eq_iff}
use bemi_db.Prelude.{
  ◌≡◌, ◌↔◌, ◌⊎◌, refl, ◌∙◌, String, ◌<>◌, List, [], ◌∷◌, ◌++◌, true, false, not, string_eq, ◌&&◌,
  Bool-cases, inl, inr, arith,
}
use bemi_db.Names.{IcebergSchemaTable, PgSchemaTable}
use bemi_db.Syncer.Catalog.{
  Catalog, iceberg_schemas, iceberg_schema_tables, tables_in, delete_schema_table, has_name,
  has_table, remove_table_path,
}
use bemi_db.Syncer.Cleanup.{
  with_schema_prefix, schema_is_found, table_is_found, delete_old_schemas, delete_old_tables,
  delete_old_iceberg_schema_tables,
}
use bemi_db.Syncer.Cleanup.Deletion.{
  lists_table, has_table-remove_table_path, has_table-delete_old_schemas, has_name-iceberg_schemas,
}

-- No schema has the name of another one with the prefix.
abbrev pub IsApart : String → Catalog → Type 0
IsApart schema_prefix catalog =
    (s t t' : String)
    → has_table catalog s t ≡ true
    → has_table catalog (schema_prefix <> s) t' ≡ false

abbrev Misses : String → List IcebergSchemaTable → Catalog → Type 0
Misses schema_prefix tables catalog =
    (s t t' : String)
    → lists_table tables s t ≡ true
    → has_table catalog (schema_prefix <> s) t' ≡ false

lists_first :
    (x : IcebergSchemaTable) (tables : List IcebergSchemaTable)
    → lists_table (x ∷ tables) x.schema x.table ≡ true
unfolding lists_table
lists_first x tables = ground (arith, eq_iff x.schema x.schema, eq_iff x.table x.table)

Misses-tail :
    (schema_prefix : String) (x : IcebergSchemaTable) (tables : List IcebergSchemaTable)
    (catalog catalog' : Catalog)
    → Misses schema_prefix (x ∷ tables) catalog
    → ((s t : String) → has_table catalog' s t ≡ has_table catalog s t)
    → Misses schema_prefix tables catalog'
unfolding lists_table
Misses-tail schema_prefix x tables catalog catalog' m same s t t' h =
    same (schema_prefix <> s) t' ∙ m s t t' (ground (arith, h))

remove_missing :
    (schema table s t : String) (catalog : Catalog)
    → has_table catalog schema table ≡ false
    → has_table (remove_table_path schema table catalog) s t ≡ has_table catalog s t
remove_missing schema table s t catalog gone =
    ground
      (arith, has_table-remove_table_path schema table s t catalog, eq_iff s schema, eq_iff t table)

delete_old_tables-Misses :
    (schema_prefix : String) (synced : List PgSchemaTable) (tables : List IcebergSchemaTable)
    (s t : String) (catalog : Catalog)
    → Misses schema_prefix tables catalog
    → has_table (delete_old_tables schema_prefix synced tables catalog) s t ≡ has_table catalog s t
unfolding delete_old_tables delete_schema_table
delete_old_tables-Misses schema_prefix synced [] s t catalog m = refl
delete_old_tables-Misses schema_prefix synced (x ∷ tables) s t catalog m =
    elim (Bool-cases (table_is_found x synced)) [
      | inl kept ↦ rw kept (
          delete_old_tables-Misses schema_prefix synced tables s t catalog
            (Misses-tail schema_prefix x tables catalog catalog m (λ s t. refl)))
      | inr old ↦
          let catalog' = remove_table_path (schema_prefix <> x.schema) x.table catalog in
          let same : (s t : String) → has_table catalog' s t ≡ has_table catalog s t = λ s t.
            remove_missing (schema_prefix <> x.schema) x.table s t catalog
              (m x.schema x.table x.table (lists_first x tables)) in
          rw old (
            delete_old_tables-Misses schema_prefix synced tables s t catalog'
              (Misses-tail schema_prefix x tables catalog catalog' m same)
            ∙ same s t)
    ]

tables_in-lists :
    (schema s t : String) (names : List String) (ys : List IcebergSchemaTable)
    → lists_table (tables_in schema names ++ ys) s t ≡ true
    → (has_name names t ≡ true × schema ≡ s) ⊎ (lists_table ys s t ≡ true)
unfolding lists_table
tables_in-lists schema s t [] ys h = ground arith
tables_in-lists schema s t (n ∷ names) ys h =
    ground (arith, tables_in-lists schema s t names ys, eq_iff schema s)

iceberg_schema_tables-lists :
    (s t : String) (catalog : Catalog)
    → lists_table (iceberg_schema_tables catalog) s t ≡ true
    → has_table catalog s t ≡ true
unfolding lists_table has_table iceberg_schema_tables
iceberg_schema_tables-lists s t [] h = absurd (ground arith)
iceberg_schema_tables-lists s t (d ∷ catalog) h = ground (
  arith,
  tables_in-lists d.name s t d.tables (iceberg_schema_tables catalog) h,
  iceberg_schema_tables-lists s t catalog,
  eq_iff d.name s,
)

-- With a schema prefix, when no schema has the name of another one with the prefix, no table of a
-- schema that is kept is deleted, whether or not the last synchronisation wrote it.
pub delete_old-prefixed :
    (schema_prefix : String) (synced : List PgSchemaTable) (catalog : Catalog) (s t : String)
    → IsApart schema_prefix catalog
    → (has_table (delete_old_iceberg_schema_tables schema_prefix synced catalog) s t ≡ true) ↔ (
        (has_table catalog s t ≡ true)
        × (schema_is_found s (with_schema_prefix schema_prefix synced) ≡ true))
unfolding delete_old_iceberg_schema_tables
delete_old-prefixed schema_prefix synced catalog s t apart =
    let written = with_schema_prefix schema_prefix synced in
    let kept = delete_old_schemas written (iceberg_schemas catalog) catalog in
    let keeps : (s t : String)
        → has_table kept s t ≡ (
            has_table catalog s t
            && not (has_name (iceberg_schemas catalog) s && not (schema_is_found s written))) =
      λ s t. has_table-delete_old_schemas written (iceberg_schemas catalog) s t catalog in
    let misses : Misses schema_prefix (iceberg_schema_tables kept) kept = λ s t t' h. ground (
      arith,
      keeps (schema_prefix <> s) t',
      keeps s t,
      iceberg_schema_tables-lists s t kept h,
      apart s t t',
    ) in
    ground (
      arith,
      delete_old_tables-Misses schema_prefix written (iceberg_schema_tables kept) s t kept misses,
      keeps s t,
      has_name-iceberg_schemas s t catalog,
    )
