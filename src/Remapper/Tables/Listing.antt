-- ===== src/Remapper/Tables/Listing.antt =====
-- src/query_remapper_table.go: after reloadIceberSchemaTables the set that is kept is the listing.
use mathlib.Core.Path.{subst}
use bemi_db.Prelude.{◌≡◌, refl, sym, suc, List, [], ◌∷◌, map, Option, none, some, string_eq}
use bemi_db.Names.{IcebergSchemaTable, IcebergTableField, to_sql}
use bemi_db.Names.Sets.{contains}
use bemi_db.Remapper.Rewrite.{Ends, Ends-bind, Ends-if}
use bemi_db.Remapper.State.{
  DuckdbStatement, create_schema, create_table, drop_table, Environment, RemapperState,
}
use bemi_db.Remapper.Tables.{
  table_eq, exec_context, create_with, reload_with, create_duckdb_table, create_tables, drop_tables,
  reload_iceberg_schema_tables,
}

module _ (env : Environment) where
  module _ (new : List IcebergSchemaTable) where
    abbrev Knows : RemapperState → Type 0
    Knows w = w.iceberg_tables ≡ new

    exec_context_keeps :
        (statement : DuckdbStatement) (w : RemapperState)
        → Knows w
        → Ends (exec_context env statement w) Knows
    unfolding exec_context
    exec_context_keeps statement w k = Ends-if Knows (env.fails statement) _ _ tt k

    create_with_keeps :
        (u : IcebergSchemaTable) (fields : Option (List IcebergTableField)) (w : RemapperState)
        → Knows w
        → Ends (create_with env u fields w) Knows
    create_with_keeps u none w k = tt
    create_with_keeps u (some fields) w k =
        Ends-bind _ _ Knows Knows (exec_context_keeps (create_schema u.schema) w k)
          (λ w' k'. exec_context_keeps (create_table u (map to_sql fields)) w' k')

    create_tables_keeps :
        (previous tables : List IcebergSchemaTable) (w : RemapperState)
        → Knows w
        → Ends (create_tables env previous tables w) Knows
    unfolding create_tables create_duckdb_table
    create_tables_keeps previous [] w k = k
    create_tables_keeps previous (u ∷ tables) w k =
        Ends-if Knows (contains previous u) _ _ (create_tables_keeps previous tables w k) (
          Ends-bind _ _ Knows Knows (create_with_keeps u (env.table_fields u) w k)
            (λ w' k'. create_tables_keeps previous tables w' k'))

    drop_tables_keeps :
        (present tables : List IcebergSchemaTable) (w : RemapperState)
        → Knows w
        → Ends (drop_tables env present tables w) Knows
    unfolding drop_tables
    drop_tables_keeps present [] w k = k
    drop_tables_keeps present (u ∷ tables) w k =
        Ends-if Knows (contains present u) _ _ (drop_tables_keeps present tables w k) (
          Ends-bind _ _ Knows Knows (exec_context_keeps (drop_table u) w k)
            (λ w' k'. drop_tables_keeps present tables w' k'))

  -- The set is the listing afterwards.
  pub reload_iceberg_schema_tables_lem :
      (w : RemapperState) (new : List IcebergSchemaTable)
      → env.listing w.listings ≡ some new
      → Ends (reload_iceberg_schema_tables env w) (λ w'. w'.iceberg_tables ≡ new)
  unfolding reload_iceberg_schema_tables
  reload_iceberg_schema_tables_lem w new e =
      let Known : RemapperState → Type 0 = λ w'. w'.iceberg_tables ≡ new in
      let w0 : RemapperState = record w { iceberg_tables = new; listings = suc w.listings } in
      let known : Ends (reload_with env (some new) w) Known =
        Ends-if Known env.has_duckdb _ _
          (Ends-bind (create_tables env w.iceberg_tables new w0)
            (drop_tables env new w.iceberg_tables) Known Known
            (create_tables_keeps new w.iceberg_tables new w0 refl)
            (λ w' k. drop_tables_keeps new new w.iceberg_tables w' k))
          refl in
      subst (λ o. Ends (reload_with env o w) Known) (sym e) known
