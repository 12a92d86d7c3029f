-- ===== src/Remapper/Tables/Termination.antt =====
-- src/query_remapper_table.go: the rewrite of a table of FROM takes no fuel.
use bemi_db.Prelude.{String, List, [], ◌∷◌, Option, none, some, ◌==◌, string_eq}
use bemi_db.Names.{IcebergSchemaTable, QuerySchemaTable, query_to_iceberg_schema_table}
use bemi_db.Names.Sets.{contains}
use bemi_db.Remapper.Syntax.{Node}
use bemi_db.Remapper.Rewrite.{Ends, Ends-bind, Ends-if}
use bemi_db.Remapper.State.{DuckdbStatement, Environment, RemapperState}
use bemi_db.Remapper.Tables.{
  table_eq, exec_context, create_with, reload_with, create_duckdb_table, create_tables, drop_tables,
  reload_iceberg_schema_tables, upsert_pg_stat_user_tables, is_table_from_pg_catalog,
  remap_iceberg_table, remap_table_var,
}

abbrev Any : {A : Type 0} → A → Type 0
Any a = Unit

module _ (env : Environment) where
  exec_context_ends :
      (statement : DuckdbStatement) (w : RemapperState) → Ends (exec_context env statement w) Any
  unfolding exec_context
  exec_context_ends statement w = Ends-if Any (env.fails statement) _ _ tt tt

  create_duckdb_table_ends :
      (t : IcebergSchemaTable) (w : RemapperState) → Ends (create_duckdb_table env t w) Any
  unfolding create_duckdb_table
  create_duckdb_table_ends t w =
      elim (env.table_fields t) as (λ o. Ends (create_with env t o w) Any) [
        | none ↦ tt
        | some fields ↦
            Ends-bind _ _ Any Any (exec_context_ends _ w) (λ w' _. exec_context_ends _ w')
      ]

  create_tables_ends :
      (previous tables : List IcebergSchemaTable) (w : RemapperState)
      → Ends (create_tables env previous tables w) Any
  unfolding create_tables
  create_tables_ends previous [] w = tt
  create_tables_ends previous (t ∷ tables) w =
      Ends-if Any (contains previous t) _ _ (create_tables_ends previous tables w) (
        Ends-bind _ _ Any Any (create_duckdb_table_ends t w)
          (λ w' _. create_tables_ends previous tables w'))

  drop_tables_ends :
      (new tables : List IcebergSchemaTable) (w : RemapperState)
      → Ends (drop_tables env new tables w) Any
  unfolding drop_tables
  drop_tables_ends new [] w = tt
  drop_tables_ends new (t ∷ tables) w =
      Ends-if Any (contains new t) _ _ (drop_tables_ends new tables w)
        (Ends-bind _ _ Any Any (exec_context_ends _ w) (λ w' _. drop_tables_ends new tables w'))

  pub reload_ends : (w : RemapperState) → Ends (reload_iceberg_schema_tables env w) Any
  unfolding reload_iceberg_schema_tables
  reload_ends w = elim (env.listing w.listings) as (λ o. Ends (reload_with env o w) Any) [
    | none ↦ tt
    | some new ↦
        Ends-if Any env.has_duckdb _ _
          (Ends-bind _ _ Any Any (create_tables_ends w.iceberg_tables new _)
            (λ w' _. drop_tables_ends new w.iceberg_tables w'))
          tt
  ]

  pub upsert_ends : (w : RemapperState) → Ends (upsert_pg_stat_user_tables env w) Any
  unfolding upsert_pg_stat_user_tables
  upsert_ends w = Ends-if Any env.has_duckdb _ _ (exec_context_ends _ w) tt

  -- What the two changes of the state keep is kept by the rewrite of a table.
  module _ (I : RemapperState → Type 0)
      (reload : (w : RemapperState) → I w → Ends (reload_iceberg_schema_tables env w) I)
      (upsert : (w : RemapperState) → I w → Ends (upsert_pg_stat_user_tables env w) I) where
    remap_iceberg_table_keeps :
        (t : QuerySchemaTable) (alias : Option String) (w : RemapperState)
        → I w
        → Ends (remap_iceberg_table env t alias w) (λ r. I r.1)
    unfolding remap_iceberg_table
    remap_iceberg_table_keeps t alias w i =
        Ends-bind _ _ I (λ r. I r.1)
          (Ends-if I (contains w.iceberg_tables (query_to_iceberg_schema_table t)) _ _ i
            (reload w i))
          (λ w' i'. i')

    pub remap_table_var_keeps :
        (t : QuerySchemaTable) (alias : Option String) (w : RemapperState)
        → I w
        → Ends (remap_table_var env t alias w) (λ r. I r.1)
    unfolding remap_table_var
    remap_table_var_keeps t alias w i =
        let stat = Ends-bind _ _ I I (reload w i) upsert in
        let J : Node × RemapperState → Type 0 = λ r. I r.1 in
        Ends-if J (is_table_from_pg_catalog env w t) _ _
          (Ends-bind _ _ I J
            (Ends-if I (t.table == "pg_class") _ _ (reload w i)
              (Ends-if I (t.table == "pg_stat_user_tables") _ _ stat i))
            (λ w' i'. i'))
          (Ends-if J (t.schema == "information_schema") _ _
            (Ends-bind _ _ I J (Ends-if I (t.table == "tables") _ _ (reload w i) i) (λ w' i'. i'))
            (remap_iceberg_table_keeps t alias w i))
