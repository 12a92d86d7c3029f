-- ===== src/Remapper/Tables.antt =====
-- src/query_remapper_table.go and src/parser_table.go: the tables of FROM and JOIN, and the set of
-- Iceberg tables the remapper keeps.
pub mod Termination
pub mod Reload
pub mod Listing
pub mod Mirror
pub mod Lookup
use text.Mathlib.TextEquality.{eq_iff}
use bemi_db.Prelude.{
  ◌≡◌, refl, ◌↔◌, arith, ℕ, suc, String, ◌<>◌, List, [], ◌∷◌, map, Option, none, some, Bool, true,
  false, not, ◌==◌, string_eq, nat_eq, Eq, if◌then◌else◌, ◌||◌, ◌&&◌,
}
use bemi_db.Names.{
  IcebergSchemaTable, IcebergTableField, QuerySchemaTable, to_sql, query_to_iceberg_schema_table,
}
use bemi_db.Names.Sets.{contains}
use bemi_db.Remapper.Syntax.{
  Constant, boolval, Field, name, star, op, Node, Nodes, Select, nil, a_const, column_ref, a_expr,
  node_list, func_call, res_target, range_var, range_subselect, range_function, select_stmt, end,
  ◌⨾◌, select, no_with,
}
use bemi_db.Remapper.Rewrite.{Rewrite, done, exited, panicked, ◌>>=◌}
use bemi_db.Remapper.SystemTables.{pg_system_tables, pg_system_views}
use bemi_db.Remapper.Calls.{str_const}
use bemi_db.Remapper.State.{
  DuckdbStatement, create_schema, create_table, drop_table, replace_stat_user_tables, Environment,
  RemapperState, Walk, pure, lift, ◌>>>◌,
}

abbrev pub alias_text : Option String → String
alias_text none = ""
alias_text (some s) = s

-- The name of the alias of an Iceberg table.
unfoldable pub subselect_alias : QuerySchemaTable → String
subselect_alias t =
    if t.alias == ""
    then (if t.schema == "public" || t.schema == "" then t.table else t.schema <> ("_" <> t.table))
    else t.alias

-- (SELECT targets FROM node) alias
unfoldable pub make_subselect_from_node : QuerySchemaTable → Nodes → Node → Node
unfolding subselect_alias
make_subselect_from_node t targets from =
    range_subselect (select_stmt (select no_with targets (from ⨾ end) nil end nil end end nil nil))
      (some (subselect_alias t))

-- (SELECT * FROM iceberg_scan('path', skip_schema_inference = true)) alias
unfoldable pub make_iceberg_table_node : QuerySchemaTable → String → Node
unfolding make_subselect_from_node
make_iceberg_table_node t path =
    let skip =
      a_expr op ("=" ∷ []) (column_ref (name "skip_schema_inference" ∷ []))
        (a_const (boolval true)) in
    let scan = func_call ("iceberg_scan" ∷ []) (str_const path ⨾ skip ⨾ end) false in
    make_subselect_from_node t (res_target "" (column_ref (star ∷ [])) ⨾ end)
      (range_function (node_list (scan ⨾ end) ⨾ end) none)

abbrev same_table : IcebergSchemaTable → IcebergSchemaTable → Bool
same_table a b = a.schema == b.schema && a.table == b.table

pub same_table_iff : (a b : IcebergSchemaTable) → (same_table a b ≡ true) ↔ (a ≡ b)
same_table_iff a b = ground (arith, eq_iff a.schema b.schema, eq_iff a.table b.table)

instance abbrev pub table_eq : Eq IcebergSchemaTable
table_eq = record { same = same_table; same_iff = same_table_iff }

module _ (env : Environment) where
  unfoldable pub exec_context : DuckdbStatement → RemapperState → Rewrite RemapperState
  exec_context statement w =
      if env.fails statement then exited else done (record w { executed = statement ∷ w.executed })

  abbrev pub create_with :
      IcebergSchemaTable → Option (List IcebergTableField) → RemapperState → Rewrite RemapperState
  create_with t none w = exited
  create_with t (some fields) w =
      exec_context (create_schema t.schema) w >>= exec_context (create_table t (map to_sql fields))

  unfoldable pub create_duckdb_table : IcebergSchemaTable → RemapperState → Rewrite RemapperState
  unfolding exec_context
  create_duckdb_table t w = create_with t (env.table_fields t) w

  -- The tables that are new get a table in DuckDB.
  unfoldable pub create_tables :
      List IcebergSchemaTable → List IcebergSchemaTable → RemapperState → Rewrite RemapperState
  unfolding create_duckdb_table
  create_tables previous [] w = done w
  create_tables previous (t ∷ tables) w =
      if contains previous t
      then create_tables previous tables w
      else (create_duckdb_table t w >>= create_tables previous tables)

  -- The tables that are gone lose theirs.
  unfoldable pub drop_tables :
      List IcebergSchemaTable → List IcebergSchemaTable → RemapperState → Rewrite RemapperState
  unfolding exec_context
  drop_tables new [] w = done w
  drop_tables new (t ∷ tables) w =
      if contains new t
      then drop_tables new tables w
      else (exec_context (drop_table t) w >>= drop_tables new tables)

  -- The set is the new one before DuckDB's tables follow.
  abbrev pub reload_with : Option (List IcebergSchemaTable) → RemapperState → Rewrite RemapperState
  reload_with none w = exited
  reload_with (some new) w =
      let previous = w.iceberg_tables in
      let w' = record w { iceberg_tables = new; listings = suc w.listings } in
      if env.has_duckdb
      then (create_tables previous new w' >>= drop_tables new previous)
      else done w'

  unfoldable pub reload_iceberg_schema_tables : RemapperState → Rewrite RemapperState
  unfolding create_tables drop_tables
  reload_iceberg_schema_tables w = reload_with (env.listing w.listings) w

  abbrev stat_row : IcebergSchemaTable → String
  stat_row t =
      "('123456', '"
      <> (t.schema
          <> ("', '"
              <> (t.table
                  <> "', 0, NULL, 0, 0, NULL, 0, 0, 0, 0, 0, 0, 1, 0, 0, 0, NULL, NULL, NULL, NULL, 0, 0, 0, 0)")))

  unfoldable pub upsert_pg_stat_user_tables : RemapperState → Rewrite RemapperState
  unfolding exec_context
  upsert_pg_stat_user_tables w =
      if env.has_duckdb
      then exec_context (replace_stat_user_tables (map stat_row w.iceberg_tables)) w
      else done w

  unfoldable pub is_table_from_pg_catalog : RemapperState → QuerySchemaTable → Bool
  is_table_from_pg_catalog w t =
      t.schema == "pg_catalog"
      || (t.schema == ""
          && ((contains pg_system_tables t.table || contains pg_system_views t.table)
              && not (contains w.iceberg_tables (query_to_iceberg_schema_table t))))

  abbrev schema_to_main : List String → QuerySchemaTable → Option String → Node
  schema_to_main tables t alias =
      range_var (if contains tables t.table then "main" else t.schema) t.table alias

  -- What a table of the catalog has the remapper do first.
  abbrev before_catalog_table : String → RemapperState → Rewrite RemapperState
  before_catalog_table table w =
      if table == "pg_class"
      then reload_iceberg_schema_tables w
      else if table == "pg_stat_user_tables"
      then (reload_iceberg_schema_tables w >>= upsert_pg_stat_user_tables)
      else done w

  abbrev before_schema_table : String → RemapperState → Rewrite RemapperState
  before_schema_table table w = if table == "tables" then reload_iceberg_schema_tables w else done w

  abbrev iceberg_node : QuerySchemaTable → Option String → RemapperState → Node
  iceberg_node t alias w =
      if contains w.iceberg_tables (query_to_iceberg_schema_table t)
      then make_iceberg_table_node t (env.metadata_file_path (query_to_iceberg_schema_table t))
      else range_var t.schema t.table alias

  -- The tables are listed again, if the table is not among them.
  abbrev before_iceberg_table : IcebergSchemaTable → RemapperState → Rewrite RemapperState
  before_iceberg_table t w =
      if contains w.iceberg_tables t then done w else reload_iceberg_schema_tables w

  unfoldable pub remap_iceberg_table : QuerySchemaTable → Option String → Walk Node
  unfolding query_to_iceberg_schema_table contains make_iceberg_table_node
      reload_iceberg_schema_tables
  remap_iceberg_table t alias w = before_iceberg_table (query_to_iceberg_schema_table t) w >>= λ w'.
      done (iceberg_node t alias w', w')

  unfoldable pub remap_table_var : QuerySchemaTable → Option String → Walk Node
  unfolding is_table_from_pg_catalog remap_iceberg_table contains pg_system_tables pg_system_views
      reload_iceberg_schema_tables upsert_pg_stat_user_tables
  remap_table_var t alias w =
      if is_table_from_pg_catalog w t
      then (before_catalog_table t.table w >>= λ w'.
          done (schema_to_main env.catalog_tables t alias, w'))
      else if t.schema == "information_schema"
      then (before_schema_table t.table w >>= λ w'.
          done (schema_to_main env.schema_tables t alias, w'))
      else remap_iceberg_table t alias w
