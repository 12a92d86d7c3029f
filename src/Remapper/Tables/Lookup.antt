-- ===== src/Remapper/Tables/Lookup.antt =====
-- src/query_remapper_table.go: which tables of FROM are read from Iceberg.
use bemi_db.Prelude.{
  ◌≡◌, refl, ap, ◌∙◌, inl, inr, String, ◌<>◌, List, [], ◌∷◌, Option, none, some, Bool, true, false,
  ◌==◌, string_eq, if◌then◌else◌, Bool-cases, arith,
}
use bemi_db.Names.{IcebergSchemaTable, QuerySchemaTable, query_to_iceberg_schema_table}
use bemi_db.Names.Sets.{contains}
use bemi_db.Remapper.Syntax.{
  Node, sval, boolval, name, star, op, a_const, column_ref, a_expr, node_list, func_call,
  res_target, range_var, range_subselect, range_function, select_stmt, end, nil, ◌⨾◌, select,
  no_with,
}
use bemi_db.Remapper.Rewrite.{Rewrite, done, Ends, Ends-bind, Ends-weaken}
use bemi_db.Remapper.State.{Environment, RemapperState}
use bemi_db.Remapper.Tables.{
  table_eq, subselect_alias, make_subselect_from_node, make_iceberg_table_node,
  is_table_from_pg_catalog, remap_iceberg_table, remap_table_var, reload_iceberg_schema_tables,
}
use bemi_db.Remapper.Tables.Listing.{reload_iceberg_schema_tables_lem}

Ends-false :
    {A : Type 0} (b : Bool) (o p : Rewrite A) (P : A → Type 0)
    → b ≡ false
    → Ends p P
    → Ends (if b then o else p) P
Ends-false false o p P e h = h
Ends-false true o p P e h = cc e

-- The name of a table in Iceberg: an empty schema is `public`.
abbrev pub iceberg_name : QuerySchemaTable → IcebergSchemaTable
iceberg_name t = record { schema = if t.schema == "" then "public" else t.schema; table = t.table }

-- (SELECT * FROM iceberg_scan('path', skip_schema_inference = true)) alias
abbrev pub iceberg_scan : String → String → Node
iceberg_scan path alias =
    range_subselect
      (select_stmt (
        select no_with (res_target "" (column_ref (star ∷ [])) ⨾ end)
          (range_function
              (node_list (
                  func_call ("iceberg_scan" ∷ [])
                    (a_const (sval path)
                      ⨾ a_expr op ("=" ∷ []) (column_ref (name "skip_schema_inference" ∷ []))
                          (a_const (boolval true))
                      ⨾ end)
                    false
                  ⨾ end)
                ⨾ end)
              none
            ⨾ end)
          nil end nil end end nil nil))
      (some alias)

-- The alias that a scan gets: the table's own, or else its name, with the schema before it if it is
-- neither empty nor `public`.
abbrev pub alias_of : QuerySchemaTable → String
alias_of t =
    if t.alias == ""
    then (if t.schema == ""
        then t.table
        else if t.schema == "public"
        then t.table
        else t.schema <> ("_" <> t.table))
    else t.alias

iceberg_name_lem : (t : QuerySchemaTable) → query_to_iceberg_schema_table t ≡ iceberg_name t
unfolding query_to_iceberg_schema_table
iceberg_name_lem t = elim (Bool-cases (t.schema == "")) [
  | inl e ↦ rw (e, iceberg_name) refl
  | inr e ↦ rw (e, iceberg_name) refl
]

alias_of_lem : (t : QuerySchemaTable) → subselect_alias t ≡ alias_of t
unfolding subselect_alias
alias_of_lem t = ground arith

make_iceberg_table_node_lem :
    (t : QuerySchemaTable) (path : String)
    → make_iceberg_table_node t path ≡ iceberg_scan path (alias_of t)
unfolding make_iceberg_table_node make_subselect_from_node
make_iceberg_table_node_lem t path = ap (λ a. iceberg_scan path a) (alias_of_lem t)

module _ (env : Environment) where
  -- A scan of the table, if it is known or listed, and the table itself otherwise.
  abbrev pub looked_up :
      RemapperState → List IcebergSchemaTable → QuerySchemaTable → Option String → Node
  looked_up w new t alias =
      if contains w.iceberg_tables (iceberg_name t)
      then iceberg_scan (env.metadata_file_path (iceberg_name t)) (alias_of t)
      else if contains new (iceberg_name t)
      then iceberg_scan (env.metadata_file_path (iceberg_name t)) (alias_of t)
      else range_var t.schema t.table alias

  scanned :
      RemapperState
      → List IcebergSchemaTable
      → QuerySchemaTable
      → Option String
      → IcebergSchemaTable
      → Node
      → Node
  scanned w new t alias table scan =
      if contains w.iceberg_tables table
      then scan
      else if contains new table
      then scan
      else range_var t.schema t.table alias

  scanned_lem :
      (w : RemapperState) (new : List IcebergSchemaTable) (t : QuerySchemaTable)
      (alias : Option String)
      → scanned w new t alias
          (query_to_iceberg_schema_table t)
          (make_iceberg_table_node t (env.metadata_file_path (query_to_iceberg_schema_table t)))
        ≡ looked_up w new t alias
  unfolding scanned
  scanned_lem w new t alias =
      ap
        (λ table.
          scanned w new t alias table (make_iceberg_table_node t (env.metadata_file_path table)))
        (iceberg_name_lem t)
      ∙ ap (λ scan. scanned w new t alias (iceberg_name t) scan)
          (make_iceberg_table_node_lem t (env.metadata_file_path (iceberg_name t)))

  before_lem :
      (b : Bool) (t : IcebergSchemaTable) (w : RemapperState) (new : List IcebergSchemaTable)
      → contains w.iceberg_tables t ≡ b
      → env.listing w.listings ≡ some new
      → Ends
          (if b then done w else reload_iceberg_schema_tables env w)
          (λ w'. contains w'.iceberg_tables t ≡ (if b then true else contains new t))
  before_lem true t w new h e = h
  before_lem false t w new h e =
      Ends-weaken (reload_iceberg_schema_tables env w) (λ w'. w'.iceberg_tables ≡ new) _
        (reload_iceberg_schema_tables_lem env w new e)
        (λ w' k. ap (λ (x : List IcebergSchemaTable). contains x t) k)

  two_tests :
      (c d : Bool) (a b : Node)
      → (if (if c then true else d) then a else b) ≡ (if c then a else if d then a else b)
  two_tests true d a b = refl
  two_tests false d a b = refl

  remap_iceberg_table_lem :
      (t : QuerySchemaTable) (alias : Option String) (w : RemapperState)
      (new : List IcebergSchemaTable)
      → env.listing w.listings ≡ some new
      → Ends (remap_iceberg_table env t alias w) (λ r. r.0 ≡ looked_up w new t alias)
  unfolding remap_iceberg_table scanned
  remap_iceberg_table_lem t alias w new e =
      let table = query_to_iceberg_schema_table t in
      let scan = make_iceberg_table_node t (env.metadata_file_path table) in
      let known = contains w.iceberg_tables table in
      Ends-bind (if known then done w else reload_iceberg_schema_tables env w) _
        (λ w'. contains w'.iceberg_tables table ≡ (if known then true else contains new table)) _
        (before_lem known table w new refl e)
        (λ w' k.
          ap (λ b. if b then scan else range_var t.schema t.table alias) k
          ∙ two_tests known (contains new table) scan (range_var t.schema t.table alias)
          ∙ scanned_lem w new t alias)

  -- For a table of FROM that is none of the catalog or of the information schema, in a state where the
  -- reader lists tables: the rewrite does not run out of fuel, and if it gives a result (it may exit),
  -- this is a subselect of all columns from `iceberg_scan` at the metadata file of the table, under the
  -- table's alias, if the table is among those that the remapper knows or among those listed now, and
  -- the table as it is otherwise.
  pub remap_table_var-looked_up :
      (t : QuerySchemaTable) (alias : Option String) (w : RemapperState)
      (new : List IcebergSchemaTable)
      → is_table_from_pg_catalog env w t ≡ false
      → (t.schema == "information_schema") ≡ false
      → env.listing w.listings ≡ some new
      → Ends (remap_table_var env t alias w) (λ r. r.0 ≡ looked_up w new t alias)
  unfolding remap_table_var
  remap_table_var-looked_up t alias w new c s e =
      Ends-false (is_table_from_pg_catalog env w t) _ _ _ c (
        Ends-false (t.schema == "information_schema") _ _ _ s
          (remap_iceberg_table_lem t alias w new e))
