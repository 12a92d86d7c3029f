-- ===== src/Remapper/Functions.antt =====
-- src/query_remapper_function.go: the function calls of Postgres that DuckDB has under other names.
pub mod Sizes
pub mod Panics
use bemi_db.Prelude.{
  ◌≡◌, refl, ℕ, zero, suc, String, ◌<>◌, List, [], ◌∷◌, Option, none, some, Bool, true, false, not,
  ◌==◌, nat_eq, string_eq, if◌then◌else◌, ◌||◌, ◌&&◌,
}
use bemi_db.Names.{PgSchemaTable}
use bemi_db.Names.Sets.{contains}
use bemi_db.Columns.Types.{is_case}
use bemi_db.Remapper.Syntax.{Node, Nodes, end, ◌⨾◌, func_call}
use bemi_db.Remapper.Rewrite.{Rewrite, done, ◌>>=◌, mapped}
use bemi_db.Remapper.Text.{split}
use bemi_db.Remapper.Calls.{
  FuncCall, QuerySchemaFunction, schema_function, first_argument_to_string, call_schema_to_main,
  remap_format_to_printf, remap_encode, remap_decode, remap_to_function, remap_time_format,
  remap_jsonb_extract_path_text, remap_to_timestamp,
}

-- A call, and whether it has been rewritten.
abbrev pub RemappedCall : Type 0
RemappedCall = FuncCall × Bool

abbrev pub builtin_duckdb_pg_function_names : List String
builtin_duckdb_pg_function_names = "array_to_string" ∷ "generate_series" ∷ []

abbrev pub length_is_two : Nodes → Bool
length_is_two (a ⨾ b ⨾ end) = true
length_is_two _ = false

-- `schema.table`, or a table of the schema public
unfoldable pub synced_table : List String → PgSchemaTable
synced_table (schema ∷ table ∷ []) = record {
  schema = schema;
  table = table;
  parent_partitioned_table = "";
}
synced_table (table ∷ rest) = record {
  schema = "public";
  table = table;
  parent_partitioned_table = "";
}
synced_table [] = record { schema = "public"; table = ""; parent_partitioned_table = "" }

abbrev rewritten : FuncCall → RemappedCall
rewritten call = (call, true)

-- The names of the macros, and what icebergReader.InternalTableMetadata gives as the time of the
-- last synchronisation; none is an error.
module _ (catalog_macros schema_macros : List String)
    (last_synced_at : PgSchemaTable → Option ℕ) where
  -- Whether DuckDB has a macro or a function of that name in its schema main.
  unfoldable pub is_macro : QuerySchemaFunction → Bool
  unfolding contains
  is_macro f =
      if f.schema == "pg_catalog" || f.schema == ""
      then contains catalog_macros f.function
        || contains builtin_duckdb_pg_function_names f.function
      else if f.schema == "information_schema"
      then contains schema_macros f.function
      else false

  abbrev synced_time : Option ℕ → ℕ
  synced_time none = 0
  synced_time (some t) = t

  -- The second switch, which does not look at the schema.
  unfoldable pub remap_by_name : FuncCall → String → Rewrite RemappedCall
  unfolding remap_format_to_printf remap_encode remap_to_timestamp
  remap_by_name call name =
      if name == "format"
      then mapped rewritten (remap_format_to_printf call)
      else if name == "encode"
      then mapped rewritten (remap_encode call)
      else if name == "decode"
      then done (rewritten (remap_decode call))
      else if name == "cardinality"
      then done (rewritten (remap_to_function call "len"))
      else if name == "to_char"
      then done (rewritten (remap_time_format "strftime" call))
      else if name == "to_date"
      then done (rewritten (remap_time_format "strptime" call))
      else if name == "to_timestamp" && length_is_two call.args
      then done (rewritten (remap_time_format "strptime" call))
      else if name == "jsonb_extract_path_text" || name == "json_extract_path_text"
      then done (rewritten (remap_jsonb_extract_path_text call))
      else if name == "bemidb_last_synced_at"
      then (let table = synced_table (split (first_argument_to_string call) ".") in
          mapped rewritten (remap_to_timestamp call (synced_time (last_synced_at table))))
      else done (call, false)

  abbrev remap_named : FuncCall → QuerySchemaFunction → Rewrite RemappedCall
  remap_named call f =
      if is_macro f
      then done (rewritten (call_schema_to_main call))
      else remap_by_name call f.function

  unfoldable pub remap_function_call : FuncCall → Rewrite RemappedCall
  unfolding schema_function is_macro remap_by_name
  remap_function_call call = schema_function call >>= remap_named call

  abbrev node_of : FuncCall → Node
  node_of call = func_call call.funcname call.args call.func_variadic

  -- The calls among the arguments, and those within a call that is left as it is.
  unfoldable mutual
    unfolding remap_function_call

    pub remap_nested_function_calls : Nodes → Rewrite Nodes
    remap_nested_function_calls end = done end
    remap_nested_function_calls (arg ⨾ args) =
        remap_nested arg >>= λ a. mapped (λ rest. a ⨾ rest) (remap_nested_function_calls args)

    pub remap_nested : Node → Rewrite Node
    remap_nested (func_call names args variadic) =
        let inner = mapped (λ n. func_call names n variadic) (remap_nested_function_calls args) in
        remap_function_call (record { funcname = names; args = args; func_variadic = variadic })
        >>= λ (call, is_rewritten). if is_rewritten then done (node_of call) else inner
    remap_nested node = done node
