-- ===== src/Remapper/Examples.antt =====
-- A query that is rewritten, and the theorems on src/query_remapper*.go applied to it.
use mathlib.Core.Path.{subst}
use bemi_db.Prelude.{
  ◌≡◌, refl, ◌↔◌, ◌⊎◌, inr, ◌≤◌, String, List, [], ◌∷◌, none, some, true, false, All, string_eq,
  if◌then◌else◌, arith, ap, Bool, ◌==◌, ◌&&◌,
}
use bemi_db.Names.{IcebergSchemaTable, QuerySchemaTable, query_to_iceberg_schema_table}
use bemi_db.Names.Sets.{contains}
use bemi_db.Remapper.Syntax.{
  name, star, op_any, in_list, Node, Select, Ctes, nil, column_ref, a_expr, func_call, node_list,
  res_target, range_var, select_stmt, end, ◌⨾◌, select, no_with, with_clause, no_ctes, cte,
}
use bemi_db.Remapper.Rewrite.{done, panicked, Ends}
use bemi_db.Remapper.Sizes.{node_size, with_size, ctes_size}
use bemi_db.Remapper.Calls.{
  FuncCall, QuerySchemaFunction, schema_function, str_const, remap_time_format,
}
use bemi_db.Remapper.Functions.{remap_function_call, is_macro}
use bemi_db.Remapper.Functions.Panics.{remap_function_call_panics}
use bemi_db.Remapper.SystemTables.{pg_system_tables, pg_system_views}
use bemi_db.Remapper.State.{create_schema, create_table, Environment, RemapperState, lift}
use bemi_db.Remapper.Tables.{
  table_eq, make_iceberg_table_node, is_table_from_pg_catalog, remap_table_var,
}
use bemi_db.Remapper.Tables.Mirror.{Mirrors, Lists}
use bemi_db.Remapper.Tables.Reload.{has_table, AreApart}
use bemi_db.Remapper.Tables.Lookup.{looked_up, remap_table_var-looked_up}
use bemi_db.Remapper.Formats.{pg_format_to_strftime}
use bemi_db.Remapper.Text.{split, trim}
use bemi_db.Remapper.Steps.{in_scope, cte_names, when, first}
use bemi_db.Remapper.Walk.{remap_with}
use bemi_db.Remapper.Walk.Visibility.{remap_with-in_scope}
use bemi_db.Remapper.Statements.{
  QueryStatement, select_statement, variable_set, transaction, Parser, remap_statements,
  parse_and_remap_query,
}
use bemi_db.Remapper.Statements.Answers.{
  statement_size, Answered, parse_and_remap_query-Answered, parse_and_remap_query-Mirrors,
}

abbrev users : IcebergSchemaTable
users = record { schema = "public"; table = "users" }

abbrev environment : Environment
environment = record {
  catalog_macros = "quote_ident" ∷ [];
  schema_macros = [];
  catalog_tables = "pg_class" ∷ [];
  schema_tables = "columns" ∷ [];
  listing = λ n. some (users ∷ []);
  table_fields = λ t. some [];
  metadata_file_path = λ t. t.table;
  last_synced_at = λ t. none;
  has_duckdb = true;
  fails = λ s. false;
  contains_upper = λ s. false;
}

abbrev initial_state : RemapperState
initial_state = record { iceberg_tables = []; executed = []; listings = 0 }

abbrev ctes : Ctes
ctes =
    cte "recent"
      (select_stmt (
        select no_with (res_target "" (column_ref (star ∷ [])) ⨾ end)
          (range_var "" "users" none ⨾ end) nil end nil end end nil nil))
      no_ctes

-- WITH recent AS (SELECT * FROM users) SELECT to_char(at, 'YYYY') FROM recent WHERE id = ANY('{1,2}')
abbrev query_tree : Select
query_tree =
    select (with_clause false ctes)
      (res_target ""
          (func_call ("to_char" ∷ []) (column_ref (name "at" ∷ []) ⨾ str_const "YYYY" ⨾ end) false)
        ⨾ end)
      (range_var "" "recent" none ⨾ end)
      (a_expr op_any ("=" ∷ []) (column_ref (name "id" ∷ [])) (str_const "{1,2}")) end nil end end
      nil nil

abbrev statements : List QueryStatement
statements = transaction ∷ select_statement query_tree ∷ []

abbrev parser : Parser
parser = record {
  parse = λ q. inr statements;
  deparse = λ s. inr "statement";
  noop = variable_set "timezone" "UTC";
  to_lower = λ s. s;
}

statements_fit : All (λ s. statement_size s ≤ 100) statements
unfolding statement_size node_size
statements_fit = (omega arith, (omega arith, tt))

parse_and_remap_query-Answered_example :
    Ends
      (parse_and_remap_query environment parser 100 "query" initial_state)
      (λ r. Answered statements r.0)
parse_and_remap_query-Answered_example =
    parse_and_remap_query-Answered environment parser 100 "query" statements initial_state refl
      statements_fit

-- Two names for the same table.
abbrev ignoring_case : String → String
ignoring_case s = if s == "Users" then "users" else s

abbrev same_name : IcebergSchemaTable → IcebergSchemaTable → Bool
same_name u t = u.schema == t.schema && ignoring_case u.table == ignoring_case t.table

abbrev IsUsers : IcebergSchemaTable → Type 0
IsUsers t = users ≡ t

IsUsers-AreApart : AreApart same_name IsUsers
IsUsers-AreApart u t e e' =
    subst (λ u. same_name u t ≡ (u == t)) e (subst (λ t. same_name users t ≡ (users == t)) e' refl)

environment-Lists : Lists environment IsUsers
environment-Lists n tables e =
    subst (λ (ts : List IcebergSchemaTable). All IsUsers ts)
      (ap (λ o. elim o [ none ↦ [] | some ts ↦ ts ]) e) (refl, tt)

initial_state-Mirrors : Mirrors same_name IsUsers initial_state
unfolding Mirrors has_table contains
initial_state-Mirrors = (tt, λ t l. refl)

parse_and_remap_query-Mirrors_example :
    Ends
      (parse_and_remap_query environment parser 100 "query" initial_state)
      (λ r. Mirrors same_name IsUsers r.1)
parse_and_remap_query-Mirrors_example =
    parse_and_remap_query-Mirrors environment same_name IsUsers parser 100 "query" statements
      initial_state IsUsers-AreApart environment-Lists refl refl statements_fit
      initial_state-Mirrors

ctes_fit : with_size (with_clause true ctes) ≤ 50
unfolding with_size ctes_size node_size
ctes_fit = omega arith

remap_with-in_scope_example :
    Ends
      (remap_with environment 50 (("outer" ∷ []) ∷ []) 1 (with_clause true ctes) initial_state)
      (λ r.
        (t : String)
        → in_scope r.0.1 t
          ≡ (if contains (cte_names ctes) t then true else in_scope (("outer" ∷ []) ∷ []) t))
remap_with-in_scope_example =
    remap_with-in_scope environment 50 (("outer" ∷ []) ∷ []) 1 true ctes initial_state ctes_fit

abbrev users_table : QuerySchemaTable
users_table = record { schema = ""; table = "users"; alias = "" }

users_table_is_no_system_table :
    is_table_from_pg_catalog environment initial_state users_table ≡ false
unfolding is_table_from_pg_catalog pg_system_tables pg_system_views contains
    query_to_iceberg_schema_table
users_table_is_no_system_table = refl

remap_table_var-looked_up_example :
    Ends
      (remap_table_var environment users_table none initial_state)
      (λ r. r.0 ≡ looked_up environment initial_state (users ∷ []) users_table none)
remap_table_var-looked_up_example =
    remap_table_var-looked_up environment users_table none initial_state (users ∷ [])
      users_table_is_no_system_table refl refl

users_are_scanned :
    looked_up environment initial_state (users ∷ []) users_table none
    ≡ make_iceberg_table_node users_table "users"
unfolding contains make_iceberg_table_node
users_are_scanned = refl

abbrev format_call : FuncCall
format_call = record { funcname = "pg_catalog" ∷ "format" ∷ []; args = end; func_variadic = false }

abbrev format_name : QuerySchemaFunction
format_name = record { schema = "pg_catalog"; function = "format" }

format_is_no_macro : is_macro ("quote_ident" ∷ []) [] (λ t. none) format_name ≡ false
unfolding is_macro contains
format_is_no_macro = refl

format_name_of_call : schema_function format_call ≡ done format_name
unfolding schema_function
format_name_of_call = refl

remap_function_call_panics_example :
    (remap_function_call ("quote_ident" ∷ []) [] (λ t. none) format_call ≡ panicked) ↔ (
      (format_call.args ≡ end)
      × ((format_name.function ≡ "format") ⊎ (format_name.function ≡ "bemidb_last_synced_at")))
remap_function_call_panics_example =
    remap_function_call_panics ("quote_ident" ∷ []) [] (λ t. none) format_call format_name
      format_name_of_call format_is_no_macro

abbrev scanned_users : Node
scanned_users = make_iceberg_table_node users_table "users"

-- WITH recent AS (SELECT * FROM (SELECT * FROM iceberg_scan('users', ...)) users)
-- SELECT strftime(at, '%Y') AS to_char FROM recent WHERE id IN ('1', '2')
abbrev remapped_tree : Select
remapped_tree =
    select
      (with_clause false (
        cte "recent"
          (select_stmt (
            select no_with (res_target "" (column_ref (star ∷ [])) ⨾ end) (scanned_users ⨾ end) nil
              end nil end end nil nil))
          no_ctes))
      (res_target "to_char"
          (func_call ("strftime" ∷ []) (column_ref (name "at" ∷ []) ⨾ str_const "%Y" ⨾ end) false)
        ⨾ end)
      (range_var "" "recent" none ⨾ end)
      (a_expr in_list ("=" ∷ []) (column_ref (name "id" ∷ []))
        (node_list (str_const "1" ⨾ str_const "2" ⨾ end)))
      end nil end end nil nil

abbrev created : RemapperState
created = record {
  iceberg_tables = users ∷ [];
  executed = create_table users [] ∷ create_schema "public" ∷ [];
  listings = 1;
}

query_runs :
    remap_statements environment parser 100 statements initial_state
    ≡ done (inr (variable_set "timezone" "UTC" ∷ select_statement remapped_tree ∷ []), created)
unfolding remap_statements when lift first remap_time_format pg_format_to_strftime split trim
query_runs = refl
