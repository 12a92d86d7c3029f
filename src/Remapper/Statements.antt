-- ===== src/Remapper/Statements.antt =====
-- src/query_remapper.go, src/query_remapper_show.go and src/parser_show.go: the statements of a query.
pub mod Answers
use bemi_db.Prelude.{
  ◌≡◌, refl, ◌⊎◌, inl, inr, ℕ, String, ◌<>◌, List, [], ◌∷◌, Option, none, Bool, true, false, ◌==◌,
  string_eq, if◌then◌else◌,
}
use bemi_db.Names.Sets.{contains}
use bemi_db.Remapper.Syntax.{
  Field, name, op, Node, Nodes, Select, nil, column_ref, a_expr, func_call, node_list, res_target,
  range_function, select_stmt, end, ◌⨾◌, select, no_with,
}
use bemi_db.Remapper.Rewrite.{Rewrite, done, ◌>>=◌}
use bemi_db.Remapper.Calls.{str_const}
use bemi_db.Remapper.State.{Environment, RemapperState, Walk, pure, ◌>>>◌}
use bemi_db.Remapper.Walk.{remap_select_statement}

-- A statement of pg_query, by the kinds the remapper tells apart.
pub data QueryStatement : Type 0 where
  empty_statement : QueryStatement
  select_statement : Select → QueryStatement
  -- SET: the name and the value
  variable_set : String → String → QueryStatement
  discard : QueryStatement
  variable_show : String → QueryStatement
  transaction : QueryStatement
  unsupported : ℕ → QueryStatement

-- The functions of pg_query and of package strings that the remapper calls, with an error for a text
-- or a statement they do not take; and the statement of `SET TimeZone = 'UTC'`.
pub record Parser : Type 0 where
  pub parse : String → String ⊎ List QueryStatement
  pub deparse : QueryStatement → String ⊎ String
  pub noop : QueryStatement
  pub to_lower : String → String

-- An error, or the result.
abbrev pub Fallible : Type 0 → Type 0
Fallible A = String ⊎ A

abbrev pub supported_set_statements : List String
supported_set_statements = "timezone" ∷ []

unfoldable pub remap_set_statement : Parser → String → String → QueryStatement
unfolding contains
remap_set_statement parser variable value =
    if contains supported_set_statements (parser.to_lower variable)
    then variable_set variable value
    else parser.noop

abbrev value_column : Node
value_column = column_ref (name "value" ∷ [])

-- SHOW var -> SELECT value AS var FROM duckdb_settings() WHERE LOWER(name) = 'var'
abbrev pub make_select_from_duckdb_settings : String → Nodes → QueryStatement
make_select_from_duckdb_settings variable targets =
    let settings =
      range_function (node_list (func_call ("duckdb_settings" ∷ []) end false ⨾ end) ⨾ end) none in
    let lower = func_call ("lower" ∷ []) (column_ref (name "name" ∷ []) ⨾ end) false in
    select_statement (
      select no_with targets (settings ⨾ end) (a_expr op ("=" ∷ []) lower (str_const variable)) end
        nil end end nil nil)

-- SELECT value AS search_path -> SELECT CONCAT('"$user", ', value) AS search_path
abbrev pub shown_targets : String → Nodes
shown_targets variable =
    if variable == "search_path"
    then res_target "search_path"
        (func_call ("concat" ∷ []) (str_const "\"$user\", " ⨾ value_column ⨾ end) false)
      ⨾ end
    else res_target variable value_column ⨾ end

unfoldable pub remap_show_statement : String → QueryStatement
remap_show_statement variable = make_select_from_duckdb_settings variable (shown_targets variable)

abbrev of_select : QueryStatement → Node → QueryStatement
of_select old (select_stmt s) = select_statement s
of_select old _ = old

-- The first error ends the rewrite of the statements.
abbrev pub also : {A B : Type 0} → (A → B) → Fallible A → Fallible B
also f (inl e) = inl e
also f (inr a) = inr (f a)

-- What follows, unless there is an error.
abbrev pub given : {A B : Type 0} → Fallible A → (A → Walk (Fallible B)) → Walk (Fallible B)
given (inl e) k = pure (inl e)
given (inr a) k = k a

abbrev pub deparsed : String ⊎ String → Fallible (List String) → Fallible (List String)
deparsed (inl e) texts = inl e
deparsed (inr t) texts = also (λ ts. t ∷ ts) texts

abbrev pub explained : {A : Type 0} → String → String → Fallible A → Fallible A
explained what query (inl e) = inl ("couldn't " <> (what <> (" query: " <> (query <> (". " <> e)))))
explained what query (inr a) = inr a

module _ (env : Environment) (parser : Parser) (fuel : ℕ) where
  unfoldable pub remap_statement : QueryStatement → Walk (Fallible QueryStatement)
  unfolding ◌>>>◌ pure remap_select_statement remap_set_statement remap_show_statement
  remap_statement empty_statement = pure (inl "empty statement")
  remap_statement (select_statement s) =
      remap_select_statement env fuel [] 1 (select_stmt s) >>> λ node.
      pure (inr (of_select (select_statement s) node))
  remap_statement (variable_set variable value) =
      pure (inr (remap_set_statement parser variable value))
  remap_statement discard = pure (inr parser.noop)
  remap_statement (variable_show variable) = pure (inr (remap_show_statement variable))
  remap_statement transaction = pure (inr parser.noop)
  remap_statement (unsupported kind) = pure (inl "unsupported query type")

  unfoldable pub remap_statements : List QueryStatement → Walk (Fallible (List QueryStatement))
  unfolding ◌>>>◌ pure remap_statement
  remap_statements [] = pure (inr [])
  remap_statements (statement ∷ statements) = remap_statement statement >>> λ r.
      given r (λ s. remap_statements statements >>> λ rest. pure (also (λ ss. s ∷ ss) rest))

  unfoldable pub deparse_all : List QueryStatement → Fallible (List String)
  deparse_all [] = inr []
  deparse_all (s ∷ statements) = deparsed (parser.deparse s) (deparse_all statements)

  -- The remapped statements and the original ones.
  unfoldable pub parse_and_remap_query : String → Walk (Fallible (List String × List String))
  unfolding ◌>>>◌ pure remap_statements deparse_all
  parse_and_remap_query query = given (explained "parse" query (parser.parse query)) (λ tree.
      given (explained "deparse" query (deparse_all tree)) (λ originals.
        remap_statements tree >>> λ remapped.
        given (explained "remap" query remapped) (λ statements. pure (
          also (λ queries. (queries, originals))
            (explained "deparse remapped" query (deparse_all statements))))))
