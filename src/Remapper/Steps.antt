-- ===== src/Remapper/Steps.antt =====
-- src/query_remapper.go: the steps of the walk over a SELECT that do not walk further.
pub mod Termination
use bemi_db.Prelude.{
  ◌≡◌, refl, ℕ, zero, suc, String, List, [], ◌∷◌, Bool, true, false, not, ◌==◌, string_eq,
  if◌then◌else◌, ◌&&◌, Option,
}
use bemi_db.Names.{QuerySchemaTable}
use bemi_db.Names.Sets.{contains}
use bemi_db.Remapper.Syntax.{
  ExprKind, op, op_any, in_list, other_kind, Node, Nodes, Select, With, Ctes, nil, a_const,
  column_ref, type_cast, a_expr, bool_expr, case_expr, case_when, coalesce_expr, sub_link,
  null_test, node_list, func_call, a_indirection, a_indices, name_of, collate_clause, a_array_expr,
  res_target, sort_by, range_var, range_subselect, range_function, join_expr, select_stmt, other,
  end, ◌⨾◌, select, no_with, with_clause, no_ctes, cte,
}
use bemi_db.Remapper.Rewrite.{Rewrite, done, exited, panicked, out_of_fuel, ◌>>=◌}
use bemi_db.Remapper.Calls.{FuncCall, QuerySchemaFunction, schema_function}
use bemi_db.Remapper.Functions.{remap_function_call, remap_nested_function_calls}
use bemi_db.Remapper.Expressions.{remapped_expression}
use bemi_db.Remapper.State.{Environment, RemapperState, Walk, pure, lift, ◌>>>◌}
use bemi_db.Remapper.Tables.{alias_text, remap_table_var}
use bemi_db.Remapper.Where.{remove_where_clause, remapped_join_type}
use bemi_db.Remapper.Targets.{default_target_name, without_array_order}

-- The names of the WITH clauses around, the innermost first.
abbrev pub Scopes : Type 0
Scopes = List (List String)

unfoldable pub in_scope : Scopes → String → Bool
unfolding contains
in_scope [] table = false
in_scope (names ∷ scopes) table = if contains names table then true else in_scope scopes table

unfoldable pub cte_names : Ctes → List String
cte_names no_ctes = []
cte_names (cte name query rest) = name ∷ cte_names rest

-- A UNION has two sides and no FROM.
abbrev is_nil : Node → Bool
is_nil nil = true
is_nil _ = false

abbrev is_end : Nodes → Bool
is_end end = true
is_end _ = false

unfoldable pub is_union : Nodes → Node → Node → Bool
is_union from l r = is_end from && (not (is_nil l) && not (is_nil r))

abbrev is_any : ExprKind → Bool
is_any op_any = true
is_any _ = false

abbrev pub is_sub_link : Node → Bool
is_sub_link (sub_link type left subselect) = true
is_sub_link _ = false

-- The alias of a function of FROM, which is its name if there is none.
abbrev with_alias : Option String → String → Option String
with_alias Option.none f = Option.some f
with_alias (Option.some a) f = Option.some a

abbrev function_alias : Option String → QuerySchemaFunction → Option String
function_alias alias f = with_alias alias f.function

unfoldable pub table_function_alias : Nodes → Option String → Rewrite (Option String)
unfolding schema_function
table_function_alias (node_list (func_call names args variadic ⨾ items) ⨾ rest) alias =
    schema_function (record { funcname = names; args = args; func_variadic = variadic }) >>= λ f.
    done (function_alias alias f)
table_function_alias (node_list items ⨾ rest) alias = done alias
table_function_alias end alias = done alias
-- the items of a nil list
table_function_alias (_ ⨾ rest) alias = panicked

abbrev pub node_of : FuncCall → Node
node_of call = func_call call.funcname call.args call.func_variadic

-- The node itself, if the walk of it is not wanted.
unfoldable pub when : Bool → Node → Walk Node → Walk Node
unfolding pure
when wanted node walk = if wanted then walk else pure node

unfoldable pub first : Walk (Node × Node) → Walk Node
unfolding ◌>>>◌ pure
first walk = walk >>> λ (new, old). pure new

abbrev pub is_select : Node → Bool
is_select (select_stmt s) = true
is_select _ = false

-- ORDER BY goes only if the target was a subquery from the start.
abbrev pub ordered : Node → Node → Node
ordered old new = if is_sub_link old then without_array_order new else new

module _ (env : Environment) where
  -- RemapFunctionCall, then RemapNestedFunctionCalls
  unfoldable pub remap_call : FuncCall → Rewrite FuncCall
  unfolding remap_function_call remap_nested_function_calls
  remap_call call =
      remap_function_call env.catalog_macros env.schema_macros env.last_synced_at call
      >>= λ (c, is_rewritten).
          remap_nested_function_calls env.catalog_macros env.schema_macros env.last_synced_at c.args
          >>= λ args. done (record c { args = args })

  unfoldable pub remap_table : Scopes → String → String → Option String → Walk Node
  unfolding remap_table_var in_scope pure
  remap_table scopes schema table alias =
      if schema == "" && in_scope scopes table
      then pure (range_var schema table alias)
      else remap_table_var env (record { schema = schema; table = table; alias = alias_text alias })
          alias

  abbrev pub finished : Node → Node × Node
  finished node = remapped_expression env.contains_upper node

  abbrev pub finish : Node → Walk (Node × Node)
  finish node = pure (finished node)

  unfoldable pub remapped_items : Nodes → Nodes
  unfolding remapped_expression
  remapped_items end = end
  remapped_items (item ⨾ items) = (finished item).0 ⨾ remapped_items items

  -- The values of VALUES, which are lists; the items of anything else are those of a nil pointer.
  unfoldable pub remapped_values : Nodes → Rewrite Nodes
  unfolding remapped_items
  remapped_values end = done end
  remapped_values (node_list items ⨾ rest) =
      remapped_values rest >>= λ rest'. done (node_list (remapped_items items) ⨾ rest')
  remapped_values (_ ⨾ rest) = panicked

  -- The left sides are what is left of the old one and its new node.
  unfoldable pub remapped_comparison :
      ExprKind → List String → Node → Node → Node → Node → Node × Node
  unfolding remapped_expression
  remapped_comparison kind names left_old left_new r r_new =
      let new = (finished (a_expr kind names left_old r)).0 in
      if is_any kind
      then ((finished new).0, a_expr kind names left_new r_new)
      else finished (a_expr kind names left_new r_new)

  pub remapped_function_items : Nodes → Rewrite Nodes
  unfolding remap_call
  remapped_function_items end = done end
  remapped_function_items (func_call names args variadic ⨾ items) =
      remap_call (record { funcname = names; args = args; func_variadic = variadic }) >>= λ call.
      remapped_function_items items >>= λ items'. done (node_of call ⨾ items')
  remapped_function_items (item ⨾ items) =
      remapped_function_items items >>= λ items'. done (item ⨾ items')

  -- The calls of FROM, whose lists are those of a nil pointer if a function has none.
  unfoldable pub remapped_functions : Nodes → Rewrite Nodes
  unfolding remapped_function_items
  remapped_functions end = done end
  remapped_functions (node_list items ⨾ rest) = remapped_function_items items >>= λ items'.
      remapped_functions rest >>= λ rest'. done (node_list items' ⨾ rest')
  remapped_functions (_ ⨾ rest) = panicked
