-- ===== src/Remapper/Walk.antt =====
-- src/query_remapper.go: the walk over a SELECT. The names of the WITH clauses in scope are a stack,
-- and the walk gives a node as Expressions does, with what it leaves of the node it was given: they
-- differ where `= ANY` becomes IN, whose left side is the old node. The first argument is fuel, of
-- which a node takes as much as its size.
pub mod Termination
pub mod Visibility
use bemi_db.Prelude.{
  ◌≡◌, refl, ℕ, zero, suc, String, List, [], ◌∷◌, Bool, true, false, not, ◌==◌, string_eq,
  if◌then◌else◌, ◌&&◌, Option,
}
use bemi_db.Names.{QuerySchemaTable}
use bemi_db.Names.Sets.{contains}
use bemi_db.Remapper.Syntax.{
  ExprKind, op, op_any, in_list, other_kind, Node, Nodes, Select, With, Ctes, nil, a_const,
  column_ref, type_cast, a_expr, bool_expr, case_expr, case_when, coalesce_expr, sub_link,
  null_test, node_list, func_call, a_indirection, a_indices, name_of, collate_clause, a_array_expr,
  res_target, sort_by, range_var, range_subselect, range_function, join_expr, select_stmt, other,
  end, ◌⨾◌, select, no_with, with_clause, no_ctes, cte,
}
use bemi_db.Remapper.Rewrite.{Rewrite, done, exited, panicked, out_of_fuel, ◌>>=◌}
use bemi_db.Remapper.Calls.{FuncCall, QuerySchemaFunction, schema_function}
use bemi_db.Remapper.Functions.{remap_function_call, remap_nested_function_calls}
use bemi_db.Remapper.Expressions.{remapped_expression}
use bemi_db.Remapper.State.{Environment, RemapperState, Walk, pure, lift, ◌>>>◌}
use bemi_db.Remapper.Tables.{alias_text, remap_table_var}
use bemi_db.Remapper.Where.{remove_where_clause, remapped_join_type}
use bemi_db.Remapper.Targets.{default_target_name, without_array_order}
use bemi_db.Remapper.Steps.{
  Scopes, cte_names, is_union, is_sub_link, table_function_alias, remap_call, remap_table, finished,
  finish, remapped_items, remapped_values, remapped_comparison, node_of, remapped_functions, when,
  first, is_select, ordered,
}

module _ (env : Environment) where
  unfoldable mutual
    unfolding remap_call remap_table remapped_items remapped_values remapped_comparison
        remapped_expression remapped_functions cte_names is_union table_function_alias
        remove_where_clause remapped_join_type default_target_name without_array_order

    pub remap_select_statement : ℕ → Scopes → ℕ → Node → Walk Node
    remap_select_statement (suc n) scopes indent
          (select_stmt (select w targets from cond group having sort values l r)) =
        remap_with n scopes indent w >>> λ (w', scopes').
        when (is_union from l r) l (remap_select_statement n scopes' (suc indent) l) >>> λ l'.
        when (is_union from l r) r (remap_select_statement n scopes' (suc indent) r) >>> λ r'.
        remap_where n scopes' indent cond >>> λ cond'. remap_from n scopes' indent from >>> λ from'.
        remap_sort n scopes' indent sort >>> λ sort'.
        remap_args n scopes' indent group >>> λ group'.
        remap_targets n scopes' indent targets >>> λ targets'.
        lift (remapped_values env values) >>> λ values'.
        pure (select_stmt (select w' targets' from' cond' group' having sort' values' l' r'))
    remap_select_statement zero scopes indent _ = lift out_of_fuel
    -- nil has no WITH clause
    remap_select_statement (suc n) scopes indent _ = lift panicked

    pub remap_with : ℕ → Scopes → ℕ → With → Walk (With × Scopes)
    remap_with zero scopes indent _ = lift out_of_fuel
    remap_with (suc n) scopes indent no_with = pure (no_with, scopes)
    remap_with (suc n) scopes indent (with_clause recursive ctes) =
        let names = if recursive then cte_names ctes else [] in
        remap_ctes n names scopes indent ctes >>> λ (ctes', names').
        pure (with_clause recursive ctes', names' ∷ scopes)

    -- The names in scope grow with each query.
    -- The names in scope grow with each query, of which only a SELECT is walked.
    pub remap_ctes : ℕ → List String → Scopes → ℕ → Ctes → Walk (Ctes × List String)
    remap_ctes zero names scopes indent _ = lift out_of_fuel
    remap_ctes (suc n) names scopes indent no_ctes = pure (no_ctes, names)
    remap_ctes (suc n) names scopes indent (cte name query rest) =
        when (is_select query) query (remap_select_statement n (names ∷ scopes) (suc indent) query)
        >>> λ query'. remap_ctes n (name ∷ names) scopes indent rest >>> λ (rest', names').
            pure (cte name query' rest', names')

    pub remap_where : ℕ → Scopes → ℕ → Node → Walk Node
    remap_where zero scopes indent _ = lift out_of_fuel
    remap_where (suc n) scopes indent nil = pure nil
    remap_where (suc n) scopes indent cond = lift (remove_where_clause cond) >>> λ is_removed.
        when (not is_removed) nil (first (remapped_expressions n scopes indent cond))

    pub remap_from : ℕ → Scopes → ℕ → Nodes → Walk Nodes
    remap_from zero scopes indent _ = lift out_of_fuel
    remap_from (suc n) scopes indent end = pure end
    remap_from (suc n) scopes indent (item ⨾ items) =
        remap_from_item n scopes indent item >>> λ item'.
        remap_from n scopes indent items >>> λ items'. pure (item' ⨾ items')

    -- An item of FROM, or a side of a JOIN.
    pub remap_from_item : ℕ → Scopes → ℕ → Node → Walk Node
    remap_from_item zero scopes indent _ = lift out_of_fuel
    remap_from_item (suc n) scopes indent (range_var schema table alias) =
        remap_table env scopes schema table alias
    remap_from_item (suc n) scopes indent (range_subselect query alias) =
        remap_select_statement n scopes (suc indent) query >>> λ query'.
        pure (range_subselect query' alias)
    remap_from_item (suc n) scopes indent (range_function functions alias) =
        lift (table_function_alias functions alias) >>> λ alias'.
        lift (remapped_functions env functions) >>> λ functions'.
        remap_function_lists n scopes (suc indent) functions' >>> λ functions''.
        pure (range_function functions'' alias')
    remap_from_item (suc n) scopes indent (join_expr type l r quals) =
        remap_from_item n scopes (suc indent) l >>> λ l'.
        remap_from_item n scopes (suc indent) r >>> λ r'.
        first (remapped_expressions n scopes (suc indent) quals) >>> λ quals'.
        lift (remapped_join_type (suc indent) type quals') >>> λ type'.
        pure (join_expr type' l' r' quals')
    remap_from_item (suc n) scopes indent node = pure node

    pub remap_function_lists : ℕ → Scopes → ℕ → Nodes → Walk Nodes
    remap_function_lists zero scopes indent _ = lift out_of_fuel
    remap_function_lists (suc n) scopes indent (node_list items ⨾ rest) =
        remap_function_items n scopes indent items >>> λ items'.
        remap_function_lists n scopes indent rest >>> λ rest'. pure (node_list items' ⨾ rest')
    remap_function_lists (suc n) scopes indent nodes = pure nodes

    pub remap_function_items : ℕ → Scopes → ℕ → Nodes → Walk Nodes
    remap_function_items zero scopes indent _ = lift out_of_fuel
    remap_function_items (suc n) scopes indent end = pure end
    remap_function_items (suc n) scopes indent (item ⨾ items) =
        remap_function_args n scopes indent item >>> λ item'.
        remap_function_items n scopes indent items >>> λ items'. pure (item' ⨾ items')

    pub remap_function_args : ℕ → Scopes → ℕ → Node → Walk Node
    remap_function_args zero scopes indent _ = lift out_of_fuel
    remap_function_args (suc n) scopes indent (func_call names args variadic) =
        remap_args n scopes indent args >>> λ args'. pure (func_call names args' variadic)
    remap_function_args (suc n) scopes indent node = pure node

    pub remap_sort : ℕ → Scopes → ℕ → Nodes → Walk Nodes
    remap_sort zero scopes indent _ = lift out_of_fuel
    remap_sort (suc n) scopes indent end = pure end
    remap_sort (suc n) scopes indent (sort_by node ⨾ rest) =
        first (remapped_expressions n scopes indent node) >>> λ node'.
        remap_sort n scopes indent rest >>> λ rest'. pure (sort_by node' ⨾ rest')
    remap_sort (suc n) scopes indent (_ ⨾ rest) = lift panicked

    pub remap_targets : ℕ → Scopes → ℕ → Nodes → Walk Nodes
    remap_targets zero scopes indent _ = lift out_of_fuel
    remap_targets (suc n) scopes indent end = pure end
    remap_targets (suc n) scopes indent (res_target name value ⨾ rest) =
        lift (default_target_name name value) >>> λ name'.
        first (remapped_expressions n scopes indent value) >>> λ value'.
        remap_targets n scopes indent rest >>> λ rest'.
        pure (res_target name' (ordered value value') ⨾ rest')
    remap_targets (suc n) scopes indent (_ ⨾ rest) = lift panicked

    pub remap_args : ℕ → Scopes → ℕ → Nodes → Walk Nodes
    remap_args zero scopes indent _ = lift out_of_fuel
    remap_args (suc n) scopes indent end = pure end
    remap_args (suc n) scopes indent (arg ⨾ args) =
        first (remapped_expressions n scopes indent arg) >>> λ arg'.
        remap_args n scopes indent args >>> λ args'. pure (arg' ⨾ args')

    pub remap_whens : ℕ → Scopes → ℕ → Nodes → Walk Nodes
    remap_whens zero scopes indent _ = lift out_of_fuel
    remap_whens (suc n) scopes indent end = pure end
    remap_whens (suc n) scopes indent (case_when condition result ⨾ rest) =
        first (remapped_expressions n scopes indent condition) >>> λ condition'.
        first (remapped_expressions n scopes indent result) >>> λ result'.
        remap_whens n scopes indent rest >>> λ rest'. pure (case_when condition' result' ⨾ rest')
    remap_whens (suc n) scopes indent (node ⨾ rest) =
        remap_whens n scopes indent rest >>> λ rest'. pure (node ⨾ rest')

    -- Of the arguments of COALESCE, only a nested SELECT is walked.
    pub remap_sub_links : ℕ → Scopes → ℕ → Nodes → Walk Nodes
    remap_sub_links zero scopes indent _ = lift out_of_fuel
    remap_sub_links (suc n) scopes indent end = pure end
    remap_sub_links (suc n) scopes indent (sub_link type left query ⨾ rest) =
        remap_select_statement n scopes indent query >>> λ query'.
        remap_sub_links n scopes indent rest >>> λ rest'. pure (sub_link type left query' ⨾ rest')
    remap_sub_links (suc n) scopes indent (node ⨾ rest) =
        remap_sub_links n scopes indent rest >>> λ rest'. pure (node ⨾ rest')

    pub remapped_expressions : ℕ → Scopes → ℕ → Node → Walk (Node × Node)
    remapped_expressions zero scopes indent _ = lift out_of_fuel
    remapped_expressions (suc n) scopes indent (case_expr arg whens default) =
        remap_whens n scopes (suc indent) whens >>> λ whens'.
        first (remapped_expressions n scopes (suc indent) default) >>> λ default'.
        finish env (case_expr arg whens' default')
    remapped_expressions (suc n) scopes indent (bool_expr kind args) =
        remap_args n scopes (suc indent) args >>> λ args'. finish env (bool_expr kind args')
    remapped_expressions (suc n) scopes indent (coalesce_expr args) =
        remap_sub_links n scopes (suc indent) args >>> λ args'. finish env (coalesce_expr args')
    remapped_expressions (suc n) scopes indent (sub_link type left query) =
        remap_select_statement n scopes (suc indent) query >>> λ query'.
        finish env (sub_link type left query')
    remapped_expressions (suc n) scopes indent (a_expr kind names l r) =
        remapped_expressions n scopes (suc indent) l >>> λ (l_new, l_old).
        first (remapped_expressions n scopes (suc indent) r) >>> λ r_new.
        pure (remapped_comparison env kind names l_old l_new r r_new)
    remapped_expressions (suc n) scopes indent (null_test arg) =
        first (remapped_expressions n scopes (suc indent) arg) >>> λ arg'.
        finish env (null_test arg')
    remapped_expressions (suc n) scopes indent (node_list items) =
        finish env (node_list (remapped_items env items))
    remapped_expressions (suc n) scopes indent (func_call names args variadic) =
        lift (remap_call env (record { funcname = names; args = args; func_variadic = variadic }))
        >>> λ call. remap_args n scopes (suc indent) call.args >>> λ args'.
            finish env (node_of (record call { args = args' }))
    remapped_expressions (suc n) scopes indent
          (a_indirection (func_call names args variadic) indirection) =
        lift (remap_call env (record { funcname = names; args = args; func_variadic = variadic }))
        >>> λ call. finish env (a_indirection (node_of call) indirection)
    remapped_expressions (suc n) scopes indent (type_cast arg names array) =
        first (remapped_expressions n scopes (suc indent) arg) >>> λ arg'.
        finish env (type_cast arg' names array)
    remapped_expressions (suc n) scopes indent node = finish env node
