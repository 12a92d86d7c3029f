-- ===== src/Remapper/Walk/Termination.antt =====
-- src/query_remapper.go: the walk over a SELECT ends. A call of the walk takes a unit of fuel, and what
-- it walks next is smaller: also the arguments of a call that has been rewritten.
use bemi_db.Prelude.{ℕ, zero, suc, ◌≤◌, String, List, [], ◌∷◌, not, Option, if◌then◌else◌, arith}
use bemi_db.Remapper.Syntax.{
  Node, Nodes, With, Ctes, nil, type_cast, a_expr, bool_expr, case_expr, case_when, coalesce_expr,
  sub_link, null_test, node_list, func_call, a_indirection, res_target, sort_by, range_var,
  range_subselect, range_function, join_expr, select_stmt, end, ◌⨾◌, select, no_with, with_clause,
  no_ctes, cte,
}
use bemi_db.Remapper.Rewrite.{panicked}
use bemi_db.Remapper.Sizes.{
  node_size, nodes_size, select_size, with_size, ctes_size, node_size_pos, nodes_size_pos,
}
use bemi_db.Remapper.State.{Environment, RemapperState}
use bemi_db.Names.{QuerySchemaTable}
use bemi_db.Remapper.Tables.{remap_table_var}
use bemi_db.Remapper.Steps.{Scopes, cte_names, is_union, first, is_select}
use bemi_db.Remapper.Steps.Termination.{
  IsReady, pure-IsReady, bind-IsReady, lift-IsReady, when-IsReady, first-IsReady, bound-IsReady,
  default_target_name_ends, remove_where_clause_ends, remapped_join_type_ends,
  table_function_alias_ends, remapped_values_ends, remap_call_ends, remapped_functions_ends,
  remap_table-IsReady,
}
use bemi_db.Remapper.Walk.{
  remap_select_statement, remap_with, remap_ctes, remap_where, remap_from, remap_from_item,
  remap_function_lists, remap_function_items, remap_function_args, remap_sort, remap_targets,
  remap_args, remap_whens, remap_sub_links, remapped_expressions,
}

with_size_pos : (w : With) → 1 ≤ with_size w
unfolding with_size
with_size_pos no_with = omega arith
with_size_pos (with_clause recursive ctes) = omega arith

ctes_size_pos : (ctes : Ctes) → 1 ≤ ctes_size ctes
unfolding ctes_size
ctes_size_pos no_ctes = omega arith
ctes_size_pos (cte name query rest) = omega arith

-- An invariant of the state that the rewrite of a table keeps is kept by the walk, given fuel for the
-- size of the tree.
module _ (I : RemapperState → Type 0) (env : Environment)
    (keeps : (t : QuerySchemaTable) (alias : Option String)
      → IsReady I (remap_table_var env t alias)) where
  remap_where-IsReady :
      (n : ℕ) (scopes : Scopes) (indent : ℕ) (cond : Node)
      → IsReady I (first (remapped_expressions env n scopes indent cond))
      → IsReady I (remap_where env (suc n) scopes indent cond)
  unfolding remap_where
  remap_where-IsReady n scopes indent nil h = pure-IsReady I _
  remap_where-IsReady n scopes indent cond h =
      bind-IsReady I _ _ (lift-IsReady I _ (remove_where_clause_ends cond))
        (λ is_removed. when-IsReady I (not is_removed) nil _ h)

  mutual
    unfolding remapped_expressions remap_args remap_select_statement remap_with remap_ctes
        remap_where remap_from remap_from_item remap_function_lists remap_function_items
        remap_function_args remap_sort remap_targets remap_whens remap_sub_links node_size
        nodes_size select_size with_size ctes_size

    pub remapped_expressions_ends :
        (n : ℕ) (scopes : Scopes) (indent : ℕ) (node : Node)
        → node_size node ≤ n
        → IsReady I (remapped_expressions env n scopes indent node)
    remapped_expressions_ends zero scopes indent node h = absurd (omega (arith, node_size_pos node))
    remapped_expressions_ends (suc n) scopes indent (case_expr arg whens default) h =
        bind-IsReady I _ _ (remap_whens_ends n scopes (suc indent) whens (omega arith)) (λ whens'.
          bind-IsReady I _ _
            (first-IsReady I _
              (remapped_expressions_ends n scopes (suc indent) default (omega arith)))
            (λ default'. pure-IsReady I _))
    remapped_expressions_ends (suc n) scopes indent (bool_expr kind args) h =
        bind-IsReady I _ _ (remap_args_ends n scopes (suc indent) args (omega arith))
          (λ args'. pure-IsReady I _)
    remapped_expressions_ends (suc n) scopes indent (coalesce_expr args) h =
        bind-IsReady I _ _ (remap_sub_links_ends n scopes (suc indent) args (omega arith))
          (λ args'. pure-IsReady I _)
    remapped_expressions_ends (suc n) scopes indent (sub_link type left query) h =
        bind-IsReady I _ _ (remap_select_statement_ends n scopes (suc indent) query (omega arith))
          (λ query'. pure-IsReady I _)
    remapped_expressions_ends (suc n) scopes indent (a_expr kind names l r) h =
        bind-IsReady I _ _ (remapped_expressions_ends n scopes (suc indent) l (omega arith)) (λ l'.
          bind-IsReady I _ _
            (first-IsReady I _ (remapped_expressions_ends n scopes (suc indent) r (omega arith)))
            (λ r'. pure-IsReady I _))
    remapped_expressions_ends (suc n) scopes indent (null_test arg) h =
        bind-IsReady I _ _
          (first-IsReady I _ (remapped_expressions_ends n scopes (suc indent) arg (omega arith)))
          (λ arg'. pure-IsReady I _)
    remapped_expressions_ends (suc n) scopes indent (func_call names args variadic) h =
        bound-IsReady I _ (λ c. nodes_size c.args ≤ nodes_size args) _
          (remap_call_ends env (record { funcname = names; args = args; func_variadic = variadic }))
          (λ c g.
            bind-IsReady I _ _ (remap_args_ends n scopes (suc indent) c.args (omega (arith, g, h)))
              (λ args'. pure-IsReady I _))
    remapped_expressions_ends (suc n) scopes indent
          (a_indirection (func_call names args variadic) indirection) h =
        bound-IsReady I _ (λ c. nodes_size c.args ≤ nodes_size args) _
          (remap_call_ends env (record { funcname = names; args = args; func_variadic = variadic }))
          (λ c g. pure-IsReady I _)
    remapped_expressions_ends (suc n) scopes indent (type_cast arg names array) h =
        bind-IsReady I _ _
          (first-IsReady I _ (remapped_expressions_ends n scopes (suc indent) arg (omega arith)))
          (λ arg'. pure-IsReady I _)
    remapped_expressions_ends (suc n) scopes indent _ h = pure-IsReady I _

    remap_args_ends :
        (n : ℕ) (scopes : Scopes) (indent : ℕ) (args : Nodes)
        → nodes_size args ≤ n
        → IsReady I (remap_args env n scopes indent args)
    remap_args_ends zero scopes indent args h = absurd (omega (arith, nodes_size_pos args))
    remap_args_ends (suc n) scopes indent end h = pure-IsReady I _
    remap_args_ends (suc n) scopes indent (arg ⨾ args) h =
        bind-IsReady I _ _
          (first-IsReady I _ (remapped_expressions_ends n scopes indent arg (omega arith)))
          (λ arg'.
            bind-IsReady I _ _ (remap_args_ends n scopes indent args (omega arith))
              (λ args'. pure-IsReady I _))

    remap_whens_ends :
        (n : ℕ) (scopes : Scopes) (indent : ℕ) (whens : Nodes)
        → nodes_size whens ≤ n
        → IsReady I (remap_whens env n scopes indent whens)
    remap_whens_ends zero scopes indent whens h = absurd (omega (arith, nodes_size_pos whens))
    remap_whens_ends (suc n) scopes indent end h = pure-IsReady I _
    remap_whens_ends (suc n) scopes indent (case_when condition result ⨾ rest) h =
        bind-IsReady I _ _
          (first-IsReady I _ (remapped_expressions_ends n scopes indent condition (omega arith)))
          (λ condition'.
            bind-IsReady I _ _
              (first-IsReady I _ (remapped_expressions_ends n scopes indent result (omega arith)))
              (λ result'.
                bind-IsReady I _ _ (remap_whens_ends n scopes indent rest (omega arith))
                  (λ rest'. pure-IsReady I _)))
    remap_whens_ends (suc n) scopes indent (_ ⨾ rest) h =
        bind-IsReady I _ _ (remap_whens_ends n scopes indent rest (omega arith))
          (λ rest'. pure-IsReady I _)

    remap_sub_links_ends :
        (n : ℕ) (scopes : Scopes) (indent : ℕ) (args : Nodes)
        → nodes_size args ≤ n
        → IsReady I (remap_sub_links env n scopes indent args)
    remap_sub_links_ends zero scopes indent args h = absurd (omega (arith, nodes_size_pos args))
    remap_sub_links_ends (suc n) scopes indent end h = pure-IsReady I _
    remap_sub_links_ends (suc n) scopes indent (sub_link type left query ⨾ rest) h =
        bind-IsReady I _ _ (remap_select_statement_ends n scopes indent query (omega arith))
          (λ query'.
            bind-IsReady I _ _ (remap_sub_links_ends n scopes indent rest (omega arith))
              (λ rest'. pure-IsReady I _))
    remap_sub_links_ends (suc n) scopes indent (_ ⨾ rest) h =
        bind-IsReady I _ _ (remap_sub_links_ends n scopes indent rest (omega arith))
          (λ rest'. pure-IsReady I _)

    pub remap_select_statement_ends :
        (n : ℕ) (scopes : Scopes) (indent : ℕ) (node : Node)
        → node_size node ≤ n
        → IsReady I (remap_select_statement env n scopes indent node)
    remap_select_statement_ends zero scopes indent node h =
        absurd (omega (arith, node_size_pos node))
    remap_select_statement_ends (suc n) scopes indent
          (select_stmt (select w targets from cond group having sort values l r)) h =
        bind-IsReady I _ _ (remap_with_ends n scopes indent w (omega arith)) (λ (w', scopes').
          bind-IsReady I _ _
            (when-IsReady I (is_union from l r) l _
              (remap_select_statement_ends n scopes' (suc indent) l (omega arith)))
            (λ l'.
              bind-IsReady I _ _
                (when-IsReady I (is_union from l r) r _
                  (remap_select_statement_ends n scopes' (suc indent) r (omega arith)))
                (λ r'.
                  bind-IsReady I _ _
                    (remap_where_ends n scopes' indent cond (omega (arith, with_size_pos w)))
                    (λ cond'.
                      bind-IsReady I _ _ (remap_from_ends n scopes' indent from (omega arith))
                        (λ from'.
                          bind-IsReady I _ _ (remap_sort_ends n scopes' indent sort (omega arith))
                            (λ sort'.
                              bind-IsReady I _ _
                                (remap_args_ends n scopes' indent group (omega arith))
                                (λ group'.
                                  bind-IsReady I _ _
                                    (remap_targets_ends n scopes' indent targets (omega arith))
                                    (λ targets'.
                                      bind-IsReady I _ _
                                        (lift-IsReady I _ (remapped_values_ends env values))
                                        (λ values'. pure-IsReady I _)))))))))
    remap_select_statement_ends (suc n) scopes indent _ h = lift-IsReady I panicked tt

    pub remap_with_ends :
        (n : ℕ) (scopes : Scopes) (indent : ℕ) (w : With)
        → with_size w ≤ n
        → IsReady I (remap_with env n scopes indent w)
    remap_with_ends zero scopes indent w h = absurd (omega (arith, with_size_pos w))
    remap_with_ends (suc n) scopes indent no_with h = pure-IsReady I _
    remap_with_ends (suc n) scopes indent (with_clause recursive ctes) h =
        bind-IsReady I _ _
          (remap_ctes_ends n (if recursive then cte_names ctes else []) scopes indent ctes
            (omega arith))
          (λ (ctes', names'). pure-IsReady I _)

    remap_ctes_ends :
        (n : ℕ) (names : List String) (scopes : Scopes) (indent : ℕ) (ctes : Ctes)
        → ctes_size ctes ≤ n
        → IsReady I (remap_ctes env n names scopes indent ctes)
    remap_ctes_ends zero names scopes indent ctes h = absurd (omega (arith, ctes_size_pos ctes))
    remap_ctes_ends (suc n) names scopes indent no_ctes h = pure-IsReady I _
    remap_ctes_ends (suc n) names scopes indent (cte name query rest) h =
        bind-IsReady I _ _
          (when-IsReady I (is_select query) query _
            (remap_select_statement_ends n (names ∷ scopes) (suc indent) query (omega arith)))
          (λ query'.
            bind-IsReady I _ _ (remap_ctes_ends n (name ∷ names) scopes indent rest (omega arith))
              (λ (rest', names'). pure-IsReady I _))

    remap_where_ends :
        (n : ℕ) (scopes : Scopes) (indent : ℕ) (cond : Node)
        → suc (node_size cond) ≤ n
        → IsReady I (remap_where env n scopes indent cond)
    remap_where_ends zero scopes indent cond h = absurd (omega arith)
    remap_where_ends (suc n) scopes indent cond h =
        remap_where-IsReady n scopes indent cond
          (first-IsReady I _ (remapped_expressions_ends n scopes indent cond (omega arith)))

    remap_from_ends :
        (n : ℕ) (scopes : Scopes) (indent : ℕ) (from : Nodes)
        → nodes_size from ≤ n
        → IsReady I (remap_from env n scopes indent from)
    remap_from_ends zero scopes indent from h = absurd (omega (arith, nodes_size_pos from))
    remap_from_ends (suc n) scopes indent end h = pure-IsReady I _
    remap_from_ends (suc n) scopes indent (item ⨾ items) h =
        bind-IsReady I _ _ (remap_from_item_ends n scopes indent item (omega arith)) (λ item'.
          bind-IsReady I _ _ (remap_from_ends n scopes indent items (omega arith))
            (λ items'. pure-IsReady I _))

    remap_from_item_ends :
        (n : ℕ) (scopes : Scopes) (indent : ℕ) (node : Node)
        → node_size node ≤ n
        → IsReady I (remap_from_item env n scopes indent node)
    remap_from_item_ends zero scopes indent node h = absurd (omega (arith, node_size_pos node))
    remap_from_item_ends (suc n) scopes indent (range_var schema table alias) h =
        remap_table-IsReady I env keeps scopes schema table alias
    remap_from_item_ends (suc n) scopes indent (range_subselect query alias) h =
        bind-IsReady I _ _ (remap_select_statement_ends n scopes (suc indent) query (omega arith))
          (λ query'. pure-IsReady I _)
    remap_from_item_ends (suc n) scopes indent (range_function functions alias) h =
        bind-IsReady I _ _ (lift-IsReady I _ (table_function_alias_ends functions alias)) (λ alias'.
          bound-IsReady I _ (λ f. nodes_size f ≤ nodes_size functions) _
            (remapped_functions_ends env functions)
            (λ f g.
              bind-IsReady I _ _
                (remap_function_lists_ends n scopes (suc indent) f (omega (arith, g, h)))
                (λ f'. pure-IsReady I _)))
    remap_from_item_ends (suc n) scopes indent (join_expr type l r quals) h =
        bind-IsReady I _ _ (remap_from_item_ends n scopes (suc indent) l (omega arith)) (λ l'.
          bind-IsReady I _ _ (remap_from_item_ends n scopes (suc indent) r (omega arith)) (λ r'.
            bind-IsReady I _ _
              (first-IsReady I _
                (remapped_expressions_ends n scopes (suc indent) quals (omega arith)))
              (λ quals'.
                bind-IsReady I _ _
                  (lift-IsReady I _ (remapped_join_type_ends (suc indent) type quals'))
                  (λ type'. pure-IsReady I _))))
    remap_from_item_ends (suc n) scopes indent _ h = pure-IsReady I _

    remap_function_lists_ends :
        (n : ℕ) (scopes : Scopes) (indent : ℕ) (functions : Nodes)
        → nodes_size functions ≤ n
        → IsReady I (remap_function_lists env n scopes indent functions)
    remap_function_lists_ends zero scopes indent functions h =
        absurd (omega (arith, nodes_size_pos functions))
    remap_function_lists_ends (suc n) scopes indent (node_list items ⨾ rest) h =
        bind-IsReady I _ _ (remap_function_items_ends n scopes indent items (omega arith))
          (λ items'.
            bind-IsReady I _ _ (remap_function_lists_ends n scopes indent rest (omega arith))
              (λ rest'. pure-IsReady I _))
    remap_function_lists_ends (suc n) scopes indent _ h = pure-IsReady I _

    remap_function_items_ends :
        (n : ℕ) (scopes : Scopes) (indent : ℕ) (items : Nodes)
        → nodes_size items ≤ n
        → IsReady I (remap_function_items env n scopes indent items)
    remap_function_items_ends zero scopes indent items h =
        absurd (omega (arith, nodes_size_pos items))
    remap_function_items_ends (suc n) scopes indent end h = pure-IsReady I _
    remap_function_items_ends (suc n) scopes indent (item ⨾ items) h =
        bind-IsReady I _ _ (remap_function_args_ends n scopes indent item (omega arith)) (λ item'.
          bind-IsReady I _ _ (remap_function_items_ends n scopes indent items (omega arith))
            (λ items'. pure-IsReady I _))

    remap_function_args_ends :
        (n : ℕ) (scopes : Scopes) (indent : ℕ) (node : Node)
        → node_size node ≤ n
        → IsReady I (remap_function_args env n scopes indent node)
    remap_function_args_ends zero scopes indent node h = absurd (omega (arith, node_size_pos node))
    remap_function_args_ends (suc n) scopes indent (func_call names args variadic) h =
        bind-IsReady I _ _ (remap_args_ends n scopes indent args (omega arith))
          (λ args'. pure-IsReady I _)
    remap_function_args_ends (suc n) scopes indent _ h = pure-IsReady I _

    remap_sort_ends :
        (n : ℕ) (scopes : Scopes) (indent : ℕ) (sort : Nodes)
        → nodes_size sort ≤ n
        → IsReady I (remap_sort env n scopes indent sort)
    remap_sort_ends zero scopes indent sort h = absurd (omega (arith, nodes_size_pos sort))
    remap_sort_ends (suc n) scopes indent end h = pure-IsReady I _
    remap_sort_ends (suc n) scopes indent (sort_by node ⨾ rest) h =
        bind-IsReady I _ _
          (first-IsReady I _ (remapped_expressions_ends n scopes indent node (omega arith)))
          (λ node'.
            bind-IsReady I _ _ (remap_sort_ends n scopes indent rest (omega arith))
              (λ rest'. pure-IsReady I _))
    remap_sort_ends (suc n) scopes indent (_ ⨾ rest) h = lift-IsReady I panicked tt

    remap_targets_ends :
        (n : ℕ) (scopes : Scopes) (indent : ℕ) (targets : Nodes)
        → nodes_size targets ≤ n
        → IsReady I (remap_targets env n scopes indent targets)
    remap_targets_ends zero scopes indent targets h = absurd (omega (arith, nodes_size_pos targets))
    remap_targets_ends (suc n) scopes indent end h = pure-IsReady I _
    remap_targets_ends (suc n) scopes indent (res_target name value ⨾ rest) h =
        bind-IsReady I _ _ (lift-IsReady I _ (default_target_name_ends name value)) (λ name'.
          bind-IsReady I _ _
            (first-IsReady I _ (remapped_expressions_ends n scopes indent value (omega arith)))
            (λ value'.
              bind-IsReady I _ _ (remap_targets_ends n scopes indent rest (omega arith))
                (λ rest'. pure-IsReady I _)))
    remap_targets_ends (suc n) scopes indent (_ ⨾ rest) h = lift-IsReady I panicked tt
