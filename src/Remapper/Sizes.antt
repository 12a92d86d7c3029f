-- ===== src/Remapper/Sizes.antt =====
-- The sizes of syntax trees, and that src/query_remapper_function.go does not make calls larger.
use bemi_db.Prelude.{ℕ, suc, ◌+◌, ◌≤◌, nat_eq, string_eq, arith}
use bemi_db.Remapper.Syntax.{
  Node, Nodes, Select, With, Ctes, type_cast, a_expr, bool_expr, case_expr, case_when,
  coalesce_expr, sub_link, null_test, node_list, func_call, a_indirection, a_indices,
  collate_clause, a_array_expr, res_target, sort_by, range_subselect, range_function, join_expr,
  select_stmt, end, ◌⨾◌, select, no_with, with_clause, no_ctes, cte,
}

unfoldable mutual
  pub node_size : Node → ℕ
  node_size (type_cast arg names array) = suc (node_size arg)
  node_size (a_expr kind names l r) = suc (node_size l + node_size r)
  node_size (bool_expr kind args) = suc (nodes_size args)
  node_size (case_expr arg whens default) =
      suc (node_size arg + nodes_size whens + node_size default)
  node_size (case_when condition result) = suc (node_size condition + node_size result)
  node_size (coalesce_expr args) = suc (nodes_size args)
  node_size (sub_link type left query) = suc (node_size left + node_size query)
  node_size (null_test arg) = suc (node_size arg)
  node_size (node_list items) = suc (nodes_size items)
  node_size (func_call names args variadic) = suc (nodes_size args)
  node_size (a_indirection arg indirection) = suc (node_size arg + nodes_size indirection)
  node_size (a_indices l u) = suc (node_size l + node_size u)
  node_size (collate_clause arg names) = suc (node_size arg)
  node_size (a_array_expr elements) = suc (nodes_size elements)
  node_size (res_target name value) = suc (node_size value)
  node_size (sort_by node) = suc (node_size node)
  node_size (range_subselect query alias) = suc (node_size query)
  node_size (range_function functions alias) = suc (nodes_size functions)
  node_size (join_expr type l r quals) = suc (node_size l + node_size r + node_size quals)
  node_size (select_stmt s) = suc (select_size s)
  node_size _ = 2

  pub nodes_size : Nodes → ℕ
  nodes_size end = 1
  nodes_size (node ⨾ nodes) = suc (node_size node + nodes_size nodes)

  pub select_size : Select → ℕ
  select_size (select w targets from cond group having sort values l r) = suc (
      with_size w
      + nodes_size targets
      + nodes_size from
      + node_size cond
      + nodes_size group
      + node_size having
      + nodes_size sort
      + nodes_size values
      + node_size l
      + node_size r)

  pub with_size : With → ℕ
  with_size no_with = 1
  with_size (with_clause recursive ctes) = suc (ctes_size ctes)

  pub ctes_size : Ctes → ℕ
  ctes_size no_ctes = 1
  ctes_size (cte name query rest) = suc (node_size query + ctes_size rest)

pub nodes_size_pos : (nodes : Nodes) → 1 ≤ nodes_size nodes
unfolding nodes_size
nodes_size_pos nodes = ground arith

mutual
  unfolding node_size nodes_size select_size

  pub node_size_pos : (node : Node) → 2 ≤ node_size node
  node_size_pos (type_cast arg names array) = omega (arith, node_size_pos arg)
  node_size_pos (a_expr kind names l r) = omega (arith, node_size_pos l)
  node_size_pos (bool_expr kind args) = omega (arith, nodes_size_pos args)
  node_size_pos (case_expr arg whens default) = omega (arith, node_size_pos arg)
  node_size_pos (case_when condition result) = omega (arith, node_size_pos condition)
  node_size_pos (coalesce_expr args) = omega (arith, nodes_size_pos args)
  node_size_pos (sub_link type left query) = omega (arith, node_size_pos left)
  node_size_pos (null_test arg) = omega (arith, node_size_pos arg)
  node_size_pos (node_list items) = omega (arith, nodes_size_pos items)
  node_size_pos (func_call names args variadic) = omega (arith, nodes_size_pos args)
  node_size_pos (a_indirection arg indirection) = omega (arith, node_size_pos arg)
  node_size_pos (a_indices l u) = omega (arith, node_size_pos l)
  node_size_pos (collate_clause arg names) = omega (arith, node_size_pos arg)
  node_size_pos (a_array_expr elements) = omega (arith, nodes_size_pos elements)
  node_size_pos (res_target name value) = omega (arith, node_size_pos value)
  node_size_pos (sort_by node) = omega (arith, node_size_pos node)
  node_size_pos (range_subselect query alias) = omega (arith, node_size_pos query)
  node_size_pos (range_function functions alias) = omega (arith, nodes_size_pos functions)
  node_size_pos (join_expr type l r quals) = omega (arith, node_size_pos l)
  node_size_pos (select_stmt (select w targets from cond group having sort values l r)) =
      omega arith
  node_size_pos _ = omega arith
