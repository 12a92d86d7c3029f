-- ===== src/Remapper/Steps/Termination.antt =====
-- src/query_remapper.go: the steps of the walk take no fuel, and leave calls no larger.
use bemi_db.Prelude.{
  ℕ, ◌≤◌, ltb, String, [], ◌∷◌, Option, Bool, true, false, arith, ◌==◌, string_eq, ◌&&◌,
  if◌then◌else◌,
}
use bemi_db.Names.{QuerySchemaTable}
use bemi_db.Remapper.Syntax.{
  Field, name, star, op, JoinType, inner, other_join, Node, Nodes, and_expr, column_ref, a_expr,
  bool_expr, node_list, func_call, a_indirection, a_indices, range_var, end, ◌⨾◌,
}
use bemi_db.Remapper.Rewrite.{
  Rewrite, done, exited, panicked, out_of_fuel, Ends, Ends-bind, Ends-if,
}
use bemi_db.Remapper.Sizes.{node_size, nodes_size}
use bemi_db.Remapper.Calls.{FuncCall}
use bemi_db.Remapper.Functions.Sizes.{
  remap_function_call_ends, remap_nested_function_calls_ends, schema_function_ends,
}
use bemi_db.Remapper.State.{Environment, RemapperState, Walk, pure, lift, ◌>>>◌}
use bemi_db.Remapper.Tables.{remap_table_var, alias_text}
use bemi_db.Remapper.Where.{
  field_is, is_equality, is_column, is_qualified_column, is_index, is_indexed_column, ◌and_then◌,
  remove_where_clause, remapped_join_type, join_type_on, left_side, right_side,
}
use bemi_db.Remapper.Targets.{default_target_name}
use bemi_db.Remapper.Steps.{
  Scopes, in_scope, table_function_alias, remap_call, remap_table, remapped_values,
  remapped_functions, remapped_function_items, when, first,
}

abbrev pub Any : {A : Type 0} → A → Type 0
Any a = Unit

pub default_target_name_ends :
    (name : String) (value : Node) → Ends (default_target_name name value) Any
unfolding default_target_name
default_target_name_ends target (func_call names args variadic) =
    Ends-bind _ _ Any Any
      (schema_function_ends (record { funcname = names; args = args; func_variadic = variadic }))
      (λ f _. tt)
default_target_name_ends target _ = tt

field_is_ends : (s : String) (f : Field) → Ends (field_is s f) Any
unfolding field_is
field_is_ends s (name t) = tt
field_is_ends s star = tt

Ends-and_then : (a b : Rewrite Bool) → Ends a Any → Ends b Any → Ends (a and_then b) Any
Ends-and_then (done true) b ha hb = hb
Ends-and_then (done false) b ha hb = tt
Ends-and_then exited b ha hb = tt
Ends-and_then panicked b ha hb = tt
Ends-and_then out_of_fuel b ha hb = ha

is_equality_ends : (node : Node) → Ends (is_equality node) Any
unfolding is_equality
is_equality_ends (a_expr op [] l r) = tt
is_equality_ends (a_expr op (n ∷ names) l r) = tt
is_equality_ends _ = tt

is_column_ends : (s : String) (node : Node) → Ends (is_column s node) Any
unfolding is_column
is_column_ends s (column_ref (f ∷ [])) = field_is_ends s f
is_column_ends s _ = tt

is_qualified_column_ends : (s t : String) (node : Node) → Ends (is_qualified_column s t node) Any
unfolding is_qualified_column
is_qualified_column_ends s t (column_ref (f ∷ g ∷ [])) =
    Ends-and_then _ _ (field_is_ends s f) (field_is_ends t g)
is_qualified_column_ends s t _ = tt

is_index_ends : (t : String) (indirection : Nodes) → Ends (is_index t indirection) Any
is_index_ends t (a_indices l u ⨾ end) = is_column_ends t u
is_index_ends t _ = tt

is_indexed_column_ends : (s t : String) (node : Node) → Ends (is_indexed_column s t node) Any
unfolding is_indexed_column
is_indexed_column_ends s t (a_indirection arg indirection) =
    Ends-and_then _ _ (is_column_ends s arg) (is_index_ends t indirection)
is_indexed_column_ends s t _ = tt

pub remove_where_clause_ends : (cond : Node) → Ends (remove_where_clause cond) Any
unfolding remove_where_clause
remove_where_clause_ends (bool_expr and_expr (a ⨾ b ⨾ end)) =
    let eq_a = is_equality_ends a in
    let eq_b = is_equality_ends b in
    let rel = is_column_ends "attrelid" (left_side a) in
    let pr = is_qualified_column_ends "pr" "prrelid" (right_side a) in
    let num = is_column_ends "attnum" (left_side b) in
    let attrs = is_indexed_column_ends "prattrs" "s" (right_side b) in
    let attrs_o = is_indexed_column "prattrs" "s" (right_side b) in
    let num_o = is_column "attnum" (left_side b) and_then attrs_o in
    let pr_o = is_qualified_column "pr" "prrelid" (right_side a) and_then num_o in
    let rel_o = is_column "attrelid" (left_side a) and_then pr_o in
    Ends-and_then (is_equality a) (is_equality b and_then rel_o) eq_a (
      Ends-and_then (is_equality b) rel_o eq_b (
        Ends-and_then (is_column "attrelid" (left_side a)) pr_o rel (
          Ends-and_then (is_qualified_column "pr" "prrelid" (right_side a)) num_o pr
            (Ends-and_then (is_column "attnum" (left_side b)) attrs_o num attrs))))
remove_where_clause_ends _ = tt

join_type_on_ends : (type : JoinType) (quals : Node) → Ends (join_type_on type quals) Any
join_type_on_ends type (a_expr kind names l (a_indirection (column_ref (f ∷ fields)) indirection)) =
    Ends-bind _ _ Any Any (field_is_ends "indclass" f) (λ is _. tt)
join_type_on_ends type _ = tt

pub remapped_join_type_ends :
    (indent : ℕ) (type : JoinType) (quals : Node) → Ends (remapped_join_type indent type quals) Any
unfolding remapped_join_type
remapped_join_type_ends indent inner quals = tt
remapped_join_type_ends indent other_join quals =
    Ends-if Any (ltb 2 indent) _ _ (join_type_on_ends other_join quals) tt

pub table_function_alias_ends :
    (functions : Nodes) (alias : Option String) → Ends (table_function_alias functions alias) Any
unfolding table_function_alias
table_function_alias_ends (node_list (func_call names args variadic ⨾ items) ⨾ rest) alias =
    Ends-bind _ _ Any Any
      (schema_function_ends (record { funcname = names; args = args; func_variadic = variadic }))
      (λ f _. tt)
table_function_alias_ends _ alias = tt

module _ (env : Environment) where
  pub remapped_values_ends : (values : Nodes) → Ends (remapped_values env values) Any
  unfolding remapped_values
  remapped_values_ends end = tt
  remapped_values_ends (node_list items ⨾ rest) =
      Ends-bind _ _ Any Any (remapped_values_ends rest) (λ a _. tt)
  remapped_values_ends (_ ⨾ rest) = tt

  pub remap_call_ends :
      (call : FuncCall) → Ends (remap_call env call) (λ c. nodes_size c.args ≤ nodes_size call.args)
  unfolding remap_call
  remap_call_ends call =
      Ends-bind _ _ (λ c. nodes_size c.0.args ≤ nodes_size call.args)
        (λ c. nodes_size c.args ≤ nodes_size call.args)
        (remap_function_call_ends env.catalog_macros env.schema_macros env.last_synced_at call)
        (λ (c, is) h.
          Ends-bind _ _ (λ a. nodes_size a ≤ nodes_size c.args)
            (λ c. nodes_size c.args ≤ nodes_size call.args)
            (remap_nested_function_calls_ends env.catalog_macros env.schema_macros
              env.last_synced_at c.args)
            (λ a g. omega (arith, h, g)))

  remapped_function_items_ends :
      (items : Nodes)
      → Ends (remapped_function_items env items) (λ a. nodes_size a ≤ nodes_size items)
  unfolding remapped_function_items node_size nodes_size
  remapped_function_items_ends end = omega arith
  remapped_function_items_ends (func_call names args variadic ⨾ items) =
      Ends-bind _ _ (λ c. nodes_size c.args ≤ nodes_size args)
        (λ a. nodes_size a ≤ nodes_size (func_call names args variadic ⨾ items))
        (remap_call_ends (record { funcname = names; args = args; func_variadic = variadic }))
        (λ c h.
          Ends-bind _ _ (λ a. nodes_size a ≤ nodes_size items)
            (λ a. nodes_size a ≤ nodes_size (func_call names args variadic ⨾ items))
            (remapped_function_items_ends items) (λ a g. omega (arith, h, g)))
  remapped_function_items_ends (item ⨾ items) =
      Ends-bind _ _ (λ a. nodes_size a ≤ nodes_size items)
        (λ a. nodes_size a ≤ nodes_size (item ⨾ items)) (remapped_function_items_ends items)
        (λ a g. omega (arith, g))

  pub remapped_functions_ends :
      (functions : Nodes)
      → Ends (remapped_functions env functions) (λ a. nodes_size a ≤ nodes_size functions)
  unfolding remapped_functions node_size nodes_size
  remapped_functions_ends end = omega arith
  remapped_functions_ends (node_list items ⨾ rest) =
      Ends-bind _ _ (λ a. nodes_size a ≤ nodes_size items)
        (λ a. nodes_size a ≤ nodes_size (node_list items ⨾ rest))
        (remapped_function_items_ends items)
        (λ a h.
          Ends-bind _ _ (λ a. nodes_size a ≤ nodes_size rest)
            (λ a. nodes_size a ≤ nodes_size (node_list items ⨾ rest)) (remapped_functions_ends rest)
            (λ b g. omega (arith, h, g)))
  remapped_functions_ends (_ ⨾ rest) = tt

-- The steps that keep an invariant of the state.
module _ (I : RemapperState → Type 0) where
  -- The step does not run out of fuel, and its result is in a state with the invariant.
  unfoldable pub IsReady : {A : Type 0} → Walk A → Type 0
  IsReady m = (w : RemapperState) → I w → Ends (m w) (λ r. I r.1)

  pub pure-IsReady : {A : Type 0} (a : A) → IsReady (pure a)
  unfolding pure IsReady
  pure-IsReady a w i = i

  pub bind-IsReady :
      {A B : Type 0} (m : Walk A) (k : A → Walk B)
      → IsReady m
      → ((a : A) → IsReady (k a))
      → IsReady (m >>> k)
  unfolding ◌>>>◌ IsReady
  bind-IsReady m k h g w i =
      Ends-bind (m w) (λ (a, w'). k a w') (λ r. I r.1) (λ r. I r.1) (h w i) (λ r. g r.0 r.1)

  pub lift-IsReady : {A : Type 0} (o : Rewrite A) → Ends o Any → IsReady (lift o)
  unfolding lift IsReady
  lift-IsReady o h w i = Ends-bind o _ Any (λ r. I r.1) h (λ a _. i)

  pub when-IsReady : (b : Bool) (node : Node) (m : Walk Node) → IsReady m → IsReady (when b node m)
  unfolding when pure IsReady
  when-IsReady true node m h = h
  when-IsReady false node m h = λ w i. i

  pub first-IsReady : (m : Walk (Node × Node)) → IsReady m → IsReady (first m)
  unfolding first
  first-IsReady m h = bind-IsReady m _ h (λ a. pure-IsReady _)

  -- A step whose result has a bound, and what follows it.
  pub bound-IsReady :
      {A B : Type 0} (o : Rewrite A) (P : A → Type 0) (k : A → Walk B)
      → Ends o P
      → ((a : A) → P a → IsReady (k a))
      → IsReady (lift o >>> k)
  unfolding ◌>>>◌ lift IsReady
  bound-IsReady (done a) P k h g = g a h
  bound-IsReady exited P k h g = λ w i. tt
  bound-IsReady panicked P k h g = λ w i. tt
  bound-IsReady out_of_fuel P k h g = elim h [ ]

  if-IsReady : (b : Bool) (m k : Walk Node) → IsReady m → IsReady k → IsReady (if b then m else k)
  if-IsReady true m k hm hk = hm
  if-IsReady false m k hm hk = hk

  pub remap_table-IsReady :
      (env : Environment)
      → ((t : QuerySchemaTable) (alias : Option String) → IsReady (remap_table_var env t alias))
      → (scopes : Scopes) (schema table : String) (alias : Option String)
      → IsReady (remap_table env scopes schema table alias)
  unfolding remap_table
  remap_table-IsReady env keeps scopes schema table alias =
      if-IsReady (schema == "" && in_scope scopes table) (pure (range_var schema table alias)) _
        (pure-IsReady (range_var schema table alias))
        (keeps (record { schema = schema; table = table; alias = alias_text alias }) alias)
