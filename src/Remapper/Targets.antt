-- ===== src/Remapper/Targets.antt =====
-- src/query_remapper_select.go and src/parser_select.go: the names that targets of a SELECT get; and
-- the ORDER BY that subqueries of ARRAY lose.
use bemi_db.Prelude.{String, ◌==◌, string_eq, if◌then◌else◌}
use bemi_db.Remapper.Syntax.{
  array_sublink, Node, func_call, a_indirection, name_of, sub_link, select_stmt, end, ◌⨾◌, select,
}
use bemi_db.Remapper.Rewrite.{Rewrite, done, mapped}
use bemi_db.Remapper.Calls.{QuerySchemaFunction, schema_function}

-- `n` of `(...).n`, empty without one
unfoldable pub indirection_name : Node → String
indirection_name (a_indirection arg (name_of n ⨾ rest)) = n
indirection_name _ = ""

abbrev pub default_name : String → String → String
default_name target name = if target == "" then name else target

unfoldable pub default_target_name : String → Node → Rewrite String
unfolding schema_function indirection_name
default_target_name target (func_call names args variadic) =
    mapped (λ (f : QuerySchemaFunction). default_name target f.function)
      (schema_function (record { funcname = names; args = args; func_variadic = variadic }))
default_target_name target node = done (default_name target (indirection_name node))

unfoldable pub without_array_order : Node → Node
without_array_order
      (sub_link array_sublink left
        (select_stmt (select w targets from cond group having sort values l r))) =
    sub_link array_sublink left
      (select_stmt (select w targets from cond group having end values l r))
without_array_order node = node
