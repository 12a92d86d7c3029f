-- ===== src/Remapper/Expressions.antt =====
-- src/query_remapper_expression.go, with src/parser_a_expr.go and src/parser_column_ref.go: what one
-- expression becomes. The rewrite gives a node and changes the one it was given in place, so a step
-- returns both: the node it gives, and what the old one is now.
use mathlib.Core.Option.{map as map_option}
use bemi_db.Prelude.{
  ◌≡◌, refl, String, ◌<>◌, List, [], ◌∷◌, map, Option, none, some, Bool, false, ◌==◌, string_eq,
  if◌then◌else◌, ◌||◌, ◌&&◌,
}
use bemi_db.Remapper.Syntax.{
  Field, name, star, op, op_any, in_list, Node, column_ref, type_cast, a_expr, node_list,
  collate_clause, end, ◌⨾◌,
}
use bemi_db.Remapper.Text.{split, trim}
use bemi_db.Remapper.Calls.{str_const}
use bemi_db.Remapper.Casts.{
  null_const, string_constant, str_consts, without_catalog, column, same, remapped_type_cast,
}

-- Whether a text has an upper-case letter, by the tables of package unicode.
module _ (contains_upper : String → Bool) where
  -- = ANY('{a,b}') -> IN ('a', 'b')
  unfoldable pub converted_right_any_to_in : Node → Node
  unfolding string_constant str_consts
  converted_right_any_to_in (a_expr op_any names l r) = elim (string_constant r) [
    | none ↦ null_const
    | some s ↦
        let values = map (λ v. trim v (" " ∷ [])) (split (trim s ("{" ∷ "}" ∷ [])) ",") in
        a_expr in_list ("=" ∷ []) l (node_list (str_consts values))
  ]
  converted_right_any_to_in node = node

  -- pg_catalog.[operator] -> [operator]
  abbrev pub remove_operator_catalog : Node → Node
  remove_operator_catalog (a_expr op names l r) = a_expr op (without_catalog names) l r
  remove_operator_catalog node = node

  unfoldable pub remapped_arithmetic_expression : Node → Node × Node
  unfolding converted_right_any_to_in without_catalog
  remapped_arithmetic_expression (a_expr op_any names l r) =
      (converted_right_any_to_in (a_expr op_any names l r), a_expr op_any names l r)
  remapped_arithmetic_expression node = same (remove_operator_catalog node)

  -- The names of the fields, if none is a star.
  unfoldable pub field_names : List Field → Option (List String)
  field_names [] = some []
  field_names (name s ∷ fields) = map_option (λ names. s ∷ names) (field_names fields)
  field_names (star ∷ fields) = none

  abbrev fields_of_three : String → String → String → List Field
  fields_of_three schema table c =
      if schema == "pg_catalog" || schema == "information_schema"
      then name schema ∷ name table ∷ name c ∷ []
      else if schema == "public"
      then name table ∷ name c ∷ []
      else name (schema <> ("_" <> table)) ∷ name c ∷ []

  -- schema.table.column -> schema_table.column
  unfoldable pub remap_column_reference : Node → Node
  unfolding field_names
  remap_column_reference (column_ref fields) = elim (field_names fields) [
    | some (schema ∷ table ∷ c ∷ []) ↦ column_ref (fields_of_three schema table c)
    | _ ↦ column_ref fields
  ]
  remap_column_reference node = node

  abbrev is_default_collation : List String → Bool
  is_default_collation (a ∷ b ∷ []) = a == "pg_catalog" && b == "default"
  is_default_collation _ = false

  -- "value" COLLATE pg_catalog.default -> "value"
  unfoldable pub remapped_collate_clause : Node → Node
  remapped_collate_clause (collate_clause arg names) =
      if is_default_collation names then arg else collate_clause arg names
  remapped_collate_clause node = node

  -- What is left of the old node. The argument of a COLLATE that is removed may be a column reference.
  unfoldable pub left_of_expression : Node → Node
  unfolding remapped_type_cast remapped_arithmetic_expression remap_column_reference
  left_of_expression (type_cast arg names array) =
      (remapped_type_cast contains_upper (type_cast arg names array)).1
  left_of_expression (a_expr kind names l r) =
      (remapped_arithmetic_expression (a_expr kind names l r)).1
  left_of_expression (collate_clause arg names) =
      collate_clause (if is_default_collation names then remap_column_reference arg else arg) names
  left_of_expression node = remap_column_reference node

  unfoldable pub remapped_expression : Node → Node × Node
  unfolding remapped_type_cast remapped_arithmetic_expression remapped_collate_clause
      remap_column_reference left_of_expression
  remapped_expression node =
      let cast = (remapped_type_cast contains_upper node).0 in
      let arithmetic = (remapped_arithmetic_expression cast).0 in
      (remap_column_reference (remapped_collate_clause arithmetic), left_of_expression node)

any_to_in :
    remapped_expression
      (λ s. false)
      (a_expr op_any ("=" ∷ []) (column "n" "oid") (str_const "{a, b}"))
    ≡ (
      a_expr in_list
          ("=" ∷ [])
          (column "n" "oid")
          (node_list (str_const "a" ⨾ str_const "b" ⨾ end)),
      a_expr op_any ("=" ∷ []) (column "n" "oid") (str_const "{a, b}"),
    )
unfolding remapped_expression remapped_arithmetic_expression converted_right_any_to_in
    string_constant str_consts split trim
any_to_in = refl

schema_column :
    (remapped_expression (λ s. false) (column_ref (name "s" ∷ name "t" ∷ name "c" ∷ []))).0
    ≡ column "s_t" "c"
unfolding remapped_expression remapped_type_cast remapped_arithmetic_expression
    remapped_collate_clause remap_column_reference field_names
schema_column = refl
