-- ===== src/Remapper/Where.antt =====
-- src/query_remapper.go: the conditions of psql that DuckDB cannot run, and JOINs that must be INNER.
-- A field that is a star has no text, and reading the text of one ends the process.
use bemi_db.Prelude.{
  ◌≡◌, refl, ℕ, String, [], ◌∷◌, Bool, true, false, ◌==◌, string_eq, if◌then◌else◌, ltb,
}
use bemi_db.Remapper.Syntax.{
  Field, name, star, op, and_expr, JoinType, inner, other_join, Node, Nodes, nil, column_ref,
  a_expr, bool_expr, a_indirection, a_indices, end, ◌⨾◌,
}
use bemi_db.Remapper.Rewrite.{Rewrite, done, panicked, ◌>>=◌}

unfoldable pub field_is : String → Field → Rewrite Bool
field_is s (name f) = done (f == s)
field_is s star = panicked

-- `&&` of Go, which does not evaluate its right side after a false left one.
infixr 30 ◌and_then◌
abbrev pub ◌and_then◌ : Rewrite Bool → Rewrite Bool → Rewrite Bool
◌and_then◌ a b = a >>= λ x. if x then b else done false

-- An `=` between two expressions.
unfoldable pub is_equality : Node → Rewrite Bool
is_equality (a_expr op [] l r) = panicked
is_equality (a_expr op (n ∷ names) l r) = done (n == "=")
is_equality _ = done false

-- A column reference of one field that is the text.
unfoldable pub is_column : String → Node → Rewrite Bool
unfolding field_is
is_column s (column_ref (f ∷ [])) = field_is s f
is_column s _ = done false

unfoldable pub is_qualified_column : String → String → Node → Rewrite Bool
unfolding field_is
is_qualified_column s t (column_ref (f ∷ g ∷ [])) = field_is s f and_then field_is t g
is_qualified_column s t _ = done false

abbrev pub is_index : String → Nodes → Rewrite Bool
is_index s (a_indices l u ⨾ end) = is_column s u
is_index s _ = done false

-- `s[t]`
unfoldable pub is_indexed_column : String → String → Node → Rewrite Bool
unfolding is_column
is_indexed_column s t (a_indirection arg indirection) =
    is_column s arg and_then is_index t indirection
is_indexed_column s t _ = done false

abbrev pub left_side : Node → Node
left_side (a_expr kind names l r) = l
left_side _ = nil

abbrev pub right_side : Node → Node
right_side (a_expr kind names l r) = r
right_side _ = nil

-- ... WHERE attrelid = pr.prrelid AND attnum = prattrs[s]
unfoldable pub remove_where_clause : Node → Rewrite Bool
unfolding is_equality is_column is_qualified_column is_indexed_column
remove_where_clause (bool_expr and_expr (a ⨾ b ⨾ end)) =
    is_equality a
    and_then is_equality b
    and_then is_column "attrelid" (left_side a)
    and_then is_qualified_column "pr" "prrelid" (right_side a)
    and_then is_column "attnum" (left_side b)
    and_then is_indexed_column "prattrs" "s" (right_side b)
remove_where_clause _ = done false

abbrev inner_if : JoinType → Bool → JoinType
inner_if type is_inner = if is_inner then inner else type

-- ON ... = indclass[i], at more than two levels
abbrev pub join_type_on : JoinType → Node → Rewrite JoinType
join_type_on type (a_expr kind names l (a_indirection (column_ref (f ∷ fields)) indirection)) =
    field_is "indclass" f >>= λ is. done (inner_if type is)
join_type_on type _ = done type

unfoldable pub remapped_join_type : ℕ → JoinType → Node → Rewrite JoinType
unfolding field_is
remapped_join_type indent inner quals = done inner
remapped_join_type indent other_join quals =
    if ltb 2 indent then join_type_on other_join quals else done other_join

psql_where :
    remove_where_clause (
      bool_expr and_expr (
        a_expr op
          ("=" ∷ [])
          (column_ref (name "attrelid" ∷ []))
          (column_ref (name "pr" ∷ name "prrelid" ∷ []))
        ⨾ a_expr op ("=" ∷ []) (column_ref (name "attnum" ∷ [])) (
            a_indirection
              (column_ref (name "prattrs" ∷ []))
              (a_indices nil (column_ref (name "s" ∷ [])) ⨾ end))
        ⨾ end))
    ≡ done true
unfolding remove_where_clause is_equality is_column is_qualified_column is_indexed_column field_is
psql_where = refl

-- `attrelid = pr.* AND attnum = 1`
star_where :
    remove_where_clause (
      bool_expr and_expr (
        a_expr op
          ("=" ∷ [])
          (column_ref (name "attrelid" ∷ []))
          (column_ref (name "pr" ∷ star ∷ []))
        ⨾ a_expr op ("=" ∷ []) (column_ref (name "attnum" ∷ [])) nil
        ⨾ end))
    ≡ panicked
unfolding remove_where_clause is_equality is_column is_qualified_column field_is
star_where = refl
