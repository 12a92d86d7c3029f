-- ===== src/Remapper/Casts.antt =====
-- src/query_remapper_expression.go, remappedTypeCast, with src/parser_type_cast.go. A cast that is
-- rewritten in place is given twice: as the new node, and as what the old one is now.
use mathlib.Core.Option.{map as map_option}
use bemi_db.Prelude.{
  ◌≡◌, refl, String, ◌<>◌, List, [], ◌∷◌, Option, none, some, Bool, false, ◌==◌, string_eq,
  if◌then◌else◌, ◌||◌,
}
use bemi_db.Names.{QuerySchemaTable}
use bemi_db.Remapper.Syntax.{
  sval, null, name, op, and_expr, expr_sublink, inner, Node, Nodes, nil, a_const, column_ref,
  type_cast, a_expr, bool_expr, sub_link, func_call, res_target, range_var, join_expr, select_stmt,
  end, ◌⨾◌, select, no_with,
}
use bemi_db.Remapper.Text.{replace_all, split, trim, join}
use bemi_db.Remapper.Calls.{str_const, string_of}

abbrev pub null_const : Node
null_const = a_const null

-- `GetAConst().GetSval()`, none for anything but a string constant
unfoldable pub string_constant : Node → Option String
string_constant (a_const (sval s)) = some s
string_constant _ = none

unfoldable pub last_part : List String → String
last_part [] = ""
last_part (s ∷ []) = s
last_part (s ∷ t ∷ rest) = last_part (t ∷ rest)

unfoldable pub str_consts : List String → Nodes
str_consts [] = end
str_consts (s ∷ rest) = str_const s ⨾ str_consts rest

-- pg_catalog.[name] -> [name]
unfoldable pub without_catalog : List String → List String
without_catalog (a ∷ b ∷ []) = if a == "pg_catalog" then b ∷ [] else a ∷ b ∷ []
without_catalog names = names

abbrev and_array : String → Bool → String
and_array s array = if array then s <> "[]" else s

-- The name of the type of a cast, empty without a cast or a name.
unfoldable pub type_name : Node → String
type_name (type_cast arg [] array) = ""
type_name (type_cast arg (n ∷ names) array) = and_array (join "." (n ∷ names)) array
type_name _ = ""

abbrev pub remove_cast_catalog : Node → Node
remove_cast_catalog (type_cast arg names array) = type_cast arg (without_catalog names) array
remove_cast_catalog node = node

abbrev pub cast_arg : Node → Node
cast_arg (type_cast arg names array) = arg
cast_arg node = nil

abbrev pub column : String → String → Node
column table c = column_ref (name table ∷ name c ∷ [])

abbrev equals : Node → Node → Node
equals l r = a_expr op ("=" ∷ []) l r

-- '{a,b,c}'::text[] -> list_value('a', 'b', 'c')
unfoldable pub make_list_value_from_array : Node → Option Node
unfolding string_constant str_consts
make_list_value_from_array node =
    map_option
      (λ s. func_call ("list_value" ∷ []) (str_consts (split (trim s ("{" ∷ "}" ∷ [])) ",")) false)
      (string_constant node)

abbrev pub same : Node → Node × Node
same node = (node, node)

-- Whether a text has an upper-case letter, by the tables of package unicode.
module _ (contains_upper : String → Bool) where
  abbrev schema_part : List String → String
  schema_part (s ∷ t ∷ rest) = s
  schema_part _ = ""

  abbrev unquoted : String → String
  unquoted s = if contains_upper s then s else replace_all s "\"" ""

  unfoldable pub query_schema_table_from_string : String → QuerySchemaTable
  unfolding last_part
  query_schema_table_from_string text =
      let schema = schema_part (split text ".") in
      record { schema = unquoted schema; table = unquoted (last_part (split text ".")); alias = "" }

  -- SELECT c.oid FROM pg_class c JOIN pg_namespace n ON n.oid = c.relnamespace WHERE ...
  abbrev pub select_oid : String → String → Node
  select_oid schema table =
      let join_node =
        join_expr inner (range_var "" "pg_class" (some "c"))
          (range_var "" "pg_namespace" (some "n"))
          (equals (column "n" "oid") (column "c" "relnamespace")) in
      let where_node = bool_expr and_expr (
        equals (column "n" "nspname") (str_const schema)
        ⨾ equals (column "c" "relname") (str_const table)
        ⨾ end) in
      sub_link expr_sublink nil (
        select_stmt (
          select no_with (res_target "" (column "c" "oid") ⨾ end) (join_node ⨾ end) where_node end
            nil end end nil nil))

  unfoldable pub make_subselect_oid : Node → Node
  unfolding string_constant query_schema_table_from_string
  make_subselect_oid arg = elim (string_constant arg) [
    | none ↦ null_const
    | some text ↦
        let t = query_schema_table_from_string text in
        select_oid (if t.schema == "" then "public" else t.schema) t.table
  ]

  abbrev or_same : Option Node → Node → Node × Node
  or_same none node = same node
  or_same (some n) node = (n, node)

  -- By the name of the type, the prefix pg_catalog removed.
  unfoldable pub remap_cast_to : String → Node → List String → Bool → Node × Node
  unfolding make_list_value_from_array make_subselect_oid last_part type_name
  remap_cast_to type arg names array =
      let node = type_cast arg names array in
      let nested = remove_cast_catalog arg in
      let with_nested = type_cast nested names array in
      if type == "jsonb"
      then same (type_cast arg ("json" ∷ []) array)
      else if type == "text[]"
      then or_same (make_list_value_from_array arg) node
      else if type == "regproc"
      then (if string_of arg == ""
          then same node
          else (str_const (last_part (split (string_of arg) ".")), node))
      else if type == "regclass"
      then (make_subselect_oid arg, node)
      else if type == "oid"
      then (if type_name nested == "regclass"
          then (make_subselect_oid (cast_arg nested), with_nested)
          else same with_nested)
      else if type == "text"
      then (if type_name nested == "regtype"
            || type_name nested == "regnamespace"
            || type_name nested == "regclass"
          then same (type_cast (cast_arg nested) names array)
          else same with_nested)
      else same node

  unfoldable pub remapped_type_cast : Node → Node × Node
  unfolding remap_cast_to without_catalog type_name
  remapped_type_cast (type_cast arg [] array) = same (type_cast arg [] array)
  remapped_type_cast (type_cast arg (n ∷ names) array) =
      let short = without_catalog (n ∷ names) in
      remap_cast_to (type_name (type_cast arg short array)) arg short array
  remapped_type_cast node = same node

regclass_oid :
    (remapped_type_cast
      (λ s. false)
      (type_cast
        (type_cast (str_const "s.users") ("pg_catalog" ∷ "regclass" ∷ []) false)
        ("oid" ∷ [])
        false)).0
    ≡ select_oid (λ s. false) "s" "users"
unfolding remapped_type_cast remap_cast_to type_name without_catalog make_subselect_oid
    string_constant query_schema_table_from_string last_part join replace_all split
regclass_oid = refl
