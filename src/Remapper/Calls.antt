-- ===== src/Remapper/Calls.antt =====
-- src/parser_function.go and src/parser_utils.go: a function call and how its functions are renamed.
use bemi_db.Prelude.{
  ℕ, suc, String, ◌<>◌, List, [], ◌∷◌, Option, none, some, Bool, false, ◌==◌, nat_eq, string_eq,
  if◌then◌else◌,
}
use bemi_db.Wire.Text.{nat_to_string}
use bemi_db.Remapper.Syntax.{
  Constant, sval, ival, boolval, null, other_constant, Node, Nodes, end, ◌⨾◌, a_const, type_cast,
  func_call, a_array_expr,
}
use bemi_db.Remapper.Rewrite.{Rewrite, done, exited, panicked, mapped}
use bemi_db.Remapper.Text.{replace_first, join}
use bemi_db.Remapper.Formats.{pg_format_to_strftime}

pub record FuncCall : Type 0 where
  pub funcname : List String
  pub args : Nodes
  pub func_variadic : Bool

pub record QuerySchemaFunction : Type 0 where
  pub schema : String
  pub function : String

-- A name of no or of more than two parts ends the process.
unfoldable pub schema_function : FuncCall → Rewrite QuerySchemaFunction
schema_function call = elim call.funcname [
  | [] ↦ exited
  | f ∷ [] ↦ done (record { schema = ""; function = f })
  | s ∷ f ∷ [] ↦ done (record { schema = s; function = f })
  | a ∷ b ∷ c ∷ rest ↦ exited
]

abbrev pub str_const : String → Node
str_const s = a_const (sval s)

-- `GetAConst().GetSval().GetSval()`, empty for anything else
abbrev pub string_of_constant : Constant → String
string_of_constant (sval s) = s
string_of_constant (ival n) = ""
string_of_constant (boolval b) = ""
string_of_constant null = ""
string_of_constant (other_constant s) = ""

abbrev pub string_of : Node → String
string_of (a_const c) = string_of_constant c
string_of _ = ""

abbrev pub first_argument_to_string : FuncCall → String
first_argument_to_string call = elim call.args [ end ↦ "" | arg ⨾ rest ↦ string_of arg ]

-- A constant, or the constant that is cast.
unfoldable pub const_string_value : Node → String
const_string_value (a_const c) = string_of_constant c
const_string_value (type_cast arg names array) = string_of arg
const_string_value _ = ""

unfoldable pub call_schema_to_main : FuncCall → FuncCall
call_schema_to_main call = elim call.funcname [
  | [] ↦ call
  | f ∷ [] ↦ record call { funcname = "main" ∷ f ∷ [] }
  | s ∷ f ∷ [] ↦ record call { funcname = "main" ∷ f ∷ [] }
  | a ∷ b ∷ c ∷ rest ↦ call
]

-- The first `%s` becomes `%1$s`, and so on, as often as there are arguments after the first one.
unfoldable pub number_formats : ℕ → Nodes → String → String
number_formats i end format = format
number_formats i (arg ⨾ args) format =
    number_formats (suc i) args (replace_first format "%s" ("%" <> (nat_to_string i <> "$s")))

-- Without an argument the slice is out of range.
unfoldable pub remap_format_to_printf : FuncCall → Rewrite FuncCall
unfolding number_formats
remap_format_to_printf call = elim call.args [
  | end ↦ panicked
  | arg ⨾ rest ↦
      let format = number_formats 1 rest (string_of arg) in
      done (record call { funcname = "printf" ∷ []; args = str_const format ⨾ rest })
]

abbrev pub renamed : FuncCall → String → Nodes → FuncCall
renamed call name args = record call { funcname = name ∷ []; args = args }

abbrev pub encode_plain : FuncCall → Node → String → FuncCall
encode_plain call first format =
    if format == "hex"
    then renamed call "lower" (func_call ("hex" ∷ []) (first ⨾ end) false ⨾ end)
    else if format == "base64"
    then renamed call "base64" (first ⨾ end)
    else call

-- The nested call takes the place of the call, if it is sha256.
abbrev pub encode_nested : FuncCall → Node → List String → Nodes → QuerySchemaFunction → FuncCall
encode_nested call first names nested_args f =
    if f.function == "sha256"
    then record call { funcname = names; args = nested_args }
    else encode_plain call first "hex"

abbrev pub encode_as : FuncCall → Node → String → Rewrite FuncCall
encode_as call (func_call names nested_args variadic) format =
    let first = func_call names nested_args variadic in
    let nested =
      schema_function (record { funcname = names; args = nested_args; func_variadic = variadic }) in
    if format == "hex"
    then mapped (encode_nested call first names nested_args) nested
    else done (encode_plain call first format)
encode_as call first format = done (encode_plain call first format)

unfoldable pub remap_encode : FuncCall → Rewrite FuncCall
unfolding const_string_value schema_function
remap_encode call = elim call.args [
  | first ⨾ second ⨾ end ↦ encode_as call first (const_string_value second)
  | _ ↦ done call
]

unfoldable pub remap_decode : FuncCall → FuncCall
unfolding const_string_value
remap_decode call = elim call.args [
  | first ⨾ second ⨾ end ↦
      let format = const_string_value second in
      if format == "hex"
      then renamed call "unhex" (first ⨾ end)
      else if format == "base64"
      then renamed call "from_base64" (first ⨾ end)
      else call
  | _ ↦ call
]

abbrev pub remap_to_function : FuncCall → String → FuncCall
remap_to_function call name = record call { funcname = name ∷ [] }

-- `RemapToChar`, `RemapToDate` and `RemapToTimestampFormat`, by the name of the new function.
unfoldable pub remap_time_format : String → FuncCall → FuncCall
unfolding const_string_value
remap_time_format name call = elim call.args [
  | first ⨾ second ⨾ end ↦
      let format = const_string_value second in
      if format == ""
      then call
      else renamed call name (first ⨾ str_const (pg_format_to_strftime format) ⨾ end)
  | _ ↦ call
]

-- The parts of a path, if all of them are texts that are not empty.
abbrev path_part : String → Option (List String) → Option (List String)
path_part part none = none
path_part part (some parts) = if part == "" then none else some (part ∷ parts)

unfoldable pub path_parts : Nodes → Option (List String)
unfolding const_string_value
path_parts end = some []
path_parts (arg ⨾ args) = path_part (const_string_value arg) (path_parts args)

abbrev pub uncast : Node → Node
uncast (type_cast arg names array) = arg
uncast node = node

abbrev pub elements_or : Node → Nodes → Nodes
elements_or (a_array_expr elements) args = elements
elements_or _ args = args

abbrev pub path_args : FuncCall → Node → Nodes → Nodes
path_args call second rest =
    if call.func_variadic then elements_or (uncast second) (second ⨾ rest) else second ⨾ rest

abbrev pub path_call : FuncCall → Node → Option (List String) → FuncCall
path_call call first none = call
path_call call first (some parts) = record {
  funcname = "json_extract_string" ∷ [];
  args = first ⨾ str_const (join "." ("$" ∷ parts)) ⨾ end;
  func_variadic = false;
}

unfoldable pub remap_jsonb_extract_path_text : FuncCall → FuncCall
unfolding path_parts
remap_jsonb_extract_path_text call = elim call.args [
  | first ⨾ second ⨾ rest ↦ path_call call first (path_parts (path_args call second rest))
  | _ ↦ call
]

-- The first argument is written without a look at how many there are.
unfoldable pub remap_to_timestamp : FuncCall → ℕ → Rewrite FuncCall
remap_to_timestamp call timestamp = elim call.args [
  | end ↦ panicked
  | arg ⨾ rest ↦
      let value = if timestamp == 0 then null else ival timestamp in
      done (renamed call "to_timestamp" (a_const value ⨾ rest))
]
