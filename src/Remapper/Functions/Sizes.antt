-- ===== src/Remapper/Functions/Sizes.antt =====
-- src/query_remapper_function.go and src/parser_function.go: a rewritten call has no larger arguments
-- than the call, and so the walk over its arguments ends.
use bemi_db.Prelude.{
  ◌≡◌, refl, ℕ, ◌≤◌, String, List, Option, none, some, Bool, true, false, ◌==◌, nat_eq, string_eq,
  if◌then◌else◌, ◌||◌, ◌&&◌, arith,
}
use bemi_db.Names.{PgSchemaTable}
use bemi_db.Remapper.Syntax.{Node, Nodes, func_call, end, ◌⨾◌}
use bemi_db.Remapper.Rewrite.{Rewrite, done, mapped, Ends, Ends-bind, Ends-if}
use bemi_db.Remapper.Sizes.{node_size, nodes_size, node_size_pos, nodes_size_pos}
use bemi_db.Remapper.Calls.{
  FuncCall, schema_function, remap_format_to_printf, remap_encode, remap_decode, remap_time_format,
  remap_jsonb_extract_path_text, remap_to_timestamp, path_parts, call_schema_to_main,
  const_string_value, path_args, encode_plain, encode_as, encode_nested, path_call,
}
use bemi_db.Remapper.Functions.{
  remap_function_call, remap_nested_function_calls, remap_nested, remap_by_name, is_macro,
  RemappedCall, length_is_two,
}

-- The arguments are no larger than those of the call.
abbrev pub IsNoLarger : FuncCall → FuncCall → Type 0
IsNoLarger call c = nodes_size c.args ≤ nodes_size call.args

either :
    (call : FuncCall) (b : Bool) (c d : FuncCall)
    → IsNoLarger call c
    → IsNoLarger call d
    → IsNoLarger call (if b then c else d)
either call true c d hc hd = hc
either call false c d hc hd = hd

pub schema_function_ends : (call : FuncCall) → Ends (schema_function call) (λ f. Unit)
unfolding schema_function
schema_function_ends call = ground arith

call_schema_to_main-IsNoLarger : (call : FuncCall) → IsNoLarger call (call_schema_to_main call)
unfolding call_schema_to_main
call_schema_to_main-IsNoLarger call = ground arith

-- A name for the call with these arguments.
abbrev with_args : FuncCall → Nodes → FuncCall
with_args call args = record call { args = args }

format_ends :
    (call : FuncCall) (args : Nodes)
    → Ends (remap_format_to_printf (with_args call args)) (IsNoLarger (with_args call args))
unfolding remap_format_to_printf node_size nodes_size
format_ends call end = tt
format_ends call (arg ⨾ rest) = omega (arith, node_size_pos arg)

to_timestamp_ends :
    (call : FuncCall) (t : ℕ) (args : Nodes)
    → Ends (remap_to_timestamp (with_args call args) t) (IsNoLarger (with_args call args))
unfolding remap_to_timestamp node_size nodes_size
to_timestamp_ends call t end = tt
to_timestamp_ends call t (arg ⨾ rest) = omega (arith, node_size_pos arg)

decode-IsNoLarger :
    (call : FuncCall) (args : Nodes)
    → IsNoLarger (with_args call args) (remap_decode (with_args call args))
unfolding remap_decode node_size nodes_size
decode-IsNoLarger call (first ⨾ second ⨾ end) =
    either (with_args call (first ⨾ second ⨾ end)) (const_string_value second == "hex") _ _
      (omega arith)
      (either (with_args call (first ⨾ second ⨾ end)) (const_string_value second == "base64") _ _
        (omega arith) (omega arith))
decode-IsNoLarger call end = omega arith
decode-IsNoLarger call (first ⨾ end) = omega arith
decode-IsNoLarger call (first ⨾ second ⨾ third ⨾ rest) = omega arith

time-IsNoLarger :
    (name : String) (call : FuncCall) (args : Nodes)
    → IsNoLarger (with_args call args) (remap_time_format name (with_args call args))
unfolding remap_time_format node_size nodes_size
time-IsNoLarger name call (first ⨾ second ⨾ end) =
    either (with_args call (first ⨾ second ⨾ end)) (const_string_value second == "") _ _
      (omega arith) (omega (arith, node_size_pos second))
time-IsNoLarger name call end = omega arith
time-IsNoLarger name call (first ⨾ end) = omega arith
time-IsNoLarger name call (first ⨾ second ⨾ third ⨾ rest) = omega arith

path-IsNoLarger :
    (call : FuncCall) (args : Nodes)
    → IsNoLarger (with_args call args) (remap_jsonb_extract_path_text (with_args call args))
unfolding remap_jsonb_extract_path_text node_size nodes_size
path-IsNoLarger call (first ⨾ second ⨾ rest) =
    let path = path_parts (path_args (with_args call (first ⨾ second ⨾ rest)) second rest) in
    elim path
      as (λ o.
        IsNoLarger (with_args call (first ⨾ second ⨾ rest))
          (path_call (with_args call (first ⨾ second ⨾ rest)) first o)) [
            | none ↦ omega arith
            | some parts ↦ omega (arith, node_size_pos second, nodes_size_pos rest)
          ]
path-IsNoLarger call end = omega arith
path-IsNoLarger call (first ⨾ end) = omega arith

plain-IsNoLarger :
    (call : FuncCall) (first second : Node) (format : String)
    → call.args ≡ (first ⨾ second ⨾ end)
    → IsNoLarger call (encode_plain call first format)
unfolding node_size nodes_size
plain-IsNoLarger call first second format e =
    either call (format == "hex") _ _ (rw e (omega (arith, node_size_pos second)))
      (either call (format == "base64") _ _ (rw e (omega arith)) (omega arith))

encode_as_ends :
    (call : FuncCall) (first second : Node) (format : String)
    → call.args ≡ (first ⨾ second ⨾ end)
    → Ends (encode_as call first format) (IsNoLarger call)
unfolding schema_function node_size nodes_size
encode_as_ends call (func_call names nested_args variadic) second format e =
    let first = func_call names nested_args variadic in
    let nested : FuncCall = record {
      funcname = names;
      args = nested_args;
      func_variadic = variadic;
    } in
    Ends-if (IsNoLarger call) (format == "hex")
      (mapped (encode_nested call first names nested_args) (schema_function nested))
      (done (encode_plain call first format))
      (Ends-bind (schema_function nested) _ (λ f. Unit) (IsNoLarger call)
        (schema_function_ends nested)
        (λ f _.
          either call (f.function == "sha256") _ _ (rw e (omega arith))
            (plain-IsNoLarger call first second "hex" e)))
      (plain-IsNoLarger call first second format e)
encode_as_ends call first second format e = plain-IsNoLarger call first second format e

encode_ends :
    (call : FuncCall) (args : Nodes)
    → Ends (remap_encode (with_args call args)) (IsNoLarger (with_args call args))
unfolding remap_encode node_size nodes_size
encode_ends call (first ⨾ second ⨾ end) =
    encode_as_ends _ first second (const_string_value second) refl
encode_ends call end = omega arith
encode_ends call (first ⨾ end) = omega arith
encode_ends call (first ⨾ second ⨾ third ⨾ rest) = omega arith

module _ (catalog_macros schema_macros : List String)
    (last_synced_at : PgSchemaTable → Option ℕ) where
  abbrev Smaller : FuncCall → RemappedCall → Type 0
  Smaller call c = IsNoLarger call c.0

  rewritten_ends :
      (call : FuncCall) (o : Rewrite FuncCall)
      → Ends o (IsNoLarger call)
      → Ends (mapped (λ c. (c, true)) o) (Smaller call)
  rewritten_ends call o h =
      Ends-bind o (λ c. done (c, true)) (IsNoLarger call) (Smaller call) h (λ c h. h)

  remap_by_name_ends :
      (call : FuncCall) (name : String)
      → Ends (remap_by_name catalog_macros schema_macros last_synced_at call name) (Smaller call)
  unfolding remap_by_name
  remap_by_name_ends call name =
      Ends-if (Smaller call) (name == "format") _ _
        (rewritten_ends call _ (format_ends call call.args))
        (Ends-if (Smaller call) (name == "encode") _ _
          (rewritten_ends call _ (encode_ends call call.args))
          (Ends-if (Smaller call) (name == "decode") _ _ (decode-IsNoLarger call call.args) (
            Ends-if (Smaller call) (name == "cardinality") _ _ (omega arith) (
              Ends-if (Smaller call) (name == "to_char") _ _
                (time-IsNoLarger "strftime" call call.args)
                (Ends-if (Smaller call) (name == "to_date") _ _
                  (time-IsNoLarger "strptime" call call.args)
                  (Ends-if (Smaller call) (name == "to_timestamp" && length_is_two call.args) _ _
                    (time-IsNoLarger "strptime" call call.args)
                    (Ends-if (Smaller call)
                      (name == "jsonb_extract_path_text" || name == "json_extract_path_text") _ _
                      (path-IsNoLarger call call.args)
                      (Ends-if (Smaller call) (name == "bemidb_last_synced_at") _ _
                        (rewritten_ends call _ (to_timestamp_ends call _ call.args))
                        (omega arith)))))))))

  -- A rewrite of a call takes no fuel, and its arguments are no larger than before.
  pub remap_function_call_ends :
      (call : FuncCall)
      → Ends (remap_function_call catalog_macros schema_macros last_synced_at call) (Smaller call)
  unfolding remap_function_call
  remap_function_call_ends call =
      Ends-bind (schema_function call) _ (λ f. Unit) (Smaller call) (schema_function_ends call)
        (λ f _.
          Ends-if (Smaller call) (is_macro catalog_macros schema_macros last_synced_at f) _ _
            (call_schema_to_main-IsNoLarger call) (remap_by_name_ends call f.function))

  mutual
    unfolding remap_nested_function_calls node_size nodes_size

    pub remap_nested_function_calls_ends :
        (args : Nodes)
        → Ends
            (remap_nested_function_calls catalog_macros schema_macros last_synced_at args)
            (λ a. nodes_size a ≤ nodes_size args)
    remap_nested_function_calls_ends end = omega arith
    remap_nested_function_calls_ends (arg ⨾ args) =
        Ends-bind _ _ (λ a. node_size a ≤ node_size arg)
          (λ a. nodes_size a ≤ nodes_size (arg ⨾ args)) (remap_nested_ends arg)
          (λ a h.
            Ends-bind _ _ (λ rest. nodes_size rest ≤ nodes_size args)
              (λ b. nodes_size b ≤ nodes_size (arg ⨾ args)) (remap_nested_function_calls_ends args)
              (λ rest g. omega (arith, h, g)))

    remap_nested_ends :
        (arg : Node)
        → Ends
            (remap_nested catalog_macros schema_macros last_synced_at arg)
            (λ a. node_size a ≤ node_size arg)
    remap_nested_ends (func_call names args variadic) =
        let call : FuncCall = record { funcname = names; args = args; func_variadic = variadic } in
        let P : Node → Type 0 = λ a. node_size a ≤ node_size (func_call names args variadic) in
        Ends-bind _ _ (Smaller call) P (remap_function_call_ends call) (λ (c, is) h.
          Ends-if P is _ _ (omega (arith, h)) (
            Ends-bind _ _ (λ a. nodes_size a ≤ nodes_size args) P
              (remap_nested_function_calls_ends args) (λ a g. omega (arith, g))))
    remap_nested_ends _ = omega arith
