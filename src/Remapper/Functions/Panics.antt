-- ===== src/Remapper/Functions/Panics.antt =====
-- src/query_remapper_function.go: the calls whose rewrite ends the process with an index out of range.
use bemi_db.Prelude.{
  ◌≡◌, refl, ◌↔◌, ◌⊎◌, inl, inr, ℕ, String, List, Option, Bool, true, false, ◌==◌, string_eq,
  if◌then◌else◌, ◌||◌, ◌&&◌, arith,
}
use text.Mathlib.TextEquality.{eq_iff}
use bemi_db.Names.{PgSchemaTable}
use bemi_db.Remapper.Syntax.{Node, Nodes, func_call, end, ◌⨾◌}
use bemi_db.Remapper.Rewrite.{Rewrite, done, exited, panicked, out_of_fuel, mapped}
use bemi_db.Remapper.Calls.{
  FuncCall, QuerySchemaFunction, schema_function, remap_format_to_printf, remap_encode,
  remap_to_timestamp, encode_as,
}
use bemi_db.Remapper.Functions.{remap_function_call, remap_by_name, is_macro, length_is_two}

if_panics :
    {A C : Type 0} (b : Bool) (o p : Rewrite A)
    → (b ≡ true → o ≡ panicked → C)
    → (p ≡ panicked → C)
    → (if b then o else p) ≡ panicked
    → C
if_panics true o p f g h = f refl h
if_panics false o p f g h = g h

done-ne-panicked : {A C : Type 0} (a : A) → done a ≡ panicked → C
done-ne-panicked a h = cc h

mapped_panics : {A B : Type 0} (f : A → B) (o : Rewrite A) → mapped f o ≡ panicked → o ≡ panicked
mapped_panics f (done a) h = cc h
mapped_panics f exited h = cc h
mapped_panics f panicked h = refl
mapped_panics f out_of_fuel h = cc h

abbrev with_args : FuncCall → Nodes → FuncCall
with_args call args = record call { args = args }

format_panics :
    (call : FuncCall) (args : Nodes)
    → remap_format_to_printf (with_args call args) ≡ panicked
    → args ≡ end
unfolding remap_format_to_printf
format_panics call end h = refl
format_panics call (arg ⨾ args) h = cc h

to_timestamp_panics :
    (call : FuncCall) (t : ℕ) (args : Nodes)
    → remap_to_timestamp (with_args call args) t ≡ panicked
    → args ≡ end
unfolding remap_to_timestamp
to_timestamp_panics call t end h = refl
to_timestamp_panics call t (arg ⨾ args) h = cc h

schema_function-ne-panicked : (call : FuncCall) → ¬ (schema_function call ≡ panicked)
unfolding schema_function
schema_function-ne-panicked call h = ground arith

encode_as-ne-panicked :
    (call : FuncCall) (first : Node) (format : String) → ¬ (encode_as call first format ≡ panicked)
encode_as-ne-panicked call (func_call names args variadic) format h =
    if_panics (format == "hex") _ _ (λ e p. schema_function-ne-panicked _ (mapped_panics _ _ p))
      (λ p. done-ne-panicked _ p) h
encode_as-ne-panicked call _ format h = cc h

encode-ne-panicked :
    (call : FuncCall) (args : Nodes) → ¬ (remap_encode (with_args call args) ≡ panicked)
unfolding remap_encode
encode-ne-panicked call (first ⨾ second ⨾ end) h = encode_as-ne-panicked _ first _ h
encode-ne-panicked call end h = cc h
encode-ne-panicked call (first ⨾ end) h = cc h
encode-ne-panicked call (first ⨾ second ⨾ third ⨾ rest) h = cc h

if_false :
    {A : Type 0} (b : Bool) (o p : Rewrite A)
    → b ≡ false
    → p ≡ panicked
    → (if b then o else p) ≡ panicked
if_false false o p e h = h
if_false true o p e h = cc e

module _ (catalog_macros schema_macros : List String)
    (last_synced_at : PgSchemaTable → Option ℕ) where
  abbrev Cause : FuncCall → String → Type 0
  Cause call name = (call.args ≡ end) × ((name ≡ "format") ⊎ (name ≡ "bemidb_last_synced_at"))

  by_name_panics :
      (call : FuncCall) (name : String)
      → remap_by_name catalog_macros schema_macros last_synced_at call name ≡ panicked
      → Cause call name
  unfolding remap_by_name
  by_name_panics call name =
      if_panics (name == "format") _ _
        (λ e p.
          (format_panics call call.args (mapped_panics _ _ p), inl ((eq_iff name "format").0 e)))
        (if_panics (name == "encode") _ _
          (λ e p. absurd (encode-ne-panicked call call.args (mapped_panics _ _ p)))
          (if_panics (name == "decode") _ _ (λ e p. done-ne-panicked _ p)
            (if_panics (name == "cardinality") _ _ (λ e p. done-ne-panicked _ p)
              (if_panics (name == "to_char") _ _ (λ e p. done-ne-panicked _ p)
                (if_panics (name == "to_date") _ _ (λ e p. done-ne-panicked _ p)
                  (if_panics (name == "to_timestamp" && length_is_two call.args) _ _
                    (λ e p. done-ne-panicked _ p)
                    (if_panics
                      (name == "jsonb_extract_path_text" || name == "json_extract_path_text") _ _
                      (λ e p. done-ne-panicked _ p)
                      (if_panics (name == "bemidb_last_synced_at") _ _
                        (λ e p. (
                          to_timestamp_panics call _ call.args (mapped_panics _ _ p),
                          inr ((eq_iff name "bemidb_last_synced_at").0 e),
                        ))
                        (λ p. done-ne-panicked _ p)))))))))

  without_args_panics :
      (call : FuncCall) (name : String)
      → Cause call name
      → remap_by_name catalog_macros schema_macros last_synced_at call name ≡ panicked
  unfolding remap_by_name remap_format_to_printf remap_to_timestamp
  without_args_panics call name (e, inl n) = rw (n, e) refl
  without_args_panics call name (e, inr n) = rw (n, e) refl

  -- A call whose name has one or two parts, and that is no macro, ends the process by an index out of
  -- range exactly if it has no arguments and is called format or bemidb_last_synced_at.
  pub remap_function_call_panics :
      (call : FuncCall) (f : QuerySchemaFunction)
      → schema_function call ≡ done f
      → is_macro catalog_macros schema_macros last_synced_at f ≡ false
      → (remap_function_call catalog_macros schema_macros last_synced_at call ≡ panicked)
        ↔ ((call.args ≡ end) × ((f.function ≡ "format") ⊎ (f.function ≡ "bemidb_last_synced_at")))
  unfolding remap_function_call
  remap_function_call_panics call f e m = rw e (
    if_panics (is_macro catalog_macros schema_macros last_synced_at f) _ _
        (λ t p. done-ne-panicked _ p) (by_name_panics call f.function),
    λ c. if_false _ _ _ m (without_args_panics call f.function c),
  )
