-- ===== src/Wire/Simple/Examples.antt =====
-- A simple query of two statements, and the theorems on HandleSimpleQuery of src/query_handler.go
-- applied to it.
use mathlib.Core.Path.{subst}
use bemi_db.Prelude.{
  ◌≡◌, refl, ℕ, String, List, [], ◌∷◌, Option, none, some, Bool, true, false, All, length, ◌==◌,
  string_eq, if◌then◌else◌, arith,
}
use bemi_db.Wire.Engine.{Engine, Driver, Cell}
use bemi_db.Wire.Results.{Fallible}
use bemi_db.Wire.Results as Results
use bemi_db.Wire.Results.Oids.{generate_row_description, is_success_column}
use bemi_db.Wire.Results.Cells.{cell_texts, cell_text}
use bemi_db.Wire.Simple.{SimpleEngine, handle_simple_query, simple_reply, unnest_error}
use bemi_db.Wire.Simple.Release.{Restores, handle_simple_query-Restores}
use bemi_db.Wire.Simple.Safety.{IsAnswer, Counted, FallsBack, handle_simple_query-IsAnswer}

abbrev engine : Engine
engine = record {
  prepare_context = λ n query. none;
  query_context = λ n query vs. none;
  column_types =
      λ n. some (record { name = "x"; database_type_name = "VARCHAR"; scan_type = "string" } ∷ []);
  row_count = λ n. 1;
  scan = λ n i targets. some (Cell.string (some "y") ∷ []);
  parse_time = λ layout text. none;
  format_time = λ layout t. "";
  format_float = λ x. "";
  format_array = λ xs. "";
  format_any = λ x. "";
}

-- The second statement of each query has the error that is known.
abbrev remapped : String → Option (Fallible (List String × List String))
remapped q =
    if q == "SELECT 1"
    then some (Results.ok (q ∷ [], q ∷ []))
    else some (Results.ok (q ∷ "unnest" ∷ [], q ∷ "unnest" ∷ []))

abbrev simple : SimpleEngine
simple = record {
  parse_and_remap = remapped;
  query_rows = λ n q. if q == "unnest" then some unnest_error else none;
  encoded_messages_bytes = λ messages. 10;
}

abbrev idle : Driver
idle = record { next = 3; open_statements = []; open_rows = 1 ∷ [] }

handle_simple_query-Restores_example :
    Restores (1 ∷ []) 3 (handle_simple_query engine simple 1 2 "SELECT x" idle)
handle_simple_query-Restores_example =
    handle_simple_query-Restores engine simple 1 2 "SELECT x" idle (omega arith, tt)

abbrev CountedResult : Option (Fallible (List String × List String)) → Type 0
CountedResult none = Unit
CountedResult (some (Results.err e)) = Unit
CountedResult (some (Results.ok (queries, originals))) = length queries ≡ length originals

counted_if :
    (b : Bool) (r s : Option (Fallible (List String × List String)))
    → CountedResult r
    → CountedResult s
    → CountedResult (if b then r else s)
counted_if true r s hr hs = hr
counted_if false r s hr hs = hs

simple-Counted : Counted simple
simple-Counted q queries originals e =
    subst CountedResult e (counted_if (q == "SELECT 1") _ _ refl refl)

abbrev FallbackResult : Option (Fallible (List String × List String)) → Type 0
FallbackResult none = Unit
FallbackResult (some (Results.err e)) = Unit
FallbackResult (some (Results.ok (queries, originals))) =
    All (λ q. (next : ℕ) → ¬ (simple.query_rows next q ≡ some unnest_error)) queries

simple-FallsBack : FallsBack simple
simple-FallsBack queries originals e = subst FallbackResult e (λ next h. cc h, tt)

handle_simple_query-IsAnswer_example :
    IsAnswer (handle_simple_query engine simple 1 2 "SELECT x" idle).0
handle_simple_query-IsAnswer_example =
    handle_simple_query-IsAnswer engine simple 1 0 "SELECT x" idle (λ e. cc e) (λ e. cc e)
      simple-Counted simple-FallsBack

simple_query_runs :
    length (simple_reply (handle_simple_query engine simple 1 2 "SELECT x" idle).0) ≡ 7
unfolding handle_simple_query simple_reply Results.is_open generate_row_description
    is_success_column Results.data_rows Results.generate_data_row Results.row_cost cell_texts
    Results.value_bytes cell_text
simple_query_runs = refl
