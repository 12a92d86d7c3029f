-- ===== src/Wire/Examples.antt =====
-- Tests of the model of src/postgres.go and src/query_handler.go, and its theorems at concrete runs.
use bemi_db.Prelude.{
  inl, ℕ, suc, ◌+◌, ◌≤◌, ◌<◌, ◌≡◌, ◌↔◌, refl, List, [], ◌∷◌, none, some, true, false, arith, length,
  get_elem?, if◌then◌else◌,
}
use bemi_db.Wire.Engine.{ColumnType, Cell, Engine, Driver}
use bemi_db.Wire.Message.{ParseMessage, BindMessage, ClientMessage, result_too_large}
use bemi_db.Wire.Results as Results
use bemi_db.Wire.Results.{
  row_cost, value_bytes, is_open, over_budget, max_result_bytes, generate_data_row,
  rows_to_data_messages, data_rows, columns_of,
}
use bemi_db.Wire.Results.Budget.{
  bytes_of, exceeds, complete, rows_to_data_messages-budget, rows_to_data_messages-count,
}
use bemi_db.Wire.Results.Cells.{cell_texts, cell_text}
use bemi_db.Wire.Statement.{PreparedStatement, drop_rows, prepare}
use bemi_db.Wire.Handlers.{
  Remapper, handle_parse_query, handle_bind_query, handle_execute_query, executed, run_statement,
  query_prepared,
}
use bemi_db.Wire.Handlers.Bind.{bound_variables, bound_value, text_format}
use bemi_db.Wire.Exchange.{panicked, synced, step, dispatch, exchange, handle_extended_query}
use bemi_db.Wire.Exchange.Plain.{count_ready, count_errors, count_syncs}
use bemi_db.Wire.Exchange.Replies.{extended_query-replies}
use bemi_db.Wire.Exchange.Release.{extended_query-releases}
use bemi_db.Wire.Exchange.Panics.{extended_query-panicked_iff, bind-panics}

-- Every statement can be planned; results have one column of text and one row.
abbrev engine : Engine
engine = record {
  prepare_context = λ n query. none;
  query_context = λ n query vs. none;
  column_types =
      λ n. some (record { name = "x"; database_type_name = "VARCHAR"; scan_type = "string" } ∷ []);
  row_count = λ n. 1;
  scan = λ n i targets. some (Cell.string (some "y") ∷ []);
  parse_time = λ layout text. none;
  format_time = λ layout t. "";
  format_float = λ x. "";
  format_array = λ xs. "";
  format_any = λ x. "";
}

abbrev remapper : Remapper
remapper = record { parse_and_remap_query = λ q. some (Results.ok (q ∷ [])) }

abbrev idle : Driver
idle = record { next = 3; open_statements = 1 ∷ []; open_rows = [] }

abbrev parse_message : ParseMessage
parse_message = record { name = "s"; query = "select x"; parameter_oids = [] }

abbrev bind_message : BindMessage
bind_message = record {
  destination_portal = "";
  prepared_statement = "s";
  parameter_format_codes = [];
  parameters = some (b'a' ∷ []) ∷ none ∷ [];
}

abbrev batch : List ClientMessage
batch =
    ClientMessage.bind bind_message
    ∷ ClientMessage.execute ""
    ∷ ClientMessage.execute "unknown"
    ∷ ClientMessage.execute ""
    ∷ ClientMessage.sync
    ∷ ClientMessage.query "select 2"
    ∷ []

batch_runs :
    (count_ready (handle_extended_query engine 0 remapper idle parse_message batch).output ≡ 1)
    × (count_errors (handle_extended_query engine 0 remapper idle parse_message batch).output ≡ 1)
    × ((handle_extended_query engine 0 remapper idle parse_message batch).ending ≡ synced)
    × ((handle_extended_query engine 0 remapper idle parse_message batch).rest
        ≡ ClientMessage.query "select 2" ∷ [])
unfolding handle_extended_query handle_parse_query exchange step dispatch handle_bind_query
    bound_variables text_format bound_value handle_execute_query executed run_statement
    query_prepared rows_to_data_messages data_rows columns_of generate_data_row drop_rows prepare
    is_open
batch_runs = (refl, refl, refl, refl)

abbrev with_rows : Driver
with_rows = record { next = 3; open_statements = 1 ∷ []; open_rows = 2 ∷ [] }

abbrev columns : List ColumnType
columns = record { name = "x"; database_type_name = "VARCHAR"; scan_type = "string" } ∷ []

rows_to_data_messages-budget_example :
    (rows_to_data_messages engine 1 with_rows 2 "select x" 1000).0 ≡ (
      if exceeds 1 (1000 + bytes_of ((some "y" ∷ []) ∷ []))
      then Results.err (result_too_large 1 "select x")
      else Results.ok (complete engine 1 2 columns "select x" ((some "y" ∷ []) ∷ [])))
unfolding is_open generate_data_row cell_texts cell_text
rows_to_data_messages-budget_example =
    rows_to_data_messages-budget engine 1 2 columns "select x" with_rows 1000 ((some "y" ∷ []) ∷ [])
      refl refl refl (refl, tt)

rows_to_data_messages-count_example :
    (rows_to_data_messages engine 1 with_rows 2 "select x" 1000).1 ≡ 1113
unfolding is_open generate_data_row cell_texts cell_text
rows_to_data_messages-count_example =
    rows_to_data_messages-count engine 1 2 columns "select x" with_rows 1000 ((some "y" ∷ []) ∷ [])
      refl refl refl (refl, tt) refl

abbrev planned : PreparedStatement
planned = record {
  name = "s";
  original_query = "select x";
  query = "select x";
  parameter_oids = [];
  bound = true;
  variables = [];
  portal = "";
  described = false;
  statement = some 1;
  rows = none;
  closed = false;
}

extended_query-replies_example :
    (count_ready (handle_extended_query engine 0 remapper idle parse_message batch).output
        + count_syncs (handle_extended_query engine 0 remapper idle parse_message batch).rest
      ≡ 1)
    × (count_errors (handle_extended_query engine 0 remapper idle parse_message batch).output ≤ 1)
extended_query-replies_example = extended_query-replies engine 0 remapper idle parse_message batch

extended_query-releases_example :
    ((handle_extended_query engine 0 remapper idle parse_message batch).driver.open_statements
      ≡ 1 ∷ [])
    × ((handle_extended_query engine 0 remapper idle parse_message batch).driver.open_rows ≡ [])
extended_query-releases_example =
    extended_query-releases engine 0 remapper idle parse_message batch (omega arith) tt

extended_query-panicked_iff_example :
    ((handle_extended_query engine 0 remapper idle parse_message batch).ending ≡ panicked)
    ↔ (remapper.parse_and_remap_query "select x" ≡ none)
extended_query-panicked_iff_example =
    extended_query-panicked_iff engine 0 remapper idle parse_message batch
      (inl (omega arith), (tt, (tt, (tt, (tt, (tt, tt))))))

abbrev two_codes : List ℕ
two_codes = 0 ∷ 0 ∷ []

two_codes_text : (j : ℕ) → j < length two_codes → get_elem? two_codes j ≡ some 0
two_codes_text ℕ.zero h = refl
two_codes_text (suc ℕ.zero) h = refl
two_codes_text (suc (suc j)) h = absurd (omega arith)

bind-panics_example :
    (exchange engine 0 (some planned) false idle (
      ClientMessage.bind (record {
        destination_portal = "";
        prepared_statement = "s";
        parameter_format_codes = two_codes;
        parameters = some [] ∷ some [] ∷ some [] ∷ [];
      })
      ∷ [])).ending
    ≡ panicked
bind-panics_example =
    bind-panics engine 0 planned idle [] "" two_codes ([] ∷ [] ∷ [] ∷ []) (omega arith)
      two_codes_text (omega arith)
