-- ===== src/Wire/Handlers.antt =====
-- src/query_handler.go: the handlers of the extended query protocol. A handler returns its messages,
-- the statement that its caller goes on with, and its error. A Go panic is an outcome of its own,
-- since the connection's goroutine does not recover from it.
pub mod Bind
pub mod Parameters
use bemi_db.Prelude.{
  ℕ, String, List, [], ◌∷◌, Option, none, some, Bool, true, false, not, ◌&&◌, ◌||◌, ◌==◌, nat_eq,
  string_eq, length, if◌then◌else◌, ltb,
}
use bemi_db.Wire.Engine.{Value, Engine, Driver}
use bemi_db.Wire.Message.{
  ParseMessage, BindMessage, HandlerError, remap_failed, multiple_queries, engine_error,
  couldnt_execute, statement_mismatch, portal_mismatch, ServerMessage, parse_complete,
  bind_complete, no_data, empty_query_response,
}
use bemi_db.Wire.Results.{Fallible, rows_to_description_messages, rows_to_data_messages}
use bemi_db.Wire.Results as Results
use bemi_db.Wire.Statement.{PreparedStatement, close_rows, drop_rows, open_result, prepare}
use Bind.{bound_variables, Bound}

-- What a handler returns, with the driver's state.
pub record Handled : Type 0 where
  pub messages : List ServerMessage
  pub stmt : PreparedStatement
  pub error : Option HandlerError
  pub driver : Driver

abbrev pub failed : PreparedStatement → HandlerError → Driver → Handled
failed stmt e driver = record { messages = []; stmt = stmt; error = some e; driver = driver }

abbrev pub answered : PreparedStatement → List ServerMessage → Driver → Handled
answered stmt messages driver = record {
  messages = messages;
  stmt = stmt;
  error = none;
  driver = driver;
}

-- The query remapper: the remapped statements of a query, or its error; `none` where it ends the
-- process, by a panic or an exit.
pub record Remapper : Type 0 where
  pub parse_and_remap_query : String → Option (Results.Fallible (List String))

abbrev new_statement : ParseMessage → String → PreparedStatement
new_statement message query = record {
  name = message.name;
  original_query = message.query;
  query = query;
  parameter_oids = message.parameter_oids;
  bound = false;
  variables = [];
  portal = "";
  described = false;
  statement = none;
  rows = none;
  closed = false;
}

-- `none` where the remapper ends the process.
unfoldable pub handle_parse_query :
    Remapper → ParseMessage → Option (Fallible (List ServerMessage × PreparedStatement))
handle_parse_query remapper message = elim (remapper.parse_and_remap_query message.query) [
  | none ↦ none
  | some (Results.err e) ↦ some (Results.err e)
  | some (Results.ok []) ↦ some (Results.ok (parse_complete ∷ [], new_statement message ""))
  | some (Results.ok (query ∷ [])) ↦
      some (Results.ok (parse_complete ∷ [], new_statement message query))
  | some (Results.ok (query ∷ _ ∷ _)) ↦ some (Results.err (multiple_queries message.query))
]

module _ (engine : Engine) where
  open engine use {query_context}

  -- `none` is a panic.
  unfoldable pub handle_bind_query : BindMessage → PreparedStatement → Driver → Option Handled
  handle_bind_query message stmt driver =
      let (stmt', driver') = drop_rows stmt driver in
      if not (message.prepared_statement == stmt'.name)
      then some (
          failed stmt'
            (statement_mismatch message.prepared_statement stmt'.name stmt'.original_query) driver')
      else elim (bound_variables engine stmt' message.parameter_format_codes 0 message.parameters) [
        | Bound.panicked ↦ none
        | Bound.failed e ↦ some (failed stmt' e driver')
        | Bound.variables vs ↦ some (
            answered
              (record stmt' { bound = true; variables = vs; portal = message.destination_portal })
              (bind_complete ∷ []) driver')
      ]

  -- QueryContext with the bound variables, after `prepare` has left the statement planned.
  unfoldable pub query_prepared :
      Option HandlerError
      → PreparedStatement
      → Driver
      → (String → HandlerError)
      → Option HandlerError × PreparedStatement × Driver
  query_prepared (some e) stmt driver error_of = (some e, stmt, driver)
  query_prepared none stmt driver error_of =
      elim (query_context driver.next stmt.query stmt.variables) [
        | some e ↦ (some (error_of e), stmt, driver)
        | none ↦
            let (h, driver') = open_result driver in (none, record stmt { rows = some h }, driver')
      ]

  unfoldable pub run_statement :
      PreparedStatement
      → Driver
      → (String → HandlerError)
      → Option HandlerError × PreparedStatement × Driver
  run_statement stmt driver error_of =
      let (e, stmt', driver') = prepare engine stmt driver in
      query_prepared e stmt' driver' error_of

  -- The test of the object type's name against the statement, or the portal.
  unfoldable pub describe_mismatch : ℕ → String → PreparedStatement → Option HandlerError
  describe_mismatch object_type name stmt =
      if object_type == b'S' && not (name == stmt.name)
      then some (statement_mismatch name stmt.name stmt.original_query)
      else if object_type == b'P' && not (name == stmt.portal)
      then some (portal_mismatch name stmt.portal stmt.original_query)
      else none

  unfoldable pub described : Option HandlerError × PreparedStatement × Driver → Handled
  described (some e, stmt, driver) = failed stmt e driver
  described (none, stmt, driver) = elim stmt.rows [
    -- `run_statement` sets the rows whenever it succeeds
    | none ↦ answered stmt [] driver
    | some h ↦ elim (rows_to_description_messages engine driver h stmt.original_query) [
      | Results.err e ↦ failed stmt e driver
      | Results.ok messages ↦ answered stmt messages driver
    ]
  ]

  -- What follows once the name has matched.
  unfoldable pub describe_statement : PreparedStatement → Driver → Handled
  describe_statement stmt driver =
      if stmt.query == "" || not stmt.bound
      then answered stmt (no_data ∷ []) driver
      else described (run_statement stmt driver (λ e. couldnt_execute e stmt.original_query))

  unfoldable pub handle_describe_query : ℕ → String → PreparedStatement → Driver → Handled
  handle_describe_query object_type name stmt driver =
      let (stmt', driver') = drop_rows stmt driver in
      elim (describe_mismatch object_type name stmt') [
        | some e ↦ failed stmt' e driver'
        | none ↦ describe_statement (record stmt' { described = true }) driver'
      ]

  -- Rows are open, or a call opens them, and are closed again when the handler returns: the
  -- statement keeps the closed handle.
  unfoldable pub executed : ℕ → Option HandlerError × PreparedStatement × Driver → Handled
  executed max_result_mb (some e, stmt, driver) = failed stmt e driver
  executed max_result_mb (none, stmt, driver) = elim stmt.rows [
    | none ↦ answered stmt [] driver
    | some h ↦ elim (rows_to_data_messages engine max_result_mb driver h stmt.original_query 0).0 [
      | Results.err e ↦ failed stmt e (close_rows h driver)
      | Results.ok messages ↦ answered stmt messages (close_rows h driver)
    ]
  ]

  unfoldable pub handle_execute_query : ℕ → String → PreparedStatement → Driver → Handled
  handle_execute_query max_result_mb portal stmt driver =
      if not (portal == stmt.portal)
      then failed stmt (portal_mismatch portal stmt.portal stmt.original_query) driver
      else if stmt.query == ""
      then answered stmt (empty_query_response ∷ []) driver
      else elim stmt.rows [
        | some h ↦ executed max_result_mb (none, stmt, driver)
        | none ↦ executed max_result_mb (run_statement stmt driver engine_error)
      ]
