-- ===== src/Wire/Exchange/Replies.antt =====
-- src/postgres.go, handleExtendedQuery: how many ReadyForQuery and ErrorResponse messages an
-- exchange sends.
use bemi_db.Prelude.{
  if◌then◌else◌, ℕ, ◌+◌, ◌≤◌, ◌≡◌, refl, inl, inr, List, [], ◌∷◌, Option, none, some, Bool, true,
  false, arith, Bool-cases, Option-cases,
}
use bemi_db.Wire.Engine.{Engine, Driver}
use bemi_db.Wire.Message.{ParseMessage, ClientMessage, ServerMessage, parse_complete}
use bemi_db.Wire.Results as Results
use bemi_db.Wire.Results.{
  Fallible, row_cost, columns_of, with_command_complete, command_tag, data_rows, generate_data_row,
  rows_to_data_messages, rows_to_description_messages,
}
use bemi_db.Wire.Statement.{drop_rows, PreparedStatement}
use bemi_db.Wire.Handlers.{
  Handled, Remapper, handle_parse_query, handle_bind_query, handle_describe_query,
  handle_execute_query,
}
use bemi_db.Wire.Exchange.{
  Step, Step-cases, written, finished, go, exit, dispatch, dispatch_nil, step, exchange,
  handle_extended_query,
}
use bemi_db.Wire.Exchange.Plain.{
  count_ready, count_errors, count_syncs, count_syncs-cons, count_ready-append, count_errors-append,
  IsPlain, bind-IsPlain, describe-IsPlain, execute-IsPlain, Parsed-cases,
}

-- What a step sends: one ReadyForQuery for a Sync and none for another message, and at most one
-- error, after which the exchange skips to the next Sync.
abbrev Sends : Bool → ClientMessage → Step → Type 0
Sends before m (go out stmt previous_err driver) =
    (count_ready out ≡ count_syncs (m ∷ []))
    × (count_errors out + (if before then 1 else 0) ≤ (if previous_err then 1 else 0))
Sends before m (exit out stmt driver ending) =
    (count_ready out ≡ count_syncs (m ∷ [])) × (count_errors out ≡ 0)

written-Sends :
    (m : ClientMessage) (h : Handled)
    → count_syncs (m ∷ []) ≡ 0
    → IsPlain h.messages
    → Sends false m (written false h)
written-Sends m h unsynced plain = ground arith

module _ (engine : Engine) (max_mb : ℕ) where
  dispatch-Sends :
      (stmt : PreparedStatement) (driver : Driver) (m : ClientMessage)
      → Sends false m (dispatch engine max_mb stmt false driver m)
  unfolding dispatch
  dispatch-Sends stmt driver (ClientMessage.bind b) =
      elim (Option-cases (handle_bind_query engine b stmt driver)) [
        | inl panic ↦ rw panic (ground arith)
        | inr (h, handled) ↦ rw handled (
            written-Sends (ClientMessage.bind b) h refl (bind-IsPlain engine b stmt driver handled))
      ]
  dispatch-Sends stmt driver (ClientMessage.describe object_type name) =
      written-Sends (ClientMessage.describe object_type name)
        (handle_describe_query engine object_type name stmt driver) refl
        (describe-IsPlain engine object_type name stmt driver)
  dispatch-Sends stmt driver (ClientMessage.execute portal) =
      written-Sends (ClientMessage.execute portal)
        (handle_execute_query engine max_mb portal stmt driver) refl
        (execute-IsPlain engine max_mb portal stmt driver)
  dispatch-Sends stmt driver ClientMessage.sync =
      elim (Bool-cases (finished false (drop_rows stmt driver).0)) [
        | inl done ↦ rw done (ground arith)
        | inr more ↦ rw more (ground arith)
      ]
  dispatch-Sends stmt driver _ = ground arith

  dispatch_nil-Sends :
      (before : Bool) (driver : Driver) (m : ClientMessage)
      → Sends before m (dispatch_nil engine max_mb before driver m)
  unfolding dispatch_nil
  dispatch_nil-Sends true driver ClientMessage.sync = ground arith
  dispatch_nil-Sends false driver ClientMessage.sync = ground arith
  dispatch_nil-Sends true driver _ = ground arith
  dispatch_nil-Sends false driver _ = ground arith

  step-Sends :
      (stmt : Option PreparedStatement) (before : Bool) (driver : Driver) (m : ClientMessage)
      → Sends before m (step engine max_mb stmt before driver m)
  unfolding step
  step-Sends none false driver m = dispatch_nil-Sends false driver m
  step-Sends (some stmt) false driver m = dispatch-Sends stmt driver m
  step-Sends none true driver ClientMessage.sync = dispatch_nil-Sends true driver ClientMessage.sync
  step-Sends none true driver ClientMessage.terminate =
      dispatch_nil-Sends true driver ClientMessage.terminate
  step-Sends none true driver _ = ground arith
  step-Sends (some stmt) true driver ClientMessage.sync = unfold dispatch in ground arith
  step-Sends (some stmt) true driver ClientMessage.terminate = unfold dispatch in ground arith
  step-Sends (some stmt) true driver _ = ground arith

  -- An exchange sends one ReadyForQuery for each Sync it receives, and at most one ErrorResponse.
  exchange-counts :
      (stmt : Option PreparedStatement) (before : Bool) (driver : Driver) (ms : List ClientMessage)
      → let e = exchange engine max_mb stmt before driver ms in
        (count_ready e.output + count_syncs e.rest ≡ count_syncs ms)
        × (count_errors e.output + (if before then 1 else 0) ≤ 1)
  unfolding exchange
  exchange-counts stmt true driver [] = ground arith
  exchange-counts stmt false driver [] = ground arith
  exchange-counts stmt before driver (m ∷ ms) =
      elim (Step-cases (step engine max_mb stmt before driver m)) [
        | inl (out, stmt', after, driver', e) ↦
            let sent : Sends before m (go out stmt' after driver') =
              rw e at (step-Sends stmt before driver m) in
            let later = exchange engine max_mb stmt' after driver' ms in
            rw (e, exchange)
              (ground (
                arith,
                sent,
                exchange-counts stmt' after driver' ms,
                count_ready-append out later.output,
                count_errors-append out later.output,
                count_syncs-cons m ms,
              ))
        | inr (out, stmt', driver', ending, e) ↦
            let sent : Sends before m (exit out stmt' driver' ending) =
              rw e at (step-Sends stmt before driver m) in
            rw (e, exchange) (ground (arith, sent, count_syncs-cons m ms))
      ]

parse-replies :
    (remapper : Remapper) (message : ParseMessage) {replies : List ServerMessage}
    {stmt : PreparedStatement}
    → handle_parse_query remapper message ≡ some (Results.ok (replies, stmt))
    → replies ≡ parse_complete ∷ []
unfolding handle_parse_query
parse-replies remapper message e = ground arith

-- Whatever the client sends after a Parse message, the exchange answers every Sync that it receives
-- by exactly one ReadyForQuery, sends no other, and sends at most one ErrorResponse.
pub extended_query-replies :
    (engine : Engine) (max_mb : ℕ) (remapper : Remapper) (driver : Driver) (message : ParseMessage)
    (messages : List ClientMessage)
    → let e = handle_extended_query engine max_mb remapper driver message messages in
      (count_ready e.output + count_syncs e.rest ≡ count_syncs messages)
      × (count_errors e.output ≤ 1)
unfolding handle_extended_query
extended_query-replies engine max_mb remapper driver message messages =
    elim (Parsed-cases (handle_parse_query remapper message)) [
      | inl e ↦ rw (e, handle_extended_query) (ground arith)
      | inr (inl ((replies, stmt), e)) ↦
          rw (e, handle_extended_query)
            (ground (
              arith,
              parse-replies remapper message e,
              exchange-counts engine max_mb (some stmt) false driver messages,
            ))
      | inr (inr (x, e)) ↦
          rw (e, handle_extended_query)
            (ground (arith, exchange-counts engine max_mb none true driver messages))
    ]
