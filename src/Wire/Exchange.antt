-- ===== src/Wire/Exchange.antt =====
-- src/postgres.go, handleExtendedQuery: one exchange of the extended query protocol, from its Parse
-- message to the Sync that ends it.
pub mod Plain
pub mod Replies
pub mod Ownership
pub mod Release
pub mod Skip
pub mod Panics
use bemi_db.Prelude.{
  ◌≡◌, refl, ◌⊎◌, inl, inr, ℕ, String, List, [], ◌∷◌, ◌++◌, Option, none, some, Bool, true, false,
  not, ◌&&◌, ◌||◌, ◌==◌, nat_eq, string_eq, if◌then◌else◌,
}
use bemi_db.Wire.Engine.{Engine, Driver}
use bemi_db.Wire.Message.{
  ParseMessage, ClientMessage, HandlerError, ServerMessage, close_complete, ready_for_query,
  error_response,
}
use bemi_db.Wire.Results as Results
use bemi_db.Wire.Statement.{PreparedStatement, drop_rows, close, close_nilable}
use bemi_db.Wire.Handlers.{
  Handled, Remapper, handle_parse_query, handle_bind_query, handle_describe_query,
  handle_execute_query,
}

pub data Ending : Type 0 where
  -- Sync has ended the exchange, and the connection goes on
  synced : Ending
  -- Receive has failed, or the client has terminated: the connection ends
  connection_lost terminated : Ending
  -- a Go panic, which ends the process, or an exit of the remapper, which does so too
  panicked : Ending

-- What one message does: the loop goes on with a new state, or ends.
pub data Step : Type 0 where
  go : List ServerMessage → Option PreparedStatement → Bool → Driver → Step
  exit : List ServerMessage → Option PreparedStatement → Driver → Ending → Step

-- To split on what a message does and keep the equation.
pub Step-cases :
    (s : Step)
    → ((out : List ServerMessage) × (stmt : Option PreparedStatement) × (e : Bool) × (d : Driver)
        × (s ≡ go out stmt e d))
      ⊎ ((out : List ServerMessage) × (stmt : Option PreparedStatement) × (d : Driver)
          × (ending : Ending) × (s ≡ exit out stmt d ending))
Step-cases (go out stmt e d) = inl (out, stmt, e, d, refl)
Step-cases (exit out stmt d ending) = inr (out, stmt, d, ending, refl)

pub record Exit : Type 0 where
  pub output : List ServerMessage
  pub driver : Driver
  pub ending : Ending
  -- the messages that have not been received
  pub rest : List ClientMessage

abbrev pub is_sync : ClientMessage → Bool
is_sync ClientMessage.sync = true
is_sync _ = false

abbrev pub is_terminate : ClientMessage → Bool
is_terminate ClientMessage.terminate = true
is_terminate _ = false

-- `if err != nil { writeErrorResponse(err); previousErr = err }`, and the handler's messages.
abbrev pub written : Bool → Handled → Step
written previous_err h = elim h.error [
  | some e ↦ go (error_response e ∷ h.messages) (some h.stmt) true h.driver
  | none ↦ go h.messages (some h.stmt) previous_err h.driver
]

abbrev pub written_or_panic : PreparedStatement → Bool → Driver → Option Handled → Step
written_or_panic stmt previous_err driver none = exit [] (some stmt) driver panicked
written_or_panic stmt previous_err driver (some h) = written previous_err h

-- Close of a statement or a portal, by name.
unfoldable pub close_named : ℕ → String → PreparedStatement → Driver → PreparedStatement × Driver
close_named object_type name stmt driver =
    if object_type == b'S'
    then (if name == stmt.name then close stmt driver else (stmt, driver))
    else if name == stmt.portal
    then drop_rows stmt driver
    else (stmt, driver)

abbrev pub finished : Bool → PreparedStatement → Bool
finished previous_err stmt = previous_err || (stmt.bound || stmt.described)

module _ (engine : Engine) (max_result_mb : ℕ) where
  -- The switch, for a statement that is not nil and a message that is not skipped.
  unfoldable pub dispatch : PreparedStatement → Bool → Driver → ClientMessage → Step
  unfolding close_named
  dispatch stmt previous_err driver (ClientMessage.bind b) =
      written_or_panic stmt previous_err driver (handle_bind_query engine b stmt driver)
  dispatch stmt previous_err driver (ClientMessage.describe object_type name) =
      written previous_err (handle_describe_query engine object_type name stmt driver)
  dispatch stmt previous_err driver (ClientMessage.execute portal) =
      written previous_err (handle_execute_query engine max_result_mb portal stmt driver)
  dispatch stmt previous_err driver (ClientMessage.close object_type name) =
      let (stmt', driver') = close_named object_type name stmt driver in
      go (close_complete ∷ []) (some stmt') previous_err driver'
  dispatch stmt previous_err driver ClientMessage.sync =
      let (stmt', driver') = drop_rows stmt driver in
      if finished previous_err stmt'
      then exit (ready_for_query ∷ []) (some stmt') driver' synced
      else go (ready_for_query ∷ []) (some stmt') previous_err driver'
  dispatch stmt previous_err driver ClientMessage.terminate = exit [] (some stmt) driver terminated
  dispatch stmt previous_err driver _ = go [] (some stmt) previous_err driver

  -- The switch for the nil statement that a Parse error leaves: the handlers dereference it.
  unfoldable pub dispatch_nil : Bool → Driver → ClientMessage → Step
  dispatch_nil true driver ClientMessage.sync = exit (ready_for_query ∷ []) none driver synced
  dispatch_nil false driver ClientMessage.sync = exit (ready_for_query ∷ []) none driver panicked
  dispatch_nil previous_err driver ClientMessage.terminate = exit [] none driver terminated
  dispatch_nil previous_err driver (ClientMessage.query _) = go [] none previous_err driver
  dispatch_nil previous_err driver (ClientMessage.parse _) = go [] none previous_err driver
  dispatch_nil previous_err driver ClientMessage.other = go [] none previous_err driver
  dispatch_nil previous_err driver _ = exit [] none driver panicked

  abbrev pub dispatch_nilable : Option PreparedStatement → Bool → Driver → ClientMessage → Step
  dispatch_nilable none previous_err driver m = dispatch_nil previous_err driver m
  dispatch_nilable (some stmt) previous_err driver m = dispatch stmt previous_err driver m

  -- One message, with the skip to Sync after an error.
  unfoldable pub step : Option PreparedStatement → Bool → Driver → ClientMessage → Step
  step stmt previous_err driver m =
      if previous_err && (not (is_sync m) && not (is_terminate m))
      then go [] stmt previous_err driver
      else dispatch_nilable stmt previous_err driver m

  -- The loop, and the deferred Close on every way out.
  unfoldable pub exchange : Option PreparedStatement → Bool → Driver → List ClientMessage → Exit
  exchange stmt previous_err driver [] = record {
    output = [];
    driver = close_nilable stmt driver;
    ending = connection_lost;
    rest = [];
  }
  exchange stmt previous_err driver (m ∷ messages) = elim (step stmt previous_err driver m) [
    | exit output stmt' driver' ending ↦ record {
      output = output;
      driver = close_nilable stmt' driver';
      ending = ending;
      rest = messages;
    }
    | go output stmt' previous_err' driver' ↦
        let later = exchange stmt' previous_err' driver' messages in
        record later { output = output ++ later.output }
  ]

  unfoldable pub handle_extended_query :
      Remapper → Driver → ParseMessage → List ClientMessage → Exit
  handle_extended_query remapper driver message messages =
      elim (handle_parse_query remapper message) [
        | none ↦ record { output = []; driver = driver; ending = panicked; rest = messages }
        | some (Results.err e) ↦
            let later = exchange none true driver messages in
            record later { output = error_response e ∷ later.output }
        | some (Results.ok (replies, stmt)) ↦
            let later = exchange (some stmt) false driver messages in
            record later { output = replies ++ later.output }
      ]
