-- ===== src/Wire/Exchange/Release.antt =====
-- src/postgres.go, handleExtendedQuery: what an exchange opens in DuckDB it closes.
use bemi_db.Prelude.{
  ◌&&◌, not, ℕ, ◌<◌, ◌≡◌, inl, inr, refl, String, List, [], ◌∷◌, Option, none, some, Bool, true,
  false, arith, All, Option-cases, Bool-cases,
}
use bemi_db.Wire.Engine.{Engine, Driver}
use bemi_db.Wire.Message.{
  ServerMessage, couldnt_execute, engine_error, ParseMessage, BindMessage, ClientMessage,
}
use bemi_db.Wire.Results as Results
use bemi_db.Wire.Statement.{PreparedStatement, drop_rows, close_nilable}
use bemi_db.Wire.Handlers.{
  Handled, describe_mismatch, Remapper, run_statement, describe_statement, handle_parse_query,
  handle_bind_query, handle_describe_query, handle_execute_query,
}
use bemi_db.Wire.Exchange.{
  Step, Step-cases, finished, is_sync, is_terminate, go, exit, written, close_named, dispatch,
  dispatch_nil, step, exchange, handle_extended_query,
}
use bemi_db.Wire.Exchange.Plain.{Parsed-cases}
use bemi_db.Wire.Exchange.Ownership.{
  Owns, IsReleased, drop_rows-Owns, close-IsReleased, close-Owns, run_statement-Owns,
  described-Owns, executed-Owns,
}

module _ (n : ℕ) (bs br : List ℕ) (fs : All (λ x. x < n) bs) (fr : All (λ x. x < n) br)
    (engine : Engine) (max_mb : ℕ) where
  abbrev Own : PreparedStatement → Driver → Type 0
  Own = Owns n bs br fs fr

  abbrev Released : Driver → Type 0
  Released = IsReleased n bs br fs fr

  bind-Owns :
      (b : BindMessage) (stmt : PreparedStatement) (driver : Driver) {h : Handled}
      → Own stmt driver
      → handle_bind_query engine b stmt driver ≡ some h
      → Own h.stmt h.driver
  unfolding handle_bind_query
  bind-Owns b stmt driver o e = ground (arith, drop_rows-Owns n bs br fs fr stmt driver o)

  describe_statement-Owns :
      (stmt : PreparedStatement) (driver : Driver)
      → Own stmt driver
      → stmt.rows ≡ none
      → Own
          (describe_statement engine stmt driver).stmt
          (describe_statement engine stmt driver).driver
  unfolding describe_statement
  describe_statement-Owns stmt driver o no_rows = ground (
    arith,
    described-Owns n bs br fs fr engine
        (run_statement engine stmt driver (λ e. couldnt_execute e stmt.original_query))
        (run_statement-Owns n bs br fs fr engine stmt driver
          (λ e. couldnt_execute e stmt.original_query) o no_rows),
  )

  describe-Owns :
      (object_type : ℕ) (name : String) (stmt : PreparedStatement) (driver : Driver)
      → Own stmt driver
      → let h = handle_describe_query engine object_type name stmt driver in Own h.stmt h.driver
  unfolding handle_describe_query
  describe-Owns object_type name stmt driver o =
      let dropped = drop_rows-Owns n bs br fs fr stmt driver o in
      let stmt' : PreparedStatement = record (drop_rows stmt driver).0 { described = true } in
      let owned : Own stmt' (drop_rows stmt driver).1 = record {
        later = dropped.later;
        statements = dropped.statements;
        rows = dropped.rows;
      } in
      elim (Option-cases (describe_mismatch engine object_type name (drop_rows stmt driver).0)) [
        | inl matched ↦
            rw (matched, handle_describe_query)
              (describe_statement-Owns stmt' (drop_rows stmt driver).1 owned
                (unfold drop_rows in refl))
        | inr (e, mismatch) ↦ rw (mismatch, handle_describe_query) dropped
      ]

  execute-Owns :
      (portal : String) (stmt : PreparedStatement) (driver : Driver)
      → Own stmt driver
      → let h = handle_execute_query engine max_mb portal stmt driver in Own h.stmt h.driver
  unfolding handle_execute_query
  execute-Owns portal stmt driver o = elim (Option-cases stmt.rows) [
    | inl no_rows ↦ ground (
      arith,
      executed-Owns n bs br fs fr engine max_mb (run_statement engine stmt driver engine_error)
          (run_statement-Owns n bs br fs fr engine stmt driver engine_error o no_rows),
    )
    | inr (h, rows) ↦
        ground (arith, executed-Owns n bs br fs fr engine max_mb (none, stmt, driver) o)
  ]

  -- What holds of the state after a step, or after the deferred Close of an exit.
  abbrev OwnNilable : Option PreparedStatement → Driver → Type 0
  OwnNilable none driver = Released driver
  OwnNilable (some stmt) driver = Own stmt driver

  abbrev Keeps : Step → Type 0
  Keeps (go out stmt e driver) = OwnNilable stmt driver
  Keeps (exit out stmt driver ending) = OwnNilable stmt driver

  written-Keeps : (before : Bool) (h : Handled) → Own h.stmt h.driver → Keeps (written before h)
  written-Keeps before h o = elim (Option-cases h.error) [
    | inl fine ↦ rw fine o
    | inr (e, failed) ↦ rw failed o
  ]

  close_named-Owns :
      (object_type : ℕ) (name : String) (stmt : PreparedStatement) (driver : Driver)
      → Own stmt driver
      → Own
          (close_named object_type name stmt driver).0
          (close_named object_type name stmt driver).1
  unfolding close_named
  close_named-Owns object_type name stmt driver o =
      ground
        (arith, close-Owns n bs br fs fr stmt driver o, drop_rows-Owns n bs br fs fr stmt driver o)

  dispatch-Keeps :
      (stmt : PreparedStatement) (before : Bool) (driver : Driver) (m : ClientMessage)
      → Own stmt driver
      → Keeps (dispatch engine max_mb stmt before driver m)
  unfolding dispatch
  dispatch-Keeps stmt before driver (ClientMessage.bind b) o =
      elim (Option-cases (handle_bind_query engine b stmt driver)) [
        | inl panic ↦ rw panic o
        | inr (h, handled) ↦ rw handled (written-Keeps before h (bind-Owns b stmt driver o handled))
      ]
  dispatch-Keeps stmt before driver (ClientMessage.describe object_type name) o =
      written-Keeps before (handle_describe_query engine object_type name stmt driver)
        (describe-Owns object_type name stmt driver o)
  dispatch-Keeps stmt before driver (ClientMessage.execute portal) o =
      written-Keeps before (handle_execute_query engine max_mb portal stmt driver)
        (execute-Owns portal stmt driver o)
  dispatch-Keeps stmt before driver (ClientMessage.close object_type name) o =
      close_named-Owns object_type name stmt driver o
  dispatch-Keeps stmt before driver ClientMessage.sync o =
      elim (Bool-cases (finished before (drop_rows stmt driver).0)) [
        | inl done ↦ rw done (drop_rows-Owns n bs br fs fr stmt driver o)
        | inr more ↦ rw more (drop_rows-Owns n bs br fs fr stmt driver o)
      ]
  dispatch-Keeps stmt before driver _ o = o

  dispatch_nil-Keeps :
      (before : Bool) (driver : Driver) (m : ClientMessage)
      → Released driver
      → Keeps (dispatch_nil engine max_mb before driver m)
  unfolding dispatch_nil
  dispatch_nil-Keeps true driver ClientMessage.sync r = r
  dispatch_nil-Keeps false driver ClientMessage.sync r = r
  dispatch_nil-Keeps before driver _ r = r

  step-Keeps :
      (stmt : Option PreparedStatement) (before : Bool) (driver : Driver) (m : ClientMessage)
      → OwnNilable stmt driver
      → Keeps (step engine max_mb stmt before driver m)
  unfolding step
  step-Keeps none before driver m r =
      elim (Bool-cases (before && (not (is_sync m) && not (is_terminate m)))) [
        | inl skip ↦ rw skip r
        | inr run ↦ rw run (dispatch_nil-Keeps before driver m r)
      ]
  step-Keeps (some stmt) before driver m o =
      elim (Bool-cases (before && (not (is_sync m) && not (is_terminate m)))) [
        | inl skip ↦ rw skip o
        | inr run ↦ rw run (dispatch-Keeps stmt before driver m o)
      ]

  close_nilable-Released :
      (stmt : Option PreparedStatement) (driver : Driver)
      → OwnNilable stmt driver
      → Released (close_nilable stmt driver)
  close_nilable-Released none driver r = r
  close_nilable-Released (some stmt) driver o = close-IsReleased n bs br fs fr stmt driver o

  pub exchange-Released :
      (stmt : Option PreparedStatement) (before : Bool) (driver : Driver) (ms : List ClientMessage)
      → OwnNilable stmt driver
      → Released (exchange engine max_mb stmt before driver ms).driver
  unfolding exchange
  exchange-Released stmt before driver [] o = close_nilable-Released stmt driver o
  exchange-Released stmt before driver (m ∷ ms) o =
      elim (Step-cases (step engine max_mb stmt before driver m)) [
        | inl (out, stmt', after, driver', e) ↦
            let kept : Keeps (go out stmt' after driver') =
              rw e at (step-Keeps stmt before driver m o) in
            rw (e, exchange) (exchange-Released stmt' after driver' ms kept)
        | inr (out, stmt', driver', ending, e) ↦
            let kept : Keeps (exit out stmt' driver' ending) =
              rw e at (step-Keeps stmt before driver m o) in
            rw (e, exchange) (close_nilable-Released stmt' driver' kept)
      ]

parse-unplanned :
    (remapper : Remapper) (message : ParseMessage) {replies : List ServerMessage}
    {stmt : PreparedStatement}
    → handle_parse_query remapper message ≡ some (Results.ok (replies, stmt))
    → (stmt.statement ≡ none) × (stmt.rows ≡ none)
unfolding handle_parse_query
parse-unplanned remapper message e = ground arith

-- However an exchange ends (Sync, a lost connection, Terminate or a panic), the statements and
-- results that it has opened are closed: those open at its end are those that were open before it,
-- given that their numbers are those of earlier calls.
pub extended_query-releases :
    (engine : Engine) (max_mb : ℕ) (remapper : Remapper) (driver : Driver) (message : ParseMessage)
    (messages : List ClientMessage)
    → All (λ h. h < driver.next) driver.open_statements
    → All (λ h. h < driver.next) driver.open_rows
    → let e = handle_extended_query engine max_mb remapper driver message messages in
      (e.driver.open_statements ≡ driver.open_statements) × (e.driver.open_rows ≡ driver.open_rows)
unfolding handle_extended_query
extended_query-releases engine max_mb remapper driver message messages fs fr =
    elim (Parsed-cases (handle_parse_query remapper message)) [
      | inl e ↦ rw (e, handle_extended_query) (refl, refl)
      | inr (inl ((replies, stmt), e)) ↦
          let unplanned = parse-unplanned remapper message e in
          let released =
            exchange-Released driver.next driver.open_statements driver.open_rows fs fr engine
              max_mb (some stmt) false driver messages
              (record {
                later = omega arith;
                statements = rw unplanned.0 refl;
                rows = rw unplanned.1 refl;
              }) in
          rw (e, handle_extended_query) (released.statements, released.rows)
      | inr (inr (x, e)) ↦
          let released =
            exchange-Released driver.next driver.open_statements driver.open_rows fs fr engine
              max_mb none true driver messages
              (record { later = omega arith; statements = refl; rows = refl }) in
          rw (e, handle_extended_query) (released.statements, released.rows)
    ]
