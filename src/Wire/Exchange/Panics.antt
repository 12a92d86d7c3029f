-- ===== src/Wire/Exchange/Panics.antt =====
-- src/postgres.go, handleExtendedQuery: when an exchange panics, which ends the server, since the
-- goroutine of a connection does not recover (src/main.go).
use bemi_db.Prelude.{
  ℕ, ◌≤◌, ◌<◌, ◌≡◌, ◌≢◌, ◌↔◌, refl, inl, inr, String, List, [], ◌∷◌, map, Option, none, some, Bool,
  true, false, not, ◌&&◌, string_eq, arith, length, get_elem?, All, Bool-cases, Option-cases,
}
use text.Mathlib.TextEquality.{eq_iff}
use bemi_db.Wire.Engine.{Engine, Driver, Byte}
use bemi_db.Wire.Message.{ParseMessage, BindMessage, ClientMessage}
use bemi_db.Wire.Statement.{PreparedStatement, drop_rows}
use bemi_db.Wire.Handlers.{Handled, Remapper, handle_parse_query, handle_bind_query}
use bemi_db.Wire.Handlers.Parameters.{
  CoversFrom, bound_variables-ne-panicked, bound_variables-panics,
}
use bemi_db.Wire.Exchange.{
  panicked, Step, Step-cases, go, exit, written, finished, is_sync, is_terminate, dispatch,
  dispatch_nil, step, exchange, handle_extended_query,
}
use bemi_db.Wire.Exchange.Plain.{Parsed-cases}

-- A Bind message has no format codes, one for all parameters, or one for each.
abbrev pub IsCovered : ClientMessage → Type 0
IsCovered (ClientMessage.bind b) = CoversFrom b.parameter_format_codes 0 b.parameters
IsCovered _ = Unit

module _ (engine : Engine) (max_mb : ℕ) where
  bind-ne-none :
      (b : BindMessage) (stmt : PreparedStatement) (driver : Driver)
      → CoversFrom b.parameter_format_codes 0 b.parameters
      → handle_bind_query engine b stmt driver ≢ none
  unfolding handle_bind_query
  bind-ne-none b stmt driver h = ground (
    arith,
    bound_variables-ne-panicked engine (drop_rows stmt driver).0 b.parameter_format_codes 0
        b.parameters h,
  )

  -- A statement is nil only after an error, and no step panics.
  abbrev Safe : Step → Type 0
  Safe (go out none before driver) = before ≡ true
  Safe (go out (some stmt) before driver) = Unit
  Safe (exit out stmt driver ending) = ending ≢ panicked

  written-Safe : (before : Bool) (h : Handled) → Safe (written before h)
  written-Safe before h = elim (Option-cases h.error) [
    | inl fine ↦ rw fine tt
    | inr (e, failed) ↦ rw failed tt
  ]

  dispatch-Safe :
      (stmt : PreparedStatement) (before : Bool) (driver : Driver) (m : ClientMessage)
      → IsCovered m
      → Safe (dispatch engine max_mb stmt before driver m)
  unfolding dispatch
  dispatch-Safe stmt before driver (ClientMessage.bind b) c =
      elim (Option-cases (handle_bind_query engine b stmt driver)) [
        | inl panic ↦ absurd (bind-ne-none b stmt driver c panic)
        | inr (h, handled) ↦ rw handled (written-Safe before h)
      ]
  dispatch-Safe stmt before driver (ClientMessage.describe object_type name) c =
      written-Safe before _
  dispatch-Safe stmt before driver (ClientMessage.execute portal) c = written-Safe before _
  dispatch-Safe stmt before driver ClientMessage.sync c =
      elim (Bool-cases (finished before (drop_rows stmt driver).0)) [
        | inl done ↦ rw done (λ e. cc)
        | inr more ↦ rw more tt
      ]
  dispatch-Safe stmt before driver ClientMessage.terminate c = λ e. cc
  dispatch-Safe stmt before driver _ c = tt

  step-Safe :
      (stmt : Option PreparedStatement) (before : Bool) (driver : Driver) (m : ClientMessage)
      → IsCovered m
      → Safe (go [] stmt before driver)
      → Safe (step engine max_mb stmt before driver m)
  unfolding step
  step-Safe (some stmt) before driver m c s =
      elim (Bool-cases (before && (not (is_sync m) && not (is_terminate m)))) [
        | inl skip ↦ rw skip tt
        | inr run ↦ rw run (dispatch-Safe stmt before driver m c)
      ]
  step-Safe none true driver ClientMessage.sync c s = unfold dispatch_nil in λ e. cc
  step-Safe none true driver ClientMessage.terminate c s = unfold dispatch_nil in λ e. cc
  step-Safe none true driver _ c s = refl
  step-Safe none false driver m c s = absurd (ground arith)

  exchange-ne-panicked :
      (stmt : Option PreparedStatement) (before : Bool) (driver : Driver) (ms : List ClientMessage)
      → All IsCovered ms
      → Safe (go [] stmt before driver)
      → (exchange engine max_mb stmt before driver ms).ending ≢ panicked
  unfolding exchange
  exchange-ne-panicked stmt before driver [] c s = λ e. cc
  exchange-ne-panicked stmt before driver (m ∷ ms) c s =
      elim (Step-cases (step engine max_mb stmt before driver m)) [
        | inl (out, stmt', after, driver', e) ↦
            let safe : Safe (go out stmt' after driver') =
              rw e at (step-Safe stmt before driver m c.0 s) in
            rw (e, exchange) (exchange-ne-panicked stmt' after driver' ms c.1 safe)
        | inr (out, stmt', driver', ending, e) ↦
            let safe : Safe (exit out stmt' driver' ending) =
              rw e at (step-Safe stmt before driver m c.0 s) in
            rw (e, exchange) safe
      ]

  parse_ends_iff :
      (remapper : Remapper) (message : ParseMessage)
      → (handle_parse_query remapper message ≡ none)
        ↔ (remapper.parse_and_remap_query message.query ≡ none)
  unfolding handle_parse_query
  parse_ends_iff remapper message = ground arith

  -- If each Bind message has at most one format code or at least as many as parameters, then an
  -- exchange ends the process exactly when the remapper does so for the query of its Parse message:
  -- the nil statement that a Parse error leaves is never dereferenced, whatever follows.
  pub extended_query-panicked_iff :
      (remapper : Remapper) (driver : Driver) (message : ParseMessage)
      (messages : List ClientMessage)
      → All IsCovered messages
      → ((handle_extended_query engine max_mb remapper driver message messages).ending ≡ panicked)
        ↔ (remapper.parse_and_remap_query message.query ≡ none)
  unfolding handle_extended_query
  extended_query-panicked_iff remapper driver message messages c =
      let ends = parse_ends_iff remapper message in
      elim (Parsed-cases (handle_parse_query remapper message)) [
        | inl e ↦ rw (e, handle_extended_query) ((λ p. ends.0 e), (λ p. refl))
        | inr (inl ((replies, stmt), e)) ↦
            rw (e, handle_extended_query)
              (
                (λ p. absurd (exchange-ne-panicked (some stmt) false driver messages c tt p)),
                (λ p. cc (e, ends.1 p)),
              )
        | inr (inr (x, e)) ↦
            rw (e, handle_extended_query)
              (
                (λ p. absurd (exchange-ne-panicked none true driver messages c refl p)),
                (λ p. cc (e, ends.1 p)),
              )
      ]

  -- A Bind for the statement of the exchange panics when it has two format codes or more, all for
  -- text, and more parameters than format codes, and none of the parameters is NULL.
  pub bind-panics :
      (stmt : PreparedStatement) (driver : Driver) (ms : List ClientMessage) (portal : String)
      (codes : List ℕ) (ps : List (List Byte))
      → 2 ≤ length codes
      → ((j : ℕ) → j < length codes → get_elem? codes j ≡ some 0)
      → length codes < length ps
      → (exchange engine max_mb (some stmt) false driver (
          ClientMessage.bind (record {
            destination_portal = portal;
            prepared_statement = stmt.name;
            parameter_format_codes = codes;
            parameters = map some ps;
          })
          ∷ ms)).ending
        ≡ panicked
  unfolding exchange step dispatch handle_bind_query drop_rows
  bind-panics stmt driver ms portal codes ps two texts more = ground (
    arith,
    eq_iff stmt.name stmt.name,
    bound_variables-panics engine (drop_rows stmt driver).0 codes 0 ps two texts (omega arith)
        (omega arith),
  )
