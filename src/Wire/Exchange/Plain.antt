-- ===== src/Wire/Exchange/Plain.antt =====
-- src/query_handler.go: the handlers' messages hold neither ReadyForQuery nor ErrorResponse.
use bemi_db.Prelude.{
  ℕ, zero, suc, ◌+◌, ◌≡◌, refl, ◌⊎◌, inl, inr, String, List, [], ◌∷◌, ◌++◌, Option, none, some,
  true, arith, Option-cases,
}
use bemi_db.Wire.Engine.{ColumnType, Engine, Driver}
use bemi_db.Wire.Message.{
  couldnt_execute, engine_error, HandlerError, BindMessage, ClientMessage, ServerMessage,
  ready_for_query, data_row, command_complete, error_response,
}
use bemi_db.Wire.Results as Results
use bemi_db.Wire.Results.{
  Fallible, row_cost, columns_of, with_command_complete, command_tag, data_rows, generate_data_row,
  rows_to_data_messages, rows_to_description_messages,
}
use bemi_db.Wire.Statement.{drop_rows, PreparedStatement}
use bemi_db.Wire.Handlers.{
  Handled, run_statement, described, executed, describe_statement, handle_bind_query,
  handle_describe_query, handle_execute_query,
}

abbrev pub count_ready : List ServerMessage → ℕ
count_ready [] = 0
count_ready (ready_for_query ∷ ms) = suc (count_ready ms)
count_ready (_ ∷ ms) = count_ready ms

abbrev pub count_errors : List ServerMessage → ℕ
count_errors [] = 0
count_errors (error_response _ ∷ ms) = suc (count_errors ms)
count_errors (_ ∷ ms) = count_errors ms

abbrev pub count_syncs : List ClientMessage → ℕ
count_syncs [] = 0
count_syncs (ClientMessage.sync ∷ ms) = suc (count_syncs ms)
count_syncs (_ ∷ ms) = count_syncs ms

pub count_syncs-cons :
    (m : ClientMessage) (ms : List ClientMessage)
    → count_syncs (m ∷ ms) ≡ count_syncs (m ∷ []) + count_syncs ms
count_syncs-cons ClientMessage.sync ms = omega arith
count_syncs-cons _ ms = omega arith

pub count_ready-append :
    (xs ys : List ServerMessage) → count_ready (xs ++ ys) ≡ count_ready xs + count_ready ys
count_ready-append [] ys = omega arith
count_ready-append (x ∷ xs) ys = ground (arith, count_ready-append xs ys)

pub count_errors-append :
    (xs ys : List ServerMessage) → count_errors (xs ++ ys) ≡ count_errors xs + count_errors ys
count_errors-append [] ys = omega arith
count_errors-append (x ∷ xs) ys = ground (arith, count_errors-append xs ys)

-- Neither ReadyForQuery nor ErrorResponse.
pub record IsPlain (ms : List ServerMessage) : Type 0 where
  pub no_ready : count_ready ms ≡ 0
  pub no_errors : count_errors ms ≡ 0

IsPlain-snoc :
    (ms : List ServerMessage) (m : ServerMessage)
    → IsPlain ms
    → IsPlain (m ∷ [])
    → IsPlain (ms ++ (m ∷ []))
IsPlain-snoc ms m h k =
    ground (arith, count_ready-append ms (m ∷ []), count_errors-append ms (m ∷ []))

Fallible-cases {ℓ} :
    {A : Type ℓ} (r : Fallible A)
    → ((a : A) × (r ≡ Results.ok a)) ⊎ ((e : HandlerError) × (r ≡ Results.err e))
Fallible-cases (Results.ok a) = inl (a, refl)
Fallible-cases (Results.err e) = inr (e, refl)

-- What the handler of a Parse message gives: it may end the process.
pub Parsed-cases {ℓ} :
    {A : Type ℓ} (p : Option (Fallible A))
    → (p ≡ none)
      ⊎ (((a : A) × (p ≡ some (Results.ok a))) ⊎ ((e : HandlerError) × (p ≡ some (Results.err e))))
Parsed-cases none = inl refl
Parsed-cases (some (Results.ok a)) = inr (inl (a, refl))
Parsed-cases (some (Results.err e)) = inr (inr (e, refl))

module _ (engine : Engine) where
  data_rows-IsPlain :
      (max_mb rows : ℕ) (cols : List ColumnType) (query : String) (left i : ℕ)
      (messages : List ServerMessage) (n : ℕ) {ms : List ServerMessage}
      → IsPlain messages
      → (data_rows engine max_mb rows cols query left i messages n).0 ≡ Results.ok ms
      → IsPlain ms
  unfolding data_rows
  data_rows-IsPlain max_mb rows cols query zero i messages n h e = ground arith
  data_rows-IsPlain max_mb rows cols query (suc left) i messages n {ms} h e =
      elim (Option-cases (generate_data_row engine rows i cols)) [
        | inl unread ↦ ground arith
        | inr (values, row) ↦ ground (
          arith,
          IsPlain-snoc messages (data_row values) h (record { no_ready = refl; no_errors = refl }),
          data_rows-IsPlain max_mb rows cols query left (i + 1) (messages ++ (data_row values ∷ []))
              n {ms = ms},
          data_rows-IsPlain max_mb rows cols query left (i + 1) (messages ++ (data_row values ∷ []))
              (n + row_cost values) {ms = ms},
        )
      ]

  with_command_complete-IsPlain :
      (query : String) (r : Fallible (List ServerMessage) × ℕ) {ms : List ServerMessage}
      → ((messages : List ServerMessage) → r.0 ≡ Results.ok messages → IsPlain messages)
      → (with_command_complete query r).0 ≡ Results.ok ms
      → IsPlain ms
  with_command_complete-IsPlain query (Results.ok messages, n) h e = ground (
    arith,
    IsPlain-snoc messages (command_complete (command_tag query)) (h messages refl)
        (record { no_ready = refl; no_errors = refl }),
  )
  with_command_complete-IsPlain query (Results.err x, n) h e = cc

  rows_to_data_messages-IsPlain :
      (max_mb : ℕ) (driver : Driver) (rows : ℕ) (query : String) (n : ℕ) {ms : List ServerMessage}
      → (rows_to_data_messages engine max_mb driver rows query n).0 ≡ Results.ok ms
      → IsPlain ms
  unfolding rows_to_data_messages
  rows_to_data_messages-IsPlain max_mb driver rows query n {ms} e =
      elim (Option-cases (columns_of engine driver rows)) [
        | inl unreadable ↦ ground arith
        | inr (cols, readable) ↦
            let loop : Fallible (List ServerMessage) × ℕ =
              data_rows engine max_mb rows cols query (engine.row_count rows) 0 [] n in
            ground (
              arith,
              with_command_complete-IsPlain query loop {ms = ms} (λ messages r.
                  data_rows-IsPlain max_mb rows cols query (engine.row_count rows) 0 [] n
                    (record { no_ready = refl; no_errors = refl }) r),
            )
      ]

  rows_to_description_messages-IsPlain :
      (driver : Driver) (rows : ℕ) (query : String) {ms : List ServerMessage}
      → rows_to_description_messages engine driver rows query ≡ Results.ok ms
      → IsPlain ms
  unfolding rows_to_description_messages
  rows_to_description_messages-IsPlain driver rows query e = ground arith

  pub bind-IsPlain :
      (b : BindMessage) (stmt : PreparedStatement) (driver : Driver) {h : Handled}
      → handle_bind_query engine b stmt driver ≡ some h
      → IsPlain h.messages
  unfolding handle_bind_query
  bind-IsPlain b stmt driver e = ground arith

  described-IsPlain :
      (r : Option HandlerError × PreparedStatement × Driver) → IsPlain (described engine r).messages
  unfolding described
  described-IsPlain (some e, stmt, driver) = ground arith
  described-IsPlain (none, stmt, driver) = elim (Option-cases stmt.rows) [
    | inl none_open ↦ rw none_open (ground arith)
    | inr (h, rows) ↦
        elim (Fallible-cases (rows_to_description_messages engine driver h stmt.original_query)) [
          | inl (ms, e) ↦
              ground (arith, rows_to_description_messages-IsPlain driver h stmt.original_query e)
          | inr (x, e) ↦ ground arith
        ]
  ]

  describe_statement-IsPlain :
      (stmt : PreparedStatement) (driver : Driver)
      → IsPlain (describe_statement engine stmt driver).messages
  unfolding describe_statement
  describe_statement-IsPlain stmt driver = ground (
    arith,
    described-IsPlain
        (run_statement engine stmt driver (λ e. couldnt_execute e stmt.original_query)),
  )

  pub describe-IsPlain :
      (object_type : ℕ) (name : String) (stmt : PreparedStatement) (driver : Driver)
      → IsPlain (handle_describe_query engine object_type name stmt driver).messages
  unfolding handle_describe_query
  describe-IsPlain object_type name stmt driver =
      let (stmt', driver') = drop_rows stmt driver in
      ground (arith, describe_statement-IsPlain (record stmt' { described = true }) driver')

  executed-IsPlain :
      (max_mb : ℕ) (r : Option HandlerError × PreparedStatement × Driver)
      → IsPlain (executed engine max_mb r).messages
  unfolding executed
  executed-IsPlain max_mb (some e, stmt, driver) = ground arith
  executed-IsPlain max_mb (none, stmt, driver) = elim (Option-cases stmt.rows) [
    | inl none_open ↦ rw none_open (ground arith)
    | inr (h, rows) ↦
        elim (Fallible-cases
          (rows_to_data_messages engine max_mb driver h stmt.original_query 0).0) [
            | inl (ms, e) ↦
                ground
                  (arith, rows_to_data_messages-IsPlain max_mb driver h stmt.original_query 0 e)
            | inr (x, e) ↦ ground arith
          ]
  ]

  pub execute-IsPlain :
      (max_mb : ℕ) (portal : String) (stmt : PreparedStatement) (driver : Driver)
      → IsPlain (handle_execute_query engine max_mb portal stmt driver).messages
  unfolding handle_execute_query
  execute-IsPlain max_mb portal stmt driver = ground (
    arith,
    executed-IsPlain max_mb (none, stmt, driver),
    executed-IsPlain max_mb (run_statement engine stmt driver engine_error),
  )
