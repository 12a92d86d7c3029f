-- ===== src/Wire/Simple.antt =====
-- src/query_handler.go, HandleSimpleQuery, and src/postgres.go, handleSimpleQuery. The queries of one
-- message share a byte budget, and their rows are closed when the handler returns. The handler calls
-- itself with a query that DuckDB is known to run; how often is the fuel.
pub mod Release
pub mod Safety
mod Examples
use bemi_db.Prelude.{
  ◌≡◌, refl, ℕ, zero, suc, ◌+◌, String, List, [], ◌∷◌, ◌++◌, Option, none, some, Bool, true, false,
  ◌==◌, string_eq, if◌then◌else◌, ltb,
}
use bemi_db.Wire.Engine.{Engine, Driver}
use bemi_db.Wire.Message.{
  HandlerError, engine_error, ServerMessage, empty_query_response, error_response, ready_for_query,
}
use bemi_db.Wire.Results.{Fallible, rows_to_description_messages, rows_to_data_messages}
use bemi_db.Wire.Results as Results
use bemi_db.Wire.Statement.{close_rows, open_result}

pub data SimpleResult : Type 0 where
  sent : List ServerMessage → SimpleResult
  failed : HandlerError → SimpleResult
  -- an index out of range, or the end of the process in the remapper
  panicked : SimpleResult
  -- the model has no fuel left
  endless : SimpleResult

-- ParseAndRemapQuery: the queries and the original ones, and `none` where it ends the process; db.QueryContext: the error, if it fails; and
-- the length of messages as pgproto3 encodes them.
pub record SimpleEngine : Type 0 where
  pub parse_and_remap : String → Option (Results.Fallible (List String × List String))
  pub query_rows : ℕ → String → Option String
  pub encoded_messages_bytes : List ServerMessage → ℕ

abbrev pub fallback_sql_query : String
fallback_sql_query = "SELECT 1"

abbrev pub unnest_error : String
unnest_error = "Binder Error: UNNEST requires a single list as input"

-- The deferred calls, the last one first.
unfoldable pub close_all : List ℕ → Driver → Driver
unfolding close_rows
close_all [] driver = driver
close_all (h ∷ opened) driver = close_all opened (close_rows h driver)

abbrev pub ended : SimpleResult → List ℕ → Driver → SimpleResult × Driver
ended r opened driver = (r, close_all opened driver)

abbrev pub tail : List String → List String
tail [] = []
tail (x ∷ xs) = xs

-- What is done with the messages of a query that is answered by the handler itself.
abbrev pub also_sent :
    (List ServerMessage → Driver → SimpleResult × Driver)
    → List ℕ
    → SimpleResult × Driver
    → SimpleResult × Driver
also_sent k opened (sent messages, driver) = k messages driver
also_sent k opened (r, driver) = ended r opened driver

-- What follows messages, unless they are an error.
abbrev pub and_then :
    (List ServerMessage → SimpleResult × Driver)
    → List ℕ
    → Driver
    → Fallible (List ServerMessage)
    → SimpleResult × Driver
and_then k opened driver (Results.ok messages) = k messages
and_then k opened driver (Results.err e) = ended (failed e) opened driver

-- The answer to one error is that of the fallback.
abbrev pub by_error :
    Option String
    → SimpleResult × Driver
    → (String → SimpleResult × Driver)
    → SimpleResult × Driver
    → SimpleResult × Driver
by_error (some e) fallback error rows = if e == unnest_error then fallback else error e
by_error none fallback error rows = rows

abbrev pub with_original :
    List String → SimpleResult × Driver → (String → SimpleResult × Driver) → SimpleResult × Driver
with_original [] missing k = missing
with_original (original ∷ rest) missing k = k original

module _ (engine : Engine) (simple : SimpleEngine) (max_mb : ℕ) where
  -- The description and the data of open rows, and what follows with the new count of bytes.
  abbrev pub rows_messages :
      ℕ
      → String
      → ℕ
      → List ℕ
      → Driver
      → (List ServerMessage → ℕ → SimpleResult × Driver)
      → SimpleResult × Driver
  rows_messages h original bytes opened driver k =
      and_then
        (λ described.
          let counted =
            if ltb 0 max_mb then bytes + simple.encoded_messages_bytes described else bytes in
          let rows = rows_to_data_messages engine max_mb driver h original counted in
          and_then (λ messages. k (described ++ messages) rows.1) opened driver rows.0)
        opened driver (rows_to_description_messages engine driver h original)

  -- The loop over the queries, with the original queries to come, the messages and bytes so far, and
  -- the rows to close.
  unfoldable pub run_queries :
      (Driver → SimpleResult × Driver)
      → List String
      → List String
      → List ServerMessage
      → ℕ
      → List ℕ
      → Driver
      → SimpleResult × Driver
  unfolding close_all rows_to_description_messages rows_to_data_messages
  run_queries fallback [] originals messages bytes opened driver =
      ended (sent messages) opened driver
  run_queries fallback (query ∷ queries) originals messages bytes opened driver =
      let (h, driver') = open_result driver in
      by_error (simple.query_rows driver.next query)
        (also_sent
          (λ ms driver'.
            run_queries fallback queries (tail originals) (messages ++ ms) bytes opened driver')
          opened (fallback driver))
        (λ e. ended (failed (engine_error e)) opened driver)
        (with_original originals (ended panicked (h ∷ opened) driver') (λ original.
          rows_messages h original bytes (h ∷ opened) driver' (λ ms bytes'.
            run_queries fallback queries (tail originals) (messages ++ ms) bytes' (h ∷ opened)
              driver')))

  abbrev pub run_all :
      (Driver → SimpleResult × Driver)
      → Option (Fallible (List String × List String))
      → Driver
      → SimpleResult × Driver
  run_all fallback none driver = (panicked, driver)
  run_all fallback (some (Results.err e)) driver = (failed e, driver)
  run_all fallback (some (Results.ok ([], originals))) driver =
      (sent (empty_query_response ∷ []), driver)
  run_all fallback (some (Results.ok (q ∷ queries, originals))) driver =
      run_queries fallback (q ∷ queries) originals [] 0 [] driver

  unfoldable pub handle_simple_query : ℕ → String → Driver → SimpleResult × Driver
  unfolding run_queries
  handle_simple_query zero query driver = (endless, driver)
  handle_simple_query (suc n) query driver =
      run_all (handle_simple_query n fallback_sql_query) (simple.parse_and_remap query) driver

-- What handleSimpleQuery writes; after a panic, nothing.
unfoldable pub simple_reply : SimpleResult → List ServerMessage
simple_reply (sent messages) = messages ++ (ready_for_query ∷ [])
simple_reply (failed e) = error_response e ∷ ready_for_query ∷ []
simple_reply _ = []
