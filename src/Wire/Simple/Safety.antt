-- ===== src/Wire/Simple/Safety.antt =====
-- src/query_handler.go: HandleSimpleQuery answers.
use text.Mathlib.TextEquality.{eq_iff}
use bemi_db.Prelude.{
  ◌≡◌, ◌≢◌, refl, ap, ℕ, suc, String, List, [], ◌∷◌, ◌++◌, Option, none, some, Bool, true, false,
  All, length, ◌==◌, string_eq, if◌then◌else◌, arith,
}
use bemi_db.Wire.Engine.{Engine, Driver}
use bemi_db.Wire.Message.{ServerMessage}
use bemi_db.Wire.Results.{Fallible, rows_to_description_messages, rows_to_data_messages}
use bemi_db.Wire.Results as Results
use bemi_db.Wire.Statement.{open_result}
use bemi_db.Wire.Simple.{
  SimpleResult, sent, failed, panicked, endless, SimpleEngine, tail, also_sent, and_then, by_error,
  with_original, run_queries, run_all, handle_simple_query, unnest_error, fallback_sql_query,
}

-- Messages or an error.
unfoldable pub IsAnswer : SimpleResult → Type 0
IsAnswer (sent messages) = Unit
IsAnswer (failed e) = Unit
IsAnswer panicked = ⊥
IsAnswer endless = ⊥

-- As many original queries as queries.
abbrev pub Counted : SimpleEngine → Type 0
Counted simple =
    (query : String) (queries originals : List String)
    → simple.parse_and_remap query ≡ some (Results.ok (queries, originals))
    → length queries ≡ length originals

-- The query to fall back on never has the error that it is for.
abbrev pub FallsBack : SimpleEngine → Type 0
FallsBack simple =
    (queries originals : List String)
    → simple.parse_and_remap fallback_sql_query ≡ some (Results.ok (queries, originals))
    → All (λ q. (next : ℕ) → ¬ (simple.query_rows next q ≡ some unnest_error)) queries

and_then-IsAnswer :
    (k : List ServerMessage → SimpleResult × Driver) (opened : List ℕ) (driver : Driver)
    (messages : Fallible (List ServerMessage))
    → ((ms : List ServerMessage) → IsAnswer (k ms).0)
    → IsAnswer (and_then k opened driver messages).0
unfolding IsAnswer
and_then-IsAnswer k opened driver (Results.ok ms) h = h ms
and_then-IsAnswer k opened driver (Results.err e) h = tt

also_sent-IsAnswer :
    (k : List ServerMessage → Driver → SimpleResult × Driver) (opened : List ℕ)
    (r : SimpleResult × Driver)
    → IsAnswer r.0
    → ((ms : List ServerMessage) (d : Driver) → IsAnswer (k ms d).0)
    → IsAnswer (also_sent k opened r).0
unfolding IsAnswer
also_sent-IsAnswer k opened (sent ms, d) a h = h ms d
also_sent-IsAnswer k opened (failed e, d) a h = tt
also_sent-IsAnswer k opened (panicked, d) a h = a
also_sent-IsAnswer k opened (endless, d) a h = a

if-IsAnswer :
    (b : Bool) (r q : SimpleResult × Driver)
    → (b ≡ true → IsAnswer r.0)
    → IsAnswer q.0
    → IsAnswer (if b then r else q).0
if-IsAnswer true r q hr hq = hr refl
if-IsAnswer false r q hr hq = hq

by_error-IsAnswer :
    (error : Option String) (fallback : SimpleResult × Driver) (f : String → SimpleResult × Driver)
    (rows : SimpleResult × Driver)
    → (error ≡ some unnest_error → IsAnswer fallback.0)
    → ((e : String) → IsAnswer (f e).0)
    → IsAnswer rows.0
    → IsAnswer (by_error error fallback f rows).0
by_error-IsAnswer (some e) fallback f rows hb hf hr =
    if-IsAnswer (e == unnest_error) fallback (f e)
      (λ s. hb (ap (λ x. some x) ((eq_iff e unnest_error).0 s))) (hf e)
by_error-IsAnswer none fallback f rows hb hf hr = hr

with_original-IsAnswer :
    (q : String) (queries originals : List String) (missing : SimpleResult × Driver)
    (k : String → SimpleResult × Driver)
    → length (q ∷ queries) ≡ length originals
    → ((original : String) → IsAnswer (k original).0)
    → IsAnswer (with_original originals missing k).0
with_original-IsAnswer q queries [] missing k l hk = absurd (omega (arith, l))
with_original-IsAnswer q queries (o ∷ rest) missing k l hk = hk o

length-tail :
    (q : String) (queries originals : List String)
    → length (q ∷ queries) ≡ length originals
    → length queries ≡ length (tail originals)
length-tail q queries [] l = absurd (omega (arith, l))
length-tail q queries (o ∷ rest) l = omega (arith, l)

module _ (engine : Engine) (simple : SimpleEngine) (max_mb : ℕ) where
  -- The fallback is an answer wherever a query needs it.
  abbrev Answering : (Driver → SimpleResult × Driver) → List String → Type 0
  Answering fallback queries =
      All
        (λ q.
          (next : ℕ)
          → simple.query_rows next q ≡ some unnest_error
          → (d : Driver) → IsAnswer (fallback d).0)
        queries

  run_queries-IsAnswer :
      (fallback : Driver → SimpleResult × Driver) (queries originals : List String)
      (messages : List ServerMessage) (bytes : ℕ) (opened : List ℕ) (driver : Driver)
      → Answering fallback queries
      → length queries ≡ length originals
      → IsAnswer
          (run_queries engine simple max_mb fallback queries originals messages bytes opened
            driver).0
  unfolding run_queries IsAnswer
  run_queries-IsAnswer fallback [] originals messages bytes opened driver a l = tt
  run_queries-IsAnswer fallback (query ∷ queries) originals messages bytes opened driver (a, as_)
        l =
      let h = driver.next in
      let driver' = (open_result driver).1 in
      let l' = length-tail query queries originals l in
      by_error-IsAnswer (simple.query_rows driver.next query) _ _ _
        (λ e. also_sent-IsAnswer _ opened (fallback driver) (a driver.next e driver) (λ ms d.
          run_queries-IsAnswer fallback queries (tail originals) (messages ++ ms) bytes opened d as_
            l'))
        (λ x. tt)
        (with_original-IsAnswer query queries originals _ _ l (λ original.
          and_then-IsAnswer _ (h ∷ opened) driver'
            (rows_to_description_messages engine driver' h original)
            (λ described. and_then-IsAnswer _ (h ∷ opened) driver' _ (λ ms.
              run_queries-IsAnswer fallback queries (tail originals) _ _ (h ∷ opened) driver' as_
                l'))))

  run_all-IsAnswer :
      (fallback : Driver → SimpleResult × Driver)
      (remapped : Option (Fallible (List String × List String))) (driver : Driver)
      → remapped ≢ none
      → ((queries originals : List String)
          → remapped ≡ some (Results.ok (queries, originals))
          → Answering fallback queries × (length queries ≡ length originals))
      → IsAnswer (run_all engine simple max_mb fallback remapped driver).0
  unfolding IsAnswer
  run_all-IsAnswer fallback none driver r h = absurd (r refl)
  run_all-IsAnswer fallback (some (Results.err e)) driver r h = tt
  run_all-IsAnswer fallback (some (Results.ok ([], originals))) driver r h = tt
  run_all-IsAnswer fallback (some (Results.ok (q ∷ queries, originals))) driver r h =
      let (a, l) = h (q ∷ queries) originals refl in
      run_queries-IsAnswer fallback (q ∷ queries) originals [] 0 [] driver a l

  never :
      (fallback : Driver → SimpleResult × Driver) (queries : List String)
      → All (λ q. (next : ℕ) → ¬ (simple.query_rows next q ≡ some unnest_error)) queries
      → Answering fallback queries
  never fallback [] h = tt
  never fallback (q ∷ queries) (n, h) = (λ next e d. absurd (n next e), never fallback queries h)

  always :
      (fallback : Driver → SimpleResult × Driver) (queries : List String)
      → ((d : Driver) → IsAnswer (fallback d).0)
      → Answering fallback queries
  always fallback [] h = tt
  always fallback (q ∷ queries) h = (λ next e d. h d, always fallback queries h)

  -- When the remapper returns for the query and for the one to fall back on (it neither panics nor
  -- exits), gives as many original queries as queries, and DuckDB never has the error for which there is
  -- a query to fall back on at that query itself, then with fuel for one fallback a simple query is
  -- answered by messages or an error, and does not end the process by an index out of range.
  pub handle_simple_query-IsAnswer :
      (n : ℕ) (query : String) (driver : Driver)
      → simple.parse_and_remap query ≢ none
      → simple.parse_and_remap fallback_sql_query ≢ none
      → Counted simple
      → FallsBack simple
      → IsAnswer (handle_simple_query engine simple max_mb (suc (suc n)) query driver).0
  unfolding handle_simple_query
  handle_simple_query-IsAnswer n query driver returns falls c f =
      let inner = handle_simple_query engine simple max_mb n fallback_sql_query in
      let outer = handle_simple_query engine simple max_mb (suc n) fallback_sql_query in
      let once : (d : Driver) → IsAnswer (outer d).0 = λ d.
        run_all-IsAnswer inner (simple.parse_and_remap fallback_sql_query) d falls
          (λ queries originals e. (
            never inner queries (f queries originals e),
            c fallback_sql_query queries originals e,
          )) in
      run_all-IsAnswer outer (simple.parse_and_remap query) driver returns
        (λ queries originals e. (always outer queries once, c query queries originals e))
