-- ===== src/Wire/Simple/Release.antt =====
-- src/query_handler.go: HandleSimpleQuery closes the rows that it opens.
use mathlib.Core.Path.{subst}
use bemi_db.Prelude.{
  ◌≡◌, refl, sym, ap, ◌∙◌, ℕ, zero, suc, ◌+◌, ◌≤◌, ◌<◌, String, List, [], ◌∷◌, ◌++◌, Option, none,
  some, Bool, true, false, All, ◌==◌, string_eq, nat_eq, if◌then◌else◌, arith,
}
use bemi_db.Wire.Engine.{Engine, Driver}
use bemi_db.Wire.Message.{engine_error, ServerMessage}
use bemi_db.Wire.Results.{Fallible, rows_to_description_messages, rows_to_data_messages}
use bemi_db.Wire.Results as Results
use bemi_db.Wire.Statement.{close_rows, open_result, without}
use bemi_db.Wire.Exchange.Ownership.{without-fresh, without-cons}
use bemi_db.Wire.Simple.{
  SimpleResult, sent, failed, panicked, endless, SimpleEngine, close_all, ended, tail, also_sent,
  and_then, by_error, with_original, rows_messages, run_queries, run_all, handle_simple_query,
  unnest_error, fallback_sql_query,
}

-- The rows that are opened come after those that were open, the last one first.
Owned : List ℕ → List ℕ → ℕ → Type 0
Owned [] base next = All (λ x. x < next) base
Owned (h ∷ opened) base next = (h < next) × Owned opened base h

All-below : (xs : List ℕ) (m n : ℕ) → m ≤ n → All (λ x. x < m) xs → All (λ x. x < n) xs
All-below [] m n le h = tt
All-below (x ∷ xs) m n le (b, h) = (omega (arith, b, le), All-below xs m n le h)

Owned-weaken : (opened base : List ℕ) (m n : ℕ) → m ≤ n → Owned opened base m → Owned opened base n
unfolding Owned
Owned-weaken [] base m n le o = All-below base m n le o
Owned-weaken (h ∷ opened) base m n le (b, o) = (omega (arith, b, le), o)

Owned-All : (opened base : List ℕ) (n : ℕ) → Owned opened base n → All (λ x. x < n) (opened ++ base)
unfolding Owned
Owned-All [] base n o = o
Owned-All (h ∷ opened) base n (b, o) =
    (b, Owned-All opened base n (Owned-weaken opened base h n (omega (arith, b)) o))

-- The rows that were open are open, and no handle is given twice.
abbrev pub Restores : List ℕ → ℕ → SimpleResult × Driver → Type 0
Restores base next r = (r.1.open_rows ≡ base) × (next ≤ r.1.next)

close_all-Restores :
    (r : SimpleResult) (opened base : List ℕ) (driver : Driver)
    → driver.open_rows ≡ (opened ++ base)
    → Owned opened base driver.next
    → Restores base driver.next (ended r opened driver)
unfolding Owned close_all close_rows
close_all-Restores r [] base driver e o = (e, omega arith)
close_all-Restores r (h ∷ opened) base driver e (b, o) =
    close_all-Restores r opened base (close_rows h driver)
      (ap (without h) e
        ∙ without-cons h (opened ++ base)
        ∙ without-fresh h h (opened ++ base) (omega arith) (Owned-All opened base h o))
      (Owned-weaken opened base h driver.next (omega (arith, b)) o)

and_then-Restores :
    (base : List ℕ) (k : List ServerMessage → SimpleResult × Driver) (opened : List ℕ)
    (driver : Driver) (messages : Fallible (List ServerMessage))
    → driver.open_rows ≡ (opened ++ base)
    → Owned opened base driver.next
    → ((ms : List ServerMessage) → Restores base driver.next (k ms))
    → Restores base driver.next (and_then k opened driver messages)
and_then-Restores base k opened driver (Results.ok ms) e o h = h ms
and_then-Restores base k opened driver (Results.err x) e o h =
    close_all-Restores (failed x) opened base driver e o

-- A call of the handler that leaves the rows as they were.
abbrev Neutral : (Driver → SimpleResult × Driver) → Type 0
Neutral f =
    (driver : Driver)
    → All (λ x. x < driver.next) driver.open_rows
    → Restores driver.open_rows driver.next (f driver)

also_sent-Restores :
    (base opened : List ℕ) (next : ℕ) (k : List ServerMessage → Driver → SimpleResult × Driver)
    (r : SimpleResult × Driver)
    → Restores (opened ++ base) next r
    → Owned opened base next
    → ((ms : List ServerMessage) (d : Driver)
        → d.open_rows ≡ (opened ++ base)
        → Owned opened base d.next
        → Restores base d.next (k ms d))
    → Restores base next (also_sent k opened r)
also_sent-Restores base opened next k (sent ms, d) (e, le) o h =
    let (e', le') = h ms d e (Owned-weaken opened base next d.next le o) in
    (e', omega (arith, le, le'))
also_sent-Restores base opened next k (failed x, d) (e, le) o h =
    let (e', le') =
      close_all-Restores (failed x) opened base d e (Owned-weaken opened base next d.next le o) in
    (e', omega (arith, le, le'))
also_sent-Restores base opened next k (panicked, d) (e, le) o h =
    let (e', le') =
      close_all-Restores panicked opened base d e (Owned-weaken opened base next d.next le o) in
    (e', omega (arith, le, le'))
also_sent-Restores base opened next k (endless, d) (e, le) o h =
    let (e', le') =
      close_all-Restores endless opened base d e (Owned-weaken opened base next d.next le o) in
    (e', omega (arith, le, le'))

module _ (engine : Engine) (simple : SimpleEngine) (max_mb : ℕ) where
  Restores-if :
      (b : Bool) (base : List ℕ) (next : ℕ) (r q : SimpleResult × Driver)
      → Restores base next r
      → Restores base next q
      → Restores base next (if b then r else q)
  Restores-if true base next r q hr hq = hr
  Restores-if false base next r q hr hq = hq

  by_error-Restores :
      (base : List ℕ) (next : ℕ) (error : Option String) (fallback : SimpleResult × Driver)
      (f : String → SimpleResult × Driver) (rows : SimpleResult × Driver)
      → Restores base next fallback
      → ((e : String) → Restores base next (f e))
      → Restores base next rows
      → Restores base next (by_error error fallback f rows)
  by_error-Restores base next (some e) fallback f rows hb hf hr =
      Restores-if (e == unnest_error) base next _ _ hb (hf e)
  by_error-Restores base next none fallback f rows hb hf hr = hr

  with_original-Restores :
      (base : List ℕ) (next : ℕ) (originals : List String) (missing : SimpleResult × Driver)
      (k : String → SimpleResult × Driver)
      → Restores base next missing
      → ((original : String) → Restores base next (k original))
      → Restores base next (with_original originals missing k)
  with_original-Restores base next [] missing k hm hk = hm
  with_original-Restores base next (o ∷ rest) missing k hm hk = hk o

  -- The rows are still open, and one more handle has been given.
  earlier :
      (base : List ℕ) (next : ℕ) (r : SimpleResult × Driver)
      → Restores base (next + 1) r
      → Restores base next r
  earlier base next r (e, le) = (e, omega (arith, le))

  run_queries-Restores :
      (fallback : Driver → SimpleResult × Driver) (n : Neutral fallback) (base : List ℕ)
      (queries originals : List String) (messages : List ServerMessage) (bytes : ℕ)
      (opened : List ℕ) (driver : Driver)
      → driver.open_rows ≡ (opened ++ base)
      → Owned opened base driver.next
      → Restores base driver.next
          (run_queries engine simple max_mb fallback queries originals messages bytes opened driver)
  unfolding run_queries Owned
  run_queries-Restores fallback n base [] originals messages bytes opened driver e o =
      close_all-Restores (sent messages) opened base driver e o
  run_queries-Restores fallback n base (query ∷ queries) originals messages bytes opened driver e
        o =
      let h = driver.next in
      let driver' = (open_result driver).1 in
      let e' : driver'.open_rows ≡ ((h ∷ opened) ++ base) = ap (λ xs. h ∷ xs) e in
      let neutral : (r : SimpleResult × Driver)
          → Restores driver.open_rows driver.next r
          → Restores (opened ++ base) driver.next r =
        λ r (a, b). (a ∙ e, b) in
      let o' : Owned (h ∷ opened) base driver'.next = (omega arith, o) in
      by_error-Restores base driver.next (simple.query_rows driver.next query) _ _ _
        (also_sent-Restores base opened driver.next _ (fallback driver)
          (neutral (fallback driver) (
            n driver (
              subst (λ xs. All (λ x. x < driver.next) xs) (sym e)
                (Owned-All opened base driver.next o))))
          o
          (λ ms d ed od.
            run_queries-Restores fallback n base queries (tail originals) (messages ++ ms) bytes
              opened d ed od))
        (λ x. close_all-Restores (failed (engine_error x)) opened base driver e o)
        (with_original-Restores base driver.next originals _ _
          (earlier base driver.next (ended panicked (h ∷ opened) driver')
            (close_all-Restores panicked (h ∷ opened) base driver' e' o'))
          (λ original.
            earlier base driver.next
              (rows_messages engine simple max_mb h original bytes (h ∷ opened) driver'
                (λ ms bytes'.
                  run_queries engine simple max_mb fallback queries (tail originals)
                    (messages ++ ms) bytes' (h ∷ opened) driver'))
              (and_then-Restores base _ (h ∷ opened) driver'
                (rows_to_description_messages engine driver' h original) e' o'
                (λ described. and_then-Restores base _ (h ∷ opened) driver' _ e' o' (λ ms.
                  run_queries-Restores fallback n base queries (tail originals) _ _ (h ∷ opened)
                    driver' e' o')))))

  run_all-Restores :
      (fallback : Driver → SimpleResult × Driver)
      → Neutral fallback
      → (remapped : Option (Fallible (List String × List String))) (driver : Driver)
      → All (λ x. x < driver.next) driver.open_rows
      → Restores driver.open_rows driver.next
          (run_all engine simple max_mb fallback remapped driver)
  unfolding Owned
  run_all-Restores fallback n none driver h = (refl, omega arith)
  run_all-Restores fallback n (some (Results.err e)) driver h = (refl, omega arith)
  run_all-Restores fallback n (some (Results.ok ([], originals))) driver h = (refl, omega arith)
  run_all-Restores fallback n (some (Results.ok (q ∷ queries, originals))) driver h =
      run_queries-Restores fallback n driver.open_rows (q ∷ queries) originals [] 0 [] driver refl h

  -- When the handles of open rows have been given before, a simple query, with any fuel and however it
  -- ends, closes the rows that it opens, those of the query it falls back on included, and no others.
  pub handle_simple_query-Restores :
      (n : ℕ) (query : String) (driver : Driver)
      → All (λ x. x < driver.next) driver.open_rows
      → Restores driver.open_rows driver.next
          (handle_simple_query engine simple max_mb n query driver)
  unfolding handle_simple_query
  handle_simple_query-Restores zero query driver h = (refl, omega arith)
  handle_simple_query-Restores (suc n) query driver h =
      run_all-Restores (handle_simple_query engine simple max_mb n fallback_sql_query)
        (handle_simple_query-Restores n fallback_sql_query) (simple.parse_and_remap query) driver h
