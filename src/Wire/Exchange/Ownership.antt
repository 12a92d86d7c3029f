-- ===== src/Wire/Exchange/Ownership.antt =====
-- src/query_handler.go: the handles that a prepared statement owns in DuckDB, through Close, prepare
-- and the calls that open rows.
use bemi_db.Prelude.{
  ◌∙◌, ℕ, ◌≤◌, ◌<◌, ◌≡◌, ◌⊎◌, inl, inr, refl, String, List, [], ◌∷◌, Option, none, some, arith, All,
  Option-cases,
}
use bemi_db.Wire.Engine.{Engine, Driver}
use bemi_db.Wire.Message.{HandlerError}
use bemi_db.Wire.Statement.{
  close_rows_of, PreparedStatement, without, close_rows, close_driver_statement, drop_rows, close,
  prepare,
}
use bemi_db.Wire.Handlers.{query_prepared, run_statement, described, executed}

pub without-fresh : (n h : ℕ) (xs : List ℕ) → n ≤ h → All (λ x. x < n) xs → without h xs ≡ xs
unfolding without
without-fresh n h [] le fresh = refl
without-fresh n h (x ∷ xs) le fresh = ground (arith, fresh, without-fresh n h xs le fresh.1)

pub without-cons : (h : ℕ) (xs : List ℕ) → without h (h ∷ xs) ≡ without h xs
unfolding without
without-cons h xs = ground arith

-- The handles `bs` and `br` that were open before, all made before the `n`-th.
module _ (n : ℕ) (bs br : List ℕ) (fs : All (λ x. x < n) bs) (fr : All (λ x. x < n) br) where
  abbrev pub HoldsStatement : Option ℕ → List ℕ → Type 0
  HoldsStatement none opened = opened ≡ bs
  HoldsStatement (some h) opened = (n ≤ h) × (opened ≡ h ∷ bs)

  -- The rows of a statement may be closed already.
  abbrev pub HoldsRows : Option ℕ → List ℕ → Type 0
  HoldsRows none opened = opened ≡ br
  HoldsRows (some h) opened = (n ≤ h) × ((opened ≡ h ∷ br) ⊎ (opened ≡ br))

  -- The open handles are those of before and those of the statement.
  pub record Owns (stmt : PreparedStatement) (driver : Driver) : Type 0 where
    pub later : n ≤ driver.next
    pub statements : HoldsStatement stmt.statement driver.open_statements
    pub rows : HoldsRows stmt.rows driver.open_rows

  pub drop_rows-Owns :
      (stmt : PreparedStatement) (driver : Driver)
      → Owns stmt driver
      → Owns (drop_rows stmt driver).0 (drop_rows stmt driver).1
  unfolding drop_rows close_rows
  drop_rows-Owns stmt driver o = elim (Option-cases stmt.rows) [
    | inl no_rows ↦ ground arith
    | inr (h, e) ↦ ground (arith, without-fresh n h br, without-cons h br, fr)
  ]

  close_rows-Owns :
      (h : ℕ) (stmt : PreparedStatement) (driver : Driver)
      → stmt.rows ≡ some h
      → Owns stmt driver
      → Owns stmt (close_rows h driver)
  unfolding close_rows
  close_rows-Owns h stmt driver e o = ground (arith, without-fresh n h br, without-cons h br, fr)

  -- Close releases the statement and its rows.
  pub record IsReleased (driver : Driver) : Type 0 where
    pub later : n ≤ driver.next
    pub statements : driver.open_statements ≡ bs
    pub rows : driver.open_rows ≡ br

  close_rows_of-released :
      (stmt : PreparedStatement) (driver : Driver)
      → Owns stmt driver
      → ((close_rows_of stmt.rows driver).open_rows ≡ br)
        × ((close_rows_of stmt.rows driver).open_statements ≡ driver.open_statements)
        × ((close_rows_of stmt.rows driver).next ≡ driver.next)
  unfolding close_rows
  close_rows_of-released stmt driver o = elim (Option-cases stmt.rows) [
    | inl no_rows ↦ ground arith
    | inr (h, e) ↦ ground (arith, without-fresh n h br, without-cons h br, fr)
  ]

  pub close-IsReleased :
      (stmt : PreparedStatement) (driver : Driver)
      → Owns stmt driver
      → IsReleased (close stmt driver).1
  unfolding close close_driver_statement
  close-IsReleased stmt driver o = elim (Option-cases stmt.statement) [
    | inl no_statement ↦ ground (arith, close_rows_of-released stmt driver o)
    | inr (h, e) ↦
        ground
          (arith, close_rows_of-released stmt driver o, without-fresh n h bs, without-cons h bs, fs)
  ]

  pub close-Owns :
      (stmt : PreparedStatement) (driver : Driver)
      → Owns stmt driver
      → Owns (close stmt driver).0 (close stmt driver).1
  close-Owns stmt driver o =
      let r = close-IsReleased stmt driver o in
      unfold close in record { later = r.later; statements = r.statements; rows = r.rows }

  module _ (engine : Engine) where
    prepare-Owns :
        (stmt : PreparedStatement) (driver : Driver)
        → Owns stmt driver
        → Owns (prepare engine stmt driver).1 (prepare engine stmt driver).2
    unfolding prepare
    prepare-Owns stmt driver o = elim (Option-cases stmt.statement) [
      | inl unplanned ↦ ground arith
      | inr (h, e) ↦ ground arith
    ]

    rows-prepare :
        (stmt : PreparedStatement) (driver : Driver)
        → (prepare engine stmt driver).1.rows ≡ stmt.rows
    unfolding prepare
    rows-prepare stmt driver = ground arith

    query_prepared-Owns :
        (e : Option HandlerError) (stmt : PreparedStatement) (driver : Driver)
        (error_of : String → HandlerError)
        → Owns stmt driver
        → stmt.rows ≡ none
        → Owns
            (query_prepared engine e stmt driver error_of).1
            (query_prepared engine e stmt driver error_of).2
    unfolding query_prepared
    query_prepared-Owns (some e) stmt driver error_of o no_rows = o
    query_prepared-Owns none stmt driver error_of o no_rows = ground arith

    pub run_statement-Owns :
        (stmt : PreparedStatement) (driver : Driver) (error_of : String → HandlerError)
        → Owns stmt driver
        → stmt.rows ≡ none
        → Owns
            (run_statement engine stmt driver error_of).1
            (run_statement engine stmt driver error_of).2
    unfolding run_statement
    run_statement-Owns stmt driver error_of o no_rows =
        let (e, stmt', driver') = prepare engine stmt driver in
        query_prepared-Owns e stmt' driver' error_of (prepare-Owns stmt driver o)
          (rows-prepare stmt driver ∙ no_rows)

    pub described-Owns :
        (r : Option HandlerError × PreparedStatement × Driver)
        → Owns r.1 r.2
        → Owns (described engine r).stmt (described engine r).driver
    unfolding described
    described-Owns (some e, stmt, driver) o = o
    described-Owns (none, stmt, driver) o = ground arith

    pub executed-Owns :
        (max_mb : ℕ) (r : Option HandlerError × PreparedStatement × Driver)
        → Owns r.1 r.2
        → Owns (executed engine max_mb r).stmt (executed engine max_mb r).driver
    unfolding executed
    executed-Owns max_mb (some e, stmt, driver) o = o
    executed-Owns max_mb (none, stmt, driver) o = elim (Option-cases stmt.rows) [
      | inl no_rows ↦ ground arith
      | inr (h, e) ↦ ground (arith, close_rows-Owns h stmt driver e o)
    ]
