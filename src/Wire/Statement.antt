-- ===== src/Wire/Statement.antt =====
-- src/query_handler.go: PreparedStatement, its Close, and prepare, over the handles of database/sql.
use bemi_db.Prelude.{
  ℕ, ◌+◌, String, List, [], ◌∷◌, Option, none, some, Bool, true, ◌==◌, nat_eq, if◌then◌else◌,
}
use bemi_db.Wire.Engine.{Value, Engine, Driver}
use bemi_db.Wire.Message.{HandlerError, already_closed, engine_error}

pub record PreparedStatement : Type 0 where
  pub name : String
  pub original_query : String
  pub query : String
  pub parameter_oids : List ℕ
  pub bound : Bool
  pub variables : List Value
  pub portal : String
  pub described : Bool
  pub statement : Option ℕ
  pub rows : Option ℕ
  pub closed : Bool

-- The handles but one.
unfoldable pub without : ℕ → List ℕ → List ℕ
without h [] = []
without h (x ∷ xs) = let rest = without h xs in if x == h then rest else x ∷ rest

-- rows.Close() and stmt.Close(), which do nothing to a closed handle.
unfoldable pub close_rows : ℕ → Driver → Driver
close_rows h driver = record driver { open_rows = without h driver.open_rows }

unfoldable pub close_driver_statement : ℕ → Driver → Driver
close_driver_statement h driver = record driver {
  open_statements = without h driver.open_statements;
}

-- `if preparedStatement.Rows != nil { preparedStatement.Rows.Close(); preparedStatement.Rows = nil }`
abbrev pub close_rows_of : Option ℕ → Driver → Driver
close_rows_of none driver = driver
close_rows_of (some h) driver = close_rows h driver

abbrev pub close_statement_of : Option ℕ → Driver → Driver
close_statement_of none driver = driver
close_statement_of (some h) driver = close_driver_statement h driver

unfoldable pub drop_rows : PreparedStatement → Driver → PreparedStatement × Driver
drop_rows stmt driver = (record stmt { rows = none }, close_rows_of stmt.rows driver)

-- Close of a statement that is not nil.
unfoldable pub close : PreparedStatement → Driver → PreparedStatement × Driver
close stmt driver = (
  record stmt { closed = true; rows = none; statement = none },
  close_statement_of stmt.statement (close_rows_of stmt.rows driver),
)

-- The deferred Close, which a nil statement survives.
abbrev pub close_nilable : Option PreparedStatement → Driver → Driver
close_nilable none driver = driver
close_nilable (some stmt) driver = (close stmt driver).1

-- A new handle for a call that has succeeded.
abbrev pub open_statement : Driver → ℕ × Driver
open_statement driver = (
  driver.next,
  record driver { next = driver.next + 1; open_statements = driver.next ∷ driver.open_statements },
)

abbrev pub open_result : Driver → ℕ × Driver
open_result driver = (
  driver.next,
  record driver { next = driver.next + 1; open_rows = driver.next ∷ driver.open_rows },
)

module _ (engine : Engine) where
  open engine use {prepare_context}

  unfoldable pub prepare :
      PreparedStatement → Driver → Option HandlerError × PreparedStatement × Driver
  prepare stmt driver =
      if stmt.closed
      then (some (already_closed stmt.original_query), stmt, driver)
      else elim stmt.statement [
        | some h ↦ (none, stmt, driver)
        | none ↦ elim (prepare_context driver.next stmt.query) [
          | some e ↦ (some (engine_error e), stmt, driver)
          | none ↦
              let (h, driver') = open_statement driver in
              (none, record stmt { statement = some h }, driver')
        ]
      ]
