-- ===== src/Wire/Engine.antt =====
-- What src/query_handler.go uses of code outside the repository: DuckDB behind database/sql, and
-- the parsing and printing functions of the standard library that it calls on opaque values.
use bemi_db.Prelude.{ℕ, String, List, Option, Bool}
use bemi_db.Prelude.Int.{ℤ}

abbrev pub Byte : Type 0
Byte = ℕ

-- What the handlers use of a *sql.ColumnType.
pub record ColumnType : Type 0 where
  pub name : String
  pub database_type_name : String
  pub scan_type : String

-- An element of `PreparedStatement.Variables`: a string by its bytes, a time.Time by its instant.
pub data Value : Type 0 where
  text : List Byte → Value
  time : ℤ → Value
  int32 : ℤ → Value
  int64 : ℤ → Value
  uuid : List Byte → Value

-- The variable that `generateDataRow` allocates for a column: its Go type.
pub data ScanTarget : Type 0 where
  null_int16 null_int32 null_int64 null_uint32 null_uint64 null_float64 null_string null_uuid
        null_bool null_time null_big_int null_decimal null_interval null_array generic :
      ScanTarget

-- What `rows.Scan` has left in such a variable; a float64 is its bit pattern, a time its instant.
pub data Cell : Type 0 where
  int16 int32 int64 : Option ℤ → Cell
  uint32 uint64 : Option ℕ → Cell
  float64 decimal : Option ℕ → Cell
  string : Option String → Cell
  uuid : Option (List Byte) → Cell
  bool : Option Bool → Cell
  time : Option ℤ → Cell
  big_int : Option ℤ → Cell
  interval : Option (ℤ × ℤ × ℤ) → Cell
  array : Option (List ℕ) → Cell
  generic_null : Cell
  generic_bytes : List Byte → Cell
  generic_other : ℕ → Cell

-- Results and statements are numbered by the calls that made them, which lets an engine answer the
-- same call differently at different times. An error is its message.
pub record Engine : Type 0 where
  -- db.PrepareContext(query): the error, if it fails
  pub prepare_context : ℕ → String → Option String
  -- stmt.QueryContext(variables)
  pub query_context : ℕ → String → List Value → Option String
  -- rows.ColumnTypes() of open rows
  pub column_types : ℕ → Option (List ColumnType)
  -- how often rows.Next() succeeds
  pub row_count : ℕ → ℕ
  -- rows.Scan at a row
  pub scan : ℕ → ℕ → List ScanTarget → Option (List Cell)
  -- time.Parse(layout, value)
  pub parse_time : String → List Byte → Option ℤ
  -- Time.Format(layout)
  pub format_time : String → ℤ → String
  -- `%v` of a float64, of array elements joined by encoding/csv, and of any other value
  pub format_float : ℕ → String
  pub format_array : List ℕ → String
  pub format_any : ℕ → String

-- The handles of database/sql: those that are open, and the number of the next call that makes one.
pub record Driver : Type 0 where
  pub next : ℕ
  pub open_statements : List ℕ
  pub open_rows : List ℕ
