-- ===== src/Wire/Results/Cells.antt =====
-- src/query_handler.go: the two switches of generateDataRow, and the String methods of the Null types.
use bemi_db.Prelude.{
  String, ◌<>◌, List, [], ◌∷◌, Option, none, some, Bool, true, false, ◌==◌, nat_eq, string_eq,
  length, take, drop, if◌then◌else◌,
}
use bemi_db.Prelude.Int.{ℤ}
use bemi_db.Wire.Text.{nat_to_string, int_to_string, hex}
use bemi_db.Wire.Engine.{ColumnType, Engine, Byte, ScanTarget, Cell}

unfoldable pub scan_target : ColumnType → ScanTarget
scan_target col =
    if col.scan_type == "int16"
    then ScanTarget.null_int16
    else if col.scan_type == "int32"
    then ScanTarget.null_int32
    else if col.scan_type == "int64"
    then ScanTarget.null_int64
    else if col.scan_type == "uint32"
    then ScanTarget.null_uint32
    else if col.scan_type == "uint64"
    then ScanTarget.null_uint64
    else if col.scan_type == "float64"
    then ScanTarget.null_float64
    else if col.scan_type == "float32"
    then ScanTarget.null_float64
    else if col.scan_type == "string"
    then ScanTarget.null_string
    else if col.scan_type == "[]uint8"
    then (if col.database_type_name == "UUID" then ScanTarget.null_uuid else ScanTarget.generic)
    else if col.scan_type == "bool"
    then ScanTarget.null_bool
    else if col.scan_type == "time.Time"
    then ScanTarget.null_time
    else if col.scan_type == "*big.Int"
    then ScanTarget.null_big_int
    else if col.scan_type == "duckdb.Decimal"
    then ScanTarget.null_decimal
    else if col.scan_type == "duckdb.Interval"
    then ScanTarget.null_interval
    else if col.scan_type == "[]interface {}"
    then ScanTarget.null_array
    else ScanTarget.generic

-- NullUuid.String
unfoldable pub uuid_text : List Byte → String
uuid_text value =
    if length value == 16
    then hex (take 4 value)
      <> ("-"
          <> (hex (take 2 (drop 4 value))
              <> ("-"
                  <> (hex (take 2 (drop 6 value))
                      <> ("-" <> (hex (take 2 (drop 8 value)) <> ("-" <> hex (drop 10 value))))))))
    else hex value

-- A bool prints as `true` or `false`, of which the first character is sent.
bool_text : Bool → String
bool_text true = "t"
bool_text false = "f"

interval_text : ℤ × ℤ × ℤ → String
interval_text (months, days, micros) =
    int_to_string months
    <> (" months "
        <> (int_to_string days <> (" days " <> (int_to_string micros <> " microseconds"))))

time_layout : String → String
time_layout database_type_name =
    if database_type_name == "DATE"
    then "2006-01-02"
    else if database_type_name == "TIME"
    then "15:04:05.999999"
    else if database_type_name == "TIMESTAMP"
    then "2006-01-02 15:04:05.999999"
    else "2006-01-02 15:04:05.999999-07:00"

abbrev pub present {ℓ} : {A : Type ℓ} → (A → String) → Option A → Option String
present f none = none
present f (some a) = some (f a)

module _ (engine : Engine) where
  open engine use {format_time, format_float, format_array, format_any}

  -- The text that is sent for a cell; `none` is a NULL.
  unfoldable pub cell_text : ColumnType → Cell → Option String
  unfolding uuid_text bool_text interval_text time_layout
  cell_text col (Cell.int16 v) = present int_to_string v
  cell_text col (Cell.int32 v) = present int_to_string v
  cell_text col (Cell.int64 v) = present int_to_string v
  cell_text col (Cell.uint32 v) = present nat_to_string v
  cell_text col (Cell.uint64 v) = present nat_to_string v
  cell_text col (Cell.float64 v) = present format_float v
  cell_text col (Cell.decimal v) = present format_float v
  cell_text col (Cell.string v) = present (λ s. s) v
  cell_text col (Cell.uuid v) = present uuid_text v
  cell_text col (Cell.bool v) = present bool_text v
  cell_text col (Cell.time v) = present (format_time (time_layout col.database_type_name)) v
  cell_text col (Cell.big_int v) = present int_to_string v
  cell_text col (Cell.interval v) = present interval_text v
  cell_text col (Cell.array v) = present (λ elements. "{" <> (format_array elements <> "}")) v
  cell_text col Cell.generic_null = none
  cell_text col (Cell.generic_bytes bytes) =
      some (if length bytes == 16 then uuid_text bytes else "\\x" <> hex bytes)
  cell_text col (Cell.generic_other v) = some (format_any v)

  -- The texts of a row, a column beside its cell.
  unfoldable pub cell_texts : List ColumnType → List Cell → List (Option String)
  cell_texts (col ∷ cols) (cell ∷ cells) = cell_text col cell ∷ cell_texts cols cells
  cell_texts _ _ = []
