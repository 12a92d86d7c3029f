-- ===== src/Wire/Results.antt =====
-- src/query_handler.go: query results as protocol messages (rowsToDescriptionMessages,
-- rowsToDataMessages, generateRowDescription, generateDataRow and what they call).
pub mod Oids
pub mod Cells
pub mod Budget
use Prim.Native.Char.{code}
use bemi_db.Prelude.{
  ℕ, zero, suc, ◌+◌, ◌*◌, ◌-◌, String, len, List, [], ◌∷◌, ◌++◌, Option, none, some, Bool, true,
  false, ◌&&◌, ltb, leb, ◌==◌, nat_eq, length, if◌then◌else◌, map,
}
use bemi_db.Wire.Engine.{ColumnType, Engine, Driver, Cell}
use bemi_db.Wire.Message.{
  HandlerError, no_column_types, no_data_row, result_too_large, ServerMessage, row_description,
  data_row, command_complete,
}
use Oids.{generate_row_description}
use Cells.{scan_target, cell_texts}

-- A handler's results, or its error.
pub data Fallible {ℓ} (A : Type ℓ) : Type ℓ where
  ok : A → Fallible A
  err : HandlerError → Fallible A

-- The test of a code list for a handle.
unfoldable pub is_open : ℕ → List ℕ → Bool
is_open h [] = false
is_open h (x ∷ xs) = if x == h then true else is_open h xs

-- `resultBytesPerRowOverhead`, `resultBytesPerCellOverhead`
abbrev pub result_bytes_per_row_overhead : ℕ
result_bytes_per_row_overhead = 64

abbrev pub result_bytes_per_cell_overhead : ℕ
result_bytes_per_cell_overhead = 48

unfoldable pub value_bytes : List (Option String) → ℕ
value_bytes [] = 0
value_bytes (none ∷ values) = value_bytes values
value_bytes (some v ∷ values) = len v + value_bytes values

-- What one buffered row adds to `resultBytes`.
unfoldable pub row_cost : List (Option String) → ℕ
row_cost values =
    result_bytes_per_row_overhead
    + length values * result_bytes_per_cell_overhead
    + value_bytes values

-- strings.ToUpper, as far as it decides a prefix of capital ASCII letters: besides the small ASCII
-- letters, only U+0131 and U+017F have a capital in ASCII.
upper : ℕ → ℕ
upper c =
    if leb 97 c && leb c 122
    then c - 32
    else if c == 0x131
    then 73
    else if c == 0x17f
    then 83
    else c

abbrev codes : String → List ℕ
codes String.[] = []
codes (String.◌∷◌ c s) = code c ∷ codes s

is_prefix : List ℕ → List ℕ → Bool
is_prefix [] s = true
is_prefix (c ∷ p) [] = false
is_prefix (c ∷ p) (d ∷ s) = if c == d then is_prefix p s else false

upper_has_prefix : String → String → Bool
upper_has_prefix s prefix = is_prefix (codes prefix) (map upper (codes s))

unfoldable pub command_tag : String → String
unfolding upper_has_prefix is_prefix upper
command_tag original_query =
    if upper_has_prefix original_query "SET "
    then "SET"
    else if upper_has_prefix original_query "SHOW "
    then "SHOW"
    else if upper_has_prefix original_query "DISCARD ALL"
    then "DISCARD ALL"
    else if upper_has_prefix original_query "BEGIN"
    then "BEGIN"
    else "SELECT 1"

-- The limit in bytes; 0 is no limit.
abbrev pub max_result_bytes : ℕ → ℕ
max_result_bytes max_result_mb = max_result_mb * 1024 * 1024

abbrev pub over_budget : ℕ → ℕ → Bool
over_budget max_bytes result_bytes = ltb 0 max_bytes && ltb max_bytes result_bytes

-- What follows the loop: the CommandComplete message behind the rows.
abbrev pub with_command_complete :
    String → Fallible (List ServerMessage) × ℕ → Fallible (List ServerMessage) × ℕ
with_command_complete original_query (err e, n) = (err e, n)
with_command_complete original_query (ok messages, n) =
    (ok (messages ++ (command_complete (command_tag original_query) ∷ [])), n)

module _ (engine : Engine) where
  open engine use {column_types, row_count, scan}

  -- rows.ColumnTypes(), which fails on closed rows.
  unfoldable pub columns_of : Driver → ℕ → Option (List ColumnType)
  columns_of driver rows = if is_open rows driver.open_rows then column_types rows else none

  unfoldable pub rows_to_description_messages : Driver → ℕ → String → Fallible (List ServerMessage)
  unfolding columns_of
  rows_to_description_messages driver rows original_query = elim (columns_of driver rows) [
    | none ↦ err (no_column_types original_query)
    | some cols ↦ elim (generate_row_description cols) [
      | none ↦ ok []
      | some fields ↦ ok (row_description fields ∷ [])
    ]
  ]

  unfoldable pub generate_data_row : ℕ → ℕ → List ColumnType → Option (List (Option String))
  generate_data_row rows i cols = elim (scan rows i (map scan_target cols)) [
    | none ↦ none
    | some cells ↦ some (cell_texts engine cols cells)
  ]

  module _ (max_mb : ℕ) (rows : ℕ) (cols : List ColumnType) (original_query : String) where
    -- The loop over `rows.Next()`, from row `i` with `left` rows to come.
    unfoldable pub data_rows : ℕ → ℕ → List ServerMessage → ℕ → Fallible (List ServerMessage) × ℕ
    data_rows zero i messages result_bytes = (ok messages, result_bytes)
    data_rows (suc left) i messages result_bytes = elim (generate_data_row rows i cols) [
      | none ↦ (err (no_data_row original_query), result_bytes)
      | some values ↦
          let total =
            if ltb 0 (max_result_bytes max_mb)
            then result_bytes + row_cost values
            else result_bytes in
          let rest = data_rows left (i + 1) (messages ++ (data_row values ∷ [])) total in
          if over_budget (max_result_bytes max_mb) total
          then (err (result_too_large max_mb original_query), total)
          else rest
    ]

  -- The messages and the updated byte count.
  unfoldable pub rows_to_data_messages :
      ℕ → Driver → ℕ → String → ℕ → Fallible (List ServerMessage) × ℕ
  unfolding columns_of
  rows_to_data_messages max_mb driver rows original_query start_result_bytes =
      elim (columns_of driver rows) [
        | none ↦ (err (no_column_types original_query), start_result_bytes)
        | some cols ↦
            if over_budget (max_result_bytes max_mb) start_result_bytes
            then (err (result_too_large max_mb original_query), start_result_bytes)
            else with_command_complete original_query
                (data_rows max_mb rows cols original_query (row_count rows) 0 [] start_result_bytes)
      ]
