-- ===== src/Wire/Results/Budget.antt =====
-- src/query_handler.go, rowsToDataMessages: the result budget of --max-result-mb.
use bemi_db.Prelude.{
  ltb, if◌then◌else◌, ℕ-cases, ℕ, ◌+◌, ◌*◌, ◌≤◌, ◌<◌, ◌≡◌, refl, sym, ap, ◌∙◌, ◌&&◌, inl, inr,
  String, len, List, [], ◌∷◌, ◌++◌, map, Option, none, some, Bool, true, false, arith, append-nil,
  append_assoc, length,
}
use bemi_db.Wire.Engine.{ColumnType, Engine, Driver}
use bemi_db.Wire.Message.{ServerMessage, data_row, command_complete, result_too_large}
use bemi_db.Wire.Results.{
  ok, err, row_cost, value_bytes, max_result_bytes, command_tag, over_budget, generate_data_row,
  data_rows, rows_to_data_messages, is_open,
}

-- The rows of a result, when all of them can be read.
abbrev pub Row : Type 0
Row = List (Option String)

unfoldable pub rows_cost : List Row → ℕ
rows_cost [] = 0
rows_cost (r ∷ rs) = row_cost r + rows_cost rs

-- The number of all cells, NULL or not, and the length of the texts of those that are not.
abbrev pub number_of_cells : List Row → ℕ
number_of_cells [] = 0
number_of_cells (r ∷ rs) = length r + number_of_cells rs

abbrev pub text_of : Option String → String
text_of none = ""
text_of (some s) = s

abbrev pub length_of_texts : List (Option String) → ℕ
length_of_texts [] = 0
length_of_texts (cell ∷ cells) = len (text_of cell) + length_of_texts cells

abbrev pub length_of_all : List Row → ℕ
length_of_all [] = 0
length_of_all (r ∷ rs) = length_of_texts r + length_of_all rs

-- What the rows of a result take: 64 bytes for a row, 48 for a cell, and the texts.
abbrev pub bytes_of : List Row → ℕ
bytes_of rs = 64 * length rs + 48 * number_of_cells rs + length_of_all rs

-- There is a limit, which is in units of 1048576 bytes, and the bytes are above it.
abbrev pub exceeds : ℕ → ℕ → Bool
exceeds max_mb bytes = ltb 0 max_mb && ltb (1048576 * max_mb) bytes

value_bytes_lem : (r : Row) → value_bytes r ≡ length_of_texts r
unfolding value_bytes
value_bytes_lem [] = refl
value_bytes_lem (none ∷ r) = omega (arith, value_bytes_lem r)
value_bytes_lem (some s ∷ r) = ap (λ n. len s + n) (value_bytes_lem r)

rows_cost_lem : (rs : List Row) → rows_cost rs ≡ bytes_of rs
unfolding rows_cost row_cost
rows_cost_lem [] = refl
rows_cost_lem (r ∷ rs) = omega (arith, value_bytes_lem r, rows_cost_lem rs)

exceeds_lem : (max_mb n : ℕ) → over_budget (max_result_bytes max_mb) n ≡ exceeds max_mb n
exceeds_lem max_mb n = ground arith

module _ (engine : Engine) (max_mb : ℕ) (rows : ℕ) (cols : List ColumnType) (query : String) where
  -- The row that is read at each place from `i` on.
  abbrev pub Reads : ℕ → List Row → Type 0
  Reads i [] = Unit {0}
  Reads i (r ∷ rs) = (generate_data_row engine rows i cols ≡ some r) × Reads (i + 1) rs

  data_rows_fits :
      (rs : List Row) (i : ℕ) (messages : List ServerMessage) (n : ℕ)
      → Reads i rs
      → 0 < max_mb
      → n + rows_cost rs ≤ max_result_bytes max_mb
      → data_rows engine max_mb rows cols query (length rs) i messages n
        ≡ (ok (messages ++ map data_row rs), n + rows_cost rs)
  unfolding data_rows rows_cost
  data_rows_fits [] i messages n reads limited fits = ground (arith, append-nil messages)
  data_rows_fits (r ∷ rs) i messages n reads limited fits = ground (
    arith,
    reads,
    data_rows_fits rs (i + 1) (messages ++ (data_row r ∷ [])) (n + row_cost r) reads.1 limited,
    append_assoc messages (data_row r ∷ []) (map data_row rs),
  )

  data_rows_exceeds :
      (rs : List Row) (i : ℕ) (messages : List ServerMessage) (n : ℕ)
      → Reads i rs
      → 0 < max_mb
      → n ≤ max_result_bytes max_mb
      → max_result_bytes max_mb < n + rows_cost rs
      → (data_rows engine max_mb rows cols query (length rs) i messages n).0
        ≡ err (result_too_large max_mb query)
  unfolding data_rows rows_cost
  data_rows_exceeds [] i messages n reads limited within exceeds = absurd (omega arith)
  data_rows_exceeds (r ∷ rs) i messages n reads limited within exceeds = ground (
    arith,
    reads,
    data_rows_exceeds rs (i + 1) (messages ++ (data_row r ∷ [])) (n + row_cost r) reads.1 limited,
  )

  data_rows_unlimited :
      (rs : List Row) (i : ℕ) (messages : List ServerMessage) (n : ℕ)
      → Reads i rs
      → max_mb ≡ 0
      → data_rows engine max_mb rows cols query (length rs) i messages n
        ≡ (ok (messages ++ map data_row rs), n)
  unfolding data_rows
  data_rows_unlimited [] i messages n reads unlimited = ground (arith, append-nil messages)
  data_rows_unlimited (r ∷ rs) i messages n reads unlimited = ground (
    arith,
    reads,
    data_rows_unlimited rs (i + 1) (messages ++ (data_row r ∷ [])) n reads.1,
    append_assoc messages (data_row r ∷ []) (map data_row rs),
  )

  -- The messages of a complete result.
  abbrev pub complete : List Row → List ServerMessage
  complete rs = map data_row rs ++ (command_complete (command_tag query) ∷ [])

  module _ (driver : Driver) (start : ℕ) (rs : List Row)
      (opened : is_open rows driver.open_rows ≡ true)
      (columns : engine.column_types rows ≡ some cols) (counted : engine.row_count rows ≡ length rs)
      (reads : Reads 0 rs) where
    rows_to_data_messages_lem : (rows_to_data_messages engine max_mb driver rows query start).0 ≡ (
        if over_budget (max_result_bytes max_mb) (start + rows_cost rs)
        then err (result_too_large max_mb query)
        else ok (complete rs))
    unfolding rows_to_data_messages
    rows_to_data_messages_lem = elim (ℕ-cases max_mb) [
      | inl unlimited ↦ ground (arith, data_rows_unlimited rs 0 [] start reads unlimited)
      | inr limited ↦ ground (
        arith,
        data_rows_fits rs 0 [] start reads limited,
        data_rows_exceeds rs 0 [] start reads limited,
      )
    ]

    count_lem :
        over_budget (max_result_bytes max_mb) (start + rows_cost rs) ≡ false
        → (rows_to_data_messages engine max_mb driver rows query start).1
          ≡ (if ltb 0 max_mb then start + rows_cost rs else start)
    unfolding rows_to_data_messages
    count_lem within = elim (ℕ-cases max_mb) [
      | inl unlimited ↦ ground (arith, data_rows_unlimited rs 0 [] start reads unlimited)
      | inr limited ↦ ground (arith, data_rows_fits rs 0 [] start reads limited)
    ]

    -- An open result with columns whose rows can all be read is answered by every row in order and a
    -- CommandComplete, unless there is a limit and the bytes counted before exceed it together with 64
    -- bytes for each row, 48 for each cell and the lengths of the texts of the cells: then the answer
    -- is the error, and no row is sent.
    pub rows_to_data_messages-budget :
        (rows_to_data_messages engine max_mb driver rows query start).0 ≡ (
          if exceeds max_mb (start + bytes_of rs)
          then err (result_too_large max_mb query)
          else ok (complete rs))
    rows_to_data_messages-budget =
        let same : over_budget (max_result_bytes max_mb) (start + rows_cost rs)
            ≡ exceeds max_mb (start + bytes_of rs) =
          exceeds_lem max_mb (start + rows_cost rs)
          ∙ ap (λ n. exceeds max_mb (start + n)) (rows_cost_lem rs) in
        rows_to_data_messages_lem
        ∙ ap (λ b. if b then err (result_too_large max_mb query) else ok (complete rs)) same

    -- When all rows of an open result with columns can be read and are sent, the new count of bytes is
    -- the old one plus 64 for each row, 48 for each cell and the lengths of the texts of the cells;
    -- without a limit nothing is counted.
    pub rows_to_data_messages-count :
        exceeds max_mb (start + bytes_of rs) ≡ false
        → (rows_to_data_messages engine max_mb driver rows query start).1
          ≡ (if ltb 0 max_mb then start + bytes_of rs else start)
    rows_to_data_messages-count within =
        let same : exceeds max_mb (start + bytes_of rs)
            ≡ over_budget (max_result_bytes max_mb) (start + rows_cost rs) =
          ap (λ n. exceeds max_mb (start + n)) (sym (rows_cost_lem rs))
          ∙ sym (exceeds_lem max_mb (start + rows_cost rs)) in
        count_lem (sym same ∙ within)
        ∙ ap (λ n. if ltb 0 max_mb then start + n else start) (rows_cost_lem rs)
