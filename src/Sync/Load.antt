-- ===== src/Sync/Load.antt =====
-- src/syncer_table.go, SyncPgTable: the closure that loads a batch of rows from the CSV reader for
-- the Iceberg writer, and the checkpoint it returns with them.
use bemi_db.Prelude.{
  ◌≡◌, inl, inr, ℕ, suc, ◌+◌, String, List, [], ◌∷◌, ◌++◌, map, Option, none, some, Bool, true,
  false, ltb, leb, length, if◌then◌else◌, Option-cases, Bool-cases, arith,
}
use bemi_db.Sync.Metadata.{
  RefreshMode, full, full_in_progress, incremental, incremental_in_progress, InternalTableMetadata,
  is_in_progress,
}

abbrev pub Row : Type 0
Row = List String

-- How `csvReader.Read` fails once the rows are used up.
pub data ReadEnd : Type 0 where
  eof : ReadEnd
  read_error : String → ReadEnd

-- What the CSV reader has yet to return: rows, then an error that it repeats; and what
-- `cappedBuffer.CloseError` reports at that time.
pub record CopyStream : Type 0 where
  pub rows : List Row
  pub ending : ReadEnd
  pub close_error : Option String

-- The variables that the closure captures and changes.
pub record LoadState : Type 0 where
  pub stream : CopyStream
  pub reached_end : Bool
  pub total_row_count : ℕ
  pub max_xmin : ℕ

-- The rows of a batch, and the variables after it.
pub record Batch : Type 0 where
  pub rows : List Row
  pub rest : List Row
  pub batch_max_xmin : ℕ
  pub batch_reached_end : Bool

-- `row[len(row)-1]` and `row[:len(row)-1]`
unfoldable pub split_last : {A : Type 0} → List A → Option (List A × A)
split_last [] = none
split_last (x ∷ xs) = elim (split_last xs) [
  | none ↦ some ([], x)
  | some (before, last) ↦ some (x ∷ before, last)
]

abbrev pub without_last : Row → Row
without_last row = elim (split_last row) [ none ↦ [] | some (before, last) ↦ before ]

-- The reader has failed: an aborted COPY is not the end of the table. none is PanicIfError.
unfoldable pub at_end : CopyStream → Bool → Option Bool
at_end stream reached = elim stream.close_error [
  | some e ↦ some reached
  | none ↦ elim stream.ending [ eof ↦ some true | read_error e ↦ none ]
]

abbrev prepend : Row → Option Batch → Option Batch
prepend row none = none
prepend row (some b) = some (record b { rows = row ∷ b.rows })

abbrev end_batch : ℕ → Option Bool → Option Batch
end_batch max_xmin none = none
end_batch max_xmin (some reached) =
    some (record { rows = []; rest = []; batch_max_xmin = max_xmin; batch_reached_end = reached })

module _ (string_to_uint32 : String → Option ℕ) (dynamic_row_count_per_batch : ℕ)
    (incremental_refresh : Bool) (last_txid : ℕ) where
  abbrev xmin_of : Option (Row × String) → Option (Row × ℕ)
  xmin_of none = none
  xmin_of (some (row, text)) = elim (string_to_uint32 text) [
    | none ↦ none
    | some xmin ↦ some (row, xmin)
  ]

  -- A row without its last column, which is its xmin; none where the program stops.
  unfoldable pub parse_row : Row → Option (Row × ℕ)
  parse_row row = xmin_of (split_last row)

  -- The loop over the reader, with `count` rows already in the batch.
  unfoldable pub read_rows : CopyStream → Bool → ℕ → ℕ → List Row → Option Batch
  read_rows stream reached max_xmin count [] = end_batch max_xmin (at_end stream reached)
  read_rows stream reached max_xmin count (row ∷ rows) = elim (parse_row row) [
    | none ↦ none
    | some (values, xmin) ↦
        let more = read_rows stream reached xmin (suc count) rows in
        if leb dynamic_row_count_per_batch (suc count)
        then some (record {
          rows = values ∷ [];
          rest = rows;
          batch_max_xmin = xmin;
          batch_reached_end = reached;
        })
        else prepend values more
  ]

  unfoldable pub refresh_mode : Bool → RefreshMode
  refresh_mode reached_end =
      if reached_end
      then (if incremental_refresh then incremental else full)
      else (if incremental_refresh then incremental_in_progress else full_in_progress)

  abbrev pub checkpoint : ℕ → Batch → InternalTableMetadata
  checkpoint now b = record {
    last_refresh_mode = refresh_mode b.batch_reached_end;
    last_synced_at = now;
    last_txid = last_txid;
    max_xmin = if ltb 0 b.batch_max_xmin then some b.batch_max_xmin else none;
  }

  abbrev pub after_batch : LoadState → Batch → LoadState
  after_batch s b = record {
    stream = record (s.stream) { rows = b.rest };
    reached_end = b.batch_reached_end;
    total_row_count = s.total_row_count + length b.rows;
    max_xmin = b.batch_max_xmin;
  }

  -- One call of the closure, at the time `now`.
  unfoldable pub load_rows : ℕ → LoadState → Option (List Row × (InternalTableMetadata × LoadState))
  load_rows now s = elim (read_rows s.stream s.reached_end s.max_xmin 0 s.stream.rows) [
    | none ↦ none
    | some b ↦ some (b.rows, (checkpoint now b, after_batch s b))
  ]

  parse_row-values :
      (row values : Row) (xmin : ℕ)
      → parse_row row ≡ some (values, xmin)
      → without_last row ≡ values
  unfolding parse_row
  parse_row-values row values xmin h = elim (Option-cases (split_last row)) [
    | inl e ↦ ground arith
    | inr ((before, text), e) ↦ elim (Option-cases (string_to_uint32 text)) [
      | inl e' ↦ ground arith
      | inr (x, e') ↦ ground arith
    ]
  ]

  read_rows-prefix :
      (rows : List Row) (stream : CopyStream) (reached : Bool) (max_xmin count : ℕ) (b : Batch)
      → read_rows stream reached max_xmin count rows ≡ some b
      → (raw : List Row) × (rows ≡ raw ++ b.rest) × (b.rows ≡ map without_last raw)
  unfolding read_rows
  read_rows-prefix [] stream reached max_xmin count b h = ([], ground arith, ground arith)
  read_rows-prefix (row ∷ rows) stream reached max_xmin count b h =
      elim (Option-cases (parse_row row)) [
        | inl e ↦ absurd (ground arith)
        | inr ((values, xmin), e) ↦
            let first = parse_row-values row values xmin e in
            elim (Bool-cases (leb dynamic_row_count_per_batch (suc count))) [
              | inl enough ↦ (row ∷ [], ground arith, ground arith)
              | inr room ↦ elim (Option-cases (read_rows stream reached xmin (suc count) rows)) [
                | inl e' ↦ absurd (ground arith)
                | inr (b', e') ↦
                    let (raw, split, loaded) =
                      read_rows-prefix rows stream reached xmin (suc count) b' e' in
                    (row ∷ raw, ground arith, ground arith)
              ]
            ]
      ]

  pub read_rows-ends :
      (rows : List Row) (stream : CopyStream) (max_xmin count : ℕ) (b : Batch)
      → read_rows stream false max_xmin count rows ≡ some b
      → b.batch_reached_end ≡ true
      → (b.rest ≡ []) × (stream.ending ≡ eof) × (stream.close_error ≡ none)
  unfolding read_rows at_end
  read_rows-ends [] stream max_xmin count b h r = ground arith
  read_rows-ends (row ∷ rows) stream max_xmin count b h r = elim (Option-cases (parse_row row)) [
    | inl e ↦ ground arith
    | inr ((values, xmin), e) ↦ elim (Option-cases (read_rows stream false xmin (suc count) rows)) [
      | inl e' ↦ ground arith
      | inr (b', e') ↦ elim (Bool-cases b'.batch_reached_end) [
        | inl f ↦ ground (arith, read_rows-ends rows stream xmin (suc count) b' e' f)
        | inr f ↦ ground arith
      ]
    ]
  ]

  -- The checkpoint that comes with a batch says that the refresh is complete only when all rows of
  -- the stream have been loaded, and it ended with EOF and was not closed with an error.
  pub load_rows_complete :
      (now : ℕ) (s : LoadState) (rows : List Row) (metadata : InternalTableMetadata)
      (s' : LoadState)
      → s.reached_end ≡ false
      → load_rows now s ≡ some (rows, (metadata, s'))
      → is_in_progress metadata ≡ false
      → (s'.stream.rows ≡ []) × (s.stream.ending ≡ eof) × (s.stream.close_error ≡ none)
  unfolding load_rows is_in_progress refresh_mode
  load_rows_complete now s rows metadata s' r h p =
      elim (Option-cases (read_rows s.stream false s.max_xmin 0 s.stream.rows)) [
        | inl e ↦ ground arith
        | inr (b, e) ↦ elim (Bool-cases b.batch_reached_end) [
          | inl f ↦ ground (arith, read_rows-ends s.stream.rows s.stream s.max_xmin 0 b e f)
          | inr f ↦ ground arith
        ]
      ]

  -- A batch is the next rows of the stream, in order, each without its xmin, and they are taken
  -- off the stream.
  pub load_rows-prefix :
      (now : ℕ) (s : LoadState) (rows : List Row) (metadata : InternalTableMetadata)
      (s' : LoadState)
      → load_rows now s ≡ some (rows, (metadata, s'))
      → (raw : List Row) × (s.stream.rows ≡ raw ++ s'.stream.rows) × (rows ≡ map without_last raw)
  unfolding load_rows
  load_rows-prefix now s rows metadata s' h =
      elim (Option-cases (read_rows s.stream s.reached_end s.max_xmin 0 s.stream.rows)) [
        | inl e ↦ absurd (ground arith)
        | inr (b, e) ↦
            let (raw, split, loaded) =
              read_rows-prefix s.stream.rows s.stream s.reached_end s.max_xmin 0 b e in
            (raw, ground arith, ground arith)
      ]
