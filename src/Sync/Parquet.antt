-- ===== src/Sync/Parquet.antt =====
-- src/storage_utils.go, WriteParquetFile: the rows that the closure loads, batch after batch, become
-- the records of one Parquet file. json and parquet-go are a parameter.
use bemi_db.Prelude.{
  ◌≡◌, ℕ, zero, suc, ◌+◌, ◌<◌, String, List, [], ◌∷◌, Option, none, some, true, false, ltb, leb,
  ◌&&◌, length, Option-cases, Bool-cases, inl, inr, arith,
}
use bemi_db.Columns.Types.{PgSchemaColumn}
use bemi_db.Columns.Values.{FormattedValue}
use bemi_db.Sync.Metadata.{InternalTableMetadata}
use bemi_db.Sync.Load.{Row}

-- The values of a row by name, in the order of the columns; of two with one name Go keeps the last.
abbrev pub RowMap : Type 0
RowMap = List (String × FormattedValue)

-- The file's records, the checkpoint that came with the last batch, and the closure's variables.
pub data ParquetRun (L : Type 0) : Type 0 where
  written : ℕ → InternalTableMetadata → L → ParquetRun L
  -- an error, a panic, or an exit
  failed : ParquetRun L
  -- the model has no fuel left
  out_of_fuel : ParquetRun L

-- What a run promises of its result: it does not run out of fuel.
abbrev pub Delivers :
    {L : Type 0} → ParquetRun L → (ℕ → InternalTableMetadata → L → Type 0) → Type 0
Delivers (written count metadata l) P = P count metadata l
Delivers failed P = Unit
Delivers out_of_fuel P = ⊥

pub Delivers-weaken :
    {L : Type 0} (run : ParquetRun L) (P Q : ℕ → InternalTableMetadata → L → Type 0)
    → Delivers run P
    → ((count : ℕ) (metadata : InternalTableMetadata) (l : L)
        → P count metadata l
        → Q count metadata l)
    → Delivers run Q
Delivers-weaken (written count metadata l) P Q d f = f count metadata l d
Delivers-weaken failed P Q d f = tt
Delivers-weaken out_of_fuel P Q d f = d

-- The name of a column and its value; none is a panic.
abbrev with_value : String → Option FormattedValue → Option RowMap → Option RowMap
with_value name (some value) (some rest) = some ((name, value) ∷ rest)
with_value name (some value) none = none
with_value name none rest = none

module _ (name_of : PgSchemaColumn → String)
    (format : PgSchemaColumn → String → Option FormattedValue)
    -- the length of the JSON text of a row that has been written
    (write_row : RowMap → Option ℕ) where
  -- A row with more values than there are columns is an index out of range.
  unfoldable pub row_map : List PgSchemaColumn → Row → Option RowMap
  row_map columns [] = some []
  row_map [] (value ∷ values) = none
  row_map (c ∷ columns) (value ∷ values) =
      with_value (name_of c) (format c value) (row_map columns values)

  abbrev write_map : Option RowMap → Option ℕ
  write_map none = none
  write_map (some m) = write_row m

  abbrev then_count : Option ℕ → Option (ℕ × ℕ) → Option (ℕ × ℕ)
  then_count (some size) (some (count, total)) = some (suc count, size + total)
  then_count (some size) none = none
  then_count none rest = none

  -- The number of the rows, and the length of their JSON texts.
  unfoldable pub write_rows : List PgSchemaColumn → List Row → Option (ℕ × ℕ)
  unfolding row_map
  write_rows columns [] = some (0, 0)
  write_rows columns (row ∷ rows) =
      then_count (write_map (row_map columns row)) (write_rows columns rows)

  module _ {L : Type 0} (load : L → Option (List Row × (InternalTableMetadata × L)))
      (columns : List PgSchemaColumn) (max_payload_threshold : ℕ)
      -- `parquetWriter.WriteStop`, of the number of records
      (write_stop : ℕ → Option {0} Unit) where
    abbrev stop_writer : Option {0} Unit → ℕ → InternalTableMetadata → L → ParquetRun L
    stop_writer none count metadata l = failed
    stop_writer (some tt) count metadata l = written count metadata l

    -- `for len(rows) > 0`
    unfoldable pub write_batches : ℕ → List Row → InternalTableMetadata → L → ℕ → ℕ → ParquetRun L
    write_batches zero rows metadata l count size = out_of_fuel
    write_batches (suc fuel) [] metadata l count size =
        stop_writer (write_stop count) count metadata l
    write_batches (suc fuel) (row ∷ rows) metadata l count size =
        elim (write_rows columns (row ∷ rows)) [
          | none ↦ failed
          | some (more, bytes) ↦
              elim (ltb 0 max_payload_threshold && leb max_payload_threshold (size + bytes)) [
                | true ↦ stop_writer (write_stop (count + more)) (count + more) metadata l
                | false ↦ elim (load l) [
                  | none ↦ failed
                  | some (rows', (metadata', l')) ↦
                      write_batches fuel rows' metadata' l' (count + more) (size + bytes)
                ]
              ]
        ]

    unfoldable pub write_parquet_file : ℕ → L → ParquetRun L
    unfolding write_batches
    write_parquet_file fuel l = elim (load l) [
      | none ↦ failed
      | some (rows, (metadata, l')) ↦ write_batches fuel rows metadata l' 0 0
    ]

    write_rows-count :
        (rows : List Row) (more bytes : ℕ)
        → write_rows columns rows ≡ some (more, bytes)
        → more ≡ length rows
    unfolding write_rows
    write_rows-count [] more bytes e = ground arith
    write_rows-count (row ∷ rows) more bytes e = elim (Option-cases (write_rows columns rows)) [
      | inl n ↦ elim (Option-cases (write_map (row_map columns row))) [
        | inl n' ↦ absurd (ground arith)
        | inr (size, s) ↦ absurd (ground arith)
      ]
      | inr ((count, total), s) ↦ elim (Option-cases (write_map (row_map columns row))) [
        | inl n' ↦ absurd (ground arith)
        | inr (size, s') ↦ ground (arith, write_rows-count rows count total s)
      ]
    ]

    module _ (left : L → ℕ) (I : L → Type 0) (Ok : InternalTableMetadata → L → Type 0)
        -- what a load does, which the closure's invariant gives
        (loads : (l l' : L) (rows : List Row) (metadata : InternalTableMetadata)
          → I l
          → load l ≡ some (rows, (metadata, l'))
          → (length rows + left l' ≡ left l) × I l' × Ok metadata l') where
      stop_writer-Delivers :
          (o : Option {0} Unit) (count : ℕ) (metadata : InternalTableMetadata) (l : L)
          (P : ℕ → InternalTableMetadata → L → Type 0)
          → P count metadata l
          → Delivers (stop_writer o count metadata l) P
      stop_writer-Delivers none count metadata l P p = tt
      stop_writer-Delivers (some tt) count metadata l P p = p

      abbrev Takes : ℕ → ℕ → InternalTableMetadata → L → Type 0
      Takes all count metadata l = (count + left l ≡ all) × I l × Ok metadata l

      write_batches-Delivers :
          (fuel : ℕ) (rows : List Row) (metadata : InternalTableMetadata) (l : L)
          (count size all : ℕ)
          → length rows + left l < fuel
          → count + length rows + left l ≡ all
          → I l
          → Ok metadata l
          → Delivers (write_batches fuel rows metadata l count size) (Takes all)
      unfolding write_batches
      write_batches-Delivers zero rows metadata l count size all f le i ok = absurd (omega arith)
      write_batches-Delivers (suc fuel) [] metadata l count size all f le i ok =
          stop_writer-Delivers (write_stop count) count metadata l (Takes all) (omega arith, i, ok)
      write_batches-Delivers (suc fuel) (row ∷ rows) metadata l count size all f le i ok =
          elim (Option-cases (write_rows columns (row ∷ rows))) [
            | inl n ↦ rw (n, Delivers) tt
            | inr ((more, bytes), w) ↦
                let c = write_rows-count (row ∷ rows) more bytes w in
                elim (Bool-cases
                  (ltb 0 max_payload_threshold && leb max_payload_threshold (size + bytes))) [
                    | inl enough ↦
                        rw (w, enough, Delivers)
                          (stop_writer-Delivers (write_stop (count + more)) (count + more) metadata
                            l (Takes all) (omega arith, i, ok))
                    | inr room ↦ elim (Option-cases (load l)) [
                      | inl n ↦ rw (w, room, n, Delivers) tt
                      | inr ((rows', (metadata', l')), e) ↦
                          let used = loads l l' rows' metadata' i e in
                          rw (w, room, e, Delivers)
                            (write_batches-Delivers fuel rows' metadata' l' (count + more)
                              (size + bytes) all (omega arith) (omega arith) used.1 used.2)
                    ]
                  ]
          ]

      -- When each load takes its rows from those that are left, keeps the invariant and gives a
      -- checkpoint that fits, the records of a file are the rows that it has taken from what was left,
      -- and it ends with a checkpoint that fits: two turns more than there are rows are enough.
      pub write_parquet_file-Delivers :
          (fuel : ℕ) (l : L)
          → I l
          → suc (left l) < fuel
          → Delivers (write_parquet_file fuel l) (Takes (left l))
      unfolding write_parquet_file
      write_parquet_file-Delivers fuel l i f = elim (Option-cases (load l)) [
        | inl n ↦ rw (n, Delivers) tt
        | inr ((rows, (metadata, l')), e) ↦
            let used = loads l l' rows metadata i e in
            rw (e, Delivers)
              (write_batches-Delivers fuel rows metadata l' 0 0 (left l) (omega arith) (omega arith)
                used.1 used.2)
      ]
