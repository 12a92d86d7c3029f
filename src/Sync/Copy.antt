-- ===== src/Sync/Copy.antt =====
-- src/syncer_table.go and src/storage_utils.go: the rows of a COPY in a Parquet file, with the
-- checkpoint that the file ends with.
pub mod Examples
use bemi_db.Prelude.{
  ◌≡◌, refl, ap, ℕ, suc, ◌+◌, ◌<◌, String, List, [], ◌∷◌, ◌++◌, map, Option, none, some, Bool, true,
  false, length, length-append, Option-cases, Bool-cases, inl, inr, arith, if◌then◌else◌, leb,
}
use bemi_db.Columns.Types.{PgSchemaColumn}
use bemi_db.Columns.Values.{FormattedValue}
use bemi_db.Sync.Metadata.{InternalTableMetadata, is_in_progress}
use bemi_db.Sync.Load.{
  Row, ReadEnd, eof, CopyStream, LoadState, Batch, load_rows, read_rows, parse_row, at_end,
  refresh_mode, without_last, load_rows-prefix, read_rows-ends,
}
use bemi_db.Sync.Parquet.{
  RowMap, ParquetRun, written, write_parquet_file, Delivers, Delivers-weaken,
  write_parquet_file-Delivers,
}
use bemi_db.Iceberg.Files.{ParquetFile}
use bemi_db.Iceberg.Storage.{History, Storage}
use bemi_db.Iceberg.Writer.{write}
use bemi_db.Iceberg.Writer.Termination.{Halts, Consumes, write-terminates}

-- The stream of a COPY that ended cleanly has been read.
abbrev pub IsReadToEnd : LoadState → Type 0
IsReadToEnd s = (s.stream.rows ≡ []) × (s.stream.ending ≡ eof) × (s.stream.close_error ≡ none)

-- `reachedEnd` is set only at the clean end.
abbrev pub EndIsTrue : LoadState → Type 0
EndIsTrue s = s.reached_end ≡ true → IsReadToEnd s

-- A checkpoint that is not in progress comes after the end.
abbrev CompleteAtEnd : InternalTableMetadata → LoadState → Type 0
CompleteAtEnd metadata s = is_in_progress metadata ≡ false → s.reached_end ≡ true

abbrev pub rows_left : LoadState → ℕ
rows_left s = length s.stream.rows

length-map : (f : Row → Row) (rows : List Row) → length (map f rows) ≡ length rows
length-map f [] = refl
length-map f (r ∷ rows) = ap suc (length-map f rows)

module _ (string_to_uint32 : String → Option ℕ) (dynamic_row_count_per_batch : ℕ)
    (incremental_refresh : Bool) (last_txid : ℕ)
    -- the time at which the closure is called
    (now : LoadState → ℕ) where
  abbrev pub load : LoadState → Option (List Row × (InternalTableMetadata × LoadState))
  load s =
      load_rows string_to_uint32 dynamic_row_count_per_batch incremental_refresh last_txid (now s) s

  -- A batch that is read after the end leaves nothing and is the end again.
  read_rows_after_end :
      (s : LoadState) (b : Batch)
      → IsReadToEnd s
      → read_rows string_to_uint32 dynamic_row_count_per_batch incremental_refresh last_txid
          s.stream s.reached_end s.max_xmin 0 s.stream.rows
        ≡ some b
      → (b.rest ≡ []) × (b.batch_reached_end ≡ true)
  unfolding read_rows at_end
  read_rows_after_end s b end e = ground (arith)

  load-EndIsTrue :
      (s s' : LoadState) (rows : List Row) (metadata : InternalTableMetadata)
      → EndIsTrue s
      → load s ≡ some (rows, (metadata, s'))
      → EndIsTrue s' × CompleteAtEnd metadata s'
  unfolding load_rows is_in_progress refresh_mode
  load-EndIsTrue s s' rows metadata i e =
      let batch =
        read_rows string_to_uint32 dynamic_row_count_per_batch incremental_refresh last_txid
          s.stream s.reached_end s.max_xmin 0 s.stream.rows in
      elim (Option-cases batch) [
        | inl n ↦ absurd (ground arith)
        | inr (b, r) ↦ elim (Bool-cases s.reached_end) [
          | inl ended ↦
              let after = read_rows_after_end s b (i ended) r in
              (λ t. ground arith, λ t. ground arith)
          | inr open_yet ↦ elim (Bool-cases b.batch_reached_end) [
            | inl f ↦
                let ends =
                  read_rows-ends string_to_uint32 dynamic_row_count_per_batch incremental_refresh
                    last_txid s.stream.rows s.stream s.max_xmin 0 b (rw open_yet at r) f in
                (λ t. ground arith, λ t. ground arith)
            | inr f ↦ (λ t. ground arith, λ t. ground arith)
          ]
        ]
      ]

  load-takes :
      (s s' : LoadState) (rows : List Row) (metadata : InternalTableMetadata)
      → load s ≡ some (rows, (metadata, s'))
      → length rows + rows_left s' ≡ rows_left s
  load-takes s s' rows metadata e =
      let (raw, split, loaded) =
        load_rows-prefix string_to_uint32 dynamic_row_count_per_batch incremental_refresh last_txid
          (now s) s rows metadata s' e in
      omega (
        arith,
        ap length split,
        ap length loaded,
        length-map without_last raw,
        length-append raw s'.stream.rows,
      )

  module _ (name_of : PgSchemaColumn → String)
      (format : PgSchemaColumn → String → Option FormattedValue) (write_row : RowMap → Option ℕ)
      (columns : List PgSchemaColumn) (max_payload_threshold : ℕ)
      (write_stop : ℕ → Option {0} Unit) where
    -- CreateParquet of the storage, as far as it writes rows.
    abbrev pub copy_to_parquet : ℕ → LoadState → ParquetRun LoadState
    copy_to_parquet fuel s =
        write_parquet_file name_of format write_row load columns max_payload_threshold write_stop
          fuel s

    -- A Parquet file has a record for each row that it takes from the stream, and the checkpoint that
    -- it ends with is of a complete refresh only if the stream is used up, ended with EOF and was not
    -- closed with an error. Two turns more than there are rows are enough.
    pub copy_to_parquet_complete :
        (fuel : ℕ) (s : LoadState)
        → EndIsTrue s
        → suc (rows_left s) < fuel
        → Delivers (copy_to_parquet fuel s) (λ count metadata s'.
          (count + rows_left s' ≡ rows_left s) × (is_in_progress metadata ≡ false → IsReadToEnd s'))
    copy_to_parquet_complete fuel s end lt =
        Delivers-weaken (copy_to_parquet fuel s) _ _
          (write_parquet_file-Delivers name_of format write_row load columns max_payload_threshold
            write_stop rows_left EndIsTrue CompleteAtEnd
            (λ l l' rows metadata i e.
              let kept = load-EndIsTrue l l' rows metadata i e in
              (load-takes l l' rows metadata e, kept.0, kept.1))
            fuel s end lt)
          (λ count metadata s' d. (d.0, λ complete. d.1 (d.2 complete)))

    -- A storage that writes its Parquet files so.
    abbrev pub CopiesRows : Storage LoadState → Type 0
    CopiesRows storage =
        (h : History) (s s' : LoadState) (file : ParquetFile) (metadata : InternalTableMetadata)
        → storage.create_parquet h s ≡ some (file, (metadata, s'))
        → copy_to_parquet (rows_left s + 2) s ≡ written file.record_count metadata s'

    CopiesRows-Consumes :
        (storage : Storage LoadState) → CopiesRows storage → Consumes storage rows_left
    CopiesRows-Consumes storage copies h s s' file metadata e =
        let takes : Delivers (copy_to_parquet (rows_left s + 2) s) _ =
          write_parquet_file-Delivers name_of format write_row load columns max_payload_threshold
            write_stop rows_left (λ l. Unit) (λ m l. Unit)
            (λ l l' rows m i e. (load-takes l l' rows m e, tt, tt)) (rows_left s + 2) s tt
            (omega arith) in
        omega (arith, (rw (copies h s s' file metadata e) at takes).0)

    -- The copy of a table to a storage that writes its Parquet files so returns, or stops at an error,
    -- for each stream of rows, however it ends: three turns more than there are rows are enough.
    pub copy_write-terminates :
        (storage : Storage LoadState) (continued : Bool) (s : LoadState) (h : History)
        → CopiesRows storage
        → Halts (write storage continued (rows_left s + 3) s h) (λ r. Unit)
    copy_write-terminates storage continued s h copies =
        write-terminates storage rows_left continued (rows_left s + 3) s h
          (CopiesRows-Consumes storage copies) (omega arith)
