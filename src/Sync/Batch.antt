-- ===== src/Sync/Batch.antt =====
-- src/syncer_table.go: how many rows make a batch, and how large a Parquet file may grow.
use bemi_db.Prelude.{
  ◌≡◌, ◌↔◌, ℕ, zero, suc, ◌*◌, ◌/◌, ◌<◌, Option, none, some, ltb, ◌==◌, nat_eq, if◌then◌else◌,
  ℕ-cases, inl, inr, arith,
}
use native.Mathlib.Nat.{div-lt_iff_lt-mul, zero-lt-suc}

pub data BatchSize : Type 0 where
  batch : ℕ → BatchSize
  -- `structure connection lost`
  query_failed : BatchSize
  -- an integer division by zero
  panicked : BatchSize

abbrev pub max_pg_rows_batch_size : ℕ
max_pg_rows_batch_size = 1048576

-- Go's division, which panics on zero.
abbrev pub batch_of_row_size : ℕ → BatchSize
batch_of_row_size zero = panicked
batch_of_row_size (suc n) =
    let size = max_pg_rows_batch_size / suc n in if size == 0 then batch 1 else batch size

-- The query answers the table's size and its number of rows, which Postgres estimates.
unfoldable pub calculate_dynamic_row_count_per_batch : Option (ℕ × ℕ) → BatchSize
calculate_dynamic_row_count_per_batch none = query_failed
calculate_dynamic_row_count_per_batch (some (table_size, zero)) = batch 1
calculate_dynamic_row_count_per_batch (some (table_size, suc row_count)) =
    if table_size == 0 then batch 1 else batch_of_row_size (table_size / suc row_count)

unfoldable pub parquet_payload_threshold : ℕ → ℕ
parquet_payload_threshold threshold_mb =
    if ltb 0 threshold_mb then threshold_mb * 1024 * 1024 else 2147483648

batch_of_row_size-panics : (r : ℕ) → (batch_of_row_size r ≡ panicked) ↔ (r ≡ 0)
batch_of_row_size-panics zero = ground arith
batch_of_row_size-panics (suc k) = elim (ℕ-cases (max_pg_rows_batch_size / suc k)) [
  | inl z ↦ ground arith
  | inr p ↦ ground arith
]

-- The calculation panics exactly when the table has fewer bytes than the estimated number of rows,
-- and is not empty.
pub row_count_per_batch-panics :
    (table_size row_count : ℕ)
    → (calculate_dynamic_row_count_per_batch (some (table_size, row_count)) ≡ panicked)
      ↔ ((0 < table_size) × (table_size < row_count))
unfolding calculate_dynamic_row_count_per_batch
row_count_per_batch-panics table_size zero = ground arith
row_count_per_batch-panics table_size (suc row_count) = ground (
  arith,
  batch_of_row_size-panics (table_size / suc row_count),
  div-lt_iff_lt-mul {x = table_size} {y = 1} (zero-lt-suc row_count),
)
