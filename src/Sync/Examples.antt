-- ===== src/Sync/Examples.antt =====
-- Tests of the model of the copy of a table, and its theorems at concrete inputs.
use bemi_db.Prelude.{
  ◌≡◌, ◌↔◌, refl, ℕ, ◌≤◌, ◌<◌, [], ◌∷◌, String, Option, none, some, arith, false, true,
}
use bemi_db.Wire.Text.{nat_to_string}
use bemi_db.Names.{PgSchemaTable, pg_table_string}
use bemi_db.Sync.Metadata.{InternalTableMetadata, full, full_in_progress, pg_wraparound_txid}
use bemi_db.Sync.Window.{
  between, copy_window, copy_window-selects, copy_from_pg_table_sql, window_sql, selects,
  first_distance, distance,
}
use bemi_db.Sync.Batch.{panicked, calculate_dynamic_row_count_per_batch, row_count_per_batch-panics}
use bemi_db.Sync.Load.{
  LoadState, eof, load_rows, read_rows, parse_row, split_last, at_end, refresh_mode,
}

abbrev pub users : PgSchemaTable
users = record { schema = "public"; table = "users"; parent_partitioned_table = "" }

-- A full refresh that was interrupted at the transaction 1000000000.
abbrev interrupted : InternalTableMetadata
interrupted = record {
  last_refresh_mode = full_in_progress;
  last_synced_at = 0;
  last_txid = 6294967296;
  max_xmin = some 1000000000;
}

interrupted_sql :
    copy_from_pg_table_sql users interrupted 7294967296 true
    ≡ some
        "COPY (SELECT *, xmin::text::bigint AS xmin FROM \"public\".\"users\" WHERE xmin::text::bigint >= 1000000000 AND xmin::text::bigint <= 3000000000 ORDER BY xmin::text::bigint ASC) TO STDOUT WITH CSV HEADER NULL 'BEMIDB_NULL'"
unfolding copy_from_pg_table_sql copy_window window_sql pg_table_string nat_to_string
interrupted_sql = refl

copy_window-selects_example : (selects (between true 1000000000 3000000000) 1000000000 ≡ true) ↔ (
    (first_distance interrupted ≤ distance 1000000000 1000000000)
    × (distance 1000000000 1000000000 ≤ distance 1000000000 (pg_wraparound_txid 7294967296)))
unfolding copy_window
copy_window-selects_example =
    copy_window-selects interrupted 7294967296 1000000000 1000000000
      (between true 1000000000 3000000000) refl (omega arith) (omega arith) refl

row_count_per_batch-panics_example :
    (calculate_dynamic_row_count_per_batch (some (8192, 8193)) ≡ panicked)
    ↔ ((0 < 8192) × (8192 < 8193))
row_count_per_batch-panics_example = row_count_per_batch-panics 8192 8193

-- Every text is the transaction 7.
abbrev pub seven : String → Option ℕ
seven text = some 7

abbrev pub two_rows : LoadState
two_rows = record {
  stream = record {
    rows = ("a" ∷ "7" ∷ []) ∷ ("b" ∷ "7" ∷ []) ∷ [];
    ending = eof;
    close_error = none;
  };
  reached_end = false;
  total_row_count = 0;
  max_xmin = 0;
}

abbrev all_loaded : LoadState
all_loaded = record {
  stream = record { rows = []; ending = eof; close_error = none };
  reached_end = true;
  total_row_count = 2;
  max_xmin = 7;
}

abbrev full_checkpoint : InternalTableMetadata
full_checkpoint = record {
  last_refresh_mode = full;
  last_synced_at = 5;
  last_txid = 9;
  max_xmin = some 7;
}

loaded :
    load_rows seven 4 false 9 5 two_rows
    ≡ some (("a" ∷ []) ∷ ("b" ∷ []) ∷ [], (full_checkpoint, all_loaded))
unfolding load_rows read_rows parse_row split_last at_end refresh_mode
loaded = refl
