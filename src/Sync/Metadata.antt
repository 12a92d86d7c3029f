-- ===== src/Sync/Metadata.antt =====
-- src/storage_interface.go: InternalTableMetadata, the checkpoint of a table's refresh; and the
-- transaction numbers of src/utils.go.
use bemi_db.Prelude.{ℕ, ◌%◌, String, ◌<>◌, Option, none, some, Bool, true, false, ltb}
use bemi_db.Wire.Text.{nat_to_string}

pub data RefreshMode : Type 0 where
  full full_in_progress incremental incremental_in_progress : RefreshMode
  -- the zero value, of a table that has no metadata
  unset : RefreshMode

-- The text that the metadata file holds.
unfoldable pub mode_text : RefreshMode → String
mode_text full = "FULL"
mode_text full_in_progress = "FULL_IN_PROGRESS"
mode_text incremental = "INCREMENTAL"
mode_text incremental_in_progress = "INCREMENTAL_IN_PROGRESS"
mode_text unset = ""

pub record InternalTableMetadata : Type 0 where
  pub last_refresh_mode : RefreshMode
  pub last_synced_at : ℕ
  pub last_txid : ℕ
  -- a 32-bit number, or nil
  pub max_xmin : Option ℕ

abbrev pub mode_in_progress : RefreshMode → Bool
mode_in_progress incremental_in_progress = true
mode_in_progress full_in_progress = true
mode_in_progress full = false
mode_in_progress incremental = false
mode_in_progress unset = false

unfoldable pub is_in_progress : InternalTableMetadata → Bool
is_in_progress m = mode_in_progress m.last_refresh_mode

-- none is the panic on a nil MaxXmin.
unfoldable pub max_xmin_string : InternalTableMetadata → Option String
max_xmin_string m = elim m.max_xmin [ none ↦ none | some x ↦ some (nat_to_string x) ]

-- A transaction number is not negative, so Go's remainder is that of the natural numbers.
abbrev pub pg_wraparound_txid : ℕ → ℕ
pg_wraparound_txid txid = txid % 4294967296

abbrev pub is_pg_wraparound_txid : ℕ → Bool
is_pg_wraparound_txid txid = ltb 4294967296 txid

unfoldable pub last_wrapped_around_txid_string : InternalTableMetadata → String
last_wrapped_around_txid_string m = nat_to_string (pg_wraparound_txid m.last_txid)

unfoldable pub metadata_string : InternalTableMetadata → String
metadata_string m =
    "LastRefreshMode: "
    <> (mode_text m.last_refresh_mode
        <> (", LastSyncedAt: "
            <> (nat_to_string m.last_synced_at
                <> (", MaxXmin: "
                    <> (elim m.max_xmin [ none ↦ "null" | some x ↦ nat_to_string x ])))))
