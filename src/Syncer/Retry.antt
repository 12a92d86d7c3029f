-- ===== src/Syncer/Retry.antt =====
-- src/syncer.go, syncTableWithRetry: a table is tried again after an error that is the standby's,
-- on new connections and from the checkpoint that the failed attempt left.
pub mod Holding
pub mod Closing
pub mod Settling
use bemi_db.Prelude.{
  ◌≡◌, refl, ℕ, zero, suc, ◌<◌, String, List, [], ◌∷◌, Option, none, some, Bool, true, false, ◌==◌,
  nat_eq, string_eq, if◌then◌else◌, ◌||◌, ◌&&◌, ltb,
}
use bemi_db.Sync.Metadata.{InternalTableMetadata}
use bemi_db.Syncer.Connections.{
  SyncError, Event, opened, closed, attempted, waited, Log, World, text_contains, has_code,
  new_connection, new_connection_with_snapshot, is_connection_healthy, check_health, succeeded,
}

-- Its loss makes the exported snapshot useless.
unfoldable pub loses_snapshot : SyncError → Bool
unfolding text_contains
loses_snapshot e =
    let m = e.message in
    (text_contains m "snapshot"
      && (text_contains m "does not exist"
          || text_contains m "not found"
          || text_contains m "invalid"))
    || text_contains m "current transaction is aborted"
    || (text_contains m "conn closed"
        || text_contains m "connection reset"
        || text_contains m "broken pipe"
        || text_contains m "connection lost"
        || text_contains m "structure connection lost")

unfoldable pub is_retryable : SyncError → Bool
unfolding loses_snapshot text_contains
is_retryable e =
    has_code e "40001"
    || has_code e "40P01"
    || text_contains e.message "conflict with recovery"
    || loses_snapshot e

abbrev pub max_recovery_conflict_retries : ℕ
max_recovery_conflict_retries = 3

-- The variables of the loop.
pub record Attempt : Type 0 where
  pub structure : ℕ
  pub copy : ℕ
  pub snapshot : String
  pub metadata : InternalTableMetadata

pub record Outcome : Type 0 where
  pub structure : ℕ
  pub snapshot : String
  pub error : Option SyncError

-- A connection is closed if it is not the caller's.
unfoldable pub close_own : ℕ → ℕ → Log → Log
close_own own c log = if c == own then log else closed c ∷ log

module _ (w : World) where
  module _ (structure_conn copy_conn : ℕ) (snapshot_id : String) where
    abbrev with_structure : Attempt → Option (ℕ × Log) → Option (Attempt × Log)
    with_structure a none = none
    with_structure a (some (c, log)) = some (record a { structure = c; snapshot = "" }, log)

    unfoldable pub reconnect_structure : Attempt → Log → Option (Attempt × Log)
    unfolding close_own
    reconnect_structure a log =
        let log₁ = check_health w a.structure log in
        let new = new_connection w (close_own structure_conn a.structure log₁) in
        if is_connection_healthy w a.structure log then some (a, log₁) else with_structure a new

    abbrev with_copy : Attempt → Option (ℕ × Log) → Option (Attempt × Log)
    with_copy a none = none
    with_copy a (some (c, log)) = some (record a { copy = c }, log)

    unfoldable pub reconnect_copy : Attempt → Log → Option (Attempt × Log)
    unfolding close_own
    reconnect_copy a log =
        with_copy a (new_connection_with_snapshot w a.snapshot (close_own copy_conn a.copy log))

    -- The checkpoint that has been read, if it has a transaction to resume from.
    abbrev pub resumed_metadata :
        Option InternalTableMetadata → InternalTableMetadata → InternalTableMetadata
    resumed_metadata none old = old
    resumed_metadata (some m) old = elim m.max_xmin [ none ↦ old | some x ↦ m ]

    abbrev resume : Option (Attempt × Log) → Option (Attempt × Log)
    resume none = none
    resume (some (a, log)) = some (
      record a { metadata = resumed_metadata (w.internal_table_metadata log) a.metadata },
      waited ∷ log,
    )

    abbrev then_copy : Option (Attempt × Log) → Option (Attempt × Log)
    then_copy none = none
    then_copy (some (a, log)) = reconnect_copy a log

    -- What happens between two attempts; none is an exit.
    unfoldable pub prepare_retry : Attempt → Log → Option (Attempt × Log)
    unfolding reconnect_structure reconnect_copy
    prepare_retry a log = resume (then_copy (reconnect_structure a log))

    abbrev pub give_up : SyncError → Attempt → Log → Outcome × Log
    give_up e a log = (
      record { structure = structure_conn; snapshot = snapshot_id; error = some e },
      close_own structure_conn a.structure (close_own copy_conn a.copy log),
    )

    -- The loop, with the number of attempts that are left.
    unfoldable pub attempts : ℕ → Attempt → Log → Option (Outcome × Log)
    unfolding is_retryable loses_snapshot prepare_retry close_own
    attempts zero a log =
        some (record { structure = a.structure; snapshot = a.snapshot; error = none }, log)
    attempts (suc left) a log = elim (w.sync_pg_table log a.structure a.copy a.metadata) [
      | none ↦ none
      | some none ↦ some (
        record { structure = a.structure; snapshot = a.snapshot; error = none },
        attempted a.structure a.copy a.metadata true ∷ log,
      )
      | some (some e) ↦
          let log₁ = attempted a.structure a.copy a.metadata false ∷ log in
          let a₁ = record a { snapshot = if loses_snapshot e then "" else a.snapshot } in
          elim (is_retryable e && ltb 0 left) [
            | false ↦ some (give_up e a₁ log₁)
            | true ↦ elim (prepare_retry a₁ log₁) [
              | none ↦ none
              | some (a₂, log₂) ↦ attempts left a₂ log₂
            ]
          ]
    ]

    unfoldable pub sync_table_with_retry : InternalTableMetadata → Log → Option (Outcome × Log)
    unfolding attempts
    sync_table_with_retry metadata log =
        attempts (suc max_recovery_conflict_retries)
          (record {
            structure = structure_conn;
            copy = copy_conn;
            snapshot = snapshot_id;
            metadata = metadata;
          })
          log
