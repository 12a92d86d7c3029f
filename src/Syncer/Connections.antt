-- ===== src/Syncer/Connections.antt =====
-- src/syncer.go: the connections that the syncer opens, and the errors of Postgres on them. A
-- connection is the number of those that were opened before it.
pub mod Transactions
use text.Mathlib.Text.{starts_with}
use Prim.Native.String.{slice}
use bemi_db.Prelude.{
  ◌≡◌, refl, ℕ, zero, suc, ◌+◌, ◌≤◌, ◌<◌, String, ◌<>◌, len, List, [], ◌∷◌, Option, none, some,
  Bool, true, false, ◌==◌, nat_eq, string_eq, if◌then◌else◌, ◌||◌, ◌&&◌, not, arith,
}
use bemi_db.Names.{PgSchemaTable}
use bemi_db.Sync.Metadata.{InternalTableMetadata}

-- An error with its text, which is in lower case, and the SQLSTATE if it is one of Postgres.
pub record SyncError : Type 0 where
  pub message : String
  pub code : Option String

-- The statements that the syncer executes itself.
pub data Statement : Type 0 where
  begin_serializable begin_repeatable_read rollback select_one select_export_snapshot : Statement
  set_transaction_snapshot : String → Statement

unfoldable pub sql_text : Statement → String
sql_text begin_serializable = "BEGIN TRANSACTION ISOLATION LEVEL SERIALIZABLE READ ONLY DEFERRABLE"
sql_text begin_repeatable_read = "BEGIN TRANSACTION ISOLATION LEVEL REPEATABLE READ READ ONLY"
sql_text rollback = "ROLLBACK"
sql_text select_one = "SELECT 1"
sql_text select_export_snapshot = "SELECT pg_export_snapshot()"
sql_text (set_transaction_snapshot snapshot) = "SET TRANSACTION SNAPSHOT '" <> (snapshot <> "'")

pub data Event : Type 0 where
  opened : ℕ → Event
  closed : ℕ → Event
  -- a statement on a connection, and whether it succeeded
  executed : ℕ → Statement → Bool → Event
  -- SyncPgTable with the structure and the copy connection, and whether it returned nil
  attempted : ℕ → ℕ → InternalTableMetadata → Bool → Event
  waited : Event

-- The newest event first.
abbrev pub Log : Type 0
Log = List Event

-- Postgres, and the parts that the syncer calls; each answer may depend on all that came before.
pub record World : Type 0 where
  -- pgx.Connect
  pub connects : Log → Bool
  -- conn.Exec
  pub executes : Log → ℕ → Statement → Option SyncError
  -- the name that a statement of pg_export_snapshot answers
  pub exported_snapshot : Log → ℕ → String
  -- SyncPgTable; it exits on some errors, which is none
  pub sync_pg_table : Log → ℕ → ℕ → InternalTableMetadata → Option (Option SyncError)
  -- icebergReader.InternalTableMetadata
  pub internal_table_metadata : Log → Option InternalTableMetadata

-- The number of connections so far.
unfoldable pub fresh : Log → ℕ
fresh [] = 0
fresh (opened c ∷ log) = suc (fresh log)
fresh (closed c ∷ log) = fresh log
fresh (executed c sql ok ∷ log) = fresh log
fresh (attempted s c m ok ∷ log) = fresh log
fresh (waited ∷ log) = fresh log

unfoldable pub is_open : ℕ → Log → Bool
is_open c [] = false
is_open c (opened d ∷ log) = if c == d then true else is_open c log
is_open c (closed d ∷ log) = if c == d then false else is_open c log
is_open c (executed d sql ok ∷ log) = is_open c log
is_open c (attempted s d m ok ∷ log) = is_open c log
is_open c (waited ∷ log) = is_open c log

-- strings.Contains, with the length of the text as fuel
text_contains_from : ℕ → String → String → Bool
text_contains_from zero s part = starts_with s part
text_contains_from (suc fuel) s part =
    let rest = text_contains_from fuel (slice s 1 (len s)) part in
    if starts_with s part then true else rest

unfoldable pub text_contains : String → String → Bool
unfolding text_contains_from
text_contains s part = text_contains_from (len s) s part

abbrev pub has_code : SyncError → String → Bool
has_code e code = elim e.code [ none ↦ false | some c ↦ c == code ]

-- A hot standby does not support the isolation level SERIALIZABLE.
unfoldable pub is_hot_standby : SyncError → Bool
unfolding text_contains
is_hot_standby e =
    has_code e "0A000"
    && (text_contains e.message "hot standby" || text_contains e.message "serializable")

abbrev paired : ℕ → Option Log → Option (ℕ × Log)
paired c none = none
paired c (some log) = some (c, log)

module _ (w : World) where
  abbrev pub succeeded : Option SyncError → Bool
  succeeded none = true
  succeeded (some e) = false

  -- The log after a statement.
  abbrev pub run_sql : ℕ → Statement → Log → Log
  run_sql c sql log = executed c sql (succeeded (w.executes log c sql)) ∷ log

  -- A statement whose error ends the process.
  unfoldable pub must_run : ℕ → Statement → Log → Option Log
  must_run c sql log =
      if succeeded (w.executes log c sql) then some (executed c sql true ∷ log) else none

  unfoldable pub begin_with_fallback : ℕ → Option SyncError → Log → Option Log
  unfolding must_run is_hot_standby
  begin_with_fallback c none log = some (executed c begin_serializable true ∷ log)
  begin_with_fallback c (some e) log =
      let again = must_run c begin_repeatable_read (executed c begin_serializable false ∷ log) in
      if is_hot_standby e then again else none

  -- none is an exit
  unfoldable pub new_connection : Log → Option (ℕ × Log)
  unfolding begin_with_fallback
  new_connection log =
      let c = fresh log in
      let log₁ = opened c ∷ log in
      if w.connects log
      then paired c (begin_with_fallback c (w.executes log₁ c begin_serializable) log₁)
      else none

  -- The snapshot may be gone; the transaction is then replaced by one of its own.
  unfoldable pub adopt_snapshot : ℕ → String → Log → Option Log
  unfolding must_run
  adopt_snapshot c snapshot log =
      let log₁ = run_sql c (set_transaction_snapshot snapshot) log in
      let replaced = must_run c begin_repeatable_read (run_sql c rollback log₁) in
      if succeeded (w.executes log c (set_transaction_snapshot snapshot))
      then some log₁
      else replaced

  unfoldable pub connect_with_snapshot : ℕ → String → Log → Option Log
  unfolding adopt_snapshot must_run
  connect_with_snapshot c snapshot log = elim (must_run c begin_repeatable_read log) [
    | none ↦ none
    | some log₁ ↦ adopt_snapshot c snapshot log₁
  ]

  unfoldable pub new_connection_with_snapshot : String → Log → Option (ℕ × Log)
  unfolding new_connection connect_with_snapshot
  new_connection_with_snapshot snapshot log =
      let c = fresh log in
      let own = new_connection log in
      let shared = paired c (connect_with_snapshot c snapshot (opened c ∷ log)) in
      if snapshot == "" then own else if w.connects log then shared else none

  -- `SELECT 1`, which an aborted transaction refuses
  abbrev pub is_connection_healthy : ℕ → Log → Bool
  is_connection_healthy c log = succeeded (w.executes log c select_one)

  abbrev pub check_health : ℕ → Log → Log
  check_health c log = run_sql c select_one log

  -- On an error the snapshot is empty, and the connections are to have snapshots of their own.
  unfoldable pub export_snapshot : ℕ → Log → String × Log
  export_snapshot c log = (
    if succeeded (w.executes log c select_export_snapshot) then w.exported_snapshot log c else "",
    run_sql c select_export_snapshot log,
  )

  abbrev copy_beside : ℕ → String → Option (ℕ × Log) → Option (ℕ × ℕ × String × Log)
  copy_beside structure snapshot none = none
  copy_beside structure snapshot (some (copy, log)) = some (structure, copy, snapshot, log)

  -- The structure and the copy connection, and the snapshot.
  unfoldable pub open_connections : Log → Option (ℕ × ℕ × String × Log)
  unfolding new_connection new_connection_with_snapshot export_snapshot
  open_connections log = elim (new_connection log) [
    | none ↦ none
    | some (structure, log₁) ↦
        let (snapshot, log₂) = export_snapshot structure log₁ in
        copy_beside structure snapshot (new_connection_with_snapshot snapshot log₂)
  ]
