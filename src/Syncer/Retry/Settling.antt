-- ===== src/Syncer/Retry/Settling.antt =====
-- src/syncer.go, syncTableWithRetry: how the last try of a table ended, and how often it was tried.
use bemi_db.Prelude.{
  ◌≡◌, ℕ, zero, suc, ◌+◌, ◌≤◌, ◌<◌, String, [], ◌∷◌, Option, none, some, Bool, false, nat_eq,
  if◌then◌else◌, Option-cases, Bool-cases, inl, inr, arith, ltb, ◌&&◌,
}
use bemi_db.Sync.Metadata.{InternalTableMetadata}
use bemi_db.Syncer.Connections.{
  opened, closed, executed, attempted, waited, Log, World, new_connection,
  new_connection_with_snapshot, is_connection_healthy, check_health, succeeded,
}
use bemi_db.Syncer.Retry.{
  Attempt, Outcome, close_own, reconnect_structure, reconnect_copy, prepare_retry, attempts,
  is_retryable, loses_snapshot, sync_table_with_retry,
}
use bemi_db.Syncer.Retry.Holding.{
  attempts_made, new_connection-Opens, new_connection_with_snapshot-Opens,
}

-- Whether the newest try of a table has succeeded.
unfoldable pub last_try : Log → Option Bool
last_try [] = none
last_try (attempted s c m ok ∷ log) = some ok
last_try (opened c ∷ log) = last_try log
last_try (closed c ∷ log) = last_try log
last_try (executed c sql ok ∷ log) = last_try log
last_try (waited ∷ log) = last_try log

-- From one log to the next there are tries, at most so many, and the last one ended so.
abbrev pub Tries : ℕ → Bool → Log → Log → Type 0
Tries most ok log log' =
    (last_try log' ≡ some ok)
    × (attempts_made log < attempts_made log')
    × (attempts_made log' ≤ attempts_made log + most)

module _ (w : World) (structure_conn copy_conn : ℕ) (snapshot_id : String) where
  reconnect_structure_tries :
      (a a' : Attempt) (log log' : Log)
      → reconnect_structure w structure_conn copy_conn snapshot_id a log ≡ some (a', log')
      → attempts_made log' ≡ attempts_made log
  unfolding reconnect_structure attempts_made close_own
  reconnect_structure_tries a a' log log' e =
      let log₁ = check_health w a.structure log in
      elim (Bool-cases (is_connection_healthy w a.structure log)) [
        | inl healthy ↦ ground arith
        | inr sick ↦
            elim (Option-cases (new_connection w (close_own structure_conn a.structure log₁))) [
              | inl n ↦ absurd (ground arith)
              | inr ((c, log₂), n) ↦
                  let o =
                    new_connection-Opens w (close_own structure_conn a.structure log₁) log₂ c n in
                  ground (arith, o.opens_untried)
            ]
      ]

  reconnect_copy_tries :
      (a a' : Attempt) (log log' : Log)
      → reconnect_copy w structure_conn copy_conn snapshot_id a log ≡ some (a', log')
      → attempts_made log' ≡ attempts_made log
  unfolding reconnect_copy attempts_made close_own
  reconnect_copy_tries a a' log log' e =
      elim (Option-cases
        (new_connection_with_snapshot w a.snapshot (close_own copy_conn a.copy log))) [
          | inl n ↦ absurd (ground arith)
          | inr ((c, log₁), n) ↦
              let o =
                new_connection_with_snapshot-Opens w a.snapshot (close_own copy_conn a.copy log)
                  log₁ c n in
              ground (arith, o.opens_untried)
        ]

  prepare_retry_tries :
      (a a' : Attempt) (log log' : Log)
      → prepare_retry w structure_conn copy_conn snapshot_id a log ≡ some (a', log')
      → attempts_made log' ≡ attempts_made log
  unfolding prepare_retry attempts_made
  prepare_retry_tries a a' log log' e =
      elim (Option-cases (reconnect_structure w structure_conn copy_conn snapshot_id a log)) [
        | inl n ↦ absurd (ground arith)
        | inr ((a₁, log₁), r) ↦
            elim (Option-cases (reconnect_copy w structure_conn copy_conn snapshot_id a₁ log₁)) [
              | inl n ↦ absurd (ground arith)
              | inr ((a₂, log₂), c) ↦ ground (
                arith,
                reconnect_structure_tries a a₁ log log₁ r,
                reconnect_copy_tries a₁ a₂ log₁ log₂ c,
              )
            ]
      ]

  attempts-Tries :
      (left : ℕ) (a : Attempt) (log log' : Log) (o : Outcome)
      → attempts w structure_conn copy_conn snapshot_id (suc left) a log ≡ some (o, log')
      → Tries (suc left) (succeeded w o.error) log log'
  unfolding attempts attempts_made last_try close_own
  attempts-Tries zero a log log' o e =
      elim (Option-cases (w.sync_pg_table log a.structure a.copy a.metadata)) [
        | inl n ↦ absurd (ground arith)
        | inr (none, r) ↦ (ground arith, ground arith, ground arith)
        | inr (some x, r) ↦ elim (Bool-cases (is_retryable x && ltb 0 0)) [
          | inr over ↦ (ground arith, ground arith, ground arith)
          | inl again ↦ absurd (ground arith)
        ]
      ]
  attempts-Tries (suc left) a log log' o e =
      elim (Option-cases (w.sync_pg_table log a.structure a.copy a.metadata)) [
        | inl n ↦ absurd (ground arith)
        | inr (none, r) ↦ (ground arith, ground arith, ground arith)
        | inr (some x, r) ↦
            let log₁ = attempted a.structure a.copy a.metadata false ∷ log in
            let a₁ = record a { snapshot = if loses_snapshot x then "" else a.snapshot } in
            elim (Bool-cases (is_retryable x && ltb 0 (suc left))) [
              | inr over ↦ (ground arith, ground arith, ground arith)
              | inl again ↦
                  elim (Option-cases
                    (prepare_retry w structure_conn copy_conn snapshot_id a₁ log₁)) [
                      | inl n ↦ absurd (ground arith)
                      | inr ((a₂, log₂), p) ↦
                          let kept = prepare_retry_tries a₁ a₂ log₁ log₂ p in
                          let (last, more, most) =
                            attempts-Tries left a₂ log₂ log' o (ground arith) in
                          (last, omega (arith, kept, more), omega (arith, kept, most))
                    ]
            ]
      ]

  -- The error that is returned is that of the last of at most four tries.
  pub sync_table_with_retry-Tries :
      (metadata : InternalTableMetadata) (log log' : Log) (o : Outcome)
      → sync_table_with_retry w structure_conn copy_conn snapshot_id metadata log ≡ some (o, log')
      → Tries 4 (succeeded w o.error) log log'
  unfolding sync_table_with_retry
  sync_table_with_retry-Tries metadata log log' o e =
      attempts-Tries 3
        (record {
          structure = structure_conn;
          copy = copy_conn;
          snapshot = snapshot_id;
          metadata = metadata;
        })
        log log' o e
