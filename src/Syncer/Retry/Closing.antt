-- ===== src/Syncer/Retry/Closing.antt =====
-- The connections that a retried table leaves open.
use bemi_db.Prelude.{
  ◌≡◌, ◌⊎◌, refl, ℕ, zero, suc, ◌+◌, ◌≤◌, ◌<◌, String, ◌∷◌, none, some, true, false, nat_eq,
  string_eq, if◌then◌else◌, Option-cases, Bool-cases, inl, inr, arith, ltb, ◌&&◌,
}
use bemi_db.Sync.Metadata.{InternalTableMetadata}
use bemi_db.Syncer.Connections.{SyncError, attempted, Log, World, is_open, fresh}
use bemi_db.Syncer.Retry.{
  Attempt, Outcome, close_own, prepare_retry, attempts, give_up, is_retryable, loses_snapshot,
  sync_table_with_retry,
}
use bemi_db.Syncer.Retry.Holding.{
  Held, Held-cons, prepare_retry-Held, attempts_made, uses_open, IsNumbered, IsReady,
}

module _ (w : World) where
  module _ (structure_conn copy_conn : ℕ) (snapshot_id : String) (start : Log) where
    -- The connections that the caller had are as they were. After an error the caller keeps its own
    -- and none of the others is open; otherwise those that are open are the structure connection that
    -- is returned and at most one more. There were at most `tries` attempts.
    pub record Closes (tries : ℕ) (o : Outcome) (log : Log) : Type 0 where
      pub closes_tries : attempts_made log ≤ attempts_made start + tries
      pub closes_before : (d : ℕ) → d < fresh start → is_open d log ≡ is_open d start
      pub closes_structure : (o.structure ≡ structure_conn) ⊎ (fresh start ≤ o.structure)
      pub closes_open : is_open o.structure log ≡ true
      pub closes_numbered : IsNumbered log
      pub closes_below : o.structure < fresh log
      pub closes_later : fresh start ≤ fresh log
      pub closes_uses : uses_open log ≡ true
      pub closes_after_error :
          (e : SyncError)
          → o.error ≡ some e
          → (o.structure ≡ structure_conn)
            × (o.snapshot ≡ snapshot_id)
            × ((d : ℕ) → fresh start ≤ d → is_open d log ≡ false)
      pub closes_after_success :
          o.error ≡ none
          → (copy : ℕ) × ((d : ℕ)
              → fresh start ≤ d
              → is_open d log ≡ true
              → (d ≡ o.structure) ⊎ (d ≡ copy))

    module _ (callers : (structure_conn < fresh start) × (copy_conn < fresh start))
        (opened_before : (is_open structure_conn start ≡ true)
          × (is_open copy_conn start ≡ true)) where
      abbrev HeldAt : ℕ → ℕ → Log → Type 0
      HeldAt structure copy log =
          Held w structure_conn copy_conn snapshot_id start structure copy log

      give_up_closes :
          (structure copy d : ℕ) (log : Log)
          → HeldAt structure copy log
          → fresh start ≤ d
          → is_open d (close_own structure_conn structure (close_own copy_conn copy log)) ≡ false
      unfolding close_own is_open
      give_up_closes structure copy d log h ge = ground (arith, h.held_only d ge)

      give_up_keeps :
          (structure copy d : ℕ) (log : Log)
          → HeldAt structure copy log
          → d < fresh start
          → is_open d (close_own structure_conn structure (close_own copy_conn copy log))
            ≡ is_open d start
      unfolding close_own is_open
      give_up_keeps structure copy d log h lt =
          ground (arith, h.held_before d lt, h.held_structure, h.held_copy)

      returned-Closes :
          (tries : ℕ) (a : Attempt) (log : Log)
          → HeldAt a.structure a.copy log
          → attempts_made log ≤ attempts_made start + tries
          → Closes tries
              (record { structure = a.structure; snapshot = a.snapshot; error = none })
              log
      returned-Closes tries a log h t = record {
        closes_tries = t;
        closes_before = h.held_before;
        closes_structure = h.held_structure;
        closes_open = h.held_open.0;
        closes_numbered = h.held_numbered;
        closes_below = h.held_below.0;
        closes_later = h.held_later;
        closes_uses = h.held_uses;
        closes_after_error = λ e n. absurd (ground arith);
        closes_after_success = λ n. (a.copy, h.held_only);
      }

      give_up-Closes :
          (tries : ℕ) (e : SyncError) (a : Attempt) (log : Log)
          → HeldAt a.structure a.copy log
          → attempts_made log ≤ attempts_made start + tries
          → let (o, log') = give_up w structure_conn copy_conn snapshot_id e a log in
            Closes tries o log'
      unfolding attempts_made close_own fresh is_open uses_open
      give_up-Closes tries e a log h t = record {
        closes_tries = ground arith;
        closes_before = λ d lt. give_up_keeps a.structure a.copy d log h lt;
        closes_structure = inl refl;
        closes_open = ground (
          arith,
          give_up_keeps a.structure a.copy structure_conn log h callers.0,
          opened_before.0,
        );
        closes_numbered = λ d ge. ground (arith, h.held_numbered d);
        closes_below = ground (arith, callers, h.held_later);
        closes_later = ground (arith, h.held_later);
        closes_uses = ground (arith, h.held_uses);
        closes_after_error =
            λ e' n. (refl, refl, λ d ge. give_up_closes a.structure a.copy d log h ge);
        closes_after_success = λ n. absurd (ground arith);
      }

      attempts-Closes :
          (left tries : ℕ) (a : Attempt) (log log' : Log) (o : Outcome)
          → HeldAt a.structure a.copy log
          → attempts_made log + left ≤ attempts_made start + tries
          → attempts w structure_conn copy_conn snapshot_id left a log ≡ some (o, log')
          → Closes tries o log'
      unfolding attempts attempts_made fresh is_open uses_open
      attempts-Closes zero tries a log log' o h t e =
          ground (arith, returned-Closes tries a log h (omega arith))
      attempts-Closes (suc left) tries a log log' o h t e =
          elim (Option-cases (w.sync_pg_table log a.structure a.copy a.metadata)) [
            | inl n ↦ absurd (ground arith)
            | inr (none, r) ↦
                let log₁ = attempted a.structure a.copy a.metadata true ∷ log in
                let h₁ =
                  Held-cons w structure_conn copy_conn snapshot_id start callers
                    (attempted a.structure a.copy a.metadata true) a.structure a.copy log h refl
                    (λ d. refl) (ground (arith, h.held_open, h.held_uses)) in
                ground (arith, returned-Closes tries a log₁ h₁ (omega arith))
            | inr (some x, r) ↦
                let log₁ = attempted a.structure a.copy a.metadata false ∷ log in
                let h₁ =
                  Held-cons w structure_conn copy_conn snapshot_id start callers
                    (attempted a.structure a.copy a.metadata false) a.structure a.copy log h refl
                    (λ d. refl) (ground (arith, h.held_open, h.held_uses)) in
                let a₁ = record a { snapshot = if loses_snapshot x then "" else a.snapshot } in
                elim (Bool-cases (is_retryable x && ltb 0 left)) [
                  | inr over ↦ ground (arith, give_up-Closes tries x a₁ log₁ h₁ (omega arith))
                  | inl again ↦
                      elim (Option-cases
                        (prepare_retry w structure_conn copy_conn snapshot_id a₁ log₁)) [
                          | inl n ↦ absurd (ground arith)
                          | inr ((a₂, log₂), p) ↦
                              let (h₂, t₂) =
                                prepare_retry-Held w structure_conn copy_conn snapshot_id start
                                  callers a₁ a₂ log₁ log₂ h₁ p in
                              attempts-Closes left tries a₂ log₂ log' o h₂ (omega arith)
                                (ground arith)
                        ]
                ]
          ]

  -- A table is tried at most four times, and never on a connection that was closed. The connections
  -- that the caller had are as they were, and the structure connection that it gets back is open.
  -- After an error this is its own, and all connections that were opened are closed; otherwise this
  -- and at most one more of them are open.
  pub sync_table_with_retry-Closes :
      (structure_conn copy_conn : ℕ) (snapshot_id : String) (metadata : InternalTableMetadata)
      (log log' : Log) (o : Outcome)
      → IsReady structure_conn copy_conn log
      → sync_table_with_retry w structure_conn copy_conn snapshot_id metadata log ≡ some (o, log')
      → Closes structure_conn copy_conn snapshot_id log 4 o log'
  unfolding sync_table_with_retry
  sync_table_with_retry-Closes structure_conn copy_conn snapshot_id metadata log log' o s e =
      attempts-Closes structure_conn copy_conn snapshot_id log s.ready_below s.ready_open 4 4
        (record {
          structure = structure_conn;
          copy = copy_conn;
          snapshot = snapshot_id;
          metadata = metadata;
        })
        log log' o
        (record {
          held_later = omega arith;
          held_structure = inl refl;
          held_copy = inl refl;
          held_only = λ d ge i. absurd (ground (arith, s.ready_numbered d ge));
          held_before = λ d lt. refl;
          held_open = s.ready_open;
          held_apart = s.ready_apart;
          held_below = s.ready_below;
          held_numbered = s.ready_numbered;
          held_uses = s.ready_uses;
        })
        (omega arith) e
