-- ===== src/Syncer/Retry/Holding.antt =====
-- The connections that the steps between two attempts open and close.
use bemi_db.Prelude.{
  ◌≡◌, ◌≢◌, ◌⊎◌, refl, sym, ◌∙◌, ℕ, suc, ◌≤◌, ◌<◌, String, [], ◌∷◌, some, Bool, true, false, ◌==◌,
  nat_eq, string_eq, if◌then◌else◌, Option-cases, Bool-cases, inl, inr, arith, ◌&&◌,
}
use bemi_db.Syncer.Connections.{
  select_one, Event, opened, closed, executed, attempted, waited, Log, World, is_open, fresh,
  must_run, begin_with_fallback, new_connection, adopt_snapshot, connect_with_snapshot,
  new_connection_with_snapshot, is_connection_healthy, check_health,
}
use bemi_db.Syncer.Retry.{Attempt, close_own, reconnect_structure, reconnect_copy, prepare_retry}

-- How often SyncPgTable has been called.
unfoldable pub attempts_made : Log → ℕ
attempts_made [] = 0
attempts_made (attempted s c m ok ∷ log) = suc (attempts_made log)
attempts_made (opened c ∷ log) = attempts_made log
attempts_made (closed c ∷ log) = attempts_made log
attempts_made (executed c sql ok ∷ log) = attempts_made log
attempts_made (waited ∷ log) = attempts_made log

-- Connections are numbered as they are opened.
abbrev pub IsNumbered : Log → Type 0
IsNumbered log = (d : ℕ) → fresh log ≤ d → is_open d log ≡ false

-- No table has been tried on a connection that was closed by then.
unfoldable pub uses_open : Log → Bool
uses_open [] = true
uses_open (attempted s c m ok ∷ log) = is_open s log && is_open c log && uses_open log
uses_open (opened c ∷ log) = uses_open log
uses_open (closed c ∷ log) = uses_open log
uses_open (executed c sql ok ∷ log) = uses_open log
uses_open (waited ∷ log) = uses_open log

-- What the caller has: two different connections that are open, numbered as all are.
pub record IsReady (structure_conn copy_conn : ℕ) (log : Log) : Type 0 where
  pub ready_numbered : IsNumbered log
  pub ready_open : (is_open structure_conn log ≡ true) × (is_open copy_conn log ≡ true)
  pub ready_below : (structure_conn < fresh log) × (copy_conn < fresh log)
  pub ready_apart : structure_conn ≢ copy_conn
  pub ready_uses : uses_open log ≡ true

-- From one log to the next just one connection has been opened, which is new.
pub record Opens (c : ℕ) (log log' : Log) : Type 0 where
  pub opens_new : c ≡ fresh log
  pub opens_one : fresh log' ≡ suc (fresh log)
  pub opens_only : (d : ℕ) → is_open d log' ≡ (if d == c then true else is_open d log)
  pub opens_untried : attempts_made log' ≡ attempts_made log
  pub opens_uses : uses_open log' ≡ uses_open log

module _ (w : World) where
  connect_with_snapshot-Opens :
      (snapshot : String) (log log' : Log)
      → connect_with_snapshot w (fresh log) snapshot (opened (fresh log) ∷ log) ≡ some log'
      → Opens (fresh log) log log'
  unfolding connect_with_snapshot must_run adopt_snapshot is_open fresh attempts_made uses_open
  connect_with_snapshot-Opens snapshot log log' e = record {
    opens_new = refl;
    opens_one = ground arith;
    opens_only = λ d. ground arith;
    opens_untried = ground arith;
    opens_uses = ground arith;
  }

  pub new_connection-Opens :
      (log log' : Log) (c : ℕ) → new_connection w log ≡ some (c, log') → Opens c log log'
  unfolding new_connection begin_with_fallback must_run is_open fresh attempts_made uses_open
  new_connection-Opens log log' c e = record {
    opens_new = ground arith;
    opens_one = ground arith;
    opens_only = λ d. ground arith;
    opens_untried = ground arith;
    opens_uses = ground arith;
  }

  pub new_connection_with_snapshot-Opens :
      (snapshot : String) (log log' : Log) (c : ℕ)
      → new_connection_with_snapshot w snapshot log ≡ some (c, log')
      → Opens c log log'
  unfolding new_connection_with_snapshot
  new_connection_with_snapshot-Opens snapshot log log' c e =
      elim (Option-cases
        (connect_with_snapshot w (fresh log) snapshot (opened (fresh log) ∷ log))) [
          | inl n ↦ ground (arith, new_connection-Opens log log' c)
          | inr (log₁, n) ↦ ground (
            arith,
            new_connection-Opens log log' c,
            connect_with_snapshot-Opens snapshot log log₁ n,
          )
        ]

  module _ (structure_conn copy_conn : ℕ) (snapshot_id : String) (start : Log) where
    -- Of the connections opened since the start only `structure` and `copy` are open, and those that
    -- were there before are as they were.
    pub record Held (structure copy : ℕ) (log : Log) : Type 0 where
      pub held_later : fresh start ≤ fresh log
      pub held_structure : (structure ≡ structure_conn) ⊎ (fresh start ≤ structure)
      pub held_copy : (copy ≡ copy_conn) ⊎ (fresh start ≤ copy)
      pub held_only :
          (d : ℕ) → fresh start ≤ d → is_open d log ≡ true → (d ≡ structure) ⊎ (d ≡ copy)
      pub held_before : (d : ℕ) → d < fresh start → is_open d log ≡ is_open d start
      pub held_open : (is_open structure log ≡ true) × (is_open copy log ≡ true)
      pub held_apart : structure ≢ copy
      pub held_below : (structure < fresh log) × (copy < fresh log)
      pub held_numbered : IsNumbered log
      pub held_uses : uses_open log ≡ true

    module _ (callers : (structure_conn < fresh start) × (copy_conn < fresh start)) where
      replace_structure :
          (structure copy c : ℕ) (log log' : Log)
          → Held structure copy log
          → Opens c (close_own structure_conn structure log) log'
          → Held c copy log'
      unfolding close_own is_open fresh uses_open
      replace_structure structure copy c log log' h o = record {
        held_later = ground (arith, h, o);
        held_structure = ground (arith, h, o);
        held_copy = h.held_copy;
        held_only = λ d ge i. ground (arith, h.held_only d ge, h.held_structure, o.opens_only d);
        held_before = λ d lt. ground (
          arith,
          h.held_before d lt,
          h.held_later,
          o.opens_only d,
          o.opens_new,
          h.held_structure,
        );
        held_open = (
          ground (arith, o.opens_only c),
          ground (arith, o.opens_only copy, h.held_apart, h.held_open),
        );
        held_apart = λ q. ground (arith, o.opens_new, h.held_below);
        held_below = ground (arith, o.opens_new, o.opens_one, h.held_below);
        held_numbered =
            λ d ge. ground (arith, o.opens_new, o.opens_one, o.opens_only d, h.held_numbered d);
        held_uses = ground (arith, o.opens_uses, h.held_uses);
      }

      replace_copy :
          (structure copy c : ℕ) (log log' : Log)
          → Held structure copy log
          → Opens c (close_own copy_conn copy log) log'
          → Held structure c log'
      unfolding close_own is_open fresh uses_open
      replace_copy structure copy c log log' h o = record {
        held_later = ground (arith, h, o);
        held_structure = h.held_structure;
        held_copy = ground (arith, h, o);
        held_only = λ d ge i. ground (arith, h.held_only d ge, h.held_copy, o.opens_only d);
        held_before = λ d lt.
            ground
              (arith, h.held_before d lt, h.held_later, o.opens_only d, o.opens_new, h.held_copy);
        held_open = (
          ground (arith, o.opens_only structure, h.held_apart, h.held_open),
          ground (arith, o.opens_only c),
        );
        held_apart = λ q. ground (arith, o.opens_new, h.held_below);
        held_below = ground (arith, o.opens_new, o.opens_one, h.held_below);
        held_numbered =
            λ d ge. ground (arith, o.opens_new, o.opens_one, o.opens_only d, h.held_numbered d);
        held_uses = ground (arith, o.opens_uses, h.held_uses);
      }

      abbrev HeldBy : Attempt → Log → Type 0
      HeldBy a log = Held a.structure a.copy log

      -- An event that opens, closes and tries nothing.
      pub Held-cons :
          (event : Event) (structure copy : ℕ) (log : Log)
          → Held structure copy log
          → fresh (event ∷ log) ≡ fresh log
          → ((d : ℕ) → is_open d (event ∷ log) ≡ is_open d log)
          → uses_open (event ∷ log) ≡ true
          → Held structure copy (event ∷ log)
      Held-cons event structure copy log h f i u = record {
        held_later = ground (arith, h);
        held_structure = h.held_structure;
        held_copy = h.held_copy;
        held_only = λ d ge o. h.held_only d ge (sym (i d) ∙ o);
        held_before = λ d lt. i d ∙ h.held_before d lt;
        held_open = (i structure ∙ h.held_open.0, i copy ∙ h.held_open.1);
        held_apart = h.held_apart;
        held_below = ground (arith, h.held_below);
        held_numbered = λ d ge. i d ∙ h.held_numbered d (ground arith);
        held_uses = u;
      }

      reconnect_structure-Held :
          (a a' : Attempt) (log log' : Log)
          → HeldBy a log
          → reconnect_structure w structure_conn copy_conn snapshot_id a log ≡ some (a', log')
          → HeldBy a' log' × (attempts_made log' ≡ attempts_made log)
      unfolding reconnect_structure attempts_made close_own is_open fresh uses_open
      reconnect_structure-Held a a' log log' h e =
          let log₁ = check_health w a.structure log in
          let h₁ =
            Held-cons (executed a.structure select_one (is_connection_healthy w a.structure log))
              a.structure a.copy log h refl (λ d. refl) h.held_uses in
          elim (Bool-cases (is_connection_healthy w a.structure log)) [
            | inl healthy ↦ (ground (arith, h₁), ground arith)
            | inr sick ↦
                elim (Option-cases (new_connection w (close_own structure_conn a.structure log₁))) [
                  | inl n ↦ absurd (ground arith)
                  | inr ((c, log₂), n) ↦
                      let o =
                        new_connection-Opens (close_own structure_conn a.structure log₁) log₂ c n in
                      (
                        ground (arith, replace_structure a.structure a.copy c log₁ log₂ h₁ o),
                        ground (arith, o.opens_untried),
                      )
                ]
          ]

      reconnect_copy-Held :
          (a a' : Attempt) (log log' : Log)
          → HeldBy a log
          → reconnect_copy w structure_conn copy_conn snapshot_id a log ≡ some (a', log')
          → HeldBy a' log' × (attempts_made log' ≡ attempts_made log)
      unfolding reconnect_copy attempts_made close_own
      reconnect_copy-Held a a' log log' h e =
          elim (Option-cases
            (new_connection_with_snapshot w a.snapshot (close_own copy_conn a.copy log))) [
              | inl n ↦ absurd (ground arith)
              | inr ((c, log₁), n) ↦
                  let o =
                    new_connection_with_snapshot-Opens a.snapshot (close_own copy_conn a.copy log)
                      log₁ c n in
                  (
                    ground (arith, replace_copy a.structure a.copy c log log₁ h o),
                    ground (arith, o.opens_untried),
                  )
            ]

      pub prepare_retry-Held :
          (a a' : Attempt) (log log' : Log)
          → HeldBy a log
          → prepare_retry w structure_conn copy_conn snapshot_id a log ≡ some (a', log')
          → HeldBy a' log' × (attempts_made log' ≡ attempts_made log)
      unfolding prepare_retry attempts_made fresh is_open uses_open
      prepare_retry-Held a a' log log' h e =
          elim (Option-cases (reconnect_structure w structure_conn copy_conn snapshot_id a log)) [
            | inl n ↦ absurd (ground arith)
            | inr ((a₁, log₁), r) ↦
                elim (Option-cases
                  (reconnect_copy w structure_conn copy_conn snapshot_id a₁ log₁)) [
                    | inl n ↦ absurd (ground arith)
                    | inr ((a₂, log₂), c) ↦
                        let (h₁, t₁) = reconnect_structure-Held a a₁ log log₁ h r in
                        let (h₂, t₂) = reconnect_copy-Held a₁ a₂ log₁ log₂ h₁ c in
                        let h₃ =
                          Held-cons waited a₂.structure a₂.copy log₂ h₂ refl (λ d. refl)
                            h₂.held_uses in
                        (ground (arith, h₃), ground arith)
                  ]
          ]
