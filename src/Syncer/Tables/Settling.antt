-- ===== src/Syncer/Tables/Settling.antt =====
-- src/syncer.go, SyncFromPostgres: which tables are synchronised and which have failed.
use bemi_db.Prelude.{
  ◌≡◌, sym, ap, List, [], ◌∷◌, Option, none, some, Bool, true, false, nat_eq, Option-cases,
  Bool-cases, inl, inr, arith,
}
use bemi_db.Names.{PgSchemaTable}
use bemi_db.Syncer.Connections.{
  SyncError, closed, Log, World, new_connection, new_connection_with_snapshot,
  is_connection_healthy, check_health, succeeded,
}
use bemi_db.Syncer.Retry.{Outcome, sync_table_with_retry, close_own}
use bemi_db.Syncer.Retry.Holding.{
  attempts_made, new_connection-Opens, new_connection_with_snapshot-Opens,
}
use bemi_db.Syncer.Retry.Settling.{last_try, Tries, sync_table_with_retry-Tries}
use bemi_db.Syncer.Tables.{
  PendingTable, Connections, Synced, renew_structure, renew_copy, adopt, sync_tables, with_outcome,
}

-- The tables, in order, with those that were synchronised and those that failed: each is in the one
-- list or the other as the last of its tries ended, of which there are one to four.
pub data Settled
    : List PendingTable → List PgSchemaTable → List PgSchemaTable → Log → Log → Type 0 where
  settled_none : {log : Log} → Settled [] [] [] log log
  settled_synced :
      {table : PendingTable} {tables : List PendingTable} {synced failed : List PgSchemaTable}
      {log log' log'' : Log}
      → Tries 4 true log log'
      → Settled tables synced failed log' log''
      → Settled (table ∷ tables) (table.pg_schema_table ∷ synced) failed log log''
  settled_failed :
      {table : PendingTable} {tables : List PendingTable} {synced failed : List PgSchemaTable}
      {log log' log'' : Log}
      → Tries 4 false log log'
      → Settled tables synced failed log' log''
      → Settled (table ∷ tables) synced (table.pg_schema_table ∷ failed) log log''

module _ (world : PendingTable → World) where
  renew_structure_tries :
      (w : World) (c c' : Connections) (log log' : Log)
      → renew_structure world w c log ≡ some (c', log')
      → attempts_made log' ≡ attempts_made log
  unfolding renew_structure attempts_made
  renew_structure_tries w c c' log log' e =
      let log₁ = check_health w c.structure log in
      elim (Bool-cases (is_connection_healthy w c.structure log)) [
        | inl healthy ↦ ground arith
        | inr sick ↦ elim (Option-cases (new_connection w (closed c.structure ∷ log₁))) [
          | inl n ↦ absurd (ground arith)
          | inr ((x, log₂), n) ↦
              let o = new_connection-Opens w (closed c.structure ∷ log₁) log₂ x n in
              ground (arith, o.opens_untried)
        ]
      ]

  renew_copy_tries :
      (w : World) (c c' : Connections) (log log' : Log)
      → renew_copy world w c log ≡ some (c', log')
      → attempts_made log' ≡ attempts_made log
  unfolding renew_copy attempts_made
  renew_copy_tries w c c' log log' e =
      let log₁ = check_health w c.copy log in
      elim (Bool-cases (is_connection_healthy w c.copy log)) [
        | inl healthy ↦ ground arith
        | inr sick ↦
            elim (Option-cases (new_connection_with_snapshot w c.snapshot (closed c.copy ∷ log₁))) [
              | inl n ↦ absurd (ground arith)
              | inr ((x, log₂), n) ↦
                  let o =
                    new_connection_with_snapshot-Opens w c.snapshot (closed c.copy ∷ log₁) log₂ x
                      n in
                  ground (arith, o.opens_untried)
            ]
      ]

  adopt-Tries :
      (w : World) (c : Connections) (o : Outcome) (log log₁ log' : Log) (ok : Bool)
      → attempts_made log₁ ≡ attempts_made log
      → Tries 4 ok log₁ log'
      → Tries 4 ok log (adopt world c o log').1
  unfolding adopt close_own attempts_made last_try
  adopt-Tries w c o log log₁ log' ok same (last, more, most) =
      (ground arith, ground arith, ground arith)

  with_outcome-Settled :
      (table : PendingTable) (tables : List PendingTable) (error : Option SyncError)
      (rest : Option (Synced × Log)) (s : Synced) (start log log' : Log)
      → Tries 4 (succeeded (world table) error) start log
      → ((s' : Synced)
          → rest ≡ some (s', log')
          → Settled tables s'.synced_pg_schema_tables s'.failed_tables log log')
      → with_outcome table.pg_schema_table error rest ≡ some (s, log')
      → Settled (table ∷ tables) s.synced_pg_schema_tables s.failed_tables start log'
  with_outcome-Settled table tables none none s start log log' t h e = cc e
  with_outcome-Settled table tables (some x) none s start log log' t h e = cc e
  with_outcome-Settled table tables none (some (s', log'')) s start log log' t h e =
      let synced : table.pg_schema_table ∷ s'.synced_pg_schema_tables ≡ s.synced_pg_schema_tables =
        ground arith in
      let failed : s'.failed_tables ≡ s.failed_tables = ground arith in
      let logs : log'' ≡ log' = ground arith in
      rw (sym synced, sym failed) (settled_synced t (h s' (ap (λ l. some (s', l)) logs)))
  with_outcome-Settled table tables (some x) (some (s', log'')) s start log log' t h e =
      let failed : table.pg_schema_table ∷ s'.failed_tables ≡ s.failed_tables = ground arith in
      let synced : s'.synced_pg_schema_tables ≡ s.synced_pg_schema_tables = ground arith in
      let logs : log'' ≡ log' = ground arith in
      rw (sym failed, sym synced) (settled_failed t (h s' (ap (λ l. some (s', l)) logs)))

  -- Each table is synchronised or has failed as the last of its tries ended.
  pub sync_tables-Settled :
      (tables : List PendingTable) (c : Connections) (log log' : Log) (s : Synced)
      → sync_tables world tables c log ≡ some (s, log')
      → Settled tables s.synced_pg_schema_tables s.failed_tables log log'
  unfolding sync_tables
  sync_tables-Settled [] c log log' s e =
      let logs : log ≡ log' = ground arith in
      let synced : [] ≡ s.synced_pg_schema_tables = ground arith in
      let failed : [] ≡ s.failed_tables = ground arith in
      rw (sym logs, sym synced, sym failed) settled_none
  sync_tables-Settled (table ∷ tables) c log log' s e =
      let w = world table in
      elim (Option-cases (renew_structure world w c log)) [
        | inl n ↦ absurd (ground arith)
        | inr ((c₁, log₁), e₁) ↦ elim (Option-cases (renew_copy world w c₁ log₁)) [
          | inl n ↦ absurd (ground arith)
          | inr ((c₂, log₂), e₂) ↦
              elim (Option-cases (
                sync_table_with_retry w c₂.structure c₂.copy c₂.snapshot
                  table.internal_table_metadata log₂)) [
                    | inl n ↦ absurd (ground arith)
                    | inr ((o, log₃), e₃) ↦
                        let t₁ = renew_structure_tries w c c₁ log log₁ e₁ in
                        let t₂ = renew_copy_tries w c₁ c₂ log₁ log₂ e₂ in
                        let tried =
                          sync_table_with_retry-Tries w c₂.structure c₂.copy c₂.snapshot
                            table.internal_table_metadata log₂ log₃ o e₃ in
                        let (c₃, log₄) = adopt world c₂ o log₃ in
                        with_outcome-Settled table tables o.error (sync_tables world tables c₃ log₄)
                          s log log₄ log'
                          (adopt-Tries w c₂ o log log₂ log₃ (succeeded w o.error)
                            (omega (arith, t₁, t₂)) tried)
                          (λ s' e₄. sync_tables-Settled tables c₃ log₄ log' s' e₄) (ground arith)
                  ]
        ]
      ]
