-- ===== src/Syncer/Connections/Transactions.antt =====
-- The transaction of a new connection.
use bemi_db.Prelude.{
  ◌≡◌, ◌↔◌, ℕ, String, [], ◌∷◌, none, some, Bool, true, false, ◌==◌, nat_eq, string_eq,
  if◌then◌else◌, Option-cases, inl, inr, arith,
}
use bemi_db.Syncer.Connections.{
  Statement, begin_serializable, begin_repeatable_read, rollback, select_one,
  select_export_snapshot, export_snapshot, set_transaction_snapshot, opened, closed, executed,
  attempted, waited, Log, World, is_open, fresh, must_run, begin_with_fallback, new_connection,
  adopt_snapshot, connect_with_snapshot, new_connection_with_snapshot,
}

pub data Transaction : Type 0 where
  -- there is none
  idle : Transaction
  running : Transaction
  -- a statement in it has failed, and it refuses all others
  aborted : Transaction

abbrev fail : Transaction → Transaction
fail idle = idle
fail running = aborted
fail aborted = aborted

-- A BEGIN that is answered without an error: an aborted transaction stays so, since it refuses all
-- but its end.
abbrev begun : Transaction → Transaction
begun idle = running
begun running = running
begun aborted = aborted

-- What a statement does to the transaction of its connection.
abbrev after : Statement → Bool → Transaction → Transaction
after rollback ok t = idle
after begin_serializable true t = begun t
after begin_serializable false t = fail t
after begin_repeatable_read true t = begun t
after begin_repeatable_read false t = fail t
after select_one true t = t
after select_export_snapshot true t = t
after select_export_snapshot false t = fail t
after select_one false t = fail t
after (set_transaction_snapshot s) true t = t
after (set_transaction_snapshot s) false t = fail t

unfoldable pub transaction : ℕ → Log → Transaction
transaction c [] = idle
transaction c (opened d ∷ log) = if c == d then idle else transaction c log
transaction c (closed d ∷ log) = if c == d then idle else transaction c log
transaction c (executed d sql ok ∷ log) =
    let before = transaction c log in if c == d then after sql ok before else before
transaction c (attempted s d m ok ∷ log) = transaction c log
transaction c (waited ∷ log) = transaction c log

-- Open, and in a transaction that accepts statements.
abbrev pub IsUsable : ℕ → Log → Type 0
IsUsable c log = (is_open c log ≡ true) × (transaction c log ≡ running)

module _ (w : World) where
  connect_with_snapshot-IsUsable :
      (c : ℕ) (snapshot : String) (log log' : Log)
      → is_open c log ≡ true
      → transaction c log ≡ idle
      → connect_with_snapshot w c snapshot log ≡ some log'
      → IsUsable c log'
  unfolding connect_with_snapshot must_run adopt_snapshot transaction is_open
  connect_with_snapshot-IsUsable c snapshot log log' is_new fresh_idle e = ground (arith)

  new_connection-IsUsable :
      (log log' : Log) (c : ℕ) → new_connection w log ≡ some (c, log') → IsUsable c log'
  unfolding new_connection begin_with_fallback must_run transaction is_open
  new_connection-IsUsable log log' c e = ground (arith)

  opened-idle : (log : Log) → transaction (fresh log) (opened (fresh log) ∷ log) ≡ idle
  unfolding transaction
  opened-idle log = ground arith

  -- A connection that is made for a snapshot is open, and its transaction is running and accepts
  -- statements, whatever Postgres answers. When the snapshot is gone this rests on the ROLLBACK: a
  -- transaction that has been aborted stays so at a BEGIN.
  pub new_connection_with_snapshot-IsUsable :
      (snapshot : String) (log log' : Log) (c : ℕ)
      → new_connection_with_snapshot w snapshot log ≡ some (c, log')
      → IsUsable c log'
  unfolding new_connection_with_snapshot is_open
  new_connection_with_snapshot-IsUsable snapshot log log' c e =
      elim (Option-cases
        (connect_with_snapshot w (fresh log) snapshot (opened (fresh log) ∷ log))) [
          | inl n ↦ ground (arith, new_connection-IsUsable log log' c)
          | inr (log₁, n) ↦ ground (
            arith,
            new_connection-IsUsable log log' c,
            opened-idle log,
            connect_with_snapshot-IsUsable (fresh log) snapshot (opened (fresh log) ∷ log) log₁,
          )
        ]

  -- After exportSnapshot the transaction of a new connection still accepts statements exactly when
  -- the export has succeeded: its failure aborts the transaction.
  pub export_snapshot-running_iff :
      (log log' : Log) (c : ℕ)
      → new_connection w log ≡ some (c, log')
      → (transaction c (export_snapshot w c log').1 ≡ running)
        ↔ (w.executes log' c select_export_snapshot ≡ none)
  unfolding export_snapshot transaction
  export_snapshot-running_iff log log' c e =
      elim (Option-cases (w.executes log' c select_export_snapshot)) [
        | inl n ↦ ground (arith, new_connection-IsUsable log log' c e)
        | inr (x, n) ↦ ground (arith, new_connection-IsUsable log log' c e)
      ]
