-- ===== src/Core/LogDevice.antt =====
-- What the transaction manager and the buffer pool use of the log (crates/prism-wal/src/wal.rs):
-- `append` gives a record its LSN, which is then the last one, or fails, and `flush_through` that
-- succeeds has made the log durable up to an LSN that the log has given. `Wal/Device` fills it.
use prism_db.Common.{ℕ, ◌≤◌, ◌≡◌}
use prism_db.Common.Results.{Result, ok}
use prism_db.Wal.Payload.{WalError, LogRecord}

pub record LogDevice : Type 1 where
  pub State : Type 0
  pub append : State → LogRecord → State × Result WalError ℕ
  pub flush_through : State → ℕ → State × Result WalError (Unit {0})
  pub last_lsn : State → ℕ
  pub durable_lsn : State → ℕ
  pub append-last :
      (s s' : State) (r : LogRecord) (lsn : ℕ) → append s r ≡ (s', ok lsn) → last_lsn s' ≡ lsn
  pub flush-durable :
      (s s' : State) (up_to : ℕ)
      → up_to ≤ last_lsn s
      → flush_through s up_to ≡ (s', ok tt)
      → up_to ≤ durable_lsn s'
