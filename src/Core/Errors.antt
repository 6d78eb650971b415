-- ===== src/Core/Errors.antt =====
-- crates/prism-core/src/error.rs: the errors of the transactional core. The errors of the buffer
-- pool and of the storage layer carry their own values there; here each is one case.
use Prim.Native.String.{String}
use prism_db.Common.{ℕ}
use prism_db.Wal.Payload.{WalError}

pub data CoreError : Type 0 where
  wal : WalError → CoreError
  buffer storage serialization_failure deadlock lock_timeout : CoreError
  txn_not_active : ℕ → CoreError
  recovery : String → CoreError
