-- ===== src/Buffer/Devices.antt =====
-- What the buffer pool uses of the disk manager (crates/prism-storage/src/disk.rs), and its errors
-- (crates/prism-buffer/src/error.rs).
use prism_db.Common.{ℕ, ◌≡◌, ◌≢◌}
use prism_db.Common.Results.{Result, ok}
use prism_db.Wal.Payload.{WalError}
use prism_db.Storage.Bytes.{Buffer}

-- crates/prism-storage/src/error.rs, the cases that a page access gives. An I/O error and what was
-- counted of a short transfer stand in no result that is used.
pub data StorageError : Type 0 where
  io : StorageError
  short_read short_write : (page : ℕ) → StorageError

pub data BufferError : Type 0 where
  storage : StorageError → BufferError
  wal : WalError → BufferError
  exhausted : (frames : ℕ) → BufferError

-- A write that fails may leave its own page in any state, and no other.
pub record DiskDevice : Type 1 where
  pub State : Type 0
  pub page : State → ℕ → Buffer
  pub read_page : State → ℕ → Result StorageError Buffer
  pub write_page : State → ℕ → Buffer → State × Result StorageError (Unit {0})
  pub allocate_page : State → State × Result StorageError ℕ
  pub sync : State → State × Result StorageError (Unit {0})
  pub read_page-ok : (s : State) (id : ℕ) (b : Buffer) → read_page s id ≡ ok b → b ≡ page s id
  pub write_page-ok :
      (s s' : State) (id : ℕ) (b : Buffer) → write_page s id b ≡ (s', ok tt) → page s' id ≡ b
  pub write_page_other :
      (s : State) (id j : ℕ) (b : Buffer) → j ≢ id → page (write_page s id b).0 j ≡ page s j
  pub allocate_page_keeps : (s : State) (j : ℕ) → page (allocate_page s).0 j ≡ page s j
  pub sync_keeps : (s : State) (j : ℕ) → page (sync s).0 j ≡ page s j
