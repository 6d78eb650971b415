-- ===== src/Wal/Payload.antt =====
-- crates/prism-wal/src/record.rs, error.rs: the records of the log and its errors. Page ids and
-- LSNs are their `u64`, a record image is its bytes.
use Prim.Native.String.{String}
use prism_db.Common.{ℕ, List}
use prism_db.Common.Int.{ℤ}

pub data WalError : Type 0 where
  io crc_mismatch bad_magic : WalError
  record_too_large : ℕ → ℕ → WalError
  unknown_record_type : ℕ → WalError
  decode : String → WalError
  incompatible_version : ℕ → WalError

pub data RecordPayload : Type 0 where
  insert : (page_id slot_id : ℕ) (after_image : List ℕ) → RecordPayload
  update : (page_id slot_id : ℕ) (before_image after_image : List ℕ) → RecordPayload
  delete : (page_id slot_id : ℕ) (before_image : List ℕ) → RecordPayload
  commit : (commit_micros : ℤ) (flags : ℕ) → RecordPayload
  abort : RecordPayload
  clr : (page_id slot_id : ℕ) (undo_image : List ℕ) (undo_next_lsn : ℕ) → RecordPayload
  begin_checkpoint : (checkpoint_id : ℕ) → RecordPayload
  checkpoint_contents :
      (dirty_pages : List (ℕ × ℕ)) (active_txns : List (ℕ × ℕ × ℕ)) → RecordPayload
  end_checkpoint : (checkpoint_id : ℕ) → RecordPayload
  full_page_image : (page_id : ℕ) (image : List ℕ) → RecordPayload
  heap_page : (heap_id page_id : ℕ) → RecordPayload

pub record LogRecord : Type 0 where
  pub txn_id : ℕ
  pub prev_lsn : ℕ
  pub payload : RecordPayload

-- A record with no transaction context.
pub system : RecordPayload → LogRecord
system payload = record { txn_id = 0; prev_lsn = 0; payload = payload }

pub txn : ℕ → ℕ → RecordPayload → LogRecord
txn txn_id prev_lsn payload = record { txn_id = txn_id; prev_lsn = prev_lsn; payload = payload }
