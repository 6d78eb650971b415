-- ===== src/Wal/Device/Examples.antt =====
-- A log on files that take every call, its next append, and a commit.
use prism_db.Common.{ℕ, suc, ◌%◌, ◌^◌, List, length, arith}
use prism_db.Common.Results.{ok}
use prism_db.Common.Int.{pos}
use prism_db.Common.Bytes.{IsU32}
use prism_db.Common.Crc.{Crc32}
use prism_db.Wal.Payload.{abort, commit, txn, LogRecord}
use prism_db.Wal.Device.{Files, fsync, Wal}
use prism_db.Core.Txn
use prism_db.Core.Txn.{TxnManager, read_write, commit_internal}
use prism_db.Core.Txn.Outcome.{CommitOutcome, commit_internal_outcome}
use prism_db.Wal.Device.Laws.{wal_device}

length-IsU32 : (bytes : List ℕ) → IsU32 (length bytes % 2 ^ 32)
length-IsU32 bytes = omega arith

abbrev length_crc : Crc32
length_crc = record { hash = λ bytes. length bytes % 2 ^ 32; hash-IsU32 = length-IsU32 }

-- The state counts the writes.
abbrev counting_files : Files
counting_files = record {
  State = ℕ;
  create_new = λ s id. (s, ok tt);
  set_len = λ s id len. (s, ok tt);
  write_at = λ s id offset bytes. (suc s, ok tt);
  try_clone = λ s id. ok tt;
  sync_data = λ s id. (s, ok tt);
  sync_dir = λ s. s;
  now_micros = λ s. pos 0;
}

-- The active segment has 20 bytes left, so that the next record goes to another.
abbrev full_segment : Wal ℕ
full_segment = record {
  files = 0;
  segment_size = 4096;
  sync_mode = fsync;
  active_id = 1;
  active_offset = 4076;
  last_lsn = 4_294_967_360;
  durable_lsn = 0;
}

abbrev aborted : LogRecord
aborted = record { txn_id = 5; prev_lsn = 64; payload = abort }

-- Transaction 2 commits on that log.
abbrev manager : TxnManager (Wal ℕ)
manager = Txn.new full_segment

commit_internal_outcome_example :
    CommitOutcome
      (wal_device length_crc counting_files)
      manager
      2
      (txn 2 0 (commit (pos 1) 0))
      (commit_internal (wal_device length_crc counting_files) manager 2 read_write 0 (pos 1))
commit_internal_outcome_example =
    commit_internal_outcome (wal_device length_crc counting_files) manager 2 0 (pos 1)
