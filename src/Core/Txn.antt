-- ===== src/Core/Txn.antt =====
-- crates/prism-core/src/txn.rs: the transaction manager. `begin` and the ends of a transaction run
-- under more than one mutex; each part that runs under one is a function of its own here, and
-- `begin`, `commit_internal` and `abort_internal` put them together.
pub mod Outcome
pub mod Isolation
pub mod Race
use prism_db.Common.{
  ℕ, suc, ◌+◌, ◌%◌, ◌^◌, min, max, Bool, true, false, List, [], ◌∷◌, Option, none, some, foldl,
  if◌then◌else◌,
}
use prism_db.Common.Int.{ℤ}
use prism_db.Common.Results.{Result, ok, err}
use prism_db.Common.Maps.{delete}
use prism_db.Wal.Payload.{WalError, LogRecord, commit, abort, txn}
use prism_db.Core.CommitLog
use prism_db.Core.CommitLog.{CommitLog, record_commit, record_abort, first_user_txn}
use prism_db.Core.Visibility.{Snapshot}
use prism_db.Core.Lock.{LockManager, release_all, default_config}
use prism_db.Core.Lock
use prism_db.Core.Errors.{CoreError}
use prism_db.Core.LogDevice.{LogDevice}

pub data TxnMode : Type 0 where
  read_write read_only : TxnMode

-- `active` is a set, in no order.
pub record TxnManager (W : Type 0) : Type 0 where
  pub wal : W
  pub next_txn : ℕ
  pub active : List ℕ
  pub commit_log : CommitLog
  pub locks : LockManager

pub record TxnHandle : Type 0 where
  pub txn_id : ℕ
  pub mode : TxnMode
  pub snapshot : Snapshot
  pub last_lsn : ℕ
  pub finished : Bool

unfoldable pub seed_commit : CommitLog → ℕ × ℕ → CommitLog
seed_commit log (t, commit_lsn) = record_commit log t commit_lsn

-- The smallest element of a non-empty set, with `txn_id` (as the source takes it) as a bound.
unfoldable pub smallest : ℕ → List ℕ → ℕ
smallest bound [] = bound
smallest bound (t ∷ ts) = min t (smallest bound ts)

unfoldable pub resume : ℕ → TxnMode → Snapshot → ℕ → TxnHandle
resume txn_id mode snapshot last_lsn = record {
  txn_id = txn_id;
  mode = mode;
  snapshot = snapshot;
  last_lsn = last_lsn;
  finished = true;
}

module _ {W : Type 0} where
  unfoldable pub new : W → TxnManager W
  new wal = record {
    wal = wal;
    next_txn = first_user_txn;
    active = [];
    commit_log = CommitLog.new;
    locks = Lock.new default_config;
  }

  unfoldable pub with_next_txn : W → ℕ → TxnManager W
  with_next_txn wal next_txn = record (new wal) { next_txn = max next_txn first_user_txn }

  -- The manager after recovery: the commits first, then the aborts.
  unfoldable pub new_recovered : W → ℕ → List (ℕ × ℕ) → List ℕ → TxnManager W
  new_recovered wal next_txn committed aborted =
      let m = with_next_txn wal next_txn in
      record m {
        commit_log = foldl record_abort (foldl seed_commit m.commit_log committed) aborted;
      }

  -- `next_txn.fetch_add(1)`: the id, and the counter of a `u64`.
  unfoldable pub allocate : TxnManager W → TxnManager W × ℕ
  allocate m = (record m { next_txn = (m.next_txn + 1) % 2 ^ 64 }, m.next_txn)

  -- The part of `begin` under the mutex of the active set. `xmax` is read there, after the id was
  -- allocated outside.
  unfoldable pub register : TxnManager W → ℕ → TxnMode → TxnManager W × TxnHandle
  register m txn_id mode = (
    record m { active = txn_id ∷ m.active },
    record {
      txn_id = txn_id;
      mode = mode;
      snapshot = record {
        txn_id = txn_id;
        xmin = smallest txn_id m.active;
        xmax = m.next_txn;
        active = m.active;
      };
      last_lsn = 0;
      finished = false;
    },
  )

  unfoldable pub begin : TxnManager W → TxnMode → TxnManager W × TxnHandle
  begin m mode = let (m', txn_id) = allocate m in register m' txn_id mode

  unfoldable pub begin_detached : TxnManager W → TxnMode → TxnManager W × ℕ × Snapshot
  begin_detached m mode = let (m', handle) = begin m mode in (m', handle.txn_id, handle.snapshot)

  -- The end of both outcomes: the locks, then the active set.
  unfoldable pub retire : TxnManager W → ℕ → TxnManager W
  retire m txn_id = record m { locks = release_all m.locks txn_id; active = delete txn_id m.active }

module _ (L : LogDevice) where
  open L use {State, append, flush_through}

  unfoldable pub flushed_at : ℕ → State × Result WalError (Unit {0}) → State × Result WalError ℕ
  flushed_at lsn (w, ok _) = (w, ok lsn)
  flushed_at lsn (w, err e) = (w, err e)

  unfoldable pub flush_appended : State × Result WalError ℕ → State × Result WalError ℕ
  flush_appended (w, ok lsn) = flushed_at lsn (flush_through w lsn)
  flush_appended (w, err e) = (w, err e)

  -- Appended and flushed through: the durability point of either outcome.
  unfoldable pub log_durably : State → LogRecord → State × Result WalError ℕ
  log_durably w r = flush_appended (append w r)

  unfoldable pub committed_as :
      TxnManager State
      → ℕ
      → State × Result WalError ℕ
      → TxnManager State × Result CoreError (Unit {0})
  committed_as m txn_id (w, ok commit_lsn) =
      (record m { wal = w; commit_log = record_commit m.commit_log txn_id commit_lsn }, ok tt)
  committed_as m txn_id (w, err e) = (record m { wal = w }, err (CoreError.wal e))

  unfoldable pub aborted_as :
      TxnManager State
      → ℕ
      → State × Result WalError ℕ
      → TxnManager State × Result CoreError (Unit {0})
  aborted_as m txn_id (w, ok _) =
      (record m { wal = w; commit_log = record_abort m.commit_log txn_id }, ok tt)
  aborted_as m txn_id (w, err e) = (record m { wal = w }, err (CoreError.wal e))

  -- The commit record is durable before the outcome is published.
  unfoldable pub publish_commit :
      TxnManager State → ℕ → TxnMode → ℕ → ℤ → TxnManager State × Result CoreError (Unit {0})
  publish_commit m txn_id read_write last_lsn now =
      committed_as m txn_id (log_durably m.wal (txn txn_id last_lsn (commit now 0)))
  publish_commit m txn_id read_only last_lsn now =
      (record m { commit_log = record_commit m.commit_log txn_id 0 }, ok tt)

  unfoldable pub publish_abort :
      TxnManager State → ℕ → TxnMode → ℕ → TxnManager State × Result CoreError (Unit {0})
  publish_abort m txn_id read_write last_lsn =
      aborted_as m txn_id (log_durably m.wal (txn txn_id last_lsn abort))
  publish_abort m txn_id read_only last_lsn =
      (record m { commit_log = record_abort m.commit_log txn_id }, ok tt)

  -- A failure leaves by `?`, before the locks are released.
  unfoldable pub then_retire :
      TxnManager State × Result CoreError (Unit {0})
      → ℕ
      → TxnManager State × Result CoreError (Unit {0})
  then_retire (m, ok _) txn_id = (retire m txn_id, ok tt)
  then_retire (m, err e) txn_id = (m, err e)

  unfoldable pub commit_internal :
      TxnManager State → ℕ → TxnMode → ℕ → ℤ → TxnManager State × Result CoreError (Unit {0})
  commit_internal m txn_id mode last_lsn now =
      then_retire (publish_commit m txn_id mode last_lsn now) txn_id

  unfoldable pub abort_internal :
      TxnManager State → ℕ → TxnMode → ℕ → TxnManager State × Result CoreError (Unit {0})
  abort_internal m txn_id mode last_lsn = then_retire (publish_abort m txn_id mode last_lsn) txn_id

  -- `TxnHandle::commit` and `abort` mark the handle as finished, so that dropping it does nothing.
  unfoldable pub commit_handle :
      TxnManager State → TxnHandle → ℤ → TxnManager State × Result CoreError (Unit {0})
  commit_handle m h now = commit_internal m h.txn_id h.mode h.last_lsn now

  unfoldable pub abort_handle :
      TxnManager State → TxnHandle → TxnManager State × Result CoreError (Unit {0})
  abort_handle m h = abort_internal m h.txn_id h.mode h.last_lsn

  -- `Drop`: the error of the abort is ignored.
  unfoldable pub drop_handle : TxnManager State → TxnHandle → TxnManager State
  drop_handle m h = if h.finished then m else (abort_internal m h.txn_id h.mode h.last_lsn).0
