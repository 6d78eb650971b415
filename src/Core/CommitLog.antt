-- ===== src/Core/CommitLog.antt =====
-- crates/prism-core/src/txn.rs: the commit log. A lookup that misses means a transaction in
-- progress; the mutex makes each operation one step.
use prism_db.Common.{ℕ, ◌≡◌, List, [], Option, none, some, if◌then◌else◌, ◌==◌, arith}
use prism_db.Common.Maps.{lookup, insert, lookup-insert}

abbrev pub no_txn : ℕ
no_txn = 0

abbrev pub bootstrap_txn : ℕ
bootstrap_txn = 1

abbrev pub first_user_txn : ℕ
first_user_txn = 2

-- `committed` carries the LSN of the commit record, 0 for a read-only transaction.
pub data CommitStatus : Type 0 where
  in_progress : CommitStatus
  committed : (commit_lsn : ℕ) → CommitStatus
  aborted : CommitStatus

abbrev pub CommitLog : Type 0
CommitLog = List (ℕ × CommitStatus)

-- The bootstrap transaction is committed from the start.
pub new : CommitLog
new = insert bootstrap_txn (committed 0) []

abbrev or_in_progress : Option CommitStatus → CommitStatus
or_in_progress none = in_progress
or_in_progress (some s) = s

unfoldable pub status : CommitLog → ℕ → CommitStatus
status log t = or_in_progress (lookup t log)

unfoldable pub record_commit : CommitLog → ℕ → ℕ → CommitLog
record_commit log t commit_lsn = insert t (committed commit_lsn) log

unfoldable pub record_abort : CommitLog → ℕ → CommitLog
record_abort log t = insert t aborted log

pub status-record_commit :
    (log : CommitLog) (t l u : ℕ)
    → status (record_commit log t l) u ≡ (if t == u then committed l else status log u)
unfolding status record_commit
status-record_commit log t l u = ground (arith, lookup-insert t u (committed l) log)

pub status-record_abort :
    (log : CommitLog) (t u : ℕ)
    → status (record_abort log t) u ≡ (if t == u then aborted else status log u)
unfolding status record_abort
status-record_abort log t u = ground (arith, lookup-insert t u aborted log)

pub status-new : (u : ℕ) → status new u ≡ (if bootstrap_txn == u then committed 0 else in_progress)
unfolding status new lookup
status-new u = ground (arith, lookup-insert bootstrap_txn u (committed 0) [])
