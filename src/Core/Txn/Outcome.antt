-- ===== src/Core/Txn/Outcome.antt =====
-- crates/prism-core/src/txn.rs: the outcome of a commit and of an abort, on every path.
use prism_db.Common.{ℕ, ◌≤◌, ◌≡◌, ◌≢◌, ◌⊎◌, inl, inr, refl, ap, false, arith}
use prism_db.Common.Int.{ℤ}
use prism_db.Common.Results.{Result, ok, err}
use prism_db.Common.Maps.{contains, contains-delete}
use prism_db.Wal.Payload.{WalError, LogRecord, commit, txn}
use prism_db.Core.CommitLog.{
  committed, aborted, status, record_commit, record_abort, status-record_commit,
  status-record_abort,
}
use prism_db.Core.Lock.{release_all}
use prism_db.Core.Errors.{CoreError}
use prism_db.Core.LogDevice.{LogDevice}
use prism_db.Core.Txn.{
  read_write, TxnManager, retire, publish_commit, publish_abort, log_durably, flush_appended,
  flushed_at, committed_as, aborted_as, then_retire, commit_internal, abort_internal,
}

-- Everything but the log is as it was.
abbrev pub Unchanged : {W : Type 0} → TxnManager W → TxnManager W → Type 0
Unchanged m m' =
    (m'.next_txn ≡ m.next_txn)
    × (m'.active ≡ m.active)
    × (m'.commit_log ≡ m.commit_log)
    × (m'.locks ≡ m.locks)

-- The transaction is out of the active set and has let go of its locks; no other status changed.
abbrev pub Ended : {W : Type 0} → ℕ → TxnManager W → TxnManager W → Type 0
Ended id m m' =
    (contains id m'.active ≡ false)
    × (m'.locks ≡ release_all m.locks id)
    × ((u : ℕ) → u ≢ id → status m'.commit_log u ≡ status m.commit_log u)
    × ((u : ℕ) → u ≢ id → contains u m'.active ≡ contains u m.active)

module _ (L : LogDevice) where
  open L use {State, durable_lsn, append, flush_through, append-last, flush-durable}

  -- The two outcomes of a commit: its record was appended and flushed through, and its LSN is what
  -- was published; or one of the two calls of the log failed.
  abbrev pub CommitOutcome :
      TxnManager State → ℕ → LogRecord → TxnManager State × Result CoreError (Unit {0}) → Type 0
  CommitOutcome m id commit_record r =
      ((lsn : ℕ) × (w : State) × (append m.wal commit_record ≡ (w, ok lsn))
        × (flush_through w lsn ≡ (r.0.wal, ok tt))
        × (lsn ≤ durable_lsn r.0.wal)
        × (status r.0.commit_log id ≡ committed lsn)
        × Ended id m r.0
        × (r.1 ≡ ok tt))
      ⊎ ((e : WalError) × ((append m.wal commit_record ≡ (r.0.wal, err e))
            ⊎ ((lsn : ℕ) × (w : State) × (append m.wal commit_record ≡ (w, ok lsn))
                × (flush_through w lsn ≡ (r.0.wal, err e))))
          × (r.1 ≡ err (CoreError.wal e))
          × Unchanged m r.0)

  retire-Ended :
      (m m' : TxnManager State) (id : ℕ)
      → m'.locks ≡ m.locks
      → m'.active ≡ m.active
      → ((u : ℕ) → u ≢ id → status m'.commit_log u ≡ status m.commit_log u)
      → Ended id m (retire m' id)
  unfolding retire
  retire-Ended m m' id hl ha hs = (
    ground (arith, contains-delete id id m'.active),
    ap (λ l. release_all l id) hl,
    hs,
    λ u ne. ground (arith, contains-delete id u m'.active, ap (contains u) ha),
  )

  module _ (m : TxnManager State) (id : ℕ) (commit_record : LogRecord) where
    flushed_outcome :
        (w : State) (lsn : ℕ) (x : State × Result WalError (Unit {0}))
        → append m.wal commit_record ≡ (w, ok lsn)
        → flush_through w lsn ≡ x
        → CommitOutcome m id commit_record
            (then_retire L (committed_as L m id (flushed_at L lsn x)) id)
    unfolding flushed_at committed_as then_retire retire
    flushed_outcome w lsn (w', ok _) appended flushed = inl (
      lsn,
      w,
      appended,
      flushed,
      flush-durable w w' lsn (omega (arith, append-last m.wal w commit_record lsn appended))
          flushed,
      ground (arith, status-record_commit m.commit_log id lsn id),
      retire-Ended m (record m { wal = w'; commit_log = record_commit m.commit_log id lsn }) id refl
          refl (λ u ne. ground (arith, status-record_commit m.commit_log id lsn u)),
      refl,
    )
    flushed_outcome w lsn (w', err e) appended flushed =
        inr (e, inr (lsn, w, appended, flushed), refl, (refl, refl, refl, refl))

    appended_outcome :
        (x : State × Result WalError ℕ)
        → append m.wal commit_record ≡ x
        → CommitOutcome m id commit_record
            (then_retire L (committed_as L m id (flush_appended L x)) id)
    unfolding flush_appended committed_as then_retire
    appended_outcome (w, ok lsn) appended = flushed_outcome w lsn _ appended refl
    appended_outcome (w, err e) appended = inr (e, inl appended, refl, (refl, refl, refl, refl))

  -- A commit of a writing transaction appends its commit record, after the last record of the
  -- transaction, and flushes the log through it. One that reports success has published the LSN of
  -- that record, through which the log is durable, ended the transaction and touched no other; one
  -- that fails does so with the error of one of the two calls, and has changed nothing but the log:
  -- the transaction is still active, holds its locks, and has no new outcome.
  pub commit_internal_outcome :
      (m : TxnManager State) (id last_lsn : ℕ) (now : ℤ)
      → CommitOutcome m id
          (txn id last_lsn (commit now 0))
          (commit_internal L m id read_write last_lsn now)
  unfolding commit_internal publish_commit log_durably
  commit_internal_outcome m id last_lsn now =
      appended_outcome m id (txn id last_lsn (commit now 0)) _ refl

  abbrev pub AbortOutcome :
      TxnManager State → ℕ → TxnManager State × Result CoreError (Unit {0}) → Type 0
  AbortOutcome m id r =
      ((status r.0.commit_log id ≡ aborted) × Ended id m r.0 × (r.1 ≡ ok tt))
      ⊎ ((e : WalError) × (r.1 ≡ err (CoreError.wal e)) × Unchanged m r.0)

  abort_outcome :
      (m : TxnManager State) (id : ℕ) (p : State × Result WalError ℕ)
      → AbortOutcome m id (then_retire L (aborted_as L m id p) id)
  unfolding aborted_as then_retire
  abort_outcome m id (w, ok lsn) = inl (
    unfold retire in ground (arith, status-record_abort m.commit_log id id),
    retire-Ended m (record m { wal = w; commit_log = record_abort m.commit_log id }) id refl refl
        (λ u ne. ground (arith, status-record_abort m.commit_log id u)),
    refl,
  )
  abort_outcome m id (w, err e) = inr (e, refl, (refl, refl, refl, refl))

  -- An abort of a writing transaction either records it as aborted and ends it, or fails on the log
  -- and leaves the transaction active, with its locks and no new outcome.
  pub abort_internal_outcome :
      (m : TxnManager State) (id last_lsn : ℕ)
      → AbortOutcome m id (abort_internal L m id read_write last_lsn)
  unfolding abort_internal publish_abort
  abort_internal_outcome m id last_lsn = abort_outcome m id _
