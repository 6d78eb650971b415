-- ===== src/Core/Txn/Race.antt =====
-- crates/prism-core/src/txn.rs: `begin` allocates its id before it takes the mutex of the active
-- set. A snapshot that another thread takes in between has the id below its `xmax` and not among
-- the active ones.
use prism_db.Common.{ℕ, ◌<◌, ◌≡◌, ◌≢◌, inl, inr, true, false, arith}
use prism_db.Common.Int.{ℤ}
use prism_db.Common.Results.{ok}
use prism_db.Common.Maps.{contains}
use prism_db.Core.CommitLog.{CommitLog, in_progress, committed, status, no_txn}
use prism_db.Core.Visibility.{effect_visible}
use prism_db.Core.LogDevice.{LogDevice}
use prism_db.Core.Txn.{TxnMode, read_write, TxnManager, register, commit_internal}
use prism_db.Core.Txn.Outcome.{commit_internal_outcome}

module _ (L : LogDevice) where
  open L use {State}

  committed_seen :
      (m : TxnManager State) (id late lsn : ℕ) (mode : TxnMode) (log : CommitLog)
      → late ≢ no_txn
      → late ≢ id
      → late < m.next_txn
      → contains late m.active ≡ false
      → status log late ≡ committed lsn
      → effect_visible late (register m id mode).1.snapshot log ≡ true
  unfolding effect_visible register
  committed_seen m id late lsn mode log nz ne lt idle st = ground arith

  -- Let `late` have its id, and `id` take its snapshot before `late` registers. Then `late`, which
  -- the snapshot does not see at first, is seen as soon as it has registered and committed.
  pub late_commit_seen :
      (m : TxnManager State) (id late last_lsn : ℕ) (mode : TxnMode) (now : ℤ)
      → late ≢ no_txn
      → late ≢ id
      → late < m.next_txn
      → contains late m.active ≡ false
      → status m.commit_log late ≡ in_progress
      → (commit_internal L
          (register (register m id mode).0 late read_write).0
          late
          read_write
          last_lsn
          now).1
        ≡ ok tt
      → (effect_visible late (register m id mode).1.snapshot m.commit_log ≡ false)
        × (effect_visible late
              (register m id mode).1.snapshot
              (commit_internal L
                (register (register m id mode).0 late read_write).0
                late
                read_write
                last_lsn
                now).0.commit_log
            ≡ true)
  late_commit_seen m id late last_lsn mode now nz ne lt idle open_yet done = (
    unfold effect_visible register in ground arith,
    elim (commit_internal_outcome L (register (register m id mode).0 late read_write).0 late
        last_lsn now) [
          | inl (lsn, _, _, _, _, st, _, _) ↦ committed_seen m id late lsn mode _ nz ne lt idle st
          | inr (e, _, failed, _) ↦ cc (done, failed)
        ],
  )
