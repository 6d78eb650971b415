-- ===== src/Core/Txn/Isolation.antt =====
-- crates/prism-core/src/txn.rs, visibility.rs: what a snapshot sees while other transactions
-- run. A step is what one thread does under a mutex.
use prism_db.Common.{
  ℕ, ◌+◌, ◌^◌, ◌<◌, ◌≡◌, ◌≢◌, inl, inr, ◌∙◌, refl, ap, true, false, List, ◌∷◌, ◌==◌, leb, arith,
  Bool-cases,
}
use prism_db.Common.Int.{ℤ}
use prism_db.Common.Results.{Result, ok, err}
use prism_db.Common.Maps.{contains, delete, contains-delete}
use prism_db.Wal.Payload.{WalError}
use prism_db.Core.CommitLog.{status, status-record_commit, status-record_abort}
use prism_db.Core.Record.{RecordHeader}
use prism_db.Core.Visibility.{Snapshot, effect_visible, visible}
use prism_db.Core.LogDevice.{LogDevice}
use prism_db.Core.Txn.{
  TxnMode, read_write, read_only, TxnManager, allocate, register, retire, committed_as, aborted_as,
  publish_commit, publish_abort,
}

-- The manager, and the ids that `begin` has allocated and not registered yet.
pub record System (W : Type 0) : Type 0 where
  pub manager : TxnManager W
  pub pending : List ℕ

module _ (L : LogDevice) where
  open L use {State}

  -- Only an active transaction is committed or aborted, as its handle's owner does, and the counter
  -- does not come to the end of its 64 bits.
  pub data Step : System State → System State → Type 0 where
    allocates :
        (m : TxnManager State) (p : List ℕ)
        → m.next_txn + 1 < 2 ^ 64
        → Step
            (record { manager = m; pending = p })
            (record { manager = (allocate m).0; pending = m.next_txn ∷ p })
    registers :
        (m : TxnManager State) (p : List ℕ) (id : ℕ) (mode : TxnMode)
        → contains id p ≡ true
        → Step
            (record { manager = m; pending = p })
            (record { manager = (register m id mode).0; pending = delete id p })
    commits :
        (m : TxnManager State) (p : List ℕ) (id : ℕ) (mode : TxnMode) (last_lsn : ℕ) (now : ℤ)
        → contains id m.active ≡ true
        → Step
            (record { manager = m; pending = p })
            (record { manager = (publish_commit L m id mode last_lsn now).0; pending = p })
    aborts :
        (m : TxnManager State) (p : List ℕ) (id : ℕ) (mode : TxnMode) (last_lsn : ℕ)
        → contains id m.active ≡ true
        → Step
            (record { manager = m; pending = p })
            (record { manager = (publish_abort L m id mode last_lsn).0; pending = p })
    retires :
        (m : TxnManager State) (p : List ℕ) (id : ℕ)
        → Step (record { manager = m; pending = p }) (record { manager = retire m id; pending = p })

  pub data Reach (s : System State) : System State → Type 0 where
    here : Reach s s
    next : {t u : System State} → Reach s t → Step t u → Reach s u

  -- `t` has come to its end: its id was given out, and it is neither pending nor active.
  pub record IsSettled (t : ℕ) (s : System State) : Type 0 where
    pub given_out : t < s.manager.next_txn
    pub not_active : contains t s.manager.active ≡ false
    pub not_pending : contains t s.pending ≡ false

  -- Of a manager and another: the status of `t`, the active set and the counter agree.
  abbrev Same : ℕ → TxnManager State → TxnManager State → Type 0
  Same t m' m =
      (status m'.commit_log t ≡ status m.commit_log t)
      × (m'.active ≡ m.active)
      × (m'.next_txn ≡ m.next_txn)

  committed_as-Same :
      (m : TxnManager State) (id t : ℕ) (p : State × Result WalError ℕ)
      → t ≢ id
      → Same t (committed_as L m id p).0 m
  unfolding committed_as
  committed_as-Same m id t (w, ok lsn) ne =
      (ground (arith, status-record_commit m.commit_log id lsn t), refl, refl)
  committed_as-Same m id t (w, err e) ne = (refl, refl, refl)

  aborted_as-Same :
      (m : TxnManager State) (id t : ℕ) (p : State × Result WalError ℕ)
      → t ≢ id
      → Same t (aborted_as L m id p).0 m
  unfolding aborted_as
  aborted_as-Same m id t (w, ok lsn) ne =
      (ground (arith, status-record_abort m.commit_log id t), refl, refl)
  aborted_as-Same m id t (w, err e) ne = (refl, refl, refl)

  publish_commit-Same :
      (m : TxnManager State) (id t : ℕ) (mode : TxnMode) (last_lsn : ℕ) (now : ℤ)
      → t ≢ id
      → Same t (publish_commit L m id mode last_lsn now).0 m
  unfolding publish_commit
  publish_commit-Same m id t read_write last_lsn now ne = committed_as-Same m id t _ ne
  publish_commit-Same m id t read_only last_lsn now ne =
      (ground (arith, status-record_commit m.commit_log id 0 t), refl, refl)

  publish_abort-Same :
      (m : TxnManager State) (id t : ℕ) (mode : TxnMode) (last_lsn : ℕ)
      → t ≢ id
      → Same t (publish_abort L m id mode last_lsn).0 m
  unfolding publish_abort
  publish_abort-Same m id t read_write last_lsn ne = aborted_as-Same m id t _ ne
  publish_abort-Same m id t read_only last_lsn ne =
      (ground (arith, status-record_abort m.commit_log id t), refl, refl)

  abbrev Kept : ℕ → System State → System State → Type 0
  Kept t s' s = IsSettled t s' × (status s'.manager.commit_log t ≡ status s.manager.commit_log t)

  Same-Kept :
      (t : ℕ) (m m' : TxnManager State) (p : List ℕ)
      → IsSettled t (record { manager = m; pending = p })
      → Same t m' m
      → Kept t (record { manager = m'; pending = p }) (record { manager = m; pending = p })
  Same-Kept t m m' p v (hs, ha, hn) = (
    record {
      given_out = omega arith;
      not_active = ap (contains t) ha ∙ v.not_active;
      not_pending = v.not_pending;
    },
    hs,
  )

  settled_ne :
      (m : TxnManager State) (p : List ℕ) (t id : ℕ)
      → contains id m.active ≡ true
      → IsSettled t (record { manager = m; pending = p })
      → t ≢ id
  settled_ne m p t id running v = λ e. cc (v.not_active, ap (λ x. contains x m.active) e)

  -- What is settled stays settled, with its outcome.
  Step-Kept : (t : ℕ) {s s' : System State} → Step s s' → IsSettled t s → Kept t s' s
  unfolding allocate register retire contains
  Step-Kept t (allocates m p fits) v = (
    record {
      given_out = ground (arith, v.given_out);
      not_active = v.not_active;
      not_pending = ground (arith, v.given_out, v.not_pending);
    },
    refl,
  )
  Step-Kept t (registers m p id mode found) v = (
    record {
      given_out = v.given_out;
      not_active = elim (Bool-cases (id == t)) [
        | inl same ↦
            let e : id ≡ t = ground arith in ground (arith, v.not_pending, ap (λ x. contains x p) e)
        | inr other ↦ ground (arith, v.not_active)
      ];
      not_pending = ground (arith, contains-delete id t p, v.not_pending);
    },
    refl,
  )
  Step-Kept t (commits m p id mode last_lsn now running) v =
      Same-Kept t m _ p v
        (publish_commit-Same m id t mode last_lsn now (settled_ne m p t id running v))
  Step-Kept t (aborts m p id mode last_lsn running) v =
      Same-Kept t m _ p v (publish_abort-Same m id t mode last_lsn (settled_ne m p t id running v))
  Step-Kept t (retires m p id) v = (
    record {
      given_out = v.given_out;
      not_active = ground (arith, contains-delete id t m.active, v.not_active);
      not_pending = v.not_pending;
    },
    refl,
  )

  Reach-Kept : (t : ℕ) {s s' : System State} → IsSettled t s → Reach s s' → Kept t s' s
  Reach-Kept t v here = (v, refl)
  Reach-Kept t v (next r st) =
      let (settled, e) = Reach-Kept t v r in
      let (settled', e') = Step-Kept t st settled in (settled', e' ∙ e)

  -- A transaction `id` that takes its snapshot while no other `begin` stands between its two parts.
  module _ (m : TxnManager State) (p : List ℕ) (id : ℕ) (mode : TxnMode)
      (alone : (t : ℕ) → contains t p ≡ true → t ≡ id) where
    abbrev started : System State
    started = record { manager = (register m id mode).0; pending = delete id p }

    abbrev taken : Snapshot
    taken = (register m id mode).1.snapshot

    IsSettled-at_start :
        (t : ℕ)
        → t ≢ id
        → leb m.next_txn t ≡ false
        → contains t m.active ≡ false
        → IsSettled t started
    unfolding register contains
    IsSettled-at_start t ne old idle = record {
      given_out = ground arith;
      not_active = ground arith;
      not_pending = ground (arith, contains-delete id t p, alone t);
    }

    effect_stable :
        (t : ℕ) {s : System State}
        → Reach started s
        → effect_visible t taken s.manager.commit_log ≡ effect_visible t taken m.commit_log
    unfolding effect_visible register
    effect_stable t r = elim (Bool-cases (t == id)) [
      | inl own ↦ ground arith
      | inr other ↦ elim (Bool-cases (leb m.next_txn t)) [
        | inl later ↦ ground arith
        | inr old ↦ elim (Bool-cases (contains t m.active)) [
          | inl running ↦ ground arith
          | inr idle ↦
              ground (arith, (Reach-Kept t (IsSettled-at_start t (λ e. ground arith) old idle) r).1)
        ]
      ]
    ]

    -- The version that a snapshot sees of a record is the same at every later time: no commit, no
    -- abort and no begin of another transaction changes which versions are visible to it.
    pub snapshot-stable :
        (h : RecordHeader) {s : System State}
        → Reach started s
        → visible h taken s.manager.commit_log ≡ visible h taken m.commit_log
    unfolding visible
    snapshot-stable h r = rw (effect_stable h.xmin r, effect_stable h.xmax r)
