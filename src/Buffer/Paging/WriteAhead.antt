-- ===== src/Buffer/Paging/WriteAhead.antt =====
-- crates/prism-buffer/src/pool.rs: the log comes before a page that an access evicts.
use prism_db.Common.{
  ℕ, zero, suc, ◌*◌, ◌≤◌, ◌≡◌, ◌≢◌, inl, inr, ◌∙◌, refl, ap, sym, true, false, Option, none, some,
  ltb, arith, Bool-cases, Option-cases, ℕ_discrete,
}
use prism_db.Common.Results.{Result, ok, err}
use prism_db.Common.Maps.{lookup}
use prism_db.Wal.Payload.{WalError}
use prism_db.Storage.Bytes.{Buffer}
use prism_db.Core.LogDevice.{LogDevice}
use prism_db.Buffer.Devices.{StorageError, BufferError, DiskDevice}
use prism_db.Buffer.Pool.{set_frame, advance, forget, take_victim, same_page}
use prism_db.Buffer.Paging.{
  Pool, Turn, passed, taken, stopped, wrote_page, write_after_log, write_out, taken_after,
  evict_dirty, evict, visit, sweep, find_victim, seat, seat_read, seat_in, install_page,
  pin_for_access,
}
use prism_db.Buffer.Paging.Clock.{used_less}

module _ (L : LogDevice) (D : DiskDevice) where
  -- A page whose content on disk is another afterwards was in a frame before, and the log is durable
  -- through the LSN that the frame had.
  unfoldable pub IsLogged : Pool L D → D.State → L.State → Type 0
  IsLogged p disk log =
      (j : ℕ)
      → D.page disk j ≢ D.page p.disk j
      → (i : ℕ) × ((p.frames i).page_id ≡ some j) × ((p.frames i).page_lsn ≤ L.durable_lsn log)

  -- The LSN of each dirty frame is one that the log has given.
  abbrev pub Assigned : Pool L D → Type 0
  Assigned p = (i : ℕ) → (p.frames i).dirty ≡ true → (p.frames i).page_lsn ≤ L.last_lsn p.log

  unchanged : (p : Pool L D) (disk : D.State) (log : L.State) → disk ≡ p.disk → IsLogged p disk log
  unfolding IsLogged
  unchanged p disk log e j ne = absurd (ne (ap (λ d. D.page d j) e))

  module _ (p : Pool L D) (idx old : ℕ) (here : (p.frames idx).page_id ≡ some old)
      (given : (p.frames idx).page_lsn ≤ L.last_lsn p.log) (content : Buffer) where
    wrote-IsLogged :
        (w : L.State) (x : D.State × Result StorageError (Unit {0}))
        → (p.frames idx).page_lsn ≤ L.durable_lsn w
        → D.write_page p.disk old content ≡ x
        → IsLogged p
            (wrote_page L D (record p { log = w }) x).0.disk
            (wrote_page L D (record p { log = w }) x).0.log
    unfolding IsLogged wrote_page
    wrote-IsLogged w (s, ok _) le e j ne = elim (ℕ_discrete j old) [
      | yes same ↦ (idx, here ∙ ap some (sym same), le)
      | no other ↦
          absurd
            (ne (ap (λ y. D.page y.0 j) (sym e) ∙ D.write_page_other p.disk old j content other))
    ]
    wrote-IsLogged w (s, err x) le e j ne = elim (ℕ_discrete j old) [
      | yes same ↦ (idx, here ∙ ap some (sym same), le)
      | no other ↦
          absurd
            (ne (ap (λ y. D.page y.0 j) (sym e) ∙ D.write_page_other p.disk old j content other))
    ]

    after_log-IsLogged :
        (x : L.State × Result WalError (Unit {0}))
        → L.flush_through p.log (p.frames idx).page_lsn ≡ x
        → IsLogged p
            (write_after_log L D p old content x).0.disk
            (write_after_log L D p old content x).0.log
    unfolding write_after_log
    after_log-IsLogged (w, ok _) e =
        wrote-IsLogged w _ (L.flush-durable p.log w (p.frames idx).page_lsn given e) refl
    after_log-IsLogged (w, err x) e = unchanged p p.disk w refl

    write_out-IsLogged :
        IsLogged p
          (write_out L D p old (p.frames idx).page_lsn content).0.disk
          (write_out L D p old (p.frames idx).page_lsn content).0.log
    unfolding write_out
    write_out-IsLogged = after_log-IsLogged _ refl

  TurnLogged : Pool L D → Turn L D → Type 0
  TurnLogged p (passed q) =
      (q.disk ≡ p.disk)
      × (q.log ≡ p.log)
      × ((i : ℕ)
          → ((q.frames i).page_id ≡ (p.frames i).page_id)
            × ((q.frames i).page_lsn ≡ (p.frames i).page_lsn)
            × ((q.frames i).dirty ≡ (p.frames i).dirty))
  TurnLogged p (taken q idx) = IsLogged p q.disk q.log
  TurnLogged p (stopped q e) = IsLogged p q.disk q.log

  victim_devices :
      (p : Pool L D) (idx : ℕ)
      → ((take_victim p idx).disk ≡ p.disk) × ((take_victim p idx).log ≡ p.log)
  unfolding take_victim forget set_frame
  victim_devices p idx = elim (Option-cases (p.frames idx).page_id) [
    | inl gone ↦ rw (gone, forget) (refl, refl)
    | inr (id, at) ↦ rw (at, forget) (refl, refl)
  ]

  victim-IsLogged :
      (p q : Pool L D) (idx : ℕ)
      → IsLogged p q.disk q.log
      → IsLogged p (take_victim q idx).disk (take_victim q idx).log
  victim-IsLogged p q idx h = let (d, l) = victim_devices q idx in rw (d, l) h

  taken_after-TurnLogged :
      (p : Pool L D) (idx : ℕ) (x : Pool L D × Result BufferError (Unit {0}))
      → IsLogged p x.0.disk x.0.log
      → TurnLogged p (taken_after L D idx x)
  unfolding TurnLogged taken_after
  taken_after-TurnLogged p idx (q, ok _) h = victim-IsLogged p q idx h
  taken_after-TurnLogged p idx (q, err e) h = h

  vacated : (p : Pool L D) (idx : ℕ) → TurnLogged p (taken (take_victim p idx) idx)
  unfolding TurnLogged
  vacated p idx = victim-IsLogged p p idx (unchanged p p.disk p.log refl)

  over : (p : Pool L D) → TurnLogged p (passed p)
  unfolding TurnLogged
  over p = (refl, refl, λ i. (refl, refl, refl))

  used : (p : Pool L D) (idx : ℕ) → TurnLogged p (passed (used_less L D p idx))
  unfolding TurnLogged set_frame
  used p idx = (refl, refl, λ i. (ground arith, ground arith, ground arith))

  advanced : (p : Pool L D) → TurnLogged p (passed (advance p))
  unfolding TurnLogged advance
  advanced p = (refl, refl, λ i. (refl, refl, refl))

  evict_dirty-TurnLogged :
      (p : Pool L D) (idx : ℕ) (o : Option ℕ)
      → (p.frames idx).page_id ≡ o
      → (p.frames idx).page_lsn ≤ L.last_lsn p.log
      → TurnLogged p (evict_dirty L D p idx o)
  unfolding evict_dirty
  evict_dirty-TurnLogged p idx none here given = vacated p idx
  evict_dirty-TurnLogged p idx (some old) here given = elim (Bool-cases (p.frames idx).latched) [
    | inl l ↦ rw l (over p)
    | inr l ↦ rw l (
        taken_after-TurnLogged p idx _
          (write_out-IsLogged p idx old here given (p.frames idx).content))
  ]

  visit-TurnLogged : (p : Pool L D) (idx : ℕ) → Assigned p → TurnLogged p (visit L D p idx)
  unfolding visit evict
  visit-TurnLogged p idx given = elim (Bool-cases (ltb 0 (p.frames idx).pin_count)) [
    | inl a ↦ rw a (over p)
    | inr a ↦ elim (Bool-cases (ltb 0 (p.frames idx).usage_count)) [
      | inl u ↦ rw (a, u) (used p idx)
      | inr u ↦ elim (Bool-cases (p.frames idx).dirty) [
        | inl d ↦ rw (a, u, d) (evict_dirty-TurnLogged p idx _ refl (given idx d))
        | inr d ↦ rw (a, u, d) (vacated p idx)
      ]
    ]
  ]

  -- What is logged of a pool is logged of one with the same pages and LSNs.
  before_turn :
      (p q : Pool L D) (disk : D.State) (log : L.State)
      → TurnLogged p (passed q)
      → IsLogged q disk log
      → IsLogged p disk log
  unfolding TurnLogged IsLogged
  before_turn p q disk log (d, l, same) h j ne =
      let (i, at, le) = h j (λ e. ne (e ∙ ap (λ s. D.page s j) d)) in
      (i, sym ((same i).0) ∙ at, rw ((same i).1) at le)

  turn-Assigned : (p q : Pool L D) → TurnLogged p (passed q) → Assigned p → Assigned q
  unfolding TurnLogged
  turn-Assigned p q (d, l, same) given i dirty =
      rw (l, (same i).1) (given i (sym ((same i).2) ∙ dirty))

  after_turn :
      (visits : ℕ) (p : Pool L D) (t : Turn L D)
      → TurnLogged p t
      → Assigned p
      → ((q : Pool L D)
          → Assigned q
          → IsLogged q (sweep L D visits q).0.disk (sweep L D visits q).0.log)
      → ((x : Pool L D × Result BufferError ℕ)
          → x ≡ elim t [
            | passed q ↦ sweep L D visits q
            | taken q i ↦ (q, ok i)
            | stopped q e ↦ (q, err e)
          ]
          → IsLogged p x.0.disk x.0.log)
  unfolding TurnLogged
  after_turn visits p (passed q) h given rest x e =
      rw e (before_turn p q _ _ h (rest q (turn-Assigned p q h given)))
  after_turn visits p (taken q i) h given rest x e = rw e h
  after_turn visits p (stopped q y) h given rest x e = rw e h

  sweep-IsLogged :
      (visits : ℕ) (p : Pool L D)
      → Assigned p
      → IsLogged p (sweep L D visits p).0.disk (sweep L D visits p).0.log
  unfolding sweep
  sweep-IsLogged zero p given = unchanged p p.disk p.log refl
  sweep-IsLogged (suc visits) p given =
      let given' = turn-Assigned p (advance p) (advanced p) given in
      before_turn p (advance p) _ _ (advanced p) (
        after_turn visits (advance p) (visit L D (advance p) p.clock_hand)
          (visit-TurnLogged (advance p) p.clock_hand given') given' (sweep-IsLogged visits)
          (sweep L D (suc visits) p) refl)

  seat_read-devices :
      (q : Pool L D) (idx id : ℕ) (r : Result StorageError Buffer)
      → ((seat_read L D q idx id r).0.disk ≡ q.disk) × ((seat_read L D q idx id r).0.log ≡ q.log)
  unfolding seat_read seat set_frame
  seat_read-devices q idx id (ok content) = (refl, refl)
  seat_read-devices q idx id (err e) = (refl, refl)

  seat_in-devices :
      (id : ℕ) (x : Pool L D × Result BufferError ℕ)
      → ((seat_in L D id false x).0.disk ≡ x.0.disk) × ((seat_in L D id false x).0.log ≡ x.0.log)
  unfolding seat_in
  seat_in-devices id (q, err e) = (refl, refl)
  seat_in-devices id (q, ok idx) = seat_read-devices q idx id (D.read_page q.disk id)

  install_page-IsLogged :
      (p : Pool L D) (id : ℕ)
      → Assigned p
      → IsLogged p (install_page L D p id false).0.disk (install_page L D p id false).0.log
  unfolding install_page find_victim
  install_page-IsLogged p id given =
      let (disk, log) = seat_in-devices id (find_victim L D p) in
      rw (disk, log) (sweep-IsLogged (4 * p.frame_count) p given)

  -- The write-ahead rule of an access, whatever it evicts and wherever it fails, where the LSN of
  -- each dirty frame is one that the log has given: a page whose content on disk is another
  -- afterwards was in a frame, and the log is durable through the LSN that the frame had.
  pub pin_for_access-IsLogged :
      (p : Pool L D) (id : ℕ)
      → Assigned p
      → IsLogged p (pin_for_access L D p id).0.disk (pin_for_access L D p id).0.log
  unfolding pin_for_access set_frame
  pin_for_access-IsLogged p id given = elim (Option-cases (lookup id p.page_table)) [
    | inl absent ↦ rw (absent, pin_for_access) (install_page-IsLogged p id given)
    | inr (idx, at) ↦ elim (Bool-cases (same_page (p.frames idx).page_id id)) [
      | inl here ↦ rw (at, pin_for_access, here) (unchanged p p.disk p.log refl)
      | inr moved ↦ rw (at, pin_for_access, moved) (install_page-IsLogged p id given)
    ]
  ]
