-- ===== src/Wal/Device/Laws.antt =====
-- crates/prism-wal/src/wal.rs: what the transaction manager and the buffer pool rely on.
use prism_db.Common.{
  ℕ, ◌≤◌, ◌≡◌, refl, inl, inr, ltb, leb, arith, Bool-cases, subst, ◌+◌, ◌-◌, [], length,
}
use prism_db.Common.Results.{Result, ok, err}
use prism_db.Common.Crc.{Crc32}
use prism_db.Wal.Payload.{WalError, LogRecord}
use prism_db.Wal.Device.{
  Files, Wal, written, write_frame, then_write, rotate, append, flushed, flush_cloned,
  flush_through,
}
use prism_db.Wal.Record.{encode_body}
use prism_db.Core.LogDevice.{LogDevice}

module _ (crc : Crc32) (F : Files) where
  -- An append that succeeds gives the LSN that is then the last one.
  Gives : Wal F.State × Result WalError ℕ → Type 0
  Gives (w, ok lsn) = w.last_lsn ≡ lsn
  Gives (w, err e) = Unit

  written-Gives :
      (w : Wal F.State) (lsn total : ℕ) (x : F.State × Result WalError (Unit {0}))
      → Gives (written crc F w lsn total x)
  unfolding Gives written
  written-Gives w lsn total (s, ok _) = refl
  written-Gives w lsn total (s, err e) = tt

  write_frame-Gives : (w : Wal F.State) (r : LogRecord) → Gives (write_frame crc F w r)
  unfolding write_frame
  write_frame-Gives w r = written-Gives w _ _ _

  then_write-Gives :
      (x : Wal F.State × Result WalError (Unit {0})) (r : LogRecord) → Gives (then_write crc F x r)
  unfolding Gives then_write
  then_write-Gives (w, ok _) r = write_frame-Gives w r
  then_write-Gives (w, err e) r = tt

  append-Gives : (w : Wal F.State) (r : LogRecord) → Gives (append crc F w r)
  unfolding append Gives
  append-Gives w r =
      elim (Bool-cases (ltb (w.segment_size - 64) (32 + length (encode_body r.payload []).0 + 4))) [
        | inl large ↦ rw large tt
        | inr fits ↦
            elim (Bool-cases (
              ltb w.segment_size
                (w.active_offset + (32 + length (encode_body r.payload []).0 + 4)))) [
                  | inl full ↦ rw (fits, full) (then_write-Gives (rotate crc F w) r)
                  | inr room ↦ rw (fits, room) (write_frame-Gives w r)
                ]
      ]

  pub append-last :
      (w w' : Wal F.State) (r : LogRecord) (lsn : ℕ)
      → append crc F w r ≡ (w', ok lsn)
      → w'.last_lsn ≡ lsn
  unfolding Gives
  append-last w w' r lsn e = subst Gives e (append-Gives w r)

  -- A flush that succeeds has raised the durable LSN to the last one, or found it high enough.
  Reaches : ℕ → Wal F.State × Result WalError (Unit {0}) → Type 0
  Reaches up_to (w, ok _) = up_to ≤ w.durable_lsn
  Reaches up_to (w, err e) = Unit

  module _ (w : Wal F.State) (up_to : ℕ) (given : up_to ≤ w.last_lsn) where
    flushed-Reaches : (x : F.State × Result WalError (Unit {0})) → Reaches up_to (flushed crc F w x)
    unfolding Reaches flushed
    flushed-Reaches (s, ok _) = omega (arith, given)
    flushed-Reaches (s, err e) = tt

    cloned-Reaches : (x : Result WalError (Unit {0})) → Reaches up_to (flush_cloned crc F w x)
    unfolding Reaches flush_cloned
    cloned-Reaches (ok _) = flushed-Reaches _
    cloned-Reaches (err e) = tt

    flush-Reaches : Reaches up_to (flush_through crc F w up_to)
    unfolding Reaches flush_through
    flush-Reaches = elim (Bool-cases (leb up_to w.durable_lsn)) [
      | inl enough ↦ rw enough (ground (arith, enough))
      | inr less ↦ rw less (cloned-Reaches _)
    ]

  pub flush-durable :
      (w w' : Wal F.State) (up_to : ℕ)
      → up_to ≤ w.last_lsn
      → flush_through crc F w up_to ≡ (w', ok tt)
      → up_to ≤ w'.durable_lsn
  unfolding Reaches
  flush-durable w w' up_to given e = subst (Reaches up_to) e (flush-Reaches w up_to given)

  -- The log as the transaction manager and the buffer pool use it.
  abbrev pub wal_device : LogDevice
  wal_device = record {
    State = Wal F.State;
    append = append crc F;
    flush_through = flush_through crc F;
    last_lsn = λ w. w.last_lsn;
    durable_lsn = λ w. w.durable_lsn;
    append-last = append-last;
    flush-durable = flush-durable;
  }
