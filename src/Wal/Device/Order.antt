-- ===== src/Wal/Device/Order.antt =====
-- crates/prism-wal/src/wal.rs: where appended records stand, and the order of their LSNs.
use prism_db.Common.{ℕ, ◌+◌, ◌^◌, ◌≤◌, ◌<◌, ◌≡◌, [], length}
use prism_db.Common.Results.{Result, ok, err}
use prism_db.Common.Crc.{Crc32}
use prism_db.Wal.Payload.{WalError, LogRecord}
use prism_db.Wal.Record.{encode_body}
use prism_db.Wal.Device.{Files, Wal, from_parts}

-- The size of a record's frame.
abbrev pub frame_size : LogRecord → ℕ
frame_size r = 32 + length (encode_body r.payload []).0 + 4

-- The write position is in the active segment, behind its header and behind the last record.
pub record IsPlaced {S : Type 0} (w : Wal S) : Type 0 where
  pub sized : w.segment_size < 2 ^ 32
  pub behind_header : 64 ≤ w.active_offset
  pub within : w.active_offset ≤ w.segment_size
  pub ids : w.active_id < 2 ^ 32
  pub ahead : w.last_lsn < from_parts w.active_id w.active_offset

module _ (crc : Crc32) (F : Files) where
  -- What an append leaves behind: where it succeeds, its LSN is above all before, and its frame
  -- stands between that LSN's offset and the new write position, in one segment.
  abbrev pub Appends : Wal F.State → LogRecord → Wal F.State × Result WalError ℕ → Type 0
  Appends w r (w', ok lsn) =
      IsPlaced w'
      × (w.last_lsn < lsn)
      × (w'.last_lsn ≡ lsn)
      × (from_parts w'.active_id w'.active_offset ≡ lsn + frame_size r)
      × (w'.durable_lsn ≡ w.durable_lsn)
  Appends w r (w', err e) =
      IsPlaced w' × (w'.last_lsn ≡ w.last_lsn) × (w'.durable_lsn ≡ w.durable_lsn)

  -- A rotation moves to the next segment or, where a call fails, changes no field.
  Rotates : Wal F.State → Wal F.State × Result WalError (Unit {0}) → Type 0
  Rotates w (w', ok _) =
      IsPlaced w'
      × (w'.last_lsn ≡ w.last_lsn)
      × (w'.durable_lsn ≡ w.durable_lsn)
      × (w'.segment_size ≡ w.segment_size)
      × (w'.active_offset ≡ 64)
  Rotates w (w', err e) =
      IsPlaced w' × (w'.last_lsn ≡ w.last_lsn) × (w'.durable_lsn ≡ w.durable_lsn)
