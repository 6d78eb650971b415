-- ===== src/Wal/Scan.antt =====
-- crates/prism-wal/src/wal.rs: the scan of the active segment when a log is opened.
pub mod Frames
mod Examples
use prism_db.Common.{
  ℕ, zero, suc, ◌+◌, ◌%◌, ◌^◌, List, length, take, drop, if◌then◌else◌, ltb, ◌==◌,
}
use prism_db.Common.Results.{Result, ok, err}
use prism_db.Common.Crc.{Crc32}
use prism_db.Wal.Payload.{WalError, LogRecord}
use prism_db.Wal.Record.{get_u32, get_u64, decode_record}
use prism_db.Wal.Segment.{segment_header_size}

-- `off` and `last` after a frame that was decoded, or as they are.
unfoldable pub next_state : Result WalError (ℕ × LogRecord × ℕ) → ℕ × ℕ → ℕ × ℕ → ℕ × ℕ
next_state (ok _) after now = after
next_state (err _) after now = now

module _ (crc : Crc32) (bytes : List ℕ) where
  -- The loop, on fuel; a frame takes 36 bytes at least.
  unfoldable pub scan_loop : ℕ → ℕ → ℕ → ℕ × ℕ
  scan_loop zero off last = (off, last)
  scan_loop (suc fuel) off last =
      let lsn = get_u64 bytes off in
      let total = 32 + get_u32 bytes (off + 8) + 4 in
      let rest = scan_loop fuel (off + total) lsn in
      if ltb (length bytes) (off + 32)
      then (off, last)
      else if lsn == 0
      then (off, last)
      else if ltb (length bytes) (off + total)
      then (off, last)
      else next_state (decode_record crc (take total (drop off bytes))) rest (off, last)

  unfoldable pub scan_active : ℕ × ℕ
  scan_active =
      let (off, last) = scan_loop (suc (length bytes)) segment_header_size 0 in (off % 2 ^ 32, last)
