-- ===== src/Wal/Device.antt =====
-- crates/prism-wal/src/wal.rs: `append`, with the rotation of segments, and `flush_through`. The
-- calls of the file system and of the clock are a parameter.
pub mod Laws
pub mod Order
mod Examples
use prism_db.Common.{ℕ, ◌+◌, ◌-◌, ◌*◌, ◌%◌, ◌^◌, max, List, [], length, if◌then◌else◌, ltb, leb}
use prism_db.Common.Results.{Result, ok, err}
use prism_db.Common.Int.{ℤ}
use prism_db.Common.Crc.{Crc32}
use prism_db.Storage.Bytes.{slice}
use prism_db.Wal.Payload.{WalError, record_too_large, LogRecord}
use prism_db.Wal.Record.{encode_body, assemble_frame, record_header_size, record_crc_size}
use prism_db.Wal.Segment.{SegmentHeader, segment_header_size, wal_format_version, encode_header}

-- What the log calls of `std::fs` and `std::time`, with the segment's id for its file.
pub record Files : Type 1 where
  pub State : Type 0
  pub create_new : State → ℕ → State × Result WalError (Unit {0})
  pub set_len : State → ℕ → ℕ → State × Result WalError (Unit {0})
  pub write_at : State → ℕ → ℕ → List ℕ → State × Result WalError (Unit {0})
  pub try_clone : State → ℕ → Result WalError (Unit {0})
  pub sync_data : State → ℕ → State × Result WalError (Unit {0})
  pub sync_dir : State → State
  pub now_micros : State → ℤ

pub data SyncMode : Type 0 where
  fsync none : SyncMode

-- `Inner`, and the durable LSN beside it.
pub record Wal (S : Type 0) : Type 0 where
  pub files : S
  pub segment_size : ℕ
  pub sync_mode : SyncMode
  pub active_id : ℕ
  pub active_offset : ℕ
  pub last_lsn : ℕ
  pub durable_lsn : ℕ

-- `Lsn::from_parts`, of two `u32`.
unfoldable pub from_parts : ℕ → ℕ → ℕ
from_parts segment_id offset = segment_id * 2 ^ 32 + offset

-- A call and then another, with `?` between them.
unfoldable pub and_next {ℓ} :
    {S : Type ℓ}
    → S × Result WalError (Unit {0})
    → (S → S × Result WalError (Unit {0}))
    → S × Result WalError (Unit {0})
and_next (s, ok _) next = next s
and_next (s, err e) next = (s, err e)

module _ (crc : Crc32) (F : Files) where
  unfoldable pub sync_if : SyncMode → F.State → ℕ → F.State × Result WalError (Unit {0})
  sync_if fsync s id = F.sync_data s id
  sync_if none s id = (s, ok tt)

  -- The end of `create_segment`: the file is synced, and then its directory.
  unfoldable pub sync_created : SyncMode → F.State → ℕ → F.State × Result WalError (Unit {0})
  sync_created fsync s id = and_next (F.sync_data s id) (λ s. (F.sync_dir s, ok tt))
  sync_created none s id = (s, ok tt)

  unfoldable pub new_header : F.State → ℕ → ℕ → ℕ → SegmentHeader
  new_header s id prev_id size = record {
    format_version = wal_format_version;
    segment_size = size;
    segment_id = id;
    first_lsn = from_parts (id % 2 ^ 32) segment_header_size;
    created_at_micros = F.now_micros s;
    prev_segment_id = prev_id;
  }

  unfoldable pub create_segment :
      F.State → ℕ → ℕ → ℕ → SyncMode → F.State × Result WalError (Unit {0})
  create_segment s id prev_id size sync = and_next (F.create_new s id) (λ s.
      and_next (F.set_len s id size) (λ s.
        and_next (F.write_at s id 0 (slice (encode_header crc (new_header s id prev_id size)) 0 64))
          (λ s. sync_created sync s id)))

  unfoldable pub rotated :
      Wal F.State → F.State × Result WalError (Unit {0}) → Wal F.State × Result WalError (Unit {0})
  rotated w (s, ok _) = (
    record w { files = s; active_id = w.active_id + 1; active_offset = segment_header_size },
    ok tt,
  )
  rotated w (s, err e) = (record w { files = s }, err e)

  unfoldable pub rotate : Wal F.State → Wal F.State × Result WalError (Unit {0})
  rotate w = rotated w (
      and_next (sync_if w.sync_mode w.files w.active_id)
        (λ s. create_segment s (w.active_id + 1) w.active_id w.segment_size w.sync_mode))

  -- After the write of a frame of so many bytes.
  unfoldable pub written :
      Wal F.State → ℕ → ℕ → F.State × Result WalError (Unit {0}) → Wal F.State × Result WalError ℕ
  written w lsn total (s, ok _) = (
    record w { files = s; active_offset = w.active_offset + total % 2 ^ 32; last_lsn = lsn },
    ok lsn,
  )
  written w lsn total (s, err e) = (record w { files = s }, err e)

  unfoldable pub write_frame : Wal F.State → LogRecord → Wal F.State × Result WalError ℕ
  write_frame w r =
      let (body, rtype) = encode_body r.payload [] in
      let lsn = from_parts (w.active_id % 2 ^ 32) w.active_offset in
      let frame = assemble_frame crc lsn r.txn_id r.prev_lsn rtype body in
      written w lsn (record_header_size + length body + record_crc_size)
        (F.write_at w.files w.active_id w.active_offset frame)

  unfoldable pub then_write :
      Wal F.State × Result WalError (Unit {0}) → LogRecord → Wal F.State × Result WalError ℕ
  then_write (w, ok _) r = write_frame w r
  then_write (w, err e) r = (w, err e)

  -- `usable` is zero for a segment smaller than its header, where the source panics.
  unfoldable pub append : Wal F.State → LogRecord → Wal F.State × Result WalError ℕ
  append w r =
      let (body, rtype) = encode_body r.payload [] in
      let total = record_header_size + length body + record_crc_size in
      let usable = w.segment_size - segment_header_size in
      if ltb usable total
      then (w, err (record_too_large total usable))
      else if ltb w.segment_size (w.active_offset + total)
      then then_write (rotate w) r
      else write_frame w r

  -- The end of a flush: the durable LSN is raised to the target.
  unfoldable pub flushed :
      Wal F.State → F.State × Result WalError (Unit {0}) → Wal F.State × Result WalError (Unit {0})
  flushed w (s, ok _) = (record w { files = s; durable_lsn = max w.durable_lsn w.last_lsn }, ok tt)
  flushed w (s, err e) = (record w { files = s }, err e)

  unfoldable pub flush_cloned :
      Wal F.State → Result WalError (Unit {0}) → Wal F.State × Result WalError (Unit {0})
  flush_cloned w (ok _) = flushed w (sync_if w.sync_mode w.files w.active_id)
  flush_cloned w (err e) = (w, err e)

  -- The second look at the durable LSN, under the flush lock, is the first one where no other flush
  -- stands between them.
  unfoldable pub flush_through : Wal F.State → ℕ → Wal F.State × Result WalError (Unit {0})
  flush_through w up_to =
      if leb up_to w.durable_lsn
      then (w, ok tt)
      else flush_cloned w (F.try_clone w.files w.active_id)
