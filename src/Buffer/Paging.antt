-- ===== src/Buffer/Paging.antt =====
-- crates/prism-buffer/src/pool.rs: the operations of the pool that reach the disk and the log.
pub mod Clock
pub mod Failures
pub mod Exhausted
pub mod Sound
pub mod Frames
pub mod Flushes
pub mod FlushAll
pub mod Writes
pub mod Race
pub mod WriteAhead
pub mod Evicts
pub mod Access
use prism_db.Common.{
  ℕ, zero, suc, ◌+◌, ◌-◌, ◌*◌, Bool, true, false, ◌&&◌, List, [], ◌∷◌, Option, none, some,
  if◌then◌else◌, ltb, leb, ◌==◌,
}
use prism_db.Common.Results.{Result, ok, err}
use prism_db.Common.Maps.{lookup, insert, delete}
use prism_db.Storage.Bytes.{Buffer, rd_u64}
use prism_db.Wal.Payload.{WalError}
use prism_db.Core.LogDevice.{LogDevice}
use prism_db.Buffer.Devices.{StorageError, BufferError, storage, wal, exhausted, DiskDevice}
use prism_db.Buffer.Pool.{
  latch, Frame, BufferPool, same_page, Look, look_at, pinned_again, seated, set_frame, advance,
  take_victim,
}

-- The operations that reach the disk and the log.
module _ (L : LogDevice) (D : DiskDevice) where
  abbrev pub Pool : Type 0
  Pool = BufferPool L.State D.State

  unfoldable pub wrote_page :
      Pool → D.State × Result StorageError (Unit {0}) → Pool × Result BufferError (Unit {0})
  wrote_page p (s, ok _) = (record p { disk = s }, ok tt)
  wrote_page p (s, err e) = (record p { disk = s }, err (storage e))

  unfoldable pub write_after_log :
      Pool
      → ℕ
      → Buffer
      → L.State × Result WalError (Unit {0})
      → Pool × Result BufferError (Unit {0})
  write_after_log p id content (w, ok _) =
      wrote_page (record p { log = w }) (D.write_page p.disk id content)
  write_after_log p id content (w, err e) = (record p { log = w }, err (wal e))

  -- The log is made durable through the LSN, then the page is written.
  unfoldable pub write_out : Pool → ℕ → ℕ → Buffer → Pool × Result BufferError (Unit {0})
  write_out p id page_lsn content = write_after_log p id content (L.flush_through p.log page_lsn)

  -- What a round of the clock does: it passes the frame over, takes it, or fails.
  pub data Turn : Type 0 where
    passed : Pool → Turn
    taken : Pool → ℕ → Turn
    stopped : Pool → BufferError → Turn

  unfoldable pub taken_after : ℕ → Pool × Result BufferError (Unit {0}) → Turn
  taken_after idx (p, ok _) = taken (take_victim p idx) idx
  taken_after idx (p, err e) = stopped p e

  unfoldable pub evict_dirty : Pool → ℕ → Option ℕ → Turn
  evict_dirty p idx none = taken (take_victim p idx) idx
  evict_dirty p idx (some old) =
      if (p.frames idx).latched
      then passed p
      else taken_after idx (write_out p old (p.frames idx).page_lsn (p.frames idx).content)

  unfoldable pub evict : Pool → ℕ → Turn
  evict p idx =
      if (p.frames idx).dirty
      then evict_dirty p idx (p.frames idx).page_id
      else taken (take_victim p idx) idx

  unfoldable pub visit : Pool → ℕ → Turn
  visit p idx =
      let f = p.frames idx in
      if ltb 0 f.pin_count
      then passed p
      else if ltb 0 f.usage_count
      then passed (set_frame p idx (record f { usage_count = f.usage_count - 1 }))
      else evict p idx

  -- `visits` is what is left of `4 * n`.
  unfoldable pub sweep : ℕ → Pool → Pool × Result BufferError ℕ
  sweep zero p = (p, err (exhausted p.frame_count))
  sweep (suc visits) p = elim (visit (advance p) p.clock_hand) [
    | passed p' ↦ sweep visits p'
    | taken p' idx ↦ (p', ok idx)
    | stopped p' e ↦ (p', err e)
  ]

  unfoldable pub find_victim : Pool → Pool × Result BufferError ℕ
  find_victim p = sweep (4 * p.frame_count) p

  unfoldable pub seat : Pool → ℕ → ℕ → Buffer → ℕ → Pool
  seat p idx id content page_lsn =
      let p' = set_frame p idx (seated (p.frames idx) content id page_lsn) in
      record p' { page_table = insert id idx p'.page_table }

  -- A read that fails may have filled part of the frame, which holds no page then.
  unfoldable pub seat_read : Pool → ℕ → ℕ → Result StorageError Buffer → Pool × Result BufferError ℕ
  seat_read p idx id (ok content) = (seat p idx id content (rd_u64 content 0), ok idx)
  seat_read p idx id (err e) = (p, err (storage e))

  unfoldable pub seat_in : ℕ → Bool → Pool × Result BufferError ℕ → Pool × Result BufferError ℕ
  seat_in id fresh (p, ok idx) =
      if fresh
      then (seat p idx id (λ _. 0) 0, ok idx)
      else seat_read p idx id (D.read_page p.disk id)
  seat_in id fresh (p, err e) = (p, err e)

  unfoldable pub install_page : Pool → ℕ → Bool → Pool × Result BufferError ℕ
  install_page p id fresh = seat_in id fresh (find_victim p)

  unfoldable pub pin_for_access : Pool → ℕ → Pool × Result BufferError ℕ
  pin_for_access p id = elim (lookup id p.page_table) [
    | none ↦ install_page p id false
    | some idx ↦
        if same_page (p.frames idx).page_id id
        then (set_frame p idx (pinned_again (p.frames idx)), ok idx)
        else install_page p id false
  ]

  -- The guard of a writer takes the content latch.
  unfoldable pub latched_after : Pool × Result BufferError ℕ → Pool × Result BufferError ℕ
  latched_after (p, ok idx) = (latch p idx, ok idx)
  latched_after (p, err e) = (p, err e)

  unfoldable pub fetch_read : Pool → ℕ → Pool × Result BufferError ℕ
  fetch_read p id = pin_for_access p id

  unfoldable pub fetch_write : Pool → ℕ → Pool × Result BufferError ℕ
  fetch_write p id = latched_after (pin_for_access p id)

  unfoldable pub install_allocated :
      Pool → D.State × Result StorageError ℕ → Pool × Result BufferError ℕ
  install_allocated p (s, ok id) = install_page (record p { disk = s }) id true
  install_allocated p (s, err e) = (record p { disk = s }, err (storage e))

  unfoldable pub new_page : Pool → Pool × Result BufferError ℕ
  new_page p = latched_after (install_allocated p (D.allocate_page p.disk))

  -- `flush_matching`: a frame is looked at, written out, and cleared.
  unfoldable pub wrote_frame : Pool × Result BufferError (Unit {0}) → Pool × Result BufferError Bool
  wrote_frame (p, ok _) = (p, ok true)
  wrote_frame (p, err e) = (p, err e)

  unfoldable pub flush_write : Pool → ℕ → Look → Pool × Result BufferError Bool
  flush_write p idx look =
      if (p.frames idx).latched
      then (p, ok false)
      else wrote_frame (write_out p look.page_id look.page_lsn (p.frames idx).content)

  unfoldable pub flush_clear : Pool → ℕ → Look → Pool
  flush_clear p idx look =
      let f = p.frames idx in
      if same_page f.page_id look.page_id && (f.page_lsn == look.page_lsn && f.dirty)
      then (let p' = set_frame p idx (record f { dirty = false }) in
          record p' { dirty_pages = delete look.page_id p'.dirty_pages })
      else p

  unfoldable pub flush_written :
      ℕ → Look → Pool × Result BufferError Bool → Pool × Result BufferError (Unit {0})
  flush_written idx look (p, ok true) = (flush_clear p idx look, ok tt)
  flush_written idx look (p, ok false) = (p, ok tt)
  flush_written idx look (p, err e) = (p, err e)

  unfoldable pub flush_frame : Pool → ℕ → (ℕ → Bool) → Pool × Result BufferError (Unit {0})
  flush_frame p idx pred = elim (look_at (p.frames idx) pred) [
    | none ↦ (p, ok tt)
    | some look ↦ flush_written idx look (flush_write p idx look)
  ]

  unfoldable pub candidates : Pool → List ℕ → List ℕ
  candidates p [] = []
  candidates p (id ∷ ids) = elim (lookup id p.page_table) [
    | none ↦ candidates p ids
    | some idx ↦ idx ∷ candidates p ids
  ]

  unfoldable pub flush_frames : Pool → List ℕ → (ℕ → Bool) → Pool × Result BufferError (Unit {0})
  flush_frames p [] pred = (p, ok tt)
  flush_frames p (idx ∷ idxs) pred =
      let (p', r) = flush_frame p idx pred in
      elim r [ ok _ ↦ flush_frames p' idxs pred | err e ↦ (p', err e) ]

  unfoldable pub flush_matching : Pool → (ℕ → Bool) → Pool × Result BufferError (Unit {0})
  flush_matching p pred = flush_frames p (candidates p p.dirty_pages) pred

  unfoldable pub flush_through : Pool → ℕ → Pool × Result BufferError (Unit {0})
  flush_through p up_to = flush_matching p (λ lsn. leb lsn up_to)

  unfoldable pub synced_disk :
      Pool → D.State × Result StorageError (Unit {0}) → Pool × Result BufferError (Unit {0})
  synced_disk p (s, ok _) = (record p { disk = s }, ok tt)
  synced_disk p (s, err e) = (record p { disk = s }, err (storage e))

  unfoldable pub synced :
      Pool × Result BufferError (Unit {0}) → Pool × Result BufferError (Unit {0})
  synced (p, ok _) = synced_disk p (D.sync p.disk)
  synced (p, err e) = (p, err e)

  unfoldable pub flush_all : Pool → Pool × Result BufferError (Unit {0})
  flush_all p = synced (flush_matching p (λ _. true))
