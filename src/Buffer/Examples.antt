-- ===== src/Buffer/Examples.antt =====
-- crates/prism-buffer/src/pool.rs: pools of one and of two frames, over a log and a disk in memory.
use prism_db.Common.{
  ℕ, ◌+◌, ◌<◌, ◌≤◌, ◌≡◌, ◌≢◌, ◌↔◌, ◌∙◌, refl, ap, sym, subst, true, none, some, if◌then◌else◌, ◌==◌,
  arith,
}
use prism_db.Common.Results.{Result, ok, err}
use prism_db.Common.Maps.{lookup, insert, remove}
use prism_db.Common.Bytes.{from_le}
use prism_db.Storage.Bytes.{Buffer, rd_u64, slice}
use prism_db.Wal.Payload.{WalError, LogRecord}
use prism_db.Core.LogDevice.{LogDevice}
use prism_db.Buffer.Devices.{StorageError, short_read, exhausted, DiskDevice}
use prism_db.Buffer.Pool.{
  empty, new, set_frame, advance, forget, take_victim, cleared, seated, Look, look_at, latch, edit,
  set_page_lsn, mark_dirty, release, unpin, drop_write,
}
use prism_db.Buffer.Paging.{
  Pool, wrote_page, write_after_log, write_out, taken_after, evict_dirty, evict, visit, sweep,
  find_victim, seat, seat_read, seat_in, install_page, pin_for_access, wrote_frame, flush_write,
  flush_all,
}
use prism_db.Buffer.Paging.Sound.{view, IsSound}
use prism_db.Buffer.Paging.Clock.{IsClocked}
use prism_db.Buffer.Paging.Exhausted.{find_victim_exhausted}
use prism_db.Buffer.Paging.Access.{Accesses, pin_for_access-Accesses}
use prism_db.Buffer.Paging.FlushAll.{Saved, flush_all-Saved}
use prism_db.Buffer.Paging.Writes.{write_guarded, write_guarded-view, new-IsSound, new-IsClocked}
use prism_db.Buffer.Paging.WriteAhead.{IsLogged, pin_for_access-IsLogged}
use prism_db.Buffer.Paging.Race.{stale_flush_overwrites}

append_memory : ℕ → LogRecord → ℕ × Result WalError ℕ
append_memory s r = (s + 1, ok (s + 1))

append_memory-last :
    (s s' : ℕ) (r : LogRecord) (lsn : ℕ) → append_memory s r ≡ (s', ok lsn) → s' ≡ lsn
unfolding append_memory
append_memory-last s s' r lsn e = cc e

flush_memory-durable :
    (s s' : ℕ) (up_to : ℕ)
    → up_to ≤ s
    → ◌≡◌ {A = ℕ × Result WalError (Unit {0})} (s, ok tt) (s', ok tt)
    → up_to ≤ s'
flush_memory-durable s s' up_to h e =
    omega (arith, h, ap (λ (r : ℕ × Result WalError (Unit {0})). r.0) e)

-- A log whose records are durable at once; its state is the last LSN.
abbrev memory_log : LogDevice
memory_log = record {
  State = ℕ;
  append = append_memory;
  flush_through = λ s up_to. (s, ok tt);
  last_lsn = λ s. s;
  durable_lsn = λ s. s;
  append-last = append_memory-last;
  flush-durable = flush_memory-durable;
}

-- Page 9 cannot be read.
read_memory : (ℕ → Buffer) → ℕ → Result StorageError Buffer
read_memory s id = if id == 9 then err (short_read id) else ok (s id)

write_memory : (ℕ → Buffer) → ℕ → Buffer → (ℕ → Buffer) × Result StorageError (Unit {0})
write_memory s id b = ((λ j. if j == id then b else s j), ok tt)

read_memory-ok : (s : ℕ → Buffer) (id : ℕ) (b : Buffer) → read_memory s id ≡ ok b → b ≡ s id
unfolding read_memory
read_memory-ok s id b e = ground (arith, e)

write_memory-ok :
    (s s' : ℕ → Buffer) (id : ℕ) (b : Buffer) → write_memory s id b ≡ (s', ok tt) → s' id ≡ b
unfolding write_memory
write_memory-ok s s' id b e =
    ap (λ (r : (ℕ → Buffer) × Result StorageError (Unit {0})). r.0 id) (sym e) ∙ ground arith

write_memory_other :
    (s : ℕ → Buffer) (id j : ℕ) (b : Buffer) → j ≢ id → (write_memory s id b).0 j ≡ s j
unfolding write_memory
write_memory_other s id j b ne = ground arith

abbrev memory_disk : DiskDevice
memory_disk = record {
  State = ℕ → Buffer;
  page = λ s. s;
  read_page = read_memory;
  write_page = write_memory;
  allocate_page = λ s. (s, ok 7);
  sync = λ s. (s, ok tt);
  read_page-ok = read_memory-ok;
  write_page-ok = write_memory-ok;
  write_page_other = write_memory_other;
  allocate_page_keeps = λ s j. refl;
  sync_keeps = λ s j. refl;
}

abbrev OnePage : Type 0
OnePage = Pool memory_log memory_disk

-- Page k has the byte k after its LSN, which is 0.
abbrev pages : ℕ → Buffer
pages id i = if i == 8 then id else 0

abbrev fresh : OnePage
fresh = new 8 pages 1

abbrev fresh-IsSound : IsSound memory_log memory_disk fresh
fresh-IsSound = new-IsSound memory_log memory_disk 8 pages 1

abbrev fresh-IsClocked : IsClocked memory_log memory_disk fresh
fresh-IsClocked = new-IsClocked memory_log memory_disk 8 pages 1

find_victim_exhausted_example :
    ((find_victim memory_log memory_disk fresh).1 ≡ err (exhausted 1))
    ↔ ((i : ℕ) → i < 1 → 0 < (fresh.frames i).pin_count)
unfolding new
find_victim_exhausted_example = find_victim_exhausted memory_log memory_disk fresh fresh-IsClocked

-- Page 1 in the only frame.
abbrev held : OnePage
held = (pin_for_access memory_log memory_disk fresh 1).0

held-found : pin_for_access memory_log memory_disk fresh 1 ≡ (held, ok 0)
unfolding pin_for_access install_page seat_in seat_read find_victim sweep visit evict new empty
    lookup advance take_victim forget cleared set_frame seat insert seated read_memory
held-found = refl

held-Accesses : Accesses memory_log memory_disk fresh 1 (held, ok 0)
held-Accesses =
    let a : Accesses memory_log memory_disk fresh 1
        (pin_for_access memory_log memory_disk fresh 1) =
      pin_for_access-Accesses memory_log memory_disk fresh 1 fresh-IsSound fresh-IsClocked in
    subst (λ x. Accesses memory_log memory_disk fresh 1 x) held-found a

held-IsSound : IsSound memory_log memory_disk held
held-IsSound = let (sound, same, here, got, pin) = held-Accesses in sound

held_page : (held.frames 0).page_id ≡ some 1
held_page = let (sound, same, here, got, pin) = held-Accesses in here

pin_for_access-Accesses_example :
    Accesses memory_log memory_disk fresh 1 (pin_for_access memory_log memory_disk fresh 1)
pin_for_access-Accesses_example =
    pin_for_access-Accesses memory_log memory_disk fresh 1 fresh-IsSound fresh-IsClocked

-- Page 1 is written, so that its frame is dirty and free.
abbrev dirtied : OnePage
dirtied = write_guarded memory_log memory_disk held 0 1 (λ i. 5) 8

abbrev dirtied-IsSound : IsSound memory_log memory_disk dirtied
dirtied-IsSound =
    let (sound, read) =
      write_guarded-view memory_log memory_disk held 0 1 (λ i. 5) 8 held-IsSound held_page in
    sound

dirtied-IsClocked : IsClocked memory_log memory_disk dirtied
unfolding pin_for_access install_page seat_in seat_read find_victim sweep visit evict new empty
    lookup advance take_victim forget cleared set_frame seat insert seated read_memory drop_write
    unpin release mark_dirty set_page_lsn edit latch
dirtied-IsClocked = record {
  some_frames = ground arith;
  hand = ground arith;
  pinned = λ i l. ground (arith, l);
  used = λ i. ground arith;
}

flush_all-Saved_example :
    Saved memory_log memory_disk dirtied (flush_all memory_log memory_disk dirtied)
flush_all-Saved_example = flush_all-Saved memory_log memory_disk dirtied dirtied-IsSound

dirtied_assigned :
    (i : ℕ) → (dirtied.frames i).dirty ≡ true → (dirtied.frames i).page_lsn ≤ dirtied.log
unfolding pin_for_access install_page seat_in seat_read find_victim sweep visit evict new empty
    lookup advance take_victim forget cleared set_frame seat insert seated read_memory drop_write
    unpin release mark_dirty set_page_lsn edit latch rd_u64 slice from_le
dirtied_assigned i d = ground (arith, d)

-- Page 2 is accessed, for which page 1 is written out.
pin_for_access-IsLogged_example :
    IsLogged memory_log memory_disk dirtied
      (pin_for_access memory_log memory_disk dirtied 2).0.disk
      (pin_for_access memory_log memory_disk dirtied 2).0.log
pin_for_access-IsLogged_example =
    pin_for_access-IsLogged memory_log memory_disk dirtied 2 dirtied_assigned

abbrev look_1 : Look
look_1 = record { page_id = 1; page_lsn = 8 }

-- Page 2 takes the only frame, and a flush that looked at it before writes it.
abbrev evicted : OnePage
evicted = (pin_for_access memory_log memory_disk dirtied 2).0

abbrev overwritten : OnePage
overwritten = (flush_write memory_log memory_disk evicted 0 look_1).0

-- The steps of both threads, each of which succeeds.
interleaved :
    (look_at (dirtied.frames 0) (λ _. true) ≡ some look_1)
    × (pin_for_access memory_log memory_disk dirtied 2 ≡ (evicted, ok 0))
    × (lookup 1 evicted.page_table ≡ none)
    × (flush_write memory_log memory_disk evicted 0 look_1 ≡ (overwritten, ok true))
unfolding pin_for_access install_page seat_in seat_read find_victim sweep visit evict new empty
    lookup advance take_victim forget cleared set_frame seat insert seated read_memory drop_write
    unpin release mark_dirty set_page_lsn edit latch evict_dirty write_out write_after_log
    wrote_page write_memory taken_after remove flush_write wrote_frame look_at rd_u64 from_le slice
interleaved = (refl, refl, refl, refl)

stale_flush_overwrites_example :
    (look_1.page_id ≢ 2)
    × (view memory_log memory_disk dirtied 1 ≡ (dirtied.frames 0).content)
    × (view memory_log memory_disk overwritten 1 ≡ view memory_log memory_disk dirtied 2)
stale_flush_overwrites_example =
    let (looked, accesses, absent, wrote) = interleaved in
    stale_flush_overwrites memory_log memory_disk dirtied evicted overwritten 0 2 look_1
      dirtied-IsSound dirtied-IsClocked looked accesses absent wrote
