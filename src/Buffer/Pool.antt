-- ===== src/Buffer/Pool.antt =====
-- crates/prism-buffer/src/pool.rs: the buffer pool. What runs under the mutex of the directory is
-- one function. A frame holds its content and its state; `latched` says that a write guard holds
-- the content latch, which is when `try_read` fails.
use prism_db.Common.{
  ℕ, ◌+◌, ◌-◌, ◌*◌, ◌/◌, ◌%◌, min, max, Bool, true, false, not, ◌||◌, List, [], ◌∷◌, Option, none,
  some, if◌then◌else◌, ltb, ◌==◌,
}
use prism_db.Common.Bytes.{to_le}
use prism_db.Common.Maps.{remove, delete}
use prism_db.Storage.Bytes.{Buffer, copy}

abbrev pub max_usage : ℕ
max_usage = 3

unfoldable pub from_pool_mib : ℕ → ℕ
from_pool_mib mib = max (mib * 1024 * 1024 / 8192) 1

pub record Frame : Type 0 where
  pub content : Buffer
  pub page_id : Option ℕ
  pub pin_count : ℕ
  pub usage_count : ℕ
  pub dirty : Bool
  pub page_lsn : ℕ
  pub latched : Bool

unfoldable pub empty : Frame
empty = record {
  content = λ _. 0;
  page_id = none;
  pin_count = 0;
  usage_count = 0;
  dirty = false;
  page_lsn = 0;
  latched = false;
}

pub record BufferPool (W S : Type 0) : Type 0 where
  pub frame_count : ℕ
  pub frames : ℕ → Frame
  pub page_table : List (ℕ × ℕ)
  pub dirty_pages : List ℕ
  pub clock_hand : ℕ
  pub disk : S
  pub log : W

unfoldable pub same_page : Option ℕ → ℕ → Bool
same_page none id = false
same_page (some j) id = j == id

-- A flush looks at a frame, writes its content out, and clears its mark, each with the locks
-- released in between.
pub record Look : Type 0 where
  pub page_id : ℕ
  pub page_lsn : ℕ

-- What `flush_matching` reads of a frame that it will flush.
unfoldable pub look_at : Frame → (ℕ → Bool) → Option Look
look_at f pred = elim f.page_id [
  | none ↦ none
  | some id ↦
      if not f.dirty || not (pred f.page_lsn)
      then none
      else some (record { page_id = id; page_lsn = f.page_lsn })
]

unfoldable pub pinned_again : Frame → Frame
pinned_again f = record f {
  pin_count = f.pin_count + 1;
  usage_count = min (f.usage_count + 1) max_usage;
}

unfoldable pub seated : Frame → Buffer → ℕ → ℕ → Frame
seated f content id page_lsn = record f {
  content = content;
  page_id = some id;
  pin_count = 1;
  usage_count = 1;
  dirty = false;
  page_lsn = page_lsn;
}

unfoldable pub cleared : Frame → Frame
cleared f = record f { page_id = none; dirty = false; usage_count = 0; page_lsn = 0 }

module _ {W S : Type 0} where
  unfoldable pub new : W → S → ℕ → BufferPool W S
  new w s frame_count = record {
    frame_count = max frame_count 1;
    frames = λ _. empty;
    page_table = [];
    dirty_pages = [];
    clock_hand = 0;
    disk = s;
    log = w;
  }

  unfoldable pub set_frame : BufferPool W S → ℕ → Frame → BufferPool W S
  set_frame p idx f = record p { frames = λ i. if i == idx then f else p.frames i }

  unfoldable pub advance : BufferPool W S → BufferPool W S
  advance p = record p { clock_hand = (p.clock_hand + 1) % p.frame_count }

  -- The directory forgets the page that the victim held.
  unfoldable pub forget : BufferPool W S → Option ℕ → BufferPool W S
  forget p none = p
  forget p (some old) = record p {
    page_table = remove old p.page_table;
    dirty_pages = delete old p.dirty_pages;
  }

  unfoldable pub take_victim : BufferPool W S → ℕ → BufferPool W S
  take_victim p idx =
      let p' = forget p (p.frames idx).page_id in set_frame p' idx (cleared (p'.frames idx))

  -- The steps of a guard: the holder writes the content, stamps it with an LSN, and drops the guard
  -- in three parts.
  unfoldable pub latch : BufferPool W S → ℕ → BufferPool W S
  latch p idx = set_frame p idx (record (p.frames idx) { latched = true })

  unfoldable pub edit : BufferPool W S → ℕ → Buffer → BufferPool W S
  edit p idx content = set_frame p idx (record (p.frames idx) { content = content })

  unfoldable pub set_page_lsn : BufferPool W S → ℕ → ℕ → BufferPool W S
  set_page_lsn p idx lsn =
      let f = p.frames idx in
      set_frame p idx (record f {
        content = copy f.content 0 (to_le 8 lsn);
        page_lsn = if ltb f.page_lsn lsn then lsn else f.page_lsn;
      })

  unfoldable pub mark_dirty : BufferPool W S → ℕ → ℕ → BufferPool W S
  mark_dirty p idx id =
      let p' = set_frame p idx (record (p.frames idx) { dirty = true }) in
      record p' { dirty_pages = id ∷ delete id p'.dirty_pages }

  unfoldable pub release : BufferPool W S → ℕ → BufferPool W S
  release p idx = set_frame p idx (record (p.frames idx) { latched = false })

  unfoldable pub unpin : BufferPool W S → ℕ → BufferPool W S
  unpin p idx = let f = p.frames idx in set_frame p idx (record f { pin_count = f.pin_count - 1 })

  -- The guard of a writer is dropped.
  unfoldable pub drop_write : BufferPool W S → ℕ → ℕ → BufferPool W S
  drop_write p idx id = unpin (release (mark_dirty p idx id) idx) idx
