-- ===== src/Buffer/Paging/Writes.antt =====
-- crates/prism-buffer/src/pool.rs: what a writer does to a page through its guard.
use prism_db.Common.{
  ℕ, ◌-◌, ◌≡◌, ◌≢◌, inl, inr, ◌∙◌, refl, ap, sym, true, false, ◌∷◌, none, some, if◌then◌else◌, ◌==◌,
  ltb, arith, Option-cases, ℕ_discrete,
}
use prism_db.Common.Bytes.{to_le}
use prism_db.Common.Maps.{lookup, contains, delete, contains-delete}
use prism_db.Storage.Bytes.{Buffer, copy}
use prism_db.Core.LogDevice.{LogDevice}
use prism_db.Buffer.Devices.{DiskDevice}
use prism_db.Buffer.Pool.{
  Frame, empty, new, set_frame, latch, edit, set_page_lsn, mark_dirty, release, unpin, drop_write,
}
use prism_db.Buffer.Paging.{Pool}
use prism_db.Buffer.Paging.Sound.{view, view-cached, view-uncached, IsSound}
use prism_db.Buffer.Paging.Clock.{IsClocked}

module _ (L : LogDevice) (D : DiskDevice) where
  -- What a writer does who holds a pin: it takes the latch, writes the page, stamps it with the LSN
  -- of its log record, and drops the guard.
  abbrev pub write_guarded : Pool L D → ℕ → ℕ → Buffer → ℕ → Pool L D
  write_guarded p idx id content lsn =
      drop_write (set_page_lsn (edit (latch p idx) idx content) idx lsn) idx id

  module _ (p : Pool L D) (s : IsSound L D p) (idx id : ℕ) (here : (p.frames idx).page_id ≡ some id)
      (content : Buffer) (lsn : ℕ) where
    written : Frame
    written = record {
      content = copy content 0 (to_le 8 lsn);
      page_id = (p.frames idx).page_id;
      pin_count = (p.frames idx).pin_count - 1;
      usage_count = (p.frames idx).usage_count;
      dirty = true;
      page_lsn = if ltb (p.frames idx).page_lsn lsn then lsn else (p.frames idx).page_lsn;
      latched = false;
    }

    guarded_frame :
        (i : ℕ)
        → (write_guarded p idx id content lsn).frames i ≡ (if i == idx then written else p.frames i)
    unfolding written drop_write unpin release mark_dirty set_page_lsn edit latch set_frame
    guarded_frame i = ground arith

    guarded_table : (write_guarded p idx id content lsn).page_table ≡ p.page_table
    unfolding drop_write unpin release mark_dirty set_page_lsn edit latch set_frame
    guarded_table = refl

    guarded_disk : (write_guarded p idx id content lsn).disk ≡ p.disk
    unfolding drop_write unpin release mark_dirty set_page_lsn edit latch set_frame
    guarded_disk = refl

    guarded_marks : (write_guarded p idx id content lsn).dirty_pages ≡ id ∷ delete id p.dirty_pages
    unfolding drop_write unpin release mark_dirty set_page_lsn edit latch set_frame
    guarded_marks = refl

    page_guarded :
        (i : ℕ) → ((write_guarded p idx id content lsn).frames i).page_id ≡ (p.frames i).page_id
    unfolding written
    page_guarded i = rw (guarded_frame i) (ground arith)

    off : (i j : ℕ) → i ≢ idx → (p.frames i).page_id ≡ some j → id ≢ j
    off i j ne h e = ne (cc (s.listed j i h, s.listed id idx here, e))

    guarded_here : (i : ℕ) → i ≡ idx → (write_guarded p idx id content lsn).frames i ≡ written
    guarded_here i e = guarded_frame i ∙ ground arith

    guarded_off : (i : ℕ) → i ≢ idx → (write_guarded p idx id content lsn).frames i ≡ p.frames i
    guarded_off i ne = guarded_frame i ∙ ground arith

    pub write_guarded-IsSound : IsSound L D (write_guarded p idx id content lsn)
    unfolding written contains
    write_guarded-IsSound = record {
      seated_at = λ j i h. page_guarded i ∙ s.seated_at j i (rw guarded_table at h);
      listed = λ j i h. rw guarded_table (s.listed j i (sym (page_guarded i) ∙ h));
      clean = λ j i h c l. elim (ℕ_discrete i idx) [
        | yes e ↦ absurd (cc (rw (guarded_here i e) at c))
        | no ne ↦
            let same = guarded_off i ne in
            rw (same, guarded_disk) (s.clean j i (rw same at h) (rw same at c) (rw same at l))
      ];
      marked = λ j i h d. elim (ℕ_discrete i idx) [
        | yes e ↦ rw guarded_marks (ground (arith, sym (page_guarded i) ∙ h, here, ap p.frames e))
        | no ne ↦
            let same = guarded_off i ne in
            let held = sym (page_guarded i) ∙ h in
            rw (guarded_marks, contains)
              (ground (
                arith,
                contains-delete id j p.dirty_pages,
                s.marked j i held (rw same at d),
                off i j ne held,
              ))
      ];
    }

    elsewhere : (j : ℕ) → lookup j p.page_table ≡ none → j ≢ id
    elsewhere j gone e = cc (gone, s.listed id idx here, ap (λ k. lookup k p.page_table) e)

    guarded_view :
        (j : ℕ)
        → view L D (write_guarded p idx id content lsn) j
          ≡ (if j == id then copy content 0 (to_le 8 lsn) else view L D p j)
    unfolding written
    guarded_view j = elim (Option-cases (lookup j p.page_table)) [
      | inl gone ↦
          view-uncached L D (write_guarded p idx id content lsn) j (rw guarded_table gone)
          ∙ ap (λ d. D.page d j) guarded_disk
          ∙ sym (view-uncached L D p j gone)
          ∙ ground (arith, elsewhere j gone)
      | inr (i, at) ↦ elim (ℕ_discrete i idx) [
        | yes e ↦
            view-cached L D (write_guarded p idx id content lsn) j i (rw guarded_table at)
            ∙ ap (λ f. f.content) (guarded_here i e)
            ∙ ground (arith, s.seated_at j i at, here, ap p.frames e)
        | no ne ↦
            view-cached L D (write_guarded p idx id content lsn) j i (rw guarded_table at)
            ∙ ap (λ f. f.content) (guarded_off i ne)
            ∙ sym (view-cached L D p j i at)
            ∙ ground (arith, off i j ne (s.seated_at j i at))
      ]
    ]

  -- A page is written through a guard: the invariant holds afterwards, and every reader gets the new
  -- content, with the LSN in its first bytes, of this page, and of the others what it got.
  pub write_guarded-view :
      (p : Pool L D) (idx id : ℕ) (content : Buffer) (lsn : ℕ)
      → IsSound L D p
      → (p.frames idx).page_id ≡ some id
      → IsSound L D (write_guarded p idx id content lsn)
        × ((j : ℕ)
            → view L D (write_guarded p idx id content lsn) j
              ≡ (if j == id then copy content 0 (to_le 8 lsn) else view L D p j))
  write_guarded-view p idx id content lsn s here =
      (write_guarded-IsSound p s idx id here content lsn, guarded_view p s idx id here content lsn)

  pub new-IsSound : (w : L.State) (d : D.State) (n : ℕ) → IsSound L D (new w d n)
  unfolding new empty lookup
  new-IsSound w d n = record {
    seated_at = λ j i h. absurd (cc h);
    listed = λ j i h. absurd (cc h);
    clean = λ j i h c l. absurd (cc h);
    marked = λ j i h e. absurd (cc h);
  }

  pub new-IsClocked : (w : L.State) (d : D.State) (n : ℕ) → IsClocked L D (new w d n)
  unfolding new empty
  new-IsClocked w d n = record {
    some_frames = ground arith;
    hand = ground arith;
    pinned = λ i h. absurd (cc h);
    used = λ i. omega arith;
  }
