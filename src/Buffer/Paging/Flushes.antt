-- ===== src/Buffer/Paging/Flushes.antt =====
-- crates/prism-buffer/src/pool.rs: the flush of one frame.
use prism_db.Common.{
  ℕ, ◌≡◌, ◌≢◌, inl, inr, ◌∙◌, refl, ap, sym, true, false, Option, none, some, if◌then◌else◌, ◌==◌,
  arith, Bool-cases, Option-cases, ℕ_discrete,
}
use prism_db.Common.Results.{Result, ok, err}
use prism_db.Common.Maps.{lookup, delete, contains-delete}
use prism_db.Core.LogDevice.{LogDevice}
use prism_db.Buffer.Devices.{BufferError, DiskDevice}
use prism_db.Buffer.Pool.{set_frame, same_page, Look, look_at}
use prism_db.Buffer.Paging.{
  Pool, write_out, wrote_frame, flush_write, flush_clear, flush_written, flush_frame,
}
use prism_db.Buffer.Paging.Sound.{view-cached, view-uncached, IsSound, Wrote, write_out-Wrote}
use prism_db.Buffer.Paging.Frames.{SameView, Wrote-SameView, Wrote-IsSound}

module _ (L : LogDevice) (D : DiskDevice) where
  -- What a flush does to the frames: they hold what they held, latched as before, and fewer are
  -- dirty.
  pub record Flushed (p p' : Pool L D) : Type 0 where
    pub sound : IsSound L D p'
    pub same_view : SameView L D p p'
    pub latches : (i : ℕ) → (p'.frames i).latched ≡ (p.frames i).latched
    pub pages : (i : ℕ) → (p'.frames i).page_id ≡ (p.frames i).page_id
    pub less : (i : ℕ) → (p.frames i).dirty ≡ false → (p'.frames i).dirty ≡ false

  pub refl_Flushed : {p : Pool L D} → IsSound L D p → Flushed p p
  unfolding SameView
  refl_Flushed s = record {
    sound = s;
    same_view = λ j. refl;
    latches = λ i. refl;
    pages = λ i. refl;
    less = λ i h. h;
  }

  pub trans_Flushed : {p q r : Pool L D} → Flushed p q → Flushed q r → Flushed p r
  unfolding SameView
  trans_Flushed a b = record {
    sound = b.sound;
    same_view = λ j. b.same_view j ∙ a.same_view j;
    latches = λ i. b.latches i ∙ a.latches i;
    pages = λ i. b.pages i ∙ a.pages i;
    less = λ i h. b.less i (a.less i h);
  }

  -- The frame of a page that is on disk is marked clean.
  cleaned : Pool L D → ℕ → ℕ → Pool L D
  cleaned q idx id =
      let p' = set_frame q idx (record (q.frames idx) { dirty = false }) in
      record p' { dirty_pages = delete id p'.dirty_pages }

  clear-cleaned :
      (q : Pool L D) (idx : ℕ) (look : Look)
      → (q.frames idx).page_id ≡ some look.page_id
      → (q.frames idx).page_lsn ≡ look.page_lsn
      → (q.frames idx).dirty ≡ true
      → flush_clear L D q idx look ≡ cleaned q idx look.page_id
  unfolding flush_clear cleaned same_page
  clear-cleaned q idx look here at d = rw (here, at, d) (ground arith)

  module _ (q : Pool L D) (s : IsSound L D q) (idx id : ℕ) (here : (q.frames idx).page_id ≡ some id)
      (there : (q.frames idx).content ≡ D.page q.disk id) where
    page_kept : (i : ℕ) → ((cleaned q idx id).frames i).page_id ≡ (q.frames i).page_id
    unfolding cleaned set_frame
    page_kept i = ground arith

    content_kept : (i : ℕ) → ((cleaned q idx id).frames i).content ≡ (q.frames i).content
    unfolding cleaned set_frame
    content_kept i = ground arith

    latch_kept : (i : ℕ) → ((cleaned q idx id).frames i).latched ≡ (q.frames i).latched
    unfolding cleaned set_frame
    latch_kept i = ground arith

    dirt :
        (i : ℕ)
        → ((cleaned q idx id).frames i).dirty ≡ (if i == idx then false else (q.frames i).dirty)
    unfolding cleaned set_frame
    dirt i = ground arith

    still_dirty :
        (i : ℕ)
        → ((cleaned q idx id).frames i).dirty ≡ true
        → (i ≢ idx) × ((q.frames i).dirty ≡ true)
    still_dirty i d = let e = sym (dirt i) ∙ d in ground (arith, e)

    not_same : (i j : ℕ) → i ≢ idx → (q.frames i).page_id ≡ some j → id ≢ j
    not_same i j ne h e = ne (cc (s.listed j i h, s.listed id idx here, e))

    cleaned-IsSound : IsSound L D (cleaned q idx id)
    unfolding cleaned set_frame
    cleaned-IsSound = record {
      seated_at = λ j i h. page_kept i ∙ s.seated_at j i h;
      listed = λ j i h. s.listed j i (sym (page_kept i) ∙ h);
      clean = λ j i h c l. content_kept i ∙ (elim (ℕ_discrete i idx) [
        | yes e ↦ rw e (there ∙ ap (D.page q.disk) (cc (here, page_kept i, h, ap q.frames e)))
        | no ne ↦
            s.clean j i (sym (page_kept i) ∙ h) (sym (dirt i ∙ ground arith) ∙ c)
              (sym (latch_kept i) ∙ l)
      ]);
      marked = λ j i h d.
          let (elsewhere, was) = still_dirty i d in
          let held = sym (page_kept i) ∙ h in
          contains-delete id j q.dirty_pages
          ∙ ground (arith, s.marked j i held was, not_same i j elsewhere held);
    }

    cleaned-SameView : SameView L D q (cleaned q idx id)
    unfolding SameView cleaned set_frame
    cleaned-SameView j = elim (Option-cases (lookup j q.page_table)) [
      | inl gone ↦ view-uncached L D (cleaned q idx id) j gone ∙ sym (view-uncached L D q j gone)
      | inr (i, at) ↦
          view-cached L D (cleaned q idx id) j i at
          ∙ content_kept i
          ∙ sym (view-cached L D q j i at)
    ]

    cleaned-Flushed : Flushed q (cleaned q idx id)
    cleaned-Flushed = record {
      sound = cleaned-IsSound;
      same_view = cleaned-SameView;
      latches = latch_kept;
      pages = page_kept;
      less = λ i h. dirt i ∙ ground (arith, h);
    }

  -- A flush of one frame that succeeds, where the predicate takes every LSN: the frame is clean unless
  -- a writer holds it.
  unfoldable pub FrameFlushed : Pool L D → ℕ → Pool L D × Result BufferError (Unit {0}) → Type 0
  FrameFlushed p idx (q, ok _) =
      Flushed p q
      × ((id : ℕ)
          → (p.frames idx).page_id ≡ some id
          → (p.frames idx).latched ≡ false
          → (q.frames idx).dirty ≡ false)
  FrameFlushed p idx (q, err e) = IsSound L D q × SameView L D p q

  module _ (p : Pool L D) (s : IsSound L D p) (idx : ℕ) where
    look_from : ℕ → Look
    look_from id = record { page_id = id; page_lsn = (p.frames idx).page_lsn }

    Wrote-FrameFlushed :
        (id : ℕ)
        → (p.frames idx).page_id ≡ some id
        → (p.frames idx).dirty ≡ true
        → (x : Pool L D × Result BufferError (Unit {0}))
        → Wrote L D p x.0 id (p.frames idx).content x.1
        → FrameFlushed p idx (flush_written L D idx (look_from id) (wrote_frame L D x))
    unfolding FrameFlushed flush_written wrote_frame look_from
    Wrote-FrameFlushed id here d (q, err e) w =
        (Wrote-IsSound L D p s id idx here w d, Wrote-SameView L D p s id idx here w)
    Wrote-FrameFlushed id here d (q, ok _) w =
        let at : (i : ℕ) → q.frames i ≡ p.frames i = λ i. ap (λ r. r.frames i) w.same in
        let qs = Wrote-IsSound L D p s id idx here w d in
        let qh : (q.frames idx).page_id ≡ some id = rw (at idx) here in
        let there : (q.frames idx).content ≡ D.page q.disk id =
          rw (at idx, ap (λ r. r.disk) w.same) (sym (w.written refl)) in
        let wrote : Flushed p q = record {
          sound = qs;
          same_view = Wrote-SameView L D p s id idx here w;
          latches = λ i. ap (λ f. f.latched) (at i);
          pages = λ i. ap (λ f. f.page_id) (at i);
          less = λ i h. rw (at i) h;
        } in
        rw (clear-cleaned q idx (look_from id) qh (rw (at idx) refl) (rw (at idx) d)) (
          trans_Flushed wrote (cleaned-Flushed q qs idx id qh there),
          λ j h l. dirt q qs idx id qh there idx ∙ ground arith,
        )

    flush_clean :
        (id : ℕ)
        → (p.frames idx).page_id ≡ some id
        → (p.frames idx).dirty ≡ false
        → flush_frame L D p idx (λ _. true) ≡ (p, ok tt)
    unfolding flush_frame look_at
    flush_clean id here d = rw (here, d, flush_frame)

    flush_dirty :
        (id : ℕ)
        → (p.frames idx).page_id ≡ some id
        → (p.frames idx).dirty ≡ true
        → (p.frames idx).latched ≡ false
        → flush_frame L D p idx (λ _. true)
          ≡ flush_written L D idx
              (look_from id)
              (wrote_frame L D (write_out L D p id (p.frames idx).page_lsn (p.frames idx).content))
    unfolding flush_frame look_at flush_write look_from
    flush_dirty id here d l = rw (here, d, l, flush_frame)

    flush_latched :
        (id : ℕ)
        → (p.frames idx).page_id ≡ some id
        → (p.frames idx).dirty ≡ true
        → (p.frames idx).latched ≡ true
        → flush_frame L D p idx (λ _. true) ≡ (p, ok tt)
    unfolding flush_frame look_at flush_write flush_written
    flush_latched id here d l = rw (here, d, l, flush_frame)

    pub flush_page :
        (o : Option ℕ)
        → (p.frames idx).page_id ≡ o
        → FrameFlushed p idx (flush_frame L D p idx (λ _. true))
    unfolding FrameFlushed flush_frame look_at
    flush_page none e = rw (e, flush_frame) (refl_Flushed s, λ id h. absurd (cc (h, e)))
    flush_page (some id) here = elim (Bool-cases (p.frames idx).dirty) [
      | inl d ↦ elim (Bool-cases (p.frames idx).latched) [
        | inl l ↦ rw (flush_latched id here d l) (refl_Flushed s, λ j h free. absurd (cc (l, free)))
        | inr l ↦ rw (flush_dirty id here d l) (
            Wrote-FrameFlushed id here d _
              (write_out-Wrote L D p id (p.frames idx).page_lsn (p.frames idx).content))
      ]
      | inr d ↦ rw (flush_clean id here d) (refl_Flushed s, λ j h free. d)
    ]
