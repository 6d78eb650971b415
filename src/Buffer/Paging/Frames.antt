-- ===== src/Buffer/Paging/Frames.antt =====
-- crates/prism-buffer/src/pool.rs: what the writes to one frame and to the devices do to the pages
-- that a pool holds.
use prism_db.Common.{
  ℕ, ◌≡◌, ◌≢◌, inl, inr, ◌∙◌, ap, sym, true, false, none, some, if◌then◌else◌, ◌==◌, arith,
  Option-cases, ℕ_discrete,
}
use prism_db.Common.Results.{Result}
use prism_db.Common.Maps.{lookup, lookup-remove, contains, contains-delete}
use prism_db.Storage.Bytes.{Buffer}
use prism_db.Core.LogDevice.{LogDevice}
use prism_db.Buffer.Devices.{BufferError, DiskDevice}
use prism_db.Buffer.Pool.{set_frame, forget, take_victim, cleared}
use prism_db.Buffer.Paging.{Pool}
use prism_db.Buffer.Paging.Sound.{view, view-cached, view-uncached, IsSound, Wrote}

module _ (L : LogDevice) (D : DiskDevice) where
  -- The pages are the same to every reader.
  unfoldable pub SameView : Pool L D → Pool L D → Type 0
  SameView p p' = (j : ℕ) → view L D p' j ≡ view L D p j

  -- A page whose frame is dirty may be written out.
  module _ (p : Pool L D) (s : IsSound L D p) (id idx : ℕ)
      (here : (p.frames idx).page_id ≡ some id) where
    only_here : (i : ℕ) → (p.frames i).page_id ≡ some id → i ≡ idx
    only_here i h = cc (s.listed id i h, s.listed id idx here)

    module _ {p' : Pool L D} {content : Buffer} {r : Result BufferError (Unit {0})}
        (w : Wrote L D p p' id content r) where
      pub Wrote-SameView : SameView p p'
      unfolding SameView
      Wrote-SameView j = elim (Option-cases (lookup j p.page_table)) [
        | inl gone ↦ rw w.same (
            view-uncached L D (record p { log = w.log'; disk = w.disk' }) j gone
            ∙ w.others j
                (λ e. absurd (cc (gone, s.listed id idx here, ap (λ k. lookup k p.page_table) e)))
            ∙ sym (view-uncached L D p j gone))
        | inr (i, at) ↦ rw w.same (
            view-cached L D (record p { log = w.log'; disk = w.disk' }) j i at
            ∙ sym (view-cached L D p j i at))
      ]

      pub Wrote-IsSound : (p.frames idx).dirty ≡ true → IsSound L D p'
      Wrote-IsSound d = rw w.same (record {
        seated_at = s.seated_at;
        listed = s.listed;
        clean = λ j i h c l. elim (ℕ_discrete j id) [
          | yes e ↦ absurd (cc (c, d, ap (λ k. (p.frames k).dirty) (only_here i (rw (sym e) h))))
          | no ne ↦ s.clean j i h c l ∙ sym (w.others j ne)
        ];
        marked = s.marked;
      })

  -- The victim is taken when its page is on disk as it is in the frame.
  module _ (p : Pool L D) (s : IsSound L D p) (idx : ℕ) where
    module _ (vacant : (p.frames idx).page_id ≡ none) where
      pub after_vacant : take_victim p idx ≡ set_frame p idx (cleared (p.frames idx))
      unfolding take_victim forget set_frame cleared
      after_vacant = rw vacant

      vacant_frame :
          (i : ℕ)
          → (take_victim p idx).frames i ≡ (if i == idx then cleared (p.frames idx) else p.frames i)
      unfolding set_frame
      vacant_frame i = rw after_vacant

      content_vacant : (i : ℕ) → ((take_victim p idx).frames i).content ≡ (p.frames i).content
      unfolding cleared
      content_vacant i = rw (vacant_frame i) (ground arith)

      pub vacant-SameView : SameView p (take_victim p idx)
      unfolding SameView set_frame
      vacant-SameView j = elim (Option-cases (lookup j p.page_table)) [
        | inl gone ↦
            view-uncached L D (take_victim p idx) j
              (ap (λ q. lookup j q.page_table) after_vacant ∙ gone)
            ∙ ap (λ q. D.page q.disk j) after_vacant
            ∙ sym (view-uncached L D p j gone)
        | inr (i, at) ↦
            view-cached L D (take_victim p idx) j i
              (ap (λ q. lookup j q.page_table) after_vacant ∙ at)
            ∙ content_vacant i
            ∙ sym (view-cached L D p j i at)
      ]

      pub vacant-IsSound : IsSound L D (take_victim p idx)
      unfolding set_frame cleared
      vacant-IsSound = rw after_vacant (record {
        seated_at = λ j i h. ground (arith, s.seated_at j i h, vacant);
        listed = λ j i h. s.listed j i (ground (arith, h));
        clean = λ j i h c l.
            let same : (if i == idx then cleared (p.frames idx) else p.frames i) ≡ p.frames i =
              ground (arith, h) in
            rw same (s.clean j i (rw same at h) (rw same at c) (rw same at l));
        marked = λ j i h d. s.marked j i (ground (arith, h)) (ground (arith, h, d));
      })

    module _ (old : ℕ) (here : (p.frames idx).page_id ≡ some old) where
      after : take_victim p idx ≡ set_frame (forget p (some old)) idx (cleared (p.frames idx))
      unfolding take_victim forget set_frame cleared
      after = rw here

      pub table_after :
          (j : ℕ)
          → lookup j (take_victim p idx).page_table
            ≡ (if old == j then none else lookup j p.page_table)
      unfolding set_frame forget
      table_after j = rw after (lookup-remove old j p.page_table)

      marks_after :
          (j : ℕ)
          → contains j (take_victim p idx).dirty_pages
            ≡ (if old == j then false else contains j p.dirty_pages)
      unfolding set_frame forget
      marks_after j = rw after (contains-delete old j p.dirty_pages)

      frame_after :
          (i : ℕ)
          → (take_victim p idx).frames i ≡ (if i == idx then cleared (p.frames idx) else p.frames i)
      unfolding set_frame forget
      frame_after i = rw after

      content_after : (i : ℕ) → ((take_victim p idx).frames i).content ≡ (p.frames i).content
      unfolding cleared
      content_after i = rw (frame_after i) (ground arith)

      disk_after : (take_victim p idx).disk ≡ p.disk
      unfolding set_frame forget
      disk_after = rw after

      pub taken-SameView :
          (p.frames idx).content ≡ D.page p.disk old → SameView p (take_victim p idx)
      unfolding SameView
      taken-SameView e j = elim (ℕ_discrete old j) [
        | yes same ↦
            view-uncached L D (take_victim p idx) j (table_after j ∙ ground arith)
            ∙ ap (λ d. D.page d j) disk_after
            ∙ rw (sym same) (sym e)
            ∙ sym (view-cached L D p j idx (rw (sym same) (s.listed old idx here)))
        | no other ↦ elim (Option-cases (lookup j p.page_table)) [
          | inl gone ↦
              view-uncached L D (take_victim p idx) j (table_after j ∙ ground (arith, gone))
              ∙ ap (λ d. D.page d j) disk_after
              ∙ sym (view-uncached L D p j gone)
          | inr (i, at) ↦
              view-cached L D (take_victim p idx) j i (table_after j ∙ ground (arith, at))
              ∙ content_after i
              ∙ sym (view-cached L D p j i at)
        ]
      ]

      unmoved : (i : ℕ) → i ≢ idx → (take_victim p idx).frames i ≡ p.frames i
      unmoved i ne = frame_after i ∙ ground arith

      page_of_victim : (i : ℕ) → i ≡ idx → ((take_victim p idx).frames i).page_id ≡ none
      unfolding cleared
      page_of_victim i e = rw (frame_after i) (ground arith)

      still_listed :
          (j i : ℕ)
          → lookup j (take_victim p idx).page_table ≡ some i
          → (old ≢ j) × (lookup j p.page_table ≡ some i)
      still_listed j i h = let e = sym (table_after j) ∙ h in ground (arith, e)

      -- The frames that hold a page afterwards hold the page that they held.
      kept_frame :
          (i j : ℕ)
          → ((take_victim p idx).frames i).page_id ≡ some j
          → ((take_victim p idx).frames i ≡ p.frames i) × (i ≢ idx) × (old ≢ j)
      unfolding cleared
      kept_frame i j h = elim (ℕ_discrete i idx) [
        | yes e ↦ absurd (cc (h, page_of_victim i e))
        | no ne ↦ (
          unmoved i ne,
          ne,
          λ e. ne (
              cc (
                e,
                s.listed old idx here,
                s.listed j i (cc (h, ap (λ f. f.page_id) (unmoved i ne))),
              )),
        )
      ]

      pub taken-IsSound : IsSound L D (take_victim p idx)
      unfolding cleared
      taken-IsSound = record {
        seated_at = λ j i h.
            let (other, at) = still_listed j i h in
            ap (λ f. f.page_id)
              (unmoved i (λ e. other (cc (here, s.seated_at j i at, ap p.frames e))))
            ∙ s.seated_at j i at;
        listed = λ j i h.
            let (same, elsewhere, other) = kept_frame i j h in
            table_after j ∙ ground (arith, s.listed j i (rw (sym same) h));
        clean = λ j i h c l.
            let (same, elsewhere, other) = kept_frame i j h in
            rw (same, disk_after)
              (s.clean j i (rw (sym same) h) (rw (sym same) c) (rw (sym same) l));
        marked = λ j i h d.
            let (same, elsewhere, other) = kept_frame i j h in
            marks_after j ∙ ground (arith, s.marked j i (rw (sym same) h) (rw (sym same) d));
      }
