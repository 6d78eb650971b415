-- ===== src/Buffer/Paging/Race.antt =====
-- crates/prism-buffer/src/pool.rs: a flush between whose look at a frame and whose write of it
-- another thread seats another page in the frame.
use prism_db.Common.{
  ℕ, ◌≡◌, ◌≢◌, inl, inr, ◌∙◌, refl, ap, Bool, true, false, none, some, Bool-cases, Option-cases,
}
use prism_db.Common.Results.{Result, ok, err}
use prism_db.Common.Maps.{lookup}
use prism_db.Storage.Bytes.{Buffer}
use prism_db.Core.LogDevice.{LogDevice}
use prism_db.Buffer.Devices.{BufferError, DiskDevice}
use prism_db.Buffer.Pool.{Frame, Look, look_at}
use prism_db.Buffer.Paging.{Pool, wrote_frame, flush_write, pin_for_access}
use prism_db.Buffer.Paging.Sound.{view, view-cached, view-uncached, IsSound, Wrote, write_out-Wrote}
use prism_db.Buffer.Paging.Clock.{IsClocked}
use prism_db.Buffer.Paging.Access.{Accesses, pin_for_access-Accesses}

module _ (L : LogDevice) (D : DiskDevice) where
  -- What a write of the content to the page leaves, where it succeeds.
  Overwrites : Pool L D → ℕ → Buffer → Pool L D × Result BufferError Bool → Type 0
  Overwrites q a content (r, ok true) = lookup a q.page_table ≡ none → view L D r a ≡ content
  Overwrites q a content (r, ok false) = Unit {0}
  Overwrites q a content (r, err e) = Unit {0}

  Wrote-Overwrites :
      (q : Pool L D) (a : ℕ) (content : Buffer) (x : Pool L D × Result BufferError (Unit {0}))
      → Wrote L D q x.0 a content x.1
      → Overwrites q a content (wrote_frame L D x)
  unfolding Overwrites wrote_frame
  Wrote-Overwrites q a content (r, ok _) w = λ absent.
      view-uncached L D r a (rw w.same absent) ∙ ap (λ y. D.page y.disk a) w.same ∙ w.written refl
  Wrote-Overwrites q a content (r, err e) w = tt

  flush_write-Overwrites :
      (q : Pool L D) (idx : ℕ) (look : Look)
      → Overwrites q look.page_id (q.frames idx).content (flush_write L D q idx look)
  unfolding Overwrites flush_write
  flush_write-Overwrites q idx look = elim (Bool-cases (q.frames idx).latched) [
    | inl l ↦ rw l tt
    | inr l ↦ rw l (
        Wrote-Overwrites q look.page_id (q.frames idx).content _
          (write_out-Wrote L D q look.page_id look.page_lsn (q.frames idx).content))
  ]

  overwritten :
      (q r : Pool L D) (a : ℕ) (content : Buffer) (x : Pool L D × Result BufferError Bool)
      → x ≡ (r, ok true)
      → Overwrites q a content x
      → lookup a q.page_table ≡ none
      → view L D r a ≡ content
  unfolding Overwrites
  overwritten q r a content x e o = rw e at o

  accessed :
      (p q : Pool L D) (b idx : ℕ) (x : Pool L D × Result BufferError ℕ)
      → x ≡ (q, ok idx)
      → Accesses L D p b x
      → (lookup b q.page_table ≡ some idx) × ((q.frames idx).content ≡ view L D p b)
  accessed p q b idx x e a =
      let (sound, same, here, got, pin) = rw e at a in (sound.listed b idx here, got)

  looked_at :
      (f : Frame) (look : Look) → look_at f (λ _. true) ≡ some look → f.page_id ≡ some look.page_id
  unfolding look_at
  looked_at f look e = elim (Option-cases f.page_id) [
    | inl vacant ↦ absurd (cc (rw vacant at e))
    | inr (id, held) ↦ elim (Bool-cases f.dirty) [
      | inl d ↦
          held ∙ ap (λ o. elim o [ none ↦ some id | some l ↦ some l.page_id ]) (rw (held, d) at e)
      | inr d ↦ absurd (cc (rw (held, d) at e))
    ]
  ]

  -- A flush looks at a frame that holds a dirty page. Before it writes, another thread accesses the
  -- page b, for which the frame is taken. The flush then writes the content of b to the other page,
  -- the one that it looked at: every reader of that page, who got what was in the frame, gets the
  -- content of b.
  pub stale_flush_overwrites :
      (p q r : Pool L D) (idx b : ℕ) (look : Look)
      → IsSound L D p
      → IsClocked L D p
      → look_at (p.frames idx) (λ _. true) ≡ some look
      → pin_for_access L D p b ≡ (q, ok idx)
      → lookup look.page_id q.page_table ≡ none
      → flush_write L D q idx look ≡ (r, ok true)
      → (look.page_id ≢ b)
        × (view L D p look.page_id ≡ (p.frames idx).content)
        × (view L D r look.page_id ≡ view L D p b)
  stale_flush_overwrites p q r idx b look s c looked accesses absent wrote =
      let (listed, got) = accessed p q b idx _ accesses (pin_for_access-Accesses L D p b s c) in
      (
        λ e. absurd (cc (absent, listed, ap (λ k. lookup k q.page_table) e)),
        view-cached L D p look.page_id idx
            (s.listed look.page_id idx (looked_at (p.frames idx) look looked)),
        overwritten q r look.page_id (q.frames idx).content _ wrote
              (flush_write-Overwrites q idx look) absent
            ∙ got,
      )
