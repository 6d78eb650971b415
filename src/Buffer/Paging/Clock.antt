-- ===== src/Buffer/Paging/Clock.antt =====
-- crates/prism-buffer/src/pool.rs: the rounds of the clock that pass a frame over.
use prism_db.Common.{
  ℕ, ◌+◌, ◌-◌, ◌<◌, ◌≤◌, ◌≡◌, ◌≢◌, ◌⊎◌, inl, inr, true, false, Option, none, some, ltb, arith,
  Bool-cases,
}
use native.Mathlib.Nat.{mod-lt}
use prism_db.Common.Results.{Result, ok, err}
use prism_db.Core.LogDevice.{LogDevice}
use prism_db.Buffer.Devices.{BufferError, DiskDevice}
use prism_db.Buffer.Pool.{set_frame, advance}
use prism_db.Buffer.Paging.{Pool, passed, evict_dirty, evict, visit, taken_after}

module _ (L : LogDevice) (D : DiskDevice) where
  -- A frame is latched only while it is pinned, and used three times at most.
  pub record IsClocked (p : Pool L D) : Type 0 where
    pub some_frames : 0 < p.frame_count
    pub hand : p.clock_hand < p.frame_count
    pub pinned : (i : ℕ) → (p.frames i).latched ≡ true → 0 < (p.frames i).pin_count
    pub used : (i : ℕ) → (p.frames i).usage_count ≤ 3

  taken_after-passed :
      (p' : Pool L D) (idx : ℕ) (r : Pool L D × Result BufferError (Unit {0}))
      → taken_after L D idx r ≢ passed p'
  unfolding taken_after
  taken_after-passed p' idx (p, ok _) e = cc e
  taken_after-passed p' idx (p, err x) e = cc e

  evict_dirty-passed :
      (p p' : Pool L D) (idx : ℕ) (o : Option ℕ)
      → (p.frames idx).latched ≡ false
      → evict_dirty L D p idx o ≢ passed p'
  unfolding evict_dirty
  evict_dirty-passed p p' idx none h e = cc e
  evict_dirty-passed p p' idx (some old) h e = taken_after-passed p' idx _ (rw h at e)

  evict-passed :
      (p p' : Pool L D) (idx : ℕ) → (p.frames idx).latched ≡ false → evict L D p idx ≢ passed p'
  unfolding evict
  evict-passed p p' idx h e = elim (Bool-cases (p.frames idx).dirty) [
    | inl d ↦ evict_dirty-passed p p' idx (p.frames idx).page_id h (rw d at e)
    | inr d ↦ cc (rw d at e)
  ]

  abbrev pub used_less : Pool L D → ℕ → Pool L D
  used_less p idx =
      set_frame p idx (record (p.frames idx) { usage_count = (p.frames idx).usage_count - 1 })

  pub unlatched :
      (p : Pool L D) (idx : ℕ)
      → IsClocked p
      → (p.frames idx).pin_count ≡ 0
      → (p.frames idx).latched ≡ false
  unlatched p idx c h = elim (Bool-cases (p.frames idx).latched) [
    | inl l ↦ absurd (omega (arith, c.pinned idx l))
    | inr l ↦ l
  ]

  -- What a round that passes a frame over has done to it.
  pub visit-passed :
      (p p' : Pool L D) (idx : ℕ)
      → IsClocked p
      → visit L D p idx ≡ passed p'
      → (((0 < (p.frames idx).pin_count) × (p' ≡ p))
          ⊎ ((0 < (p.frames idx).usage_count) × (p' ≡ used_less p idx)))
  unfolding visit
  visit-passed p p' idx c e = elim (Bool-cases (ltb 0 (p.frames idx).pin_count)) [
    | inl h ↦ inl (ground arith, cc (rw h at e))
    | inr h ↦ elim (Bool-cases (ltb 0 (p.frames idx).usage_count)) [
      | inl u ↦ inr (ground arith, cc (rw (h, u) at e))
      | inr u ↦ absurd (evict-passed p p' idx (unlatched p idx c (ground arith)) (rw (h, u) at e))
    ]
  ]

  pub advance-IsClocked : (p : Pool L D) → IsClocked p → IsClocked (advance p)
  unfolding advance
  advance-IsClocked p c = record {
    some_frames = c.some_frames;
    hand = mod-lt (p.clock_hand + 1) c.some_frames;
    pinned = c.pinned;
    used = c.used;
  }

  pub used_less-IsClocked : (p : Pool L D) (idx : ℕ) → IsClocked p → IsClocked (used_less p idx)
  unfolding set_frame
  used_less-IsClocked p idx c = record {
    some_frames = c.some_frames;
    hand = c.hand;
    pinned = λ i l. ground (arith, c.pinned i, c.pinned idx);
    used = λ i. ground (arith, c.used i, c.used idx);
  }

  pub pass_IsClocked :
      (p p' : Pool L D) (idx : ℕ) → IsClocked p → visit L D p idx ≡ passed p' → IsClocked p'
  pass_IsClocked p p' idx c e = elim (visit-passed p p' idx c e) [
    | inl (_, same) ↦ rw same c
    | inr (_, less) ↦ rw less (used_less-IsClocked p idx c)
  ]
