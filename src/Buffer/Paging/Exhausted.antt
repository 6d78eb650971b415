-- ===== src/Buffer/Paging/Exhausted.antt =====
-- crates/prism-buffer/src/pool.rs: how long the clock sweeps.
use prism_db.Common.{
  ℕ, zero, suc, ◌+◌, ◌-◌, ◌*◌, ◌%◌, ◌<◌, ◌≤◌, ◌≡◌, ◌≢◌, ◌↔◌, ◌⊎◌, inl, inr, refl, if◌then◌else◌,
  leb, arith, ℕ_discrete,
}
use native.Mathlib.Nat.{mod-eq_of_lt, mod_self}
use prism_db.Common.Results.{Result, err}
use prism_db.Core.LogDevice.{LogDevice}
use prism_db.Buffer.Devices.{BufferError, exhausted, DiskDevice}
use prism_db.Buffer.Pool.{set_frame, advance}
use prism_db.Buffer.Paging.{Pool, passed, visit, sweep, find_victim}
use prism_db.Buffer.Paging.Clock.{
  IsClocked, used_less, visit-passed, advance-IsClocked, used_less-IsClocked,
}
use prism_db.Buffer.Paging.Failures.{Turn-cases, visit-stopped}

next_hand : (h n : ℕ) → h < n → ((h + 1) % n ≡ h + 1) ⊎ ((h + 1 ≡ n) × ((h + 1) % n ≡ 0))
next_hand h n lt = elim (ℕ_discrete (h + 1) n) [
  | yes e ↦ inr (e, rw e (mod_self n))
  | no ne ↦ inl (mod-eq_of_lt (omega arith))
]

one_less : (u n : ℕ) → 0 < u → u * n ≡ (u - 1) * n + n
one_less zero n h = absurd (omega arith)
one_less (suc u) n h = grind arith

at_most_thrice : (u n : ℕ) → u ≤ 3 → u * n ≤ 3 * n
at_most_thrice u n h = grind arith

module _ (L : LogDevice) (D : DiskDevice) where
  -- How many rounds it takes the hand to come to a frame.
  abbrev distance : Pool L D → ℕ → ℕ
  distance p i = if leb p.clock_hand i then i - p.clock_hand else i + p.frame_count - p.clock_hand

  abbrev NotExhausted : Result BufferError ℕ → Type 0
  NotExhausted r = (n : ℕ) → r ≢ err (exhausted n)

  -- A frame that the clock is still to take: unpinned, and reached within the visits.
  record Reached (visits : ℕ) (p : Pool L D) (i : ℕ) : Type 0 where
    clocked : IsClocked L D p
    below : i < p.frame_count
    free : (p.frames i).pin_count ≡ 0
    enough : distance p i + (p.frames i).usage_count * p.frame_count + 1 ≤ visits

  -- The hand goes on from another frame.
  closer :
      (p : Pool L D) (i : ℕ)
      → IsClocked L D p
      → i < p.frame_count
      → p.clock_hand ≢ i
      → distance (advance p) i + 1 ≡ distance p i
  unfolding advance
  closer p i c lt ne = ground (arith, next_hand p.clock_hand p.frame_count c.hand, c.hand)

  -- The hand goes on from the frame itself, which is then reached after all others.
  around :
      (p : Pool L D) (i : ℕ)
      → IsClocked L D p
      → p.clock_hand ≡ i
      → (distance p i ≡ 0) × (distance (advance p) i + 1 ≤ p.frame_count)
  unfolding advance
  around p i c e = ground (arith, next_hand p.clock_hand p.frame_count c.hand, c.hand)

  pass_pinned :
      (visits : ℕ) (p : Pool L D) (i : ℕ)
      → Reached (suc visits) p i
      → 0 < ((advance p).frames p.clock_hand).pin_count
      → Reached visits (advance p) i
  unfolding advance
  pass_pinned visits p i r h = record {
    clocked = advance-IsClocked L D p r.clocked;
    below = r.below;
    free = r.free;
    enough = omega (arith, r.enough, closer p i r.clocked r.below elsewhere);
  }
    where
      elsewhere : p.clock_hand ≢ i
      elsewhere = λ e. absurd (omega (arith, r.free, rw e at h))

  usage_at :
      (p : Pool L D) (i h : ℕ)
      → h ≡ i
      → ((used_less L D p h).frames i).usage_count ≡ (p.frames i).usage_count - 1
  unfolding set_frame
  usage_at p i h e = ground arith

  usage_off :
      (p : Pool L D) (i h : ℕ)
      → h ≢ i
      → ((used_less L D p h).frames i).usage_count ≡ (p.frames i).usage_count
  unfolding set_frame
  usage_off p i h ne = ground arith

  pass_used :
      (visits : ℕ) (p : Pool L D) (i : ℕ)
      → Reached (suc visits) p i
      → 0 < ((advance p).frames p.clock_hand).usage_count
      → Reached visits (used_less L D (advance p) p.clock_hand) i
  unfolding advance set_frame
  pass_used visits p i r h = record {
    clocked = used_less-IsClocked L D (advance p) p.clock_hand (advance-IsClocked L D p r.clocked);
    below = r.below;
    free = ground (arith, r.free);
    enough = elim (ℕ_discrete p.clock_hand i) [
      | yes e ↦ rw (usage_at p i (p.clock_hand) e) (
          omega (
            arith,
            r.enough,
            around p i r.clocked e,
            one_less (p.frames i).usage_count p.frame_count (rw e at h),
          ))
      | no ne ↦
          rw (usage_off p i p.clock_hand ne)
            (omega (arith, r.enough, closer p i r.clocked r.below ne))
    ];
  }

  pass_over :
      (visits : ℕ) (p p' : Pool L D) (i : ℕ)
      → Reached (suc visits) p i
      → visit L D (advance p) p.clock_hand ≡ passed p'
      → Reached visits p' i
  pass_over visits p p' i r e =
      elim (visit-passed L D (advance p) p' p.clock_hand (advance-IsClocked L D p r.clocked) e) [
        | inl (pinned, same) ↦ rw same (pass_pinned visits p i r pinned)
        | inr (used, less) ↦ rw less (pass_used visits p i r used)
      ]

  -- With visits enough for the hand to reach an unpinned frame once more than it is used, a frame
  -- is taken, or a device fails.
  sweep-NotExhausted :
      (visits : ℕ) (p : Pool L D) (i : ℕ) → Reached visits p i → NotExhausted (sweep L D visits p).1
  unfolding sweep
  sweep-NotExhausted zero p i r = absurd (omega (arith, r.enough))
  sweep-NotExhausted (suc visits) p i r =
      elim (Turn-cases L D (visit L D (advance p) p.clock_hand)) [
        | inl (p', e) ↦ rw (e, sweep) (sweep-NotExhausted visits p' i (pass_over visits p p' i r e))
        | inr (inl (p', j, e)) ↦ rw (e, sweep) (λ n q. cc q)
        | inr (inr (p', x, e)) ↦
            rw (e, sweep) (λ n q. visit-stopped L D (advance p) p' p.clock_hand x e n (cc q))
      ]

  start_Reached :
      (p : Pool L D) (i : ℕ)
      → IsClocked L D p
      → i < p.frame_count
      → (p.frames i).pin_count ≡ 0
      → Reached (4 * p.frame_count) p i
  start_Reached p i c lt free = record {
    clocked = c;
    below = lt;
    free = free;
    enough =
        ground (arith, c.hand, at_most_thrice (p.frames i).usage_count p.frame_count (c.used i));
  }

  pinned-visit : (p : Pool L D) (j : ℕ) → 0 < (p.frames j).pin_count → visit L D p j ≡ passed p
  unfolding visit
  pinned-visit p j h = ground arith

  all_pinned-sweep :
      (visits : ℕ) (p : Pool L D)
      → IsClocked L D p
      → ((i : ℕ) → i < p.frame_count → 0 < (p.frames i).pin_count)
      → (sweep L D visits p).1 ≡ err (exhausted p.frame_count)
  unfolding sweep advance
  all_pinned-sweep zero p c h = refl
  all_pinned-sweep (suc visits) p c h =
      rw (pinned-visit (advance p) p.clock_hand (h p.clock_hand c.hand), sweep)
        (all_pinned-sweep visits (advance p) (advance-IsClocked L D p c) h)

  -- The pool reports that it is exhausted exactly when every frame is pinned: the sweep of four
  -- visits to each frame finds a frame if there is one, whatever the usage counts.
  pub find_victim_exhausted :
      (p : Pool L D)
      → IsClocked L D p
      → ((find_victim L D p).1 ≡ err (exhausted p.frame_count))
        ↔ ((i : ℕ) → i < p.frame_count → 0 < (p.frames i).pin_count)
  unfolding find_victim
  find_victim_exhausted p c = (
    (λ e i lt. elim (ℕ_discrete (p.frames i).pin_count 0) [
      | yes free ↦ absurd (sweep-NotExhausted _ p i (start_Reached p i c lt free) p.frame_count e)
      | no held ↦ omega arith
    ]),
    all_pinned-sweep (4 * p.frame_count) p c,
  )
