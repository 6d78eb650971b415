-- ===== src/Buffer/Paging/Evicts.antt =====
-- crates/prism-buffer/src/pool.rs: the pages that a pool holds, through an eviction and an access.
use prism_db.Common.{
  ℕ, zero, suc, ◌≡◌, inl, inr, ◌∙◌, refl, ap, sym, true, false, Option, none, some, ltb, arith,
  Bool-cases, Option-cases,
}
use prism_db.Common.Results.{Result, ok, err}
use prism_db.Common.Maps.{lookup}
use prism_db.Core.LogDevice.{LogDevice}
use prism_db.Buffer.Devices.{BufferError, DiskDevice}
use prism_db.Buffer.Pool.{Frame, set_frame, advance, forget, take_victim, cleared}
use prism_db.Buffer.Paging.{
  Pool, Turn, passed, taken, stopped, taken_after, evict_dirty, evict, visit, sweep,
}
use prism_db.Buffer.Paging.Clock.{IsClocked, unlatched, advance-IsClocked, pass_IsClocked}
use prism_db.Buffer.Paging.Sound.{view, view-cached, view-uncached, IsSound, Wrote, write_out-Wrote}
use prism_db.Buffer.Paging.Frames.{
  SameView, Wrote-SameView, Wrote-IsSound, taken-SameView, taken-IsSound, vacant-SameView,
  vacant-IsSound, table_after, after_vacant,
}

module _ (L : LogDevice) (D : DiskDevice) where
  -- A pool that another may become while frames are looked for: the pages are the same, and none
  -- has come to a frame.
  pub record Keeps (p p' : Pool L D) : Type 0 where
    pub sound : IsSound L D p'
    pub same_view : SameView L D p p'
    pub absent : (j : ℕ) → lookup j p.page_table ≡ none → lookup j p'.page_table ≡ none

  trans_Keeps : {p q r : Pool L D} → Keeps p q → Keeps q r → Keeps p r
  unfolding SameView
  trans_Keeps a b = record {
    sound = b.sound;
    same_view = λ j. b.same_view j ∙ a.same_view j;
    absent = λ j h. b.absent j (a.absent j h);
  }

  refl_Keeps : {p : Pool L D} → IsSound L D p → Keeps p p
  unfolding SameView
  refl_Keeps s = record { sound = s; same_view = λ j. refl; absent = λ j h. h }

  -- A turn of the clock, and what it leaves in the frame that it takes.
  abbrev TurnKeeps : Pool L D → Turn L D → Type 0
  TurnKeeps p (passed p') = Keeps p p'
  TurnKeeps p (taken p' idx) = Keeps p p' × ((p'.frames idx).page_id ≡ none)
  TurnKeeps p (stopped p' e) = Keeps p p'

  abbrev pub FoundKeeps : Pool L D → Pool L D × Result BufferError ℕ → Type 0
  FoundKeeps p (p', ok idx) = Keeps p p' × ((p'.frames idx).page_id ≡ none)
  FoundKeeps p (p', err e) = Keeps p p'

  then_found :
      {p q : Pool L D}
      → Keeps p q
      → (x : Pool L D × Result BufferError ℕ) → FoundKeeps q x
      → FoundKeeps p x
  then_found k (q', ok idx) (k', vacant) = (trans_Keeps k k', vacant)
  then_found k (q', err e) k' = trans_Keeps k k'

  victim_vacant : (p : Pool L D) (idx : ℕ) → ((take_victim p idx).frames idx).page_id ≡ none
  unfolding take_victim set_frame cleared
  victim_vacant p idx = ground arith

  take_page :
      (p : Pool L D) (s : IsSound L D p) (idx old : ℕ)
      → (p.frames idx).page_id ≡ some old
      → (p.frames idx).content ≡ D.page p.disk old
      → Keeps p (take_victim p idx)
  take_page p s idx old here e = record {
    sound = taken-IsSound L D p s idx old here;
    same_view = taken-SameView L D p s idx old here e;
    absent = λ j h. table_after L D p s idx old here j ∙ ground (arith, h);
  }

  take_vacant :
      (p : Pool L D) (s : IsSound L D p) (idx : ℕ)
      → (p.frames idx).page_id ≡ none
      → Keeps p (take_victim p idx)
  unfolding take_victim forget set_frame
  take_vacant p s idx e = record {
    sound = vacant-IsSound L D p s idx e;
    same_view = vacant-SameView L D p s idx e;
    absent = λ j h. ap (λ q. lookup j q.page_table) (after_vacant L D p s idx e) ∙ h;
  }

  -- A dirty frame is written out and then taken.
  written_taken :
      (p : Pool L D) (s : IsSound L D p) (idx old : ℕ)
      → (p.frames idx).page_id ≡ some old
      → (p.frames idx).dirty ≡ true
      → (x : Pool L D × Result BufferError (Unit {0}))
      → Wrote L D p x.0 old (p.frames idx).content x.1
      → TurnKeeps p (taken_after L D idx x)
  unfolding taken_after
  written_taken p s idx old here d (q, ok _) w =
      let sound = Wrote-IsSound L D p s old idx here w d in
      let kept : Keeps p q = (record {
        sound = sound;
        same_view = Wrote-SameView L D p s old idx here w;
        absent = λ j h. rw w.same h;
      }) in
      let frame : q.frames idx ≡ p.frames idx = ap (λ q. q.frames idx) w.same in
      (
        trans_Keeps kept
            (take_page q sound idx old (rw frame here) (rw (frame, w.same) (sym (w.written refl)))),
        victim_vacant q idx,
      )
  written_taken p s idx old here d (q, err e) w = record {
    sound = Wrote-IsSound L D p s old idx here w d;
    same_view = Wrote-SameView L D p s old idx here w;
    absent = λ j h. rw w.same h;
  }

  evict_dirty-Keeps :
      (p : Pool L D) (s : IsSound L D p) (idx : ℕ) (o : Option ℕ)
      → (p.frames idx).page_id ≡ o
      → (p.frames idx).dirty ≡ true
      → TurnKeeps p (evict_dirty L D p idx o)
  unfolding evict_dirty
  evict_dirty-Keeps p s idx none here d = (take_vacant p s idx here, victim_vacant p idx)
  evict_dirty-Keeps p s idx (some old) here d = elim (Bool-cases (p.frames idx).latched) [
    | inl l ↦ rw l (refl_Keeps s)
    | inr l ↦ rw l (written_taken p s idx old here d _ (write_out-Wrote L D p old _ _))
  ]

  evict_clean :
      (p : Pool L D) (s : IsSound L D p) (idx : ℕ) (o : Option ℕ)
      → (p.frames idx).page_id ≡ o
      → (p.frames idx).dirty ≡ false
      → (p.frames idx).latched ≡ false
      → Keeps p (take_victim p idx)
  evict_clean p s idx none here d l = take_vacant p s idx here
  evict_clean p s idx (some old) here d l = take_page p s idx old here (s.clean old idx here d l)

  evict-Keeps :
      (p : Pool L D) (s : IsSound L D p) (idx : ℕ)
      → (p.frames idx).latched ≡ false
      → TurnKeeps p (evict L D p idx)
  unfolding evict
  evict-Keeps p s idx l = elim (Bool-cases (p.frames idx).dirty) [
    | inl d ↦ rw d (evict_dirty-Keeps p s idx _ refl d)
    | inr d ↦ rw d (evict_clean p s idx _ refl d l, victim_vacant p idx)
  ]

  pub content_framed :
      (p : Pool L D) (idx : ℕ) (f : Frame)
      → f.content ≡ (p.frames idx).content
      → (i : ℕ) → ((set_frame p idx f).frames i).content ≡ (p.frames i).content
  unfolding set_frame
  content_framed p idx f ec i = ground (arith, ec)

  pub framed :
      (p : Pool L D) (idx : ℕ) (f : Frame)
      → IsSound L D p
      → f.page_id ≡ (p.frames idx).page_id
      → f.content ≡ (p.frames idx).content
      → f.dirty ≡ (p.frames idx).dirty
      → f.latched ≡ (p.frames idx).latched
      → Keeps p (set_frame p idx f)
  unfolding set_frame SameView
  framed p idx f s ei ec ed el = record {
    sound = record {
      seated_at = λ j i h. ground (arith, ei, s.seated_at j i h);
      listed = λ j i h. s.listed j i (ground (arith, ei, h));
      clean = λ j i h c l.
          content_framed p idx f ec i
          ∙ s.clean j i (ground (arith, ei, h)) (ground (arith, ed, c)) (ground (arith, el, l));
      marked = λ j i h d. s.marked j i (ground (arith, ei, h)) (ground (arith, ed, d));
    };
    same_view = λ j. elim (Option-cases (lookup j p.page_table)) [
      | inl gone ↦ view-uncached L D (set_frame p idx f) j gone ∙ sym (view-uncached L D p j gone)
      | inr (i, at) ↦
          view-cached L D (set_frame p idx f) j i at
          ∙ content_framed p idx f ec i
          ∙ sym (view-cached L D p j i at)
    ];
    absent = λ j h. h;
  }

  visit-Keeps :
      (p : Pool L D) (s : IsSound L D p) (idx : ℕ) → IsClocked L D p → TurnKeeps p (visit L D p idx)
  unfolding visit
  visit-Keeps p s idx c = elim (Bool-cases (ltb 0 (p.frames idx).pin_count)) [
    | inl a ↦ rw a (refl_Keeps s)
    | inr a ↦ elim (Bool-cases (ltb 0 (p.frames idx).usage_count)) [
      | inl u ↦ rw (a, u) (framed p idx _ s refl refl refl refl)
      | inr u ↦ rw (a, u) (evict-Keeps p s idx (unlatched L D p idx c (ground arith)))
    ]
  ]

  advanced : (p : Pool L D) → IsSound L D p → Keeps p (advance p)
  unfolding advance SameView view
  advanced p s = record {
    sound = record {
      seated_at = s.seated_at;
      listed = s.listed;
      clean = s.clean;
      marked = s.marked;
    };
    same_view = λ j. refl;
    absent = λ j h. h;
  }

  after_turn :
      (visits : ℕ) (p : Pool L D) (t : Turn L D)
      → TurnKeeps p t
      → ((p' : Pool L D) → t ≡ passed p' → IsSound L D p' → FoundKeeps p' (sweep L D visits p'))
      → FoundKeeps p (elim t [
        | passed p' ↦ sweep L D visits p'
        | taken p' idx ↦ (p', ok idx)
        | stopped p' e ↦ (p', err e)
      ])
  after_turn visits p (passed p') k h = then_found k _ (h p' refl k.sound)
  after_turn visits p (taken p' idx) k h = k
  after_turn visits p (stopped p' e) k h = k

  pub sweep-Keeps :
      (visits : ℕ) (p : Pool L D)
      → IsSound L D p
      → IsClocked L D p
      → FoundKeeps p (sweep L D visits p)
  unfolding sweep
  sweep-Keeps zero p s c = refl_Keeps s
  sweep-Keeps (suc visits) p s c =
      let on = advanced p s in
      let c' = advance-IsClocked L D p c in
      then_found on _ (
        after_turn visits (advance p) (visit L D (advance p) p.clock_hand)
          (visit-Keeps (advance p) on.sound p.clock_hand c')
          (λ p' e s'.
            sweep-Keeps visits p' s' (pass_IsClocked L D (advance p) p' p.clock_hand c' e)))
