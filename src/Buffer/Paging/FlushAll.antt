-- ===== src/Buffer/Paging/FlushAll.antt =====
-- crates/prism-buffer/src/pool.rs: a flush of the whole pool.
use prism_db.Common.{
  ℕ, ◌≡◌, inl, inr, ◌∙◌, refl, sym, true, false, List, [], ◌∷◌, some, arith, Bool-cases,
  Option-cases, ℕ_discrete,
}
use prism_db.Common.Results.{Result, ok, err}
use prism_db.Common.Maps.{lookup, contains}
use prism_db.Core.LogDevice.{LogDevice}
use prism_db.Buffer.Devices.{StorageError, BufferError, DiskDevice}
use prism_db.Buffer.Paging.{
  synced_disk, synced, flush_all, Pool, flush_frame, candidates, flush_frames, flush_matching,
}
use prism_db.Buffer.Paging.Sound.{view, view-cached, view-uncached, IsSound}
use prism_db.Buffer.Paging.Frames.{SameView}
use prism_db.Buffer.Paging.Flushes.{Flushed, refl_Flushed, trans_Flushed, FrameFlushed, flush_page}

module _ (L : LogDevice) (D : DiskDevice) where
  -- The loop over the candidates.
  AllFlushed : Pool L D → List ℕ → Pool L D × Result BufferError (Unit {0}) → Type 0
  AllFlushed p idxs (q, ok _) =
      Flushed L D p q
      × ((i id : ℕ)
          → contains i idxs ≡ true
          → (p.frames i).page_id ≡ some id
          → (p.frames i).latched ≡ false
          → (q.frames i).dirty ≡ false)
  AllFlushed p idxs (q, err e) = IsSound L D q × SameView L D p q

  then_rest :
      (p q : Pool L D) (idx : ℕ) (idxs : List ℕ)
      → Flushed L D p q
      → ((id : ℕ)
          → (p.frames idx).page_id ≡ some id
          → (p.frames idx).latched ≡ false
          → (q.frames idx).dirty ≡ false)
      → (y : Pool L D × Result BufferError (Unit {0})) → AllFlushed q idxs y
      → AllFlushed p (idx ∷ idxs) y
  unfolding AllFlushed contains SameView
  then_rest p q idx idxs f done (r, err e) (s, v) = (s, λ j. v j ∙ f.same_view j)
  then_rest p q idx idxs f done (r, ok _) (g, all) = (
    trans_Flushed L D f g,
    λ i id h at l. elim (ℕ_discrete idx i) [
      | yes e ↦ rw (sym e) (g.less idx (done id (rw e at) (rw e l)))
      | no ne ↦ all i id (ground (arith, h)) (f.pages i ∙ at) (f.latches i ∙ l)
    ],
  )

  after_first :
      (p : Pool L D) (idx : ℕ) (idxs : List ℕ) (x : Pool L D × Result BufferError (Unit {0}))
      → FrameFlushed L D p idx x
      → ((q : Pool L D) → IsSound L D q → AllFlushed q idxs (flush_frames L D q idxs (λ _. true)))
      → AllFlushed p
          (idx ∷ idxs)
          (elim x.1 [ ok _ ↦ flush_frames L D x.0 idxs (λ _. true) | err e ↦ (x.0, err e) ])
  unfolding FrameFlushed AllFlushed
  after_first p idx idxs (q, err e) f rest = f
  after_first p idx idxs (q, ok _) (f, done) rest = then_rest p q idx idxs f done _ (rest q f.sound)

  frames_AllFlushed :
      (idxs : List ℕ) (p : Pool L D)
      → IsSound L D p
      → AllFlushed p idxs (flush_frames L D p idxs (λ _. true))
  unfolding flush_frames AllFlushed contains
  frames_AllFlushed [] p s = (refl_Flushed L D s, λ i id h at. absurd (cc h))
  frames_AllFlushed (idx ∷ idxs) p s =
      after_first p idx idxs (flush_frame L D p idx (λ _. true))
        (flush_page L D p s idx (p.frames idx).page_id refl) (λ q. frames_AllFlushed idxs q)

  candidate :
      (p : Pool L D) (ids : List ℕ) (id i : ℕ)
      → contains id ids ≡ true
      → lookup id p.page_table ≡ some i
      → contains i (candidates L D p ids) ≡ true
  unfolding candidates contains
  candidate p [] id i h at = absurd (cc h)
  candidate p (j ∷ ids) id i h at = elim (ℕ_discrete j id) [
    | yes e ↦ rw (e, at, candidates) (ground arith)
    | no ne ↦
        let rest = candidate p ids id i (ground (arith, h)) at in
        elim (Option-cases (lookup j p.page_table)) [
          | inl gone ↦ rw (gone, candidates) rest
          | inr (k, there) ↦ rw (there, candidates) (ground (arith, rest))
        ]
  ]

  -- No writer holds the page.
  abbrev pub IsFree : Pool L D → ℕ → Type 0
  IsFree p id = (i : ℕ) → (p.frames i).page_id ≡ some id → (p.frames i).latched ≡ false

  -- After a flush that succeeds the disk holds what the pool held of each page that no writer holds.
  unfoldable pub Saved : Pool L D → Pool L D × Result BufferError (Unit {0}) → Type 0
  Saved p (q, ok _) =
      IsSound L D q × SameView L D p q × ((id : ℕ) → IsFree p id → D.page q.disk id ≡ view L D p id)
  Saved p (q, err e) = IsSound L D q × SameView L D p q

  module _ (p : Pool L D) (s : IsSound L D p) where
    module _ (q : Pool L D) (f : Flushed L D p q)
        (done : (i id : ℕ)
          → contains i (candidates L D p p.dirty_pages) ≡ true
          → (p.frames i).page_id ≡ some id
          → (p.frames i).latched ≡ false
          → (q.frames i).dirty ≡ false) where
      no_dirt :
          (id i : ℕ)
          → (p.frames i).page_id ≡ some id
          → (p.frames i).latched ≡ false
          → (q.frames i).dirty ≡ false
      no_dirt id i here free = elim (Bool-cases (p.frames i).dirty) [
        | inl d ↦
            done i id (candidate p p.dirty_pages id i (s.marked id i here d) (s.listed id i here))
              here free
        | inr d ↦ f.less i d
      ]

      on_disk : (id : ℕ) → IsFree p id → D.page q.disk id ≡ view L D q id
      on_disk id free = elim (Option-cases (lookup id q.page_table)) [
        | inl gone ↦ sym (view-uncached L D q id gone)
        | inr (i, at) ↦
            let here = f.sound.seated_at id i at in
            let was = sym (f.pages i) ∙ here in
            sym (f.sound.clean id i here (no_dirt id i was (free i was)) (f.latches i ∙ free i was))
            ∙ sym (view-cached L D q id i at)
      ]

    all-Saved :
        (x : Pool L D × Result BufferError (Unit {0}))
        → AllFlushed p (candidates L D p p.dirty_pages) x
        → Saved p x
    unfolding AllFlushed Saved SameView
    all-Saved (q, ok _) (f, done) =
        (f.sound, f.same_view, λ id free. on_disk q f done id free ∙ f.same_view id)
    all-Saved (q, err e) h = h

  matching-Saved : (p : Pool L D) → IsSound L D p → Saved p (flush_matching L D p (λ _. true))
  unfolding flush_matching
  matching-Saved p s = all-Saved p s _ (frames_AllFlushed (candidates L D p p.dirty_pages) p s)

  module _ (q : Pool L D) (disk : D.State) (kept : (j : ℕ) → D.page disk j ≡ D.page q.disk j) where
    synced-IsSound : IsSound L D q → IsSound L D (record q { disk = disk })
    synced-IsSound s = record {
      seated_at = s.seated_at;
      listed = s.listed;
      clean = λ j i h c l. s.clean j i h c l ∙ sym (kept j);
      marked = s.marked;
    }

    synced-SameView : SameView L D q (record q { disk = disk })
    unfolding SameView
    synced-SameView j = elim (Option-cases (lookup j q.page_table)) [
      | inl gone ↦
          view-uncached L D (record q { disk = disk }) j gone
          ∙ kept j
          ∙ sym (view-uncached L D q j gone)
      | inr (i, at) ↦
          view-cached L D (record q { disk = disk }) j i at ∙ sym (view-cached L D q j i at)
    ]

  disk-Saved :
      (p q : Pool L D) (x : D.State × Result StorageError (Unit {0}))
      → ((j : ℕ) → D.page x.0 j ≡ D.page q.disk j)
      → Saved p (q, ok tt)
      → Saved p (synced_disk L D q x)
  unfolding Saved synced_disk SameView
  disk-Saved p q (disk, ok _) kept (s, v, on) = (
    synced-IsSound q disk kept s,
    λ j. synced-SameView q disk kept j ∙ v j,
    λ id free. kept id ∙ on id free,
  )
  disk-Saved p q (disk, err e) kept (s, v, on) =
      (synced-IsSound q disk kept s, λ j. synced-SameView q disk kept j ∙ v j)

  synced-Saved :
      (p : Pool L D) (x : Pool L D × Result BufferError (Unit {0}))
      → Saved p x
      → Saved p (synced L D x)
  unfolding synced Saved
  synced-Saved p (q, ok _) h = disk-Saved p q (D.sync q.disk) (D.sync_keeps q.disk) h
  synced-Saved p (q, err e) h = h

  -- A flush of the pool that runs with no other thread between its steps leaves every page readable
  -- as it was, on all paths; when it succeeds, the disk alone holds what a reader of the pool got, for
  -- every page that no writer holds.
  pub flush_all-Saved : (p : Pool L D) → IsSound L D p → Saved p (flush_all L D p)
  unfolding flush_all
  flush_all-Saved p s = synced-Saved p (flush_matching L D p (λ _. true)) (matching-Saved p s)
