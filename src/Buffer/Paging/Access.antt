-- ===== src/Buffer/Paging/Access.antt =====
-- crates/prism-buffer/src/pool.rs: what a reader or a writer gets who accesses a page.
use prism_db.Common.{
  ℕ, ◌<◌, ◌≡◌, ◌≢◌, ◌⊎◌, inl, inr, ◌∙◌, refl, ap, sym, false, none, some, if◌then◌else◌, ◌==◌,
  arith, Option-cases, ℕ_discrete,
}
use prism_db.Common.Results.{Result, ok, err}
use prism_db.Common.Maps.{lookup, lookup-insert}
use prism_db.Storage.Bytes.{Buffer, rd_u64}
use prism_db.Core.LogDevice.{LogDevice}
use prism_db.Buffer.Devices.{StorageError, BufferError, DiskDevice}
use prism_db.Buffer.Pool.{set_frame, seated, pinned_again, same_page}
use prism_db.Buffer.Paging.{
  Pool, find_victim, seat, seat_read, seat_in, install_page, pin_for_access,
}
use prism_db.Buffer.Paging.Clock.{IsClocked}
use prism_db.Buffer.Paging.Sound.{view, view-cached, view-uncached, IsSound}
use prism_db.Buffer.Paging.Frames.{SameView}
use prism_db.Buffer.Paging.Evicts.{Keeps, FoundKeeps, sweep-Keeps, framed, content_framed}

module _ (L : LogDevice) (D : DiskDevice) where
  -- What an access promises: the page in a pinned frame, with the content that it had; the pages
  -- are the same to every reader, also where the access fails.
  abbrev pub Accesses : Pool L D → ℕ → Pool L D × Result BufferError ℕ → Type 0
  Accesses p id (p', ok idx) =
      IsSound L D p'
      × SameView L D p p'
      × ((p'.frames idx).page_id ≡ some id)
      × ((p'.frames idx).content ≡ view L D p id)
      × (0 < (p'.frames idx).pin_count)
  Accesses p id (p', err e) = IsSound L D p' × SameView L D p p'

  module _ (p : Pool L D) (s : IsSound L D p) (idx id : ℕ) (content : Buffer) (lsn : ℕ)
      (vacant : (p.frames idx).page_id ≡ none) (absent : lookup id p.page_table ≡ none)
      (read : content ≡ D.page p.disk id) where
    seat_table :
        (j : ℕ)
        → lookup j (seat L D p idx id content lsn).page_table
          ≡ (if id == j then some idx else lookup j p.page_table)
    unfolding seat set_frame
    seat_table j = lookup-insert id j idx p.page_table

    seat_frame :
        (i : ℕ)
        → (seat L D p idx id content lsn).frames i
          ≡ (if i == idx then seated (p.frames idx) content id lsn else p.frames i)
    unfolding seat set_frame
    seat_frame i = refl

    seat_disk : (seat L D p idx id content lsn).disk ≡ p.disk
    unfolding seat set_frame
    seat_disk = refl

    seat_marks : (seat L D p idx id content lsn).dirty_pages ≡ p.dirty_pages
    unfolding seat set_frame
    seat_marks = refl

    seated_here : (seat L D p idx id content lsn).frames idx ≡ seated (p.frames idx) content id lsn
    seated_here = seat_frame idx ∙ ground arith

    seated_other : (i : ℕ) → i ≢ idx → (seat L D p idx id content lsn).frames i ≡ p.frames i
    seated_other i ne = seat_frame i ∙ ground arith

    -- A frame that holds a page is the new one, or another, with another page.
    holder_after :
        (i j : ℕ)
        → ((seat L D p idx id content lsn).frames i).page_id ≡ some j
        → ((i ≡ idx) × (j ≡ id)) ⊎ ((i ≢ idx) × ((p.frames i).page_id ≡ some j) × (j ≢ id))
    unfolding seated
    holder_after i j h = elim (ℕ_discrete i idx) [
      | yes e ↦ inl (e, cc (rw (e, seated_here) at h))
      | no ne ↦ inr (
        ne,
        rw (seated_other i ne) at h,
        λ e. absurd (cc (absent, e, s.listed j i (rw (seated_other i ne) at h))),
      )
    ]

    seat-SameView : SameView L D p (seat L D p idx id content lsn)
    unfolding SameView seated
    seat-SameView j = elim (ℕ_discrete id j) [
      | yes same ↦
          view-cached L D (seat L D p idx id content lsn) j idx (seat_table j ∙ ground arith)
          ∙ rw seated_here (rw (sym same) (read ∙ sym (view-uncached L D p id absent)))
      | no other ↦ elim (Option-cases (lookup j p.page_table)) [
        | inl gone ↦
            view-uncached L D (seat L D p idx id content lsn) j
              (seat_table j ∙ ground (arith, gone))
            ∙ ap (λ d. D.page d j) seat_disk
            ∙ sym (view-uncached L D p j gone)
        | inr (i, at) ↦
            view-cached L D (seat L D p idx id content lsn) j i (seat_table j ∙ ground (arith, at))
            ∙ ap (λ f. f.content)
                (seated_other i
                  (λ e. absurd (cc (vacant, s.seated_at j i at, ap (λ k. p.frames k) e))))
            ∙ sym (view-cached L D p j i at)
      ]
    ]

    seat-IsSound : IsSound L D (seat L D p idx id content lsn)
    unfolding seated
    seat-IsSound = record {
      seated_at = λ j i h.
          let e = sym (seat_table j) ∙ h in
          elim (ℕ_discrete id j) [
            | yes same ↦ let here : i ≡ idx = ground (arith, e) in rw (here, seated_here, same)
            | no other ↦
                let at : lookup j p.page_table ≡ some i = ground (arith, e) in
                let was = s.seated_at j i at in
                rw (seated_other i (λ f. absurd (cc (vacant, was, ap (λ k. p.frames k) f)))) was
          ];
      listed = λ j i h. elim (holder_after i j h) [
        | inl (e, f) ↦ seat_table j ∙ ground (arith, e, f)
        | inr (ne, old, other) ↦ seat_table j ∙ ground (arith, s.listed j i old)
      ];
      clean = λ j i h c l. elim (holder_after i j h) [
        | inl (e, f) ↦ rw (e, seated_here, seat_disk, f) read
        | inr (ne, old, other) ↦
            rw (seated_other i ne, seat_disk)
              (s.clean j i old (rw (seated_other i ne) at c) (rw (seated_other i ne) at l))
      ];
      marked = λ j i h d. elim (holder_after i j h) [
        | inl (e, f) ↦ absurd (cc (rw (e, seated_here) at d))
        | inr (ne, old, other) ↦ rw seat_marks (s.marked j i old (rw (seated_other i ne) at d))
      ];
    }

    seat-Accesses : Accesses p id (seat L D p idx id content lsn, ok idx)
    unfolding seated
    seat-Accesses = (
      seat-IsSound,
      seat-SameView,
      ap (λ f. f.page_id) seated_here,
      ap (λ f. f.content) seated_here ∙ read ∙ sym (view-uncached L D p id absent),
      rw seated_here (omega arith),
    )

  then_SameView : (p q r : Pool L D) → SameView L D p q → SameView L D q r → SameView L D p r
  unfolding SameView
  then_SameView p q r a b j = b j ∙ a j

  at_SameView : (p q : Pool L D) (j : ℕ) → SameView L D p q → view L D q j ≡ view L D p j
  unfolding SameView
  at_SameView p q j h = h j

  found_read :
      (p q : Pool L D) (id idx : ℕ) (x : Result StorageError Buffer)
      → lookup id p.page_table ≡ none
      → D.read_page q.disk id ≡ x
      → Keeps L D p q
      → (q.frames idx).page_id ≡ none
      → Accesses p id (seat_read L D q idx id x)
  unfolding seat_read
  found_read p q id idx (err e) absent read k vacant = (k.sound, k.same_view)
  found_read p q id idx (ok content) absent read k vacant =
      let (sound, same, here, got, pin) =
        seat-Accesses q k.sound idx id content (rd_u64 content 0) vacant (k.absent id absent)
          (D.read_page-ok q.disk id content read) in
      (sound, then_SameView p q _ k.same_view same, here, got ∙ at_SameView p q id k.same_view, pin)

  found_seat :
      (p : Pool L D) (id : ℕ) (x : Pool L D × Result BufferError ℕ)
      → lookup id p.page_table ≡ none
      → FoundKeeps L D p x
      → Accesses p id (seat_in L D id false x)
  unfolding seat_in
  found_seat p id (q, ok idx) absent (k, vacant) = found_read p q id idx _ absent refl k vacant
  found_seat p id (q, err e) absent k = (k.sound, k.same_view)

  install_page-Accesses :
      (p : Pool L D) (id : ℕ)
      → IsSound L D p
      → IsClocked L D p
      → lookup id p.page_table ≡ none
      → Accesses p id (install_page L D p id false)
  unfolding install_page find_victim
  install_page-Accesses p id s c absent = found_seat p id _ absent (sweep-Keeps L D _ p s c)

  hit-Accesses :
      (p : Pool L D) (s : IsSound L D p) (id idx : ℕ)
      → lookup id p.page_table ≡ some idx
      → Accesses p id (set_frame p idx (pinned_again (p.frames idx)), ok idx)
  unfolding set_frame pinned_again
  hit-Accesses p s id idx at =
      let k = framed L D p idx (pinned_again (p.frames idx)) s refl refl refl refl in
      (
        k.sound,
        k.same_view,
        ground (arith, s.seated_at id idx at),
        content_framed L D p idx (pinned_again (p.frames idx)) refl idx
            ∙ sym (view-cached L D p id idx at),
        ground arith,
      )

  miss :
      (p : Pool L D) (id : ℕ)
      → lookup id p.page_table ≡ none
      → pin_for_access L D p id ≡ install_page L D p id false
  unfolding pin_for_access
  miss p id absent = rw (absent, pin_for_access)

  hit :
      (p : Pool L D) (id idx : ℕ)
      → lookup id p.page_table ≡ some idx
      → (p.frames idx).page_id ≡ some id
      → pin_for_access L D p id ≡ (set_frame p idx (pinned_again (p.frames idx)), ok idx)
  unfolding pin_for_access same_page
  hit p id idx at here = rw (at, pin_for_access) (ground (arith, here))

  -- An access to a page, whatever it evicts and wherever it fails, keeps the invariant of the
  -- directory and the content of every page; one that succeeds gives the page in a pinned frame,
  -- with the content that it had in the pool or on disk.
  pub pin_for_access-Accesses :
      (p : Pool L D) (id : ℕ)
      → IsSound L D p
      → IsClocked L D p
      → Accesses p id (pin_for_access L D p id)
  pin_for_access-Accesses p id s c = elim (Option-cases (lookup id p.page_table)) [
    | inl absent ↦ rw (miss p id absent) (install_page-Accesses p id s c absent)
    | inr (idx, at) ↦ rw (hit p id idx at (s.seated_at id idx at)) (hit-Accesses p s id idx at)
  ]
