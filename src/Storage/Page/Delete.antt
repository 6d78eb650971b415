-- ===== src/Storage/Page/Delete.antt =====
-- crates/prism-storage/src/page.rs: `delete` against the map from slots to records.
use prism_db.Common.{
  ℕ, ◌+◌, ◌<◌, ◌≤◌, ◌≡◌, ◌≢◌, ◌⊎◌, inl, inr, refl, sym, none, arith, true, false, ℕ_discrete,
  dec_lt, ◌↔◌, Bool,
}
use prism_db.Storage.Bytes.{Buffer}
use prism_db.Storage.Page.{
  slot_base, slot_count, free_start, free_end, slot_offset, slot_length_field, slot_length,
  record_at, range_of, delete, set_slot,
}
use prism_db.Storage.Page.Place.{slice-set_slot, rd_u16-set_slot-Apart, slot_offset-set_slot}
use prism_db.Storage.Page.Insert.{IsValid}

module _ (b : Buffer) (i : ℕ) where
  count_kept : slot_count (set_slot b i 0 0) ≡ slot_count b
  unfolding slot_count
  count_kept = rd_u16-set_slot-Apart b i 0 0 18 (omega arith)

  start_kept : free_start (set_slot b i 0 0) ≡ free_start b
  unfolding free_start
  start_kept = rd_u16-set_slot-Apart b i 0 0 14 (omega arith)

  end_kept : free_end (set_slot b i 0 0) ≡ free_end b
  unfolding free_end
  end_kept = rd_u16-set_slot-Apart b i 0 0 16 (omega arith)

  offset_cleared : slot_offset (set_slot b i 0 0) i ≡ 0
  offset_cleared = slot_offset-set_slot b i 0 0 (omega arith)

  offset_kept : (j : ℕ) → j ≢ i → slot_offset (set_slot b i 0 0) j ≡ slot_offset b j
  unfolding slot_offset
  offset_kept j ne = rd_u16-set_slot-Apart b i 0 0 (slot_base j) (grind arith)

  length_kept : (j : ℕ) → j ≢ i → slot_length (set_slot b i 0 0) j ≡ slot_length b j
  unfolding slot_length slot_length_field
  length_kept j ne = ground (arith, rd_u16-set_slot-Apart b i 0 0 (slot_base j + 2) (grind arith))

  module _ (v : IsValid b) (below : i < slot_count b) where
    open v use {slots_end, room, in_page, live}

    cleared_live :
        (j : ℕ)
        → j < slot_count (set_slot b i 0 0)
        → slot_offset (set_slot b i 0 0) j ≢ 0
        → (free_end (set_slot b i 0 0) ≤ slot_offset (set_slot b i 0 0) j)
          × (slot_offset (set_slot b i 0 0) j + slot_length (set_slot b i 0 0) j ≤ 8192)
    cleared_live j lt ne = elim (ℕ_discrete j i) [
      | yes e ↦ absurd (ne (rw e offset_cleared))
      | no other ↦
          rw (end_kept, offset_kept j other, length_kept j other)
            (live j (rw (sym count_kept) lt) (rw (sym (offset_kept j other)) ne))
    ]

    cleared-IsValid : IsValid (set_slot b i 0 0)
    cleared-IsValid = record {
      slots_end = rw (start_kept, count_kept) slots_end;
      room = rw (start_kept, end_kept) room;
      in_page = rw end_kept in_page;
      live = cleared_live;
    }

    cleared_other : (j : ℕ) → j ≢ i → record_at (set_slot b i 0 0) j ≡ record_at b j
    unfolding record_at range_of
    cleared_other j ne =
        rw (count_kept, offset_kept j ne, length_kept j ne)
          (elim (dec_lt j (slot_count b)) [
            | no after ↦ ground arith
            | yes before ↦ elim (ℕ_discrete (slot_offset b j) 0) [
              | yes gone ↦ ground arith
              | no used ↦ ground (
                arith,
                live j before used,
                slots_end,
                room,
                slice-set_slot b i 0 0 (slot_offset b j) (slot_length b j)
                    (omega (arith, live j before used, slots_end, room)),
              )
            ]
          ])

    cleared_none : record_at (set_slot b i 0 0) i ≡ none
    unfolding record_at
    cleared_none = ground (arith, offset_cleared)

    live_some : slot_offset b i ≢ 0 → record_at b i ≢ none
    unfolding record_at range_of
    live_some used = ground (arith, live i below used)

deleted :
    (b : Buffer) (id : ℕ)
    → id < slot_count b
    → slot_offset b id ≢ 0
    → delete b id ≡ (set_slot b id 0 0, true)
unfolding delete
deleted b id below used = ground arith

not_deleted :
    (b : Buffer) (id : ℕ) → (slot_count b ≤ id) ⊎ (slot_offset b id ≡ 0) → delete b id ≡ (b, false)
unfolding delete
not_deleted b id (inl h) = ground arith
not_deleted b id (inr h) = ground arith

absent_none :
    (b : Buffer) (id : ℕ) → (slot_count b ≤ id) ⊎ (slot_offset b id ≡ 0) → record_at b id ≡ none
unfolding record_at
absent_none b id (inl h) = ground arith
absent_none b id (inr h) = ground arith

-- What a delete promises: the page after it, and the answer.
abbrev pub Deletes : Buffer → ℕ → Buffer × Bool → Type 0
Deletes b id (b', answer) =
    IsValid b'
    × (record_at b' id ≡ none)
    × ((j : ℕ) → j ≢ id → record_at b' j ≡ record_at b j)
    × ((answer ≡ true) ↔ (record_at b id ≢ none))

absent-Deletes :
    (b : Buffer) (id : ℕ)
    → IsValid b
    → (slot_count b ≤ id) ⊎ (slot_offset b id ≡ 0)
    → Deletes b id (b, false)
absent-Deletes b id v h = (
  v,
  absent_none b id h,
  (λ j ne. refl),
  ((λ e. absurd cc), (λ ne. absurd (ne (absent_none b id h)))),
)

-- A delete keeps a page valid, leaves no record under the id, and keeps what every other id holds;
-- it answers true exactly when the id held a record.
pub delete_lem : (b : Buffer) (id : ℕ) → IsValid b → Deletes b id (delete b id)
delete_lem b id v = elim (dec_lt id (slot_count b)) [
  | no after ↦ rw (not_deleted b id (inl (omega arith))) (absent-Deletes b id v (inl (omega arith)))
  | yes below ↦ elim (ℕ_discrete (slot_offset b id) 0) [
    | yes gone ↦ rw (not_deleted b id (inr gone)) (absent-Deletes b id v (inr gone))
    | no used ↦ rw (deleted b id below used) (
      cleared-IsValid b id v below,
      cleared_none b id v below,
      cleared_other b id v below,
      ((λ e. live_some b id v below used), (λ ne. refl)),
    )
  ]
]
