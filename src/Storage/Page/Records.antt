-- ===== src/Storage/Page/Records.antt =====
-- crates/prism-storage/src/page.rs: `insert` against the map from slots to records.
use prism_db.Common.{
  ℕ, ◌+◌, ◌-◌, ◌<◌, ◌≤◌, ◌≡◌, ◌≢◌, ◌∙◌, refl, ap, sym, List, Option, none, some, length, arith,
  ℕ_discrete, dec_lt,
}
use prism_db.Common.Bits.{low_15_bits}
use prism_db.Storage.Bytes.{Buffer}
use prism_db.Storage.Page.{
  slot_base, slot_count, free_end, slot_offset, slot_length, record_at, range_of, find_empty,
  required, free_space, place, insert, max_record_len,
}
use prism_db.Storage.Page.Place.{
  slot_for, slot-place, free_end-place, offset-place, length_field-place, record-place,
}
use prism_db.Storage.Page.Insert.{
  IsValid, IsRoom, find_empty-some, count_with, above, len_fits, above_slot, offset_kept,
  length_kept, bytes_kept, count-place, start-place,
}

slot_counted :
    (b : Buffer) (rec : List ℕ) (reuse : Option ℕ)
    → IsRoom b rec reuse
    → slot_for b reuse < count_with b reuse
slot_counted b rec none r = omega arith
slot_counted b rec (some i) r = (r.empty_slot i refl).0

was_counted :
    (b : Buffer) (reuse : Option ℕ) (j : ℕ)
    → j < count_with b reuse
    → j ≢ slot_for b reuse
    → j < slot_count b
was_counted b none j h ne = omega arith
was_counted b (some i) j h ne = h

still_counted : (b : Buffer) (reuse : Option ℕ) (j : ℕ) → j < slot_count b → j < count_with b reuse
still_counted b none j h = omega arith
still_counted b (some i) j h = h

room_after :
    (b : Buffer) (rec : List ℕ) (reuse : Option ℕ)
    → IsValid b
    → IsRoom b rec reuse
    → slot_base (count_with b reuse) ≤ free_end b - length rec
room_after b rec none v r = omega (arith, above_slot b rec v none r)
room_after b rec (some i) v r = omega (arith, above b rec v (some i) r, v.slots_end)

module _ (b : Buffer) (rec : List ℕ) (v : IsValid b) (reuse : Option ℕ)
    (r : IsRoom b rec reuse) where
  open v use {slots_end, room, in_page, live}

  end_place : free_end (place b rec reuse).0 ≡ free_end b - length rec
  end_place = free_end-place b rec (omega (arith, in_page)) (len_fits b rec v reuse r) reuse

  new_offset : slot_offset (place b rec reuse).0 (slot_for b reuse) ≡ free_end b - length rec
  new_offset = offset-place b rec (omega (arith, in_page)) (len_fits b rec v reuse r) reuse

  new_length : slot_length (place b rec reuse).0 (slot_for b reuse) ≡ length rec
  unfolding slot_length
  new_length =
      rw (length_field-place b rec (omega (arith, in_page)) (len_fits b rec v reuse r) reuse)
        (low_15_bits (length rec) (omega (arith, r.short)) ∙ omega (arith, r.short))

  live_after :
      (j : ℕ)
      → j < slot_count (place b rec reuse).0
      → slot_offset (place b rec reuse).0 j ≢ 0
      → (free_end (place b rec reuse).0 ≤ slot_offset (place b rec reuse).0 j)
        × (slot_offset (place b rec reuse).0 j + slot_length (place b rec reuse).0 j ≤ 8192)
  live_after j lt ne = elim (ℕ_discrete j (slot_for b reuse)) [
    | yes e ↦
        rw (e, end_place, new_offset, new_length)
          (omega arith, omega (arith, len_fits b rec v reuse r, in_page))
    | no other ↦
        let before : j < slot_count b =
          was_counted b reuse j (rw (sym (count-place b rec v reuse r)) lt) other in
        rw
          (
            end_place,
            offset_kept b rec v reuse r j before other,
            length_kept b rec v reuse r j before other,
          )
          (let (low, high) =
              live j before (rw (sym (offset_kept b rec v reuse r j before other)) ne) in
            (omega arith, high))
  ]

  pub place-IsValid : IsValid (place b rec reuse).0
  place-IsValid = record {
    slots_end = start-place b rec v reuse r;
    room =
        rw (end_place, start-place b rec v reuse r, count-place b rec v reuse r)
          (room_after b rec reuse v r);
    in_page = rw end_place (omega (arith, in_page));
    live = live_after;
  }

  pub record_at-place_new : record_at (place b rec reuse).0 (slot_for b reuse) ≡ some rec
  unfolding record_at range_of
  record_at-place_new =
      rw (count-place b rec v reuse r, new_offset, new_length)
        (ground (
          arith,
          slot_counted b rec reuse r,
          above_slot b rec v reuse r,
          in_page,
          len_fits b rec v reuse r,
          record-place b rec (omega (arith, in_page)) (len_fits b rec v reuse r)
              (above b rec v reuse r) reuse (above_slot b rec v reuse r),
        ))

  pub record_at-place_other :
      (j : ℕ) → j ≢ slot_for b reuse → record_at (place b rec reuse).0 j ≡ record_at b j
  unfolding record_at range_of
  record_at-place_other j other = elim (dec_lt j (slot_count b)) [
    | yes before ↦
        let counted = still_counted b reuse j before in
        rw
          (
            count-place b rec v reuse r,
            offset_kept b rec v reuse r j before other,
            length_kept b rec v reuse r j before other,
          )
          (elim (ℕ_discrete (slot_offset b j) 0) [
            | yes gone ↦ ground (arith, counted)
            | no used ↦ ground (
              arith,
              counted,
              bytes_kept b rec v reuse r (slot_offset b j) (slot_length b j) (live j before used).0,
            )
          ])
    | no after ↦ ground (arith, was_counted b reuse j, count-place b rec v reuse r)
  ]

-- The checks of `insert` give the room.
insert-IsRoom :
    (b : Buffer) (rec : List ℕ)
    → length rec ≤ max_record_len
    → required rec (find_empty b (slot_count b) 0) ≤ free_space b
    → IsRoom b rec (find_empty b (slot_count b) 0)
insert-IsRoom b rec short fits = record {
  short = short;
  fits = fits;
  empty_slot =
      λ i e. let (_, below, gone) = find_empty-some b (slot_count b) 0 i e in (omega arith, gone);
}

-- The slot that is taken held no record.
record_at-slot_for :
    (b : Buffer) (rec : List ℕ) (reuse : Option ℕ)
    → IsRoom b rec reuse
    → record_at b (slot_for b reuse) ≡ none
unfolding record_at
record_at-slot_for b rec none r = ground arith
record_at-slot_for b rec (some i) r = ground (arith, r.empty_slot i refl)

insert-some :
    (b : Buffer) (rec : List ℕ) (b' : Buffer) (id : ℕ)
    → insert b rec ≡ some (b', id)
    → (length rec ≤ max_record_len)
      × (required rec (find_empty b (slot_count b) 0) ≤ free_space b)
      × ((b', id) ≡ place b rec (find_empty b (slot_count b) 0))
unfolding insert
insert-some b rec b' id e = ground arith

-- An insert into a valid page that returns an id leaves a valid page; the id held no record before
-- and holds the inserted bytes after, and every other id keeps what it held.
pub insert_lem :
    (b : Buffer) (rec : List ℕ) (b' : Buffer) (id : ℕ)
    → IsValid b
    → insert b rec ≡ some (b', id)
    → IsValid b'
      × (record_at b id ≡ none)
      × (record_at b' id ≡ some rec)
      × ((j : ℕ) → j ≢ id → record_at b' j ≡ record_at b j)
insert_lem b rec b' id v e =
    let (short, fits, placed) = insert-some b rec b' id e in
    let reuse = find_empty b (slot_count b) 0 in
    let r = insert-IsRoom b rec short fits in
    let at : id ≡ slot_for b reuse =
      ap (λ p. p.1) placed
      ∙ slot-place b rec (omega (arith, v.in_page)) (len_fits b rec v reuse r) reuse in
    rw (at, ap (λ p. p.0) placed)
      (
        place-IsValid b rec v reuse r,
        record_at-slot_for b rec reuse r,
        record_at-place_new b rec v reuse r,
        record_at-place_other b rec v reuse r,
      )
