-- ===== src/Storage/Page/Insert.antt =====
-- crates/prism-storage/src/page.rs: valid pages, and the state of one that `insert` has written to.
use prism_db.Common.{
  ℕ, zero, suc, ◌+◌, ◌-◌, ◌<◌, ◌≤◌, ◌≡◌, ◌≢◌, ◌∙◌, refl, List, Option, none, some, length, arith,
}
use prism_db.Storage.Bytes.{Buffer, slice}
use prism_db.Storage.Page.{
  slot_base, slot_count, free_start, free_end, slot_offset, slot_length_field, slot_length,
  find_empty, required, free_space, place,
}
use prism_db.Storage.Page.Place.{
  slot_for, Untouched, slice-place, rd_u16-place, slot_count-append, free_start-append,
}

-- The slots end where the free region begins, and every record lies above the free region.
pub record IsValid (b : Buffer) : Type 0 where
  pub slots_end : free_start b ≡ slot_base (slot_count b)
  pub room : free_start b ≤ free_end b
  pub in_page : free_end b ≤ 8192
  pub live :
      (i : ℕ)
      → i < slot_count b
      → slot_offset b i ≢ 0
      → (free_end b ≤ slot_offset b i) × (slot_offset b i + slot_length b i ≤ 8192)

-- A slot that the search returns is one that is empty.
pub find_empty-some :
    (b : Buffer) (n i j : ℕ)
    → find_empty b n i ≡ some j
    → (i ≤ j) × (j < i + n) × (slot_offset b j ≡ 0)
unfolding find_empty
find_empty-some b zero i j h = cc
find_empty-some b (suc n) i j h = ground (arith, find_empty-some b n (i + 1) j)

-- What `insert` has checked when it writes.
pub record IsRoom (b : Buffer) (rec : List ℕ) (reuse : Option ℕ) : Type 0 where
  pub short : length rec ≤ 8156
  pub fits : required rec reuse ≤ free_space b
  pub empty_slot : (i : ℕ) → reuse ≡ some i → (i < slot_count b) × (slot_offset b i ≡ 0)

abbrev pub count_with : Buffer → Option ℕ → ℕ
count_with b none = slot_count b + 1
count_with b (some _) = slot_count b

module _ (b : Buffer) (rec : List ℕ) (v : IsValid b) where
  open v use {slots_end, room, in_page, live}

  pub count_small : slot_count b < 2041
  count_small = omega (arith, slots_end, room, in_page)

  pub above : (reuse : Option ℕ) → IsRoom b rec reuse → free_start b ≤ free_end b - length rec
  unfolding required free_space
  above none r = omega (arith, r.fits)
  above (some i) r = omega (arith, r.fits)

  pub len_fits : (reuse : Option ℕ) → IsRoom b rec reuse → length rec ≤ free_end b
  unfolding required free_space
  len_fits none r = omega (arith, r.fits)
  len_fits (some i) r = omega (arith, r.fits)

  pub above_slot :
      (reuse : Option ℕ)
      → IsRoom b rec reuse
      → slot_base (slot_for b reuse) + 4 ≤ free_end b - length rec
  unfolding required free_space
  above_slot none r = omega (arith, r.fits, slots_end)
  above_slot (some i) r = omega (arith, above (some i) r, (r.empty_slot i refl).0, slots_end)

  -- The slots but the one that is taken.
  other_slot :
      (reuse : Option ℕ)
      → IsRoom b rec reuse
      → (j : ℕ) → j < slot_count b
      → j ≢ slot_for b reuse
      → Untouched b rec reuse (slot_base j) 2 × Untouched b rec reuse (slot_base j + 2) 2
  other_slot none r j lt ne = (
    (omega arith, omega arith, omega (arith, above none r, slots_end)),
    (omega arith, omega arith, omega (arith, above none r, slots_end)),
  )
  other_slot (some i) r j lt ne = (
    (omega arith, grind arith, omega (arith, above (some i) r, slots_end)),
    (omega arith, grind arith, omega (arith, above (some i) r, slots_end)),
  )

  pub offset_kept :
      (reuse : Option ℕ)
      → IsRoom b rec reuse
      → (j : ℕ) → j < slot_count b
      → j ≢ slot_for b reuse
      → slot_offset (place b rec reuse).0 j ≡ slot_offset b j
  unfolding slot_offset
  offset_kept reuse r j lt ne = rd_u16-place b rec reuse _ (other_slot reuse r j lt ne).0

  pub length_kept :
      (reuse : Option ℕ)
      → IsRoom b rec reuse
      → (j : ℕ) → j < slot_count b
      → j ≢ slot_for b reuse
      → slot_length (place b rec reuse).0 j ≡ slot_length b j
  unfolding slot_length slot_length_field
  length_kept reuse r j lt ne =
      ground (arith, rd_u16-place b rec reuse _ (other_slot reuse r j lt ne).1)

  -- The bytes of the records that were there.
  pub bytes_kept :
      (reuse : Option ℕ)
      → IsRoom b rec reuse
      → (off n : ℕ) → free_end b ≤ off
      → slice (place b rec reuse).0 off n ≡ slice b off n
  bytes_kept none r off n h = slice-place b rec none off n (
    omega (arith, above_slot none r, len_fits none r),
    omega (arith, above_slot none r, len_fits none r),
    omega (arith, len_fits none r),
  )
  bytes_kept (some i) r off n h = slice-place b rec (some i) off n (
    omega (arith, above_slot (some i) r, len_fits (some i) r),
    omega (arith, above_slot (some i) r, len_fits (some i) r),
    omega (arith, len_fits (some i) r),
  )

  pub count-place :
      (reuse : Option ℕ)
      → IsRoom b rec reuse
      → slot_count (place b rec reuse).0 ≡ count_with b reuse
  count-place none r =
      slot_count-append b rec (omega arith) (len_fits none r) (omega (arith, count_small))
  count-place (some i) r =
      unfold slot_count in
      rd_u16-place b rec (some i) 18
        (omega arith, omega arith, omega (arith, above (some i) r, slots_end))

  pub start-place :
      (reuse : Option ℕ)
      → IsRoom b rec reuse
      → free_start (place b rec reuse).0 ≡ slot_base (slot_count (place b rec reuse).0)
  start-place none r =
      rw (count-place none r)
        (free_start-append b rec (omega arith) (len_fits none r) (omega (arith, count_small)))
  start-place (some i) r = rw (count-place (some i) r) (
      unfold free_start in
      rd_u16-place b rec (some i) 14
        (omega arith, omega arith, omega (arith, above (some i) r, slots_end))
      ∙ slots_end)
