-- ===== src/Storage/Page/Place.antt =====
-- crates/prism-storage/src/page.rs: what the writes of `insert` change, and what they leave.
use prism_db.Common.{
  ℕ, ◌+◌, ◌-◌, ◌<◌, ◌≤◌, ◌^◌, ◌≡◌, ◌∙◌, refl, ap, List, Option, none, some, length, arith,
}
use prism_db.Common.Bytes.{IsU16, from_le}
use prism_db.Storage.Bytes.{
  Buffer, slice, rd_u16, Apart, slice-copy_self, slice-copy-Apart, slice-wr_u16, rd_u16-wr_u16,
  rd_u16-wr_u16-Apart,
}
use prism_db.Storage.Page.{
  slot_base, slot_count, free_start, free_end, slot_offset, slot_length_field, set_slot, claim_slot,
  place,
}

pub slice-set_slot :
    (b : Buffer) (i o l a n : ℕ)
    → Apart a n (slot_base i) 4
    → slice (set_slot b i o l) a n ≡ slice b a n
unfolding set_slot
slice-set_slot b i o l a n h =
    slice-wr_u16 _ (slot_base i + 2) l a n (omega arith)
    ∙ slice-wr_u16 b (slot_base i) o a n (omega arith)

pub rd_u16-set_slot-Apart :
    (b : Buffer) (i o l a : ℕ)
    → Apart a 2 (slot_base i) 4
    → rd_u16 (set_slot b i o l) a ≡ rd_u16 b a
unfolding rd_u16
rd_u16-set_slot-Apart b i o l a h = ap from_le (slice-set_slot b i o l a 2 h)

pub slot_offset-set_slot : (b : Buffer) (i o l : ℕ) → IsU16 o → slot_offset (set_slot b i o l) i ≡ o
unfolding slot_offset set_slot
slot_offset-set_slot b i o l h =
    rd_u16-wr_u16-Apart _ (slot_base i + 2) l (slot_base i) (omega arith)
    ∙ rd_u16-wr_u16 b (slot_base i) o h

pub slot_length_field-set_slot :
    (b : Buffer) (i o l : ℕ) → IsU16 l → slot_length_field (set_slot b i o l) i ≡ l
unfolding slot_length_field set_slot
slot_length_field-set_slot b i o l h = rd_u16-wr_u16 _ (slot_base i + 2) l h

-- A range that no write of `insert` touches.
abbrev pub Untouched : Buffer → List ℕ → Option ℕ → ℕ → ℕ → Type 0
Untouched b rec none a n =
    Apart a n 14 6
    × Apart a n (slot_base (slot_count b)) 4
    × Apart a n (free_end b - length rec) (length rec)
Untouched b rec (some i) a n =
    Apart a n 16 2 × Apart a n (slot_base i) 4 × Apart a n (free_end b - length rec) (length rec)

pub slice-place :
    (b : Buffer) (rec : List ℕ) (reuse : Option ℕ) (a n : ℕ)
    → Untouched b rec reuse a n
    → slice (place b rec reuse).0 a n ≡ slice b a n
unfolding place claim_slot
slice-place b rec none a n (h, hs, hr) =
    slice-wr_u16 _ 16 _ a n (omega arith)
    ∙ slice-set_slot _ (slot_count b) _ _ a n hs
    ∙ slice-wr_u16 _ 14 _ a n (omega arith)
    ∙ slice-wr_u16 _ 18 _ a n (omega arith)
    ∙ slice-copy-Apart b _ rec a n hr
slice-place b rec (some i) a n (h, hs, hr) =
    slice-wr_u16 _ 16 _ a n h ∙ slice-set_slot _ i _ _ a n hs ∙ slice-copy-Apart b _ rec a n hr

pub rd_u16-place :
    (b : Buffer) (rec : List ℕ) (reuse : Option ℕ) (a : ℕ)
    → Untouched b rec reuse a 2
    → rd_u16 (place b rec reuse).0 a ≡ rd_u16 b a
unfolding rd_u16
rd_u16-place b rec reuse a h = ap from_le (slice-place b rec reuse a 2 h)

-- The slot that the record goes to.
abbrev pub slot_for : Buffer → Option ℕ → ℕ
slot_for b none = slot_count b
slot_for b (some i) = i

module _ (b : Buffer) (rec : List ℕ) (end_fits : IsU16 (free_end b))
    (len_fits : length rec ≤ free_end b) where
  pub slot-place : (reuse : Option ℕ) → (place b rec reuse).1 ≡ slot_for b reuse
  unfolding place claim_slot
  slot-place none = refl
  slot-place (some i) = refl

  pub free_end-place : (reuse : Option ℕ) → free_end (place b rec reuse).0 ≡ free_end b - length rec
  unfolding place free_end
  free_end-place reuse = rd_u16-wr_u16 _ 16 _ (omega arith)

  pub offset-place :
      (reuse : Option ℕ)
      → slot_offset (place b rec reuse).0 (slot_for b reuse) ≡ free_end b - length rec
  unfolding place slot_offset claim_slot
  offset-place none =
      rd_u16-wr_u16-Apart _ 16 _ (slot_base (slot_count b)) (omega arith)
      ∙ slot_offset-set_slot _ (slot_count b) (free_end b - length rec) (length rec) (omega arith)
  offset-place (some i) =
      rd_u16-wr_u16-Apart _ 16 _ (slot_base i) (omega arith)
      ∙ slot_offset-set_slot _ i (free_end b - length rec) (length rec) (omega arith)

  pub length_field-place :
      (reuse : Option ℕ) → slot_length_field (place b rec reuse).0 (slot_for b reuse) ≡ length rec
  unfolding place slot_length_field claim_slot
  length_field-place none =
      rd_u16-wr_u16-Apart _ 16 _ (slot_base (slot_count b) + 2) (omega arith)
      ∙ slot_length_field-set_slot _ (slot_count b) (free_end b - length rec) (length rec)
          (omega arith)
  length_field-place (some i) =
      rd_u16-wr_u16-Apart _ 16 _ (slot_base i + 2) (omega arith)
      ∙ slot_length_field-set_slot _ i (free_end b - length rec) (length rec) (omega arith)

  -- The room that the record is written to, above the slots.
  module _ (room : free_start b ≤ free_end b - length rec) where
    pub record-place :
        (reuse : Option ℕ)
        → slot_base (slot_for b reuse) + 4 ≤ free_end b - length rec
        → slice (place b rec reuse).0 (free_end b - length rec) (length rec) ≡ rec
    unfolding place claim_slot
    record-place none h =
        slice-wr_u16 _ 16 _ _ _ (omega arith)
        ∙ slice-set_slot _ (slot_count b) _ _ _ _ (omega arith)
        ∙ slice-wr_u16 _ 14 _ _ _ (omega arith)
        ∙ slice-wr_u16 _ 18 _ _ _ (omega arith)
        ∙ slice-copy_self b _ rec
    record-place (some i) h =
        slice-wr_u16 _ 16 _ _ _ (omega arith)
        ∙ slice-set_slot _ i _ _ _ _ (omega arith)
        ∙ slice-copy_self b _ rec

  pub slot_count-append :
      slot_count b < 2 ^ 16 - 1 → slot_count (place b rec none).0 ≡ slot_count b + 1
  unfolding place slot_count claim_slot
  slot_count-append h =
      rd_u16-wr_u16-Apart _ 16 _ 18 (omega arith)
      ∙ rd_u16-set_slot-Apart _ (slot_count b) _ _ 18 (omega arith)
      ∙ rd_u16-wr_u16-Apart _ 14 _ 18 (omega arith)
      ∙ rd_u16-wr_u16 _ 18 (slot_count b + 1) (omega arith)

  pub free_start-append :
      slot_count b < 2 ^ 13 → free_start (place b rec none).0 ≡ slot_base (slot_count b + 1)
  unfolding place free_start claim_slot
  free_start-append h =
      rd_u16-wr_u16-Apart _ 16 _ 14 (omega arith)
      ∙ rd_u16-set_slot-Apart _ (slot_count b) _ _ 14 (omega arith)
      ∙ rd_u16-wr_u16 _ 14 (slot_base (slot_count b + 1)) (omega arith)
