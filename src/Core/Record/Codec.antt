-- ===== src/Core/Record/Codec.antt =====
-- crates/prism-core/src/record.rs: record ids and headers, encoded and decoded.
use prism_db.Common.{
  ℕ, ◌+◌, ◌-◌, ◌%◌, ◌^◌, ◌*◌, ◌/◌, ◌<◌, ◌≤◌, ◌≡◌, inl, inr, ◌∙◌, refl, ap, bit_or, true, false,
  List, [], ◌∷◌, ◌++◌, Option, none, some, length, take, drop, arith, append_assoc, append-nil,
  length-append, take-append, drop-append, drop-append_add, Bool-cases, ltb-false,
}
use prism_db.Common.Bytes.{IsU16, IsU32, IsU64, to_le, from_le, length-to_le, from_le-to_le}
use prism_db.Common.Bits.{clear_low_bit, set_low_bit}
use prism_db.Core.Record.{
  RecordId, RecordHeader, nil6, same_bytes, encode6, decode6, stored_flags, encode, decode,
}

same_bytes→eq : (xs ys : List ℕ) → same_bytes xs ys ≡ true → xs ≡ ys
unfolding same_bytes
same_bytes→eq [] [] h = refl
same_bytes→eq [] (y ∷ ys) h = cc
same_bytes→eq (x ∷ xs) [] h = cc
same_bytes→eq (x ∷ xs) (y ∷ ys) h = ground (arith, same_bytes→eq xs ys)

-- A previous version that six bytes can hold: a 32-bit page, and not the NIL pattern.
abbrev pub IsStorable : Option RecordId → Type 0
IsStorable none = Unit
IsStorable (some rid) =
    IsU32 rid.page × IsU16 rid.slot × (rid.page + rid.slot < 2 ^ 32 - 1 + (2 ^ 16 - 1))

pub length-encode6 : (o : Option RecordId) → length (encode6 o) ≡ 6
unfolding encode6
length-encode6 none = refl
length-encode6 (some rid) = omega (
  arith,
  length-append (to_le 4 (rid.page % 2 ^ 32)) (to_le 2 rid.slot),
  length-to_le 4 (rid.page % 2 ^ 32),
  length-to_le 2 rid.slot,
)

module _ (rid : RecordId) (hp : IsU32 rid.page) (hs : IsU16 rid.slot) where
  page_bytes : from_le (take 4 (to_le 4 (rid.page % 2 ^ 32) ++ to_le 2 rid.slot)) ≡ rid.page
  page_bytes =
      ap from_le (take-append 4 (to_le 4 (rid.page % 2 ^ 32)) (to_le 2 rid.slot) (length-to_le 4 _))
      ∙ from_le-to_le 4 (rid.page % 2 ^ 32) (omega arith)
      ∙ omega arith

  slot_tail : drop 4 (to_le 4 (rid.page % 2 ^ 32) ++ to_le 2 rid.slot) ≡ to_le 2 rid.slot
  slot_tail = drop-append 4 (to_le 4 (rid.page % 2 ^ 32)) (to_le 2 rid.slot) (length-to_le 4 _)

  slot_bytes :
      from_le (take 2 (drop 4 (to_le 4 (rid.page % 2 ^ 32) ++ to_le 2 rid.slot))) ≡ rid.slot
  slot_bytes =
      ap (λ b. from_le (take 2 b)) slot_tail
      ∙ rw (← append-nil (to_le 2 rid.slot)) (
          ap from_le (take-append 2 (to_le 2 rid.slot) [] (length-to_le 2 _))
          ∙ from_le-to_le 2 rid.slot hs)

  not_nil :
      rid.page + rid.slot < 2 ^ 32 - 1 + (2 ^ 16 - 1)
      → same_bytes (to_le 4 (rid.page % 2 ^ 32) ++ to_le 2 rid.slot) nil6 ≡ false
  unfolding from_le
  not_nil h =
      elim (Bool-cases (same_bytes (to_le 4 (rid.page % 2 ^ 32) ++ to_le 2 rid.slot) nil6)) [
        | inl e ↦ absurd (
            omega (
              arith,
              page_bytes,
              slot_bytes,
              ap (λ b. from_le (take 4 b)) (same_bytes→eq _ _ e),
              ap (λ b. from_le (take 2 (drop 4 b))) (same_bytes→eq _ _ e),
            ))
        | inr e ↦ e
      ]

-- The six bytes of a previous version are read back.
pub decode6-encode6 : (o : Option RecordId) → IsStorable o → decode6 (encode6 o) ≡ o
unfolding encode6 decode6
decode6-encode6 none h = unfold same_bytes in refl
decode6-encode6 (some rid) (hp, hs, h) =
    rw (not_nil rid hp hs h, page_bytes rid hp hs, slot_bytes rid hp hs, decode6)

abbrev pub has_prev : Option RecordId → ℕ
has_prev none = 0
has_prev (some _) = 1

has_prev-le : (o : Option RecordId) → has_prev o ≤ 1
has_prev-le none = omega arith
has_prev-le (some _) = omega arith

-- The flags that are stored: the given ones, with the low bit saying whether there is a previous
-- version.
pub stored_flags_lem :
    (flags : ℕ) (o : Option RecordId)
    → IsU16 flags
    → stored_flags flags o ≡ flags / 2 * 2 + has_prev o
unfolding stored_flags
stored_flags_lem flags none h = clear_low_bit flags h ∙ omega arith
stored_flags_lem flags (some rid) h =
    ap (λ x. bit_or x 1) (clear_low_bit flags h) ∙ set_low_bit (flags / 2) (omega arith)

abbrev pub IsStorableHeader : RecordHeader → Type 0
IsStorableHeader h = IsU64 h.xmin × IsU64 h.xmax × IsStorable h.prev_version × IsU16 h.flags

module _ (h : RecordHeader) (payload : List ℕ) where
  abbrev stored : ℕ
  stored = stored_flags h.flags h.prev_version

  abbrev laid_out : List ℕ
  laid_out =
      to_le 8 h.xmin ++ (to_le 8 h.xmax ++ (encode6 h.prev_version ++ (to_le 2 stored ++ payload)))

  encode-append : encode h ++ payload ≡ laid_out
  unfolding encode
  encode-append = simp append_assoc

  tail_8 :
      drop 8 laid_out ≡ to_le 8 h.xmax ++ (encode6 h.prev_version ++ (to_le 2 stored ++ payload))
  tail_8 = drop-append 8 (to_le 8 h.xmin) _ (length-to_le 8 h.xmin)

  tail_16 : drop 16 laid_out ≡ encode6 h.prev_version ++ (to_le 2 stored ++ payload)
  tail_16 =
      drop-append_add 8 8 (to_le 8 h.xmin) _ (length-to_le 8 h.xmin)
      ∙ drop-append 8 (to_le 8 h.xmax) _ (length-to_le 8 h.xmax)

  tail_22 : drop 22 laid_out ≡ to_le 2 stored ++ payload
  tail_22 =
      drop-append_add 8 14 (to_le 8 h.xmin) _ (length-to_le 8 h.xmin)
      ∙ drop-append_add 8 6 (to_le 8 h.xmax) _ (length-to_le 8 h.xmax)
      ∙ drop-append 6 (encode6 h.prev_version) _ (length-encode6 h.prev_version)

  pub length-encode : length (encode h ++ payload) ≡ 24 + length payload
  length-encode = omega (
    arith,
    ap length encode-append,
    length-append (to_le 8 h.xmin)
        (to_le 8 h.xmax ++ (encode6 h.prev_version ++ (to_le 2 stored ++ payload))),
    length-append (to_le 8 h.xmax) (encode6 h.prev_version ++ (to_le 2 stored ++ payload)),
    length-append (encode6 h.prev_version) (to_le 2 stored ++ payload),
    length-append (to_le 2 stored) payload,
    length-to_le 8 h.xmin,
    length-to_le 8 h.xmax,
    length-encode6 h.prev_version,
    length-to_le 2 stored,
  )

  xmin_field : IsU64 h.xmin → from_le (take 8 laid_out) ≡ h.xmin
  xmin_field b =
      ap from_le (take-append 8 (to_le 8 h.xmin) _ (length-to_le 8 h.xmin))
      ∙ from_le-to_le 8 h.xmin b

  xmax_field : IsU64 h.xmax → from_le (take 8 (drop 8 laid_out)) ≡ h.xmax
  xmax_field b =
      ap (λ l. from_le (take 8 l)) tail_8
      ∙ ap from_le (take-append 8 (to_le 8 h.xmax) _ (length-to_le 8 h.xmax))
      ∙ from_le-to_le 8 h.xmax b

  prev_field : IsStorable h.prev_version → decode6 (take 6 (drop 16 laid_out)) ≡ h.prev_version
  prev_field b =
      ap (λ l. decode6 (take 6 l)) tail_16
      ∙ ap decode6 (take-append 6 (encode6 h.prev_version) _ (length-encode6 h.prev_version))
      ∙ decode6-encode6 h.prev_version b

  stored_fits : IsU16 h.flags → stored < 2 ^ 16
  stored_fits b =
      omega (arith, stored_flags_lem h.flags h.prev_version b, has_prev-le h.prev_version)

  flags_field :
      IsU16 h.flags
      → from_le (take 2 (drop 22 laid_out)) ≡ h.flags / 2 * 2 + has_prev h.prev_version
  flags_field b =
      ap (λ l. from_le (take 2 l)) tail_22
      ∙ ap from_le (take-append 2 (to_le 2 stored) payload (length-to_le 2 stored))
      ∙ from_le-to_le 2 stored (stored_fits b)
      ∙ stored_flags_lem h.flags h.prev_version b

  -- A header is read back from the front of a record, whatever its payload: both transaction ids,
  -- the previous version, and the flags with the low bit brought in line with it.
  pub decode-encode :
      IsStorableHeader h
      → decode (encode h ++ payload)
        ≡ some (record h { flags = h.flags / 2 * 2 + has_prev h.prev_version })
  unfolding decode
  decode-encode (hn, hx, hp, hf) = rw encode-append (
      simp (
        ltb-false (length laid_out) 24 (omega (arith, length-encode, ap length encode-append)),
        xmin_field hn,
        xmax_field hx,
        prev_field hp,
        flags_field hf,
      ))
