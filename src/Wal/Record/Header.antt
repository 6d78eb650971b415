-- ===== src/Wal/Record/Header.antt =====
-- crates/prism-wal/src/record.rs: where the fields of a frame header stand.
use prism_db.Common.{
  ℕ, ◌+◌, ◌%◌, ◌^◌, ◌≡◌, ap, ◌∙◌, List, [], ◌∷◌, ◌++◌, length, arith, append_assoc, append-nil,
  take, drop, length-append, take-append, drop-append, drop-append_add,
}
use prism_db.Common.Bytes.{IsU32, IsU64, to_le, from_le, length-to_le, from_le-to_le}
use prism_db.Common.Crc.{Crc32}
use prism_db.Wal.Fields.{put_u32, put_u64, push}
use prism_db.Wal.Record.{byte_at, get_u32, get_u64, assemble_frame}

-- The header, as the bytes at their offsets.
abbrev pub header : ℕ → ℕ → ℕ → ℕ → ℕ → List ℕ → List ℕ
header lsn len rtype txn_id prev_lsn rest =
    to_le 8 lsn
    ++ (to_le 4 len ++ (rtype ∷ 0 ∷ 0 ∷ 0 ∷ (to_le 8 txn_id ++ (to_le 8 prev_lsn ++ rest))))

module _ (lsn len rtype txn_id prev_lsn : ℕ) (rest : List ℕ) where
  drop-header_8 :
      drop 8 (header lsn len rtype txn_id prev_lsn rest)
      ≡ to_le 4 len ++ (rtype ∷ 0 ∷ 0 ∷ 0 ∷ (to_le 8 txn_id ++ (to_le 8 prev_lsn ++ rest)))
  drop-header_8 = drop-append 8 (to_le 8 lsn) _ (length-to_le 8 lsn)

  drop-header_12 :
      drop 12 (header lsn len rtype txn_id prev_lsn rest)
      ≡ rtype ∷ 0 ∷ 0 ∷ 0 ∷ (to_le 8 txn_id ++ (to_le 8 prev_lsn ++ rest))
  drop-header_12 =
      drop-append_add 8 4 (to_le 8 lsn) _ (length-to_le 8 lsn)
      ∙ drop-append 4 (to_le 4 len) _ (length-to_le 4 len)

  drop-header_16 :
      drop 16 (header lsn len rtype txn_id prev_lsn rest)
      ≡ to_le 8 txn_id ++ (to_le 8 prev_lsn ++ rest)
  drop-header_16 =
      drop-append_add 8 8 (to_le 8 lsn) _ (length-to_le 8 lsn)
      ∙ drop-append_add 4 4 (to_le 4 len) _ (length-to_le 4 len)

  drop-header_24 : drop 24 (header lsn len rtype txn_id prev_lsn rest) ≡ to_le 8 prev_lsn ++ rest
  drop-header_24 =
      drop-append_add 8 16 (to_le 8 lsn) _ (length-to_le 8 lsn)
      ∙ drop-append_add 4 12 (to_le 4 len) _ (length-to_le 4 len)
      ∙ drop-append 8 (to_le 8 txn_id) _ (length-to_le 8 txn_id)

  pub length-header : length (header lsn len rtype txn_id prev_lsn rest) ≡ 32 + length rest
  length-header = omega (
    arith,
    length-append (to_le 8 lsn)
        (to_le 4 len ++ (rtype ∷ 0 ∷ 0 ∷ 0 ∷ (to_le 8 txn_id ++ (to_le 8 prev_lsn ++ rest)))),
    length-append (to_le 4 len)
        (rtype ∷ 0 ∷ 0 ∷ 0 ∷ (to_le 8 txn_id ++ (to_le 8 prev_lsn ++ rest))),
    length-append (to_le 8 txn_id) (to_le 8 prev_lsn ++ rest),
    length-append (to_le 8 prev_lsn) rest,
    length-to_le 8 lsn,
    length-to_le 4 len,
    length-to_le 8 txn_id,
    length-to_le 8 prev_lsn,
  )

module _ (lsn len rtype txn_id prev_lsn : ℕ) (rest : List ℕ) where
  header-append :
      header lsn len rtype txn_id prev_lsn rest ≡ header lsn len rtype txn_id prev_lsn [] ++ rest
  header-append = simp (append_assoc, append-nil)

  -- Past the header the offset counts in what follows.
  pub drop-header :
      (k : ℕ) → drop (32 + k) (header lsn len rtype txn_id prev_lsn rest) ≡ drop k rest
  drop-header k =
      rw header-append (
        drop-append_add 32 k _ rest (omega (arith, length-header lsn len rtype txn_id prev_lsn [])))

  pub take-header :
      (more : List ℕ)
      → take (32 + length rest) (header lsn len rtype txn_id prev_lsn rest ++ more)
        ≡ header lsn len rtype txn_id prev_lsn rest
  take-header more =
      take-append (32 + length rest) _ more (length-header lsn len rtype txn_id prev_lsn rest)

module _ (crc : Crc32) where
  -- A frame is the header, the body, and the checksum of both.
  pub frame-header :
      (lsn txn_id prev_lsn rtype : ℕ) (body : List ℕ)
      → IsU32 (length body)
      → assemble_frame crc lsn txn_id prev_lsn rtype body
        ≡ header lsn
            (length body)
            rtype
            txn_id
            prev_lsn
            (body ++ to_le 4 (crc.hash (header lsn (length body) rtype txn_id prev_lsn body)))
  unfolding assemble_frame put_u64 put_u32 push
  frame-header lsn txn_id prev_lsn rtype body h =
      let e : length body % 2 ^ 32 ≡ length body = omega arith in simp (e, append_assoc)

-- The fields that `decode_record` reads from a header, whatever follows it.
module _ (lsn len rtype txn_id prev_lsn : ℕ) (rest : List ℕ) where
  pub get-header_lsn : IsU64 lsn → get_u64 (header lsn len rtype txn_id prev_lsn rest) 0 ≡ lsn
  unfolding get_u64
  get-header_lsn h =
      rw
        (take-append 8 (to_le 8 lsn)
          (to_le 4 len ++ (rtype ∷ 0 ∷ 0 ∷ 0 ∷ (to_le 8 txn_id ++ (to_le 8 prev_lsn ++ rest))))
          (length-to_le 8 lsn))
        (from_le-to_le 8 lsn h)

  pub get-header_len : IsU32 len → get_u32 (header lsn len rtype txn_id prev_lsn rest) 8 ≡ len
  unfolding get_u32
  get-header_len h =
      ap (λ b. from_le (take 4 b)) (drop-header_8 lsn len rtype txn_id prev_lsn rest)
      ∙ ap from_le (take-append 4 (to_le 4 len) _ (length-to_le 4 len))
      ∙ from_le-to_le 4 len h

  pub get-header_type : byte_at (header lsn len rtype txn_id prev_lsn rest) 12 ≡ rtype
  unfolding byte_at from_le
  get-header_type =
      ap (λ b. from_le (take 1 b)) (drop-header_12 lsn len rtype txn_id prev_lsn rest) ∙ omega arith

  pub get-header_txn :
      IsU64 txn_id → get_u64 (header lsn len rtype txn_id prev_lsn rest) 16 ≡ txn_id
  unfolding get_u64
  get-header_txn h =
      ap (λ b. from_le (take 8 b)) (drop-header_16 lsn len rtype txn_id prev_lsn rest)
      ∙ ap from_le (take-append 8 (to_le 8 txn_id) _ (length-to_le 8 txn_id))
      ∙ from_le-to_le 8 txn_id h

  pub get-header_prev :
      IsU64 prev_lsn → get_u64 (header lsn len rtype txn_id prev_lsn rest) 24 ≡ prev_lsn
  unfolding get_u64
  get-header_prev h =
      ap (λ b. from_le (take 8 b)) (drop-header_24 lsn len rtype txn_id prev_lsn rest)
      ∙ ap from_le (take-append 8 (to_le 8 prev_lsn) _ (length-to_le 8 prev_lsn))
      ∙ from_le-to_le 8 prev_lsn h
