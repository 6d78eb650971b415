-- ===== src/Wal/Scan/Frames.antt =====
-- crates/prism-wal/src/wal.rs: the scan of a segment that holds whole frames.
use prism_db.Common.{
  ℕ, zero, suc, ◌+◌, ◌%◌, ◌^◌, ◌≡◌, ◌<◌, ◌≤◌, ◌⊎◌, ◌∙◌, refl, sym, ap, false, inl, inr, List, [],
  ◌∷◌, ◌++◌, length, take, drop, length-append, take-append, drop-append, drop-append_add,
  append_assoc, append-nil, lt→ltb, ltb-false, ◌==◌, arith, All,
}
use prism_db.Common.Results.{ok}
use prism_db.Common.Bytes.{IsU64, from_le}
use prism_db.Common.Crc.{Crc32}
use prism_db.Wal.Payload.{LogRecord}
use prism_db.Wal.Record.{get_u32, get_u64, encode_record, decode_record}
use prism_db.Wal.Record.Header.{get-header_lsn, get-header_len}
use prism_db.Wal.Record.Frames.{
  IsLoggable, body, kind, trailer, encode_record-append, length-encode_record,
  decode_record-encode_record,
}
use prism_db.Wal.Scan.{next_state, scan_loop, scan_active}

-- Reads in the second part of a list.
at_u64 : (pre x : List ℕ) → get_u64 (pre ++ x) (length pre) ≡ get_u64 x 0
unfolding get_u64
at_u64 pre x = ap (λ b. from_le (take 8 b)) (drop-append (length pre) pre x refl)

at_u32 : (pre x : List ℕ) → get_u32 (pre ++ x) (length pre + 8) ≡ get_u32 x 8
unfolding get_u32
at_u32 pre x = ap (λ b. from_le (take 4 b)) (drop-append_add (length pre) 8 pre x refl)

-- Where the scan ends: too few bytes for a header, a zeroed slot, or a frame that is cut off.
abbrev pub Stops : List ℕ → Type 0
Stops tail = (length tail < 32) ⊎ (get_u64 tail 0 ≡ 0) ⊎ (length tail < 36 + get_u32 tail 8)

abbrev pub IsEntry : ℕ × LogRecord → Type 0
IsEntry e = (0 < e.0) × IsU64 e.0 × IsLoggable e.1

positive : (n : ℕ) → 0 < n → (n == 0) ≡ false
positive n h = ground arith

-- The LSN of the last record, if there is one.
unfoldable pub last_lsn : ℕ → List (ℕ × LogRecord) → ℕ
last_lsn last [] = last
last_lsn last ((lsn, r) ∷ es) = last_lsn lsn es

module _ (crc : Crc32) where
  -- Records framed at their LSNs, one after another.
  unfoldable pub frames : List (ℕ × LogRecord) → List ℕ
  frames [] = []
  frames ((lsn, r) ∷ es) = encode_record crc lsn r ++ frames es

  stopped :
      (pre tail : List ℕ) (fuel last : ℕ)
      → Stops tail
      → scan_loop crc (pre ++ tail) fuel (length pre) last ≡ (length pre, last)
  unfolding scan_loop
  stopped pre tail zero last h = refl
  stopped pre tail (suc fuel) last (inl h) =
      rw (lt→ltb (length (pre ++ tail)) (length pre + 32) (omega (arith, length-append pre tail)))
        refl
  stopped pre tail (suc fuel) last (inr (inl h)) = rw (at_u64 pre tail, h) (ground arith)
  stopped pre tail (suc fuel) last (inr (inr h)) =
      rw
        (lt→ltb (length (pre ++ tail))
          (length pre + (32 + get_u32 (pre ++ tail) (length pre + 8) + 4))
          (omega (arith, length-append pre tail, at_u32 pre tail)))
        (ground arith)

  module _ (lsn : ℕ) (r : LogRecord) (rest : List ℕ) (h : IsEntry (lsn, r)) where
    frame_lsn : get_u64 (encode_record crc lsn r ++ rest) 0 ≡ lsn
    frame_lsn = rw (encode_record-append crc lsn r rest (h.2.body_fits)) (
        get-header_lsn lsn (length (body r)) (kind r) r.txn_id r.prev_lsn
          (body r ++ (trailer crc lsn r ++ rest)) h.1)

    frame_len : get_u32 (encode_record crc lsn r ++ rest) 8 ≡ length (body r)
    frame_len = rw (encode_record-append crc lsn r rest (h.2.body_fits)) (
        get-header_len lsn (length (body r)) (kind r) r.txn_id r.prev_lsn
          (body r ++ (trailer crc lsn r ++ rest)) (h.2.body_fits))

    frame_decoded :
        decode_record crc (encode_record crc lsn r) ≡ ok (lsn, r, length (encode_record crc lsn r))
    frame_decoded =
        rw (append-nil (encode_record crc lsn r)) at
          (decode_record-encode_record crc lsn r [] h.1 h.2)

    one_frame :
        (pre : List ℕ) (fuel last : ℕ)
        → scan_loop crc (pre ++ (encode_record crc lsn r ++ rest)) (suc fuel) (length pre) last
          ≡ scan_loop crc
              (pre ++ (encode_record crc lsn r ++ rest))
              fuel
              (length (pre ++ encode_record crc lsn r))
              lsn
    unfolding scan_loop next_state
    one_frame pre fuel last =
        let frame = encode_record crc lsn r in
        let bytes = pre ++ (frame ++ rest) in
        let n = length (body r) in
        let size : length frame ≡ 36 + n = length-encode_record crc lsn r (h.2.body_fits) in
        let room : length bytes ≡ length pre + (36 + n + length rest) =
          omega (arith, length-append pre (frame ++ rest), length-append frame rest, size) in
        let whole : take (32 + n + 4) (drop (length pre) bytes) ≡ frame =
          ap (take (32 + n + 4)) (drop-append (length pre) pre (frame ++ rest) refl)
          ∙ take-append (32 + n + 4) frame rest (omega (arith, size)) in
        let after : length pre + (32 + n + 4) ≡ length (pre ++ frame) =
          omega (arith, length-append pre frame, size) in
        rw
          (
            at_u64 pre (frame ++ rest) ∙ frame_lsn,
            at_u32 pre (frame ++ rest) ∙ frame_len,
            ltb-false (length bytes) (length pre + 32) (omega (arith, room)),
            positive lsn h.0,
            ltb-false (length bytes) (length pre + (32 + n + 4)) (omega (arith, room)),
            whole,
            frame_decoded,
            after,
          )
          refl

  scan_frames :
      (pre : List ℕ) (es : List (ℕ × LogRecord)) (tail : List ℕ) (fuel last : ℕ)
      → length es ≤ fuel
      → All IsEntry es
      → Stops tail
      → scan_loop crc (pre ++ (frames es ++ tail)) fuel (length pre) last
        ≡ (length (pre ++ frames es), last_lsn last es)
  unfolding frames last_lsn
  scan_frames pre [] tail fuel last fuelled valid h =
      rw (append-nil pre) (stopped pre tail fuel last h)
  scan_frames pre ((lsn, r) ∷ es) tail zero last fuelled valid h = absurd (omega arith)
  scan_frames pre ((lsn, r) ∷ es) tail (suc fuel) last fuelled (entry, valid) h =
      let frame = encode_record crc lsn r in
      rw (append_assoc frame (frames es) tail) (
        one_frame lsn r (frames es ++ tail) entry pre fuel last
        ∙ rw (sym (append_assoc pre frame (frames es ++ tail)))
            (scan_frames (pre ++ frame) es tail fuel lsn (omega arith) valid h)
        ∙ ap (λ bs. (length bs, last_lsn lsn es)) (append_assoc pre frame (frames es)))

  length-frames : (es : List (ℕ × LogRecord)) → All IsEntry es → length es ≤ length (frames es)
  unfolding frames
  length-frames [] valid = omega arith
  length-frames ((lsn, r) ∷ es) (entry, valid) = omega (
    arith,
    length-append (encode_record crc lsn r) (frames es),
    length-encode_record crc lsn r (entry.2.body_fits),
    length-frames es valid,
  )

  -- The scan of a segment whose header is followed by whole frames, and those by a rest that is
  -- shorter than a header, a zeroed slot or a frame that is cut off, ends behind the last frame with
  -- its LSN, or with zero where there is none, for any number of records that Rust can frame, in a
  -- segment within the range of a `u32`.
  pub scan_active-frames :
      (header : List ℕ) (es : List (ℕ × LogRecord)) (tail : List ℕ)
      → length header ≡ 64
      → All IsEntry es
      → Stops tail
      → length (header ++ frames es) < 2 ^ 32
      → scan_active crc (header ++ (frames es ++ tail))
        ≡ (length (header ++ frames es), last_lsn 0 es)
  unfolding scan_active
  scan_active-frames header es tail size valid h small =
      let bytes = header ++ (frames es ++ tail) in
      let e =
        scan_frames header es tail (suc (length bytes)) 0
          (omega (
            arith,
            length-append header (frames es ++ tail),
            length-append (frames es) tail,
            length-frames es valid,
          ))
          valid h in
      let small' : length (header ++ frames es) % 2 ^ 32 ≡ length (header ++ frames es) =
        omega arith in
      rw (rw size at e) (rw small' refl)
