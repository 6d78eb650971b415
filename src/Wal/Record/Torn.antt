-- ===== src/Wal/Record/Torn.antt =====
-- crates/prism-wal/src/record.rs: torn frames.
use prism_db.Common.{
  ℕ, ◌+◌, ◌<◌, ◌≤◌, ◌≡◌, ap, List, ◌∷◌, ◌++◌, length, arith, length-append, take-drop-append, ltb,
  if◌then◌else◌, ltb-false, lt→ltb, dec_lt,
}
use prism_db.Common.Results.{err}
use prism_db.Common.Bytes.{IsU32, from_le}
use prism_db.Common.Crc.{Crc32}
use prism_db.Wal.Payload.{LogRecord, decode}
use prism_db.Wal.Record.{get_u32, encode_record, decode_record}
use prism_db.Wal.Record.Header.{get-header_len}
use prism_db.Wal.Record.Frames.{body, kind, trailer, encode_record-header, length-encode_record}

-- The declared length does not change when the end of the frame is cut off.
len_of_prefix :
    (front back : List ℕ) → 32 ≤ length front → get_u32 (front ++ back) 8 ≡ get_u32 front 8
unfolding get_u32
len_of_prefix front back h = ap from_le (take-drop-append 4 8 front back (omega arith))

module _ (crc : Crc32) where
  declared_len :
      (lsn : ℕ) (r : LogRecord)
      → IsU32 (length (body r))
      → get_u32 (encode_record crc lsn r) 8 ≡ length (body r)
  declared_len lsn r h = rw (encode_record-header crc lsn r h) (
      get-header_len lsn (length (body r)) (kind r) r.txn_id r.prev_lsn
        (body r ++ trailer crc lsn r) h)

  short_header :
      (frame : List ℕ)
      → length frame < 32
      → decode_record crc frame ≡ err (decode "frame shorter than header")
  unfolding decode_record
  short_header frame h = rw (lt→ltb (length frame) 32 h)

  short_body :
      (frame : List ℕ)
      → 32 ≤ length frame
      → length frame < 36 + get_u32 frame 8
      → decode_record crc frame ≡ err (decode "frame shorter than declared length")
  unfolding decode_record
  short_body frame h32 h = rw (
    ltb-false (length frame) 32 h32,
    lt→ltb (length frame) (32 + get_u32 frame 8 + 4) (omega arith),
  )

  -- A frame whose end is missing, at any cut, is refused as malformed: a cut inside the header for
  -- the header, a later one for the declared length. No proper prefix of a frame is a record.
  pub decode_record_torn :
      (lsn : ℕ) (r : LogRecord) (front : List ℕ) (b : ℕ) (back : List ℕ)
      → IsU32 (length (body r))
      → encode_record crc lsn r ≡ front ++ (b ∷ back)
      → decode_record crc front
        ≡ err (
            decode (
              if ltb (length front) 32
              then "frame shorter than header"
              else "frame shorter than declared length"))
  decode_record_torn lsn r front b back h e = elim (dec_lt (length front) 32) [
    | yes p ↦ rw (lt→ltb (length front) 32 p) (short_header front p)
    | no p ↦ rw (ltb-false (length front) 32 (omega arith)) (
        short_body front (omega arith) (
          omega (
            arith,
            ap length e,
            length-append front (b ∷ back),
            length-encode_record crc lsn r h,
            declared_len lsn r h,
            ap (λ f. get_u32 f 8) e,
            len_of_prefix front (b ∷ back),
          )))
  ]
