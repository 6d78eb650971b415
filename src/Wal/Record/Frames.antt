-- ===== src/Wal/Record/Frames.antt =====
-- crates/prism-wal/src/record.rs: decoding a whole frame, with whatever follows it in the segment.
use prism_db.Common.{
  ℕ, ◌+◌, ◌≤◌, ◌≡◌, refl, ap, ◌∙◌, List, [], ◌++◌, length, arith, append_assoc, take, drop,
  length-append, take-append, drop-append, ◌==◌, if◌then◌else◌, true,
}
use prism_db.Common.{ltb-false}
use prism_db.Common.Results.{ok, err, and_then}
use prism_db.Common.Bytes.{IsU32, IsU64, to_le, from_le, length-to_le, from_le-to_le}
use prism_db.Common.Crc.{Crc32}
use prism_db.Wal.Payload.{LogRecord, crc_mismatch}
use prism_db.Wal.Record.{decode_body, encode_body, get_u32, encode_record, decode_record}
use prism_db.Wal.Record.RoundTrip.{IsEncodable, decode_body-encode_body}
use prism_db.Wal.Record.Header.{
  header, length-header, drop-header, take-header, frame-header, get-header_lsn, get-header_len,
  get-header_type, get-header_txn, get-header_prev,
}

module _ (crc : Crc32) (lsn rtype txn_id prev_lsn : ℕ) (body tail : List ℕ) where
  abbrev whole : List ℕ
  whole = header lsn (length body) rtype txn_id prev_lsn (body ++ tail)

  abbrev covered : List ℕ
  covered = header lsn (length body) rtype txn_id prev_lsn body

  whole-covered : whole ≡ covered ++ tail
  whole-covered = simp append_assoc

  length-whole : length whole ≡ 32 + length body + length tail
  length-whole = omega (
    arith,
    length-header lsn (length body) rtype txn_id prev_lsn (body ++ tail),
    length-append body tail,
  )

  stored : get_u32 whole (32 + length body) ≡ from_le (take 4 tail)
  unfolding get_u32
  stored =
      ap (λ b. from_le (take 4 b))
        (drop-header lsn (length body) rtype txn_id prev_lsn (body ++ tail) (length body)
          ∙ drop-append (length body) body tail refl)

  covered_bytes : take (32 + length body) whole ≡ covered
  covered_bytes = rw whole-covered (take-header lsn (length body) rtype txn_id prev_lsn body tail)

  body_bytes : take (length body) (drop 32 whole) ≡ body
  body_bytes =
      ap (take (length body)) (drop-header lsn (length body) rtype txn_id prev_lsn (body ++ tail) 0)
      ∙ take-append (length body) body tail refl

  pub decode_record-header :
      IsU64 lsn
      → IsU64 txn_id
      → IsU64 prev_lsn
      → IsU32 (length body)
      → 4 ≤ length tail
      → decode_record crc whole ≡ (
          if from_le (take 4 tail) == crc.hash covered
          then and_then (decode_body rtype body) (λ payload. ok (
            lsn,
            record { txn_id = txn_id; prev_lsn = prev_lsn; payload = payload },
            32 + length body + 4,
          ))
          else err crc_mismatch)
  unfolding decode_record
  decode_record-header hl ht hp hb h4 = simp (
    ltb-false (length whole) 32 (omega (arith, length-whole)),
    get-header_lsn lsn (length body) rtype txn_id prev_lsn (body ++ tail) hl,
    get-header_len lsn (length body) rtype txn_id prev_lsn (body ++ tail) hb,
    get-header_type lsn (length body) rtype txn_id prev_lsn (body ++ tail),
    get-header_txn lsn (length body) rtype txn_id prev_lsn (body ++ tail) ht,
    get-header_prev lsn (length body) rtype txn_id prev_lsn (body ++ tail) hp,
    ltb-false (length whole) (32 + length body + 4) (omega (arith, length-whole)),
    stored,
    covered_bytes,
    body_bytes,
  )

-- The bytes of a record's body.
abbrev pub body : LogRecord → List ℕ
body r = (encode_body r.payload []).0

-- What `u64` fields and a `u32` length can hold: the record is one that Rust can build and frame.
pub record IsLoggable (r : LogRecord) : Type 0 where
  pub txn_id_fits : IsU64 r.txn_id
  pub prev_lsn_fits : IsU64 r.prev_lsn
  pub payload_fits : IsEncodable r.payload
  pub body_fits : IsU32 (length (body r))

abbrev pub kind : LogRecord → ℕ
kind r = (encode_body r.payload []).1

==_of_eq : (a b : ℕ) → a ≡ b → (a == b) ≡ true
==_of_eq a b e = ground arith

module _ (crc : Crc32) (lsn : ℕ) (r : LogRecord) where
  checked : List ℕ
  checked = header lsn (length (body r)) (kind r) r.txn_id r.prev_lsn (body r)

  abbrev pub trailer : List ℕ
  trailer = to_le 4 (crc.hash (header lsn (length (body r)) (kind r) r.txn_id r.prev_lsn (body r)))

  pub encode_record-header :
      IsU32 (length (body r))
      → encode_record crc lsn r
        ≡ header lsn (length (body r)) (kind r) r.txn_id r.prev_lsn (body r ++ trailer)
  unfolding encode_record
  encode_record-header h = frame-header crc lsn r.txn_id r.prev_lsn (kind r) (body r) h

  pub length-encode_record :
      IsU32 (length (body r)) → length (encode_record crc lsn r) ≡ 36 + length (body r)
  length-encode_record h = omega (
    arith,
    ap length (encode_record-header h),
    length-header lsn (length (body r)) (kind r) r.txn_id r.prev_lsn (body r ++ trailer),
    length-append (body r) trailer,
    length-to_le 4 (crc.hash (header lsn (length (body r)) (kind r) r.txn_id r.prev_lsn (body r))),
  )

  pub encode_record-append :
      (rest : List ℕ)
      → IsU32 (length (body r))
      → encode_record crc lsn r ++ rest
        ≡ header lsn (length (body r)) (kind r) r.txn_id r.prev_lsn (body r ++ (trailer ++ rest))
  encode_record-append rest h = rw (encode_record-header h) (simp append_assoc)

  trailer_matches :
      (rest : List ℕ)
      → (from_le (take 4 (trailer ++ rest))
          == crc.hash (header lsn (length (body r)) (kind r) r.txn_id r.prev_lsn (body r)))
        ≡ true
  trailer_matches rest = ==_of_eq _ _ (
      ap from_le (
        take-append 4 trailer rest (
          length-to_le 4
            (crc.hash (header lsn (length (body r)) (kind r) r.txn_id r.prev_lsn (body r)))))
      ∙ from_le-to_le 4 _
          (crc.hash-IsU32 (header lsn (length (body r)) (kind r) r.txn_id r.prev_lsn (body r))))

module _ (crc : Crc32) where
  -- A record that was framed at an LSN is decoded to that LSN and that record, and the frame's
  -- length is reported as consumed, whatever bytes follow the frame.
  pub decode_record-encode_record :
      (lsn : ℕ) (r : LogRecord) (rest : List ℕ)
      → IsU64 lsn
      → IsLoggable r
      → decode_record crc (encode_record crc lsn r ++ rest)
        ≡ ok (lsn, r, length (encode_record crc lsn r))
  decode_record-encode_record lsn r rest hl v =
      rw
        (
          length-encode_record crc lsn r v.body_fits,
          encode_record-append crc lsn r rest v.body_fits,
        )
        (decode_record-header crc lsn (kind r) r.txn_id r.prev_lsn (body r)
            (trailer crc lsn r ++ rest) hl v.txn_id_fits v.prev_lsn_fits v.body_fits
            (omega (
              arith,
              length-append (trailer crc lsn r) rest,
              length-to_le 4
                  (crc.hash (header lsn (length (body r)) (kind r) r.txn_id r.prev_lsn (body r))),
            ))
          ∙ rw (trailer_matches crc lsn r rest, decode_body-encode_body r.payload v.payload_fits)
              (ground arith))
