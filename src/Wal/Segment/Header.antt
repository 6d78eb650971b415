-- ===== src/Wal/Segment/Header.antt =====
-- crates/prism-wal/src/segment.rs: a segment header, encoded and decoded.
use prism_db.Common.{ℕ, ◌+◌, ◌≡◌, ◌<◌, ◌≤◌, ◌∙◌, refl, ap, true, List, [], ◌∷◌, length, arith}
use prism_db.Common.Results.{ok}
use prism_db.Common.Bytes.{IsU32, IsU64, to_le, from_le, from_le-to_le}
use prism_db.Common.Int.{IsI64, i64_bits, i64_bits-lt, i64_of_bits-i64_bits}
use prism_db.Common.Crc.{Crc32}
use prism_db.Storage.Bytes.{Buffer, copy, slice, slice-copy_self}
use prism_db.Wal.Segment.{
  seg_magic, wal_format_version, SegmentHeader, same_bytes, rd_u32, rd_u64, put_fields, read_header,
  encode_header, decode_header,
}
use prism_db.Wal.Segment.Fields.{Field, write_all, misses, slice-write_all, slice_agree}

-- The field that is written before `fs`.
field_kept :
    (b : Buffer) (o : ℕ) (xs : List ℕ) (fs : List Field)
    → misses o (length xs) fs ≡ true
    → slice (write_all (copy b o xs) fs) o (length xs) ≡ xs
field_kept b o xs fs h = slice-write_all (copy b o xs) o (length xs) fs h ∙ slice-copy_self b o xs

abbrev pub IsHeader : SegmentHeader → Type 0
IsHeader h =
    (h.format_version ≡ wal_format_version)
    × IsU32 h.segment_size
    × IsU64 h.segment_id
    × IsU64 h.first_lsn
    × IsI64 h.created_at_micros
    × IsU64 h.prev_segment_id

module _ (crc : Crc32) (h : SegmentHeader) where
  abbrev after_prev : List Field
  after_prev = (48, to_le 4 (crc.hash (slice (put_fields h) 0 44))) ∷ []

  abbrev after_created : List Field
  after_created = (40, to_le 8 h.prev_segment_id) ∷ after_prev

  abbrev after_first : List Field
  after_first = (32, to_le 8 (i64_bits h.created_at_micros)) ∷ after_created

  abbrev after_id : List Field
  after_id = (24, to_le 8 h.first_lsn) ∷ after_first

  abbrev after_size : List Field
  after_size = (16, to_le 8 h.segment_id) ∷ after_id

  abbrev after_version : List Field
  after_version = (12, to_le 4 h.segment_size) ∷ after_size

  abbrev after_magic : List Field
  after_magic = (8, to_le 4 h.format_version) ∷ after_version

  abbrev Holds : ℕ → ℕ → List ℕ → Type 0
  Holds o n xs = slice (encode_header crc h) o n ≡ xs

  encoded_fields :
      Holds 0 8 seg_magic
      × Holds 8 4 (to_le 4 h.format_version)
      × Holds 12 4 (to_le 4 h.segment_size)
      × Holds 16 8 (to_le 8 h.segment_id)
      × Holds 24 8 (to_le 8 h.first_lsn)
      × Holds 32 8 (to_le 8 (i64_bits h.created_at_micros))
      × Holds 40 8 (to_le 8 h.prev_segment_id)
      × Holds 48 4 (to_le 4 (crc.hash (slice (put_fields h) 0 44)))
  unfolding encode_header put_fields write_all misses to_le
  encoded_fields = (
    field_kept _ 0 seg_magic after_magic refl,
    field_kept _ 8 (to_le 4 h.format_version) after_version refl,
    field_kept _ 12 (to_le 4 h.segment_size) after_size refl,
    field_kept _ 16 (to_le 8 h.segment_id) after_id refl,
    field_kept _ 24 (to_le 8 h.first_lsn) after_first refl,
    field_kept _ 32 (to_le 8 (i64_bits h.created_at_micros)) after_created refl,
    field_kept _ 40 (to_le 8 h.prev_segment_id) after_prev refl,
    field_kept _ 48 (to_le 4 (crc.hash (slice (put_fields h) 0 44))) [] refl,
  )

  encoded_body : slice (encode_header crc h) 0 44 ≡ slice (put_fields h) 0 44
  unfolding encode_header write_all misses to_le
  encoded_body = slice-write_all (put_fields h) 0 44 after_prev refl

  -- A buffer that begins with the encoded header.
  module _ (buf : Buffer) (begins : (i : ℕ) → i < 64 → buf i ≡ encode_header crc h i) where
    found : (o n : ℕ) (xs : List ℕ) → o + n ≤ 64 → Holds o n xs → slice buf o n ≡ xs
    found o n xs fits e = slice_agree buf (encode_header crc h) 64 o n begins fits ∙ e

    u32_found : (o v : ℕ) → o + 4 ≤ 64 → IsU32 v → Holds o 4 (to_le 4 v) → rd_u32 buf o ≡ v
    unfolding rd_u32
    u32_found o v fits small e = ap from_le (found o 4 (to_le 4 v) fits e) ∙ from_le-to_le 4 v small

    u64_found : (o v : ℕ) → o + 8 ≤ 64 → IsU64 v → Holds o 8 (to_le 8 v) → rd_u64 buf o ≡ v
    unfolding rd_u64
    u64_found o v fits small e = ap from_le (found o 8 (to_le 8 v) fits e) ∙ from_le-to_le 8 v small

    read_header_lem : IsHeader h → read_header buf ≡ h
    unfolding read_header
    read_header_lem (version, size, id, lsn, created, prev) =
        let (_, e1, e2, e3, e4, e5, e6, _) = encoded_fields in
        rw
          (
            u32_found 8 h.format_version (omega arith) (omega (arith, version)) e1,
            u32_found 12 h.segment_size (omega arith) size e2,
            u64_found 16 h.segment_id (omega arith) id e3,
            u64_found 24 h.first_lsn (omega arith) lsn e4,
            u64_found 32 (i64_bits h.created_at_micros) (omega arith)
                (i64_bits-lt h.created_at_micros) e5,
            i64_of_bits-i64_bits h.created_at_micros created,
            u64_found 40 h.prev_segment_id (omega arith) prev e6,
          )
          refl

    body_found : slice buf 0 44 ≡ slice (put_fields h) 0 44
    body_found = found 0 44 (slice (put_fields h) 0 44) (omega arith) encoded_body

    crc_found : rd_u32 buf 48 ≡ crc.hash (slice (put_fields h) 0 44)
    crc_found =
        let (_, _, _, _, _, _, _, e) = encoded_fields in
        u32_found 48 (crc.hash (slice (put_fields h) 0 44)) (omega arith) (crc.hash-IsU32 _) e

    magic_found : slice buf 0 8 ≡ seg_magic
    magic_found = found 0 8 seg_magic (omega arith) encoded_fields.0

-- A segment that begins with the encoding of a header of this version, whose numbers are in the
-- ranges of their types, is read as that header, whatever follows the 64 bytes.
pub decode_header-encode_header :
    (crc : Crc32) (h : SegmentHeader) (buf : Buffer) (len : ℕ)
    → IsHeader h
    → 64 ≤ len
    → ((i : ℕ) → i < 64 → buf i ≡ encode_header crc h i)
    → decode_header crc len buf ≡ ok h
unfolding decode_header same_bytes
decode_header-encode_header crc h buf len valid fits begins =
    let e = encoded_fields crc h in
    let version : rd_u32 buf 8 ≡ 1 =
      u32_found crc h buf begins 8 h.format_version (omega arith) (omega (arith, valid.0)) e.1
      ∙ valid.0 in
    rw
      (
        magic_found crc h buf begins,
        crc_found crc h buf begins,
        body_found crc h buf begins,
        version,
        read_header_lem crc h buf begins valid,
      )
      (ground arith)
