-- ===== src/Wal/Segment.antt =====
-- crates/prism-wal/src/segment.rs: the 64-byte header of a segment. A slice is its bytes at each
-- offset, with its length.
pub mod Fields
pub mod Header
pub mod Names
mod Examples
use prism_db.Common.{ℕ, Bool, true, false, List, [], ◌∷◌, if◌then◌else◌, ltb, ◌==◌}
use prism_db.Common.Results.{Result, ok, err}
use prism_db.Common.Bytes.{to_le, from_le}
use prism_db.Common.Int.{ℤ, i64_bits, i64_of_bits}
use prism_db.Common.Crc.{Crc32}
use prism_db.Storage.Bytes.{Buffer, copy, slice}
use prism_db.Wal.Payload.{WalError, bad_magic, incompatible_version, decode}

abbrev pub segment_header_size : ℕ
segment_header_size = 64

abbrev pub wal_format_version : ℕ
wal_format_version = 1

abbrev pub seg_magic : List ℕ
seg_magic = b'P' ∷ b'R' ∷ b'S' ∷ b'M' ∷ b'W' ∷ b'A' ∷ b'L' ∷ 0 ∷ []

abbrev pub off_magic : ℕ
off_magic = 0

abbrev pub off_version : ℕ
off_version = 8

abbrev pub off_segment_size : ℕ
off_segment_size = 12

abbrev pub off_segment_id : ℕ
off_segment_id = 16

abbrev pub off_first_lsn : ℕ
off_first_lsn = 24

abbrev pub off_created_at : ℕ
off_created_at = 32

abbrev pub off_prev_segment_id : ℕ
off_prev_segment_id = 40

abbrev pub off_crc : ℕ
off_crc = 48

abbrev pub crc_body_len : ℕ
crc_body_len = 44

pub record SegmentHeader : Type 0 where
  pub format_version : ℕ
  pub segment_size : ℕ
  pub segment_id : ℕ
  pub first_lsn : ℕ
  pub created_at_micros : ℤ
  pub prev_segment_id : ℕ

-- Equality of byte strings.
unfoldable pub same_bytes : List ℕ → List ℕ → Bool
same_bytes [] [] = true
same_bytes [] (y ∷ ys) = false
same_bytes (x ∷ xs) [] = false
same_bytes (x ∷ xs) (y ∷ ys) = if x == y then same_bytes xs ys else false

unfoldable pub rd_u32 : Buffer → ℕ → ℕ
rd_u32 b o = from_le (slice b o 4)

unfoldable pub rd_u64 : Buffer → ℕ → ℕ
rd_u64 b o = from_le (slice b o 8)

-- The fields before the checksum.
unfoldable pub put_fields : SegmentHeader → Buffer
put_fields h =
    let buf = copy (λ _. 0) off_magic seg_magic in
    let buf = copy buf off_version (to_le 4 h.format_version) in
    let buf = copy buf off_segment_size (to_le 4 h.segment_size) in
    let buf = copy buf off_segment_id (to_le 8 h.segment_id) in
    let buf = copy buf off_first_lsn (to_le 8 h.first_lsn) in
    let buf = copy buf off_created_at (to_le 8 (i64_bits h.created_at_micros)) in
    copy buf off_prev_segment_id (to_le 8 h.prev_segment_id)

unfoldable pub read_header : Buffer → SegmentHeader
read_header buf = record {
  format_version = rd_u32 buf off_version;
  segment_size = rd_u32 buf off_segment_size;
  segment_id = rd_u64 buf off_segment_id;
  first_lsn = rd_u64 buf off_first_lsn;
  created_at_micros = i64_of_bits (rd_u64 buf off_created_at);
  prev_segment_id = rd_u64 buf off_prev_segment_id;
}

module _ (crc : Crc32) where
  unfoldable pub encode_header : SegmentHeader → Buffer
  encode_header h =
      let buf = put_fields h in copy buf off_crc (to_le 4 (crc.hash (slice buf 0 crc_body_len)))

  unfoldable pub decode_header : ℕ → Buffer → Result WalError SegmentHeader
  decode_header len buf =
      if ltb len segment_header_size
      then err (decode "segment shorter than header")
      else if same_bytes (slice buf off_magic 8) seg_magic
      then if rd_u32 buf off_crc == crc.hash (slice buf 0 crc_body_len)
        then if rd_u32 buf off_version == wal_format_version
          then ok (read_header buf)
          else err (incompatible_version (rd_u32 buf off_version))
        else err (decode "segment header CRC mismatch")
      else err bad_magic
