-- ===== src/Wal/Segment/Examples.antt =====
-- A segment header and a file name at concrete inputs. The checksum is the length of the bytes.
use prism_db.Common.{ℕ, ◌%◌, ◌^◌, ◌≡◌, refl, some, List, length, arith}
use prism_db.Common.Results.{ok}
use prism_db.Common.Bytes.{IsU32}
use prism_db.Common.Int.{pos}
use prism_db.Common.Crc.{Crc32}
use prism_db.Wal.Segment.{SegmentHeader, encode_header, decode_header}
use prism_db.Wal.Segment.Header.{IsHeader, decode_header-encode_header}
use prism_db.Wal.Segment.Names.{
  segment_file_name, parse_segment_id, parse_segment_id-segment_file_name,
}

length-IsU32 : (bytes : List ℕ) → IsU32 (length bytes % 2 ^ 32)
length-IsU32 bytes = omega arith

abbrev length_crc : Crc32
length_crc = record { hash = λ bytes. length bytes % 2 ^ 32; hash-IsU32 = length-IsU32 }

abbrev third_segment : SegmentHeader
third_segment = record {
  format_version = 1;
  segment_size = 16_777_216;
  segment_id = 3;
  first_lsn = 12_884_901_952;
  created_at_micros = pos 1_700_000_000_000_000;
  prev_segment_id = 2;
}

third_segment-IsHeader : IsHeader third_segment
third_segment-IsHeader = (refl, omega arith, omega arith, omega arith, omega arith, omega arith)

decode_header-encode_header_example :
    decode_header length_crc 16_777_216 (encode_header length_crc third_segment) ≡ ok third_segment
decode_header-encode_header_example =
    decode_header-encode_header length_crc third_segment (encode_header length_crc third_segment)
      16_777_216 third_segment-IsHeader (omega arith) (λ i h. refl)

parse_segment_id-segment_file_name_example : parse_segment_id (segment_file_name 42) ≡ some 42
parse_segment_id-segment_file_name_example = parse_segment_id-segment_file_name 42 (omega arith)
