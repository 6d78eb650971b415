-- ===== src/Wal/Scan/Examples.antt =====
-- A segment of two records at concrete inputs. The checksum is the length of the bytes.
use prism_db.Common.{
  ℕ, ◌%◌, ◌^◌, ◌≡◌, refl, inl, inr, List, [], ◌∷◌, ◌++◌, length, replicate, arith,
}
use prism_db.Common.Bytes.{IsU32, to_le, from_le}
use prism_db.Common.Crc.{Crc32}
use prism_db.Wal.Payload.{insert, LogRecord}
use prism_db.Wal.Fields.{put_u16, put_u32, put_u64, put_bytes_u32, push}
use prism_db.Wal.Record.{encode_body, encode_record, assemble_frame, get_u64}
use prism_db.Wal.Record.Frames.{IsLoggable}
use prism_db.Wal.Scan.{scan_active}
use prism_db.Wal.Scan.Frames.{Stops, frames, last_lsn, scan_active-frames}

length-IsU32 : (bytes : List ℕ) → IsU32 (length bytes % 2 ^ 32)
length-IsU32 bytes = omega arith

abbrev length_crc : Crc32
length_crc = record { hash = λ bytes. length bytes % 2 ^ 32; hash-IsU32 = length-IsU32 }

abbrev inserted : LogRecord
inserted = record { txn_id = 5; prev_lsn = 0; payload = insert 7 2 (10 ∷ 20 ∷ 30 ∷ []) }

inserted-IsLoggable : IsLoggable inserted
unfolding encode_body put_u16 put_u32 put_u64 put_bytes_u32 to_le
inserted-IsLoggable = record {
  txn_id_fits = omega arith;
  prev_lsn_fits = omega arith;
  payload_fits = omega arith;
  body_fits = omega arith;
}

abbrev two_records : List (ℕ × LogRecord)
two_records = (64, inserted) ∷ (117, inserted) ∷ []

abbrev blank_header : List ℕ
blank_header = replicate 64 0

abbrev unwritten : List ℕ
unwritten = replicate 40 0

unwritten-Stops : Stops unwritten
unfolding get_u64 from_le
unwritten-Stops = inr (inl refl)

two_records_small : length (blank_header ++ frames length_crc two_records) ≡ 170
unfolding frames encode_record encode_body assemble_frame put_u16 put_u32 put_u64 push put_bytes_u32
    to_le
two_records_small = refl

scan_active-frames_example :
    scan_active length_crc (blank_header ++ (frames length_crc two_records ++ unwritten))
    ≡ (length (blank_header ++ frames length_crc two_records), last_lsn 0 two_records)
scan_active-frames_example =
    scan_active-frames length_crc blank_header two_records unwritten refl
      (
        (omega arith, omega arith, inserted-IsLoggable),
        ((omega arith, omega arith, inserted-IsLoggable), tt),
      )
      unwritten-Stops (omega (arith, two_records_small))
