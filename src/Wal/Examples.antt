-- ===== src/Wal/Examples.antt =====
-- Log records at concrete inputs. The checksum is the sum of the bytes.
use prism_db.Common.{
  ℕ, ◌+◌, ◌%◌, ◌^◌, ◌≡◌, refl, List, [], ◌∷◌, ◌++◌, foldl, arith, length, take, if◌then◌else◌, ltb,
}
use prism_db.Common.Results.{ok, err}
use prism_db.Common.Bytes.{IsU32, to_le}
use prism_db.Common.Crc.{Crc32}
use prism_db.Wal.Payload.{RecordPayload, insert, checkpoint_contents, LogRecord, decode}
use prism_db.Wal.Fields.{put_u16, put_u32, put_u64, push, put_bytes_u32}
use prism_db.Wal.Record.{encode_body, encode_record, decode_record, assemble_frame}
use prism_db.Wal.Record.Frames.{IsLoggable, decode_record-encode_record}
use prism_db.Wal.Record.Torn.{decode_record_torn}

sum-IsU32 : (bytes : List ℕ) → IsU32 (foldl ◌+◌ 0 bytes % 2 ^ 32)
sum-IsU32 bytes = omega arith

abbrev sum_crc : Crc32
sum_crc = record { hash = λ bytes. foldl ◌+◌ 0 bytes % 2 ^ 32; hash-IsU32 = sum-IsU32 }

abbrev contents : RecordPayload
contents = checkpoint_contents ((7, 640) ∷ []) ((5, 1, 704) ∷ (6, 0, 0) ∷ [])

abbrev inserted : LogRecord
inserted = record { txn_id = 5; prev_lsn = 0; payload = insert 7 2 (10 ∷ 20 ∷ 30 ∷ []) }

abbrev inserted_frame : List ℕ
inserted_frame =
    64 ∷ 0 ∷ 0 ∷ 0 ∷ 0 ∷ 0 ∷ 0 ∷ 0 ∷ 17 ∷ 0 ∷ 0 ∷ 0 ∷ 1 ∷ 0 ∷ 0 ∷ 0 ∷ 5 ∷ 0 ∷ 0 ∷ 0 ∷ 0 ∷ 0 ∷ 0 ∷ 0
    ∷ 0 ∷ 0 ∷ 0 ∷ 0 ∷ 0 ∷ 0 ∷ 0 ∷ 0 ∷ 7 ∷ 0 ∷ 0 ∷ 0 ∷ 0 ∷ 0 ∷ 0 ∷ 0 ∷ 2 ∷ 0 ∷ 3 ∷ 0 ∷ 0 ∷ 0 ∷ 10
    ∷ 20 ∷ 30 ∷ 159 ∷ 0 ∷ 0 ∷ 0 ∷ []

inserted_bytes : encode_record sum_crc 64 inserted ≡ inserted_frame
unfolding encode_record encode_body assemble_frame put_u16 put_u32 put_u64 push put_bytes_u32 to_le
inserted_bytes = refl

inserted-IsLoggable : IsLoggable inserted
unfolding encode_body put_u16 put_u32 put_u64 put_bytes_u32 to_le
inserted-IsLoggable = record {
  txn_id_fits = omega arith;
  prev_lsn_fits = omega arith;
  payload_fits = omega arith;
  body_fits = omega arith;
}

decode_record-encode_record_example :
    decode_record sum_crc (encode_record sum_crc 64 inserted ++ (1 ∷ 2 ∷ []))
    ≡ ok (64, inserted, length (encode_record sum_crc 64 inserted))
decode_record-encode_record_example =
    decode_record-encode_record sum_crc 64 inserted (1 ∷ 2 ∷ []) (omega arith) inserted-IsLoggable

decode_record_torn_example :
    decode_record sum_crc (take 52 inserted_frame)
    ≡ err (
        decode
          (if ltb 52 32 then "frame shorter than header" else "frame shorter than declared length"))
decode_record_torn_example =
    decode_record_torn sum_crc 64 inserted (take 52 inserted_frame) 0 []
      (inserted-IsLoggable.body_fits) inserted_bytes
