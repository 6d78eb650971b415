-- ===== src/Wal/FieldLaws.antt =====
-- crates/prism-wal/src/record.rs: the helpers that write a field with those that read it.
use prism_db.Common.{ℕ, ◌%◌, ◌^◌, ◌≡◌, List, [], ◌∷◌, ◌++◌, arith, length, append_assoc}
use prism_db.Common.Bytes.{IsU16, IsU32, IsU64, to_le, from_le, length-to_le, from_le-to_le}
use prism_db.Common.Int.{ℤ, IsI64, i64_bits, i64_bits-lt, i64_of_bits-i64_bits}
use prism_db.Common.Parsers.{Reads, read_exact-append}
use prism_db.Wal.Fields.{put_u32, put_bytes_u32}
use prism_db.Wal.Reader

take-append : (n : ℕ) (bs : List ℕ) → length bs ≡ n → Reads (Reader.take n) bs bs
unfolding Reader.take
take-append n bs h rest = read_exact-append n _ bs rest h

pub u8-Reads : (v : ℕ) → Reads Reader.u8 (v ∷ []) v
unfolding Reader.u8 from_le
u8-Reads v rest = rw (take-append 1 (v ∷ []) (omega arith) rest) (ground arith)

pub u16-Reads : (v : ℕ) → IsU16 v → Reads Reader.u16 (to_le 2 v) v
unfolding Reader.u16
u16-Reads v h rest = rw (take-append 2 (to_le 2 v) (length-to_le 2 v) rest, from_le-to_le 2 v h)

pub u32-Reads : (v : ℕ) → IsU32 v → Reads Reader.u32 (to_le 4 v) v
unfolding Reader.u32
u32-Reads v h rest = rw (take-append 4 (to_le 4 v) (length-to_le 4 v) rest, from_le-to_le 4 v h)

pub u64-Reads : (v : ℕ) → IsU64 v → Reads Reader.u64 (to_le 8 v) v
unfolding Reader.u64
u64-Reads v h rest = rw (take-append 8 (to_le 8 v) (length-to_le 8 v) rest, from_le-to_le 8 v h)

pub i64-Reads : (v : ℤ) → IsI64 v → Reads Reader.i64 (to_le 8 (i64_bits v)) v
unfolding Reader.i64
i64-Reads v h rest = rw (u64-Reads (i64_bits v) (i64_bits-lt v) rest, i64_of_bits-i64_bits v h)

-- What `put_bytes_u32` writes: the length, and the bytes.
unfoldable pub framed : List ℕ → List ℕ
framed bytes = to_le 4 (length bytes) ++ bytes

small_mod : (v : ℕ) → IsU32 v → v % 2 ^ 32 ≡ v
small_mod v h = omega arith

pub put_bytes_u32-framed :
    (out bytes : List ℕ) → IsU32 (length bytes) → put_bytes_u32 out bytes ≡ out ++ framed bytes
unfolding put_bytes_u32 put_u32 framed
put_bytes_u32-framed out bytes h =
    rw (small_mod (length bytes) h) (append_assoc out (to_le 4 (length bytes)) bytes)

pub bytes_u32-Reads :
    (bytes : List ℕ) → IsU32 (length bytes) → Reads Reader.bytes_u32 (framed bytes) bytes
unfolding Reader.bytes_u32 framed
bytes_u32-Reads bytes h rest = rw (
  append_assoc (to_le 4 (length bytes)) bytes rest,
  u32-Reads (length bytes) h (bytes ++ rest),
  take-append (length bytes) bytes (omega arith) rest,
)
