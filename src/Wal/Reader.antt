-- ===== src/Wal/Reader.antt =====
-- crates/prism-wal/src/record.rs: the bounds-checked `Reader` of record bodies. Its state is the
-- slice `b[p..]` that is not consumed yet.
use prism_db.Common.{ℕ, List}
use prism_db.Common.Bytes.{from_le}
use prism_db.Common.Int.{ℤ, i64_of_bits}
use prism_db.Common.Parsers.{Parser, ◌>>=◌, return, read_exact}
use prism_db.Wal.Payload.{WalError, decode}

unfoldable pub take : ℕ → Parser WalError (List ℕ)
take n = read_exact n (decode "record body truncated")

-- The byte that `take(1)?[0]` is; `take` gives one byte exactly.
unfoldable pub u8 : Parser WalError ℕ
u8 = do s ← take 1; return (from_le s)

unfoldable pub u16 : Parser WalError ℕ
u16 = do s ← take 2; return (from_le s)

unfoldable pub u32 : Parser WalError ℕ
u32 = do s ← take 4; return (from_le s)

unfoldable pub u64 : Parser WalError ℕ
u64 = do s ← take 8; return (from_le s)

unfoldable pub i64 : Parser WalError ℤ
i64 = do v ← u64; return (i64_of_bits v)

unfoldable pub bytes_u32 : Parser WalError (List ℕ)
bytes_u32 = do len ← u32; take len
