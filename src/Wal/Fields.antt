-- ===== src/Wal/Fields.antt =====
-- crates/prism-wal/src/record.rs: the little-endian write helpers, over the bytes written so far.
use prism_db.Common.{ℕ, ◌%◌, ◌^◌, List, [], ◌∷◌, ◌++◌, length}
use prism_db.Common.Bytes.{to_le}
use prism_db.Common.Int.{ℤ, i64_bits}

unfoldable pub put_u16 : List ℕ → ℕ → List ℕ
put_u16 out v = out ++ to_le 2 v

unfoldable pub put_u32 : List ℕ → ℕ → List ℕ
put_u32 out v = out ++ to_le 4 v

unfoldable pub put_u64 : List ℕ → ℕ → List ℕ
put_u64 out v = out ++ to_le 8 v

unfoldable pub put_i64 : List ℕ → ℤ → List ℕ
put_i64 out v = out ++ to_le 8 (i64_bits v)

-- `out.push(b)` of a `u8`
unfoldable pub push : List ℕ → ℕ → List ℕ
push out b = out ++ (b ∷ [])

unfoldable pub put_bytes_u32 : List ℕ → List ℕ → List ℕ
put_bytes_u32 out bytes = put_u32 out (length bytes % 2 ^ 32) ++ bytes
