-- ===== src/Sql/Keys.antt =====
-- crates/prism-sql/src/lib.rs: the keys of an index, and the bounds of a range scan.
pub mod Order
pub mod Ranges
use prism_db.Common.{
  ℕ, zero, suc, ◌+◌, ◌-◌, ◌/◌, ◌%◌, ◌^◌, Bool, true, false, List, [], ◌∷◌, ◌++◌, Option, none, some,
  if◌then◌else◌, ltb, length,
}
use prism_db.Common.Results.{Result, ok, err}
use prism_db.Common.Bytes.{to_le}
use prism_db.Common.Int.{ℤ, i64_bits}
use prism_db.Core.Record.{RecordId}
use prism_db.Sql.Value.{Value, null, bool, int64, double, timestamp, text, bool_u8, Floats}

-- The case that the keys give, for a primary key that is NULL.
pub data SqlError : Type 0 where
  constraint : SqlError

-- `to_be_bytes` of an integer of `n` bytes.
unfoldable pub to_be : ℕ → ℕ → List ℕ
to_be zero v = []
to_be (suc n) v = (v / 256 ^ n) % 256 ∷ to_be n (v % 256 ^ n)

-- `bits ^ (1 << 63)` on `u64`.
unfoldable pub flip_sign : ℕ → ℕ
flip_sign bits = (bits + 2 ^ 63) % 2 ^ 64

unfoldable pub ordered_bits : ℕ → ℕ
ordered_bits bits = if ltb bits (2 ^ 63) then flip_sign bits else 2 ^ 64 - 1 - bits

unfoldable pub encode_index_key : Value → Result SqlError (List ℕ)
encode_index_key (int64 n) = ok (to_be 8 (flip_sign (i64_bits n)))
encode_index_key (timestamp n) = ok (to_be 8 (flip_sign (i64_bits n)))
encode_index_key (double d) = ok (to_be 8 (ordered_bits d))
encode_index_key (text s) = ok s
encode_index_key (bool b) = ok (bool_u8 b ∷ [])
encode_index_key null = err constraint
