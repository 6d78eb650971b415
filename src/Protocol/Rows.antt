-- ===== src/Protocol/Rows.antt =====
-- crates/prism-protocol/src/data.rs: rows of a result, with a bitmap of their nulls.
pub mod Bitmap
pub mod RoundTrip
use prism_db.Common.{
  ℕ, zero, suc, ◌+◌, ◌/◌, ◌%◌, ◌^◌, Bool, true, false, List, [], ◌∷◌, Option, none, some, length,
  replicate, if◌then◌else◌, ◌==◌,
}
use prism_db.Common.Parsers.{Parser, ◌>>=◌, then_read, return, repeat}
use prism_db.Protocol.Errors.{ProtocolError}
use prism_db.Protocol.Codec.{Writer, ◌⊳◌, done, put_each, put_raw, take}
use prism_db.Protocol.Value.{Value, encode_value, decode_value, ColumnDesc}

abbrev pub Row : Type 0
Row = List (Option Value)

-- `byte & (1 << k) != 0` and `byte | 1 << k`, by the digit that stands at `k`.
unfoldable pub test_bit : ℕ → ℕ → Bool
test_bit byte k = byte / 2 ^ k % 2 == 1

unfoldable pub set_bit : ℕ → ℕ → ℕ
set_bit byte k = if test_bit byte k then byte else byte + 2 ^ k

-- `bitmap[n]` and a change of it. The source panics past the end, where no cell of a column is.
unfoldable pub byte_of : List ℕ → ℕ → ℕ
byte_of [] n = 0
byte_of (b ∷ bs) zero = b
byte_of (b ∷ bs) (suc n) = byte_of bs n

unfoldable pub set_in : List ℕ → ℕ → ℕ → List ℕ
set_in [] n k = []
set_in (b ∷ bs) zero k = set_bit b k ∷ bs
set_in (b ∷ bs) (suc n) k = b ∷ set_in bs n k

-- `columns.len().div_ceil(8)`
unfoldable pub bitmap_bytes : List ColumnDesc → ℕ
bitmap_bytes columns = (length columns + 7) / 8

-- The loop over a row's cells, from index `i`.
unfoldable pub mark_nulls : ℕ → Row → List ℕ → List ℕ
mark_nulls i [] bitmap = bitmap
mark_nulls i (none ∷ row) bitmap = mark_nulls (i + 1) row (set_in bitmap (i / 8) (i % 8))
mark_nulls i (some v ∷ row) bitmap = mark_nulls (i + 1) row bitmap

unfoldable pub put_cells : Row → Writer
put_cells [] = done
put_cells (none ∷ row) = put_cells row
put_cells (some v ∷ row) = encode_value v ⊳ put_cells row

unfoldable pub put_row : ℕ → Row → Writer
put_row nb row = put_raw (mark_nulls 0 row (replicate nb 0)) ⊳ put_cells row

unfoldable pub encode_rows : List ColumnDesc → List Row → Writer
encode_rows columns rows = put_each (put_row (bitmap_bytes columns)) rows

unfoldable pub is_null : List ℕ → ℕ → Bool
is_null bitmap i = test_bit (byte_of bitmap (i / 8)) (i % 8)

unfoldable pub read_cell : Bool → ColumnDesc → Parser ProtocolError (Option Value)
read_cell true col = return none
read_cell false col = do v ← decode_value col.type_tag; return (some v)

unfoldable pub read_cells : List ℕ → ℕ → List ColumnDesc → Parser ProtocolError Row
read_cells bitmap i [] = return []
read_cells bitmap i (col ∷ cols) = do
  cell ← read_cell (is_null bitmap i) col
  row ← read_cells bitmap (i + 1) cols
  return (cell ∷ row)

unfoldable pub read_row : List ColumnDesc → Parser ProtocolError Row
read_row columns = do
  bitmap ← take "row.null_bitmap" (bitmap_bytes columns)
  read_cells bitmap 0 columns

unfoldable pub decode_rows : List ColumnDesc → ℕ → Parser ProtocolError (List Row)
decode_rows columns row_count = repeat row_count (read_row columns)
