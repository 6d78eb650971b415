-- ===== src/Protocol/Rows/RoundTrip.antt =====
-- crates/prism-protocol/src/data.rs: rows, encoded and decoded.
use prism_db.Common.{
  ℕ, suc, ◌+◌, ◌*◌, ◌/◌, ◌≡◌, ◌≤◌, ◌∙◌, refl, ap, false, List, [], ◌∷◌, none, some, length,
  replicate, length-replicate, arith, All,
}
use prism_db.Protocol.Encodes.{Encodes, done-Encodes, then-Encodes, map-Encodes, put_each-Encodes}
use prism_db.Protocol.Fields.{raw-Encodes}
use prism_db.Protocol.Value.{Value, type_tag, encode_value, ColumnDesc}
use prism_db.Protocol.Value.RoundTrip.{IsValue, value-Encodes}
use prism_db.Protocol.Rows.{
  Row, bitmap_bytes, mark_nulls, put_cells, put_row, encode_rows, read_cell, read_cells, read_row,
  decode_rows,
}
use prism_db.Protocol.Rows.Bitmap.{Tells, mark_nulls-Tells, length-mark_nulls, is_null_blank}

-- Each cell is null or a value of its column's type.
abbrev pub IsRow : List ColumnDesc → Row → Type 0
IsRow [] [] = Unit {0}
IsRow [] (c ∷ row) = ⊥
IsRow (col ∷ cols) [] = ⊥
IsRow (col ∷ cols) (none ∷ row) = IsRow cols row
IsRow (col ∷ cols) (some v ∷ row) = (type_tag v ≡ col.type_tag) × IsValue v × IsRow cols row

IsRow-length : (cols : List ColumnDesc) (row : Row) → IsRow cols row → length row ≡ length cols
IsRow-length [] [] h = refl
IsRow-length [] (c ∷ row) h = absurd h
IsRow-length (col ∷ cols) [] h = absurd h
IsRow-length (col ∷ cols) (none ∷ row) h = ap suc (IsRow-length cols row h)
IsRow-length (col ∷ cols) (some v ∷ row) h = ap suc (IsRow-length cols row h.2)

room :
    (cols : List ColumnDesc) (row : Row)
    → IsRow cols row
    → 0 + length row ≤ 8 * length {A = ℕ} (replicate (bitmap_bytes cols) 0)
unfolding bitmap_bytes
room cols row h =
    omega (arith, IsRow-length cols row h, length-replicate {A = ℕ} ((length cols + 7) / 8) 0)

cell-Encodes :
    (v : Value) (col : ColumnDesc)
    → type_tag v ≡ col.type_tag
    → IsValue v
    → Encodes (encode_value v) (read_cell false col) (some v)
unfolding read_cell
cell-Encodes v col tag h = rw (← tag) (map-Encodes some (value-Encodes v h))

cells-Encodes :
    (bm : List ℕ) (i : ℕ) (cols : List ColumnDesc) (row : Row)
    → IsRow cols row
    → Tells bm i row
    → Encodes (put_cells row) (read_cells bm i cols) row
unfolding put_cells read_cells read_cell
cells-Encodes bm i [] [] h t = done-Encodes []
cells-Encodes bm i [] (c ∷ row) h t = absurd h
cells-Encodes bm i (col ∷ cols) [] h t = absurd h
cells-Encodes bm i (col ∷ cols) (none ∷ row) h (t, ts) =
    rw t (map-Encodes (λ r. none ∷ r) (cells-Encodes bm (i + 1) cols row h ts))
cells-Encodes bm i (col ∷ cols) (some v ∷ row) (tag, hv, h) (t, ts) = rw t (
    then-Encodes _ (cell-Encodes v col tag hv)
      (map-Encodes (λ r. some v ∷ r) (cells-Encodes bm (i + 1) cols row h ts)))

row-Encodes :
    (cols : List ColumnDesc) (row : Row)
    → IsRow cols row
    → Encodes (put_row (bitmap_bytes cols) row) (read_row cols) row
unfolding put_row read_row
row-Encodes cols row h =
    let nb = bitmap_bytes cols in
    let blank = replicate nb 0 in
    let bitmap = mark_nulls 0 row blank in
    then-Encodes (λ bm. read_cells bm 0 cols)
      (raw-Encodes _ nb bitmap (length-mark_nulls 0 row blank ∙ length-replicate nb 0))
      (cells-Encodes bitmap 0 cols row h
        (mark_nulls-Tells 0 row blank (room cols row h) (λ j _. is_null_blank nb j)))

-- Rows whose cells are of their columns' types.
pub rows-Encodes :
    (cols : List ColumnDesc) (rows : List Row)
    → All (IsRow cols) rows
    → Encodes (encode_rows cols rows) (decode_rows cols (length rows)) rows
unfolding encode_rows decode_rows
rows-Encodes cols rows h =
    put_each-Encodes (put_row (bitmap_bytes cols)) (read_row cols) rows (IsRow cols)
      (row-Encodes cols) h
