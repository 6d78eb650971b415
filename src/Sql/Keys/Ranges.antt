-- ===== src/Sql/Keys/Ranges.antt =====
-- crates/prism-sql/src/lib.rs: `pk_range_seek_rids`, the bounds of a scan of the primary-key index,
-- and src/types.rs: the types of columns.
pub mod Bytes
pub mod Widths
pub mod Compares
pub mod Covers
pub mod Seek
use prism_db.Common.{
  ℕ, zero, suc, ◌+◌, Bool, true, false, not, ◌&&◌, List, [], ◌∷◌, ◌++◌, Option, none, some,
  if◌then◌else◌,
}
use Prim.Native.Nat.{Ordering}
use prism_db.Common.Results.{Result, ok, err}
use prism_db.Sql.Value.{Value, cmp_bytes}
use prism_db.Sql.Keys.{SqlError, encode_index_key}

pub data ColumnType : Type 0 where
  bool int64 double timestamp text : ColumnType

unfoldable pub type_matches : Value → ColumnType → Bool
type_matches Value.null ty = true
type_matches (Value.bool b) bool = true
type_matches (Value.int64 n) int64 = true
type_matches (Value.double d) double = true
type_matches (Value.timestamp n) timestamp = true
type_matches (Value.text s) text = true
type_matches v ty = false

-- The width of the keys of a column, `none` where they have none.
unfoldable pub key_len : ColumnType → Option ℕ
key_len int64 = some 8
key_len double = some 8
key_len timestamp = some 8
key_len bool = some 1
key_len text = none

-- A key that is just after the key of a value.
unfoldable pub stepped : Result SqlError (List ℕ) → Result SqlError (List ℕ)
stepped (ok k) = ok (k ++ 0 ∷ [])
stepped (err e) = err e

unfoldable pub filled : ℕ → List ℕ
filled zero = []
filled (suc n) = 255 ∷ filled n

-- A bound is a value and whether it is within.
unfoldable pub range_start : Option (Value × Bool) → Result SqlError (List ℕ)
range_start none = ok []
range_start (some (v, true)) = encode_index_key v
range_start (some (v, false)) = stepped (encode_index_key v)

unfoldable pub range_end : ℕ → Option (Value × Bool) → Result SqlError (List ℕ)
range_end width none = ok (filled (width + 1))
range_end width (some (v, false)) = encode_index_key v
range_end width (some (v, true)) = stepped (encode_index_key v)

unfoldable pub unbounded : Option (Value × Bool) → Option (Value × Bool) → Bool
unbounded none none = true
unbounded lower upper = false

unfoldable pub bounded_scan :
    Option ℕ
    → Option (Value × Bool)
    → Option (Value × Bool)
    → Option (Result SqlError (List ℕ) × Result SqlError (List ℕ))
bounded_scan none lower upper = none
bounded_scan (some width) lower upper = some (range_start lower, range_end width upper)

-- The scan that bounds on the primary key give, `none` where the caller scans the table.
unfoldable pub pk_range :
    ColumnType
    → Option (Value × Bool)
    → Option (Value × Bool)
    → Option (Result SqlError (List ℕ) × Result SqlError (List ℕ))
pk_range ty lower upper =
    if unbounded lower upper then none else bounded_scan (key_len ty) lower upper

-- A comparison of the key column with a literal, as `collect_ranges` gives it.
pub data RangeOp : Type 0 where
  gt ge lt le : RangeOp

pub record Bounds : Type 0 where
  pub lower : Option (Value × Bool)
  pub upper : Option (Value × Bool)

unfoldable pub tighten : Bounds → RangeOp → Value → Bounds
tighten b gt v = record b { lower = some (v, false) }
tighten b ge v = record b { lower = some (v, true) }
tighten b lt v = record b { upper = some (v, false) }
tighten b le v = record b { upper = some (v, true) }

-- The last bound of each side is kept. A literal of another type bounds nothing.
unfoldable pub bounds_of : ColumnType → Bounds → List (RangeOp × Value) → Bounds
bounds_of ty b [] = b
bounds_of ty b ((op, v) ∷ ranges) =
    bounds_of ty (if type_matches v ty then tighten b op v else b) ranges

unfoldable pub pk_range_seek :
    ColumnType
    → List (RangeOp × Value)
    → Option (Result SqlError (List ℕ) × Result SqlError (List ℕ))
pk_range_seek ty ranges =
    let b = bounds_of ty (record { lower = none; upper = none }) ranges in
    pk_range ty b.lower b.upper

-- `range(start, end)` of the tree takes the keys from `start` on that come before `end`.
unfoldable pub scanned :
    Result SqlError (List ℕ) → Result SqlError (List ℕ) → Result SqlError (List ℕ) → Bool
scanned (ok start) (ok end) (ok key) = elim (cmp_bytes start key) [
  | Ordering.gt ↦ false
  | _ ↦ elim (cmp_bytes key end) [ Ordering.lt ↦ true | _ ↦ false ]
]
scanned start end key = false
