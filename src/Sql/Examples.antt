-- ===== src/Sql/Examples.antt =====
-- crates/prism-sql/src: patterns, rows and keys, on a machine with coarse doubles.
use prism_db.Common.{
  All, List, [], ◌∷◌, Option, none, some, ℕ, zero, suc, ◌+◌, ◌-◌, ◌*◌, ◌%◌, ◌^◌, ◌≤◌, ◌≡◌, refl,
  Bool, true, false, ◌&&◌, if◌then◌else◌, ltb, leb, ◌==◌, min, arith,
}
use Prim.Native.Nat.{Ordering}
use prism_db.Common.Int.{ℤ, pos, negsuc}
use prism_db.Common.Bytes.{IsU64}
use prism_db.Common.Maps.{contains}
use prism_db.Sql.Like.{like_match, like_loop, like_fuel, like_step, backtrack, only_percents, tail}
use prism_db.Sql.Like.Reference.{is_like}
use prism_db.Sql.Like.Correct.{like_match-is_like}
use prism_db.Sql.Like.Percent.{like_match-percent}
use prism_db.Sql.SetOps.{set_union, set_intersect, set_except}
use prism_db.Sql.SetOps.Rows.{row_key}
use prism_db.Sql.SetOps.Counts.{count}
use prism_db.Sql.SetOps.Multiset.{set_operations_all, set_operations_distinct}
use prism_db.Sql.Value.{
  Value, int64, double, Floats, sign_magnitude, IsNumber, ZerosAgree, compare_values, cmp_i64,
  compared, holds,
}
use prism_db.Sql.Keys.{encode_index_key}
use prism_db.Sql.Keys.Order.{integers, two_doubles, cmp_keys, cmp_signed_zeros, key_order}
use prism_db.Sql.Keys.Ranges.{
  ColumnType, RangeOp, bounds_of, tighten, pk_range_seek, pk_range, unbounded, bounded_scan,
  key_len, range_start, range_end, scanned, type_matches,
}
use prism_db.Sql.Keys.Ranges.Seek.{Admits, pk_range_seek_covers}

-- 'abcab' LIKE 'a%_b'
abbrev text_1 : List ℕ
text_1 = 97 ∷ 98 ∷ 99 ∷ 97 ∷ 98 ∷ []

abbrev pattern_1 : List ℕ
pattern_1 = 97 ∷ 37 ∷ 95 ∷ 98 ∷ []

like_match-is_like_example : like_match text_1 pattern_1 ≡ some (is_like pattern_1 text_1)
unfolding contains
like_match-is_like_example = like_match-is_like text_1 pattern_1 refl

-- The loop goes back once.
like_match_run : like_match text_1 pattern_1 ≡ some true
unfolding like_match like_loop like_fuel like_step backtrack only_percents tail
like_match_run = refl

-- '5%!' LIKE '5%'
like_match-percent_example :
    (like_match (53 ∷ 37 ∷ 33 ∷ []) (53 ∷ 37 ∷ []) ≡ some false)
    × (is_like (53 ∷ 37 ∷ []) (53 ∷ 37 ∷ 33 ∷ []) ≡ true)
like_match-percent_example = like_match-percent (53 ∷ []) [] 33

-- Rows of one integer.
abbrev row : ℕ → List Value
row n = int64 (pos n) ∷ []

abbrev left_rows : List (List Value)
left_rows = row 7 ∷ row 8 ∷ row 7 ∷ row 7 ∷ []

abbrev right_rows : List (List Value)
right_rows = row 7 ∷ row 9 ∷ row 7 ∷ []

set_operations_all_example :
    (count row_key (row 7) (set_union row_key left_rows right_rows true)
      ≡ count row_key (row 7) left_rows + count row_key (row 7) right_rows)
    × (count row_key (row 7) (set_intersect row_key left_rows right_rows true)
        ≡ min (count row_key (row 7) left_rows) (count row_key (row 7) right_rows))
    × (count row_key (row 7) (set_except row_key left_rows right_rows true)
        ≡ count row_key (row 7) left_rows - count row_key (row 7) right_rows)
set_operations_all_example = set_operations_all row_key (row 7) left_rows right_rows

set_operations_distinct_example :
    (count row_key (row 7) (set_union row_key left_rows right_rows false)
      ≡ min 1 (count row_key (row 7) left_rows + count row_key (row 7) right_rows))
    × (count row_key (row 7) (set_intersect row_key left_rows right_rows false)
        ≡ min 1 (min (count row_key (row 7) left_rows) (count row_key (row 7) right_rows)))
    × (count row_key (row 7) (set_except row_key left_rows right_rows false) ≡ (
        if ltb 0 (count row_key (row 7) right_rows)
        then 0
        else min 1 (count row_key (row 7) left_rows)))
set_operations_distinct_example = set_operations_distinct row_key (row 7) left_rows right_rows

-- A machine whose doubles round integers towards zero to a power of two.
log2_upto : ℕ → ℕ → ℕ
log2_upto zero n = 0
log2_upto (suc k) n = let rest = log2_upto k n in if ltb n (2 ^ suc k) then rest else suc k

log2_upto_bound : (k n : ℕ) → log2_upto k n ≤ k
unfolding log2_upto
log2_upto_bound zero n = omega arith
log2_upto_bound (suc k) n = ground (arith, log2_upto_bound k n)

coarse_of : ℕ → ℕ
coarse_of n = if n == 0 then 0 else (1023 + log2_upto 62 n) * 2 ^ 52

coarse_of_i64 : ℤ → ℕ
coarse_of_i64 (pos n) = coarse_of n
coarse_of_i64 (negsuc n) = 2 ^ 63 + coarse_of (n + 1)

coarse_cmp : ℕ → ℕ → Option Ordering
coarse_cmp a b =
    if leb (a % 2 ^ 63) (2047 * 2 ^ 52) && leb (b % 2 ^ 63) (2047 * 2 ^ 52)
    then (if a % 2 ^ 63 + b % 2 ^ 63 == 0 then some Ordering.eq else some (sign_magnitude a b))
    else none

coarse_cmp-numbers :
    (a b : ℕ)
    → IsU64 a
    → IsU64 b
    → IsNumber a
    → IsNumber b
    → ZerosAgree a b
    → coarse_cmp a b ≡ some (sign_magnitude a b)
unfolding coarse_cmp sign_magnitude
coarse_cmp-numbers a b h k m n z = ground (arith, m, n, z)

abbrev coarse : Floats
coarse = record {
  of_i64 = coarse_of_i64;
  partial_cmp = coarse_cmp;
  partial_cmp_numbers = coarse_cmp-numbers;
}

-- The bits of -0.0 and of 0.0.
key_order_example :
    cmp_keys (encode_index_key (double (2 ^ 63))) (encode_index_key (double 0))
    ≡ some (cmp_signed_zeros coarse (double (2 ^ 63)) (double 0))
key_order_example =
    key_order coarse
      (two_doubles {a = 2 ^ 63} {b = 0} (omega arith) (omega arith) (omega arith) (omega arith))

-- k > -5 AND k <= 9 AND k >= 1, at a row with k = 3.
abbrev ranges : List (RangeOp × Value)
ranges =
    (RangeOp.gt, int64 (negsuc 4)) ∷ (RangeOp.le, int64 (pos 9)) ∷ (RangeOp.ge, int64 (pos 1)) ∷ []

ranges-Admits : All (Admits coarse ColumnType.int64 (int64 (pos 3))) ranges
unfolding compare_values compared cmp_i64 holds
ranges-Admits = (
  (λ m. (integers {a = pos 3} {b = negsuc 4} (omega arith) (omega arith), refl)),
  (
    (λ m. (integers {a = pos 3} {b = pos 9} (omega arith) (omega arith), refl)),
    ((λ m. (integers {a = pos 3} {b = pos 1} (omega arith) (omega arith), refl)), tt),
  ),
)

abbrev lower : Option (Value × Bool)
lower = some (int64 (pos 1), true)

abbrev upper : Option (Value × Bool)
upper = some (int64 (pos 9), true)

pk_range_seek_covers_example :
    scanned (range_start lower) (range_end 8 upper) (encode_index_key (int64 (pos 3))) ≡ true
unfolding pk_range_seek bounds_of tighten pk_range unbounded bounded_scan key_len type_matches
pk_range_seek_covers_example =
    pk_range_seek_covers coarse ColumnType.int64 ranges (range_start lower) (range_end 8 upper)
      (int64 (pos 3)) refl refl (λ e. cc e) ranges-Admits
