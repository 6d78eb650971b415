-- ===== src/Sql/Value.antt =====
-- crates/prism-sql/src/types.rs and src/lib.rs: SQL values and their orders. A double is its 64 bits,
-- a text its bytes.
use prism_db.Common.{
  ℕ, ◌*◌, ◌%◌, ◌^◌, ◌<◌, ◌≤◌, ◌≡◌, ◌⊎◌, Bool, true, false, List, [], ◌∷◌, Option, none, some,
  if◌then◌else◌, ltb,
}
use Prim.Native.Nat.{compare, Ordering}
use prism_db.Common.Int.{ℤ, pos, negsuc}
use prism_db.Common.Bytes.{IsU64}

-- The columns' types are those of the values other than `null`.
pub data Value : Type 0 where
  null : Value
  bool : Bool → Value
  int64 : ℤ → Value
  double : (bits : ℕ) → Value
  timestamp : ℤ → Value
  text : List ℕ → Value

-- The order of doubles that are no NaN and not both zero, by their bits: negative before positive,
-- and negative ones in reverse.
unfoldable pub sign_magnitude : ℕ → ℕ → Ordering
sign_magnitude a b =
    if ltb a (2 ^ 63)
    then (if ltb b (2 ^ 63) then compare a b else Ordering.gt)
    else (if ltb b (2 ^ 63) then Ordering.lt else compare b a)

abbrev pub IsNumber : ℕ → Type 0
IsNumber bits = bits % 2 ^ 63 ≤ 2047 * 2 ^ 52

abbrev pub IsNonZero : ℕ → Type 0
IsNonZero bits = 0 < bits % 2 ^ 63

-- Not 0.0 and -0.0.
abbrev pub ZerosAgree : ℕ → ℕ → Type 0
ZerosAgree a b = IsNonZero a ⊎ IsNonZero b ⊎ (a ≡ b)

-- What the hardware gives: the double nearest to an integer, and the comparison of doubles.
pub record Floats : Type 0 where
  pub of_i64 : ℤ → ℕ
  pub partial_cmp : ℕ → ℕ → Option Ordering
  pub partial_cmp_numbers :
      (a b : ℕ)
      → IsU64 a
      → IsU64 b
      → IsNumber a
      → IsNumber b
      → ZerosAgree a b
      → partial_cmp a b ≡ some (sign_magnitude a b)

-- `x.cmp(y)` on `i64`, on `bool`, and on the bytes of strings.
unfoldable pub cmp_i64 : ℤ → ℤ → Ordering
cmp_i64 (pos a) (pos b) = compare a b
cmp_i64 (pos a) (negsuc b) = Ordering.gt
cmp_i64 (negsuc a) (pos b) = Ordering.lt
cmp_i64 (negsuc a) (negsuc b) = compare b a

unfoldable pub bool_u8 : Bool → ℕ
bool_u8 b = if b then 1 else 0

unfoldable pub cmp_bytes : List ℕ → List ℕ → Ordering
cmp_bytes [] [] = Ordering.eq
cmp_bytes [] (y ∷ ys) = Ordering.lt
cmp_bytes (x ∷ xs) [] = Ordering.gt
cmp_bytes (x ∷ xs) (y ∷ ys) = elim (compare x y) [
  | Ordering.lt ↦ Ordering.lt
  | Ordering.gt ↦ Ordering.gt
  | Ordering.eq ↦ cmp_bytes xs ys
]

pub data BinaryOperator : Type 0 where
  equal not_equal less less_or_equal greater greater_or_equal : BinaryOperator

module _ (F : Floats) where
  unfoldable pub as_f64 : Value → Option ℕ
  as_f64 (int64 n) = some (F.of_i64 n)
  as_f64 (double d) = some d
  as_f64 v = none

  -- The comparison of two values as numbers, `none` where they have none.
  unfoldable pub cmp_numbers : Value → Value → Option Ordering
  cmp_numbers a b = elim (as_f64 a) [
    | none ↦ none
    | some x ↦ elim (as_f64 b) [ none ↦ none | some y ↦ F.partial_cmp x y ]
  ]

  unfoldable pub or_equal : Option Ordering → Ordering
  or_equal none = Ordering.eq
  or_equal (some o) = o

  unfoldable pub value_cmp : Value → Value → Ordering
  value_cmp null null = Ordering.eq
  value_cmp null b = Ordering.gt
  value_cmp a null = Ordering.lt
  value_cmp (int64 x) (int64 y) = cmp_i64 x y
  value_cmp (text x) (text y) = cmp_bytes x y
  value_cmp (bool x) (bool y) = compare (bool_u8 x) (bool_u8 y)
  value_cmp (timestamp x) (timestamp y) = cmp_i64 x y
  value_cmp a b = or_equal (cmp_numbers a b)

  -- The order that `compare` goes by, `none` where it answers false at once.
  unfoldable pub compared : Value → Value → Option Ordering
  compared null b = none
  compared a null = none
  compared (int64 x) (int64 y) = some (cmp_i64 x y)
  compared (text x) (text y) = some (cmp_bytes x y)
  compared (bool x) (bool y) = some (compare (bool_u8 x) (bool_u8 y))
  compared (timestamp x) (timestamp y) = some (cmp_i64 x y)
  compared a b = cmp_numbers a b

  unfoldable pub holds : BinaryOperator → Ordering → Bool
  holds equal o = elim o [ Ordering.eq ↦ true | _ ↦ false ]
  holds not_equal o = elim o [ Ordering.eq ↦ false | _ ↦ true ]
  holds less o = elim o [ Ordering.lt ↦ true | _ ↦ false ]
  holds less_or_equal o = elim o [ Ordering.gt ↦ false | _ ↦ true ]
  holds greater o = elim o [ Ordering.gt ↦ true | _ ↦ false ]
  holds greater_or_equal o = elim o [ Ordering.lt ↦ false | _ ↦ true ]

  unfoldable pub compare_values : BinaryOperator → Value → Value → Bool
  compare_values op l r = elim (compared l r) [ none ↦ false | some o ↦ holds op o ]
