-- ===== src/Sql/SetOps/Rows.antt =====
-- crates/prism-sql/src/types.rs: the equality of values, by which rows are hashed: doubles are equal
-- by their bits.
use prism_db.Common.{ℕ, ◌≡◌, refl, ap, Bool, true, false, ◌&&◌, List, [], ◌∷◌, ◌==◌, ==_refl, arith}
use prism_db.Common.Int.{ℤ, pos, negsuc}
use prism_db.Sql.Value.{Value, null, bool, int64, double, timestamp, text, bool_u8}
use prism_db.Sql.SetOps.{Key}

unfoldable pub same_i64 : ℤ → ℤ → Bool
same_i64 (pos a) (pos b) = a == b
same_i64 (negsuc a) (negsuc b) = a == b
same_i64 a b = false

unfoldable pub same_text : List ℕ → List ℕ → Bool
same_text [] [] = true
same_text (x ∷ xs) (y ∷ ys) = x == y && same_text xs ys
same_text xs ys = false

unfoldable pub same_value : Value → Value → Bool
same_value null null = true
same_value (bool a) (bool b) = bool_u8 a == bool_u8 b
same_value (int64 a) (int64 b) = same_i64 a b
same_value (double a) (double b) = a == b
same_value (timestamp a) (timestamp b) = same_i64 a b
same_value (text a) (text b) = same_text a b
same_value a b = false

unfoldable pub same_row : List Value → List Value → Bool
same_row [] [] = true
same_row (x ∷ xs) (y ∷ ys) = same_value x y && same_row xs ys
same_row xs ys = false

same_i64_refl : (a : ℤ) → same_i64 a a ≡ true
unfolding same_i64
same_i64_refl (pos a) = ==_refl a
same_i64_refl (negsuc a) = ==_refl a

same_text_refl : (a : List ℕ) → same_text a a ≡ true
unfolding same_text
same_text_refl [] = refl
same_text_refl (x ∷ xs) = ground (arith, same_text_refl xs)

same_value_refl : (a : Value) → same_value a a ≡ true
unfolding same_value
same_value_refl null = refl
same_value_refl (bool a) = ==_refl (bool_u8 a)
same_value_refl (int64 a) = same_i64_refl a
same_value_refl (double a) = ==_refl a
same_value_refl (timestamp a) = same_i64_refl a
same_value_refl (text a) = same_text_refl a

pub same_row_refl : (a : List Value) → same_row a a ≡ true
unfolding same_row
same_row_refl [] = refl
same_row_refl (x ∷ xs) = ground (arith, same_row_refl xs, same_value_refl x)

same_number : (a b : ℕ) → (a == b) ≡ true → a ≡ b
same_number a b h = ground (arith, h)

same_i64-eq : (a b : ℤ) → same_i64 a b ≡ true → a ≡ b
unfolding same_i64
same_i64-eq (pos a) (pos b) h = ap pos (same_number a b h)
same_i64-eq (negsuc a) (negsuc b) h = ap negsuc (same_number a b h)
same_i64-eq a b h = absurd (cc h)

both_heads : (a b : Bool) → (a && b) ≡ true → (a ≡ true) × (b ≡ true)
both_heads a b h = ground (arith, h)

same_text-eq : (a b : List ℕ) → same_text a b ≡ true → a ≡ b
unfolding same_text
same_text-eq [] [] h = refl
same_text-eq (x ∷ xs) (y ∷ ys) h =
    let (head, rest) = both_heads (x == y) (same_text xs ys) h in
    cc (same_number x y head, same_text-eq xs ys rest)
same_text-eq xs ys h = absurd (cc h)

same_bool-eq : (a b : Bool) → (bool_u8 a == bool_u8 b) ≡ true → a ≡ b
unfolding bool_u8
same_bool-eq true true h = refl
same_bool-eq true false h = absurd (cc h)
same_bool-eq false true h = absurd (cc h)
same_bool-eq false false h = refl

same_value-eq : (a b : Value) → same_value a b ≡ true → a ≡ b
unfolding same_value
same_value-eq null null h = refl
same_value-eq (bool a) (bool b) h = ap bool (same_bool-eq a b h)
same_value-eq (int64 a) (int64 b) h = ap int64 (same_i64-eq a b h)
same_value-eq (double a) (double b) h = ap double (same_number a b h)
same_value-eq (timestamp a) (timestamp b) h = ap timestamp (same_i64-eq a b h)
same_value-eq (text a) (text b) h = ap text (same_text-eq a b h)
same_value-eq a b h = absurd (cc h)

pub same_row-eq : (a b : List Value) → same_row a b ≡ true → a ≡ b
unfolding same_row
same_row-eq [] [] h = refl
same_row-eq (x ∷ xs) (y ∷ ys) h =
    let (head, rest) = both_heads (same_value x y) (same_row xs ys) h in
    cc (same_value-eq x y head, same_row-eq xs ys rest)
same_row-eq xs ys h = absurd (cc h)

abbrev pub row_key : Key (List Value)
row_key = record { same = same_row; same_refl = same_row_refl; same_eq = same_row-eq }
