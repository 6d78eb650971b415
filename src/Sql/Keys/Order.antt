-- ===== src/Sql/Keys/Order.antt =====
-- crates/prism-sql/src/lib.rs: the bytes of keys are ordered as the values.
use prism_db.Common.{
  ℕ, zero, suc, ◌+◌, ◌*◌, ◌/◌, ◌%◌, ◌^◌, ◌<◌, ◌≡◌, ◌∙◌, refl, ap, sym, Bool, true, false, List, [],
  ◌∷◌, Option, none, some, arith, inl, inr, Bool-cases, ltb, if◌then◌else◌,
}
use Prim.Native.Nat.{compare, Ordering}
use native.Mathlib.Nat.{mod-lt, mod-eq_of_lt, div-add-mod, div-lt_iff_lt-mul}
use prism_db.Common.Results.{Result, ok}
use prism_db.Common.Int.{ℤ, pos, negsuc, IsI64, i64_bits}
use prism_db.Common.Bytes.{IsU64}
use prism_db.Sql.Value.{
  Value, bool, int64, double, timestamp, text, bool_u8, Floats, sign_magnitude, IsNumber,
  ZerosAgree, cmp_i64, cmp_bytes, cmp_numbers, as_f64, or_equal, value_cmp,
}
use prism_db.Sql.Keys.{SqlError, to_be, flip_sign, ordered_bits, encode_index_key}

-- A number in two digits, of which the first decides.
first_digit : (p q r q' r' : ℕ) → r < p → q < q' → p * q + r < p * q' + r'
first_digit p q r q' r' h lt = grind arith

two_digits :
    (p q r q' r' : ℕ)
    → r < p
    → r' < p
    → compare (p * q + r) (p * q' + r') ≡ elim (compare q q') [
      | Ordering.lt ↦ Ordering.lt
      | Ordering.gt ↦ Ordering.gt
      | Ordering.eq ↦ compare r r'
    ]
two_digits p q r q' r' h h' =
    let same : q ≡ q' → p * q ≡ p * q' = λ e. ap (λ x. p * x) e in
    ground (arith, first_digit p q r q' r' h, first_digit p q' r' q r h', same)

power_pos : (n : ℕ) → 0 < 256 ^ n
power_pos zero = omega arith
power_pos (suc n) = omega (arith, power_pos n, power_suc n)
  where
    power_suc : (n : ℕ) → 256 ^ suc n ≡ 256 * 256 ^ n
    power_suc n = grind arith

-- The first of n + 1 bytes.
first_byte : (n v : ℕ) → v < 256 ^ suc n → (v / 256 ^ n) % 256 ≡ v / 256 ^ n
first_byte n v h = mod-eq_of_lt ((div-lt_iff_lt-mul (power_pos n)).1 (grind (arith, h)))

next_bytes :
    {o : Ordering} (x y : ℕ) (xs ys : List ℕ)
    → cmp_bytes xs ys ≡ o
    → cmp_bytes (x ∷ xs) (y ∷ ys) ≡ elim (compare x y) [
      | Ordering.lt ↦ Ordering.lt
      | Ordering.gt ↦ Ordering.gt
      | Ordering.eq ↦ o
    ]
unfolding cmp_bytes
next_bytes x y xs ys e =
    ap
      (λ o. elim (compare x y) [
        | Ordering.lt ↦ Ordering.lt
        | Ordering.gt ↦ Ordering.gt
        | Ordering.eq ↦ o
      ])
      e

cmp_both : {a b c d : ℕ} → a ≡ b → c ≡ d → compare a c ≡ compare b d
cmp_both e f = rw (e, f) refl

pub cmp_bytes-to_be :
    (n v w : ℕ) → v < 256 ^ n → w < 256 ^ n → cmp_bytes (to_be n v) (to_be n w) ≡ compare v w
unfolding to_be cmp_bytes
cmp_bytes-to_be zero v w h k = ground arith
cmp_bytes-to_be (suc n) v w h k =
    rw (first_byte n v h, first_byte n w k)
      (next_bytes (v / 256 ^ n) (w / 256 ^ n) (to_be n (v % 256 ^ n)) (to_be n (w % 256 ^ n)) (
          cmp_bytes-to_be n (v % 256 ^ n) (w % 256 ^ n) (mod-lt v (power_pos n))
            (mod-lt w (power_pos n)))
        ∙ sym (
            two_digits (256 ^ n) (v / 256 ^ n) (v % 256 ^ n) (w / 256 ^ n) (w % 256 ^ n)
              (mod-lt v (power_pos n)) (mod-lt w (power_pos n)))
        ∙ cmp_both (div-add-mod v (256 ^ n)) (div-add-mod w (256 ^ n)))

flip_order :
    (a b : ℤ)
    → IsI64 a
    → IsI64 b
    → compare (flip_sign (i64_bits a)) (flip_sign (i64_bits b)) ≡ cmp_i64 a b
unfolding flip_sign i64_bits cmp_i64
flip_order (pos a) (pos b) h k = ground arith
flip_order (pos a) (negsuc b) h k = ground arith
flip_order (negsuc a) (pos b) h k = ground arith
flip_order (negsuc a) (negsuc b) h k = ground arith

double_order :
    (a b : ℕ) → IsU64 a → IsU64 b → compare (ordered_bits a) (ordered_bits b) ≡ sign_magnitude a b
unfolding ordered_bits flip_sign sign_magnitude
double_order a b h k = ground arith

-- Values of one type, within its range; doubles that are no NaN, and not 0.0 and -0.0.
pub data IsOrdered : Value → Value → Type 0 where
  integers : {a b : ℤ} → IsI64 a → IsI64 b → IsOrdered (int64 a) (int64 b)
  times : {a b : ℤ} → IsI64 a → IsI64 b → IsOrdered (timestamp a) (timestamp b)
  doubles :
      {a b : ℕ}
      → IsU64 a
      → IsU64 b
      → IsNumber a
      → IsNumber b
      → ZerosAgree a b
      → IsOrdered (double a) (double b)
  texts : {a b : List ℕ} → IsOrdered (text a) (text b)
  booleans : {a b : Bool} → IsOrdered (bool a) (bool b)

-- The same with all zeros.
pub data IsAlike : Value → Value → Type 0 where
  two_integers : {a b : ℤ} → IsI64 a → IsI64 b → IsAlike (int64 a) (int64 b)
  two_times : {a b : ℤ} → IsI64 a → IsI64 b → IsAlike (timestamp a) (timestamp b)
  two_doubles :
      {a b : ℕ} → IsU64 a → IsU64 b → IsNumber a → IsNumber b → IsAlike (double a) (double b)
  two_texts : {a b : List ℕ} → IsAlike (text a) (text b)
  two_booleans : {a b : Bool} → IsAlike (bool a) (bool b)

-- The order of ORDER BY, but -0.0 before 0.0.
unfoldable pub cmp_signed_zeros : Floats → Value → Value → Ordering
cmp_signed_zeros F (double a) (double b) =
    if ltb 0 (a % 2 ^ 63)
    then value_cmp F (double a) (double b)
    else if ltb 0 (b % 2 ^ 63)
    then value_cmp F (double a) (double b)
    else compare (b / 2 ^ 63) (a / 2 ^ 63)
cmp_signed_zeros F a b = value_cmp F a b

-- The keys of two values, compared byte by byte.
unfoldable pub cmp_keys : Result SqlError (List ℕ) → Result SqlError (List ℕ) → Option Ordering
cmp_keys (ok x) (ok y) = some (cmp_bytes x y)
cmp_keys x y = none

pub int_keys :
    (a b : ℤ)
    → IsI64 a
    → IsI64 b
    → cmp_bytes (to_be 8 (flip_sign (i64_bits a))) (to_be 8 (flip_sign (i64_bits b))) ≡ cmp_i64 a b
unfolding flip_sign
int_keys a b h k =
    cmp_bytes-to_be 8 (flip_sign (i64_bits a)) (flip_sign (i64_bits b)) (omega arith) (omega arith)
    ∙ flip_order a b h k

pub double_keys :
    (a b : ℕ)
    → IsU64 a
    → IsU64 b
    → cmp_bytes (to_be 8 (ordered_bits a)) (to_be 8 (ordered_bits b)) ≡ sign_magnitude a b
unfolding ordered_bits flip_sign
double_keys a b h k =
    cmp_bytes-to_be 8 (ordered_bits a) (ordered_bits b) (ground arith) (ground arith)
    ∙ double_order a b h k

pub bool_keys :
    (a b : Bool) → cmp_bytes (bool_u8 a ∷ []) (bool_u8 b ∷ []) ≡ compare (bool_u8 a) (bool_u8 b)
unfolding cmp_bytes bool_u8
bool_keys true true = refl
bool_keys true false = refl
bool_keys false true = refl
bool_keys false false = refl

zero_order :
    (a b : ℕ)
    → ltb 0 (a % 2 ^ 63) ≡ false
    → ltb 0 (b % 2 ^ 63) ≡ false
    → sign_magnitude a b ≡ compare (b / 2 ^ 63) (a / 2 ^ 63)
unfolding sign_magnitude
zero_order a b h k = ground (arith, h, k)

module _ (F : Floats) {a b : ℕ} (h : IsU64 a) (k : IsU64 b) (m : IsNumber a) (n : IsNumber b) where
  nonzero_order : ZerosAgree a b → value_cmp F (double a) (double b) ≡ sign_magnitude a b
  unfolding value_cmp cmp_numbers as_f64 or_equal
  nonzero_order z = ap (or_equal F) (F.partial_cmp_numbers a b h k m n z)

  signed_order : cmp_signed_zeros F (double a) (double b) ≡ sign_magnitude a b
  unfolding cmp_signed_zeros
  signed_order = elim (Bool-cases (ltb 0 (a % 2 ^ 63))) [
    | inl x ↦ rw x (nonzero_order (inl (ground (arith, x))))
    | inr x ↦ elim (Bool-cases (ltb 0 (b % 2 ^ 63))) [
      | inl y ↦ rw (x, y) (nonzero_order (inr (inl (ground (arith, y)))))
      | inr y ↦ rw (x, y) (sym (zero_order a b x y))
    ]
  ]

-- The keys of two values of one type, of doubles other than NaN, are ordered byte by byte as ORDER BY
-- orders the values; of two zeros, the key of -0.0 comes before that of 0.0, and that of the same zero
-- is the same.
pub key_order :
    (F : Floats) {a b : Value}
    → IsAlike a b
    → cmp_keys (encode_index_key a) (encode_index_key b) ≡ some (cmp_signed_zeros F a b)
unfolding cmp_keys encode_index_key value_cmp cmp_signed_zeros
key_order F (two_integers {a} {b} h k) = ap some (int_keys a b h k)
key_order F (two_times {a} {b} h k) = ap some (int_keys a b h k)
key_order F (two_doubles {a} {b} h k m n) =
    ap some (double_keys a b h k ∙ sym (signed_order F h k m n))
key_order F two_texts = refl
key_order F (two_booleans {a} {b}) = ap some (bool_keys a b)
