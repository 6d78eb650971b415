-- ===== src/Common/Order.antt =====
-- The order of byte slices: bytewise, a proper prefix first.
use prism_db.Common.Tests.{◌==◌, ltb, if◌then◌else◌, Bool-cases}
use Prim.Native.Nat.{ℕ}
use mathlib.Core.Path.{◌≡◌, refl}
use mathlib.Core.Bool.{Bool, true, false, ◌&&◌}
use mathlib.Core.List.{List, [], ◌∷◌}
use mathlib.Core.Logic.{inl, inr}
use native.Mathlib.Omega.{arith}

-- `a < b`; `a <= b` is that `b < a` is false.
unfoldable pub bytes_lt : List ℕ → List ℕ → Bool
bytes_lt [] [] = false
bytes_lt [] (y ∷ ys) = true
bytes_lt (x ∷ xs) [] = false
bytes_lt (x ∷ xs) (y ∷ ys) = if x == y then bytes_lt xs ys else ltb x y

unfoldable pub bytes_eq : List ℕ → List ℕ → Bool
bytes_eq [] [] = true
bytes_eq [] (y ∷ ys) = false
bytes_eq (x ∷ xs) [] = false
bytes_eq (x ∷ xs) (y ∷ ys) = x == y && bytes_eq xs ys

pub lt_irrefl : (a : List ℕ) → bytes_lt a a ≡ false
unfolding bytes_lt
lt_irrefl [] = refl
lt_irrefl (x ∷ xs) = ground (arith, lt_irrefl xs)

pub lt_asymm : (a b : List ℕ) → bytes_lt a b ≡ true → bytes_lt b a ≡ false
unfolding bytes_lt
lt_asymm [] [] h = refl
lt_asymm [] (y ∷ ys) h = refl
lt_asymm (x ∷ xs) [] h = cc
lt_asymm (x ∷ xs) (y ∷ ys) h = ground (arith, lt_asymm xs ys)

pub lt_trans : (a b c : List ℕ) → bytes_lt a b ≡ true → bytes_lt b c ≡ true → bytes_lt a c ≡ true
unfolding bytes_lt
lt_trans [] [] c h k = k
lt_trans [] (y ∷ ys) [] h k = k
lt_trans [] (y ∷ ys) (z ∷ zs) h k = refl
lt_trans (x ∷ xs) [] c h k = ground arith
lt_trans (x ∷ xs) (y ∷ ys) [] h k = ground arith
lt_trans (x ∷ xs) (y ∷ ys) (z ∷ zs) h k = ground (arith, lt_trans xs ys zs)

-- Antisymmetry of `<=`.
pub le_antisymm : (a b : List ℕ) → bytes_lt a b ≡ false → bytes_lt b a ≡ false → a ≡ b
unfolding bytes_lt
le_antisymm [] [] h k = refl
le_antisymm [] (y ∷ ys) h k = ground arith
le_antisymm (x ∷ xs) [] h k = ground arith
le_antisymm (x ∷ xs) (y ∷ ys) h k = ground (arith, le_antisymm xs ys)

pub lt_le_trans :
    (a b c : List ℕ) → bytes_lt a b ≡ true → bytes_lt c b ≡ false → bytes_lt a c ≡ true
lt_le_trans a b c h k = elim (Bool-cases (bytes_lt b c)) [
  | inl p ↦ lt_trans a b c h p
  | inr p ↦ rw (← le_antisymm b c p k) h
]

pub le_lt_trans :
    (a b c : List ℕ) → bytes_lt b a ≡ false → bytes_lt b c ≡ true → bytes_lt a c ≡ true
le_lt_trans a b c h k = elim (Bool-cases (bytes_lt a b)) [
  | inl p ↦ lt_trans a b c p k
  | inr p ↦ rw (le_antisymm a b p h) k
]

pub bytes_eq_refl : (a : List ℕ) → bytes_eq a a ≡ true
unfolding bytes_eq
bytes_eq_refl [] = refl
bytes_eq_refl (x ∷ xs) = ground (arith, bytes_eq_refl xs)

pub eq_of_bytes_eq : (a b : List ℕ) → bytes_eq a b ≡ true → a ≡ b
unfolding bytes_eq
eq_of_bytes_eq [] [] h = refl
eq_of_bytes_eq [] (y ∷ ys) h = ground arith
eq_of_bytes_eq (x ∷ xs) [] h = ground arith
eq_of_bytes_eq (x ∷ xs) (y ∷ ys) h = ground (arith, eq_of_bytes_eq xs ys)

pub ne-bytes_lt : (a b : List ℕ) → bytes_lt a b ≡ true → bytes_eq a b ≡ false
ne-bytes_lt a b h = elim (Bool-cases (bytes_eq a b)) [
  | inl p ↦ ground (arith, lt_irrefl a, eq_of_bytes_eq a b)
  | inr p ↦ p
]
