-- ===== src/Sql/Keys/Ranges/Bytes.antt =====
-- How byte strings compare with a bound, and with the byte string just after it.
use prism_db.Common.{
  ℕ, zero, suc, ◌<◌, ◌≡◌, ◌≢◌, ◌⊎◌, refl, List, [], ◌∷◌, ◌++◌, length, All, arith,
}
use Prim.Native.Nat.{compare, Ordering}
use prism_db.Common.Bytes.{IsByte}
use prism_db.Sql.Value.{cmp_bytes}
use prism_db.Sql.Keys.Ranges.{filled}

-- The cases of a comparison, with what the numbers are.
compare-cases :
    (a b : ℕ)
    → ((compare a b ≡ Ordering.lt) × (a < b))
      ⊎ (((compare a b ≡ Ordering.gt) × (b < a)) ⊎ ((compare a b ≡ Ordering.eq) × (a ≡ b)))
compare-cases a b = ground arith

abbrev pub swapped : Ordering → Ordering
swapped Ordering.lt = Ordering.gt
swapped Ordering.eq = Ordering.eq
swapped Ordering.gt = Ordering.lt

compare-swapped : (a b : ℕ) → compare b a ≡ swapped (compare a b)
compare-swapped a b = ground arith

pub cmp_bytes-swapped : (xs ys : List ℕ) → cmp_bytes ys xs ≡ swapped (cmp_bytes xs ys)
unfolding cmp_bytes
cmp_bytes-swapped [] [] = refl
cmp_bytes-swapped [] (y ∷ ys) = refl
cmp_bytes-swapped (x ∷ xs) [] = refl
cmp_bytes-swapped (x ∷ xs) (y ∷ ys) = ground (arith, cmp_bytes-swapped xs ys)

-- A key that is not after a bound comes before the key just after the bound.
pub before-stepped :
    (xs ys : List ℕ) → cmp_bytes xs ys ≢ Ordering.gt → cmp_bytes xs (ys ++ 0 ∷ []) ≡ Ordering.lt
unfolding cmp_bytes
before-stepped [] [] h = refl
before-stepped [] (y ∷ ys) h = refl
before-stepped (x ∷ xs) [] h = absurd (h refl)
before-stepped (x ∷ xs) (y ∷ ys) h = ground (arith, before-stepped xs ys, h)

-- A key of the same width that is after a bound is not before the key just after the bound.
pub after-stepped :
    (xs ys : List ℕ)
    → length xs ≡ length ys
    → cmp_bytes xs ys ≡ Ordering.gt
    → cmp_bytes (ys ++ 0 ∷ []) xs ≡ Ordering.lt
unfolding cmp_bytes
after-stepped [] [] e h = absurd (cc h)
after-stepped [] (y ∷ ys) e h = absurd (omega (arith, e))
after-stepped (x ∷ xs) [] e h = absurd (omega (arith, e))
after-stepped (x ∷ xs) (y ∷ ys) e h = ground (arith, after-stepped xs ys (omega (arith, e)), h)

pub before-filled :
    (xs : List ℕ) (n : ℕ) → length xs < n → All IsByte xs → cmp_bytes xs (filled n) ≡ Ordering.lt
unfolding cmp_bytes filled
before-filled xs zero h b = absurd (omega (arith, h))
before-filled [] (suc n) h b = refl
before-filled (x ∷ xs) (suc n) h b = ground (arith, before-filled xs n (omega (arith, h)) b.1, b.0)

pub not_after : (xs : List ℕ) → cmp_bytes [] xs ≢ Ordering.gt
unfolding cmp_bytes
not_after [] h = cc h
not_after (x ∷ xs) h = cc h
