-- ===== src/Sql/Like/Percent.antt =====
-- crates/prism-sql/src/lib.rs: `like_match` on a text that has a `%` where the pattern has one.
use prism_db.Common.{
  ℕ, zero, suc, ◌+◌, ◌≤◌, ◌≡◌, inl, inr, refl, true, false, List, [], ◌∷◌, ◌++◌, none, some, ◌==◌,
  length, length-append, ==_refl, arith, Bool-cases,
}
use prism_db.Sql.Like.{percent, backtrack, like_step, like_loop, like_fuel, like_match}
use prism_db.Sql.Like.Reference.{some_end, begins, is_like, is_empty, some_end_self}

same_step :
    (c : ℕ) (t p : List ℕ)
    → like_step c t (c ∷ p) none ≡ some (record { text = t; pattern = p; star = none })
unfolding like_step
same_step c t p = rw (==_refl c) (ground arith)

missed :
    (n c : ℕ) (u t : List ℕ)
    → length u + 2 ≤ n
    → like_loop n (record { text = u ++ percent ∷ c ∷ t; pattern = u ++ percent ∷ []; star = none })
      ≡ some false
unfolding like_loop like_step backtrack
missed zero c u t h = absurd (omega (arith, h))
missed (suc zero) c [] t h = absurd (omega (arith, h))
missed (suc (suc n)) c [] t h = refl
missed (suc n) c (d ∷ u) t h =
    rw (same_step d (u ++ percent ∷ c ∷ t) (u ++ percent ∷ []), like_loop)
      (missed n c u t (omega (arith, h)))

is_like-prefix : (u t : List ℕ) → is_like (u ++ percent ∷ []) (u ++ t) ≡ true
unfolding some_end begins is_like is_empty
is_like-prefix [] [] = refl
is_like-prefix [] (c ∷ t) = ground (arith, is_like-prefix [] t)
is_like-prefix (d ∷ u) t = elim (Bool-cases (d == percent)) [
  | inl e ↦
      rw e
        (ground (arith, some_end_self (is_like (u ++ percent ∷ [])) (u ++ t) (is_like-prefix u t)))
  | inr e ↦ rw e (ground (arith, is_like-prefix u t))
]

-- A text that begins with u and goes on with a `%` and more is like the pattern of u and a `%`, but
-- the loop takes the `%` of the pattern for the one of the text and answers false.
pub like_match-percent :
    (u t : List ℕ) (c : ℕ)
    → (like_match (u ++ percent ∷ c ∷ t) (u ++ percent ∷ []) ≡ some false)
      × (is_like (u ++ percent ∷ []) (u ++ percent ∷ c ∷ t) ≡ true)
unfolding like_match like_fuel
like_match-percent u t c = (missed _ c u t enough, is_like-prefix u (percent ∷ c ∷ t))
  where
    enough : length u + 2 ≤ like_fuel (u ++ percent ∷ c ∷ t) (u ++ percent ∷ [])
    enough = rw (length-append u (percent ∷ []), length-append u (percent ∷ c ∷ t)) (grind arith)
