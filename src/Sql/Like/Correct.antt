-- ===== src/Sql/Like/Correct.antt =====
-- crates/prism-sql/src/lib.rs: `like_match` on a text without `%`.
use prism_db.Common.{
  ℕ, zero, suc, ◌<◌, ◌≡◌, ◌∙◌, ap, sym, false, ◌||◌, List, [], ◌∷◌, Option, none, some, length,
  arith,
}
use prism_db.Sql.Like.{Cursor, like_step, only_percents, like_loop, like_fuel, like_match}
use prism_db.Sql.Like.Reference.{some_end, is_like, only_percents-is_like}
use prism_db.Sql.Like.Rounds.{
  IsPlain, retry, answer, start, Follows, IsOn, weight, GoesOn, at_char, like_step-GoesOn,
}

ended :
    (bound : ℕ) (p : List ℕ) (star : Option (List ℕ × List ℕ))
    → Follows bound [] p star
    → only_percents p ≡ is_like p [] || retry star
unfolding Follows retry some_end
ended bound p none f = ground (arith, only_percents-is_like p)
ended bound p (some (sp, st)) (plain, short, long, keeps) =
    ground (arith, only_percents-is_like p, keeps)

after_step :
    (bound n c : ℕ) (t p : List ℕ) (star : Option (List ℕ × List ℕ)) (o : Option Cursor)
    → GoesOn bound (at_char c t p star) o
    → weight bound (at_char c t p star) < suc n
    → ((s : Cursor) → IsOn bound s → weight bound s < n → like_loop n s ≡ some (answer s))
    → (elim o [ none ↦ some false | some s' ↦ like_loop n s' ]) ≡ some (answer (at_char c t p star))
unfolding GoesOn
after_step bound n c t p star none e lt rest = ap some (sym e)
after_step bound n c t p star (some s') (on, same, less) lt rest =
    rest s' on (omega (arith, less, lt)) ∙ ap some same

like_loop-answer :
    (bound n : ℕ) (t p : List ℕ) (star : Option (List ℕ × List ℕ))
    → IsOn bound (record { text = t; pattern = p; star = star })
    → weight bound (record { text = t; pattern = p; star = star }) < n
    → like_loop n (record { text = t; pattern = p; star = star })
      ≡ some (answer (record { text = t; pattern = p; star = star }))
unfolding like_loop answer
like_loop-answer bound zero t p star on lt = absurd (omega (arith, lt))
like_loop-answer bound (suc n) [] p star on lt = ap some (ended bound p star on.follows)
like_loop-answer bound (suc n) (c ∷ t) p star on lt =
    after_step bound n c t p star (like_step c t p star) (like_step-GoesOn bound c t p star on) lt
      (λ s. like_loop-answer bound n s.text s.pattern s.star)

-- On a text without `%` the loop ends within its rounds, and answers as LIKE means: `%` stands for
-- any text, `_` for any character, and another character for itself.
pub like_match-is_like :
    (text pattern : List ℕ) → IsPlain text → like_match text pattern ≡ some (is_like pattern text)
unfolding like_match like_fuel weight start answer retry Follows
like_match-is_like text pattern plain =
    like_loop-answer (length pattern) _ text pattern none on (omega arith) ∙ ap some (ground arith)
  where
    on : IsOn (length pattern) (record { text = text; pattern = pattern; star = none })
    on = record { plain = plain; short = omega arith; follows = tt }
