-- ===== src/Sql/Like.antt =====
-- crates/prism-sql/src/lib.rs: `like_match`. A text is its code points. An index into the text or
-- the pattern, which do not change, is the list that begins there.
pub mod Reference
pub mod Rounds
pub mod Correct
pub mod Percent
use prism_db.Common.{
  ℕ, zero, suc, ◌+◌, ◌*◌, Bool, true, false, ◌&&◌, ◌||◌, List, [], ◌∷◌, Option, none, some,
  if◌then◌else◌, ◌==◌, length,
}

abbrev pub percent : ℕ
percent = 37

abbrev pub underscore : ℕ
underscore = 95

-- What is left of the text and of the pattern, and the last `%`: the pattern after it, and the text
-- from where it swallows on.
pub record Cursor : Type 0 where
  pub text : List ℕ
  pub pattern : List ℕ
  pub star : Option (List ℕ × List ℕ)

unfoldable pub tail : List ℕ → List ℕ
tail [] = []
tail (c ∷ t) = t

-- The last `%` swallows one more character.
unfoldable pub backtrack : Option (List ℕ × List ℕ) → Option Cursor
backtrack none = none
backtrack (some (sp, st)) =
    some (record { text = tail st; pattern = sp; star = some (sp, tail st) })

-- One round of the loop, at a character of the text.
unfoldable pub like_step : ℕ → List ℕ → List ℕ → Option (List ℕ × List ℕ) → Option Cursor
like_step c t [] star = backtrack star
like_step c t (d ∷ p) star =
    if d == underscore || d == c
    then some (record { text = t; pattern = p; star = star })
    else if d == percent
    then some (record { text = c ∷ t; pattern = p; star = some (p, c ∷ t) })
    else backtrack star

-- What is left of the pattern at the end of the text.
unfoldable pub only_percents : List ℕ → Bool
only_percents [] = true
only_percents (d ∷ p) = d == percent && only_percents p

unfoldable pub like_loop : ℕ → Cursor → Option Bool
like_loop zero s = none
like_loop (suc n) s = elim s.text [
  | [] ↦ some (only_percents s.pattern)
  | c ∷ t ↦ elim (like_step c t s.pattern s.star) [ none ↦ some false | some s' ↦ like_loop n s' ]
]

-- Enough rounds: a backtrack moves the start of the last `%` on, and the rounds between two
-- backtracks go through the pattern.
unfoldable pub like_fuel : List ℕ → List ℕ → ℕ
like_fuel text pattern = length pattern + length text * (length pattern + 1) + 1

unfoldable pub like_match : List ℕ → List ℕ → Option Bool
like_match text pattern =
    like_loop (like_fuel text pattern) (record { text = text; pattern = pattern; star = none })
