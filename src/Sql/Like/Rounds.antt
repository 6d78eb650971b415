-- ===== src/Sql/Like/Rounds.antt =====
-- crates/prism-sql/src/lib.rs: what one round of the loop of `like_match` keeps.
use prism_db.Common.{
  ℕ, suc, ◌+◌, ◌*◌, ◌<◌, ◌≤◌, ◌≡◌, inl, inr, ◌∙◌, refl, sym, Bool, true, false, ◌||◌, List, [], ◌∷◌,
  Option, none, some, ◌==◌, length, arith, Bool-cases, ℕ_discrete,
}
use prism_db.Common.Maps.{contains}
use prism_db.Sql.Like.{percent, underscore, Cursor, tail, backtrack, like_step}
use prism_db.Sql.Like.Reference.{
  some_end, begins, is_like, some_end_self, some_end-tail, some_end_mono, is_like-percent,
  is_like-one, is_empty,
}

abbrev pub IsPlain : List ℕ → Type 0
IsPlain t = contains percent t ≡ false

tail-IsPlain : (t : List ℕ) → IsPlain t → IsPlain (tail t)
unfolding contains tail
tail-IsPlain [] h = refl
tail-IsPlain (c ∷ t) h = ground (arith, h)

-- What a backtrack may still find.
unfoldable pub retry : Option (List ℕ × List ℕ) → Bool
retry none = false
retry (some (sp, st)) = some_end (is_like sp) (tail st)

unfoldable pub answer : Cursor → Bool
answer s = is_like s.pattern s.text || retry s.star

unfoldable pub start : Cursor → ℕ
start s = elim s.star [ none ↦ length s.text | some (sp, st) ↦ length st ]

-- What a backtrack would find, the pattern left would find from here or later.
unfoldable pub Follows : ℕ → List ℕ → List ℕ → Option (List ℕ × List ℕ) → Type 0
Follows bound t p none = Unit {0}
Follows bound t p (some (sp, st)) =
    IsPlain st
    × (length sp ≤ bound)
    × (length t ≤ length st)
    × (some_end (is_like sp) (tail st) ≡ true → some_end (is_like p) t ≡ true)

pub record IsOn (bound : ℕ) (s : Cursor) : Type 0 where
  pub plain : IsPlain s.text
  pub short : length s.pattern ≤ bound
  pub follows : Follows bound s.text s.pattern s.star

unfoldable pub weight : ℕ → Cursor → ℕ
weight bound s = length s.pattern + start s * (bound + 1)

-- A round answers, or goes on to a lighter cursor with the same answer.
unfoldable pub GoesOn : ℕ → Cursor → Option Cursor → Type 0
GoesOn bound s none = answer s ≡ false
GoesOn bound s (some s') =
    IsOn bound s' × (answer s' ≡ answer s) × (weight bound s' < weight bound s)

abbrev pub at_char : ℕ → List ℕ → List ℕ → Option (List ℕ × List ℕ) → Cursor
at_char c t p star = record { text = c ∷ t; pattern = p; star = star }

lighter : (sp p st bound : ℕ) → sp ≤ bound → sp + st * (bound + 1) < p + suc st * (bound + 1)
lighter sp p st bound h = grind arith

backtrack-GoesOn :
    (bound c : ℕ) (t p : List ℕ) (star : Option (List ℕ × List ℕ))
    → IsOn bound (at_char c t p star)
    → is_like p (c ∷ t) ≡ false
    → GoesOn bound (at_char c t p star) (backtrack star)
unfolding GoesOn answer retry weight start Follows backtrack tail
backtrack-GoesOn bound c t p none on e = rw e refl
backtrack-GoesOn bound c t p (some (sp, [])) on e =
    let (plain, short, long, keeps) = on.follows in absurd (omega (arith, long))
backtrack-GoesOn bound c t p (some (sp, d ∷ st)) on e =
    let (plain, short, long, keeps) = on.follows in
    (
      record {
        plain = tail-IsPlain (d ∷ st) plain;
        short = short;
        follows = (
          tail-IsPlain (d ∷ st) plain,
          short,
          omega arith,
          λ h. some_end-tail (is_like sp) st ∙ ground (arith, h),
        );
      },
      rw e (sym (some_end-tail (is_like sp) st)),
      lighter (length sp) (length p) (length st) bound short,
    )

shift :
    (d : ℕ) (p u : List ℕ) (c : ℕ)
    → (d == percent) ≡ false
    → some_end (is_like (d ∷ p)) (c ∷ u) ≡ true
    → some_end (is_like p) u ≡ true
unfolding some_end begins is_like
shift d p [] c ne h = ground (arith, ne, h)
shift d p (e ∷ u) c ne h =
    ground (arith, ne, h, shift d p u e ne, some_end_self (is_like p) (e ∷ u))

Follows-on :
    (bound c d : ℕ) (t p : List ℕ) (star : Option (List ℕ × List ℕ))
    → (d == percent) ≡ false
    → Follows bound (c ∷ t) (d ∷ p) star
    → Follows bound t p star
unfolding Follows
Follows-on bound c d t p none ne h = tt
Follows-on bound c d t p (some (sp, st)) ne (plain, short, long, keeps) =
    (plain, short, omega (arith, long), λ h. shift d p t c ne (keeps h))

start_on :
    (c d : ℕ) (t p : List ℕ) (star : Option (List ℕ × List ℕ))
    → start (record { text = t; pattern = p; star = star }) ≤ start (at_char c t (d ∷ p) star)
unfolding start
start_on c d t p none = omega arith
start_on c d t p (some (sp, st)) = omega arith

one_lighter : (p a b bound : ℕ) → a ≤ b → p + a * (bound + 1) < suc p + b * (bound + 1)
one_lighter p a b bound h = grind arith

one_GoesOn :
    (bound c d : ℕ) (t p : List ℕ) (star : Option (List ℕ × List ℕ))
    → IsOn bound (at_char c t (d ∷ p) star)
    → (d == underscore || d == c) ≡ true
    → GoesOn bound (at_char c t (d ∷ p) star) (some (record { text = t; pattern = p; star = star }))
unfolding GoesOn answer weight begins contains tail
one_GoesOn bound c d t p star on e =
    let ne : (d == percent) ≡ false = ground (arith, e, on.plain) in
    (
      record {
        plain = tail-IsPlain (c ∷ t) on.plain;
        short = omega (arith, on.short);
        follows = Follows-on bound c d t p star ne on.follows;
      },
      rw (is_like-one d p (c ∷ t) ne) (ground (arith, e)),
      one_lighter (length p) _ _ bound (start_on c d t p star),
    )

some_end-percent :
    (p t : List ℕ) → some_end (is_like (percent ∷ p)) t ≡ true → some_end (is_like p) t ≡ true
some_end-percent p t h =
    some_end_mono (is_like (percent ∷ p)) (is_like p) t (λ u e. sym (is_like-percent p u) ∙ e) h

-- The last `%` makes every earlier one needless.
retry_needless :
    (bound c : ℕ) (t p : List ℕ) (star : Option (List ℕ × List ℕ))
    → Follows bound (c ∷ t) (percent ∷ p) star
    → retry star ≡ true
    → some_end (is_like p) (c ∷ t) ≡ true
unfolding Follows retry
retry_needless bound c t p none f h = absurd (cc h)
retry_needless bound c t p (some (sp, st)) (plain, short, long, keeps) h =
    some_end-percent p (c ∷ t) (keeps h)

start_covers :
    (bound c : ℕ) (t p : List ℕ) (star : Option (List ℕ × List ℕ))
    → Follows bound (c ∷ t) p star
    → length (c ∷ t) ≤ start (at_char c t p star)
unfolding Follows start
start_covers bound c t p none f = omega arith
start_covers bound c t p (some (sp, st)) (plain, short, long, keeps) = long

percent-GoesOn :
    (bound c : ℕ) (t p : List ℕ) (star : Option (List ℕ × List ℕ))
    → IsOn bound (at_char c t (percent ∷ p) star)
    → GoesOn bound
        (at_char c t (percent ∷ p) star)
        (some (record { text = c ∷ t; pattern = p; star = some (p, c ∷ t) }))
unfolding GoesOn answer weight Follows retry some_end start
percent-GoesOn bound c t p star on = (
  record {
    plain = on.plain;
    short = omega (arith, on.short);
    follows = (
      on.plain,
      omega (arith, on.short),
      omega arith,
      λ h. some_end-tail (is_like p) (c ∷ t) ∙ ground (arith, h),
    );
  },
  rw (is_like-percent p (c ∷ t))
      (same (some_end-tail (is_like p) (c ∷ t)) (retry_needless bound c t p star on.follows)),
  one_lighter (length p) (length (c ∷ t)) _ bound
      (start_covers bound c t (percent ∷ p) star on.follows),
)
  where
    same : {a b e : Bool} → b ≡ a → (e ≡ true → b ≡ true) → a ≡ b || e
    same h k = ground (arith, h, k)

no_pattern : (c : ℕ) (t : List ℕ) → is_like [] (c ∷ t) ≡ false
unfolding is_like is_empty
no_pattern c t = refl

other_char :
    (c d : ℕ) (t p : List ℕ)
    → (d == underscore || d == c) ≡ false
    → (d == percent) ≡ false
    → is_like (d ∷ p) (c ∷ t) ≡ false
unfolding begins
other_char c d t p e ne = is_like-one d p (c ∷ t) ne ∙ rw e refl

pub like_step-GoesOn :
    (bound c : ℕ) (t p : List ℕ) (star : Option (List ℕ × List ℕ))
    → IsOn bound (at_char c t p star)
    → GoesOn bound (at_char c t p star) (like_step c t p star)
unfolding like_step
like_step-GoesOn bound c t [] star on = backtrack-GoesOn bound c t [] star on (no_pattern c t)
like_step-GoesOn bound c t (d ∷ p) star on = elim (Bool-cases (d == underscore || d == c)) [
  | inl e ↦ rw e (one_GoesOn bound c d t p star on e)
  | inr e ↦ elim (ℕ_discrete d percent) [
    | yes same ↦ rw (e, same) (percent-GoesOn bound c t p star (rw same at on))
    | no ne ↦
        let other : (d == percent) ≡ false = ground arith in
        rw (e, other) (backtrack-GoesOn bound c t (d ∷ p) star on (other_char c d t p e other))
  ]
]
