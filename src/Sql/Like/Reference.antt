-- ===== src/Sql/Like/Reference.antt =====
-- What LIKE means, without a loop.
use prism_db.Common.{
  ℕ, ◌≡◌, refl, Bool, true, false, ◌&&◌, ◌||◌, List, [], ◌∷◌, if◌then◌else◌, ◌==◌, arith,
  Bool-cases,
}
use prism_db.Sql.Like.{percent, underscore, tail, only_percents}

-- Some end of the text, the whole of it included, meets the test.
unfoldable pub some_end : (List ℕ → Bool) → List ℕ → Bool
some_end f [] = f []
some_end f (c ∷ t) = f (c ∷ t) || some_end f t

-- The text begins with a character that the one of the pattern stands for, and goes on as the test
-- wants it.
unfoldable pub begins : ℕ → (List ℕ → Bool) → List ℕ → Bool
begins d f [] = false
begins d f (c ∷ t) = (d == underscore || d == c) && f t

unfoldable pub is_empty : List ℕ → Bool
is_empty [] = true
is_empty (c ∷ t) = false

-- `%` stands for any text, `_` for any character, and any other character for itself.
unfoldable pub is_like : List ℕ → List ℕ → Bool
is_like [] t = is_empty t
is_like (d ∷ p) t =
    let rest = is_like p in if d == percent then some_end rest t else begins d rest t

pub some_end_self : (f : List ℕ → Bool) (t : List ℕ) → f t ≡ true → some_end f t ≡ true
unfolding some_end
some_end_self f [] h = h
some_end_self f (c ∷ t) h = ground (arith, h)

pub some_end-tail : (f : List ℕ → Bool) (t : List ℕ) → some_end f t ≡ f t || some_end f (tail t)
unfolding some_end tail
some_end-tail f [] = ground (arith, Bool-cases (f []))
some_end-tail f (c ∷ t) = refl

pub some_end_mono :
    (f g : List ℕ → Bool) (t : List ℕ)
    → ((u : List ℕ) → f u ≡ true → some_end g u ≡ true)
    → some_end f t ≡ true
    → some_end g t ≡ true
unfolding some_end
some_end_mono f g [] h e = h [] e
some_end_mono f g (c ∷ t) h e = ground (arith, some_end_mono f g t h, h (c ∷ t), e)

pub only_percents-is_like : (p : List ℕ) → is_like p [] ≡ only_percents p
unfolding is_like only_percents some_end begins is_empty
only_percents-is_like [] = refl
only_percents-is_like (d ∷ p) = ground (arith, only_percents-is_like p)

pub is_like-percent : (p t : List ℕ) → is_like (percent ∷ p) t ≡ some_end (is_like p) t
unfolding is_like
is_like-percent p t = refl

pub is_like-one :
    (d : ℕ) (p t : List ℕ) → (d == percent) ≡ false → is_like (d ∷ p) t ≡ begins d (is_like p) t
unfolding is_like
is_like-one d p t h = rw h
