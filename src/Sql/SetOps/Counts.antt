-- ===== src/Sql/SetOps/Counts.antt =====
-- How often a row stands in a list, and what the counts of `row_counts` say of it.
use prism_db.Common.{
  ℕ, zero, suc, ◌+◌, ◌-◌, ◌≡◌, inl, inr, ◌∙◌, refl, sym, ap, Bool, true, false, ◌||◌, List, [], ◌∷◌,
  ◌++◌, Option, none, some, if◌then◌else◌, ltb, lt→ltb, arith, Bool-cases, Option-cases,
}
use prism_db.Sql.SetOps.{
  Key, count_of, has_key, decrease, increase, row_counts_from, row_counts, Tally, spend,
}

module _ {A : Type 0} (K : Key A) where
  unfoldable pub count : A → List A → ℕ
  count x [] = 0
  count x (y ∷ ys) = (if K.same y x then 1 else 0) + count x ys

  abbrev or_zero : Option ℕ → ℕ
  or_zero none = 0
  or_zero (some n) = n

  -- A row that is not counted counts nothing.
  unfoldable pub left_of : A → List (A × ℕ) → ℕ
  left_of x c = or_zero (count_of K x c)

  abbrev is_some : Option ℕ → Bool
  is_some none = false
  is_some (some n) = true

  has_key-is_some : (x : A) (c : List (A × ℕ)) → has_key K x c ≡ is_some (count_of K x c)
  unfolding has_key
  has_key-is_some x c = elim (Option-cases (count_of K x c)) [
    | inl e ↦ rw (e, has_key) refl
    | inr (n, e) ↦ rw (e, has_key) refl
  ]

  count_of-head :
      (x y : A) (n : ℕ) (c : List (A × ℕ)) (b : Bool)
      → K.same y x ≡ b
      → count_of K x ((y, n) ∷ c) ≡ (if b then some n else count_of K x c)
  unfolding count_of
  count_of-head x y n c b e = ap (λ b. if b then some n else count_of K x c) e

  pub same_both : (x y z : A) → K.same y x ≡ true → K.same y z ≡ K.same x z
  same_both x y z h = ap (λ a. K.same a z) (K.same_eq y x h)

  pub same_right : (x y z : A) → K.same y x ≡ true → K.same z x ≡ K.same z y
  same_right x y z h = ap (K.same z) (sym (K.same_eq y x h))

  pub count_append : (x : A) (xs ys : List A) → count x (xs ++ ys) ≡ count x xs + count x ys
  unfolding count
  count_append x [] ys = omega arith
  count_append x (y ∷ xs) ys = omega (arith, count_append x xs ys)

  left_of-head :
      (x y : A) (n : ℕ) (c : List (A × ℕ))
      → left_of x ((y, n) ∷ c) ≡ (if K.same y x then n else left_of x c)
  unfolding left_of
  left_of-head x y n c = elim (Bool-cases (K.same y x)) [
    | inl e ↦ ap or_zero (count_of-head x y n c true e) ∙ rw e refl
    | inr e ↦ ap or_zero (count_of-head x y n c false e) ∙ rw e refl
  ]

  pub left_of-increase :
      (x y : A) (c : List (A × ℕ))
      → left_of x (increase K y c) ≡ left_of x c + (if K.same y x then 1 else 0)
  unfolding increase left_of count_of
  left_of-increase x y [] = left_of-head x y 1 [] ∙ ground arith
  left_of-increase x y ((z, n) ∷ c) = elim (Bool-cases (K.same z y)) [
    | inl e ↦
        rw (e, increase)
          (ground (arith, left_of-head x z (n + 1) c, left_of-head x z n c, same_both y z x e))
    | inr e ↦
        rw (e, increase)
          (ground (
            arith,
            left_of-head x z n (increase K y c),
            left_of-head x z n c,
            left_of-increase x y c,
            same_right x y z,
            e,
          ))
  ]

  pub left_of-decrease :
      (x y : A) (c : List (A × ℕ))
      → left_of x (decrease K y c) ≡ left_of x c - (if K.same y x then 1 else 0)
  unfolding decrease left_of count_of
  left_of-decrease x y [] = ground arith
  left_of-decrease x y ((z, n) ∷ c) = elim (Bool-cases (K.same z y)) [
    | inl e ↦
        rw (e, decrease)
          (ground (arith, left_of-head x z (n - 1) c, left_of-head x z n c, same_both y z x e))
    | inr e ↦
        rw (e, decrease)
          (ground (
            arith,
            left_of-head x z n (decrease K y c),
            left_of-head x z n c,
            left_of-decrease x y c,
            same_right x y z,
            e,
          ))
  ]

  has_key-head :
      (x y : A) (n : ℕ) (c : List (A × ℕ))
      → has_key K x ((y, n) ∷ c) ≡ (if K.same y x then true else has_key K x c)
  has_key-head x y n c = has_key-is_some x ((y, n) ∷ c) ∙ elim (Bool-cases (K.same y x)) [
    | inl e ↦ ap is_some (count_of-head x y n c true e) ∙ rw e refl
    | inr e ↦ ap is_some (count_of-head x y n c false e) ∙ rw e (sym (has_key-is_some x c))
  ]

  has_key-increase :
      (x y : A) (c : List (A × ℕ)) → has_key K x (increase K y c) ≡ has_key K x c || K.same y x
  unfolding increase has_key count_of
  has_key-increase x y [] = has_key-head x y 1 [] ∙ ground arith
  has_key-increase x y ((z, n) ∷ c) = elim (Bool-cases (K.same z y)) [
    | inl e ↦
        rw (e, increase)
          (ground (arith, has_key-head x z (n + 1) c, has_key-head x z n c, same_both y z x e))
    | inr e ↦
        rw (e, increase)
          (ground (
            arith,
            has_key-head x z n (increase K y c),
            has_key-head x z n c,
            has_key-increase x y c,
          ))
  ]

  left_of-row_counts_from :
      (x : A) (c : List (A × ℕ)) (rows : List A)
      → left_of x (row_counts_from K c rows) ≡ left_of x c + count x rows
  unfolding row_counts_from count
  left_of-row_counts_from x c [] = omega arith
  left_of-row_counts_from x c (y ∷ ys) =
      omega (arith, left_of-row_counts_from x (increase K y c) ys, left_of-increase x y c)

  has_key-row_counts_from :
      (x : A) (c : List (A × ℕ)) (rows : List A)
      → has_key K x (row_counts_from K c rows) ≡ has_key K x c || ltb 0 (count x rows)
  unfolding row_counts_from count
  has_key-row_counts_from x c [] = ground arith
  has_key-row_counts_from x c (y ∷ ys) =
      ground (arith, has_key-row_counts_from x (increase K y c) ys, has_key-increase x y c)

  pub left_of-row_counts : (x : A) (rows : List A) → left_of x (row_counts K rows) ≡ count x rows
  unfolding row_counts left_of count_of
  left_of-row_counts x rows = omega (arith, left_of-row_counts_from x [] rows)

  pub has_key-row_counts :
      (x : A) (rows : List A) → has_key K x (row_counts K rows) ≡ ltb 0 (count x rows)
  unfolding row_counts has_key count_of
  has_key-row_counts x rows = ground (arith, has_key-row_counts_from x [] rows)

  unspent :
      (x y : A) (c : List (A × ℕ))
      → left_of y c ≡ 0
      → left_of x c ≡ left_of x c - (if K.same y x then 1 else 0)
  unspent x y c h = elim (Bool-cases (K.same y x)) [
    | inl e ↦ rw e (omega (arith, h, ap (λ a. left_of a c) (K.same_eq y x e)))
    | inr e ↦ rw e (omega arith)
  ]

  -- What a row takes from the counts, and whether there was one to take.
  pub spend-counts :
      (x y : A) (t : Tally K)
      → left_of x (spend K t y).0.counts ≡ left_of x t.counts - (if K.same y x then 1 else 0)
  unfolding spend left_of
  spend-counts x y t = elim (Option-cases (count_of K y t.counts)) [
    | inl e ↦ rw (e, spend) (unspent x y t.counts (ap or_zero e))
    | inr (zero, e) ↦ rw (e, spend) (unspent x y t.counts (ap or_zero e))
    | inr (suc n, e) ↦ rw (e, spend, lt→ltb 0 (suc n) (omega arith)) (left_of-decrease x y t.counts)
  ]

  pub spend-pushes : (y : A) (t : Tally K) → (spend K t y).1 ≡ ltb 0 (left_of y t.counts)
  unfolding spend left_of
  spend-pushes y t = elim (Option-cases (count_of K y t.counts)) [
    | inl e ↦ rw (e, spend) refl
    | inr (zero, e) ↦ rw (e, spend) refl
    | inr (suc n, e) ↦ rw (e, spend) (ground arith)
  ]
