-- ===== src/Sql/SetOps.antt =====
-- crates/prism-sql/src/lib.rs: `dedup_rows`, `row_counts`, `set_union`, `set_intersect` and
-- `set_except`. A `HashMap` is an association list and a `HashSet` a list, by the equality of rows.
pub mod Counts
pub mod Multiset
pub mod Rows
use prism_db.Common.{
  ℕ, zero, suc, ◌+◌, ◌-◌, ◌≡◌, Bool, true, false, ◌&&◌, ◌||◌, not, List, [], ◌∷◌, ◌++◌, Option,
  none, some, if◌then◌else◌, ltb,
}

-- What a hashed collection needs of its keys: a test of equality.
pub record Key (A : Type 0) : Type 0 where
  pub same : A → A → Bool
  pub same_refl : (a : A) → same a a ≡ true
  pub same_eq : (a b : A) → same a b ≡ true → a ≡ b

module _ {A : Type 0} (K : Key A) where
  unfoldable pub seen_before : A → List A → Bool
  seen_before x [] = false
  seen_before x (y ∷ ys) = K.same y x || seen_before x ys

  unfoldable pub count_of : A → List (A × ℕ) → Option ℕ
  count_of x [] = none
  count_of x ((y, n) ∷ c) = if K.same y x then some n else count_of x c

  unfoldable pub has_key : A → List (A × ℕ) → Bool
  has_key x c = elim (count_of x c) [ none ↦ false | some n ↦ true ]

  -- `*c -= 1`, through `get_mut`.
  unfoldable pub decrease : A → List (A × ℕ) → List (A × ℕ)
  decrease x [] = []
  decrease x ((y, n) ∷ c) =
      let rest = decrease x c in if K.same y x then (y, n - 1) ∷ c else (y, n) ∷ rest

  -- `*counts.entry(row).or_insert(0) += 1`.
  unfoldable pub increase : A → List (A × ℕ) → List (A × ℕ)
  increase x [] = (x, 1) ∷ []
  increase x ((y, n) ∷ c) =
      let rest = increase x c in if K.same y x then (y, n + 1) ∷ c else (y, n) ∷ rest

  unfoldable pub row_counts_from : List (A × ℕ) → List A → List (A × ℕ)
  row_counts_from c [] = c
  row_counts_from c (x ∷ xs) = row_counts_from (increase x c) xs

  unfoldable pub row_counts : List A → List (A × ℕ)
  row_counts rows = row_counts_from [] rows

  unfoldable pub dedup_from : List A → List A → List A
  dedup_from seen [] = []
  dedup_from seen (x ∷ xs) =
      let rest = dedup_from (x ∷ seen) xs in if seen_before x seen then rest else x ∷ rest

  unfoldable pub dedup_rows : List A → List A
  dedup_rows rows = dedup_from [] rows

  unfoldable pub set_union : List A → List A → Bool → List A
  set_union left right all = if all then left ++ right else dedup_rows (left ++ right)

  -- What the loops over the left rows keep: the counts of the right rows, and the rows seen.
  pub record Tally : Type 0 where
    pub counts : List (A × ℕ)
    pub seen : List A

  -- The count of the row goes down if it can.
  unfoldable pub spend : Tally → A → Tally × Bool
  spend t x = elim (count_of x t.counts) [
    | none ↦ (t, false)
    | some c ↦ if ltb 0 c then (record t { counts = decrease x t.counts }, true) else (t, false)
  ]

  -- The row is seen now; was it not before?
  unfoldable pub first_time : Tally → A → Tally × Bool
  first_time t x = (record t { seen = x ∷ t.seen }, not (seen_before x t.seen))

  -- One round over the left rows: whether the row is pushed.
  unfoldable pub intersect_row : Bool → Tally → A → Tally × Bool
  intersect_row all t x =
      if all then spend t x else if has_key x t.counts then first_time t x else (t, false)

  unfoldable pub refused : Tally × Bool → Tally × Bool
  refused (t, b) = (t, not b)

  unfoldable pub except_row : Bool → Tally → A → Tally × Bool
  except_row all t x =
      if all then refused (spend t x) else if has_key x t.counts then (t, false) else first_time t x

  unfoldable pub keep_rows : (Tally → A → Tally × Bool) → Tally → List A → List A
  keep_rows round t [] = []
  keep_rows round t (x ∷ xs) =
      let (t', push) = round t x in
      let rest = keep_rows round t' xs in if push then x ∷ rest else rest

  unfoldable pub set_intersect : List A → List A → Bool → List A
  set_intersect left right all =
      keep_rows (intersect_row all) (record { counts = row_counts right; seen = [] }) left

  unfoldable pub set_except : List A → List A → Bool → List A
  set_except left right all =
      keep_rows (except_row all) (record { counts = row_counts right; seen = [] }) left
