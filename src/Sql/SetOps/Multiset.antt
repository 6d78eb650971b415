-- ===== src/Sql/SetOps/Multiset.antt =====
-- crates/prism-sql/src/lib.rs: the set operations as operations on multisets of rows.
use prism_db.Common.{
  ℕ, ◌+◌, ◌-◌, ◌≡◌, inl, inr, ◌∙◌, refl, ap, Bool, true, false, ◌&&◌, ◌||◌, not, List, [], ◌∷◌,
  ◌++◌, if◌then◌else◌, ltb, min, arith, Bool-cases,
}
use prism_db.Sql.SetOps.{
  Key, seen_before, has_key, row_counts, dedup_from, dedup_rows, set_union, Tally, spend,
  first_time, intersect_row, refused, except_row, keep_rows, set_intersect, set_except,
}
use prism_db.Sql.SetOps.Counts.{
  count, count_append, left_of, left_of-row_counts, has_key-row_counts, spend-counts, spend-pushes,
}

module _ {A : Type 0} (K : Key A) where
  kept :
      (round : Tally K → A → Tally K × Bool) (x y : A) (t : Tally K) (ys : List A)
      → count K x (keep_rows K round t (y ∷ ys))
        ≡ (if (round t y).1 then (if K.same y x then 1 else 0) else 0)
          + count K x (keep_rows K round (round t y).0 ys)
  unfolding keep_rows count
  kept round x y t ys = elim (Bool-cases (round t y).1) [
    | inl e ↦ rw e refl
    | inr e ↦ rw e (omega arith)
  ]

  -- One row less of y, as x counts it.
  left_same : (x y : A) (c : List (A × ℕ)) → K.same y x ≡ true → left_of K y c ≡ left_of K x c
  left_same x y c e = ap (λ a. left_of K a c) (K.same_eq y x e)

  spent_all :
      (x : A) (t : Tally K) (rows : List A)
      → count K x (keep_rows K (intersect_row K true) t rows)
        ≡ min (count K x rows) (left_of K x t.counts)
  unfolding keep_rows count intersect_row
  spent_all x t [] = omega arith
  spent_all x t (y ∷ ys) =
      kept (intersect_row K true) x y t ys
      ∙ ground (
        arith,
        spent_all x (spend K t y).0 ys,
        spend-counts K x y t,
        spend-pushes K y t,
        left_same x y t.counts,
      )

  unspent_all :
      (x : A) (t : Tally K) (rows : List A)
      → count K x (keep_rows K (except_row K true) t rows) ≡ count K x rows - left_of K x t.counts
  unfolding keep_rows count except_row refused
  unspent_all x t [] = omega arith
  unspent_all x t (y ∷ ys) =
      kept (except_row K true) x y t ys
      ∙ ground (
        arith,
        unspent_all x (spend K t y).0 ys,
        spend-counts K x y t,
        spend-pushes K y t,
        left_same x y t.counts,
      )

  has_same : (x y : A) (c : List (A × ℕ)) → K.same y x ≡ true → has_key K y c ≡ has_key K x c
  has_same x y c e = ap (λ a. has_key K a c) (K.same_eq y x e)

  seen_same :
      (x y : A) (seen : List A) → K.same y x ≡ true → seen_before K y seen ≡ seen_before K x seen
  seen_same x y seen e = ap (λ a. seen_before K a seen) (K.same_eq y x e)

  distinct_both :
      (x : A) (t : Tally K) (rows : List A)
      → count K x (keep_rows K (intersect_row K false) t rows) ≡ (
          if has_key K x t.counts && not (seen_before K x t.seen)
          then min 1 (count K x rows)
          else 0)
  unfolding keep_rows count intersect_row first_time seen_before
  distinct_both x t [] = ground arith
  distinct_both x t (y ∷ ys) =
      kept (intersect_row K false) x y t ys ∙ (elim (Bool-cases (has_key K y t.counts)) [
        | inl e ↦ rw e (
            ground (
              arith,
              e,
              distinct_both x (record t { seen = y ∷ t.seen }) ys,
              has_same x y t.counts,
              seen_same x y t.seen,
            ))
        | inr e ↦ rw e (ground (arith, e, distinct_both x t ys, has_same x y t.counts))
      ])

  distinct_left :
      (x : A) (t : Tally K) (rows : List A)
      → count K x (keep_rows K (except_row K false) t rows)
        ≡ (if has_key K x t.counts || seen_before K x t.seen then 0 else min 1 (count K x rows))
  unfolding keep_rows count except_row first_time seen_before
  distinct_left x t [] = ground arith
  distinct_left x t (y ∷ ys) =
      kept (except_row K false) x y t ys ∙ (elim (Bool-cases (has_key K y t.counts)) [
        | inl e ↦ rw e (ground (arith, e, distinct_left x t ys, has_same x y t.counts))
        | inr e ↦ rw e (
            ground (
              arith,
              e,
              distinct_left x (record t { seen = y ∷ t.seen }) ys,
              has_same x y t.counts,
              seen_same x y t.seen,
            ))
      ])

  count-dedup_from :
      (x : A) (seen rows : List A)
      → count K x (dedup_from K seen rows)
        ≡ (if seen_before K x seen then 0 else min 1 (count K x rows))
  unfolding dedup_from count seen_before
  count-dedup_from x seen [] = ground arith
  count-dedup_from x seen (y ∷ ys) =
      ground (arith, count-dedup_from x (y ∷ seen) ys, seen_same x y seen)

  -- With ALL, the set operations are those on multisets: UNION ALL has a row as often as both sides
  -- together, INTERSECT ALL as often as the side that has it less often, and EXCEPT ALL as often as
  -- the left side has it more often than the right.
  pub set_operations_all :
      (x : A) (left right : List A)
      → (count K x (set_union K left right true) ≡ count K x left + count K x right)
        × (count K x (set_intersect K left right true) ≡ min (count K x left) (count K x right))
        × (count K x (set_except K left right true) ≡ count K x left - count K x right)
  unfolding set_union set_intersect set_except
  set_operations_all x left right =
      let counted : Tally K = record { counts = row_counts K right; seen = [] } in
      let right_count = left_of-row_counts K x right in
      (
        count_append K x left right,
        omega (arith, spent_all x counted left, right_count),
        omega (arith, unspent_all x counted left, right_count),
      )

  -- Without ALL, the set operations have each row once at most: UNION where a side has it, INTERSECT
  -- where both have it, and EXCEPT where the left side has it and the right has not.
  pub set_operations_distinct :
      (x : A) (left right : List A)
      → (count K x (set_union K left right false) ≡ min 1 (count K x left + count K x right))
        × (count K x (set_intersect K left right false)
            ≡ min 1 (min (count K x left) (count K x right)))
        × (count K x (set_except K left right false)
            ≡ (if ltb 0 (count K x right) then 0 else min 1 (count K x left)))
  unfolding set_union dedup_rows set_intersect set_except seen_before
  set_operations_distinct x left right =
      let counted : Tally K = record { counts = row_counts K right; seen = [] } in
      let right_has = has_key-row_counts K x right in
      (
        omega (arith, count-dedup_from x [] (left ++ right), count_append K x left right),
        ground (arith, distinct_both x counted left, right_has),
        ground (arith, distinct_left x counted left, right_has),
      )
