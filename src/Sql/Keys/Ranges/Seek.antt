-- ===== src/Sql/Keys/Ranges/Seek.antt =====
-- crates/prism-sql/src/lib.rs: the scan that the comparisons of a predicate give.
use prism_db.Common.{ℕ, ◌≡◌, ◌≢◌, inl, inr, true, List, [], ◌∷◌, none, some, All, Bool-cases}
use prism_db.Common.Results.{Result}
use prism_db.Sql.Value.{
  Value, Floats, BinaryOperator, greater, greater_or_equal, less, less_or_equal, compare_values,
}
use prism_db.Sql.Keys.{SqlError, encode_index_key}
use prism_db.Sql.Keys.Order.{IsOrdered}
use prism_db.Sql.Keys.Ranges.{
  ColumnType, type_matches, RangeOp, Bounds, tighten, bounds_of, pk_range_seek, scanned,
}
use prism_db.Sql.Keys.Ranges.Covers.{pk_range_covers}
use prism_db.Sql.Keys.Ranges.Compares.{MeetsLower, MeetsUpper}

abbrev pub operator_of : RangeOp → BinaryOperator
operator_of RangeOp.gt = greater
operator_of RangeOp.ge = greater_or_equal
operator_of RangeOp.lt = less
operator_of RangeOp.le = less_or_equal

module _ (F : Floats) where
  -- The comparison holds of the value, where its literal has the type of the column; doubles that it
  -- compares are no NaN, and not 0.0 and -0.0.
  abbrev pub Admits : ColumnType → Value → RangeOp × Value → Type 0
  Admits ty w (op, v) =
      type_matches v ty ≡ true → IsOrdered w v × (compare_values F (operator_of op) w v ≡ true)

  IsMet : ColumnType → Value → Bounds → Type 0
  IsMet ty w b = MeetsLower F ty w b.lower × MeetsUpper F ty w b.upper

  tighten-IsMet :
      (ty : ColumnType) (w v : Value) (b : Bounds) (op : RangeOp)
      → type_matches v ty ≡ true
      → Admits ty w (op, v)
      → IsMet ty w b
      → IsMet ty w (tighten b op v)
  unfolding tighten IsMet
  tighten-IsMet ty w v b RangeOp.gt m a (l, u) = let (o, h) = a m in ((m, o, h), u)
  tighten-IsMet ty w v b RangeOp.ge m a (l, u) = let (o, h) = a m in ((m, o, h), u)
  tighten-IsMet ty w v b RangeOp.lt m a (l, u) = let (o, h) = a m in (l, (m, o, h))
  tighten-IsMet ty w v b RangeOp.le m a (l, u) = let (o, h) = a m in (l, (m, o, h))

  bounds_of-IsMet :
      (ty : ColumnType) (w : Value) (b : Bounds) (ranges : List (RangeOp × Value))
      → All (Admits ty w) ranges
      → IsMet ty w b
      → IsMet ty w (bounds_of ty b ranges)
  unfolding bounds_of
  bounds_of-IsMet ty w b [] a m = m
  bounds_of-IsMet ty w b ((op, v) ∷ ranges) (a, rest) m = elim (Bool-cases (type_matches v ty)) [
    | inl e ↦
        rw (e, bounds_of)
          (bounds_of-IsMet ty w (tighten b op v) ranges rest (tighten-IsMet ty w v b op e a m))
    | inr e ↦ rw (e, bounds_of) (bounds_of-IsMet ty w b ranges rest m)
  ]

  -- Where comparisons of the key column bound a scan of the primary-key index, the scan finds the
  -- key of every value of the column of which they all hold; of doubles, where none that are
  -- compared is a NaN and 0.0 is not compared with -0.0.
  pub pk_range_seek_covers :
      (ty : ColumnType) (ranges : List (RangeOp × Value)) (start end : Result SqlError (List ℕ))
      (w : Value)
      → pk_range_seek ty ranges ≡ some (start, end)
      → type_matches w ty ≡ true
      → w ≢ Value.null
      → All (Admits ty w) ranges
      → scanned start end (encode_index_key w) ≡ true
  unfolding pk_range_seek IsMet
  pk_range_seek_covers ty ranges start end w e typed n a =
      let (l, u) = bounds_of-IsMet ty w (record { lower = none; upper = none }) ranges a (tt, tt) in
      pk_range_covers F ty _ _ start end w e typed n l u
