-- ===== src/Sql/Keys/Ranges/Covers.antt =====
-- crates/prism-sql/src/lib.rs: the range scan finds every row that the bounds admit.
use prism_db.Common.{
  ℕ, ◌+◌, ◌≡◌, ◌≢◌, inl, inr, ◌∙◌, refl, ap, sym, subst, Bool, true, false, List, [], ◌∷◌, ◌++◌,
  Option, none, some, if◌then◌else◌, length, arith, Bool-cases,
}
use Prim.Native.Nat.{Ordering}
use prism_db.Common.Results.{Result, ok}
use prism_db.Sql.Value.{
  Value, Floats, greater, greater_or_equal, less, less_or_equal, cmp_bytes, compare_values,
}
use prism_db.Sql.Keys.{SqlError, encode_index_key}
use prism_db.Sql.Keys.Order.{IsOrdered}
use prism_db.Sql.Keys.Ranges.{
  ColumnType, type_matches, key_len, stepped, filled, range_start, range_end, pk_range, unbounded,
  bounded_scan, scanned,
}
use prism_db.Sql.Keys.Ranges.Bytes.{
  cmp_bytes-swapped, before-stepped, after-stepped, before-filled, not_after,
}
use prism_db.Sql.Keys.Ranges.Widths.{HasKey, has_key}
use prism_db.Sql.Keys.Ranges.Compares.{
  keys_compared, same_key, operator_holds, not_less, is_greater, not_greater, is_less, not_null,
  MeetsLower, MeetsUpper,
}

module _ (F : Floats) where
  -- The scan begins at the key of the row or before it, and ends after it.
  record StartsBy (lower : Option (Value × Bool)) (key : List ℕ) : Type 0 where
    start : List ℕ
    start_is : range_start lower ≡ ok start
    by : cmp_bytes start key ≢ Ordering.gt

  record EndsAfter (width : ℕ) (upper : Option (Value × Bool)) (key : List ℕ) : Type 0 where
    end : List ℕ
    end_is : range_end width upper ≡ ok end
    after : cmp_bytes key end ≡ Ordering.lt

  module _ (ty : ColumnType) (w : Value) (width : ℕ) (hw : HasKey w width)
      (len : key_len ty ≡ some width) where
    module _ (v : Value) (typed : type_matches v ty ≡ true) (o : IsOrdered w v) where
      row_key : (keys_compared F o).first ≡ hw.key
      row_key = same_key F w ((keys_compared F o).first_is) hw.encoded

      same_width : length (keys_compared F o).first ≡ length (keys_compared F o).second
      same_width =
          let hv = has_key ty v width len typed (not_null F o) in
          let bound_key = same_key F v ((keys_compared F o).second_is) hv.encoded in
          ap length row_key ∙ hw.wide ∙ sym hv.wide ∙ sym (ap length bound_key)

      starts_at :
          (within : Bool)
          → compare_values F (if within then greater_or_equal else greater) w v ≡ true
          → StartsBy (some (v, within)) hw.key
      unfolding range_start stepped
      starts_at true h = record {
        start = (keys_compared F o).second;
        start_is = (keys_compared F o).second_is;
        by = λ e. not_less F _ (operator_holds F greater_or_equal (keys_compared F o) h) (
            sym (cmp_bytes-swapped (keys_compared F o).first (keys_compared F o).second)
            ∙ rw row_key e);
      }
      starts_at false h = record {
        start = (keys_compared F o).second ++ 0 ∷ [];
        start_is = ap stepped (keys_compared F o).second_is;
        by = λ e. cc (
          e,
          ap (λ k. cmp_bytes ((keys_compared F o).second ++ 0 ∷ []) k) row_key,
          after-stepped (keys_compared F o).first (keys_compared F o).second same_width
              (is_greater F _ (operator_holds F greater (keys_compared F o) h)),
        );
      }

      ends_at :
          (within : Bool)
          → compare_values F (if within then less_or_equal else less) w v ≡ true
          → EndsAfter width (some (v, within)) hw.key
      unfolding range_end stepped
      ends_at true h = record {
        end = (keys_compared F o).second ++ 0 ∷ [];
        end_is = ap stepped (keys_compared F o).second_is;
        after = rw (sym row_key) (
            before-stepped (keys_compared F o).first (keys_compared F o).second
              (not_greater F _ (operator_holds F less_or_equal (keys_compared F o) h)));
      }
      ends_at false h = record {
        end = (keys_compared F o).second;
        end_is = (keys_compared F o).second_is;
        after = rw (sym row_key) (is_less F _ (operator_holds F less (keys_compared F o) h));
      }

    starts : (lower : Option (Value × Bool)) → MeetsLower F ty w lower → StartsBy lower hw.key
    unfolding range_start
    starts none m = record { start = []; start_is = refl; by = not_after hw.key }
    starts (some (v, within)) (typed, o, h) = starts_at v typed o within h

    ends : (upper : Option (Value × Bool)) → MeetsUpper F ty w upper → EndsAfter width upper hw.key
    unfolding range_end
    ends none m = record {
      end = filled (width + 1);
      end_is = refl;
      after = before-filled hw.key (width + 1) (omega (arith, hw.wide)) hw.bytes;
    }
    ends (some (v, within)) (typed, o, h) = ends_at v typed o within h

  within_scan :
      (width : ℕ) (lower upper : Option (Value × Bool)) (w : Value) (hw : HasKey w width)
      → StartsBy lower hw.key
      → EndsAfter width upper hw.key
      → scanned (range_start lower) (range_end width upper) (encode_index_key w) ≡ true
  unfolding scanned
  within_scan width lower upper w hw s e =
      rw (s.start_is, e.end_is, hw.encoded) (found (cmp_bytes s.start hw.key) s.by)
    where
      found :
          (o : Ordering)
          → o ≢ Ordering.gt
          → (elim o [
            | Ordering.gt ↦ false
            | _ ↦ elim (cmp_bytes hw.key e.end) [ Ordering.lt ↦ true | _ ↦ false ]
          ])
            ≡ true
      found Ordering.lt n = rw e.after refl
      found Ordering.eq n = rw e.after refl
      found Ordering.gt n = absurd (n refl)

  -- The scan that the bounds of a range predicate give finds the key of every value of the key
  -- column that meets the bounds: values and bounds of the column's type, and doubles that are no
  -- NaN and of which not both are zero.
  pub pk_range_covers :
      (ty : ColumnType) (lower upper : Option (Value × Bool)) (start end : Result SqlError (List ℕ))
      (w : Value)
      → pk_range ty lower upper ≡ some (start, end)
      → type_matches w ty ≡ true
      → w ≢ Value.null
      → MeetsLower F ty w lower
      → MeetsUpper F ty w upper
      → scanned start end (encode_index_key w) ≡ true
  unfolding bounded_scan pk_range
  pk_range_covers ty lower upper start end w e typed n m u =
      elim (Bool-cases (unbounded lower upper)) [
        | inl no_bounds ↦ absurd (cc (rw (no_bounds, pk_range) at e))
        | inr bounds ↦ of_width (key_len ty) refl (rw (bounds, pk_range) at e)
      ]
    where
      of_width :
          (len : Option ℕ)
          → key_len ty ≡ len
          → bounded_scan len lower upper ≡ some (start, end)
          → scanned start end (encode_index_key w) ≡ true
      of_width none is h = absurd (cc h)
      of_width (some width) is h =
          let hw = has_key ty w width is typed n in
          subst
            (λ (b : Option (Result SqlError (List ℕ) × Result SqlError (List ℕ))). elim b [
              | none ↦ Unit {0}
              | some (x, y) ↦ scanned x y (encode_index_key w) ≡ true
            ])
            h
            (within_scan width lower upper w hw (starts ty w width hw is lower m)
              (ends ty w width hw is upper u))
