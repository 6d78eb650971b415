-- ===== src/Sql/Keys/Ranges/Compares.antt =====
-- crates/prism-sql/src/lib.rs: a comparison with a bound is one of the keys.
use prism_db.Common.{
  ℕ, ◌≡◌, ◌≢◌, ◌∙◌, refl, ap, sym, Bool, true, false, List, [], ◌∷◌, Option, none, some,
  if◌then◌else◌,
}
use Prim.Native.Nat.{Ordering}
use prism_db.Common.Results.{ok}
use prism_db.Common.Int.{i64_bits}
use prism_db.Sql.Value.{
  Value, Floats, BinaryOperator, greater, greater_or_equal, less, less_or_equal, bool_u8, cmp_bytes,
  as_f64, cmp_numbers, compared, holds, compare_values,
}
use prism_db.Sql.Keys.{to_be, flip_sign, ordered_bits, encode_index_key}
use prism_db.Sql.Keys.Order.{
  IsOrdered, integers, times, doubles, texts, booleans, int_keys, double_keys, bool_keys,
}
use prism_db.Sql.Keys.Ranges.{ColumnType, type_matches}
use prism_db.Sql.Keys.Ranges.Bytes.{swapped}

module _ (F : Floats) where
  -- A comparison of two values is one of their keys.
  pub record ComparedKeys (a b : Value) : Type 0 where
    pub first : List ℕ
    pub second : List ℕ
    pub first_is : encode_index_key a ≡ ok first
    pub second_is : encode_index_key b ≡ ok second
    pub order : compared F a b ≡ some (cmp_bytes first second)

  pub keys_compared : {a b : Value} → IsOrdered a b → ComparedKeys a b
  unfolding encode_index_key compared cmp_numbers as_f64
  keys_compared (integers {a} {b} h k) = record {
    first = to_be 8 (flip_sign (i64_bits a));
    second = to_be 8 (flip_sign (i64_bits b));
    first_is = refl;
    second_is = refl;
    order = ap some (sym (int_keys a b h k));
  }
  keys_compared (times {a} {b} h k) = record {
    first = to_be 8 (flip_sign (i64_bits a));
    second = to_be 8 (flip_sign (i64_bits b));
    first_is = refl;
    second_is = refl;
    order = ap some (sym (int_keys a b h k));
  }
  keys_compared (doubles {a} {b} h k m n z) = record {
    first = to_be 8 (ordered_bits a);
    second = to_be 8 (ordered_bits b);
    first_is = refl;
    second_is = refl;
    order = F.partial_cmp_numbers a b h k m n z ∙ ap some (sym (double_keys a b h k));
  }
  keys_compared (texts {a} {b}) = record {
    first = a;
    second = b;
    first_is = refl;
    second_is = refl;
    order = refl;
  }
  keys_compared (booleans {a} {b}) = record {
    first = bool_u8 a ∷ [];
    second = bool_u8 b ∷ [];
    first_is = refl;
    second_is = refl;
    order = ap some (sym (bool_keys a b));
  }

  pub same_key :
      (v : Value) {x y : List ℕ} → encode_index_key v ≡ ok x → encode_index_key v ≡ ok y → x ≡ y
  same_key v h k = cc (h, k)

  -- What a row meets whose key column the bound admits.
  abbrev pub MeetsLower : ColumnType → Value → Option (Value × Bool) → Type 0
  MeetsLower ty w none = Unit {0}
  MeetsLower ty w (some (v, within)) =
      (type_matches v ty ≡ true)
      × IsOrdered w v
      × (compare_values F (if within then greater_or_equal else greater) w v ≡ true)

  abbrev pub MeetsUpper : ColumnType → Value → Option (Value × Bool) → Type 0
  MeetsUpper ty w none = Unit {0}
  MeetsUpper ty w (some (v, within)) =
      (type_matches v ty ≡ true)
      × IsOrdered w v
      × (compare_values F (if within then less_or_equal else less) w v ≡ true)

  pub operator_holds :
      (op : BinaryOperator) {a b : Value} (k : ComparedKeys a b)
      → compare_values F op a b ≡ true
      → holds F op (cmp_bytes k.first k.second) ≡ true
  unfolding compare_values
  operator_holds op k h =
      sym (ap (λ c. elim c [ none ↦ false | some o ↦ holds F op o ]) k.order) ∙ h

  pub not_less : (o : Ordering) → holds F greater_or_equal o ≡ true → swapped o ≢ Ordering.gt
  unfolding holds
  not_less Ordering.lt h = absurd (cc h)
  not_less Ordering.eq h = λ e. cc e
  not_less Ordering.gt h = λ e. cc e

  pub is_greater : (o : Ordering) → holds F greater o ≡ true → o ≡ Ordering.gt
  unfolding holds
  is_greater Ordering.lt h = absurd (cc h)
  is_greater Ordering.eq h = absurd (cc h)
  is_greater Ordering.gt h = refl

  pub not_greater : (o : Ordering) → holds F less_or_equal o ≡ true → o ≢ Ordering.gt
  unfolding holds
  not_greater Ordering.lt h = λ e. cc e
  not_greater Ordering.eq h = λ e. cc e
  not_greater Ordering.gt h = absurd (cc h)

  pub is_less : (o : Ordering) → holds F less o ≡ true → o ≡ Ordering.lt
  unfolding holds
  is_less Ordering.lt h = refl
  is_less Ordering.eq h = absurd (cc h)
  is_less Ordering.gt h = absurd (cc h)

  pub not_null : {w v : Value} → IsOrdered w v → v ≢ Value.null
  not_null (integers h k) e = cc e
  not_null (times h k) e = cc e
  not_null (doubles h k m n z) e = cc e
  not_null texts e = cc e
  not_null booleans e = cc e
