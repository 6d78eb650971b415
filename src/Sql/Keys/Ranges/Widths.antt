-- ===== src/Sql/Keys/Ranges/Widths.antt =====
-- crates/prism-sql/src/lib.rs: the keys of a column that are all of one width.
use prism_db.Common.{
  ℕ, zero, suc, ◌%◌, ◌^◌, ◌≡◌, ◌≢◌, refl, ap, subst, Bool, true, false, List, [], ◌∷◌, some, length,
  All, arith,
}
use prism_db.Common.Results.{ok}
use prism_db.Common.Bytes.{IsByte}
use prism_db.Sql.Value.{Value, bool_u8}
use prism_db.Sql.Keys.{to_be, encode_index_key}
use prism_db.Sql.Keys.Ranges.{ColumnType, type_matches, key_len}

length-to_be : (n v : ℕ) → length (to_be n v) ≡ n
unfolding to_be
length-to_be zero v = refl
length-to_be (suc n) v = ap suc (length-to_be n (v % 256 ^ n))

to_be-IsByte : (n v : ℕ) → All IsByte (to_be n v)
unfolding to_be
to_be-IsByte zero v = tt
to_be-IsByte (suc n) v = (omega arith, to_be-IsByte n (v % 256 ^ n))

-- The key of a value in a column whose keys have a width.
pub record HasKey (v : Value) (width : ℕ) : Type 0 where
  pub key : List ℕ
  pub encoded : encode_index_key v ≡ ok key
  pub wide : length key ≡ width
  pub bytes : All IsByte key

fixed_width : (w : ℕ) (b : ℕ) (v : Value) → encode_index_key v ≡ ok (to_be w b) → HasKey v w
fixed_width w b v e = record {
  key = to_be w b;
  encoded = e;
  wide = length-to_be w b;
  bytes = to_be-IsByte w b;
}

bool-IsByte : (b : Bool) → All IsByte (bool_u8 b ∷ [])
unfolding bool_u8
bool-IsByte true = (omega arith, tt)
bool-IsByte false = (omega arith, tt)

pub has_key :
    (ty : ColumnType) (v : Value) (width : ℕ)
    → key_len ty ≡ some width
    → type_matches v ty ≡ true
    → v ≢ Value.null
    → HasKey v width
unfolding key_len type_matches encode_index_key
has_key ty Value.null width e m n = absurd (n refl)
has_key ColumnType.bool (Value.bool b) width e m n = record {
  key = bool_u8 b ∷ [];
  encoded = refl;
  wide = cc e;
  bytes = bool-IsByte b;
}
has_key ColumnType.int64 (Value.int64 z) width e m n =
    subst (HasKey (Value.int64 z)) (cc e) (fixed_width 8 _ (Value.int64 z) refl)
has_key ColumnType.double (Value.double d) width e m n =
    subst (HasKey (Value.double d)) (cc e) (fixed_width 8 _ (Value.double d) refl)
has_key ColumnType.timestamp (Value.timestamp z) width e m n =
    subst (HasKey (Value.timestamp z)) (cc e) (fixed_width 8 _ (Value.timestamp z) refl)
has_key ColumnType.text v width e m n = absurd (cc e)
has_key ty v width e m n = absurd (cc m)
