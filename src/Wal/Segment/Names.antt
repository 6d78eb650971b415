-- ===== src/Wal/Segment/Names.antt =====
-- crates/prism-wal/src/segment.rs: the names of segment files, in ASCII.
use prism_db.Common.{
  ℕ, zero, suc, ◌+◌, ◌-◌, ◌*◌, ◌/◌, ◌%◌, ◌^◌, ◌≡◌, ◌<◌, refl, Bool, true, false, List, [], ◌∷◌,
  ◌++◌, Option, none, some, length, length-append, if◌then◌else◌, ltb, leb, ◌==◌, arith,
}
use prism_db.Common.Bytes.{IsU64}

abbrev pub prefix : List ℕ
prefix = b'p' ∷ b'r' ∷ b'i' ∷ b's' ∷ b'm' ∷ b'.' ∷ b'w' ∷ b'a' ∷ b'l' ∷ b'.' ∷ []

-- The last `n` decimal digits of a number, with leading zeros.
unfoldable pub digits : ℕ → ℕ → List ℕ
digits zero v = []
digits (suc n) v = digits n (v / 10) ++ ((b'0' + v % 10) ∷ [])

-- `format!("prism.wal.{id:020}")`: a `u64` has at most twenty digits.
unfoldable pub segment_file_name : ℕ → List ℕ
segment_file_name id = prefix ++ digits 20 id

unfoldable pub strip_prefix : List ℕ → List ℕ → Option (List ℕ)
strip_prefix [] name = some name
strip_prefix (c ∷ cs) [] = none
strip_prefix (c ∷ cs) (d ∷ name) = if c == d then strip_prefix cs name else none

unfoldable pub is_ascii_digit : ℕ → Bool
is_ascii_digit b = if leb b'0' b then leb b b'9' else false

unfoldable pub all_digits : List ℕ → Bool
all_digits [] = true
all_digits (b ∷ bs) = if is_ascii_digit b then all_digits bs else false

unfoldable pub value_from : ℕ → List ℕ → ℕ
value_from acc [] = acc
value_from acc (b ∷ bs) = value_from (acc * 10 + (b - b'0')) bs

-- `digits.parse().ok()`
unfoldable pub parse_u64 : List ℕ → Option ℕ
parse_u64 ds = let v = value_from 0 ds in if ltb v (2 ^ 64) then some v else none

unfoldable pub checked_id : List ℕ → Option ℕ
checked_id ds = if length ds == 20 then if all_digits ds then parse_u64 ds else none else none

unfoldable pub id_after : Option (List ℕ) → Option ℕ
id_after none = none
id_after (some ds) = checked_id ds

unfoldable pub parse_segment_id : List ℕ → Option ℕ
parse_segment_id name = id_after (strip_prefix prefix name)

length-digits : (n v : ℕ) → length (digits n v) ≡ n
unfolding digits
length-digits zero v = refl
length-digits (suc n) v =
    omega
      (arith, length-append (digits n (v / 10)) ((b'0' + v % 10) ∷ []), length-digits n (v / 10))

all_digits-append :
    (xs : List ℕ) (d : ℕ)
    → all_digits xs ≡ true
    → is_ascii_digit d ≡ true
    → all_digits (xs ++ (d ∷ [])) ≡ true
unfolding all_digits
all_digits-append [] d h hd = rw hd refl
all_digits-append (x ∷ xs) d h hd = ground (arith, all_digits-append xs d, h, hd)

digit-valid : (r : ℕ) → r < 10 → is_ascii_digit (b'0' + r) ≡ true
unfolding is_ascii_digit
digit-valid r h = ground arith

all_digits-digits : (n v : ℕ) → all_digits (digits n v) ≡ true
unfolding digits
all_digits-digits zero v = unfold all_digits in refl
all_digits-digits (suc n) v =
    all_digits-append (digits n (v / 10)) (b'0' + v % 10) (all_digits-digits n (v / 10))
      (digit-valid (v % 10) (omega arith))

value_from-append :
    (acc : ℕ) (xs : List ℕ) (d : ℕ)
    → value_from acc (xs ++ (d ∷ [])) ≡ value_from acc xs * 10 + (d - b'0')
unfolding value_from
value_from-append acc [] d = refl
value_from-append acc (x ∷ xs) d = value_from-append (acc * 10 + (x - b'0')) xs d

pow_step : (n : ℕ) → 10 ^ suc n ≡ 10 * 10 ^ n
pow_step n = grind arith

value_from-digits : (n v : ℕ) → v < 10 ^ n → value_from 0 (digits n v) ≡ v
unfolding digits
value_from-digits zero v h = unfold value_from in omega arith
value_from-digits (suc n) v h = omega (
  arith,
  value_from-append 0 (digits n (v / 10)) (b'0' + v % 10),
  value_from-digits n (v / 10) (omega (arith, pow_step n)),
)

-- The name of a segment's file is read back as its id, for each `u64`.
pub parse_segment_id-segment_file_name :
    (id : ℕ) → IsU64 id → parse_segment_id (segment_file_name id) ≡ some id
unfolding parse_segment_id segment_file_name strip_prefix id_after checked_id parse_u64
parse_segment_id-segment_file_name id h =
    rw (length-digits 20 id, all_digits-digits 20 id, value_from-digits 20 id (omega arith))
      (ground arith)
