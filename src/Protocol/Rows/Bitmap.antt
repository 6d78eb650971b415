-- ===== src/Protocol/Rows/Bitmap.antt =====
-- crates/prism-protocol/src/data.rs: the null bitmap of a row.
use prism_db.Common.{
  ℕ, zero, suc, ◌+◌, ◌*◌, ◌/◌, ◌%◌, ◌≡◌, ◌<◌, ◌≤◌, ◌∙◌, refl, ap, Bool, true, false, List, [], ◌∷◌,
  Option, none, some, length, replicate, if◌then◌else◌, ◌==◌, arith,
}
use prism_db.Protocol.Value.{Value}
use prism_db.Protocol.Rows.{Row, test_bit, set_bit, byte_of, set_in, mark_nulls, is_null}

-- A statement about each bit of a byte.
below_eight : (P : ℕ → Type 0) (k : ℕ) → k < 8 → P 0 × P 1 × P 2 × P 3 × P 4 × P 5 × P 6 × P 7 → P k
below_eight P zero h p = p.0
below_eight P (suc zero) h p = p.1
below_eight P (suc (suc zero)) h p = p.2
below_eight P (suc (suc (suc zero))) h p = p.3
below_eight P (suc (suc (suc (suc zero)))) h p = p.4
below_eight P (suc (suc (suc (suc (suc zero))))) h p = p.5
below_eight P (suc (suc (suc (suc (suc (suc zero)))))) h p = p.6
below_eight P (suc (suc (suc (suc (suc (suc (suc zero))))))) h p = p.7
below_eight P (suc (suc (suc (suc (suc (suc (suc (suc k)))))))) h p = absurd (omega arith)

abbrev BitSet : ℕ → ℕ → ℕ → Type 0
BitSet b k l = test_bit (set_bit b k) l ≡ (if k == l then true else test_bit b l)

set_bit_row :
    (b k : ℕ)
    → k < 8
    → BitSet b k 0
      × BitSet b k 1
      × BitSet b k 2
      × BitSet b k 3
      × BitSet b k 4
      × BitSet b k 5
      × BitSet b k 6
      × BitSet b k 7
unfolding test_bit set_bit
set_bit_row b k h =
    below_eight
      (λ k.
        BitSet b k 0
        × BitSet b k 1
        × BitSet b k 2
        × BitSet b k 3
        × BitSet b k 4
        × BitSet b k 5
        × BitSet b k 6
        × BitSet b k 7)
      k h
      (
        ground arith,
        ground arith,
        ground arith,
        ground arith,
        ground arith,
        ground arith,
        ground arith,
        ground arith,
      )

test_bit-set_bit : (b k l : ℕ) → k < 8 → l < 8 → BitSet b k l
test_bit-set_bit b k l hk hl = below_eight (BitSet b k) l hl (set_bit_row b k hk)

byte_of-set_in :
    (bm : List ℕ) (n k m : ℕ)
    → n < length bm
    → byte_of (set_in bm n k) m ≡ (if n == m then set_bit (byte_of bm m) k else byte_of bm m)
unfolding byte_of set_in
byte_of-set_in [] n k m h = absurd (omega arith)
byte_of-set_in (b ∷ bs) zero k zero h = refl
byte_of-set_in (b ∷ bs) zero k (suc m) h = ground arith
byte_of-set_in (b ∷ bs) (suc n) k zero h = ground arith
byte_of-set_in (b ∷ bs) (suc n) k (suc m) h = ground (arith, byte_of-set_in bs n k m (omega arith))

length-set_in : (bm : List ℕ) (n k : ℕ) → length (set_in bm n k) ≡ length bm
unfolding set_in
length-set_in [] n k = refl
length-set_in (b ∷ bs) zero k = refl
length-set_in (b ∷ bs) (suc n) k = ap suc (length-set_in bs n k)

-- A bit that is set, among the bits of the whole bitmap.
is_null-set_in :
    (bm : List ℕ) (i j : ℕ)
    → i < 8 * length bm
    → is_null (set_in bm (i / 8) (i % 8)) j ≡ (if i == j then true else is_null bm j)
unfolding is_null
is_null-set_in bm i j h = rw (byte_of-set_in bm (i / 8) (i % 8) (j / 8) (omega arith)) (
    ground
      (arith, test_bit-set_bit (byte_of bm (j / 8)) (i % 8) (j % 8) (omega arith) (omega arith)))

abbrev is_none : Option Value → Bool
is_none none = true
is_none (some v) = false

-- The bitmap tells the nulls of a row that begins at `i`.
abbrev pub Tells : List ℕ → ℕ → Row → Type 0
Tells bm i [] = Unit {0}
Tells bm i (c ∷ row) = (is_null bm i ≡ is_none c) × Tells bm (i + 1) row

mark_nulls-below :
    (i j : ℕ) (row : Row) (bm : List ℕ)
    → j < i
    → i + length row ≤ 8 * length bm
    → is_null (mark_nulls i row bm) j ≡ is_null bm j
unfolding mark_nulls
mark_nulls-below i j [] bm h fits = refl
mark_nulls-below i j (none ∷ row) bm h fits =
    mark_nulls-below (i + 1) j row (set_in bm (i / 8) (i % 8)) (omega arith)
      (omega (arith, length-set_in bm (i / 8) (i % 8)))
    ∙ is_null-set_in bm i j (omega arith)
    ∙ ground arith
mark_nulls-below i j (some v ∷ row) bm h fits =
    mark_nulls-below (i + 1) j row bm (omega arith) (omega arith)

pub mark_nulls-Tells :
    (i : ℕ) (row : Row) (bm : List ℕ)
    → i + length row ≤ 8 * length bm
    → ((j : ℕ) → i ≤ j → is_null bm j ≡ false)
    → Tells (mark_nulls i row bm) i row
unfolding mark_nulls
mark_nulls-Tells i [] bm fits clear = tt
mark_nulls-Tells i (none ∷ row) bm fits clear =
    let bm' = set_in bm (i / 8) (i % 8) in
    let fits' : i + 1 + length row ≤ 8 * length bm' =
      omega (arith, length-set_in bm (i / 8) (i % 8)) in
    (
      mark_nulls-below (i + 1) i row bm' (omega arith) fits'
          ∙ is_null-set_in bm i i (omega arith)
          ∙ ground arith,
      mark_nulls-Tells (i + 1) row bm' fits'
          (λ j h. is_null-set_in bm i j (omega arith) ∙ ground (arith, clear j)),
    )
mark_nulls-Tells i (some v ∷ row) bm fits clear = (
  mark_nulls-below (i + 1) i row bm (omega arith) (omega arith) ∙ clear i (omega arith),
  mark_nulls-Tells (i + 1) row bm (omega arith) (λ j h. clear j (omega arith)),
)

pub length-mark_nulls : (i : ℕ) (row : Row) (bm : List ℕ) → length (mark_nulls i row bm) ≡ length bm
unfolding mark_nulls
length-mark_nulls i [] bm = refl
length-mark_nulls i (none ∷ row) bm =
    length-mark_nulls (i + 1) row (set_in bm (i / 8) (i % 8)) ∙ length-set_in bm (i / 8) (i % 8)
length-mark_nulls i (some v ∷ row) bm = length-mark_nulls (i + 1) row bm

byte_of-replicate : (n m : ℕ) → byte_of (replicate n 0) m ≡ 0
unfolding byte_of
byte_of-replicate zero m = refl
byte_of-replicate (suc n) zero = refl
byte_of-replicate (suc n) (suc m) = byte_of-replicate n m

zero_bit : (k : ℕ) → k < 8 → test_bit 0 k ≡ false
unfolding test_bit
zero_bit k h =
    below_eight (λ k. test_bit 0 k ≡ false) k h
      (unfold test_bit in (refl, refl, refl, refl, refl, refl, refl, refl))

pub is_null_blank : (nb j : ℕ) → is_null (replicate nb 0) j ≡ false
unfolding is_null
is_null_blank nb j = rw (byte_of-replicate nb (j / 8)) (zero_bit (j % 8) (omega arith))
