-- ===== src/Storage/Bytes.antt =====
-- The bytes of a page buffer, `[u8; PAGE_SIZE]`: a value at each offset. Ranges that the source
-- copies or compares are lists.
use prism_db.Common.{
  ℕ, zero, suc, ◌+◌, ◌<◌, ◌≤◌, ◌≡◌, ◌⊎◌, inl, inr, ◌∙◌, refl, ap, List, [], ◌∷◌, if◌then◌else◌,
  ◌==◌, length, arith,
}
use prism_db.Common.Bytes.{IsU16, to_le, from_le, length-to_le, from_le-to_le}

abbrev pub Buffer : Type 0
Buffer = ℕ → ℕ

-- `buf[o] = x`
unfoldable pub put : Buffer → ℕ → ℕ → Buffer
put b o x = λ i. if i == o then x else b i

-- `buf[o..o + xs.len()].copy_from_slice(xs)`
unfoldable pub copy : Buffer → ℕ → List ℕ → Buffer
copy b o [] = b
copy b o (x ∷ xs) = copy (put b o x) (o + 1) xs

-- `buf[o..o + n]`
unfoldable pub slice : Buffer → ℕ → ℕ → List ℕ
slice b o zero = []
slice b o (suc n) = b o ∷ slice b (o + 1) n

unfoldable pub rd_u16 : Buffer → ℕ → ℕ
rd_u16 b o = from_le (slice b o 2)

unfoldable pub wr_u16 : Buffer → ℕ → ℕ → Buffer
wr_u16 b o v = copy b o (to_le 2 v)

unfoldable pub rd_u64 : Buffer → ℕ → ℕ
rd_u64 b o = from_le (slice b o 8)

-- `[a, a + n)` and `[o, o + m)` do not meet.
abbrev pub Apart : ℕ → ℕ → ℕ → ℕ → Type 0
Apart a n o m = (a + n ≤ o) ⊎ (o + m ≤ a)

copy_below : (b : Buffer) (o i : ℕ) (xs : List ℕ) → i < o → copy b o xs i ≡ b i
unfolding copy put
copy_below b o i [] h = refl
copy_below b o i (x ∷ xs) h = copy_below (put b o x) (o + 1) i xs (omega arith) ∙ ground arith

pub copy-Apart :
    (b : Buffer) (o i : ℕ) (xs : List ℕ) → Apart i 1 o (length xs) → copy b o xs i ≡ b i
unfolding copy put
copy-Apart b o i [] h = refl
copy-Apart b o i (x ∷ xs) (inl h) = copy_below (put b o x) (o + 1) i xs (omega arith) ∙ ground arith
copy-Apart b o i (x ∷ xs) (inr h) =
    copy-Apart (put b o x) (o + 1) i xs (inr (omega arith)) ∙ ground arith

pub slice-copy_self : (b : Buffer) (o : ℕ) (xs : List ℕ) → slice (copy b o xs) o (length xs) ≡ xs
unfolding slice copy
slice-copy_self b o [] = refl
slice-copy_self b o (x ∷ xs) = ground (
  arith,
  slice-copy_self (put b o x) (o + 1) xs,
  copy_below (put b o x) (o + 1) o xs (omega arith),
  put_self,
)
  where
    put_self : put b o x o ≡ x
    put_self = unfold put in ground arith

pub slice-copy-Apart :
    (b : Buffer) (o : ℕ) (xs : List ℕ) (a n : ℕ)
    → Apart a n o (length xs)
    → slice (copy b o xs) a n ≡ slice b a n
unfolding slice
slice-copy-Apart b o xs a zero h = refl
slice-copy-Apart b o xs a (suc n) h =
    ground
      (arith, slice-copy-Apart b o xs (a + 1) n (omega arith), copy-Apart b o a xs (omega arith))

pub rd_u16-wr_u16 : (b : Buffer) (o v : ℕ) → IsU16 v → rd_u16 (wr_u16 b o v) o ≡ v
unfolding rd_u16 wr_u16
rd_u16-wr_u16 b o v h =
    ap from_le (let e = slice-copy_self b o (to_le 2 v) in rw (length-to_le 2 v) at e)
    ∙ from_le-to_le 2 v h

pub slice-wr_u16 :
    (b : Buffer) (o v a n : ℕ) → Apart a n o 2 → slice (wr_u16 b o v) a n ≡ slice b a n
unfolding wr_u16
slice-wr_u16 b o v a n h = slice-copy-Apart b o (to_le 2 v) a n (rw (length-to_le 2 v) h)

pub rd_u16-wr_u16-Apart :
    (b : Buffer) (o v a : ℕ) → Apart a 2 o 2 → rd_u16 (wr_u16 b o v) a ≡ rd_u16 b a
unfolding rd_u16
rd_u16-wr_u16-Apart b o v a h = ap from_le (slice-wr_u16 b o v a 2 h)

pub rd_u16-copy-Apart :
    (b : Buffer) (o : ℕ) (xs : List ℕ) (a : ℕ)
    → Apart a 2 o (length xs)
    → rd_u16 (copy b o xs) a ≡ rd_u16 b a
unfolding rd_u16
rd_u16-copy-Apart b o xs a h = ap from_le (slice-copy-Apart b o xs a 2 h)

pub slice-put : (b : Buffer) (o x a n : ℕ) → Apart a n o 1 → slice (put b o x) a n ≡ slice b a n
unfolding slice put
slice-put b o x a zero h = refl
slice-put b o x a (suc n) h = ground (arith, slice-put b o x (a + 1) n)

-- A part of a copied range.
pub length-slice : (b : Buffer) (o n : ℕ) → length (slice b o n) ≡ n
unfolding slice
length-slice b o zero = refl
length-slice b o (suc n) = ap suc (length-slice b (o + 1) n)
