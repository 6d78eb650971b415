-- ===== src/Wal/Segment/Fields.antt =====
-- crates/prism-wal/src/segment.rs: fields written to a buffer one after another.
use prism_db.Common.{
  ℕ, zero, suc, ◌+◌, ◌≡◌, ◌<◌, ◌≤◌, ◌∙◌, refl, Bool, true, false, List, [], ◌∷◌, length,
  if◌then◌else◌, leb, arith,
}
use prism_db.Storage.Bytes.{Buffer, copy, slice, slice-copy-Apart}

-- An offset and the bytes that are copied there.
abbrev pub Field : Type 0
Field = ℕ × List ℕ

unfoldable pub write_all : Buffer → List Field → Buffer
write_all b [] = b
write_all b ((o, xs) ∷ fs) = write_all (copy b o xs) fs

-- No field of the list meets `[a, a + n)`.
unfoldable pub misses : ℕ → ℕ → List Field → Bool
misses a n [] = true
misses a n ((o, xs) ∷ fs) =
    if leb (a + n) o then misses a n fs else if leb (o + length xs) a then misses a n fs else false

pub slice-write_all :
    (b : Buffer) (a n : ℕ) (fs : List Field)
    → misses a n fs ≡ true
    → slice (write_all b fs) a n ≡ slice b a n
unfolding write_all misses
slice-write_all b a n [] h = refl
slice-write_all b a n ((o, xs) ∷ fs) h =
    slice-write_all (copy b o xs) a n fs (ground (arith, h))
    ∙ slice-copy-Apart b o xs a n (ground (arith, h))

-- Buffers that agree on the first bytes.
pub slice_agree :
    (b c : Buffer) (m a n : ℕ)
    → ((i : ℕ) → i < m → b i ≡ c i)
    → a + n ≤ m
    → slice b a n ≡ slice c a n
unfolding slice
slice_agree b c m a zero h fits = refl
slice_agree b c m a (suc n) h fits =
    rw (h a (omega arith), slice_agree b c m (a + 1) n h (omega arith)) refl
