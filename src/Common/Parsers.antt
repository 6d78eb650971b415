-- ===== src/Common/Parsers.antt =====
-- Bounds-checked readers over bytes. A reader's state is what it has not consumed yet: the slice
-- `b[p..]` of a Rust cursor (b, p).
use prism_db.Common.Tests.{leb, le→leb, leb-false, if◌then◌else◌}
use prism_db.Common.Lists.{length, take, drop, take-append, drop-append, length-append}
use prism_db.Common.Results.{Result, ok, err}
use Prim.Native.Nat.{ℕ, zero, suc, ◌<◌}
use mathlib.Core.Path.{◌≡◌}
use mathlib.Core.List.{List, [], ◌∷◌, ◌++◌}
use native.Mathlib.Omega.{arith}

abbrev pub Parser {ℓ κ} : Type κ → Type ℓ → Type (ℓ ⊔ κ)
Parser E A = List ℕ → Result E (A × List ℕ)

module _ {ℓ κ η} {E : Type η} {A : Type ℓ} {B : Type κ} where
  abbrev pub then_read : Result E (A × List ℕ) → (A → Parser E B) → Result E (B × List ℕ)
  then_read (ok (a, rest)) f = f a rest
  then_read (err e) f = err e

infixl 5 ◌>>=◌
abbrev pub ◌>>=◌ {ℓ κ η} :
    {E : Type η} {A : Type ℓ} {B : Type κ} → Parser E A → (A → Parser E B) → Parser E B
◌>>=◌ p f b = then_read (p b) f

abbrev pub return {ℓ η} : {E : Type η} {A : Type ℓ} → A → Parser E A
return a b = ok (a, b)

abbrev pub fail {ℓ η} : {E : Type η} {A : Type ℓ} → E → Parser E A
fail e b = err e

module _ {η} {E : Type η} where
  -- The next `n` bytes, or the error.
  unfoldable pub read_exact : ℕ → E → Parser E (List ℕ)
  read_exact n e b = if leb n (length b) then ok (take n b, drop n b) else err e

  pub read_exact-append :
      (n : ℕ) (e : E) (bs rest : List ℕ)
      → length bs ≡ n
      → read_exact n e (bs ++ rest) ≡ ok (bs, rest)
  unfolding read_exact
  read_exact-append n e bs rest h = rw (
    le→leb n (length (bs ++ rest)) (omega (arith, length-append bs rest)),
    take-append n bs rest h,
    drop-append n bs rest h,
  )

  pub read_exact_short : (n : ℕ) (e : E) (b : List ℕ) → length b < n → read_exact n e b ≡ err e
  unfolding read_exact
  read_exact_short n e b h = rw (leb-false n (length b) h)

-- `for _ in 0..n { out.push(p()?) }`
unfoldable pub repeat {ℓ η} : {E : Type η} {A : Type ℓ} → ℕ → Parser E A → Parser E (List A)
repeat zero p = return []
repeat (suc n) p = do x ← p; xs ← repeat n p; return (x ∷ xs)

-- Reads `v` off the front of any input that begins with `bs`.
abbrev pub Reads {ℓ η} : {E : Type η} {A : Type ℓ} → Parser E A → List ℕ → A → Type (ℓ ⊔ η)
Reads p bs v = (rest : List ℕ) → p (bs ++ rest) ≡ ok (v, rest)
