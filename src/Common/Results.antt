-- ===== src/Common/Results.antt =====
-- Rust's `Result`; `and_then` is what `?` does with the rest of a function.
pub data Result {ℓ κ} (E : Type κ) (A : Type ℓ) : Type (ℓ ⊔ κ) where
  err : E → Result E A
  ok : A → Result E A

module _ {ℓ κ η} {E : Type η} {A : Type ℓ} {B : Type κ} where
  abbrev pub and_then : Result E A → (A → Result E B) → Result E B
  and_then (err e) rest = err e
  and_then (ok a) rest = rest a
