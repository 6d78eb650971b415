-- ===== src/Common/Bits.antt =====
-- Masks over a small range as arithmetic, checked by evaluation.
use prism_db.Common.Tests.{◌==◌}
use native.Mathlib.Decide.{dec_lt}
use Prim.Native.Nat.{ℕ, zero, suc, ◌+◌, ◌*◌, ◌/◌, ◌%◌, ◌<◌, bit_and, bit_or}
use mathlib.Core.Path.{◌≡◌, refl}
use mathlib.Core.Bool.{Bool, true, ◌&&◌}
use native.Mathlib.Omega.{arith}

-- Whether two functions agree on the first `n` numbers.
module _ (f g : ℕ → ℕ) where
  agree_up_to : ℕ → Bool
  agree_up_to zero = true
  agree_up_to (suc k) = f k == g k && agree_up_to k

  agree_at : (n : ℕ) → agree_up_to n ≡ true → {i : ℕ} → i < n → f i ≡ g i
  unfolding agree_up_to
  agree_at zero e h = absurd (omega arith)
  agree_at (suc k) e {i = i} h = elim (dec_lt i k) [
    | yes below ↦ agree_at k (ground arith) below
    | no top ↦ let same : i ≡ k = omega arith in rw same (ground arith)
  ]

-- `flags & !1` and `| 1` on a `u16`.
pub clear_low_bit : (x : ℕ) → x < 65536 → bit_and x 0xfffe ≡ x / 2 * 2
unfolding agree_up_to
clear_low_bit x = agree_at (λ x. bit_and x 0xfffe) (λ x. x / 2 * 2) 65536 refl

pub set_low_bit : (k : ℕ) → k < 32768 → bit_or (k * 2) 1 ≡ k * 2 + 1
unfolding agree_up_to
set_low_bit k = agree_at (λ k. bit_or (k * 2) 1) (λ k. k * 2 + 1) 32768 refl

-- `& 0x7fff` on a `u16`.
pub low_15_bits : (x : ℕ) → x < 65536 → bit_and x 0x7fff ≡ x % 32768
unfolding agree_up_to
low_15_bits x = agree_at (λ x. bit_and x 0x7fff) (λ x. x % 32768) 65536 refl
