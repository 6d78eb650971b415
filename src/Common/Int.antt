-- ===== src/Common/Int.antt =====
-- Signed integers over the native numbers, and their two's complement at 64 bits.
use prism_db.Common.Tests.{ltb, if◌then◌else◌}
use Prim.Native.Nat.{ℕ, ◌-◌, ◌^◌, ◌<◌, ◌%◌}
use mathlib.Core.Path.{◌≡◌}
use native.Mathlib.Omega.{arith}

-- `negsuc n` is -(n + 1).
pub data ℤ : Type 0 where
  pos : ℕ → ℤ
  negsuc : ℕ → ℤ

-- The values of a Rust `i64`.
abbrev pub IsI64 : ℤ → Type 0
IsI64 (pos n) = n < 2 ^ 63
IsI64 (negsuc n) = n < 2 ^ 63

-- `v as u64`
unfoldable pub i64_bits : ℤ → ℕ
i64_bits (pos n) = n % 2 ^ 64
i64_bits (negsuc n) = 2 ^ 64 - 1 - n % 2 ^ 64

-- `v as i64`
unfoldable pub i64_of_bits : ℕ → ℤ
i64_of_bits v = if ltb v (2 ^ 63) then pos v else negsuc (2 ^ 64 - 1 - v)

pub i64_bits-lt : (z : ℤ) → i64_bits z < 2 ^ 64
unfolding i64_bits
i64_bits-lt (pos n) = omega arith
i64_bits-lt (negsuc n) = omega arith

pub i64_of_bits-i64_bits : (z : ℤ) → IsI64 z → i64_of_bits (i64_bits z) ≡ z
unfolding i64_bits i64_of_bits
i64_of_bits-i64_bits (pos n) h = ground arith
i64_of_bits-i64_bits (negsuc n) h = ground arith

-- The same at 32 bits.
abbrev pub IsI32 : ℤ → Type 0
IsI32 (pos n) = n < 2 ^ 31
IsI32 (negsuc n) = n < 2 ^ 31

unfoldable pub i32_bits : ℤ → ℕ
i32_bits (pos n) = n % 2 ^ 32
i32_bits (negsuc n) = 2 ^ 32 - 1 - n % 2 ^ 32

unfoldable pub i32_of_bits : ℕ → ℤ
i32_of_bits v = if ltb v (2 ^ 31) then pos v else negsuc (2 ^ 32 - 1 - v)

pub i32_bits-lt : (z : ℤ) → i32_bits z < 2 ^ 32
unfolding i32_bits
i32_bits-lt (pos n) = omega arith
i32_bits-lt (negsuc n) = omega arith

pub i32_of_bits-i32_bits : (z : ℤ) → IsI32 z → i32_of_bits (i32_bits z) ≡ z
unfolding i32_bits i32_of_bits
i32_of_bits-i32_bits (pos n) h = ground arith
i32_of_bits-i32_bits (negsuc n) h = ground arith
