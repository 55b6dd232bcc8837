-- ===== src/Prelude/Int.antt =====
-- Signed integers over the native numbers, under the library's names (its ℤ stands on the unary ℕ):
-- `int` and `ssize_t` results, where a negative number is an error code.
use Prim.Native.Nat.{ℕ, zero, suc, ◌-◌, ◌%◌, ◌^◌, ◌<◌}
use mathlib.Core.Path.{◌≡◌, refl}
use native.Mathlib.Omega.{arith}
use mathlib.Core.Bool.{Bool, true, false}
use hardware_msm7k.Prelude.Tests.{leb, if◌then◌else◌}

-- `negsuc n` is -(n + 1).
pub data ℤ : Type 0 where
  pos : ℕ → ℤ
  negsuc : ℕ → ℤ

-- `-n`
abbrev pub neg : ℕ → ℤ
neg zero = pos 0
neg (suc n) = negsuc n

-- `-x` on an `int`
abbrev pub negate : ℤ → ℤ
negate (pos n) = neg n
negate (negsuc n) = pos (suc n)

abbrev pub is_neg : ℤ → Bool
is_neg (pos n) = false
is_neg (negsuc n) = true

abbrev pub is_zero : ℤ → Bool
is_zero (pos zero) = true
is_zero (pos (suc n)) = false
is_zero (negsuc n) = false

pub neg-is_neg : (n : ℕ) → 0 < n → is_neg (neg n) ≡ true
neg-is_neg zero h = absurd (omega arith)
neg-is_neg (suc n) h = refl

-- A size that comes back from an `ssize_t` or `int` that is not negative.
abbrev pub magnitude : ℤ → ℕ
magnitude (pos n) = n
magnitude (negsuc n) = suc n

-- The integer that a 32-bit pattern stands for.
abbrev pub signed32 : ℕ → ℤ
signed32 w = if leb (2 ^ 31) w then neg (2 ^ 32 - w) else pos w

pub signed32_small : (n : ℕ) → n < 2 ^ 31 → signed32 (n % 2 ^ 32) ≡ pos n
signed32_small n h = ground arith
