-- ===== src/Prelude/Masks.antt =====
-- One-bit masks and low masks on words, as arithmetic.
use Prim.Native.Nat.{zero, suc, ℕ, ◌+◌, ◌-◌, ◌*◌, ◌/◌, ◌%◌, ◌^◌, ◌<◌, bit_and, bit_or}
use mathlib.Core.Path.{◌≡◌, refl}
use native.Mathlib.Nat.{one-mul, pow-succ'}
use native.Mathlib.Omega.{arith}
use hardware_msm7k.Prelude.Bits.{
  by_digits, bit_and_step, bit_or_step, zero-bit_and, zero-bit_or, bit_and_shift, bit_and_low,
}
use hardware_msm7k.Prelude.Words.{not32}

-- Without a common bit, `|` adds.
pub bit_or_disjoint : (a b : ℕ) → bit_and a b ≡ 0 → bit_or a b ≡ a + b
bit_or_disjoint a =
    by_digits (λ a. (b : ℕ) → bit_and a b ≡ 0 → bit_or a b ≡ a + b)
      (λ b h. omega (arith, zero-bit_or b))
      (λ a ih b h. ground (arith, bit_and_step a b, bit_or_step a b, ih (b / 2))) a

complement_halves :
    (k m : ℕ)
    → m < 2 * k
    → ((2 * k - 1 - m) / 2 ≡ k - 1 - m / 2) × ((2 * k - 1 - m) % 2 ≡ 1 - m % 2)
complement_halves k m h = (omega (arith, h), omega (arith, h))

-- A mask and its complement split a number.
pub split_by_mask :
    (n a m : ℕ) → a < 2 ^ n → m < 2 ^ n → bit_and a (2 ^ n - 1 - m) + bit_and a m ≡ a
split_by_mask zero a m h k =
    let z : a ≡ 0 = omega (arith, h) in rw (z, zero-bit_and (2 ^ 0 - 1 - m), zero-bit_and m) refl
split_by_mask (suc n) a m h k = ground (
  arith,
  pow-succ' 2 n,
  complement_halves (2 ^ n) m,
  bit_and_step a (2 ^ suc n - 1 - m),
  bit_and_step a m,
  split_by_mask n (a / 2) (m / 2),
)

pub clear_mask : (a m : ℕ) → a < 2 ^ 32 → m < 2 ^ 32 → bit_and a (not32 m) + bit_and a m ≡ a
clear_mask a m h k = split_by_mask 32 a m h k

-- The bit `k` of a number.
pub bit_value : (k a : ℕ) → bit_and a (2 ^ k) ≡ a / 2 ^ k % 2 * 2 ^ k
bit_value k a = rw (one-mul (2 ^ k), bit_and_low 1 (a / 2 ^ k)) at (bit_and_shift k a 1)
