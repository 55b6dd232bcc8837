-- ===== src/Prelude/Bits.antt =====
-- Laws of `&` and `|` on numbers of any width, from the recursion on binary digits that the native
-- operations stand for.
use Prim.Native.Nat.{ℕ, zero, suc, ◌+◌, ◌-◌, ◌*◌, ◌/◌, ◌%◌, ◌^◌, ◌≤◌, ◌<◌, min, max, digits}
use Prim.Native.Nat.{bit_and, bit_or, bit_and-bitwise, bit_or-bitwise}
use mathlib.Core.Path.{◌≡◌, refl, ap, ◌∙◌}
use mathlib.Core.Logic.{◌≢◌}
use native.Mathlib.Nat.{
  pow-succ', one-le-pow, div-div-eq-div-mul, mod-add-div, one-mul, zero-add, suc-add,
}
use native.Mathlib.Omega.{arith}

module _ (z : ℕ → ℕ) (f : ℕ → ℕ → ℕ) where
  -- One more digit to go does not matter where the number is used up.
  digits_spare : (n a b : ℕ) → a ≤ n → digits z f (suc n) a b ≡ digits z f n a b
  digits_spare zero zero b h = refl
  digits_spare (suc n) zero b h = refl
  digits_spare zero (suc a) b h = absurd (omega arith)
  digits_spare (suc n) (suc a) b h =
      ap (λ t. t * 2 + f (suc a % 2) (b % 2)) (digits_spare n (suc a / 2) (b / 2) (omega arith))

  digits_spares : (k a b : ℕ) → digits z f (k + a) a b ≡ digits z f a a b
  digits_spares zero a b = rw zero-add refl
  digits_spares (suc k) a b =
      rw suc-add (digits_spare (k + a) a b (omega arith) ∙ digits_spares k a b)

  digits_halve :
      (a b : ℕ)
      → digits z f (suc a) (suc a) b
        ≡ f (suc a % 2) (b % 2) + 2 * digits z f (suc a / 2) (suc a / 2) (b / 2)
  digits_halve a b =
      let split : a ≡ a - suc a / 2 + suc a / 2 = omega arith in
      let halved : digits z f a (suc a / 2) (b / 2) ≡ digits z f (suc a / 2) (suc a / 2) (b / 2) =
        ap (λ n. digits z f n (suc a / 2) (b / 2)) split
        ∙ digits_spares (a - suc a / 2) (suc a / 2) (b / 2) in
      omega (arith, halved)

pub bit_and_step : (a b : ℕ) → bit_and a b ≡ min (a % 2) (b % 2) + 2 * bit_and (a / 2) (b / 2)
bit_and_step zero b = simp bit_and-bitwise (omega arith)
bit_and_step (suc a) b = simp bit_and-bitwise (digits_halve (λ b. zero) min a b)

pub bit_or_step : (a b : ℕ) → bit_or a b ≡ max (a % 2) (b % 2) + 2 * bit_or (a / 2) (b / 2)
bit_or_step zero b = simp bit_or-bitwise (omega arith)
bit_or_step (suc a) b = simp bit_or-bitwise (digits_halve (λ b. b) max a b)

-- Induction on the number of digits.
module _ {ℓ} (P : ℕ → Type ℓ) (base : P 0) (step : (a : ℕ) → P (a / 2) → P a) where
  by_digits_below : (n a : ℕ) → a ≤ n → P a
  by_digits_below n zero h = base
  by_digits_below zero (suc a) h = absurd (omega arith)
  by_digits_below (suc n) (suc a) h = step (suc a) (by_digits_below n (suc a / 2) (omega arith))

  pub by_digits : (a : ℕ) → P a
  by_digits a = by_digits_below a a (omega arith)

pub zero-bit_and : (b : ℕ) → bit_and 0 b ≡ 0
zero-bit_and b = simp bit_and-bitwise

pub zero-bit_or : (b : ℕ) → bit_or 0 b ≡ b
zero-bit_or b = simp bit_or-bitwise

pub bit_and-zero : (a : ℕ) → bit_and a 0 ≡ 0
bit_and-zero =
    by_digits (λ a. bit_and a 0 ≡ 0) (zero-bit_and 0) (λ a ih. omega (arith, bit_and_step a 0))

pub bit_or-zero : (a : ℕ) → bit_or a 0 ≡ a
bit_or-zero =
    by_digits (λ a. bit_or a 0 ≡ a) (zero-bit_or 0) (λ a ih. omega (arith, bit_or_step a 0))

pub bit_and-le : (a b : ℕ) → bit_and a b ≤ b
bit_and-le a =
    by_digits (λ a. (b : ℕ) → bit_and a b ≤ b) (λ b. omega (arith, zero-bit_and b))
      (λ a ih b. omega (arith, bit_and_step a b, ih (b / 2))) a

half-bit_and : (a b : ℕ) → bit_and a b / 2 ≡ bit_and (a / 2) (b / 2)
half-bit_and a b = omega (arith, bit_and_step a b)

half-bit_or : (a b : ℕ) → bit_or a b / 2 ≡ bit_or (a / 2) (b / 2)
half-bit_or a b = omega (arith, bit_or_step a b)

pub bit_and_comm : (a b : ℕ) → bit_and a b ≡ bit_and b a
bit_and_comm a =
    by_digits (λ a. (b : ℕ) → bit_and a b ≡ bit_and b a)
      (λ b. omega (arith, zero-bit_and b, bit_and-zero b))
      (λ a ih b. omega (arith, bit_and_step a b, bit_and_step b a, ih (b / 2))) a

-- Every bit of the first number is a bit of the second.
abbrev pub Within : ℕ → ℕ → Type 0
Within x a = bit_and x a ≡ x

pub Within-zero : (a : ℕ) → Within 0 a
Within-zero a = zero-bit_and a

pub Within-bit_and : (a m : ℕ) → Within (bit_and a m) a
Within-bit_and a =
    by_digits (λ a. (m : ℕ) → Within (bit_and a m) a) (λ m. rw zero-bit_and (zero-bit_and 0))
      (λ a ih m.
        ground
          (arith, bit_and_step a m, bit_and_step (bit_and a m) a, half-bit_and a m, ih (m / 2)))
      a

Within-half : (x a : ℕ) → Within x a → Within (x / 2) (a / 2)
Within-half x a h = omega (arith, bit_and_step x a)

Within-of_halves : (x a : ℕ) → Within (x / 2) (a / 2) → x % 2 ≤ a % 2 → Within x a
Within-of_halves x a h k = omega (arith, bit_and_step x a)

pub Within-bit_or : (x y a : ℕ) → Within x a → Within y a → Within (bit_or x y) a
Within-bit_or x =
    by_digits (λ x. (y a : ℕ) → Within x a → Within y a → Within (bit_or x y) a)
      (λ y a h k. rw zero-bit_or k)
      (λ x ih y a h k.
        Within-of_halves (bit_or x y) a
          (rw half-bit_or (ih (y / 2) (a / 2) (Within-half x a h) (Within-half y a k)))
          (omega (arith, bit_or_step x y, bit_and_step x a, bit_and_step y a)))
      x

halves : (c m : ℕ) → (c * (2 * m) / 2 ≡ c * m) × (c * (2 * m) % 2 ≡ 0)
halves c m = omega arith

pub mod_halve : (a m : ℕ) → 0 < m → a % (2 * m) ≡ a / 2 % m * 2 + a % 2
mod_halve a m h = omega (
  arith,
  mod-add-div a (2 * m),
  ap (λ (t : ℕ). m * t) (div-div-eq-div-mul a 2 m),
  mod-add-div (a / 2) m,
)

-- A mask whose low `k` bits are clear acts on the digits above them.
pub bit_and_shift : (k a c : ℕ) → bit_and a (c * 2 ^ k) ≡ bit_and (a / 2 ^ k) c * 2 ^ k
bit_and_shift zero a c = ground arith
bit_and_shift (suc k) a c =
    rw (pow-succ' 2 k, ← div-div-eq-div-mul a 2 (2 ^ k))
      (ground
        (arith, bit_and_step a (c * (2 * 2 ^ k)), halves c (2 ^ k), bit_and_shift k (a / 2) c))

halve_mask : (m : ℕ) → 0 < m → ((2 * m - 1) / 2 ≡ m - 1) × ((2 * m - 1) % 2 ≡ 1)
halve_mask m h = omega arith

-- A mask of `k` low bits is the remainder by `2 ^ k`.
pub bit_and_low : (k a : ℕ) → bit_and a (2 ^ k - 1) ≡ a % 2 ^ k
bit_and_low zero a = omega (arith, bit_and-zero a)
bit_and_low (suc k) a = ground (
  arith,
  pow-succ' 2 k,
  one-le-pow k 2,
  mod_halve a (2 ^ k),
  bit_and_step a (2 ^ suc k - 1),
  halve_mask (2 ^ k),
  bit_and_low k (a / 2),
)

pub digit_times : (v p : ℕ) → v < 2 → v * p ≢ 0 → v * p ≡ p
digit_times zero p h k = absurd (k (omega arith))
digit_times (suc zero) p h k = omega arith
digit_times (suc (suc v)) p h k = absurd (omega arith)

-- A mask of one bit that meets a number is within it.
pub Within-two_pow : (k a : ℕ) → bit_and a (2 ^ k) ≢ 0 → Within (2 ^ k) a
Within-two_pow k a h =
    bit_and_comm (2 ^ k) a
    ∙ one_bit
    ∙ digit_times (bit_and (a / 2 ^ k) 1) (2 ^ k) (omega (arith, bit_and_low 1 (a / 2 ^ k)))
        (λ z. h (one_bit ∙ z))
  where
    one_bit : bit_and a (2 ^ k) ≡ bit_and (a / 2 ^ k) 1 * 2 ^ k
    one_bit = rw one-mul at (bit_and_shift k a 1)

bit_or-le : (a b : ℕ) → a ≤ bit_or a b
bit_or-le a =
    by_digits (λ a. (b : ℕ) → a ≤ bit_or a b) (λ b. omega arith)
      (λ a ih b. omega (arith, bit_or_step a b, ih (b / 2))) a

bit_or_comm : (a b : ℕ) → bit_or a b ≡ bit_or b a
bit_or_comm a =
    by_digits (λ a. (b : ℕ) → bit_or a b ≡ bit_or b a)
      (λ b. omega (arith, zero-bit_or b, bit_or-zero b))
      (λ a ih b. omega (arith, bit_or_step a b, bit_or_step b a, ih (b / 2))) a

pub bit_or-bounds : (a b : ℕ) → (a ≤ bit_or a b) × (b ≤ bit_or a b)
bit_or-bounds a b = (bit_or-le a b, rw (bit_or_comm a b) (bit_or-le b a))
