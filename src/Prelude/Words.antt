-- ===== src/Prelude/Words.antt =====
-- `size_t` and `unsigned` on the 32-bit machine that the code is built for: words below 2 ^ 32.
use Prim.Native.Nat.{zero, suc, ℕ, ◌+◌, ◌-◌, ◌*◌, ◌/◌, ◌%◌, ◌^◌, ◌≤◌, ◌<◌, bit_and}
use mathlib.Core.Path.{◌≡◌, ap, sym}
use mathlib.Core.Bool.{Bool, not}
use native.Mathlib.Nat.{
  zero-mod, suc-mul, div-lt_iff_lt-mul, one-le-pow, mod-lt, mul-mod_left, add-mod-mod, mod-eq_of_lt,
}
use native.Mathlib.Omega.{arith}
use hardware_msm7k.Prelude.Tests.{◌==◌, ltb}
use hardware_msm7k.Prelude.Bits.{bit_and_low, bit_and_shift}

abbrev pub add32 : ℕ → ℕ → ℕ
add32 a b = (a + b) % 2 ^ 32

abbrev pub sub32 : ℕ → ℕ → ℕ
sub32 a b = (a + 2 ^ 32 - b) % 2 ^ 32

abbrev pub mul32 : ℕ → ℕ → ℕ
mul32 a b = a * b % 2 ^ 32

-- `~x`
abbrev pub not32 : ℕ → ℕ
not32 x = 2 ^ 32 - 1 - x

-- `x & mask` as a condition
abbrev pub test : ℕ → ℕ → Bool
test x mask = not (bit_and x mask == 0)

-- `(x + a - 1) & ~(a - 1)`
abbrev pub align32 : ℕ → ℕ → ℕ
align32 x a = bit_and (sub32 (add32 x a) 1) (not32 (sub32 a 1))

-- `-x & (2 ^ k - 1)`
abbrev pub padding32 : ℕ → ℕ → ℕ
padding32 x a = bit_and (sub32 0 x) (sub32 a 1)

pub le_product : (a b n : ℕ) → 0 < a → a * b ≡ n → b ≤ n
le_product zero b n h e = absurd (omega arith)
le_product (suc a) b n h e = omega (arith, suc-mul a b)

quotient_below : (y a b : ℕ) → 0 < b → a * b ≡ 2 ^ 32 → y < 2 ^ 32 → y / b < a
quotient_below y a b h e l = (div-lt_iff_lt-mul h).1 (rw e l)

-- `x + -x` is 0 or the modulus, and both are multiples of `b`.
negation_mod : (x b : ℕ) → x < 2 ^ 32 → 2 ^ 32 % b ≡ 0 → (x + sub32 0 x) % b ≡ 0
negation_mod zero b h e = zero-mod b
negation_mod (suc x) b h e =
    let whole : suc x + sub32 0 (suc x) ≡ 2 ^ 32 = omega arith in rw whole e

mask_as_product : (a b : ℕ) → 0 < a → 0 < b → a * b ≡ 2 ^ 32 → (a - 1) * b ≡ not32 (sub32 b 1)
mask_as_product zero b h j e = absurd (omega arith)
mask_as_product (suc a) b h j e =
    let pred_suc : suc a - 1 ≡ a = omega arith in rw pred_suc (omega (arith, suc-mul a b, e))

module _ (k m : ℕ) (full : 2 ^ m * 2 ^ k ≡ 2 ^ 32) where
  two-pow_pos : 0 < 2 ^ k
  two-pow_pos = one-le-pow k 2 (omega arith)

  two-pow-le : 2 ^ k ≤ 2 ^ 32
  two-pow-le = le_product (2 ^ m) (2 ^ k) (2 ^ 32) (one-le-pow m 2 (omega arith)) full

  high_mask : not32 (sub32 (2 ^ k) 1) ≡ (2 ^ m - 1) * 2 ^ k
  high_mask = sym (mask_as_product (2 ^ m) (2 ^ k) (one-le-pow m 2 (omega arith)) two-pow_pos full)

  -- With no carry out of the word, `align32` rounds up to a multiple of a power of two.
  pub align32_lem :
      (x : ℕ) → x + 2 ^ k ≤ 2 ^ 32 → align32 x (2 ^ k) ≡ (x + 2 ^ k - 1) / 2 ^ k * 2 ^ k
  align32_lem x h =
      rw (plain, high_mask, bit_and_shift k (x + 2 ^ k - 1) (2 ^ m - 1), bit_and_low m)
        (ap (λ t. t * 2 ^ k)
          (mod-eq_of_lt (
            quotient_below (x + 2 ^ k - 1) (2 ^ m) (2 ^ k) two-pow_pos full
              (omega (arith, two-pow_pos)))))
    where
      plain : sub32 (add32 x (2 ^ k)) 1 ≡ x + 2 ^ k - 1
      plain = omega (arith, two-pow_pos)

  padding32_mod : (x : ℕ) → padding32 x (2 ^ k) ≡ sub32 0 x % 2 ^ k
  padding32_mod x =
      let plain : sub32 (2 ^ k) 1 ≡ 2 ^ k - 1 = omega (arith, two-pow_pos, two-pow-le) in
      rw plain (bit_and_low k (sub32 0 x))

  -- The distance to the next multiple of a power of two.
  pub padding32_lem :
      (x : ℕ) → x < 2 ^ 32 → (padding32 x (2 ^ k) < 2 ^ k) × ((x + padding32 x (2 ^ k)) % 2 ^ k ≡ 0)
  padding32_lem x h =
      (rw padding32_mod (mod-lt _ two-pow_pos), rw (padding32_mod, add-mod-mod) wrap)
    where
      whole : 2 ^ 32 % 2 ^ k ≡ 0
      whole = rw (← full) (mul-mod_left (2 ^ m) (2 ^ k))

      wrap : (x + sub32 0 x) % 2 ^ k ≡ 0
      wrap = negation_mod x (2 ^ k) h whole

-- `a < b` on the patterns of two `int`s.
abbrev pub lts32 : ℕ → ℕ → Bool
lts32 a b = ltb (add32 a (2 ^ 31)) (add32 b (2 ^ 31))
