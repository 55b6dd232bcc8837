-- ===== src/Gpu/Rounding.antt =====
-- Rounding and products of sizes that stay within a word.
use hardware_msm7k.Prelude.Words.{mul32, align32, align32_lem}
use hardware_msm7k.Prelude.{ℕ, ◌+◌, ◌-◌, ◌*◌, ◌/◌, ◌%◌, ◌^◌, ◌≤◌, ◌<◌, ◌≡◌, refl, arith}
use hardware_msm7k.Gpu.Format.{half32}
use native.Mathlib.Nat.{mul-le-mul, mul-mod_left, div-add-mod', mod-lt, mod-eq_of_lt}

-- Rounding up to a power of two that divides 2 ^ 32, with no carry out of the word.
module _ (k m : ℕ) (full : 2 ^ m * 2 ^ k ≡ 2 ^ 32) where
  pub align32-bounds :
      (x : ℕ)
      → x + 2 ^ k ≤ 2 ^ 32
      → 0 < 2 ^ k
      → (x ≤ align32 x (2 ^ k)) × (align32 x (2 ^ k) < x + 2 ^ k) × (align32 x (2 ^ k) % 2 ^ k ≡ 0)
  align32-bounds x h p = rw (align32_lem k m full x h) (
    omega (arith, div-add-mod' (x + 2 ^ k - 1) (2 ^ k), mod-lt (x + 2 ^ k - 1) p),
    omega (arith, div-add-mod' (x + 2 ^ k - 1) (2 ^ k), p),
    mul-mod_left ((x + 2 ^ k - 1) / 2 ^ k) (2 ^ k),
  )

-- A product of two sides of at most 2 ^ 14 does not wrap.
pub product_fits : (a b : ℕ) → a ≤ 16384 → b ≤ 16384 → (mul32 a b ≡ a * b) × (a * b ≤ 2 ^ 28)
product_fits a b h k =
    let small : a * b ≤ 16384 * 16384 = mul-le-mul h k in
    (mod-eq_of_lt (omega (arith, small)), small)

-- Rounding a product up to a multiple of 4096 or 8192.
pub page_fits :
    (x : ℕ)
    → x ≤ 2 ^ 30
    → (x ≤ align32 x 4096)
      × (align32 x 4096 < x + 4096)
      × (x ≤ align32 x 8192)
      × (align32 x 8192 < x + 8192)
page_fits x h =
    let small = align32-bounds 12 20 refl x (omega (arith, h)) (omega arith) in
    let large = align32-bounds 13 19 refl x (omega (arith, h)) (omega arith) in
    (small.0, small.1, large.0, large.1)

pub half32_lem : (w : ℕ) → w ≤ 8192 → half32 w ≡ w / 2
half32_lem w h = ground (arith, h)
