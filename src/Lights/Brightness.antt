-- ===== src/Lights/Brightness.antt =====
-- The brightness of a colour.
use hardware_msm7k.Prelude.Bits.{bit_and_low}
use hardware_msm7k.Prelude.{ℕ, ◌+◌, ◌*◌, ◌/◌, ◌%◌, ◌^◌, ◌≤◌, ◌<◌, ◌≡◌, bit_and, arith}
use hardware_msm7k.Lights.{Light, byte_at, rgb_to_brightness}

byte_at_lem : (color weight : ℕ) → byte_at color weight ≡ color / weight % 256
byte_at_lem color weight = bit_and_low 8 (color / weight)

-- The brightness of a colour with the bytes r, g and b, whatever its alpha, is (77 r + 150 g + 29
-- b) / 256, and at most 255.
pub rgb_to_brightness_lem :
    (l : Light) (a r g b : ℕ)
    → r < 256
    → g < 256
    → b < 256
    → l.color ≡ a * 2 ^ 24 + r * 2 ^ 16 + g * 2 ^ 8 + b
    → (rgb_to_brightness l ≡ (77 * r + 150 * g + 29 * b) / 256) × (rgb_to_brightness l ≤ 255)
unfolding rgb_to_brightness
rgb_to_brightness_lem l a r g b hr hg hb e =
    let low = bit_and_low 24 l.color in
    let color = bit_and l.color 0x00ff_ffff in
    omega (
      arith,
      hr,
      hg,
      hb,
      e,
      low,
      byte_at_lem color (2 ^ 16),
      byte_at_lem color (2 ^ 8),
      byte_at_lem color 1,
    )
