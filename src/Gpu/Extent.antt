-- ===== src/Gpu/Extent.antt =====
-- The sizes of images: the size that `alloc_impl` computes holds every pixel.
use hardware_msm7k.Prelude.Words.{add32, mul32, test, align32}
use hardware_msm7k.Prelude.{
  ℕ, ◌+◌, ◌*◌, ◌/◌, ◌%◌, ◌^◌, ◌≤◌, ◌<◌, ◌≡◌, inl, inr, refl, sym, Bool, true, false, ◌||◌, ◌==◌,
  if◌then◌else◌, Option, none, some, Bool-cases, arith,
}
use hardware_msm7k.Gpu.Format.{
  HalFormats, format_ycbcr_420_sp, format_ycrcb_420_sp_adreno, format_ycbcr_420_sp_tiled,
  pixel_bytes, adreno_size, tiled_size, planar_size, video_size, size_with, image_size,
}
use hardware_msm7k.Gpu.Rounding.{align32-bounds, product_fits, page_fits, half32_lem}
use mathlib.Core.Option.{some_inj}
use native.Mathlib.Nat.{mul-le-mul, mul-le-mul_left, mul-le-mul_right, mod-eq_of_lt}

-- The bytes that an image of `w` by `h` pixels takes: so many a pixel for an RGB format, and one
-- a pixel and two for each square of four pixels for a YUV format.
pub image_bytes : Option ℕ → (w h : ℕ) → ℕ
image_bytes (some bytes) w h = w * h * bytes
image_bytes none w h = w * h + 2 * (w / 2 * (h / 2))

-- The result `(stride, rows, size)` holds an image of `needed` bytes.
pub record Holds (w h needed : ℕ) (result : ℕ × ℕ × ℕ) : Type 0 where
  pub wide : w ≤ result.0
  pub tall : h ≤ result.1
  pub aligned : result.0 % 16 ≡ 0
  pub enough : needed ≤ result.2
  pub in_word : result.2 < 2 ^ 31

if-some_le :
    (b : Bool) (m n : ℕ) (o : Option ℕ)
    → m ≤ 4
    → (o ≡ some n → n ≤ 4)
    → (if b then some m else o) ≡ some n
    → n ≤ 4
if-some_le true m n o h k e = rw⁻¹ (some_inj.0 e) h
if-some_le false m n o h k e = k e

pixel_bytes-le : (f : HalFormats) (color n : ℕ) → pixel_bytes f color ≡ some n → n ≤ 4
unfolding pixel_bytes
pixel_bytes-le f color n =
    if-some_le ((color == f.rgba_8888) || (color == f.rgbx_8888) || (color == f.bgra_8888)) 4 n _
      (omega arith)
      (if-some_le (color == f.rgb_888) 3 n _ (omega arith) (
        if-some_le ((color == f.rgb_565) || (color == f.rgba_5551) || (color == f.rgba_4444)) 2 n
          none (omega arith) (λ e. absurd (cc e))))

module _ (w h : ℕ) (wide : w ≤ 8192) (tall : h ≤ 8192) where
  abbrev w32 : ℕ
  w32 = align32 w 32

  abbrev h32 : ℕ
  h32 = align32 h 32

  w32-bounds : (w ≤ w32) × (w32 < w + 32) × (w32 % 32 ≡ 0)
  w32-bounds = align32-bounds 5 27 refl w (omega (arith, wide)) (omega arith)

  h32-bounds : (h ≤ h32) × (h32 < h + 32) × (h32 % 32 ≡ 0)
  h32-bounds = align32-bounds 5 27 refl h (omega (arith, tall)) (omega arith)

  rgb-Holds :
      (f : HalFormats) (color bytes : ℕ)
      → bytes ≤ 4
      → (r : ℕ × ℕ × ℕ) → size_with f (some bytes) color w h ≡ some r
      → Holds w h (image_bytes (some bytes) w h) r
  unfolding size_with image_bytes
  rgb-Holds f color bytes small r e =
      let (exact, fits) =
        product_fits w32 h32 (omega (arith, w32-bounds, wide)) (omega (arith, h32-bounds, tall)) in
      let area : w * h ≤ w32 * h32 = mul-le-mul w32-bounds.0 h32-bounds.0 in
      let total : w32 * h32 * bytes ≤ (w32 * h32) * 4 = mul-le-mul_left (w32 * h32) small in
      let size : mul32 (mul32 w32 h32) bytes ≡ w32 * h32 * bytes =
        rw exact (mod-eq_of_lt (omega (arith, total, fits))) in
      rw⁻¹ (some_inj.0 e) (record {
        wide = w32-bounds.0;
        tall = h32-bounds.0;
        aligned = omega (arith, w32-bounds);
        enough = rw size (mul-le-mul_right bytes area);
        in_word = omega (arith, size, total, fits);
      })

  half_w-bounds : (w / 2 ≤ align32 (w / 2) 32) × (align32 (w / 2) 32 < w / 2 + 32)
  half_w-bounds =
      let b = align32-bounds 5 27 refl (w / 2) (omega (arith, wide)) (omega arith) in (b.0, b.1)

  half_h-bounds : (h / 2 ≤ align32 (h / 2) 32) × (align32 (h / 2) 32 < h / 2 + 32)
  half_h-bounds =
      let b = align32-bounds 5 27 refl (h / 2) (omega (arith, tall)) (omega arith) in (b.0, b.1)

  -- Two planes of the sizes `luma` and `chroma`, which hold their pixels.
  planes :
      (luma chroma : ℕ)
      → w * h ≤ luma
      → w / 2 * (h / 2) * 2 ≤ chroma
      → image_bytes none w h ≤ luma + chroma
  unfolding image_bytes
  planes luma chroma p q = omega (arith, p, q)

  adreno-Holds : Holds w h (image_bytes none w h) (adreno_size w h)
  unfolding adreno_size
  adreno-Holds =
      let cw = align32 (w / 2) 32 in
      let ch = align32 (h / 2) 32 in
      let luma =
        product_fits w32 h32 (omega (arith, w32-bounds, wide)) (omega (arith, h32-bounds, tall)) in
      let double : mul32 2 cw ≡ 2 * cw = omega (arith, half_w-bounds, wide) in
      let chroma =
        product_fits (2 * cw) ch (omega (arith, half_w-bounds, wide))
          (omega (arith, half_h-bounds, tall)) in
      let exact_chroma : mul32 (mul32 2 cw) ch ≡ 2 * cw * ch = rw double chroma.0 in
      let area : w * h ≤ w32 * h32 = mul-le-mul w32-bounds.0 h32-bounds.0 in
      let quarter : w / 2 * (h / 2) ≤ cw * ch = mul-le-mul half_w-bounds.0 half_h-bounds.0 in
      let both =
        planes (align32 (w32 * h32) 4096) (align32 (2 * cw * ch) 4096)
          (omega (arith, area, page_fits (w32 * h32), luma))
          (omega (arith, quarter, page_fits (2 * cw * ch), chroma)) in
      let sum : add32 (align32 (w32 * h32) 4096) (align32 (2 * cw * ch) 4096)
          ≡ align32 (w32 * h32) 4096 + align32 (2 * cw * ch) 4096 =
        mod-eq_of_lt
          (omega (arith, page_fits (w32 * h32), page_fits (2 * cw * ch), luma, chroma)) in
      record {
        wide = w32-bounds.0;
        tall = h32-bounds.0;
        aligned = omega (arith, w32-bounds);
        enough = rw (half32_lem w wide, half32_lem h tall, luma.0, exact_chroma, sum) both;
        in_word =
            rw (half32_lem w wide, half32_lem h tall, luma.0, exact_chroma, sum)
              (omega (arith, page_fits (w32 * h32), page_fits (2 * cw * ch), luma, chroma));
      }

  tiled-Holds : Holds w h (image_bytes none w h) (tiled_size w h)
  unfolding tiled_size
  tiled-Holds =
      let aw = align32 w 128 in
      let ch = align32 (h / 2) 32 in
      let b = align32-bounds 7 25 refl w (omega (arith, wide)) (omega arith) in
      let luma = product_fits aw h32 (omega (arith, b, wide)) (omega (arith, h32-bounds, tall)) in
      let chroma =
        product_fits aw ch (omega (arith, b, wide)) (omega (arith, half_h-bounds, tall)) in
      let area : w * h ≤ aw * h32 = mul-le-mul b.0 h32-bounds.0 in
      let half : w / 2 * 2 * (h / 2) ≤ aw * ch = mul-le-mul (omega (arith, b)) half_h-bounds.0 in
      let both =
        planes (align32 (aw * h32) 8192) (align32 (aw * ch) 8192)
          (omega (arith, area, page_fits (aw * h32), luma))
          (grind (arith, half, page_fits (aw * ch), chroma)) in
      let sum : add32 (align32 (aw * h32) 8192) (align32 (aw * ch) 8192)
          ≡ align32 (aw * h32) 8192 + align32 (aw * ch) 8192 =
        mod-eq_of_lt (omega (arith, page_fits (aw * h32), page_fits (aw * ch), luma, chroma)) in
      record {
        wide = b.0;
        tall = h32-bounds.0;
        aligned = omega (arith, b);
        enough = rw (half32_lem h tall, luma.0, chroma.0, sum) both;
        in_word =
            rw (half32_lem h tall, luma.0, chroma.0, sum)
              (omega (arith, page_fits (aw * h32), page_fits (aw * ch), luma, chroma));
      }

  even_planes :
      (p : ℕ × ℕ × ℕ)
      → p ≡ (
        align32 w 16,
        h,
        align32
            (add32
              (mul32 (align32 w 16) h)
              (mul32 (mul32 (align32 (align32 w 16 / 2) 16) (h / 2)) 2))
            4096,
      )
      → Holds w h (image_bytes none w h) p
  even_planes p e =
      let aw = align32 w 16 in
      let b = align32-bounds 4 28 refl w (omega (arith, wide)) (omega arith) in
      let cw = align32 (aw / 2) 16 in
      let d = align32-bounds 4 28 refl (aw / 2) (omega (arith, b, wide)) (omega arith) in
      let luma = product_fits aw h (omega (arith, b, wide)) (omega (arith, tall)) in
      let chroma = product_fits cw (h / 2) (omega (arith, b, d, wide)) (omega (arith, tall)) in
      let double : mul32 (mul32 cw (h / 2)) 2 ≡ cw * (h / 2) * 2 =
        rw chroma.0 (mod-eq_of_lt (omega (arith, chroma))) in
      let sum : add32 (aw * h) (cw * (h / 2) * 2) ≡ aw * h + cw * (h / 2) * 2 =
        mod-eq_of_lt (omega (arith, luma, chroma)) in
      let area : w * h ≤ aw * h = mul-le-mul_right h b.0 in
      let quarter : w / 2 * (h / 2) ≤ cw * (h / 2) =
        mul-le-mul_right (h / 2) (omega (arith, b, d)) in
      let both = planes (aw * h) (cw * (h / 2) * 2) area (omega (arith, quarter)) in
      let rounded = page_fits (aw * h + cw * (h / 2) * 2) (omega (arith, luma, chroma)) in
      rw e (record {
        wide = b.0;
        tall = omega arith;
        aligned = b.2;
        enough = rw (luma.0, double, sum) (omega (arith, both, rounded));
        in_word = rw (luma.0, double, sum) (omega (arith, rounded, luma, chroma));
      })

  planar-Holds : (r : ℕ × ℕ × ℕ) → planar_size w h ≡ some r → Holds w h (image_bytes none w h) r
  unfolding planar_size
  planar-Holds r e = elim (Bool-cases (test w 1 || test h 1)) [
    | inl odd ↦ absurd (cc (rw odd at e))
    | inr even ↦ even_planes r (sym (some_inj.0 (rw even at e)))
  ]

  video-Holds :
      (f : HalFormats) (color : ℕ) (r : ℕ × ℕ × ℕ)
      → video_size f color w h ≡ some r
      → Holds w h (image_bytes none w h) r
  unfolding video_size
  video-Holds f color r e = elim (Bool-cases (color == format_ycrcb_420_sp_adreno)) [
    | inl a ↦ rw⁻¹ (some_inj.0 (rw a at e)) adreno-Holds
    | inr a ↦ elim (Bool-cases (color == format_ycbcr_420_sp_tiled)) [
      | inl t ↦ rw⁻¹ (some_inj.0 (rw (a, t) at e)) tiled-Holds
      | inr t ↦
          elim (Bool-cases
            ((color == format_ycbcr_420_sp) || (color == f.ycrcb_420_sp) || (color == f.yv12))) [
              | inl p ↦ planar-Holds r (rw (a, t, p) at e)
              | inr p ↦ absurd (cc (rw (a, t, p) at e))
            ]
    ]
  ]

  Holds-of_pixel :
      (f : HalFormats) (color : ℕ) (bytes : Option ℕ) (r : ℕ × ℕ × ℕ)
      → ((n : ℕ) → bytes ≡ some n → n ≤ 4)
      → size_with f bytes color w h ≡ some r
      → Holds w h (image_bytes bytes w h) r
  unfolding size_with
  Holds-of_pixel f color none r small e = video-Holds f color r e
  Holds-of_pixel f color (some n) r small e = rgb-Holds f color n (small n refl) r e

  -- For an image of at most 8192 by 8192 pixels, where alloc_impl computes a size for the colour
  -- format, the stride and the number of rows are no less than the width and the height, the
  -- stride is a multiple of 16, the size is below 2 ^ 31, and it holds every pixel: so many bytes
  -- for a pixel of an RGB format, and one byte for a pixel and two for each square of four pixels
  -- of a YUV format.
  pub image_size-Holds :
      (f : HalFormats) (color : ℕ) (r : ℕ × ℕ × ℕ)
      → image_size f color w h ≡ some r
      → Holds w h (image_bytes (pixel_bytes f color) w h) r
  unfolding image_size
  image_size-Holds f color r e =
      Holds-of_pixel f color (pixel_bytes f color) r (pixel_bytes-le f color) e
