-- ===== src/Copybit/Tests.antt =====
-- The blitter on a small screen, and its theorems there.
use hardware_msm7k.Prelude.Int.{pos}
use hardware_msm7k.Prelude.{ℕ, ◌-◌, ◌^◌, ◌<◌, ◌≡◌, refl, false, some, [], ◌∷◌, arith}
use hardware_msm7k.Errno.{Errno}
use hardware_msm7k.Copybit.{
  Formats, FlagBits, Rect, Image, BlitReq, Context, intersect, muldiv, get_format, set_image,
  dst_rect_of, unscaled,
}
use hardware_msm7k.Copybit.Stretch.{
  Driver, flip, scaled, src_rect_of, request, is_empty, is_refused, has_alpha, max_dimension,
  stretch_copybit,
}
use hardware_msm7k.Copybit.Settings.{Names, Screen}
use hardware_msm7k.Copybit.Batches.{kept, wanted, Delivered, stretch_copybit-Delivered}
use hardware_msm7k.Copybit.Clip.{Inside, IsWords, request-Inside}
use hardware_msm7k.Copybit.Scale.{InImage, request-InImage}

abbrev linux : Errno
linux = record {
  einval = 22;
  enomem = 12;
  enoent = 2;
  einval_pos = omega arith;
  enomem_pos = omega arith;
  enoent_pos = omega arith;
}

abbrev formats : Formats
formats = record {
  rgb_565 = 4;
  rgbx_8888 = 2;
  rgb_888 = 3;
  rgba_8888 = 1;
  bgra_8888 = 5;
  ycrcb_420_sp = 17;
  ycbcr_422_sp = 16;
  rgba_5551 = 6;
  rgba_4444 = 7;
  mdp_rgb_565 = 0;
  mdp_rgbx_8888 = 13;
  mdp_rgb_888 = 5;
  mdp_rgba_8888 = 9;
  mdp_bgra_8888 = 12;
  mdp_y_cbcr_h2v2 = 2;
  mdp_y_crcb_h2v1 = 6;
}

abbrev bits : FlagBits
bits = record {
  transform_rot_90 = 4;
  transform_flip_v = 2;
  transform_flip_h = 1;
  mdp_rot_90 = 4;
  mdp_rot_180 = 3;
  mdp_rot_270 = 7;
  mdp_dither = 8;
  mdp_blur = 16;
  mdp_blend_fg_premult = 0x2000_0000;
  mdp_transp_nop = 0xffff_ffff;
  mdp_alpha_nop = 255;
}

abbrev names : Names
names = record {
  rotation_deg = 0;
  plane_alpha = 1;
  dither = 2;
  blur = 4;
  transform = 3;
  enable = 1;
  disable = 0;
  minification_limit = 1;
  magnification_limit = 2;
  scaling_frac_bits = 3;
  rotation_step_deg = 4;
}

abbrev plain : Context
plain = record { fd = 3; alpha = 255; flags = 0 }

abbrev rotated : Context
rotated = record { fd = 3; alpha = 255; flags = 4 }

abbrev screen : Image
screen = record {
  w = 320;
  h = 480;
  format = 4;
  handle = record { fd = 7; flags = 0; offset = 0; gpu_fd = 0; map_offset = 0 };
}

abbrev icon : Image
icon = record screen { w = 64; h = 64 }

abbrev rect : ℕ → ℕ → ℕ → ℕ → Rect
rect l t r b = record { l = l; t = t; r = r; b = b }

abbrev works : Driver
works sent batch = (pos 0, 0)

-- A rectangle of the region beside the target is sent with widths that wrapped around.
beside :
    request formats bits false plain screen icon
      (rect 0 0 64 64)
      (rect 0 0 64 64)
      (rect 100 0 120 64)
    ≡ some (record {
      src = set_image formats false icon;
      dst = set_image formats false screen;
      src_rect = record { x = 100; y = 0; w = 2 ^ 32 - 36; h = 64 };
      dst_rect = record { x = 100; y = 0; w = 2 ^ 32 - 36; h = 64 };
      alpha = 255;
      transp_mask = 0xffff_ffff;
      flags = 0x2000_0000;
    })
unfolding request set_image get_format src_rect_of unscaled scaled flip dst_rect_of intersect muldiv
beside = refl

-- Scaled to twice its size, and turned by 90 degrees.
abbrev doubled : BlitReq
doubled = record {
  src = record { width = 64; height = 64; format = 0; offset = 0; memory_id = 7 };
  dst = record { width = 320; height = 480; format = 0; offset = 0; memory_id = 7 };
  src_rect = record { x = 5; y = 39; w = 20; h = 20 };
  dst_rect = record { x = 110; y = 10; w = 40; h = 40 };
  alpha = 255;
  transp_mask = 0xffff_ffff;
  flags = 0x2000_0004;
}

doubled_blit :
    request formats bits false rotated screen icon
      (rect 100 0 228 128)
      (rect 0 0 64 64)
      (rect 110 10 150 50)
    ≡ some doubled
unfolding request set_image get_format src_rect_of unscaled scaled flip dst_rect_of intersect muldiv
doubled_blit = refl

words : (l t r b : ℕ) → l < 2 ^ 32 → t < 2 ^ 32 → r < 2 ^ 32 → b < 2 ^ 32 → IsWords (rect l t r b)
words l t r b h0 h1 h2 h3 = record { left = h0; top = h1; right = h2; bottom = h3 }

request-Inside_example : Inside 320 110 150 100 228 110 40 × Inside 480 10 50 0 128 10 40
unfolding intersect
request-Inside_example =
    request-Inside formats bits false rotated screen icon (rect 100 0 228 128) (rect 0 0 64 64)
      (rect 110 10 150 50) doubled doubled_blit (omega arith, omega arith)
      (words 110 10 150 50 (omega arith) (omega arith) (omega arith) (omega arith))
      (words 100 0 228 128 (omega arith) (omega arith) (omega arith) (omega arith)) refl refl

request-InImage_example : InImage doubled.src_rect 64 64
unfolding intersect
request-InImage_example =
    request-InImage formats bits false rotated screen icon (rect 100 0 228 128) (rect 0 0 64 64)
      (rect 110 10 150 50) doubled doubled_blit
      (record {
        left = omega arith;
        across = omega arith;
        right = omega arith;
        top = omega arith;
        down = omega arith;
        bottom = omega arith;
        wide = omega arith;
        high = omega arith;
      })
      (record {
        left = refl;
        top = refl;
        right = omega arith;
        bottom = omega arith;
        wide = omega arith;
        high = omega arith;
      })

checks_pass : is_refused formats bits false rotated works screen icon (rect 0 0 64 64) ≡ false
unfolding is_refused has_alpha max_dimension
checks_pass = refl

one_of_two :
    wanted formats bits false rotated works screen icon
      (rect 100 0 228 128)
      (rect 0 0 64 64)
      (rect 110 10 150 50 ∷ rect 110 10 110 50 ∷ [])
    ≡ some (doubled ∷ [])
unfolding wanted request set_image get_format src_rect_of unscaled scaled flip dst_rect_of intersect
    muldiv kept is_empty
one_of_two = refl

stretch_copybit-Delivered_example :
    Delivered formats bits false rotated works screen icon
      (rect 100 0 228 128)
      (rect 0 0 64 64)
      (stretch_copybit formats bits false rotated works linux screen icon
        (rect 100 0 228 128)
        (rect 0 0 64 64)
        (rect 110 10 150 50 ∷ rect 110 10 110 50 ∷ []))
      (doubled ∷ [])
stretch_copybit-Delivered_example =
    stretch_copybit-Delivered formats bits false rotated works screen icon (rect 100 0 228 128)
      (rect 0 0 64 64) linux (rect 110 10 150 50 ∷ rect 110 10 110 50 ∷ []) (doubled ∷ [])
      checks_pass one_of_two

abbrev other_screen : Screen
other_screen = record {
  opened = pos 3;
  open_errno = 2;
  info = pos 0;
  info_errno = 22;
  is_msmfb = false;
}
