-- ===== src/Gpu/Format.antt =====
-- libgralloc-qsd8k/gpu.cpp: `getGrallocInformationFromFormat`, and the size of an image in
-- `alloc_impl`. An `int` is its 32-bit pattern.
use Prim.Native.Nat.{bit_xor}
use hardware_msm7k.Prelude.Words.{add32, sub32, mul32, test, align32, lts32}
use hardware_msm7k.Prelude.{
  ℕ, ◌-◌, ◌/◌, ◌^◌, ◌||◌, bit_and, ◌==◌, leb, if◌then◌else◌, Option, none, some,
}
use hardware_msm7k.Gpu.{buffer_type_ui, buffer_type_video}

-- The pixel formats of hardware/hardware.h.
pub record HalFormats : Type 0 where
  pub rgba_8888 : ℕ
  pub rgbx_8888 : ℕ
  pub bgra_8888 : ℕ
  pub rgb_888 : ℕ
  pub rgb_565 : ℕ
  pub rgba_5551 : ℕ
  pub rgba_4444 : ℕ
  pub ycrcb_420_sp : ℕ
  pub yv12 : ℕ

-- The formats of gralloc_priv.h that the code names.
abbrev pub format_ycbcr_420_sp_tiled : ℕ
format_ycbcr_420_sp_tiled = 0x108

abbrev pub format_ycbcr_420_sp : ℕ
format_ycbcr_420_sp = 0x109

abbrev pub format_ycrcb_420_sp_adreno : ℕ
format_ycrcb_420_sp_adreno = 0x10a

abbrev pub format_r_8 : ℕ
format_r_8 = 0x10d

abbrev pub format_rg_88 : ℕ
format_rg_88 = 0x10e

abbrev pub format_interlace : ℕ
format_interlace = 0x180

abbrev pub interlace_mask : ℕ
interlace_mask = 0x80

abbrev pub s3d_format_mask : ℕ
s3d_format_mask = 0xf_f000

-- `COLOR_FORMAT`
abbrev pub color_format : ℕ → ℕ
color_format x = bit_and x 0xfff

-- `w / 2` on an `int`, which rounds to 0.
abbrev pub half32 : ℕ → ℕ
half32 w = if leb (2 ^ 31) w then sub32 0 ((2 ^ 32 - w) / 2) else w / 2

-- `alignedw`, `alignedh` and `size` for the adreno format.
unfoldable pub adreno_size : (w h : ℕ) → ℕ × ℕ × ℕ
adreno_size w h =
    let aligned_w = align32 w 32 in
    let aligned_h = align32 h 32 in
    let luma = align32 (mul32 aligned_w aligned_h) 4096 in
    let chroma = mul32 (mul32 2 (align32 (half32 w) 32)) (align32 (half32 h) 32) in
    (aligned_w, aligned_h, add32 luma (align32 chroma 4096))

-- The same for the tiled format.
unfoldable pub tiled_size : (w h : ℕ) → ℕ × ℕ × ℕ
tiled_size w h =
    let aligned_w = align32 w 128 in
    let aligned_h = align32 h 32 in
    let luma = align32 (mul32 aligned_w aligned_h) 8192 in
    let chroma = mul32 aligned_w (align32 (half32 h) 32) in
    (aligned_w, aligned_h, add32 luma (align32 chroma 8192))

-- The same for the formats with two planes at half the size; odd sizes are refused.
unfoldable pub planar_size : (w h : ℕ) → Option (ℕ × ℕ × ℕ)
planar_size w h =
    let aligned_w = align32 w 16 in
    let chroma = mul32 (mul32 (align32 (aligned_w / 2) 16) (h / 2)) 2 in
    if test w 1 || test h 1
    then none
    else some (aligned_w, h, align32 (add32 (mul32 aligned_w h) chroma) 4096)

module _ (f : HalFormats) where
  -- `getGrallocInformationFromFormat`: the colour format and the buffer type.
  unfoldable pub format_information : (format : ℕ) → ℕ × ℕ
  format_information format =
      if format == f.yv12
      then (format, buffer_type_video)
      else if test format s3d_format_mask
      then (color_format format, buffer_type_video)
      else if test format interlace_mask
      then (bit_xor format format_interlace, buffer_type_video)
      else if lts32 format 7
      then (format, buffer_type_ui)
      else if (format == format_r_8) || (format == format_rg_88)
      then (format, buffer_type_ui)
      else (format, buffer_type_video)

  -- The bytes of a pixel, for the RGB formats.
  unfoldable pub pixel_bytes : (color : ℕ) → Option ℕ
  pixel_bytes color =
      if (color == f.rgba_8888) || (color == f.rgbx_8888) || (color == f.bgra_8888)
      then some 4
      else if color == f.rgb_888
      then some 3
      else if (color == f.rgb_565) || (color == f.rgba_5551) || (color == f.rgba_4444)
      then some 2
      else none

  -- The same for the YUV formats.
  unfoldable pub video_size : (color w h : ℕ) → Option (ℕ × ℕ × ℕ)
  unfolding adreno_size tiled_size planar_size
  video_size color w h =
      if color == format_ycrcb_420_sp_adreno
      then some (adreno_size w h)
      else if color == format_ycbcr_420_sp_tiled
      then some (tiled_size w h)
      else if (color == format_ycbcr_420_sp) || (color == f.ycrcb_420_sp) || (color == f.yv12)
      then planar_size w h
      else none

  -- The same for an RGB format of so many bytes a pixel, or else as a YUV format.
  unfoldable pub size_with : Option ℕ → (color w h : ℕ) → Option (ℕ × ℕ × ℕ)
  unfolding video_size
  size_with none color w h = video_size color w h
  size_with (some bytes) color w h =
      let aligned_w = align32 w 32 in
      let aligned_h = align32 h 32 in
      some (aligned_w, aligned_h, mul32 (mul32 aligned_w aligned_h) bytes)

  -- The switch of `alloc_impl`; none is -EINVAL.
  unfoldable pub image_size : (color w h : ℕ) → Option (ℕ × ℕ × ℕ)
  unfolding pixel_bytes size_with
  image_size color w h = size_with (pixel_bytes color) color w h
