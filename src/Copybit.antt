-- ===== src/Copybit.antt =====
-- libcopybit/copybit.cpp: the requests to the display processor. An `int` of the source is its
-- 32-bit pattern. The constants of hardware/copybit.h and linux/msm_mdp.h are parameters.
use hardware_msm7k.Prelude.Words.{add32, sub32, mul32, test, lts32}
pub mod Stretch
pub mod Settings
pub mod Batches
pub mod Control
mod Tests
pub mod Beside
pub mod Clip
pub mod Scale
use hardware_msm7k.Prelude.{
  ℕ, ◌-◌, ◌/◌, ◌^◌, Bool, true, false, ◌&&◌, bit_or, ◌==◌, if◌then◌else◌, Option, none, some,
}

-- `COPYBIT_FORMAT_*` and the `MDP_*` formats.
pub record Formats : Type 0 where
  pub rgb_565 : ℕ
  pub rgbx_8888 : ℕ
  pub rgb_888 : ℕ
  pub rgba_8888 : ℕ
  pub bgra_8888 : ℕ
  pub ycrcb_420_sp : ℕ
  pub ycbcr_422_sp : ℕ
  pub rgba_5551 : ℕ
  pub rgba_4444 : ℕ
  pub mdp_rgb_565 : ℕ
  pub mdp_rgbx_8888 : ℕ
  pub mdp_rgb_888 : ℕ
  pub mdp_rgba_8888 : ℕ
  pub mdp_bgra_8888 : ℕ
  pub mdp_y_cbcr_h2v2 : ℕ
  pub mdp_y_crcb_h2v1 : ℕ

-- `COPYBIT_TRANSFORM_*`, and the `MDP_*` flags and masks.
pub record FlagBits : Type 0 where
  pub transform_rot_90 : ℕ
  pub transform_flip_v : ℕ
  pub transform_flip_h : ℕ
  pub mdp_rot_90 : ℕ
  pub mdp_rot_180 : ℕ
  pub mdp_rot_270 : ℕ
  pub mdp_dither : ℕ
  pub mdp_blur : ℕ
  pub mdp_blend_fg_premult : ℕ
  pub mdp_transp_nop : ℕ
  pub mdp_alpha_nop : ℕ

-- `copybit_rect_t`
pub record Rect : Type 0 where
  pub l : ℕ
  pub t : ℕ
  pub r : ℕ
  pub b : ℕ

-- The fields of `private_handle_t` that `set_image` reads.
pub record ImageHandle : Type 0 where
  pub fd : ℕ
  pub flags : ℕ
  pub offset : ℕ
  pub gpu_fd : ℕ
  pub map_offset : ℕ

-- `copybit_image_t`
pub record Image : Type 0 where
  pub w : ℕ
  pub h : ℕ
  pub format : ℕ
  pub handle : ImageHandle

-- `mdp_img`
pub record MdpImg : Type 0 where
  pub width : ℕ
  pub height : ℕ
  pub format : ℕ
  pub offset : ℕ
  pub memory_id : ℕ

-- `mdp_rect`
pub record MdpRect : Type 0 where
  pub x : ℕ
  pub y : ℕ
  pub w : ℕ
  pub h : ℕ

-- `mdp_blit_req`
pub record BlitReq : Type 0 where
  pub src : MdpImg
  pub dst : MdpImg
  pub src_rect : MdpRect
  pub dst_rect : MdpRect
  pub alpha : ℕ
  pub transp_mask : ℕ
  pub flags : ℕ

-- `copybit_context_t`
pub record Context : Type 0 where
  pub fd : ℕ
  pub alpha : ℕ
  pub flags : ℕ

abbrev pub min_int : ℕ → ℕ → ℕ
min_int a b = if lts32 a b then a else b

abbrev pub max_int : ℕ → ℕ → ℕ
max_int a b = if lts32 b a then a else b

-- `MULDIV`. None is the division by 0, which the source assumes away.
unfoldable pub muldiv : (a b mul div : ℕ) → Option (ℕ × ℕ)
muldiv a b mul div =
    if mul == div
    then some (a, b)
    else if div == 0
    then none
    else some (mul32 mul a / div, mul32 mul b / div)

unfoldable pub intersect : Rect → Rect → Rect
intersect lhs rhs = record {
  l = max_int lhs.l rhs.l;
  t = max_int lhs.t rhs.t;
  r = min_int lhs.r rhs.r;
  b = min_int lhs.b rhs.b;
}

-- `get_format`, with -1 as its pattern.
unfoldable pub get_format : Formats → ℕ → ℕ
get_format k format =
    if format == k.rgb_565
    then k.mdp_rgb_565
    else if format == k.rgbx_8888
    then k.mdp_rgbx_8888
    else if format == k.rgb_888
    then k.mdp_rgb_888
    else if format == k.rgba_8888
    then k.mdp_rgba_8888
    else if format == k.bgra_8888
    then k.mdp_bgra_8888
    else if format == k.ycrcb_420_sp
    then k.mdp_y_cbcr_h2v2
    else if format == k.ycbcr_422_sp
    then k.mdp_y_crcb_h2v1
    else 2 ^ 32 - 1

-- `PRIV_FLAGS_USES_GPU`
abbrev pub flag_uses_gpu : ℕ
flag_uses_gpu = 4

-- `set_image`. `msm7k` says that COPYBIT_MSM7K is defined.
unfoldable pub set_image : Formats → (msm7k : Bool) → Image → MdpImg
unfolding get_format
set_image k msm7k rhs =
    let hnd = rhs.handle in
    let format = get_format k rhs.format in
    let img : MdpImg = record {
      width = rhs.w;
      height = rhs.h;
      format = format;
      offset = hnd.offset;
      memory_id = hnd.fd;
    } in
    if msm7k && test hnd.flags flag_uses_gpu
    then record img {
      offset = add32 hnd.offset hnd.map_offset;
      memory_id = hnd.gpu_fd;
      format = if format == k.mdp_rgba_8888 then k.mdp_bgra_8888 else format;
    }
    else img

-- `clip` of `set_rects` as the destination.
unfoldable pub dst_rect_of : Rect → MdpRect
dst_rect_of clip = record {
  x = clip.l;
  y = clip.t;
  w = sub32 clip.r clip.l;
  h = sub32 clip.b clip.t;
}

-- The source rectangle before it is scaled.
unfoldable pub unscaled : (rotated : Bool) → (dst src clip : Rect) → MdpRect
unscaled true dst src clip = record {
  x = add32 (sub32 clip.t dst.t) src.t;
  y = add32 (sub32 dst.r clip.r) src.l;
  w = sub32 clip.b clip.t;
  h = sub32 clip.r clip.l;
}
unscaled false dst src clip = record {
  x = add32 (sub32 clip.l dst.l) src.l;
  y = add32 (sub32 clip.t dst.t) src.t;
  w = sub32 clip.r clip.l;
  h = sub32 clip.b clip.t;
}
