-- ===== src/Framebuffer.antt =====
-- libgralloc-qsd8k/framebuffer.cpp: `mapFrameBufferLocked`, and the settings of the framebuffer's
-- device. What the driver and the system answer is a record; a division by 0 gives none. The sizes in
-- dots per inch and the rate of frames are numbers with fractions and are left out.
mod Tests
pub mod Mapping
use hardware_msm7k.Prelude.Words.{add32, mul32, align32, lts32}
use hardware_msm7k.Prelude.Int.{ℤ, pos, negsuc, neg, is_neg, is_zero}
use hardware_msm7k.Prelude.{
  ℕ, ◌*◌, ◌/◌, ◌%◌, ◌^◌, Bool, true, false, not, ◌&&◌, ◌||◌, bit_or, ◌==◌, ltb, leb, if◌then◌else◌,
  Option, none, some,
}
use hardware_msm7k.Errno.{Errno}
use hardware_msm7k.Handle.{PrivateHandle, new_handle, flags_uses_pmem}
use hardware_msm7k.Gpu.{Screen, CompositionProperty, starts_mdp, buffer_type_ui}

-- The fields of `fb_fix_screeninfo` and `fb_var_screeninfo` that the code reads.
pub record FixInfo : Type 0 where
  pub smem_len : ℕ
  pub line_length : ℕ

pub record VarInfo : Type 0 where
  pub xres : ℕ
  pub yres : ℕ
  pub yres_virtual : ℕ
  pub bits_per_pixel : ℕ

-- What the system and the driver answer, in the order of the calls: the two devices that are opened,
-- the two inquiries, the request, the two inquiries after it, `dup` and `mmap`.
pub record FbDriver : Type 0 where
  pub first_fd : ℤ
  pub second_fd : ℤ
  pub fix_info : Option FixInfo
  pub var_info : Option VarInfo
  pub accepts : Bool
  pub granted : Option VarInfo
  pub fix_after : Option FixInfo
  pub fd_copy : ℤ
  pub mapping : Option ℕ
  pub errno : ℕ

-- The properties of the system, where they are set, and the constants of the platform.
pub record FbSetup : Type 0 where
  pub sf_hw : Option ℤ
  pub composition : Option CompositionProperty
  pub num_framebuffers : Option ℤ
  pub swap_property : ℤ
  pub rgba_8888 : ℕ
  pub rgbx_8888 : ℕ
  pub rgb_565 : ℕ
  pub page_size : ℕ
  pub header : ℕ
  pub pid : ℕ

-- `private_module_t` as this file uses it.
pub record FbModule : Type 0 where
  pub screen : Screen
  pub page_flags : ℕ
  pub swap_interval : ℤ

-- `PAGE_FLIP` and `NUM_FRAMEBUFFERS_MAX`
abbrev pub page_flip : ℕ
page_flip = 1

abbrev pub num_framebuffers_max : ℕ
num_framebuffers_max = 3

-- A number between two bounds.
abbrev pub is_within : (low high : ℕ) → ℤ → Bool
is_within low high (pos n) = leb low n && leb n high
is_within low high (negsuc n) = false

-- A property that is set to 0, and one that starts with "mdp".
abbrev pub is_off : Option ℤ → Bool
is_off none = false
is_off (some n) = is_zero n

abbrev pub names_mdp : Option CompositionProperty → Bool
names_mdp (some starts_mdp) = true
names_mdp _ = false

-- `fbFormat`
unfoldable pub chosen_format : FbSetup → (bits_per_pixel : ℕ) → ℕ
chosen_format c bits =
    if bits == 32
    then if is_off c.sf_hw
      then c.rgbx_8888
      else if names_mdp c.composition
      then c.rgbx_8888
      else c.rgba_8888
    else c.rgb_565

-- `numberOfBuffers`, from how many the memory holds.
abbrev pub requested_buffers : Option ℤ → (fitting : ℕ) → ℕ
requested_buffers (some (pos n)) fitting =
    if is_within 2 num_framebuffers_max (pos n) then n else fitting
requested_buffers _ fitting = fitting

unfoldable pub number_of_buffers : FbSetup → (fitting : ℕ) → ℕ
number_of_buffers c fitting =
    let requested = requested_buffers c.num_framebuffers fitting in
    if lts32 num_framebuffers_max requested then num_framebuffers_max else requested

-- `flags`, once `count` screens of `yres` rows have been asked for.
unfoldable pub flip_flags : (accepted : Bool) → (yres count : ℕ) → ℕ
flip_flags accepted yres count =
    if accepted && not (ltb (mul32 yres count) (mul32 yres 2)) then page_flip else 0

-- `swapInterval` from its property.
unfoldable pub swap_of : ℤ → ℤ
swap_of n = if is_within 0 1 n then n else pos 1

-- The device that is opened: the second one where the first gives -1.
unfoldable pub opened_fd : FbDriver → ℤ → ℤ
opened_fd d (negsuc n) = if n == 0 then d.second_fd else negsuc n
opened_fd d (pos n) = pos n

module _ (c : FbSetup) (d : FbDriver) where
  -- The module after everything but `mmap`, whose framebuffer is not mapped yet.
  abbrev pub unmapped_handle : (format : ℕ) → VarInfo → FixInfo → PrivateHandle
  unmapped_handle format v f =
      new_handle c.header c.pid d.fd_copy (align32 (mul32 f.line_length v.yres_virtual) c.page_size)
        flags_uses_pmem buffer_type_ui format v.xres v.yres

  abbrev pub with_framebuffer : (flags format : ℕ) → VarInfo → FixInfo → PrivateHandle → FbModule
  with_framebuffer flags format v f h = record {
    screen = record {
      framebuffer = some h;
      fb_format = format;
      num_buffers = v.yres_virtual / v.yres;
      buffer_mask = 0;
      line_length = f.line_length;
      xres = v.xres;
      yres = v.yres;
    };
    page_flags = flags;
    swap_interval = swap_of c.swap_property;
  }

  -- `mmap` and what follows it.
  unfoldable pub install :
      (flags format : ℕ) → VarInfo → FixInfo → (mapping : Option ℕ) → ℤ × FbModule
  install flags format v f none =
      (neg d.errno, with_framebuffer flags format v f (unmapped_handle format v f))
  install flags format v f (some address) = (
    pos 0,
    with_framebuffer flags format v f (record (unmapped_handle format v f) { base = address }),
  )

  -- The module once its format is chosen.
  abbrev pub formatted : (format : ℕ) → FbModule → FbModule
  formatted format s = record s { screen = record s.screen { fb_format = format } }

  -- From the second inquiry of the fixed part.
  unfoldable pub with_fix_after :
      (flags format : ℕ) → VarInfo → Option FixInfo → FbModule → Option (ℤ × FbModule)
  unfolding install
  with_fix_after flags format v none s = some (neg d.errno, formatted format s)
  with_fix_after flags format v (some f) s =
      if f.smem_len == 0
      then some (neg d.errno, formatted format s)
      else if v.yres == 0
      then none
      else some (install flags format v f d.mapping)

  -- From the second inquiry of the variable part.
  unfoldable pub with_granted :
      (flags format : ℕ) → Option VarInfo → FbModule → Option (ℤ × FbModule)
  unfolding with_fix_after
  with_granted flags format none s = some (neg d.errno, formatted format s)
  with_granted flags format (some v) s = with_fix_after flags format v d.fix_after s

  -- From the first inquiry of the variable part.
  unfoldable pub with_var : FixInfo → Option VarInfo → FbModule → Option (ℤ × FbModule)
  unfolding chosen_format number_of_buffers flip_flags with_granted
  with_var f none s = some (neg d.errno, s)
  with_var f (some v) s =
      let bytes = (if v.bits_per_pixel == 32 then 4 else 2) in
      let area = mul32 (mul32 v.yres v.xres) bytes in
      let count = number_of_buffers c (f.smem_len / area) in
      if area == 0
      then none
      else with_granted (flip_flags d.accepts v.yres count) (chosen_format c v.bits_per_pixel)
          d.granted s

  -- From the first inquiry of the fixed part.
  unfoldable pub with_fix : Option FixInfo → FbModule → Option (ℤ × FbModule)
  unfolding with_var
  with_fix none s = some (neg d.errno, s)
  with_fix (some f) s = with_var f d.var_info s

  -- `mapFrameBufferLocked` with `framebuffer`.
  unfoldable pub map_once : Option PrivateHandle → FbModule → Option (ℤ × FbModule)
  unfolding opened_fd with_fix
  map_once (some fb) s = some (pos 0, s)
  map_once none s =
      if is_neg (opened_fd d d.first_fd) then some (neg d.errno, s) else with_fix d.fix_info s

  -- `mapFrameBufferLocked`: the result and the module.
  unfoldable pub map_framebuffer_locked : FbModule → Option (ℤ × FbModule)
  unfolding map_once
  map_framebuffer_locked s = map_once s.screen.framebuffer s

-- `fb_setSwapInterval`, on a device with the bounds 0 and 1.
unfoldable pub fb_set_swap_interval : Errno → ℤ → FbModule → ℤ × FbModule
fb_set_swap_interval e interval s =
    if not (is_within 0 1 interval)
    then (neg e.einval, s)
    else (pos 0, record s { swap_interval = interval })

-- `fb_setUpdateRect`: the result, and what it stores in `reserved`.
unfoldable pub fb_set_update_rect : Errno → (l t w h : ℕ) → ℤ × Option (ℕ × ℕ × ℕ)
fb_set_update_rect e l t w h =
    let corner = bit_or (l % 2 ^ 16) (t * 2 ^ 16 % 2 ^ 32) in
    let far = bit_or (add32 l w % 2 ^ 16) (add32 t h * 2 ^ 16 % 2 ^ 32) in
    if not (lts32 0 (bit_or w h)) || leb (2 ^ 31) (bit_or l t)
    then (neg e.einval, none)
    else (pos 0, some (0x5444_5055, corner, far))
