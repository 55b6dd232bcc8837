-- ===== src/Copybit/Settings.antt =====
-- `set_parameter_copybit`, `get`, `open_copybit` and `close_copybit` of libcopybit/copybit.cpp.
use hardware_msm7k.Prelude.Words.{not32, lts32}
use hardware_msm7k.Prelude.Int.{ℤ, pos, neg, is_neg, is_zero, magnitude}
use hardware_msm7k.Prelude.{
  ℕ, ◌%◌, ◌^◌, Bool, bit_and, bit_or, ◌==◌, if◌then◌else◌, Option, none, some, List, [], ◌∷◌,
}
use hardware_msm7k.Errno.{Errno}
use hardware_msm7k.Copybit.{FlagBits, Context}

-- The parameters and values of hardware/copybit.h.
pub record Names : Type 0 where
  pub rotation_deg : ℕ
  pub plane_alpha : ℕ
  pub dither : ℕ
  pub blur : ℕ
  pub transform : ℕ
  pub enable : ℕ
  pub disable : ℕ
  pub minification_limit : ℕ
  pub magnification_limit : ℕ
  pub scaling_frac_bits : ℕ
  pub rotation_step_deg : ℕ

-- `mFlags` is 8 bits wide: `mFlags &= ~mask` and `mFlags |= mask`.
abbrev pub clear : ℕ → ℕ → ℕ
clear flags mask = bit_and flags (not32 mask) % 2 ^ 8

abbrev pub set : ℕ → ℕ → ℕ
set flags mask = bit_or flags mask % 2 ^ 8

-- `case COPYBIT_ROTATION_DEG`
unfoldable pub set_rotation : Errno → FlagBits → Context → (value : ℕ) → ℤ × Context
set_rotation e k ctx value =
    if value == 0
    then (pos 0, record ctx { flags = clear ctx.flags 7 })
    else if value == 90
    then (pos 0, record ctx { flags = set (clear ctx.flags 7) k.mdp_rot_90 })
    else if value == 180
    then (pos 0, record ctx { flags = set (clear ctx.flags 7) k.mdp_rot_180 })
    else if value == 270
    then (pos 0, record ctx { flags = set (clear ctx.flags 7) k.mdp_rot_270 })
    else (neg e.einval, ctx)

-- `case COPYBIT_PLANE_ALPHA`: the value that is stored.
unfoldable pub clamp_alpha : ℕ → ℕ
clamp_alpha value =
    let low = (if lts32 value 0 then 0 else value) in (if lts32 low 256 then low else 255) % 2 ^ 8

-- `case COPYBIT_DITHER` and `case COPYBIT_BLUR`, at the flag that they switch.
unfoldable pub switch : Names → (flag : ℕ) → Context → (value : ℕ) → Context
switch n flag ctx value =
    if value == n.enable
    then record ctx { flags = set ctx.flags flag }
    else if value == n.disable
    then record ctx { flags = clear ctx.flags flag }
    else ctx

-- `set_parameter_copybit` on a device.
unfoldable pub set_on : Errno → FlagBits → Names → Context → (name value : ℕ) → ℤ × Context
unfolding set_rotation clamp_alpha switch
set_on e k n ctx name value =
    if name == n.rotation_deg
    then set_rotation e k ctx value
    else if name == n.plane_alpha
    then (pos 0, record ctx { alpha = clamp_alpha value })
    else if name == n.dither
    then (pos 0, switch n k.mdp_dither ctx value)
    else if name == n.blur
    then (pos 0, switch n k.mdp_blur ctx value)
    else if name == n.transform
    then (pos 0, record ctx { flags = set (clear ctx.flags 7) (bit_and value 7) })
    else (neg e.einval, ctx)

-- `set_parameter_copybit`, where no device is a null pointer.
unfoldable pub set_parameter_copybit :
    Errno → FlagBits → Names → Option Context → (name value : ℕ) → ℤ × Option Context
unfolding set_on
set_parameter_copybit e k n none name value = (neg e.einval, none)
set_parameter_copybit e k n (some ctx) name value =
    let done = set_on e k n ctx name value in (done.0, some done.1)

-- `MAX_SCALE_FACTOR`
unfoldable pub max_scale_factor : (msm7k : Bool) → ℕ
max_scale_factor msm7k = if msm7k then 4 else 8

-- `get`
unfoldable pub get : Errno → Names → (msm7k : Bool) → Option Context → (name : ℕ) → ℤ
unfolding max_scale_factor
get e n msm7k none name = neg e.einval
get e n msm7k (some ctx) name =
    if name == n.minification_limit
    then pos (max_scale_factor msm7k)
    else if name == n.magnification_limit
    then pos (max_scale_factor msm7k)
    else if name == n.scaling_frac_bits
    then pos 32
    else if name == n.rotation_step_deg
    then pos 90
    else neg e.einval

-- What the system answers: `open` with its `errno`, FBIOGET_FSCREENINFO with its `errno`, and
-- whether the screen's name is "msmfb".
pub record Screen : Type 0 where
  pub opened : ℤ
  pub open_errno : ℕ
  pub info : ℤ
  pub info_errno : ℕ
  pub is_msmfb : Bool

-- `status` of `open_copybit`, once the file has been opened.
unfoldable pub open_status : Errno → Screen → ℤ
open_status e s =
    if is_neg s.opened
    then neg s.open_errno
    else if is_zero s.info
    then if s.is_msmfb then pos 0 else neg e.einval
    else neg s.info_errno

-- `open_copybit`: the status, the device that is handed out, and the descriptors that
-- `close_copybit` closes.
unfoldable pub open_copybit : Errno → FlagBits → Screen → ℤ × Option Context × List ℤ
unfolding open_status
open_copybit e k s =
    let status = open_status e s in
    if is_zero status
    then (
      status,
      some (record { fd = magnitude s.opened; alpha = k.mdp_alpha_nop % 2 ^ 8; flags = 0 }),
      [],
    )
    else (status, none, s.opened ∷ [])
