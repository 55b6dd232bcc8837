-- ===== src/Lights.antt =====
-- liblights/lights.c: the lights, which are files of the kernel. An `int` is its 32-bit pattern. The
-- answers of the system are functions of the writes made before, newest first; a mutex is held over
-- each operation.
mod Tests
pub mod Device
pub mod Kept
pub mod Brightness
pub mod Fixed
pub mod Shown
pub mod Priority
use hardware_msm7k.Prelude.Words.{add32, sub32, mul32, test, lts32}
use hardware_msm7k.Prelude.Int.{ℤ, pos, neg, is_neg}
use hardware_msm7k.Prelude.{
  ℕ, ◌+◌, ◌-◌, ◌*◌, ◌/◌, ◌^◌, Bool, true, false, not, ◌&&◌, ◌||◌, bit_and, ◌==◌, leb, if◌then◌else◌,
  Option, none, some, List, [], ◌∷◌,
}
use hardware_msm7k.Errno.{Errno}

-- The files that the code writes to.
pub data LightFile : Type 0 where
  lcd_file keyboard_file button_file trackball_file : LightFile
  red_led_file green_led_file blue_led_file amber_led_file : LightFile
  red_freq_file red_pwm_file red_blink_file amber_blink_file : LightFile

-- `struct light_state_t` of hardware/lights.h.
pub record Light : Type 0 where
  pub color : ℕ
  pub flash_mode : ℕ
  pub flash_on_ms : ℕ
  pub flash_off_ms : ℕ

-- `LIGHT_FLASH_*` of hardware/lights.h.
pub record FlashModes : Type 0 where
  pub flash_none : ℕ
  pub flash_timed : ℕ
  pub flash_hardware : ℕ

-- What the system answers to a write after those before it: the descriptor of `open`, whether
-- `write` gives -1, and `errno`.
pub record LightSystem : Type 0 where
  pub opened : List (LightFile × ℕ) → LightFile × ℕ → ℤ
  pub write_fails : List (LightFile × ℕ) → LightFile × ℕ → Bool
  pub errno : List (LightFile × ℕ) → LightFile × ℕ → ℕ

-- The global variables, and the values written, or that would have been had the file been there.
pub record Lights : Type 0 where
  pub have_trackball_light : Bool
  pub have_amber_led : Bool
  pub notification : Light
  pub battery : Light
  pub backlight : ℕ
  pub trackball : ℕ
  pub buttons : ℕ
  pub attention : ℕ
  pub writes : List (LightFile × ℕ)

-- A light that is off, as the static variables start.
abbrev pub dark : Light
dark = record { color = 0; flash_mode = 0; flash_on_ms = 0; flash_off_ms = 0 }

-- The variables as they start.
abbrev pub initial : Lights
initial = record {
  have_trackball_light = false;
  have_amber_led = false;
  notification = dark;
  battery = dark;
  backlight = 255;
  trackball = 2 ^ 32 - 1;
  buttons = 0;
  attention = 0;
  writes = [];
}

-- `init_globals`, with what `access` answers for the two files.
unfoldable pub init_globals : (trackball_there amber_there : Bool) → Lights → Lights
init_globals trackball_there amber_there s = record s {
  have_trackball_light = trackball_there;
  have_amber_led = amber_there;
}

-- `write_int`, where its result is not used.
abbrev pub put : LightFile → ℕ → Lights → Lights
put file value s = record s { writes = (file, value) ∷ s.writes }

-- `write_int`
unfoldable pub write_int : LightSystem → LightFile → ℕ → Lights → ℤ × Lights
write_int sys file value s =
    let w : LightFile × ℕ = (file, value) in
    let err = neg (sys.errno s.writes w) in
    (
      if is_neg (sys.opened s.writes w) || sys.write_fails s.writes w then err else pos 0,
      put file value s,
    )

-- `is_lit`
unfoldable pub is_lit : Light → Bool
is_lit l = test l.color 0x00ff_ffff

-- `(color >> shift) & 0xff`, for a shift of 2 ^ n
abbrev pub byte_at : (color weight : ℕ) → ℕ
byte_at color weight = bit_and (color / weight) 0xff

-- `rgb_to_brightness`
unfoldable pub rgb_to_brightness : Light → ℕ
rgb_to_brightness l =
    let color = bit_and l.color 0x00ff_ffff in
    (77 * byte_at color (2 ^ 16) + 150 * byte_at color (2 ^ 8) + 29 * byte_at color 1) / 2 ^ 8

-- `mode` of `handle_trackball_light_locked`.
unfoldable pub trackball_mode : (attention backlight : ℕ) → ℕ
trackball_mode attention backlight =
    if (attention == 7) && not (backlight == 0) then 0 else attention

-- `handle_trackball_light_locked`, whose result no caller uses.
unfoldable pub handle_trackball_light : Lights → Lights
unfolding trackball_mode
handle_trackball_light s =
    let mode = trackball_mode s.attention s.backlight in
    if s.trackball == mode then s else put trackball_file mode s

-- The same where there is a trackball light.
unfoldable pub update_trackball : Lights → Lights
unfolding handle_trackball_light
update_trackball s = if s.have_trackball_light then handle_trackball_light s else s

-- `a / b` on two `int`s, which rounds to 0.
abbrev pub magnitude32 : ℕ → ℕ
magnitude32 a = if leb (2 ^ 31) a then 2 ^ 32 - a else a

abbrev pub div32 : ℕ → ℕ → ℕ
div32 a b =
    let q = magnitude32 a / magnitude32 b in
    if leb (2 ^ 31) a
    then if leb (2 ^ 31) b then q else sub32 0 q
    else if leb (2 ^ 31) b
    then sub32 0 q
    else q

-- `0 < a` on an `int`
abbrev pub is_positive : ℕ → Bool
is_positive a = lts32 0 a

-- `freq` and `pwm` of a light that blinks.
unfoldable pub blink_freq : (on_ms off_ms : ℕ) → ℕ
blink_freq on_ms off_ms = div32 (add32 on_ms off_ms) 50

unfoldable pub blink_pwm : (on_ms off_ms : ℕ) → ℕ
blink_pwm on_ms off_ms =
    let pwm = div32 (mul32 on_ms 255) (add32 on_ms off_ms) in
    if is_positive pwm && lts32 pwm 16 then 16 else pwm

-- The colours of `set_speaker_light_locked`.
unfoldable pub write_colors : (red green blue : ℕ) → Lights → Lights
write_colors red green blue s =
    if not s.have_amber_led
    then put blue_led_file blue (put green_led_file green (put red_led_file red s))
    else if not (red == 0)
    then put green_led_file 0 (put amber_led_file 1 s)
    else if not (green == 0)
    then put green_led_file 1 (put amber_led_file 0 s)
    else put amber_led_file 0 (put green_led_file 0 s)

-- The blinking of `set_speaker_light_locked`.
unfoldable pub write_blink : (on_ms off_ms : ℕ) → Lights → Lights
unfolding blink_freq blink_pwm
write_blink on_ms off_ms s =
    let blinks = is_positive on_ms && is_positive off_ms in
    let timed =
      put red_pwm_file (blink_pwm on_ms off_ms) (put red_freq_file (blink_freq on_ms off_ms) s) in
    let blink = (if blinks then 1 else 0) in
    if s.have_amber_led
    then put amber_blink_file blink s
    else put red_blink_file blink (if blinks then timed else s)

module _ (m : FlashModes) where
  -- `onMS` and `offMS` of `set_speaker_light_locked`.
  abbrev pub on_ms_of : Light → ℕ
  on_ms_of l = if l.flash_mode == m.flash_timed then l.flash_on_ms else 0

  abbrev pub off_ms_of : Light → ℕ
  off_ms_of l = if l.flash_mode == m.flash_timed then l.flash_off_ms else 0

  -- `set_speaker_light_locked`, which returns 0.
  unfoldable pub set_speaker_light : Light → Lights → Lights
  unfolding write_colors write_blink
  set_speaker_light l s =
      write_blink (on_ms_of l) (off_ms_of l)
        (write_colors (byte_at l.color (2 ^ 16)) (byte_at l.color (2 ^ 8)) (byte_at l.color 1) s)

  -- `handle_speaker_battery_locked`
  unfoldable pub handle_speaker_battery : Lights → Lights
  unfolding is_lit set_speaker_light
  handle_speaker_battery s =
      if is_lit s.battery then set_speaker_light s.battery s else set_speaker_light s.notification s
