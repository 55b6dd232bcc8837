-- ===== src/Lights/Device.antt =====
-- liblights/lights.c: the functions of the devices, and `open_lights`.
use hardware_msm7k.Prelude.Int.{ℤ, pos, neg}
use hardware_msm7k.Prelude.{
  ℕ, Bool, bit_and, ◌==◌, if◌then◌else◌, Option, none, some, List, [], ◌∷◌,
}
use hardware_msm7k.Errno.{Errno}
use hardware_msm7k.Lights.{
  lcd_file, keyboard_file, button_file, Light, FlashModes, LightSystem, Lights, init_globals,
  write_int, is_lit, rgb_to_brightness, update_trackball, set_speaker_light, handle_speaker_battery,
}

-- The device that `open_lights` makes, by its function `set_light`.
pub data LightDevice : Type 0 where
  backlight keyboard buttons battery notifications attention : LightDevice

-- `LIGHT_ID_*` of hardware/lights.h, with `strcmp`.
pub record LightIds (Name : Type 0) : Type 0 where
  pub same : Name → Name → Bool
  pub id_backlight : Name
  pub id_keyboard : Name
  pub id_buttons : Name
  pub id_battery : Name
  pub id_notifications : Name
  pub id_attention : Name

-- The choice of `set_light` by the name.
unfoldable pub device_named : {Name : Type 0} → LightIds Name → Name → Option LightDevice
device_named i name =
    if i.same i.id_backlight name
    then some backlight
    else if i.same i.id_keyboard name
    then some keyboard
    else if i.same i.id_buttons name
    then some buttons
    else if i.same i.id_battery name
    then some battery
    else if i.same i.id_notifications name
    then some notifications
    else if i.same i.id_attention name
    then some attention
    else none

-- The end of `open_lights`: the result, the device, whether `init_globals` has run, and the
-- variables.
unfoldable pub lights_opened :
    Errno
    → (trackball_there amber_there ran : Bool) → Option LightDevice
    → Lights
    → ℤ × Option LightDevice × Bool × Lights
unfolding init_globals
lights_opened e trackball_there amber_there ran none s = (neg e.einval, none, ran, s)
lights_opened e trackball_there amber_there ran (some d) s =
    (pos 0, some d, Bool.true, if ran then s else init_globals trackball_there amber_there s)

-- `open_lights`
unfoldable pub open_lights :
    {Name : Type 0}
    → Errno
    → LightIds Name
    → (trackball_there amber_there ran : Bool) → Name
    → Lights
    → ℤ × Option LightDevice × Bool × Lights
unfolding device_named lights_opened
open_lights e i trackball_there amber_there ran name s =
    lights_opened e trackball_there amber_there ran (device_named i name) s

module _ (m : FlashModes) (sys : LightSystem) where
  -- `set_light_backlight`
  unfoldable pub set_light_backlight : Light → Lights → ℤ × Lights
  unfolding rgb_to_brightness write_int update_trackball
  set_light_backlight l s =
      let brightness = rgb_to_brightness l in
      let (err, s1) = write_int sys lcd_file brightness (record s { backlight = brightness }) in
      (err, update_trackball s1)

  -- `set_light_keyboard`
  unfoldable pub set_light_keyboard : Light → Lights → ℤ × Lights
  unfolding is_lit write_int
  set_light_keyboard l s = write_int sys keyboard_file (if is_lit l then 255 else 0) s

  -- `set_light_buttons`
  unfoldable pub set_light_buttons : Light → Lights → ℤ × Lights
  unfolding is_lit write_int
  set_light_buttons l s =
      write_int sys button_file (if is_lit l then 255 else 0)
        (record s { buttons = bit_and l.color 0x00ff_ffff })

  -- `set_light_battery`
  unfoldable pub set_light_battery : Light → Lights → ℤ × Lights
  unfolding set_speaker_light handle_speaker_battery
  set_light_battery l s =
      let s1 = record s { battery = l } in
      let s2 = (if s.have_trackball_light then set_speaker_light m l s1 else s1) in
      (pos 0, handle_speaker_battery m s2)

  -- `set_light_notifications`
  unfoldable pub set_light_notifications : Light → Lights → ℤ × Lights
  unfolding update_trackball handle_speaker_battery
  set_light_notifications l s =
      (pos 0, handle_speaker_battery m (update_trackball (record s { notification = l })))

  -- `g_attention` after `set_light_attention`.
  abbrev pub attention_of : Light → Lights → ℕ
  attention_of l s =
      if l.flash_mode == m.flash_hardware
      then l.flash_on_ms
      else if l.flash_mode == m.flash_none
      then 0
      else s.attention

  -- `set_light_attention`
  unfoldable pub set_light_attention : Light → Lights → ℤ × Lights
  unfolding update_trackball
  set_light_attention l s = (pos 0, update_trackball (record s { attention = attention_of l s }))

  -- The function `set_light` of a device.
  unfoldable pub set_light : LightDevice → Light → Lights → ℤ × Lights
  unfolding set_light_backlight set_light_keyboard set_light_buttons set_light_battery
      set_light_notifications set_light_attention
  set_light backlight l s = set_light_backlight l s
  set_light keyboard l s = set_light_keyboard l s
  set_light buttons l s = set_light_buttons l s
  set_light battery l s = set_light_battery l s
  set_light notifications l s = set_light_notifications l s
  set_light attention l s = set_light_attention l s

  -- The variables after a history of calls, oldest first.
  unfoldable pub run : List (LightDevice × Light) → Lights → Lights
  unfolding set_light
  run [] s = s
  run ((d, l) ∷ calls) s = run calls (set_light d l s).1
