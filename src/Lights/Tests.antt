-- ===== src/Lights/Tests.antt =====
-- Lights with and without a trackball light, after a few calls.
use hardware_msm7k.Prelude.Int.{pos}
use hardware_msm7k.Prelude.{◌^◌, ◌-◌, ◌≡◌, ◌≢◌, inr, refl, true, false, [], ◌∷◌, arith}
use hardware_msm7k.Lights.{
  Light, FlashModes, LightSystem, initial, dark, init_globals, rgb_to_brightness, trackball_mode,
  write_int, update_trackball, handle_trackball_light,
}
use hardware_msm7k.Lights.Device.{
  backlight, battery, notifications, set_light, run, set_light_backlight,
}
use hardware_msm7k.Lights.Fixed.{after}
use hardware_msm7k.Lights.Shown.{Shows}
use hardware_msm7k.Lights.Priority.{sets_lamp, any_sets_lamp, run-Shows}

abbrev modes : FlashModes
modes = record { flash_none = 0; flash_timed = 1; flash_hardware = 2 }

abbrev files : LightSystem
files = record { opened = λ ws w. pos 3; write_fails = λ ws w. false; errno = λ ws w. 2 }

abbrev orange : Light
orange = record { color = 0xff80_4000; flash_mode = 1; flash_on_ms = 500; flash_off_ms = 1500 }

abbrev full : Light
full = record dark { color = 0xffff_ffff }

quiet : (after modes files ((backlight, full) ∷ [])).attention ≡ 0
unfolding run set_light set_light_backlight write_int update_trackball handle_trackball_light
    trackball_mode rgb_to_brightness init_globals
quiet = refl

not_minus_one : (after modes files ((backlight, full) ∷ [])).attention ≢ 2 ^ 32 - 1
not_minus_one = omega (arith, quiet)

any_lamp : any_sets_lamp ((notifications, full) ∷ (battery, orange) ∷ (backlight, full) ∷ []) ≡ true
unfolding any_sets_lamp sets_lamp
any_lamp = refl

run-Shows_example :
    Shows modes
      (run modes files ((notifications, full) ∷ (battery, orange) ∷ (backlight, full) ∷ []) initial)
run-Shows_example =
    run-Shows modes files ((notifications, full) ∷ (battery, orange) ∷ (backlight, full) ∷ [])
      initial refl (inr any_lamp)
