-- ===== src/Lights/Shown.antt =====
-- What the lamp of the speaker shows: the battery's light where that is lit, and else the
-- notification's.
use hardware_msm7k.Prelude.{
  ℕ, ◌^◌, ◌≡◌, inl, inr, refl, ◌∙◌, false, ◌&&◌, ◌==◌, if◌then◌else◌, Option, none, some, List, [],
  ◌∷◌, Bool-cases,
}
use hardware_msm7k.Lights.{
  LightFile, lcd_file, keyboard_file, button_file, trackball_file, red_led_file, green_led_file,
  blue_led_file, amber_led_file, red_freq_file, red_pwm_file, red_blink_file, amber_blink_file,
  Light, FlashModes, Lights, put, byte_at, is_lit, is_positive, on_ms_of, off_ms_of, write_colors,
  write_blink, set_speaker_light, handle_speaker_battery,
}
use hardware_msm7k.Lights.Kept.{write_blink-keeps, write_colors-keeps, handle_speaker_battery-keeps}

unfoldable pub file_number : LightFile → ℕ
file_number lcd_file = 0
file_number keyboard_file = 1
file_number button_file = 2
file_number trackball_file = 3
file_number red_led_file = 4
file_number green_led_file = 5
file_number blue_led_file = 6
file_number amber_led_file = 7
file_number red_freq_file = 8
file_number red_pwm_file = 9
file_number red_blink_file = 10
file_number amber_blink_file = 11

-- The last value written to a file.
unfoldable pub last_write : LightFile → List (LightFile × ℕ) → Option ℕ
unfolding file_number
last_write file [] = none
last_write file (w ∷ ws) =
    if file_number w.0 == file_number file then some w.1 else last_write file ws

abbrev pub last_on : LightFile → Lights → Option ℕ
last_on file s = last_write file s.writes

-- The light that is to be seen.
abbrev pub chosen : Lights → Light
chosen s = if is_lit s.battery then s.battery else s.notification

-- The lamp shows `l`: its colours, and whether it blinks.
pub record LampShows (m : FlashModes) (l : Light) (s : Lights) : Type 0 where
  pub red : last_on red_led_file s ≡ some (byte_at l.color (2 ^ 16))
  pub green : last_on green_led_file s ≡ some (byte_at l.color (2 ^ 8))
  pub blue : last_on blue_led_file s ≡ some (byte_at l.color 1)
  pub blink :
      last_on red_blink_file s
      ≡ some (if is_positive (on_ms_of m l) && is_positive (off_ms_of m l) then 1 else 0)

module _ (m : FlashModes) where
  amber-kept : (r g b : ℕ) (s : Lights) → (write_colors r g b s).have_amber_led ≡ s.have_amber_led
  amber-kept =
      write_colors-keeps (λ t. t.have_amber_led) (λ v t. refl) (λ v t. refl) (λ v t. refl)
        (λ v t. refl) (λ v t. refl) (λ v t. refl) (λ v t. refl) (λ v t. refl)

  write_colors-red :
      (r g b : ℕ) (s : Lights)
      → s.have_amber_led ≡ false
      → last_on red_led_file (write_colors r g b s) ≡ some r
  unfolding write_colors last_write file_number
  write_colors-red r g b s h = rw h refl

  write_colors-green :
      (r g b : ℕ) (s : Lights)
      → s.have_amber_led ≡ false
      → last_on green_led_file (write_colors r g b s) ≡ some g
  unfolding write_colors last_write file_number
  write_colors-green r g b s h = rw h refl

  write_colors-blue :
      (r g b : ℕ) (s : Lights)
      → s.have_amber_led ≡ false
      → last_on blue_led_file (write_colors r g b s) ≡ some b
  unfolding write_colors last_write file_number
  write_colors-blue r g b s h = rw h refl

  write_blink-blink :
      (on_ms off_ms : ℕ) (s : Lights)
      → s.have_amber_led ≡ false
      → last_on red_blink_file (write_blink on_ms off_ms s)
        ≡ some (if is_positive on_ms && is_positive off_ms then 1 else 0)
  unfolding write_blink last_write file_number
  write_blink-blink on_ms off_ms s h = rw h refl

  module _ (l : Light) (s : Lights) (no_amber : s.have_amber_led ≡ false) where
    abbrev colored : Lights
    colored =
        write_colors (byte_at l.color (2 ^ 16)) (byte_at l.color (2 ^ 8)) (byte_at l.color 1) s

    color-kept :
        (file : LightFile)
        → ((v : ℕ) (t : Lights) → last_on file (put red_freq_file v t) ≡ last_on file t)
        → ((v : ℕ) (t : Lights) → last_on file (put red_pwm_file v t) ≡ last_on file t)
        → ((v : ℕ) (t : Lights) → last_on file (put red_blink_file v t) ≡ last_on file t)
        → ((v : ℕ) (t : Lights) → last_on file (put amber_blink_file v t) ≡ last_on file t)
        → last_on file (set_speaker_light m l s) ≡ last_on file colored
    unfolding set_speaker_light
    color-kept file a b c d =
        write_blink-keeps (last_on file) a b c d (on_ms_of m l) (off_ms_of m l) colored

    set_speaker_light-LampShows : LampShows m l (set_speaker_light m l s)
    unfolding set_speaker_light last_write file_number
    set_speaker_light-LampShows =
        let r = byte_at l.color (2 ^ 16) in
        let g = byte_at l.color (2 ^ 8) in
        let b = byte_at l.color 1 in
        record {
          red =
              color-kept red_led_file (λ v t. refl) (λ v t. refl) (λ v t. refl) (λ v t. refl)
              ∙ write_colors-red r g b s no_amber;
          green =
              color-kept green_led_file (λ v t. refl) (λ v t. refl) (λ v t. refl) (λ v t. refl)
              ∙ write_colors-green r g b s no_amber;
          blue =
              color-kept blue_led_file (λ v t. refl) (λ v t. refl) (λ v t. refl) (λ v t. refl)
              ∙ write_colors-blue r g b s no_amber;
          blink =
              write_blink-blink (on_ms_of m l) (off_ms_of m l) colored
                (amber-kept r g b s ∙ no_amber);
        }

  battery-kept : (s : Lights) → (handle_speaker_battery m s).battery ≡ s.battery
  battery-kept =
      handle_speaker_battery-keeps (λ t. t.battery) (λ v t. refl) (λ v t. refl) (λ v t. refl)
        (λ v t. refl) (λ v t. refl) (λ v t. refl) (λ v t. refl) (λ v t. refl) m

  notification-kept : (s : Lights) → (handle_speaker_battery m s).notification ≡ s.notification
  notification-kept =
      handle_speaker_battery-keeps (λ t. t.notification) (λ v t. refl) (λ v t. refl) (λ v t. refl)
        (λ v t. refl) (λ v t. refl) (λ v t. refl) (λ v t. refl) (λ v t. refl) m

  amber_kept : (s : Lights) → (handle_speaker_battery m s).have_amber_led ≡ s.have_amber_led
  amber_kept =
      handle_speaker_battery-keeps (λ t. t.have_amber_led) (λ v t. refl) (λ v t. refl) (λ v t. refl)
        (λ v t. refl) (λ v t. refl) (λ v t. refl) (λ v t. refl) (λ v t. refl) m

  -- The lamp shows what it is to show, where there is no amber light.
  pub record Shows (s : Lights) : Type 0 where
    pub no_amber : s.have_amber_led ≡ false
    pub lamp : LampShows m (chosen s) s

  chosen-LampShows :
      (s : Lights) → s.have_amber_led ≡ false → LampShows m (chosen s) (handle_speaker_battery m s)
  unfolding handle_speaker_battery
  chosen-LampShows s h = elim (Bool-cases (is_lit s.battery)) [
    | inl q ↦ rw q (set_speaker_light-LampShows s.battery s h)
    | inr q ↦ rw q (set_speaker_light-LampShows s.notification s h)
  ]

  pub handle_speaker_battery-Shows :
      (s : Lights) → s.have_amber_led ≡ false → Shows (handle_speaker_battery m s)
  handle_speaker_battery-Shows s h =
      let same : chosen (handle_speaker_battery m s) ≡ chosen s =
        rw (battery-kept s, notification-kept s) refl in
      record { no_amber = amber_kept s ∙ h; lamp = rw same (chosen-LampShows s h) }
