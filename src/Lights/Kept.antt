-- ===== src/Lights/Kept.antt =====
-- What the functions of the lights leave alone, and what they wrote last.
use hardware_msm7k.Prelude.{ℕ, ◌≡◌, refl, ◌∙◌, Bool, true, false, not, ◌==◌, if◌then◌else◌}
use hardware_msm7k.Lights.{
  LightFile, trackball_file, red_led_file, green_led_file, blue_led_file, amber_led_file,
  red_freq_file, red_pwm_file, red_blink_file, amber_blink_file, Light, FlashModes, Lights, put,
  is_lit, on_ms_of, off_ms_of, handle_trackball_light, update_trackball, write_colors, write_blink,
  set_speaker_light, handle_speaker_battery,
}

-- `p` does not look at what is written to the file.
abbrev pub Ignores {ℓ} : {A : Type ℓ} → (Lights → A) → LightFile → Type ℓ
Ignores p file = (value : ℕ) (s : Lights) → p (put file value s) ≡ p s

module _ {ℓ} {A : Type ℓ} (p : Lights → A) where
  pub if-keeps : (b : Bool) (x y : Lights) (v : A) → p x ≡ v → p y ≡ v → p (if b then x else y) ≡ v
  if-keeps true x y v h k = h
  if-keeps false x y v h k = k

  pub update_trackball-keeps :
      Ignores p trackball_file → (s : Lights) → p (update_trackball s) ≡ p s
  unfolding update_trackball handle_trackball_light
  update_trackball-keeps i s =
      if-keeps s.have_trackball_light _ s (p s) (if-keeps _ s _ (p s) refl (i _ s)) refl

  module _ (freq : Ignores p red_freq_file) (pwm : Ignores p red_pwm_file)
      (blink : Ignores p red_blink_file) (amber_blink : Ignores p amber_blink_file) where
    pub write_blink-keeps : (on_ms off_ms : ℕ) (s : Lights) → p (write_blink on_ms off_ms s) ≡ p s
    unfolding write_blink
    write_blink-keeps on_ms off_ms s =
        if-keeps s.have_amber_led _ _ (p s) (amber_blink _ s)
          (blink _ _ ∙ if-keeps _ _ s (p s) (pwm _ _ ∙ freq _ s) refl)

    module _ (red : Ignores p red_led_file) (green : Ignores p green_led_file)
        (blue : Ignores p blue_led_file) (amber : Ignores p amber_led_file) where
      pub write_colors-keeps : (r g b : ℕ) (s : Lights) → p (write_colors r g b s) ≡ p s
      unfolding write_colors
      write_colors-keeps r g b s =
          if-keeps (not s.have_amber_led) _ _ (p s) (blue _ _ ∙ green _ _ ∙ red _ s) (
            if-keeps (not (r == 0)) _ _ (p s) (green _ _ ∙ amber _ s)
              (if-keeps (not (g == 0)) _ _ (p s) (green _ _ ∙ amber _ s) (amber _ _ ∙ green _ s)))

      pub set_speaker_light-keeps :
          (m : FlashModes) (l : Light) (s : Lights) → p (set_speaker_light m l s) ≡ p s
      unfolding set_speaker_light
      set_speaker_light-keeps m l s =
          write_blink-keeps (on_ms_of m l) (off_ms_of m l) _ ∙ write_colors-keeps _ _ _ s

      pub handle_speaker_battery-keeps :
          (m : FlashModes) (s : Lights) → p (handle_speaker_battery m s) ≡ p s
      unfolding handle_speaker_battery
      handle_speaker_battery-keeps m s =
          if-keeps (is_lit s.battery) _ _ (p s) (set_speaker_light-keeps m s.battery s)
            (set_speaker_light-keeps m s.notification s)
