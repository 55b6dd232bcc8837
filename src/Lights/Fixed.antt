-- ===== src/Lights/Fixed.antt =====
-- What no call changes: the lights that are there, and `g_trackball`.
use hardware_msm7k.Prelude.{
  ℕ, ◌-◌, ◌^◌, ◌≡◌, ◌≢◌, refl, ap, ◌∙◌, Bool, true, false, ◌==◌, if◌then◌else◌, List, [], ◌∷◌,
  arith,
}
use hardware_msm7k.Lights.{
  lcd_file, trackball_file, Light, FlashModes, LightSystem, Lights, put, rgb_to_brightness,
  write_int, trackball_mode, handle_trackball_light, update_trackball, set_speaker_light,
  handle_speaker_battery, initial, init_globals,
}
use hardware_msm7k.Lights.Device.{
  LightDevice, backlight, keyboard, buttons, battery, notifications, attention, set_light_backlight,
  set_light_keyboard, set_light_buttons, set_light_battery, set_light_notifications,
  set_light_attention, attention_of, set_light, run,
}
use hardware_msm7k.Lights.Kept.{
  if-keeps, update_trackball-keeps, set_speaker_light-keeps, handle_speaker_battery-keeps,
}

inner :
    (b c : Bool) (x y z : Lights) → b ≡ true → c ≡ false → (if b then if c then x else y else z) ≡ y
inner true false x y z h k = refl
inner true true x y z h k = absurd (cc k)
inner false c x y z h k = absurd (cc h)

abbrev pub fixed : Lights → Bool × Bool × ℕ
fixed s = (s.have_trackball_light, s.have_amber_led, s.trackball)

module _ (m : FlashModes) where
  speaker_fixed : (l : Light) (s : Lights) → fixed (set_speaker_light m l s) ≡ fixed s
  speaker_fixed l s =
      set_speaker_light-keeps fixed (λ v t. refl) (λ v t. refl) (λ v t. refl) (λ v t. refl)
        (λ v t. refl) (λ v t. refl) (λ v t. refl) (λ v t. refl) m l s

  lamp_fixed : (s : Lights) → fixed (handle_speaker_battery m s) ≡ fixed s
  lamp_fixed s =
      handle_speaker_battery-keeps fixed (λ v t. refl) (λ v t. refl) (λ v t. refl) (λ v t. refl)
        (λ v t. refl) (λ v t. refl) (λ v t. refl) (λ v t. refl) m s

  trackball_fixed : (s : Lights) → fixed (update_trackball s) ≡ fixed s
  trackball_fixed = update_trackball-keeps fixed (λ v t. refl)

  module _ (sys : LightSystem) where
    pub set_light-fixed :
        (d : LightDevice) (l : Light) (s : Lights) → fixed (set_light m sys d l s).1 ≡ fixed s
    unfolding set_light set_light_backlight set_light_keyboard set_light_buttons set_light_battery
        set_light_notifications set_light_attention write_int
    set_light-fixed backlight l s =
        let value = rgb_to_brightness l in
        trackball_fixed (put lcd_file value (record s { backlight = value }))
    set_light-fixed keyboard l s = refl
    set_light-fixed buttons l s = refl
    set_light-fixed battery l s =
        let s1 : Lights = record s { battery = l } in
        lamp_fixed _
        ∙ if-keeps fixed s.have_trackball_light (set_speaker_light m l s1) s1 (fixed s)
            (speaker_fixed l s1) refl
    set_light-fixed notifications l s =
        lamp_fixed (update_trackball (record s { notification = l }))
        ∙ trackball_fixed (record s { notification = l })
    set_light-fixed attention l s =
        trackball_fixed (record s { attention = attention_of m sys l s })

    pub run-fixed :
        (calls : List (LightDevice × Light)) (s : Lights) → fixed (run m sys calls s) ≡ fixed s
    unfolding run
    run-fixed [] s = refl
    run-fixed ((d, l) ∷ calls) s = run-fixed calls (set_light m sys d l s).1 ∙ set_light-fixed d l s

    -- The variables after a history of calls, on a device with a trackball light.
    abbrev pub after : List (LightDevice × Light) → Lights
    after calls = run m sys calls (init_globals true false initial)

    mode_differs : (mode light : ℕ) → mode ≢ 2 ^ 32 - 1 → 2 ^ 32 - 1 ≢ trackball_mode mode light
    unfolding trackball_mode
    mode_differs mode light n = ground (arith, n)

    not_skipped :
        (s : Lights)
        → s.have_trackball_light ≡ true
        → s.trackball ≡ 2 ^ 32 - 1
        → s.attention ≢ 2 ^ 32 - 1
        → update_trackball s ≡ put trackball_file (trackball_mode s.attention s.backlight) s
    unfolding update_trackball handle_trackball_light
    not_skipped s h t n =
        let other : (s.trackball == trackball_mode s.attention s.backlight) ≡ false =
          ground (arith, t, mode_differs s.attention s.backlight n) in
        inner _ _ s _ s h other

    -- After any history of calls on a device with a trackball light, unless g_attention is -1, a
    -- call for the backlight writes the mode of the trackball light after the brightness, whether
    -- the mode changed or not, since no call changes g_trackball from the -1 that it starts with.
    pub set_light_backlight-rewrites :
        (calls : List (LightDevice × Light)) (l : Light)
        → (after calls).attention ≢ 2 ^ 32 - 1
        → (set_light m sys backlight l (after calls)).1.writes
          ≡ (trackball_file, trackball_mode (after calls).attention (rgb_to_brightness l))
            ∷ (lcd_file, rgb_to_brightness l)
            ∷ (after calls).writes
    unfolding set_light set_light_backlight write_int init_globals
    set_light_backlight-rewrites calls l n =
        let s = after calls in
        let value = rgb_to_brightness l in
        let same = run-fixed calls (init_globals true false initial) in
        ap (λ t. t.writes)
          (not_skipped (put lcd_file value (record s { backlight = value })) (ap (λ t. t.0) same)
            (ap (λ t. t.2) same) n)
