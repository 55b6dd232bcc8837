-- ===== src/Lights/Priority.antt =====
-- The battery's light goes before the notification's, whatever calls come in between.
use hardware_msm7k.Prelude.{
  ◌≡◌, ◌⊎◌, inl, inr, refl, ap, ◌∙◌, Bool, true, false, ◌||◌, List, [], ◌∷◌, Bool-cases,
}
use hardware_msm7k.Lights.{
  lcd_file, red_led_file, green_led_file, blue_led_file, red_blink_file, Light, FlashModes,
  LightSystem, Lights, put, rgb_to_brightness, write_int, update_trackball,
}
use hardware_msm7k.Lights.Device.{
  LightDevice, backlight, keyboard, buttons, battery, notifications, attention, set_light_backlight,
  set_light_keyboard, set_light_buttons, set_light_battery, set_light_notifications,
  set_light_attention, attention_of, set_light, run,
}
use hardware_msm7k.Lights.Kept.{if-keeps, update_trackball-keeps, set_speaker_light-keeps}
use hardware_msm7k.Lights.Fixed.{set_light-fixed}
use hardware_msm7k.Lights.Shown.{
  file_number, last_write, last_on, chosen, Shows, handle_speaker_battery-Shows,
}

-- Whether a device sets the lamp.
unfoldable pub sets_lamp : LightDevice → Bool
sets_lamp battery = true
sets_lamp notifications = true
sets_lamp _ = false

unfoldable pub any_sets_lamp : List (LightDevice × Light) → Bool
unfolding sets_lamp
any_sets_lamp [] = false
any_sets_lamp (call ∷ calls) = sets_lamp call.0 || any_sets_lamp calls

module _ (m : FlashModes) where
  -- The same lamp and lights in another state.
  Shows-of_same :
      (s t : Lights)
      → t.have_amber_led ≡ s.have_amber_led
      → chosen t ≡ chosen s
      → last_on red_led_file t ≡ last_on red_led_file s
      → last_on green_led_file t ≡ last_on green_led_file s
      → last_on blue_led_file t ≡ last_on blue_led_file s
      → last_on red_blink_file t ≡ last_on red_blink_file s
      → Shows m s
      → Shows m t
  Shows-of_same s t amber light r g b k h = record {
    no_amber = amber ∙ h.no_amber;
    lamp = rw light (record {
      red = r ∙ h.lamp.red;
      green = g ∙ h.lamp.green;
      blue = b ∙ h.lamp.blue;
      blink = k ∙ h.lamp.blink;
    });
  }

  update_trackball-Shows : (s : Lights) → Shows m s → Shows m (update_trackball s)
  unfolding last_write file_number
  update_trackball-Shows s =
      Shows-of_same s (update_trackball s)
        (update_trackball-keeps (λ t. t.have_amber_led) (λ v t. refl) s)
        (update_trackball-keeps chosen (λ v t. refl) s)
        (update_trackball-keeps (last_on red_led_file) (λ v t. refl) s)
        (update_trackball-keeps (last_on green_led_file) (λ v t. refl) s)
        (update_trackball-keeps (last_on blue_led_file) (λ v t. refl) s)
        (update_trackball-keeps (last_on red_blink_file) (λ v t. refl) s)

  module _ (sys : LightSystem) where
    set_light-no_amber :
        (d : LightDevice) (l : Light) (s : Lights)
        → s.have_amber_led ≡ false
        → (set_light m sys d l s).1.have_amber_led ≡ false
    set_light-no_amber d l s h = ap (λ t. t.1) (set_light-fixed m sys d l s) ∙ h

    -- A call for the lamp leaves it as it is to be.
    set_light-sets :
        (d : LightDevice) (l : Light) (s : Lights)
        → sets_lamp d ≡ true
        → s.have_amber_led ≡ false
        → Shows m (set_light m sys d l s).1
    unfolding set_light set_light_battery set_light_notifications sets_lamp
    set_light-sets battery l s q h = handle_speaker_battery-Shows m _ (
        if-keeps (λ t. t.have_amber_led) s.have_trackball_light _ _ false
          (set_speaker_light-keeps (λ t. t.have_amber_led) (λ v t. refl) (λ v t. refl) (λ v t. refl)
              (λ v t. refl) (λ v t. refl) (λ v t. refl) (λ v t. refl) (λ v t. refl) m l
              (record s { battery = l })
            ∙ h)
          h)
    set_light-sets notifications l s q h = handle_speaker_battery-Shows m _ (
        update_trackball-keeps (λ t. t.have_amber_led) (λ v t. refl) (record s { notification = l })
        ∙ h)
    set_light-sets backlight l s q h = absurd (cc q)
    set_light-sets keyboard l s q h = absurd (cc q)
    set_light-sets buttons l s q h = absurd (cc q)
    set_light-sets attention l s q h = absurd (cc q)

    -- Any other call leaves the lamp alone.
    set_light-keeps :
        (d : LightDevice) (l : Light) (s : Lights)
        → sets_lamp d ≡ false
        → Shows m s
        → Shows m (set_light m sys d l s).1
    unfolding set_light set_light_backlight set_light_keyboard set_light_buttons set_light_attention
        write_int last_write file_number sets_lamp
    set_light-keeps backlight l s q h =
        let value = rgb_to_brightness l in
        update_trackball-Shows (put lcd_file value (record s { backlight = value }))
          (Shows-of_same s _ refl refl refl refl refl refl h)
    set_light-keeps keyboard l s q h = Shows-of_same s _ refl refl refl refl refl refl h
    set_light-keeps buttons l s q h = Shows-of_same s _ refl refl refl refl refl refl h
    set_light-keeps attention l s q h =
        update_trackball-Shows (record s { attention = attention_of m sys l s })
          (Shows-of_same s _ refl refl refl refl refl refl h)
    set_light-keeps battery l s q h = absurd (cc q)
    set_light-keeps notifications l s q h = absurd (cc q)

    -- Where there is no amber light, after any history of calls of the six devices that has a call
    -- for the battery or the notifications, or that starts where this holds already, the last
    -- colours and the last blinking written for the lamp are those of the battery's light where
    -- that is lit, and else those of the notification's.
    pub run-Shows :
        (calls : List (LightDevice × Light)) (s : Lights)
        → s.have_amber_led ≡ false
        → Shows m s ⊎ (any_sets_lamp calls ≡ true)
        → Shows m (run m sys calls s)
    unfolding run any_sets_lamp
    run-Shows [] s a (inl h) = h
    run-Shows [] s a (inr q) = absurd (cc q)
    run-Shows ((d, l) ∷ calls) s a h = elim (Bool-cases (sets_lamp d)) [
      | inl q ↦
          run-Shows calls (set_light m sys d l s).1 (set_light-no_amber d l s a)
            (inl (set_light-sets d l s q a))
      | inr q ↦ elim h [
        | inl k ↦
            run-Shows calls (set_light m sys d l s).1 (set_light-no_amber d l s a)
              (inl (set_light-keeps d l s q k))
        | inr k ↦
            run-Shows calls (set_light m sys d l s).1 (set_light-no_amber d l s a) (inr (rw q at k))
      ]
    ]
