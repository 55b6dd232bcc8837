-- ===== src/AudioPolicy/Priority.antt =====
-- The phone strategy against a list of the devices by priority.
use hardware_msm7k.Prelude.{
  ℕ, ◌≡◌, Bool, ◌&&◌, ◌||◌, not, List, [], ◌∷◌, ◌++◌, bit_and, ◌==◌, if◌then◌else◌, arith,
}
use hardware_msm7k.AudioPolicy.{
  Devices, Manager, ForcedUse, bt_sco, force_speaker, Strategy, is_in_call, is_car_dock,
  is_desk_dock, is_dtmf, phone_default, phone_sco, phone_speaker, phone_use, phone_device,
}

-- The first mask of the list that meets the available devices, as far as it meets them.
pub first_available : ℕ → List ℕ → ℕ
first_available a [] = 0
first_available a (x ∷ xs) = if bit_and a x == 0 then first_available a xs else bit_and a x

abbrev when : Bool → List ℕ → List ℕ
when b xs = if b then xs else []

module _ (with_a2dp : Bool) (d : Devices) where
  open d use {
    earpiece, speaker, wired_headset, wired_headphone, bluetooth_sco, bluetooth_sco_headset,
    bluetooth_sco_carkit, bluetooth_a2dp, bluetooth_a2dp_headphones, bluetooth_a2dp_speaker,
  }

  default_order : Bool → Bool → Bool → List ℕ
  default_order call car desk =
      wired_headphone
      ∷ wired_headset
      ∷ (when (not call) (
            when car (bluetooth_a2dp ∷ [])
            ++ (when (not car && desk) (speaker ∷ [])
                ++ (bluetooth_a2dp ∷ bluetooth_a2dp_headphones ∷ [])))
          ++ (earpiece ∷ []))

  phone_default-first :
      (m : Manager)
      → phone_default with_a2dp d m
        ≡ first_available m.available (
            default_order
              (is_in_call m.phone_state)
              (is_car_dock m.for_dock)
              (is_desk_dock m.for_dock))
  unfolding phone_default first_available default_order
  phone_default-first m = ground arith

  -- The masks in the order in which the phone strategy tries them. `tone` says that the strategy is
  -- that of DTMF tones.
  pub phone_order : ForcedUse → Bool → Bool → Bool → Bool → List ℕ
  unfolding default_order
  phone_order bt_sco tone call car desk =
      when (not call || not tone) (bluetooth_sco_carkit ∷ [])
      ++ (bluetooth_sco_headset ∷ bluetooth_sco ∷ default_order call car desk)
  phone_order force_speaker tone call car desk =
      when (not call || not tone) (bluetooth_sco_carkit ∷ [])
      ++ (when (not call) (when car (bluetooth_a2dp ∷ []) ++ (bluetooth_a2dp_speaker ∷ []))
          ++ (speaker ∷ []))
  phone_order other tone call car desk = default_order call car desk

  phone_sco-first :
      (s : Strategy) (m : Manager)
      → phone_sco with_a2dp d s m
        ≡ first_available m.available (
            phone_order bt_sco
              (is_dtmf s)
              (is_in_call m.phone_state)
              (is_car_dock m.for_dock)
              (is_desk_dock m.for_dock))
  unfolding phone_sco first_available phone_order
  phone_sco-first s m = ground (arith, phone_default-first m)

  phone_speaker-first :
      (s : Strategy) (m : Manager)
      → phone_speaker with_a2dp d s m
        ≡ first_available m.available (
            phone_order force_speaker
              (is_dtmf s)
              (is_in_call m.phone_state)
              (is_car_dock m.for_dock)
              (is_desk_dock m.for_dock))
  unfolding phone_speaker first_available phone_order
  phone_speaker-first s m = ground arith

  phone_use-first :
      (u : ForcedUse) (s : Strategy) (m : Manager)
      → phone_use with_a2dp d u s m
        ≡ first_available m.available (
            phone_order u
              (is_dtmf s)
              (is_in_call m.phone_state)
              (is_car_dock m.for_dock)
              (is_desk_dock m.for_dock))
  unfolding phone_use phone_order
  phone_use-first bt_sco s m = phone_sco-first s m
  phone_use-first force_speaker s m = phone_speaker-first s m
  phone_use-first _ s m = phone_default-first m

  -- The phone strategy gives the first of its masks, in the order of phone_order, that meets the
  -- available devices, and no device where none does, in every state.
  pub phone_device-first_available :
      (s : Strategy) (m : Manager)
      → phone_device with_a2dp d s m
        ≡ first_available m.available (
            phone_order m.for_communication
              (is_dtmf s)
              (is_in_call m.phone_state)
              (is_car_dock m.for_dock)
              (is_desk_dock m.for_dock))
  unfolding phone_device
  phone_device-first_available s m = phone_use-first m.for_communication s m
