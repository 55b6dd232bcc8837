-- ===== src/AudioPolicy/Routing.antt =====
-- The devices chosen are available ones.
use hardware_msm7k.Prelude.{
  ℕ, ◌^◌, ◌≡◌, Bool, true, false, not, bit_and, bit_or, ◌==◌, if◌then◌else◌, arith, Bool-cases, inl,
  inr,
}
use hardware_msm7k.Prelude.Bits.{Within, Within-zero, Within-bit_and, Within-bit_or, Within-two_pow}
use hardware_msm7k.AudioPolicy.{
  Devices, Manager, ForcedUse, bt_sco, force_speaker, Strategy, media, phone, sonification, dtmf,
  unknown, or_next, is_in_call, is_car_dock, is_desk_dock, phone_default, phone_sco, phone_speaker,
  phone_use, phone_device, media_device2, media_device, sonification_device,
  get_device_for_strategy,
}

Within-or_next : (x y a : ℕ) → Within x a → Within y a → Within (or_next x y) a
Within-or_next x y a h k = ground arith

Within-if : (b : Bool) (x y a : ℕ) → Within x a → Within y a → Within (if b then x else y) a
Within-if true x y a h k = h
Within-if false x y a h k = k

ruleset within = (Within-or_next, Within-if, Within-zero, Within-bit_and, Within-bit_or)

-- The masks of the wired outputs have one bit each.
pub record IsWiredBits (d : Devices) : Type 0 where
  pub headphone_bit : ℕ
  pub headset_bit : ℕ
  pub headphone : d.wired_headphone ≡ 2 ^ headphone_bit
  pub headset : d.wired_headset ≡ 2 ^ headset_bit

-- A mask of one bit that is added where it is available.
Within-added :
    (k x y mask a : ℕ)
    → mask ≡ 2 ^ k
    → Within x a
    → Within y a
    → Within (if not (bit_and a mask == 0) then bit_or x mask else y) a
Within-added k x y mask a e h g = elim (Bool-cases (bit_and a mask == 0)) [
  | inl z ↦ rw z g
  | inr nz ↦ rw nz (Within-bit_or x mask a h (rw e (Within-two_pow k a (ground arith))))
]

module _ (with_a2dp : Bool) (d : Devices) (m : Manager) where
  phone_default-Within : Within (phone_default with_a2dp d m) m.available
  unfolding phone_default
  phone_default-Within = search within depth 12

  phone_sco-Within : (s : Strategy) → Within (phone_sco with_a2dp d s m) m.available
  unfolding phone_sco
  phone_sco-Within s = search (within, phone_default-Within) depth 12

  phone_speaker-Within : (s : Strategy) → Within (phone_speaker with_a2dp d s m) m.available
  unfolding phone_speaker
  phone_speaker-Within s = search within depth 12

  phone_use-Within :
      (u : ForcedUse) (s : Strategy) → Within (phone_use with_a2dp d u s m) m.available
  unfolding phone_use
  phone_use-Within bt_sco s = phone_sco-Within s
  phone_use-Within force_speaker s = phone_speaker-Within s
  phone_use-Within other s = phone_default-Within

  phone_device-Within : (s : Strategy) → Within (phone_device with_a2dp d s m) m.available
  unfolding phone_device
  phone_device-Within s = phone_use-Within m.for_communication s

  media_device2-Within : (s : Strategy) → Within (media_device2 with_a2dp d s m) m.available
  unfolding media_device2
  media_device2-Within s = search within depth 12

  media_device-Within :
      (s : Strategy) (device : ℕ)
      → Within device m.available
      → Within (media_device with_a2dp d s device m) m.available
  unfolding media_device
  media_device-Within s device h = search (within, media_device2-Within) depth 12

  sonification_device-Within :
      IsWiredBits d → Within (sonification_device with_a2dp d m) m.available
  unfolding sonification_device
  sonification_device-Within b =
      Within-if (is_in_call m.phone_state) _ _ _ (phone_device-Within phone) (
        Within-if (is_car_dock m.for_dock) _ _ _
          (media_device-Within sonification 0 (Within-zero m.available))
          (Within-if (is_desk_dock m.for_dock) _ _ _
            (Within-added b.headphone_bit _ _ _ _ b.headphone (Within-bit_and _ _) (
              Within-added b.headset_bit _ _ _ _ b.headset (Within-bit_and _ _)
                (Within-bit_and _ _)))
            (media_device-Within sonification _ (Within-bit_and _ _))))

  -- Every device that the routing chooses afresh is among the available ones, for every strategy
  -- and state, where the masks of the wired outputs have one bit each.
  pub get_device_for_strategy-Within :
      (s : Strategy)
      → IsWiredBits d
      → Within (get_device_for_strategy with_a2dp d s false m) m.available
  unfolding get_device_for_strategy
  get_device_for_strategy-Within media b = media_device-Within media 0 (Within-zero m.available)
  get_device_for_strategy-Within phone b = phone_device-Within phone
  get_device_for_strategy-Within sonification b = sonification_device-Within b
  get_device_for_strategy-Within dtmf b =
      Within-if (is_in_call m.phone_state) _ _ _ (phone_device-Within dtmf)
        (media_device-Within media 0 (Within-zero m.available))
  get_device_for_strategy-Within unknown b = Within-zero m.available
