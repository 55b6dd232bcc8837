-- ===== src/AudioPolicy/Media.antt =====
-- The media, sonification and DTMF strategies out of a call.
use hardware_msm7k.Prelude.{ℕ, ◌≡◌, ◌≢◌, Bool, false, bit_and, arith}
use hardware_msm7k.Prelude.Bits.{bit_or-bounds}
use hardware_msm7k.AudioPolicy.{
  Devices, Manager, Strategy, media, sonification, dtmf, is_in_call, media_device2, media_device,
  sonification_device, get_device_for_strategy,
}

module _ (with_a2dp : Bool) (d : Devices) (m : Manager) where
  media_device-pos :
      (s : Strategy) (device : ℕ)
      → is_in_call m.phone_state ≡ false
      → bit_and m.available d.speaker ≢ 0
      → media_device with_a2dp d s device m ≢ 0
  unfolding media_device
  media_device-pos s device h k = ground (
    arith,
    bit_or-bounds (bit_and m.available d.speaker) (media_device2 with_a2dp d s m),
    bit_or-bounds device (media_device2 with_a2dp d s m),
  )

  -- Out of a call, wherever the speaker is available, the media, sonification and DTMF strategies
  -- all find a device.
  pub get_device_for_strategy-pos :
      is_in_call m.phone_state ≡ false
      → bit_and m.available d.speaker ≢ 0
      → (get_device_for_strategy with_a2dp d media false m ≢ 0)
        × (get_device_for_strategy with_a2dp d sonification false m ≢ 0)
        × (get_device_for_strategy with_a2dp d dtmf false m ≢ 0)
  unfolding get_device_for_strategy sonification_device
  get_device_for_strategy-pos h k = (
    media_device-pos media 0 h k,
    ground (
      arith,
      media_device-pos sonification 0 h k,
      media_device-pos sonification (bit_and m.available d.speaker) h k,
      bit_or-bounds (bit_and m.available d.speaker) d.wired_headphone,
      bit_or-bounds (bit_and m.available d.speaker) d.wired_headset,
    ),
    rw h (media_device-pos media 0 h k),
  )
