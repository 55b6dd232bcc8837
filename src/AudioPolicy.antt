-- ===== src/AudioPolicy.antt =====
-- libaudio-qsd8k/AudioPolicyManager.cpp (libaudio-qdsp5v2 has the same `getDeviceForStrategy`): the
-- choice of the output device and of the volume. The masks and tests of `AudioSystem`, the volume
-- of the base class, and whether A2DP support is built in are parameters.
pub mod Routing
pub mod Priority
pub mod Media
pub mod Volume
mod Tests
use hardware_msm7k.Prelude.Words.{test}
use hardware_msm7k.Prelude.{
  ℕ, Bool, true, false, ◌&&◌, ◌||◌, not, bit_and, bit_or, ◌==◌, if◌then◌else◌,
}

-- The masks `AudioSystem::DEVICE_OUT_*` and the test `AudioSystem::isA2dpDevice`.
pub record Devices : Type 0 where
  pub earpiece : ℕ
  pub speaker : ℕ
  pub wired_headset : ℕ
  pub wired_headphone : ℕ
  pub bluetooth_sco : ℕ
  pub bluetooth_sco_headset : ℕ
  pub bluetooth_sco_carkit : ℕ
  pub bluetooth_a2dp : ℕ
  pub bluetooth_a2dp_headphones : ℕ
  pub bluetooth_a2dp_speaker : ℕ
  pub aux_digital : ℕ
  pub is_a2dp_device : ℕ → Bool

-- The phone states that the code tells apart.
pub data Mode : Type 0 where
  in_call ringtone other_mode : Mode

-- The forced uses that the code tells apart.
pub data ForcedUse : Type 0 where
  bt_sco force_speaker bt_car_dock bt_desk_dock other_use : ForcedUse

pub data Strategy : Type 0 where
  media phone sonification dtmf unknown : Strategy

-- The fields of the manager that the routing reads: `mAvailableOutputDevices`, `mPhoneState`,
-- `mForceUse` at `FOR_COMMUNICATION` and `FOR_DOCK`, `mA2dpOutput`, and `mDeviceForStrategy`.
pub record Manager : Type 0 where
  pub available : ℕ
  pub phone_state : Mode
  pub for_communication : ForcedUse
  pub for_dock : ForcedUse
  pub a2dp_output : ℕ
  pub device_for_strategy : Strategy → ℕ

abbrev pub is_in_call : Mode → Bool
is_in_call in_call = true
is_in_call ringtone = false
is_in_call other_mode = false

abbrev pub is_ringtone : Mode → Bool
is_ringtone in_call = false
is_ringtone ringtone = true
is_ringtone other_mode = false

abbrev pub is_car_dock : ForcedUse → Bool
is_car_dock bt_car_dock = true
is_car_dock other = false

abbrev pub is_desk_dock : ForcedUse → Bool
is_desk_dock bt_desk_dock = true
is_desk_dock other = false

abbrev pub is_dtmf : Strategy → Bool
is_dtmf dtmf = true
is_dtmf other = false

abbrev pub is_sonification : Strategy → Bool
is_sonification sonification = true
is_sonification other = false

-- `if (device) break;`, with what follows.
abbrev pub or_next : ℕ → ℕ → ℕ
or_next device rest = if device == 0 then rest else device

module _ (with_a2dp : Bool) (d : Devices) where
  open d use {
    earpiece, speaker, wired_headset, wired_headphone, bluetooth_sco, bluetooth_sco_headset,
    bluetooth_sco_carkit, bluetooth_a2dp, bluetooth_a2dp_headphones, bluetooth_a2dp_speaker,
    aux_digital, is_a2dp_device,
  }

  -- The branch `default`, FORCE_NONE, of the phone strategy.
  pub phone_default : Manager → ℕ
  phone_default m =
      let out = bit_and m.available in
      let docked =
        (if is_car_dock m.for_dock
          then out bluetooth_a2dp
          else if is_desk_dock m.for_dock
          then out speaker
          else 0) in
      or_next (out wired_headphone) (
        or_next (out wired_headset) (
          if not (is_in_call m.phone_state)
          then or_next docked (
              or_next (out bluetooth_a2dp) (or_next (out bluetooth_a2dp_headphones) (out earpiece)))
          else out earpiece))

  -- The branch FORCE_BT_SCO, which falls through to the default.
  pub phone_sco : Strategy → Manager → ℕ
  phone_sco s m =
      let out = bit_and m.available in
      let carkit =
        (if not (is_in_call m.phone_state) || not (is_dtmf s)
          then out bluetooth_sco_carkit
          else 0) in
      or_next carkit
        (or_next (out bluetooth_sco_headset) (or_next (out bluetooth_sco) (phone_default m)))

  -- The branch FORCE_SPEAKER.
  pub phone_speaker : Strategy → Manager → ℕ
  phone_speaker s m =
      let out = bit_and m.available in
      let carkit =
        (if not (is_in_call m.phone_state) || not (is_dtmf s)
          then out bluetooth_sco_carkit
          else 0) in
      let docked = (if is_car_dock m.for_dock then out bluetooth_a2dp else 0) in
      or_next carkit (
        if not (is_in_call m.phone_state)
        then or_next docked (or_next (out bluetooth_a2dp_speaker) (out speaker))
        else out speaker)

  -- The inner `switch`, at a forced use.
  pub phone_use : ForcedUse → Strategy → Manager → ℕ
  phone_use bt_sco s m = phone_sco s m
  phone_use force_speaker s m = phone_speaker s m
  phone_use other s m = phone_default m

  -- `case STRATEGY_PHONE`, reached at the strategy `s`.
  pub phone_device : Strategy → Manager → ℕ
  phone_device s m = phone_use m.for_communication s m

  -- `device2` in `case STRATEGY_MEDIA`, reached at the strategy `s`.
  pub media_device2 : Strategy → Manager → ℕ
  media_device2 s m =
      let out = bit_and m.available in
      let a2dp = with_a2dp && not (m.a2dp_output == 0) in
      let ringing =
        (if a2dp && is_car_dock m.for_dock && is_sonification s && is_ringtone m.phone_state
          then out (bit_or (bit_or speaker wired_headphone) wired_headset)
          else 0) in
      let bluetooth =
        (if a2dp
          then or_next (out bluetooth_a2dp)
              (or_next (out bluetooth_a2dp_headphones) (out bluetooth_a2dp_speaker))
          else 0) in
      or_next (out aux_digital)
        (or_next ringing (or_next (out wired_headphone) (or_next (out wired_headset) bluetooth)))

  -- `case STRATEGY_MEDIA`, reached at the strategy `s` with what `device` holds then.
  pub media_device : Strategy → ℕ → Manager → ℕ
  media_device s device m =
      let device2 = media_device2 s m in
      let chosen = bit_or (if device2 == 0 then bit_and m.available speaker else device) device2 in
      if is_in_call m.phone_state
        && not (is_a2dp_device chosen)
        && not (chosen == phone_device phone m)
      then 0
      else chosen

  -- `case STRATEGY_SONIFICATION`
  pub sonification_device : Manager → ℕ
  sonification_device m =
      let out = bit_and m.available in
      let wired =
        (if not (out wired_headphone == 0)
          then bit_or (out speaker) wired_headphone
          else if not (out wired_headset == 0)
          then bit_or (out speaker) wired_headset
          else out speaker) in
      if is_in_call m.phone_state
      then phone_device phone m
      else if is_car_dock m.for_dock
      then media_device sonification 0 m
      else if is_desk_dock m.for_dock
      then wired
      else media_device sonification (out speaker) m

  -- `getDeviceForStrategy`
  pub get_device_for_strategy : Strategy → Bool → Manager → ℕ
  get_device_for_strategy s true m = m.device_for_strategy s
  get_device_for_strategy media false m = media_device media 0 m
  get_device_for_strategy phone false m = phone_device phone m
  get_device_for_strategy sonification false m = sonification_device m
  get_device_for_strategy dtmf false m =
      if is_in_call m.phone_state then phone_device dtmf m else media_device media 0 m
  get_device_for_strategy unknown false m = 0

-- Volumes are floats in the source: a type with the test `a < b`, and the constants of the file.
pub record Volumes : Type 1 where
  pub Volume : Type 0
  pub lt : Volume → Volume → Bool
  pub full : Volume
  pub in_call_sco_volume_max : Volume
  pub car_dock_music_mini_jack_volume_min : Volume

-- What `computeVolume` takes from `AudioSystem` and from the base class: the stream `MUSIC`, the
-- test of a SCO device, the least index of each stream, and the base class's volume.
pub record Base (V : Type 0) : Type 0 where
  pub music : ℕ
  pub is_bluetooth_sco_device : ℕ → Bool
  pub index_min : ℕ → ℕ
  pub compute_volume : (stream index output device : ℕ) → V

module _ (with_a2dp : Bool) (d : Devices) (v : Volumes) (b : Base v.Volume) where
  open v use {Volume, lt, full, in_call_sco_volume_max, car_dock_music_mini_jack_volume_min}
  open b use {music, is_bluetooth_sco_device, index_min}

  -- The two adjustments at the end of `computeVolume`.
  pub limit_sco : Manager → ℕ → Volume → Volume
  limit_sco m device volume =
      if is_in_call m.phone_state
        && is_bluetooth_sco_device device
        && lt in_call_sco_volume_max volume
      then in_call_sco_volume_max
      else volume

  pub raise_jack : Manager → ℕ → ℕ → Volume → Volume
  raise_jack m stream device volume =
      if is_car_dock m.for_dock
        && lt volume car_dock_music_mini_jack_volume_min
        && (stream == music)
        && test device (bit_or d.wired_headphone d.wired_headset)
      then car_dock_music_mini_jack_volume_min
      else volume

  -- `computeVolume`
  pub compute_volume : Manager → (stream index output device : ℕ) → Volume
  unfolding limit_sco raise_jack
  compute_volume m stream index output device =
      let base = b.compute_volume stream index output device in
      if index == index_min stream
      then base
      else if with_a2dp && (output == m.a2dp_output) && is_car_dock m.for_dock
      then full
      else raise_jack m stream device (limit_sco m device base)
