-- ===== src/AudioPolicy/Volume.antt =====
-- The volume: muted streams, the car dock, and the limit over SCO in a call.
use hardware_msm7k.Prelude.{ℕ, ◌≡◌, Bool, true, false, ◌&&◌, bit_or, ◌==◌, arith}
use hardware_msm7k.Prelude.Words.{test}
use hardware_msm7k.AudioPolicy.{
  Devices, Manager, Volumes, Base, is_in_call, is_car_dock, limit_sco, raise_jack, compute_volume,
}

module _ (with_a2dp : Bool) (d : Devices) (v : Volumes) (b : Base v.Volume) (m : Manager)
    (stream index output device : ℕ) where
  open v use {lt, full, in_call_sco_volume_max, car_dock_music_mini_jack_volume_min}

  -- Above the least index, in a call over a SCO device out of the car dock, the volume does not
  -- exceed the limit, where no volume exceeds itself.
  pub compute_volume_sco :
      (index == b.index_min stream) ≡ false
      → is_in_call m.phone_state ≡ true
      → b.is_bluetooth_sco_device device ≡ true
      → is_car_dock m.for_dock ≡ false
      → lt in_call_sco_volume_max in_call_sco_volume_max ≡ false
      → lt in_call_sco_volume_max (compute_volume with_a2dp d v b m stream index output device)
        ≡ false
  unfolding compute_volume limit_sco raise_jack
  compute_volume_sco h0 h1 h2 h3 h4 = ground arith

  -- In the car dock, above the least index, an A2DP output is at full volume where A2DP is built
  -- in, whatever the call limits.
  pub compute_volume_car_dock_a2dp :
      (index == b.index_min stream) ≡ false
      → is_car_dock m.for_dock ≡ true
      → (with_a2dp && (output == m.a2dp_output)) ≡ true
      → compute_volume with_a2dp d v b m stream index output device ≡ full
  unfolding compute_volume limit_sco raise_jack
  compute_volume_car_dock_a2dp h0 h1 h2 = ground arith

  -- In the car dock, above the least index, music on an output other than A2DP and through a wired
  -- device is never below the minimum, also in a call, where no volume is below itself.
  pub compute_volume_car_dock_music :
      (index == b.index_min stream) ≡ false
      → is_car_dock m.for_dock ≡ true
      → (with_a2dp && (output == m.a2dp_output)) ≡ false
      → stream ≡ b.music
      → test device (bit_or d.wired_headphone d.wired_headset) ≡ true
      → lt car_dock_music_mini_jack_volume_min car_dock_music_mini_jack_volume_min ≡ false
      → lt
          (compute_volume with_a2dp d v b m stream index output device)
          car_dock_music_mini_jack_volume_min
        ≡ false
  unfolding compute_volume limit_sco raise_jack
  compute_volume_car_dock_music h0 h1 h2 h3 h4 h5 = ground arith
