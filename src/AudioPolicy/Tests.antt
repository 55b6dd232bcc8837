-- ===== src/AudioPolicy/Tests.antt =====
-- The routing with the masks of Android 2.3, at a phone with a headset, and its theorems there.
use hardware_msm7k.Prelude.{ℕ, ◌*◌, ◌≡◌, refl, true, false, ◌==◌, ltb, if◌then◌else◌}
use hardware_msm7k.Prelude.Words.{test}
use hardware_msm7k.Prelude.Bits.{Within}
use hardware_msm7k.AudioPolicy.{
  Devices, Manager, in_call, other_mode, bt_sco, bt_car_dock, other_use, media, phone, sonification,
  dtmf, phone_default, phone_sco, phone_use, phone_device, media_device2, media_device,
  get_device_for_strategy, Volumes, Base,
}
use hardware_msm7k.AudioPolicy.Routing.{IsWiredBits, get_device_for_strategy-Within}
use hardware_msm7k.AudioPolicy.Priority.{first_available, phone_order, phone_device-first_available}

abbrev gingerbread : Devices
gingerbread = record {
  earpiece = 1;
  speaker = 2;
  wired_headset = 4;
  wired_headphone = 8;
  bluetooth_sco = 16;
  bluetooth_sco_headset = 32;
  bluetooth_sco_carkit = 64;
  bluetooth_a2dp = 128;
  bluetooth_a2dp_headphones = 256;
  bluetooth_a2dp_speaker = 512;
  aux_digital = 1024;
  is_a2dp_device = λ device. test device 896;
}

-- An earpiece, a speaker, a wired headset and a Bluetooth headset.
abbrev idle : Manager
idle = record {
  available = 39;
  phone_state = other_mode;
  for_communication = other_use;
  for_dock = other_use;
  a2dp_output = 0;
  device_for_strategy = λ s. 2;
}

abbrev talking : Manager
talking = record idle { phone_state = in_call; for_communication = bt_sco }

abbrev docked : Manager
docked = record idle { for_dock = bt_car_dock; a2dp_output = 3 }

idle_media : get_device_for_strategy true gingerbread media false idle ≡ 4
unfolding get_device_for_strategy media_device media_device2 phone_device phone_use phone_default
idle_media = refl

talking_phone : get_device_for_strategy true gingerbread phone false talking ≡ 32
unfolding get_device_for_strategy phone_device phone_use phone_sco phone_default
talking_phone = refl

wired_bits : IsWiredBits gingerbread
wired_bits = record { headphone_bit = 3; headset_bit = 2; headphone = refl; headset = refl }

get_device_for_strategy-Within_example :
    Within (get_device_for_strategy true gingerbread sonification false idle) 39
get_device_for_strategy-Within_example =
    get_device_for_strategy-Within true gingerbread idle sonification wired_bits

phone_device-first_available_example :
    phone_device true gingerbread dtmf talking
    ≡ first_available 39 (phone_order true gingerbread bt_sco true true false false)
phone_device-first_available_example = phone_device-first_available true gingerbread dtmf talking

-- Volumes in percent.
abbrev percent : Volumes
percent = record {
  Volume = ℕ;
  lt = ltb;
  full = 100;
  in_call_sco_volume_max = 85;
  car_dock_music_mini_jack_volume_min = 48;
}

-- Stream 3 is music, stream 0 the call; an index counts 10 percent.
abbrev base : Base ℕ
base = record {
  music = 3;
  is_bluetooth_sco_device = λ device. test device 112;
  index_min = λ stream. if stream == 0 then 1 else 0;
  compute_volume = λ stream index output device. 10 * index;
}
