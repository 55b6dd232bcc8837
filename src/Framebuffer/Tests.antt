-- ===== src/Framebuffer/Tests.antt =====
-- A screen of 480 by 800 with memory for two.
use hardware_msm7k.Prelude.Int.{pos, negsuc}
use hardware_msm7k.Prelude.{ℕ, ◌+◌, ◌*◌, ◌^◌, ◌<◌, ◌≡◌, refl, true, none, some, arith}
use mathlib.Core.Option.{some_inj}
use hardware_msm7k.Framebuffer.{
  FixInfo, VarInfo, FbDriver, FbSetup, FbModule, opened_fd, map_framebuffer_locked,
}
use hardware_msm7k.Framebuffer.Mapping.{Answers, MapOutcome, map_framebuffer_locked-MapOutcome}

abbrev setup : FbSetup
setup = record {
  sf_hw = none;
  composition = none;
  num_framebuffers = none;
  swap_property = pos 1;
  rgba_8888 = 1;
  rgbx_8888 = 2;
  rgb_565 = 4;
  page_size = 4096;
  header = 12;
  pid = 100;
}

abbrev fix : FixInfo
fix = record { smem_len = 0x20_0000; line_length = 960 }

abbrev var : VarInfo
var = record { xres = 480; yres = 800; yres_virtual = 1600; bits_per_pixel = 16 }

-- The first device is missing, and the second one works.
abbrev driver : FbDriver
driver = record {
  first_fd = negsuc 0;
  second_fd = pos 5;
  fix_info = some fix;
  var_info = some var;
  accepts = true;
  granted = some var;
  fix_after = some fix;
  fd_copy = pos 6;
  mapping = some 0x4000_0000;
  errno = 12;
}

abbrev fresh : FbModule
fresh = record {
  screen = record {
    framebuffer = none;
    fb_format = 0;
    num_buffers = 0;
    buffer_mask = 0;
    line_length = 0;
    xres = 0;
    yres = 0;
  };
  page_flags = 0;
  swap_interval = pos 0;
}

driver_space :
    (base : ℕ) → driver.mapping ≡ some base → base + var.yres_virtual * fix.line_length < 2 ^ 32
driver_space base e = let same = some_inj.0 e in omega (arith, same)

driver-Answers : Answers driver fix fix var var
unfolding opened_fd
driver-Answers = record {
  is_opened = refl;
  first_fix = refl;
  first_var = refl;
  pixels = omega arith;
  last_var = refl;
  last_fix = refl;
  memory = omega arith;
  rows = omega arith;
  two_screens = omega arith;
  few_screens = omega arith;
  slots = omega arith;
  in_space = driver_space;
}

map_framebuffer_locked-MapOutcome_example :
    MapOutcome setup driver (map_framebuffer_locked setup driver fresh)
map_framebuffer_locked-MapOutcome_example =
    map_framebuffer_locked-MapOutcome setup driver fix fix var var driver-Answers fresh refl
