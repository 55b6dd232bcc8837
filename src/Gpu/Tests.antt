-- ===== src/Gpu/Tests.antt =====
-- Buffers of a device with a framebuffer of two slots, one of them in use, and allocators that
-- refuse everything.
use hardware_msm7k.Prelude.Int.{ℤ, pos, negsuc}
use hardware_msm7k.Prelude.{ℕ, ◌<◌, ◌^◌, ◌≡◌, refl, true, false, none, some, List, [], ◌∷◌, arith}
use mathlib.Core.Option.{some_inj}
use hardware_msm7k.Errno.{Errno}
use hardware_msm7k.Handle.{PrivateHandle, new_handle}
use hardware_msm7k.Mapper.{Caller}
use hardware_msm7k.Gpu.{
  Setup, cpu_composition, BufferUsage, GpuCall, create_region, map_region, protect_region,
  alloc_ashmem_buffer, map_ashmem, GpuSystem, not_mapped, PmemOps, Gpu, asks_pmem, asks_adsp,
}
use hardware_msm7k.Gpu.Buffers.{slot_size, gralloc_alloc_framebuffer, gralloc_alloc_buffer}
use hardware_msm7k.Gpu.Format.{
  HalFormats, format_ycbcr_420_sp_tiled, pixel_bytes, image_size, size_with, video_size, tiled_size,
}
use hardware_msm7k.Gpu.Framebuffer.{HasRoom, SlotCycle, gralloc_alloc_framebuffer-SlotCycle}
use hardware_msm7k.Gpu.Extent.{Holds, image_bytes, image_size-Holds}
use hardware_msm7k.Gpu.Ashmem.{AshmemCycle, gralloc_alloc_buffer-AshmemCycle}

abbrev linux : Errno
linux = record {
  einval = 22;
  enomem = 12;
  enoent = 2;
  einval_pos = omega arith;
  enomem_pos = omega arith;
  enoent_pos = omega arith;
}

abbrev bits : BufferUsage
bits = record {
  hw_texture = 0x100;
  hw_2d = 0x400;
  hw_fb = 0x1000;
  private_pmem = 0x4000_0000;
  private_adsp = 0x1000_0000;
  private_smipool = 0x2000_0000;
  external_disp = 0x8000;
  protected = 0x4000;
}

abbrev cpu_setup : Setup
cpu_setup = record {
  use_ashmem = true;
  composition = cpu_composition;
  usage_bits = bits;
  page_size = 4096;
  header = 12;
  pid = 100;
}

abbrev answers : GpuCall → ℤ
answers (create_region size) = pos 9
answers _ = pos 0

abbrev working : GpuSystem
working = record {
  answer = λ calls c. answers c;
  mapped = λ calls. some 0x5000_0000;
  errno = λ calls. 12;
}

abbrev refusing : PmemOps ℕ
refusing = record {
  alloc_pmem_buffer = λ size usage format s. (negsuc 11, none, s);
  free_pmem_buffer = λ size b s. (pos 0, s);
}

abbrev framebuffer_handle : PrivateHandle
framebuffer_handle = record (new_handle 12 100 (pos 7) 0x20_0000 1 0 1 480 800) {
  base = 0x4000_0000;
}

abbrev device : Gpu ℕ ℕ
device = record {
  screen = record {
    framebuffer = some framebuffer_handle;
    fb_format = 4;
    num_buffers = 2;
    buffer_mask = 1;
    line_length = 960;
    xres = 480;
    yres = 800;
  };
  pmem = 0;
  adsp = 0;
  calls = [];
}

abbrev caller : Caller
caller = record { header = 12; pid = 100; tid = 100; ebusy = 16; mapping = none; map_errno = 12 }

device-HasRoom : HasRoom framebuffer_handle device.screen
unfolding new_handle slot_size
device-HasRoom = record {
  is_mapped = refl;
  several = omega arith;
  few = omega arith;
  room = omega arith;
  sized = omega arith;
  in_space = omega arith;
}

gralloc_alloc_framebuffer-SlotCycle_example :
    SlotCycle refusing refusing caller framebuffer_handle device.screen (
      gralloc_alloc_framebuffer linux cpu_setup working refusing refusing
        (λ s. not_mapped 0 s)
        0x1000
        device)
gralloc_alloc_framebuffer-SlotCycle_example =
    gralloc_alloc_framebuffer-SlotCycle linux cpu_setup working refusing refusing
      (λ s. not_mapped 0 s) caller framebuffer_handle 0x1000 device device-HasRoom refl

abbrev formats : HalFormats
formats = record {
  rgba_8888 = 1;
  rgbx_8888 = 2;
  bgra_8888 = 5;
  rgb_888 = 3;
  rgb_565 = 4;
  rgba_5551 = 6;
  rgba_4444 = 7;
  ycrcb_420_sp = 0x11;
  yv12 = 0x3231_5659;
}

tiled_image : image_size formats format_ycbcr_420_sp_tiled 640 480 ≡ some (640, 480, 475136)
unfolding image_size pixel_bytes size_with video_size tiled_size
tiled_image = refl

image_size-Holds_example :
    Holds 640 480
      (image_bytes (pixel_bytes formats format_ycbcr_420_sp_tiled) 640 480)
      (640, 480, 475136)
image_size-Holds_example =
    image_size-Holds 640 480 (omega arith) (omega arith) formats format_ycbcr_420_sp_tiled
      (640, 480, 475136) tiled_image

working_addresses :
    (calls : List GpuCall) (a : ℕ) → working.mapped calls ≡ some a → (0 < a) × (a < 2 ^ 32)
working_addresses calls a e = let same = some_inj.0 e in omega (arith, same)

no_pmem : asks_pmem cpu_setup 0x133 ≡ false
unfolding asks_pmem
no_pmem = refl

no_adsp : asks_adsp cpu_setup 0x133 ≡ false
unfolding asks_adsp
no_adsp = refl

gralloc_alloc_buffer-AshmemCycle_example :
    AshmemCycle working refusing refusing caller 8192 []
      (gralloc_alloc_buffer cpu_setup working refusing refusing 5000 0x133 0 1 64 32 device)
gralloc_alloc_buffer-AshmemCycle_example =
    gralloc_alloc_buffer-AshmemCycle cpu_setup working refusing refusing caller refl
      (λ calls. omega arith) working_addresses 0 1 64 32 device 5000 0x133 no_pmem no_adsp

abbrev regions_calls : List GpuCall
regions_calls = map_region 8192 (pos 9) ∷ protect_region (pos 9) ∷ create_region 8192 ∷ []

ashmem_works :
    alloc_ashmem_buffer working 8192 []
    ≡ (pos 0, some (record { base = 0x5000_0000; offset = 0; fd = pos 9 }), regions_calls)
unfolding alloc_ashmem_buffer map_ashmem
ashmem_works = refl
