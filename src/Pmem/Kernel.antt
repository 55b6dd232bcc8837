-- ===== src/Pmem/Kernel.antt =====
-- `PmemKernelAllocator` and `clp2` of libgralloc-qsd8k/pmemalloc.cpp: each buffer is a file of its
-- own. The contents that `memset` writes are left out.
use hardware_msm7k.Prelude.Words.{add32, sub32, test}
use hardware_msm7k.Prelude.Int.{ℤ, pos, neg, is_neg}
use hardware_msm7k.Prelude.{
  ℕ, ◌/◌, ◌||◌, bit_or, ◌==◌, if◌then◌else◌, Option, none, some, List, ◌∷◌,
}
use hardware_msm7k.Errno.{Errno}
use hardware_msm7k.Pmem.{UsageBits, Buffer, get_open_flags}

-- The devices that the code names.
pub data Device : Type 0 where
  adsp smipool : Device

-- The calls that reach the system.
pub data KernelCall : Type 0 where
  open_node : Device → (flags : ℕ) → KernelCall
  align_pmem : (fd : ℤ) (size align : ℕ) → KernelCall
  map_file : (size : ℕ) (fd : ℤ) → KernelCall
  close_node : (fd : ℤ) → KernelCall
  unmap_memory : (base size : ℕ) → KernelCall

-- What the system answers after the calls so far, newest first.
pub record Kernel : Type 0 where
  pub answer : List KernelCall → KernelCall → ℤ
  pub mapped : List KernelCall → Option ℕ
  pub errno : List KernelCall → ℕ

-- The usage bits of gralloc.h, and the tiled format.
pub record PmemUsage : Type 0 where
  pub private_adsp : ℕ
  pub private_smipool : ℕ
  pub external_disp : ℕ
  pub protected : ℕ

-- `HAL_PIXEL_FORMAT_YCbCr_420_SP_TILED`
abbrev pub tiled_format : ℕ
tiled_format = 0x108

module _ (k : Kernel) where
  -- The choice of the device; none is an invalid usage. Where either pool would do, the smaller one
  -- is opened to see whether it is there.
  unfoldable pub choose_device :
      PmemUsage → (open_flags usage : ℕ) → List KernelCall → Option Device × List KernelCall
  choose_device p open_flags usage calls =
      let probe = open_node smipool open_flags in
      let temp_fd = k.answer calls probe in
      if test usage p.private_adsp
      then (some adsp, calls)
      else if test usage p.private_smipool
      then (some smipool, calls)
      else if test usage p.external_disp || test usage p.protected
      then if is_neg temp_fd
        then (some adsp, probe ∷ calls)
        else (some smipool, close_node temp_fd ∷ probe ∷ calls)
      else (none, calls)

  -- `mmap` and what follows it in `alloc_pmem_buffer`.
  unfoldable pub map_buffer :
      (fd : ℤ) → (size : ℕ) → Option ℕ → List KernelCall → ℤ × Option Buffer × List KernelCall
  map_buffer fd size none calls = (neg (k.errno calls), none, close_node fd ∷ calls)
  map_buffer fd size (some base) calls =
      (pos 0, some (record { base = base; offset = 0; fd = fd }), calls)

  -- `alloc_pmem_buffer` on the device.
  unfoldable pub alloc_on :
      Device → (open_flags size format : ℕ) → List KernelCall → ℤ × Option Buffer × List KernelCall
  unfolding map_buffer
  alloc_on device open_flags size format calls =
      let fd = k.answer calls (open_node device open_flags) in
      let opened = open_node device open_flags ∷ calls in
      let aligned = (if format == tiled_format then align_pmem fd size 8192 ∷ opened else opened) in
      if is_neg fd
      then (neg (k.errno opened), none, opened)
      else map_buffer fd size (k.mapped aligned) (map_file size fd ∷ aligned)

  -- The end of `alloc_pmem_buffer`, from the chosen device.
  unfoldable pub alloc_chosen :
      Errno
      → (open_flags size format : ℕ) → Option Device × List KernelCall
      → ℤ × Option Buffer × List KernelCall
  unfolding alloc_on
  alloc_chosen e open_flags size format (none, calls) = (neg e.einval, none, calls)
  alloc_chosen e open_flags size format (some device, calls) =
      alloc_on device open_flags size format calls

  -- `PmemKernelAllocator::alloc_pmem_buffer`: the result, the buffer, if any, and the calls. With no
  -- buffer the pointers hold 0, 0 and -1.
  unfoldable pub kernel_alloc :
      Errno
      → UsageBits
      → PmemUsage
      → (size usage format : ℕ) → List KernelCall
      → ℤ × Option Buffer × List KernelCall
  unfolding choose_device alloc_chosen get_open_flags
  kernel_alloc e u p size usage format calls =
      let open_flags = get_open_flags u usage in
      alloc_chosen e open_flags size format (choose_device p open_flags usage calls)

  -- `PmemKernelAllocator::free_pmem_buffer`, which leaves the descriptor to its caller.
  unfoldable pub kernel_free : (size base : ℕ) → List KernelCall → ℤ × List KernelCall
  kernel_free size base calls =
      let c = unmap_memory base size in
      if is_neg (k.answer calls c)
      then (neg (k.errno (c ∷ calls)), c ∷ calls)
      else (pos 0, c ∷ calls)

-- `clp2`
unfoldable pub clp2 : ℕ → ℕ
clp2 x =
    let x0 = sub32 x 1 in
    let x1 = bit_or x0 (x0 / 2) in
    let x2 = bit_or x1 (x1 / 4) in
    let x3 = bit_or x2 (x2 / 16) in
    let x4 = bit_or x3 (x3 / 256) in add32 (bit_or x4 (x4 / 65536)) 1
