-- ===== src/Gpu.antt =====
-- libgralloc-qsd8k/gpu.cpp: the buffers of `gpu_context_t`. The two pmem allocators are interfaces,
-- and the answers of the system are functions of the calls made before, newest first. The module's
-- mutex is held over the allocation of a framebuffer.
mod Tests
pub mod Buffers
pub mod Format
pub mod Device
pub mod Slots
pub mod Ashmem
pub mod Resources
pub mod Rounding
pub mod Extent
pub mod Framebuffer
use hardware_msm7k.Prelude.Words.{add32, sub32, mul32, not32, test, align32}
use hardware_msm7k.Prelude.Int.{ℤ, pos, negsuc, neg, is_neg, is_zero}
use hardware_msm7k.Prelude.{
  ℕ, suc, zero, ◌%◌, ◌^◌, Bool, true, false, not, ◌&&◌, ◌||◌, bit_and, bit_or, ◌==◌, leb,
  if◌then◌else◌, Option, none, some, List, ◌∷◌,
}
use hardware_msm7k.Errno.{Errno}
use hardware_msm7k.Handle.{
  PrivateHandle, new_handle, flags_framebuffer, flags_uses_pmem, flags_uses_pmem_adsp,
  flags_uses_ashmem, lock_state_mapped,
}
use hardware_msm7k.Pmem.{Buffer}

-- The composition types of gralloc_priv.h.
pub data Composition : Type 0 where
  gpu_composition c2d_composition mdp_composition cpu_composition : Composition

abbrev pub is_mdp : Composition → Bool
is_mdp mdp_composition = true
is_mdp _ = false

-- What `debug.composition.type` starts with.
pub data CompositionProperty : Type 0 where
  starts_mdp starts_c2d other_property : CompositionProperty

-- The composition named by the property.
unfoldable pub named_composition : CompositionProperty → Composition
named_composition starts_mdp = mdp_composition
named_composition starts_c2d = c2d_composition
named_composition other_property = gpu_composition

-- The choice of the constructor `gpu_context_t`: `sf_hw` is the number in `debug.sf.hw`, if it is set.
unfoldable pub composition_type : (sf_hw : Option ℤ) → CompositionProperty → Composition
unfolding named_composition
composition_type none property = cpu_composition
composition_type (some n) property =
    if is_zero n then cpu_composition else named_composition property

-- `GRALLOC_USAGE_*` of hardware/gralloc.h and gralloc_priv.h.
pub record BufferUsage : Type 0 where
  pub hw_texture : ℕ
  pub hw_2d : ℕ
  pub hw_fb : ℕ
  pub private_pmem : ℕ
  pub private_adsp : ℕ
  pub private_smipool : ℕ
  pub external_disp : ℕ
  pub protected : ℕ

-- `BUFFER_TYPE_*`
abbrev pub buffer_type_ui : ℕ
buffer_type_ui = 0

abbrev pub buffer_type_video : ℕ
buffer_type_video = 1

-- The build (`USE_ASHMEM`), the composition, the constants of the platform and the process.
pub record Setup : Type 0 where
  pub use_ashmem : Bool
  pub composition : Composition
  pub usage_bits : BufferUsage
  pub page_size : ℕ
  pub header : ℕ
  pub pid : ℕ

-- The calls that reach the system.
pub data GpuCall : Type 0 where
  create_region : (size : ℕ) → GpuCall
  protect_region : (fd : ℤ) → GpuCall
  map_region : (size : ℕ) (fd : ℤ) → GpuCall
  unmap_region : (base size : ℕ) → GpuCall
  duplicate_fd : (fd : ℤ) → GpuCall
  close_fd : (fd : ℤ) → GpuCall

-- What the system answers after the calls so far: results, the address of `mmap` or none for
-- MAP_FAILED, and `errno`.
pub record GpuSystem : Type 0 where
  pub answer : List GpuCall → GpuCall → ℤ
  pub mapped : List GpuCall → Option ℕ
  pub errno : List GpuCall → ℕ

-- The screen's part of `private_module_t`.
pub record Screen : Type 0 where
  pub framebuffer : Option PrivateHandle
  pub fb_format : ℕ
  pub num_buffers : ℕ
  pub buffer_mask : ℕ
  pub line_length : ℕ
  pub xres : ℕ
  pub yres : ℕ

-- What `mapFrameBufferLocked` comes to: an error, -(n + 1), or a framebuffer, with the screen.
pub data Mapped : Type 0 where
  not_mapped : (n : ℕ) → Screen → Mapped
  mapped_screen : PrivateHandle → Screen → Mapped

-- The methods of `PmemAllocator`: the result and what is stored through the pointers, if anything.
pub record PmemOps (S : Type 0) : Type 0 where
  pub alloc_pmem_buffer : (size usage format : ℕ) → S → ℤ × Option Buffer × S
  pub free_pmem_buffer : (size : ℕ) → Buffer → S → ℤ × S

-- The module, the two allocators, and the calls that were made.
pub record Gpu (S T : Type 0) : Type 0 where
  pub screen : Screen
  pub pmem : S
  pub adsp : T
  pub calls : List GpuCall

-- The locals `base`, `offset` and `fd` before anything is stored in them, and after.
abbrev pub stored : Option Buffer → Buffer
stored none = record { base = 0; offset = 0; fd = negsuc 0 }
stored (some b) = b

-- `mmap` and what follows it in `alloc_ashmem_buffer`.
unfoldable pub map_ashmem :
    GpuSystem → (size : ℕ) → (fd : ℤ) → Option ℕ → List GpuCall → ℤ × Option Buffer × List GpuCall
map_ashmem sys size fd none calls =
    (neg (sys.errno (close_fd fd ∷ calls)), none, close_fd fd ∷ calls)
map_ashmem sys size fd (some base) calls =
    (pos 0, some (record { base = base; offset = 0; fd = fd }), calls)

-- `alloc_ashmem_buffer`; the name of the region and the contents are left out.
unfoldable pub alloc_ashmem_buffer :
    GpuSystem → (size : ℕ) → List GpuCall → ℤ × Option Buffer × List GpuCall
unfolding map_ashmem
alloc_ashmem_buffer sys size calls =
    let fd = sys.answer calls (create_region size) in
    let created = create_region size ∷ calls in
    let protected = protect_region fd ∷ created in
    if is_neg fd
    then (neg (sys.errno created), none, created)
    else if is_neg (sys.answer created (protect_region fd))
    then (neg (sys.errno (close_fd fd ∷ protected)), none, close_fd fd ∷ protected)
    else map_ashmem sys size fd (sys.mapped protected) (map_region size fd ∷ protected)

module _ (c : Setup) where
  -- The usages that ask for pmem.
  unfoldable pub asks_pmem : (usage : ℕ) → Bool
  asks_pmem usage =
      let u = c.usage_bits in
      if c.use_ashmem
      then (is_mdp c.composition && (test usage u.hw_texture || test usage u.hw_2d))
        || test usage u.private_pmem
      else test usage u.hw_texture || test usage u.hw_2d

  -- The usages that ask for the other allocator.
  unfoldable pub asks_adsp : (usage : ℕ) → Bool
  asks_adsp usage =
      let u = c.usage_bits in
      test usage u.private_adsp
      || test usage u.private_smipool
      || test usage u.external_disp
      || test usage u.protected

  -- `flags` of `gralloc_alloc_buffer` before the allocation.
  unfoldable pub pool_flags : (usage : ℕ) → ℕ
  unfolding asks_pmem asks_adsp
  pool_flags usage =
      let flags = (if asks_pmem usage then flags_uses_pmem else 0) in
      if asks_adsp usage
      then bit_and (bit_or flags flags_uses_pmem_adsp) (not32 flags_uses_pmem)
      else flags

  -- Whether ashmem may stand in for pmem.
  unfoldable pub may_fall_back : (usage buffer_type : ℕ) → Bool
  may_fall_back usage buffer_type =
      not (is_mdp c.composition)
      && not (buffer_type == buffer_type_video)
      && not (test usage c.usage_bits.private_pmem)
      && not (test usage c.usage_bits.private_adsp)

  -- The end of `gralloc_alloc_buffer`: the handle, where `err` is 0.
  unfoldable pub make_handle :
      ℤ
      → Buffer
      → (size flags lock_state buffer_type format width height : ℕ) → Option PrivateHandle
  make_handle err b size flags lock_state buffer_type format width height =
      let made = new_handle c.header c.pid b.fd size flags buffer_type format width height in
      if is_zero err
      then some
          (record made { offset = b.offset; base = add32 b.base b.offset; lock_state = lock_state })
      else none
