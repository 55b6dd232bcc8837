-- ===== src/Gpu/Buffers.antt =====
-- libgralloc-qsd8k/gpu.cpp: `gralloc_alloc_buffer` and `gralloc_alloc_framebuffer`.
use hardware_msm7k.Prelude.Words.{add32, sub32, mul32, not32, test, align32}
use hardware_msm7k.Prelude.Int.{ℤ, pos, negsuc, neg, is_neg}
use hardware_msm7k.Prelude.{
  ℕ, suc, zero, ◌%◌, ◌^◌, ◌&&◌, bit_and, bit_or, ◌==◌, leb, if◌then◌else◌, Option, none, some, ◌∷◌,
}
use hardware_msm7k.Errno.{Errno}
use hardware_msm7k.Handle.{
  PrivateHandle, new_handle, flags_framebuffer, flags_uses_pmem, flags_uses_pmem_adsp,
  flags_uses_ashmem, lock_state_mapped,
}
use hardware_msm7k.Pmem.{Buffer}
use hardware_msm7k.Gpu.{
  Setup, duplicate_fd, GpuSystem, Screen, Mapped, not_mapped, mapped_screen, PmemOps, Gpu, stored,
  alloc_ashmem_buffer, pool_flags, may_fall_back, make_handle, buffer_type_ui,
}

module _ {S T : Type 0} (c : Setup) (sys : GpuSystem) (ps : PmemOps S) (pt : PmemOps T) where
  -- The memory of a buffer from one of the two allocators.
  unfoldable pub take_pool : (flags size usage format : ℕ) → Gpu S T → ℤ × Option Buffer × Gpu S T
  take_pool flags size usage format g =
      let (err, b, s) = ps.alloc_pmem_buffer size usage format g.pmem in
      let (err', b', t) = pt.alloc_pmem_buffer size usage format g.adsp in
      if test flags flags_uses_pmem
      then (err, b, record g { pmem = s })
      else (err', b', record g { adsp = t })

  -- The memory of a buffer from ashmem.
  unfoldable pub take_ashmem : (size : ℕ) → Gpu S T → ℤ × Option Buffer × Gpu S T
  take_ashmem size g =
      let (err, b, calls) = alloc_ashmem_buffer sys size g.calls in
      (err, b, record g { calls = calls })

  -- The buffer on ashmem after pmem was refused.
  unfoldable pub fall_back :
      (flags size buffer_type format width height : ℕ)
      → Gpu S T
      → ℤ × Option PrivateHandle × Gpu S T
  unfolding take_ashmem make_handle
  fall_back flags size buffer_type format width height g =
      let cleared = bit_and flags (not32 flags_uses_pmem) in
      let (err, b, g1) = take_ashmem size g in
      let final = (if is_neg err then cleared else bit_or cleared flags_uses_ashmem) in
      (
        err,
        make_handle c err (stored b) size final lock_state_mapped buffer_type format width height,
        g1,
      )

  -- `gralloc_alloc_buffer` from pmem.
  unfoldable pub alloc_from_pool :
      (flags size usage buffer_type format width height : ℕ)
      → Gpu S T
      → ℤ × Option PrivateHandle × Gpu S T
  unfolding take_pool fall_back may_fall_back make_handle
  alloc_from_pool flags size usage buffer_type format width height g =
      let chosen =
        (if test flags flags_uses_pmem
          then bit_and flags (not32 flags_uses_pmem_adsp)
          else flags) in
      let (err, b, g1) = take_pool flags size usage format g in
      if is_neg err && may_fall_back c usage buffer_type
      then fall_back chosen size buffer_type format width height g1
      else (
        err,
        make_handle c err (stored b) size chosen lock_state_mapped buffer_type format width height,
        g1,
      )

  -- `gralloc_alloc_buffer` from ashmem.
  unfoldable pub alloc_from_ashmem :
      (flags size buffer_type format width height : ℕ)
      → Gpu S T
      → ℤ × Option PrivateHandle × Gpu S T
  unfolding take_ashmem make_handle
  alloc_from_ashmem flags size buffer_type format width height g =
      let (err, b, g1) = take_ashmem size g in
      let lock_state = (if is_neg err then 0 else lock_state_mapped) in
      (
        err,
        make_handle c err (stored b) size (bit_or flags flags_uses_ashmem) lock_state buffer_type
            format width height,
        g1,
      )

  -- `gralloc_alloc_buffer`: the result, the handle, if any, and the state.
  unfoldable pub gralloc_alloc_buffer :
      (size usage buffer_type format width height : ℕ)
      → Gpu S T
      → ℤ × Option PrivateHandle × Gpu S T
  unfolding pool_flags alloc_from_ashmem alloc_from_pool
  gralloc_alloc_buffer size usage buffer_type format width height g =
      let flags = pool_flags c usage in
      let rounded = align32 size c.page_size in
      if (bit_and flags flags_uses_pmem == 0) && (bit_and flags flags_uses_pmem_adsp == 0)
      then alloc_from_ashmem flags rounded buffer_type format width height g
      else alloc_from_pool flags rounded usage buffer_type format width height g

-- `1LU << i`
abbrev pub bit32 : ℕ → ℕ
bit32 i = 2 ^ i % 2 ^ 32

-- The search for a free slot, from slot `i` with `n` to go: the mask with the slot taken, and its
-- address.
unfoldable pub find_slot : (size mask : ℕ) → (n i vaddr : ℕ) → ℕ × ℕ
find_slot size mask zero i vaddr = (mask, vaddr)
find_slot size mask (suc n) i vaddr =
    let later = find_slot size mask n (suc i) (add32 vaddr size) in
    if bit_and mask (bit32 i) == 0 then (bit_or mask (bit32 i), vaddr) else later

-- `bufferSize` of a screen.
unfoldable pub slot_size : Screen → ℕ
slot_size s = mul32 s.line_length s.yres

module _ {S T : Type 0} (e : Errno) (c : Setup) (sys : GpuSystem) (ps : PmemOps S)
    (pt : PmemOps T) where
  -- A slot of the framebuffer `fb`: the handle, and the state.
  unfoldable pub take_slot : PrivateHandle → Gpu S T → PrivateHandle × Gpu S T
  unfolding find_slot slot_size
  take_slot fb g =
      let s = g.screen in
      let size = slot_size s in
      let dup = duplicate_fd fb.fd in
      let made =
        new_handle c.header c.pid (sys.answer g.calls dup) size
          (bit_or flags_uses_pmem flags_framebuffer) buffer_type_ui s.fb_format s.xres s.yres in
      let (mask, vaddr) = find_slot size s.buffer_mask s.num_buffers 0 fb.base in
      (
        record made { base = vaddr; offset = sub32 vaddr fb.base },
        record g { screen = record s { buffer_mask = mask }; calls = dup ∷ g.calls },
      )

  -- `gralloc_alloc_framebuffer_locked` once the framebuffer `fb` is mapped.
  unfoldable pub alloc_slot :
      PrivateHandle → (usage : ℕ) → Gpu S T → ℤ × Option PrivateHandle × Gpu S T
  unfolding gralloc_alloc_buffer slot_size take_slot
  alloc_slot fb usage g =
      let s = g.screen in
      let u = c.usage_bits in
      let new_usage = bit_or (bit_and usage (not32 u.hw_fb)) u.hw_2d in
      let (made, g1) = take_slot fb g in
      if s.num_buffers == 1
      then gralloc_alloc_buffer c sys ps pt (slot_size s) new_usage buffer_type_ui s.fb_format
          s.xres s.yres g
      else if leb (sub32 (bit32 s.num_buffers) 1) s.buffer_mask
      then (neg e.enomem, none, g)
      else (pos 0, some made, g1)

  -- The same after `mapFrameBufferLocked`.
  unfoldable pub alloc_mapped : Mapped → (usage : ℕ) → Gpu S T → ℤ × Option PrivateHandle × Gpu S T
  unfolding alloc_slot
  alloc_mapped (not_mapped n screen) usage g = (negsuc n, none, record g { screen = screen })
  alloc_mapped (mapped_screen fb screen) usage g =
      alloc_slot fb usage (record g { screen = record screen { framebuffer = some fb } })

  -- The framebuffer, which is mapped on its first use.
  unfoldable pub alloc_on_screen :
      (Screen → Mapped)
      → Option PrivateHandle
      → (usage : ℕ) → Gpu S T
      → ℤ × Option PrivateHandle × Gpu S T
  unfolding alloc_mapped alloc_slot
  alloc_on_screen map_screen none usage g = alloc_mapped (map_screen g.screen) usage g
  alloc_on_screen map_screen (some fb) usage g = alloc_slot fb usage g

  -- `gralloc_alloc_framebuffer`
  unfoldable pub gralloc_alloc_framebuffer :
      (Screen → Mapped) → (usage : ℕ) → Gpu S T → ℤ × Option PrivateHandle × Gpu S T
  unfolding alloc_on_screen
  gralloc_alloc_framebuffer map_screen usage g =
      if test usage c.usage_bits.private_adsp
      then (neg e.einval, none, g)
      else alloc_on_screen map_screen g.screen.framebuffer usage g
