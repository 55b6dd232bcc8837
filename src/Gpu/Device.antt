-- ===== src/Gpu/Device.antt =====
-- libgralloc-qsd8k/gpu.cpp: `alloc_impl`, `free_impl` and the functions of the device.
use hardware_msm7k.Prelude.Words.{sub32, not32, test}
use hardware_msm7k.Prelude.Int.{ℤ, pos, neg, is_neg}
use hardware_msm7k.Prelude.{
  Bool, ℕ, ◌/◌, ◌^◌, not, ◌&&◌, ◌||◌, bit_and, ◌==◌, leb, if◌then◌else◌, Option, none, some, List,
  ◌∷◌,
}
use hardware_msm7k.Errno.{Errno}
use hardware_msm7k.Handle.{
  PrivateHandle, flags_framebuffer, flags_uses_pmem, flags_uses_pmem_adsp, flags_uses_ashmem,
  is_valid,
}
use hardware_msm7k.Mapper.{Caller, terminate_buffer}
use hardware_msm7k.Pmem.{Buffer}
use hardware_msm7k.Gpu.{
  Setup, GpuCall, unmap_region, close_fd, GpuSystem, Screen, Mapped, PmemOps, Gpu,
  buffer_type_video,
}
use hardware_msm7k.Gpu.Buffers.{gralloc_alloc_buffer, gralloc_alloc_framebuffer, slot_size, bit32}
use hardware_msm7k.Gpu.Format.{HalFormats, format_information, image_size}

module _ {S T : Type 0} (e : Errno) (c : Setup) (sys : GpuSystem) (ps : PmemOps S)
    (pt : PmemOps T) where
  -- The end of `alloc_impl`: the result, the handle and the stride, if any, and the state.
  unfoldable pub with_stride :
      (stride : ℕ)
      → ℤ × Option PrivateHandle × Gpu S T
      → ℤ × Option PrivateHandle × Option ℕ × Gpu S T
  with_stride stride (err, h, g) =
      if is_neg err then (err, h, none, g) else (pos 0, h, some stride, g)

  -- `alloc_impl` once the size is known.
  unfoldable pub alloc_sized :
      (Screen → Mapped)
      → (format usage buffer_type buffer_size : ℕ) → Option (ℕ × ℕ × ℕ)
      → Gpu S T
      → ℤ × Option PrivateHandle × Option ℕ × Gpu S T
  unfolding with_stride gralloc_alloc_buffer gralloc_alloc_framebuffer
  alloc_sized map_screen format usage buffer_type buffer_size none g = (neg e.einval, none, none, g)
  alloc_sized map_screen format usage buffer_type buffer_size (some (w, h, image)) g =
      let u = c.usage_bits in
      let size = (if leb image buffer_size then buffer_size else image) in
      let kind =
        (if test usage u.external_disp || test usage u.protected
          then buffer_type_video
          else buffer_type) in
      if (image == 0) || leb (2 ^ 31) image
      then (neg e.einval, none, none, g)
      else if test usage u.hw_fb
      then with_stride w (gralloc_alloc_framebuffer e c sys ps pt map_screen usage g)
      else with_stride w (gralloc_alloc_buffer c sys ps pt size usage kind format w h g)

  -- `alloc_impl`; `given` says that neither `pHandle` nor `pStride` is null.
  unfoldable pub alloc_impl :
      HalFormats
      → (Screen → Mapped)
      → (given : Bool) → (w h format usage buffer_size : ℕ) → Gpu S T
      → ℤ × Option PrivateHandle × Option ℕ × Gpu S T
  unfolding format_information image_size alloc_sized
  alloc_impl f map_screen given w h format usage buffer_size g =
      let (color, kind) = format_information f format in
      if not given
      then (neg e.einval, none, none, g)
      else alloc_sized map_screen format usage kind buffer_size (image_size f color w h) g

  -- `gralloc_alloc_size`, on a device that may be null.
  unfoldable pub gralloc_alloc_size :
      HalFormats
      → (Screen → Mapped)
      → (device given : Bool) → (w h format usage buffer_size : ℕ) → Gpu S T
      → ℤ × Option PrivateHandle × Option ℕ × Gpu S T
  unfolding alloc_impl
  gralloc_alloc_size f map_screen device given w h format usage buffer_size g =
      if not device
      then (neg e.einval, none, none, g)
      else alloc_impl f map_screen given w h format usage buffer_size g

  -- `gralloc_alloc`
  unfoldable pub gralloc_alloc :
      HalFormats
      → (Screen → Mapped)
      → (device given : Bool) → (w h format usage : ℕ) → Gpu S T
      → ℤ × Option PrivateHandle × Option ℕ × Gpu S T
  unfolding alloc_impl
  gralloc_alloc f map_screen device given w h format usage g =
      if not device
      then (neg e.einval, none, none, g)
      else alloc_impl f map_screen given w h format usage 0 g

-- The calls that give the memory of an ashmem buffer back.
unfoldable pub free_ashmem : PrivateHandle → List GpuCall → List GpuCall
free_ashmem h calls =
    if not (is_neg h.fd) && not (h.base == 0) then unmap_region h.base h.size ∷ calls else calls

-- What `terminateBuffer` unmaps.
unfoldable pub unmapped : Option (ℕ × ℕ) → List GpuCall → List GpuCall
unmapped none calls = calls
unmapped (some (base, size)) calls = unmap_region base size ∷ calls

module _ {S T : Type 0} (ps : PmemOps S) (pt : PmemOps T) where
  -- The memory of a buffer that is no framebuffer is given back.
  unfoldable pub free_memory : PrivateHandle → Gpu S T → Gpu S T
  unfolding free_ashmem
  free_memory h g =
      let b : Buffer = record { base = h.base; offset = h.offset; fd = h.fd } in
      if test h.flags flags_uses_pmem
      then record g { pmem = (ps.free_pmem_buffer h.size b g.pmem).1 }
      else if test h.flags flags_uses_pmem_adsp
      then record g { adsp = (pt.free_pmem_buffer h.size b g.adsp).1 }
      else if test h.flags flags_uses_ashmem
      then record g { calls = free_ashmem h g.calls }
      else g

  -- `free_impl` on a buffer that is no framebuffer.
  unfoldable pub free_buffer : Caller → PrivateHandle → Gpu S T → Gpu S T
  unfolding free_memory terminate_buffer unmapped
  free_buffer caller h g =
      let g1 = free_memory h g in
      let (after, region) = terminate_buffer caller h in
      record g1 { calls = close_fd h.fd ∷ unmapped region g1.calls }

  -- `free_impl` on a slot of the framebuffer; none where there is no framebuffer, or where its slots
  -- have no size and the code divides by 0.
  unfoldable pub free_slot : Option PrivateHandle → PrivateHandle → Gpu S T → Option (Gpu S T)
  unfolding slot_size
  free_slot none h g = none
  free_slot (some fb) h g =
      let s = g.screen in
      let index = sub32 h.base fb.base / slot_size s in
      let mask = bit_and s.buffer_mask (not32 (bit32 index)) in
      if slot_size s == 0
      then none
      else some
          (record g { screen = record s { buffer_mask = mask }; calls = close_fd h.fd ∷ g.calls })

  -- `free_impl`, which returns 0.
  unfoldable pub free_impl : Caller → PrivateHandle → Gpu S T → Option (Gpu S T)
  unfolding free_slot free_buffer
  free_impl caller h g =
      if test h.flags flags_framebuffer
      then free_slot g.screen.framebuffer h g
      else some (free_buffer caller h g)

  -- `gralloc_free`: an error, or what `free_impl` leaves.
  unfoldable pub gralloc_free :
      Errno → Caller → Option PrivateHandle → Gpu S T → ℤ × Option (Gpu S T)
  unfolding free_impl
  gralloc_free e caller none g = (neg e.einval, some g)
  gralloc_free e caller (some h) g =
      if is_valid caller.header h then (pos 0, free_impl caller h g) else (neg e.einval, some g)
