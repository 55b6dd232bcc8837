-- ===== src/Gpu/Ashmem.antt =====
-- An ashmem buffer, from its allocation to its release.
use hardware_msm7k.Prelude.Words.{add32, align32}
use hardware_msm7k.Prelude.Int.{ℤ, pos, negsuc, is_neg}
use hardware_msm7k.Prelude.{
  ℕ, ◌^◌, ◌<◌, ◌≡◌, inl, inr, refl, ap, sym, ◌∙◌, true, false, ◌==◌, ==_iff, if◌then◌else◌, Option,
  none, some, List, ◌∷◌, arith,
}
use hardware_msm7k.Handle.{PrivateHandle, new_handle, lock_state_mapped, flags_uses_ashmem}
use hardware_msm7k.Mapper.{Caller, terminate_buffer}
use hardware_msm7k.Pmem.{Buffer}
use hardware_msm7k.Gpu.{
  Setup, GpuCall, unmap_region, close_fd, GpuSystem, PmemOps, Gpu, stored, make_handle, asks_pmem,
  asks_adsp, pool_flags,
}
use hardware_msm7k.Gpu.Buffers.{take_ashmem, alloc_from_ashmem, gralloc_alloc_buffer}
use hardware_msm7k.Gpu.Device.{free_ashmem, unmapped, free_memory, free_buffer, free_impl}
use hardware_msm7k.Gpu.Resources.{
  files, regions, AshmemTaken, alloc_ashmem_buffer-AshmemTaken, released,
}

-- What `gralloc_alloc_buffer` comes to after the calls `calls`: an error, no handle, and nothing held
-- more than before, or a handle that holds one file and one region, whose release gives both back.
pub data AshmemCycle {S T : Type 0} (sys : GpuSystem) (ps : PmemOps S) (pt : PmemOps T)
    (caller : Caller) (size : ℕ) (calls : List GpuCall)
    : ℤ × Option PrivateHandle × Gpu S T → Type 0 where
  refused :
      (err : ℤ) (g : Gpu S T)
      → is_neg err ≡ true
      → files sys g.calls ≡ files sys calls
      → regions sys g.calls ≡ regions sys calls
      → AshmemCycle sys ps pt caller size calls (err, none, g)
  made :
      (h : PrivateHandle) (g after : Gpu S T)
      → h.size ≡ size
      → files sys g.calls ≡ h.fd ∷ files sys calls
      → regions sys g.calls ≡ (h.base, size) ∷ regions sys calls
      → free_impl ps pt caller h g ≡ some after
      → files sys after.calls ≡ files sys calls
      → regions sys after.calls ≡ regions sys calls
      → AshmemCycle sys ps pt caller size calls (pos 0, some h, g)

module _ {S T : Type 0} (c : Setup) (sys : GpuSystem) (ps : PmemOps S) (pt : PmemOps T)
    (caller : Caller) (own : caller.pid ≡ c.pid) where
  -- The calls of `free_impl` on an ashmem buffer of this process.
  free_impl-ashmem :
      (h : PrivateHandle) (g : Gpu S T)
      → h.flags ≡ flags_uses_ashmem
      → h.lock_state ≡ lock_state_mapped
      → h.pid ≡ c.pid
      → is_neg h.fd ≡ false
      → 0 < h.base
      → free_impl ps pt caller h g
        ≡ some (record g { calls = close_fd h.fd ∷ unmap_region h.base h.size ∷ g.calls })
  unfolding free_impl free_buffer free_memory free_ashmem terminate_buffer unmapped
  free_impl-ashmem h g f l p n b =
      let mapped : (h.base == 0) ≡ false = ground (arith, b) in
      let same : (h.pid == caller.pid) ≡ true = (==_iff h.pid caller.pid).1 (p ∙ sym own) in
      rw (f, l, n, mapped, same) refl

  module _ (errno : (calls : List GpuCall) → 0 < sys.errno calls)
      (addresses : (calls : List GpuCall) (a : ℕ)
        → sys.mapped calls ≡ some a
        → (0 < a) × (a < 2 ^ 32))
      (buffer_type format width height : ℕ) (g : Gpu S T) where
    -- `alloc_from_ashmem` after the allocation `r`.
    abbrev handle_of :
        (size : ℕ) → ℤ × Option Buffer × List GpuCall → ℤ × Option PrivateHandle × Gpu S T
    handle_of size r = (
      r.0,
      make_handle c r.0 (stored r.1) size flags_uses_ashmem
          (if is_neg r.0 then 0 else lock_state_mapped) buffer_type format width height,
      record g { calls = r.2 },
    )

    abbrev handle_on : (size base : ℕ) (fd : ℤ) → PrivateHandle
    handle_on size base fd =
        record (new_handle c.header c.pid fd size flags_uses_ashmem buffer_type format width
          height) { offset = 0; base = base; lock_state = lock_state_mapped }

    handle_of-refused :
        (size : ℕ) (err : ℤ) (calls : List GpuCall)
        → is_neg err ≡ true
        → handle_of size (err, none, calls) ≡ (err, none, record g { calls = calls })
    unfolding make_handle
    handle_of-refused size (pos n) calls h = absurd (cc h)
    handle_of-refused size (negsuc n) calls h = refl

    handle_of-made :
        (size base : ℕ) (fd : ℤ) (calls : List GpuCall)
        → base < 2 ^ 32
        → handle_of size (pos 0, some (record { base = base; offset = 0; fd = fd }), calls)
          ≡ (pos 0, some (handle_on size base fd), record g { calls = calls })
    unfolding make_handle
    handle_of-made size base fd calls h =
        let whole : add32 base 0 ≡ base = omega (arith, h) in rw whole refl

    handle_of-AshmemCycle :
        (size : ℕ) (r : ℤ × Option Buffer × List GpuCall)
        → AshmemTaken sys size g.calls r
        → AshmemCycle sys ps pt caller size g.calls (handle_of size r)
    unfolding new_handle
    handle_of-AshmemCycle size (err, b, calls) (inl (n, q, f, r)) =
        rw (q, handle_of-refused size err calls n) (refused err _ n f r)
    handle_of-AshmemCycle size (err, o, calls) (inr (b, q, z, n, off, p, l, f, r)) =
        let exact : b ≡ record { base = b.base; offset = 0; fd = b.fd } =
          ap (λ t. record b { offset = t }) off in
        let back =
          released sys b.fd b.base size calls (files sys g.calls) (regions sys g.calls) f r in
        rw (q, z, exact, handle_of-made size b.base b.fd calls l)
          (made _ _ _ refl f r
            (free_impl-ashmem (handle_on size b.base b.fd) (record g { calls = calls }) refl refl
              refl n p)
            back.0 back.1)

    -- Where the usage asks for no pmem of either allocator, gralloc_alloc_buffer either returns an
    -- error, no handle, and holds no file and no region more than before, or returns 0 and a
    -- handle of the size rounded up to pages that holds one file and one region more, both of
    -- which free_impl in the same process gives back, for every answer of the system. The system's
    -- error numbers are positive, and mmap gives addresses other than 0 that fit a word.
    pub gralloc_alloc_buffer-AshmemCycle :
        (size usage : ℕ)
        → asks_pmem c usage ≡ false
        → asks_adsp c usage ≡ false
        → AshmemCycle sys ps pt caller
            (align32 size c.page_size)
            g.calls
            (gralloc_alloc_buffer c sys ps pt size usage buffer_type format width height g)
    unfolding gralloc_alloc_buffer pool_flags alloc_from_ashmem take_ashmem
    gralloc_alloc_buffer-AshmemCycle size usage no_pmem no_adsp =
        rw (no_pmem, no_adsp)
          (handle_of-AshmemCycle (align32 size c.page_size) _ (
            alloc_ashmem_buffer-AshmemTaken sys errno addresses (align32 size c.page_size) g.calls))
