-- ===== src/Gpu/Resources.antt =====
-- What the ashmem buffers hold: their files and their mapped regions.
use hardware_msm7k.Prelude.Int.{ℤ, pos, neg-is_neg, is_neg}
use hardware_msm7k.Prelude.{
  ℕ, ◌^◌, ◌<◌, ◌≡◌, ◌⊎◌, inl, inr, refl, true, false, ◌&&◌, ◌==◌, ==_iff, if◌then◌else◌, Option,
  none, some, List, [], ◌∷◌, Bool-cases, Option-cases,
}
use hardware_msm7k.Pmem.{Buffer}
use hardware_msm7k.Pmem.Descriptors.{drop_fd, drop_fd_first}
use hardware_msm7k.Gpu.{
  GpuCall, create_region, protect_region, map_region, unmap_region, duplicate_fd, close_fd,
  GpuSystem, map_ashmem, alloc_ashmem_buffer,
}

-- The list without the first region that is `r`.
drop_region : ℕ × ℕ → List (ℕ × ℕ) → List (ℕ × ℕ)
drop_region r [] = []
drop_region r (x ∷ xs) = if (x.0 == r.0) && (x.1 == r.1) then xs else x ∷ drop_region r xs

drop_region_first : (r : ℕ × ℕ) (rest : List (ℕ × ℕ)) → drop_region r (r ∷ rest) ≡ rest
unfolding drop_region
drop_region_first (base, size) rest = rw ((==_iff base base).1 refl, (==_iff size size).1 refl) refl

-- A new region, where `mmap` gave one.
with_region : Option ℕ → (size : ℕ) → List (ℕ × ℕ) → List (ℕ × ℕ)
with_region none size rest = rest
with_region (some base) size rest = (base, size) ∷ rest

module _ (sys : GpuSystem) where
  -- The files that were opened and not closed since, newest first.
  pub files : List GpuCall → List ℤ
  files [] = []
  files (create_region size ∷ calls) =
      let fd = sys.answer calls (create_region size) in
      if is_neg fd then files calls else fd ∷ files calls
  files (duplicate_fd fd ∷ calls) =
      let copy = sys.answer calls (duplicate_fd fd) in
      if is_neg copy then files calls else copy ∷ files calls
  files (close_fd fd ∷ calls) = drop_fd fd (files calls)
  files (_ ∷ calls) = files calls

  -- The regions that were mapped and not unmapped since, as addresses and sizes.
  pub regions : List GpuCall → List (ℕ × ℕ)
  unfolding drop_region with_region
  regions [] = []
  regions (map_region size fd ∷ calls) = with_region (sys.mapped calls) size (regions calls)
  regions (unmap_region base size ∷ calls) = drop_region (base, size) (regions calls)
  regions (_ ∷ calls) = regions calls

  -- What an ashmem allocation after `calls` comes to.
  abbrev pub AshmemTaken : (size : ℕ) → List GpuCall → ℤ × Option Buffer × List GpuCall → Type 0
  AshmemTaken size calls r =
      ((is_neg r.0 ≡ true)
        × (r.1 ≡ none)
        × (files r.2 ≡ files calls)
        × (regions r.2 ≡ regions calls))
      ⊎ ((b : Buffer) × (r.1 ≡ some b)
          × (r.0 ≡ pos 0)
          × (is_neg b.fd ≡ false)
          × (b.offset ≡ 0)
          × (0 < b.base)
          × (b.base < 2 ^ 32)
          × (files r.2 ≡ b.fd ∷ files calls)
          × (regions r.2 ≡ (b.base, size) ∷ regions calls))

  module _ (errno : (calls : List GpuCall) → 0 < sys.errno calls)
      (addresses : (calls : List GpuCall) (a : ℕ)
        → sys.mapped calls ≡ some a
        → (0 < a) × (a < 2 ^ 32))
      (size : ℕ) (calls : List GpuCall) where
    abbrev fd : ℤ
    fd = sys.answer calls (create_region size)

    abbrev created : List GpuCall
    created = create_region size ∷ calls

    abbrev protected : List GpuCall
    protected = protect_region fd ∷ created

    files-created : is_neg fd ≡ false → files created ≡ fd ∷ files calls
    unfolding files
    files-created n = rw n refl

    files-refused : is_neg fd ≡ true → files created ≡ files calls
    unfolding files
    files-refused n = rw n refl

    map_ashmem-AshmemTaken :
        is_neg fd ≡ false
        → AshmemTaken size calls
            (map_ashmem sys size fd (sys.mapped protected) (map_region size fd ∷ protected))
    unfolding map_ashmem files regions with_region
    map_ashmem-AshmemTaken n = elim (Option-cases (sys.mapped protected)) [
      | inl m ↦
          rw m
            (inl (neg-is_neg _ (errno _), refl, rw n (drop_fd_first fd (files calls)), rw m refl))
      | inr (a, m) ↦ rw m (
          inr (
            _,
            refl,
            refl,
            n,
            refl,
            (addresses _ a m).0,
            (addresses _ a m).1,
            rw n refl,
            rw m refl,
          ))
    ]

    pub alloc_ashmem_buffer-AshmemTaken :
        AshmemTaken size calls (alloc_ashmem_buffer sys size calls)
    unfolding alloc_ashmem_buffer files regions
    alloc_ashmem_buffer-AshmemTaken = elim (Bool-cases (is_neg fd)) [
      | inl n ↦ rw n (inl (neg-is_neg _ (errno created), refl, rw n refl, refl))
      | inr n ↦ elim (Bool-cases (is_neg (sys.answer created (protect_region fd)))) [
        | inl p ↦
            rw (n, p)
              (inl (neg-is_neg _ (errno _), refl, rw n (drop_fd_first fd (files calls)), refl))
        | inr p ↦ rw (n, p) (map_ashmem-AshmemTaken n)
      ]
    ]

  -- The calls that release a buffer whose memory is `(base, size)` on the file `fd`.
  pub released :
      (fd : ℤ) (base size : ℕ) (calls : List GpuCall) (fs : List ℤ) (rs : List (ℕ × ℕ))
      → files calls ≡ fd ∷ fs
      → regions calls ≡ (base, size) ∷ rs
      → (files (close_fd fd ∷ unmap_region base size ∷ calls) ≡ fs)
        × (regions (close_fd fd ∷ unmap_region base size ∷ calls) ≡ rs)
  unfolding files regions
  released fd base size calls fs rs f r =
      (rw f (drop_fd_first fd fs), rw r (drop_region_first (base, size) rs))
