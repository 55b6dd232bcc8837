-- ===== src/Pmem/Descriptors.antt =====
-- The descriptors that `PmemKernelAllocator` holds.
use hardware_msm7k.Prelude.Words.{test}
use hardware_msm7k.Prelude.Int.{ℤ, pos, negsuc, neg-is_neg, is_neg}
use hardware_msm7k.Prelude.{
  ℕ, ◌<◌, ◌≡◌, ◌⊎◌, inl, inr, refl, ap, ◌∙◌, Bool, true, false, ◌||◌, ◌==◌, ==_iff, if◌then◌else◌,
  Option, none, some, List, [], ◌∷◌, Bool-cases,
}
use hardware_msm7k.Errno.{Errno}
use hardware_msm7k.Pmem.{UsageBits, Buffer, get_open_flags}
use hardware_msm7k.Pmem.Kernel.{
  Device, smipool, KernelCall, open_node, align_pmem, map_file, close_node, unmap_memory, Kernel,
  PmemUsage, tiled_format, choose_device, map_buffer, alloc_on, alloc_chosen, kernel_alloc,
}

same : ℤ → ℤ → Bool
same (pos m) (pos n) = m == n
same (negsuc m) (negsuc n) = m == n
same _ _ = false

same_refl : (x : ℤ) → same x x ≡ true
unfolding same
same_refl (pos n) = (==_iff n n).1 refl
same_refl (negsuc n) = (==_iff n n).1 refl

-- The list without the first descriptor that is `fd`.
pub drop_fd : ℤ → List ℤ → List ℤ
unfolding same
drop_fd fd [] = []
drop_fd fd (x ∷ xs) = if same x fd then xs else x ∷ drop_fd fd xs

pub drop_fd_first : (fd : ℤ) (rest : List ℤ) → drop_fd fd (fd ∷ rest) ≡ rest
unfolding drop_fd
drop_fd_first fd rest = rw (same_refl fd) refl

module _ (k : Kernel) where
  -- The descriptors that were opened and not closed since, newest first.
  pub held : List KernelCall → List ℤ
  unfolding drop_fd
  held [] = []
  held (open_node device flags ∷ calls) =
      let fd = k.answer calls (open_node device flags) in
      if is_neg fd then held calls else fd ∷ held calls
  held (close_node fd ∷ calls) = drop_fd fd (held calls)
  held (align_pmem fd size align ∷ calls) = held calls
  held (map_file size fd ∷ calls) = held calls
  held (unmap_memory base size ∷ calls) = held calls

  -- The result of an allocation after `calls`: an error, nothing stored, and no descriptor more
  -- than before, or a buffer whose descriptor is the only one more.
  abbrev pub HeldBy : List KernelCall → ℤ × Option Buffer × List KernelCall → Type 0
  HeldBy calls r =
      ((r.1 ≡ none) × (is_neg r.0 ≡ true) × (held r.2 ≡ held calls))
      ⊎ ((b : Buffer) × (r.1 ≡ some b)
          × (r.0 ≡ pos 0)
          × (is_neg b.fd ≡ false)
          × (held r.2 ≡ b.fd ∷ held calls))

  held-open :
      (device : Device) (flags : ℕ) (calls : List KernelCall)
      → is_neg (k.answer calls (open_node device flags)) ≡ false
      → held (open_node device flags ∷ calls) ≡ k.answer calls (open_node device flags) ∷ held calls
  unfolding held
  held-open device flags calls n = rw n refl

  held-refused :
      (device : Device) (flags : ℕ) (calls : List KernelCall)
      → is_neg (k.answer calls (open_node device flags)) ≡ true
      → held (open_node device flags ∷ calls) ≡ held calls
  unfolding held
  held-refused device flags calls n = rw n refl

  held-close :
      (fd : ℤ) (rest : List ℤ) (calls : List KernelCall)
      → held calls ≡ fd ∷ rest
      → held (close_node fd ∷ calls) ≡ rest
  unfolding held
  held-close fd rest calls h = rw h (drop_fd_first fd rest)

  module _ (errno : (calls : List KernelCall) → 0 < k.errno calls) where
    map_buffer-HeldBy :
        (fd : ℤ) (size : ℕ) (base : Option ℕ) (calls before : List KernelCall)
        → is_neg fd ≡ false
        → held calls ≡ fd ∷ held before
        → HeldBy before (map_buffer k fd size base calls)
    unfolding map_buffer
    map_buffer-HeldBy fd size none calls before n h =
        inl (refl, neg-is_neg _ (errno calls), held-close fd (held before) calls h)
    map_buffer-HeldBy fd size (some base) calls before n h = inr (_, refl, refl, n, h)

    held-aligned :
        (b : Bool) (fd : ℤ) (size n : ℕ) (calls : List KernelCall)
        → held (map_file size fd ∷ (if b then align_pmem fd size n ∷ calls else calls)) ≡ held calls
    unfolding held
    held-aligned true fd size n calls = refl
    held-aligned false fd size n calls = refl

    alloc_on-HeldBy :
        (device : Device) (flags size format : ℕ) (calls : List KernelCall)
        → HeldBy calls (alloc_on k device flags size format calls)
    unfolding alloc_on
    alloc_on-HeldBy device flags size format calls =
        let fd = k.answer calls (open_node device flags) in
        let opened : List KernelCall = open_node device flags ∷ calls in
        elim (Bool-cases (is_neg fd)) [
          | inl n ↦
              rw n (inl (refl, neg-is_neg _ (errno opened), held-refused device flags calls n))
          | inr n ↦ rw n (
              map_buffer-HeldBy fd size _ _ calls n (
                held-aligned (format == tiled_format) fd size 8192 opened
                ∙ held-open device flags calls n))
        ]

    choose_device-held :
        (p : PmemUsage) (flags usage : ℕ) (calls : List KernelCall)
        → held (choose_device k p flags usage calls).1 ≡ held calls
    unfolding choose_device
    choose_device-held p flags usage calls =
        let probe = open_node smipool flags in
        elim (Bool-cases (test usage p.private_adsp)) [
          | inl a ↦ rw a refl
          | inr a ↦ elim (Bool-cases (test usage p.private_smipool)) [
            | inl b ↦ rw (a, b) refl
            | inr b ↦ elim (Bool-cases (test usage p.external_disp || test usage p.protected)) [
              | inr c ↦ rw (a, b, c) refl
              | inl c ↦ elim (Bool-cases (is_neg (k.answer calls probe))) [
                | inl n ↦ rw (a, b, c, n) (held-refused smipool flags calls n)
                | inr n ↦ rw (a, b, c, n) (held-close _ _ _ (held-open smipool flags calls n))
              ]
            ]
          ]
        ]

    alloc_chosen-HeldBy :
        (e : Errno) (flags size format : ℕ) (chosen : Option Device × List KernelCall)
        (calls : List KernelCall)
        → held chosen.1 ≡ held calls
        → HeldBy calls (alloc_chosen k e flags size format chosen)
    unfolding alloc_chosen
    alloc_chosen-HeldBy e flags size format (none, after) calls h =
        inl (refl, neg-is_neg e.einval e.einval_pos, h)
    alloc_chosen-HeldBy e flags size format (some device, after) calls h =
        elim (alloc_on-HeldBy device flags size format after) [
          | inl (p, n, q) ↦ inl (p, n, q ∙ h)
          | inr (b, p, z, n, q) ↦ inr (b, p, z, n, q ∙ ap (λ t. b.fd ∷ t) h)
        ]

    -- PmemKernelAllocator::alloc_pmem_buffer keeps no descriptor but the buffer's: it returns 0
    -- and a buffer on a descriptor that is the only one more than before, or an error, nothing,
    -- and no descriptor more than before, for every usage, size, format and answer of the system.
    -- The system's error numbers are positive.
    pub kernel_alloc-HeldBy :
        (e : Errno) (u : UsageBits) (p : PmemUsage) (size usage format : ℕ)
        (calls : List KernelCall)
        → HeldBy calls (kernel_alloc k e u p size usage format calls)
    unfolding kernel_alloc
    kernel_alloc-HeldBy e u p size usage format calls =
        alloc_chosen-HeldBy e (get_open_flags u usage) size format
          (choose_device k p (get_open_flags u usage) usage calls) calls
          (choose_device-held p (get_open_flags u usage) usage calls)
