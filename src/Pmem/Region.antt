-- ===== src/Pmem/Region.antt =====
-- The region of `PmemUserspaceAllocator`: it is set up once, and not in "limp mode".
use hardware_msm7k.Prelude.Int.{ℤ, pos, negsuc, neg-is_neg, is_neg, is_zero}
use hardware_msm7k.Prelude.{
  ℕ, ◌≡◌, ◌⊎◌, inl, inr, refl, sym, ap, ◌∙◌, Bool, true, false, if◌then◌else◌, Option, none, some,
  List, ◌∷◌, Bool-cases,
}
use hardware_msm7k.Pmem.{
  HeapOps, System, UsageBits, State, Call, open_device, get_total_size, last_error, attach,
  map_master, init_pmem_area_locked, init_pmem_area, is_init, ask,
}
use hardware_msm7k.Pmem.Failure.{HasErrno, init_pmem_area_ready}

-- `getPmemTotalSize` gives 0 or an error, never a positive number.
abbrev pub SizeOrError : System → Type 0
SizeOrError sys =
    (calls : List Call) (fd : ℤ)
    → (sys.answer calls (get_total_size fd) ≡ pos 0)
      ⊎ (is_neg (sys.answer calls (get_total_size fd)) ≡ true)

module _ {S : Type 0} (sys : System) (h : HeapOps S) (u : UsageBits) (errno : HasErrno sys) where
  -- Success leaves a descriptor, and failure is an error number.
  abbrev Settled : ℤ × State S → Type 0
  Settled r =
      ((r.0 ≡ pos 0) × (is_neg r.1.master_fd ≡ false))
      ⊎ ((is_neg r.0 ≡ true) × (is_zero r.0 ≡ false))

  neg-nonzero : (err : ℤ) → is_neg err ≡ true → is_zero err ≡ false
  neg-nonzero (pos n) e = absurd (cc e)
  neg-nonzero (negsuc n) e = refl

  error : (r : ℤ × State S) → is_neg r.0 ≡ true → Settled r
  error r e = inr (e, neg-nonzero r.0 e)

  attach-Settled :
      (fd : ℤ) (err : ℤ) (base : Option ℕ) (s : State S)
      → is_neg fd ≡ false
      → (err ≡ pos 0) ⊎ (is_neg err ≡ true)
      → Settled (attach sys fd err base s)
  unfolding attach
  attach-Settled fd err none s f c =
      let n = neg-is_neg (sys.errno s.calls) (errno s.calls) in
      inr (n, neg-nonzero (last_error sys s) n)
  attach-Settled fd err (some base) s f (inl z) = inl (z, f)
  attach-Settled fd err (some base) s f (inr z) = inr (z, neg-nonzero err z)

  init_pmem_area_locked-Settled :
      (s : State S) → SizeOrError sys → Settled (init_pmem_area_locked sys h u s)
  unfolding init_pmem_area_locked map_master
  init_pmem_area_locked-Settled s size =
      let fd = sys.answer s.calls (open_device u.o_rdwr) in
      let s1 : State S = (ask sys (open_device u.o_rdwr) s).1 in
      elim (Bool-cases (is_neg fd)) [
        | inl n ↦ rw n (error (last_error sys s1, s1) (neg-is_neg _ (errno _)))
        | inr n ↦ rw n (attach-Settled fd _ _ _ n (size s1.calls fd))
      ]

  zero-Settled :
      (r : ℤ × State S)
      → Settled r
      → is_zero r.0 ≡ true
      → (r.0 ≡ pos 0) × (is_neg r.1.master_fd ≡ false)
  zero-Settled r (inl p) z = p
  zero-Settled r (inr (n, f)) z = absurd (cc (f, z))

  error-Settled : (r : ℤ × State S) → Settled r → is_zero r.0 ≡ false → is_neg r.0 ≡ true
  error-Settled r (inl (p, f)) z = absurd (cc (p, z))
  error-Settled r (inr (n, f)) z = n

  init_failed :
      (s : State S)
      → is_init s.master_fd ≡ false
      → is_neg s.master_fd ≡ true
      → init_pmem_area sys h u s ≡ (s.master_fd, s)
  unfolding init_pmem_area
  init_failed s a b = rw (a, b) refl

  init_first :
      (s : State S)
      → is_init s.master_fd ≡ true
      → let r = init_pmem_area_locked sys h u s in
        init_pmem_area sys h u s
        ≡ (if is_zero r.0 then r else (r.0, record r.1 { master_fd = r.0 }))
  unfolding init_pmem_area
  init_first s a = rw a refl

  unless :
      (x y : ℤ × State S) (b : Bool)
      → is_zero x.0 ≡ b
      → (if is_zero x.0 then x else y) ≡ (if b then x else y)
  unless x y b e = rw e refl

  repeat :
      (s : State S) (r : ℤ × State S)
      → init_pmem_area sys h u s ≡ r
      → init_pmem_area sys h u r.1 ≡ r
      → init_pmem_area sys h u (init_pmem_area sys h u s).1 ≡ init_pmem_area sys h u s
  repeat s r e k = rw e k

  -- The region is set up at most once: whatever the first call of init_pmem_area returned, the
  -- second returns the same, makes no call and changes nothing. The error, if any, is not the -1
  -- that stands for a region never set up; the system's error numbers are positive, and the call
  -- for the size gives 0 or an error.
  pub init_pmem_area-once :
      (s : State S)
      → SizeOrError sys
      → is_init (init_pmem_area sys h u s).1.master_fd ≡ false
      → init_pmem_area sys h u (init_pmem_area sys h u s).1 ≡ init_pmem_area sys h u s
  init_pmem_area-once s size i =
      let r = init_pmem_area_locked sys h u s in
      let failed : State S = record r.1 { master_fd = r.0 } in
      let settled = init_pmem_area_locked-Settled s size in
      elim (Bool-cases (is_init s.master_fd)) [
        | inl a ↦ elim (Bool-cases (is_zero r.0)) [
          | inl z ↦
              let (p, f) = zero-Settled r settled z in
              let e = init_first s a ∙ unless r (r.0, failed) true z in
              repeat s r e
                (init_pmem_area_ready sys h u r.1 (rw e at i) f ∙ ap (λ err. (err, r.1)) (sym p))
          | inr z ↦
              let e = init_first s a ∙ unless r (r.0, failed) false z in
              repeat s (r.0, failed) e (init_failed failed (rw e at i) (error-Settled r settled z))
        ]
        | inr a ↦ elim (Bool-cases (is_neg s.master_fd)) [
          | inl n ↦ repeat s (s.master_fd, s) (init_failed s a n) (init_failed s a n)
          | inr n ↦ let e = init_pmem_area_ready sys h u s a n in repeat s (pos 0, s) e e
        ]
      ]

  -- Where the size of the device cannot be asked but the region can be mapped, the error for the
  -- size is returned and takes the place of the descriptor, although the region was mapped and the
  -- heap set to 8 MiB.
  pub init_pmem_area-limp :
      (s : State S) (base : ℕ)
      → is_init s.master_fd ≡ true
      → let s1 = (ask sys (open_device u.o_rdwr) s).1 in
        let fd = sys.answer s.calls (open_device u.o_rdwr) in
        let err = sys.answer s1.calls (get_total_size fd) in
        is_neg fd ≡ false
        → is_neg err ≡ true
        → sys.mapped (get_total_size fd ∷ s1.calls) ≡ some base
        → let r = init_pmem_area sys h u s in
          (r.0 ≡ err)
          × (r.1.master_fd ≡ err)
          × (r.1.master_base ≡ base)
          × (r.1.heap ≡ (h.set_size 8388608 s.heap).1)
  unfolding init_pmem_area init_pmem_area_locked map_master attach
  init_pmem_area-limp s base a f n m = rw (a, f, n, m, neg-nonzero _ n) (refl, refl, refl, refl)
