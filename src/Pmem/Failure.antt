-- ===== src/Pmem/Failure.antt =====
-- `alloc_pmem_buffer` over the best-fit heap: what a failure leaves, and what a buffer is.
use hardware_msm7k.Prelude.Int.{ℤ, pos, neg-is_neg, is_neg, is_zero, magnitude}
use hardware_msm7k.Prelude.{
  ℕ, ◌+◌, ◌^◌, ◌<◌, ◌≡◌, ◌⊎◌, inl, inr, refl, ap, ◌∙◌, true, false, Option, none, some, List,
  Bool-cases,
}
use hardware_msm7k.Errno.{Errno}
use hardware_msm7k.Allocator.{Allocator, set_size, allocate, deallocate}
use hardware_msm7k.Allocator.Layout.{Inv}
use hardware_msm7k.Allocator.Page.{IsPageSize}
use hardware_msm7k.Allocator.Undo.{deallocate-allocate}
use hardware_msm7k.Pmem.{
  HeapOps, System, UsageBits, State, Buffer, get_open_flags, make_sub_heap, hand_out, allocate_from,
  init_pmem_area, alloc_pmem_buffer, ask, Call, open_device, connect_pmem, is_init,
}

-- The best-fit allocator as the heap.
abbrev pub best_fit : Errno → ℕ → HeapOps Allocator
best_fit e page = record {
  set_size = set_size e page;
  allocate = allocate e page;
  deallocate = deallocate e;
}

-- The system's error numbers are positive.
abbrev pub HasErrno : System → Type 0
HasErrno sys = (calls : List Call) → 0 < sys.errno calls

module _ {S : Type 0} (sys : System) where
  make_sub_heap-heap :
      (fd : ℤ) (offset size : ℕ) (s : State S)
      → (make_sub_heap sys fd offset size s).1.heap ≡ s.heap
  unfolding make_sub_heap
  make_sub_heap-heap fd offset size s = elim (Bool-cases (is_neg fd)) [
    | inl a ↦ rw a refl
    | inr a ↦ elim (Bool-cases (is_zero (sys.answer s.calls (connect_pmem fd s.master_fd)))) [
      | inl b ↦ rw (a, b) refl
      | inr b ↦ rw (a, b) refl
    ]
  ]

  -- An open that failed makes the sub-heap fail.
  make_sub_heap-fd :
      (fd : ℤ) (offset size : ℕ) (s : State S)
      → is_neg (make_sub_heap sys fd offset size s).0 ≡ false
      → is_neg fd ≡ false
  unfolding make_sub_heap
  make_sub_heap-fd fd offset size s h = elim (Bool-cases (is_neg fd)) [
    | inl a ↦ rw a at h
    | inr a ↦ a
  ]

  -- A region that is mapped is not mapped again.
  pub init_pmem_area_ready :
      (h : HeapOps S) (u : UsageBits) (s : State S)
      → is_init s.master_fd ≡ false
      → is_neg s.master_fd ≡ false
      → init_pmem_area sys h u s ≡ (pos 0, s)
  unfolding init_pmem_area
  init_pmem_area_ready h u s a b = rw (a, b) refl

  hand_out-cases :
      (h : HeapOps S) (open_flags size offset : ℕ) (s : State S)
      → HasErrno sys
      → let r = hand_out sys h open_flags size offset s in
        ((r.1 ≡ none) × (is_neg r.0 ≡ true) × (r.2.heap ≡ (h.deallocate offset s.heap).1))
        ⊎ ((b : Buffer) × (r.1 ≡ some b)
            × (b.offset ≡ offset)
            × (b.base ≡ s.master_base)
            × (is_neg b.fd ≡ false)
            × (r.2.heap ≡ s.heap))
  unfolding hand_out
  hand_out-cases h open_flags size offset s errno =
      let fd = sys.answer s.calls (open_device open_flags) in
      let s1 = (ask sys (open_device open_flags) s).1 in
      elim (Bool-cases (is_neg (make_sub_heap sys fd offset size s1).0)) [
        | inl a ↦ inl (
            rw a (
              refl,
              neg-is_neg _ (errno _),
              ap (λ t. (h.deallocate offset t).1) (make_sub_heap-heap fd offset size s1),
            ))
        | inr a ↦ inr (
          record { base = s.master_base; offset = offset; fd = fd },
          rw a refl,
          refl,
          refl,
          make_sub_heap-fd fd offset size s1 a,
          rw a (make_sub_heap-heap fd offset size s1),
        )
      ]

-- The result `r` of an allocation in the state `s`: an error, with nothing stored and the heap as it
-- was, or a buffer whose offset, given back to the heap, makes it what it was.
abbrev pub Allocated : Errno → State Allocator → ℤ × Option Buffer × State Allocator → Type 0
Allocated e s r =
    ((r.1 ≡ none) × (is_neg r.0 ≡ true) × (r.2.heap ≡ s.heap))
    ⊎ ((b : Buffer) × (r.1 ≡ some b)
        × (b.base ≡ s.master_base)
        × (is_neg b.fd ≡ false)
        × (deallocate e b.offset r.2.heap ≡ (pos 0, s.heap)))

module _ (sys : System) (e : Errno) (page : ℕ) (errno : HasErrno sys) where
  hand_out-Allocated :
      (open_flags size offset : ℕ) (s s1 : State Allocator)
      → s1.master_base ≡ s.master_base
      → deallocate e offset s1.heap ≡ (pos 0, s.heap)
      → Allocated e s (hand_out sys (best_fit e page) open_flags size offset s1)
  hand_out-Allocated open_flags size offset s s1 m d =
      elim (hand_out-cases sys (best_fit e page) open_flags size offset s1 errno) [
        | inl (p, n, h) ↦ inl (p, n, h ∙ ap (λ t. t.1) d)
        | inr (b, p, o, m', f, h) ↦ inr (b, p, m' ∙ m, f, rw (o, h) d)
      ]

  allocate_from-Allocated :
      (u : UsageBits) (size usage : ℕ) (s : State Allocator)
      → IsPageSize page
      → Inv s.heap
      → 0 < size
      → size + 31 < 2 ^ 32
      → Allocated e s (allocate_from sys e (best_fit e page) u size usage s)
  unfolding allocate_from
  allocate_from-Allocated u size usage s p v h0 h1 =
      elim (deallocate-allocate page size e s.heap p v h0 h1) [
        | inl f ↦
            rw (f, neg-is_neg e.enomem e.enomem_pos)
              (inl (refl, neg-is_neg e.enomem e.enomem_pos, refl))
        | inr (n, d) ↦ rw n (
            hand_out-Allocated (get_open_flags u usage) size
              (magnitude (allocate e page size s.heap).0) s
              (record s { heap = (allocate e page size s.heap).1 }) refl d)
      ]

  -- Over a valid best-fit heap whose region is mapped, an allocation of a positive size that does
  -- not wrap returns an error, stores nothing and leaves the heap as it was, also where the
  -- sub-heap could not be opened, connected or mapped; or it stores a buffer with the region's
  -- base and an open descriptor, whose offset, given back to the heap, makes it what it was. The
  -- system's error numbers are positive.
  pub alloc_pmem_buffer-Allocated :
      (u : UsageBits) (size usage fd : ℕ) (s : State Allocator)
      → s.master_fd ≡ pos fd
      → IsPageSize page
      → Inv s.heap
      → 0 < size
      → size + 31 < 2 ^ 32
      → Allocated e s (alloc_pmem_buffer sys e (best_fit e page) u size usage s)
  unfolding alloc_pmem_buffer
  alloc_pmem_buffer-Allocated u size usage fd s m p v h0 h1 =
      rw (init_pmem_area_ready sys (best_fit e page) u s (ap is_init m) (ap is_neg m))
        (allocate_from-Allocated u size usage s p v h0 h1)
