-- ===== src/Pmem/Cycle.antt =====
-- `free_pmem_buffer` after `alloc_pmem_buffer`, over the best-fit heap.
use mathlib.Core.Path.{subst}
use hardware_msm7k.Prelude.Int.{ℤ, pos, is_neg, is_zero}
use hardware_msm7k.Prelude.{
  ℕ, ◌+◌, ◌^◌, ◌<◌, ◌≡◌, inl, inr, refl, ap, false, if◌then◌else◌, Option, some, Bool-cases,
}
use hardware_msm7k.Errno.{Errno}
use hardware_msm7k.Allocator.{Allocator, deallocate}
use hardware_msm7k.Allocator.Layout.{Inv}
use hardware_msm7k.Allocator.Page.{IsPageSize}
use hardware_msm7k.Pmem.{
  System, UsageBits, State, Buffer, unmap_pmem, alloc_pmem_buffer, free_pmem_buffer,
}
use hardware_msm7k.Pmem.Failure.{best_fit, HasErrno, Allocated, alloc_pmem_buffer-Allocated}

module _ (sys : System) (e : Errno) (page : ℕ) where
  -- Freeing the buffer `b` in the state `after`, where the heap was `old` before `b` was taken.
  abbrev pub Freed : (size : ℕ) → Allocator → Buffer → State Allocator → Type 0
  Freed size old b after =
      let f = free_pmem_buffer sys (best_fit e page) size b after in
      let unmapped = is_zero (sys.answer after.calls (unmap_pmem b.fd b.offset size)) in
      (f.0 ≡ pos 0) × (f.1.heap ≡ (if unmapped then old else after.heap))

  free_pmem_buffer-Freed :
      (size : ℕ) (old : Allocator) (b : Buffer) (after : State Allocator)
      → is_neg b.fd ≡ false
      → deallocate e b.offset after.heap ≡ (pos 0, old)
      → Freed size old b after
  unfolding free_pmem_buffer
  free_pmem_buffer-Freed size old b after n d =
      elim (Bool-cases (is_zero (sys.answer after.calls (unmap_pmem b.fd b.offset size)))) [
        | inl z ↦ rw (n, z) (refl, ap (λ t. t.1) d)
        | inr z ↦ rw (n, z) (refl, refl)
      ]

  some_inj : (x y : Buffer) → some x ≡ some y → x ≡ y
  some_inj x y q = cc q

  Freed-of_Allocated :
      (size : ℕ) (s : State Allocator) (r : ℤ × Option Buffer × State Allocator) (b : Buffer)
      → Allocated e s r
      → r.1 ≡ some b
      → Freed size s.heap b r.2
  Freed-of_Allocated size s r b (inl (p, n, h)) q = absurd (cc (p, q))
  Freed-of_Allocated size s r b (inr (b', p, m, n, d)) q =
      subst (λ x. Freed size s.heap x r.2) (some_inj b' b (cc (p, q)))
        (free_pmem_buffer-Freed size s.heap b' r.2 n d)

  -- Over a valid best-fit heap whose region is mapped, freeing a buffer that an allocation of a
  -- positive size that does not wrap gave returns 0; it makes the heap what it was before the
  -- allocation where the sub-heap was unmapped with the result 0, and otherwise leaves the heap as
  -- the allocation left it. The system's error numbers are positive.
  pub free_pmem_buffer-alloc_pmem_buffer :
      (u : UsageBits) (size usage fd : ℕ) (s : State Allocator) (b : Buffer)
      → HasErrno sys
      → s.master_fd ≡ pos fd
      → IsPageSize page
      → Inv s.heap
      → 0 < size
      → size + 31 < 2 ^ 32
      → let r = alloc_pmem_buffer sys e (best_fit e page) u size usage s in
        r.1 ≡ some b → Freed size s.heap b r.2
  free_pmem_buffer-alloc_pmem_buffer u size usage fd s b errno m p v h0 h1 q =
      Freed-of_Allocated size s (alloc_pmem_buffer sys e (best_fit e page) u size usage s) b
        (alloc_pmem_buffer-Allocated sys e page errno u size usage fd s m p v h0 h1) q
