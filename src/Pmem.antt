-- ===== src/Pmem.antt =====
-- libgralloc-qsd8k/pmemalloc.cpp: `PmemUserspaceAllocator`, which shares one mapped region out by
-- a heap. The heap is the interface `Deps::Allocator`; the system's answers are a function of the
-- calls made before, newest first. The caller holds the mutex over each operation.
mod Tests
pub mod Failure
pub mod Region
pub mod Cycle
pub mod Kernel
pub mod Descriptors
use hardware_msm7k.Prelude.Words.{not32, add32}
use hardware_msm7k.Prelude.Int.{ℤ, pos, negsuc, neg, is_neg, is_zero, magnitude}
use hardware_msm7k.Prelude.{
  ℕ, ◌+◌, Bool, true, false, ◌||◌, bit_and, bit_or, ◌==◌, if◌then◌else◌, Option, none, some, List,
  [], ◌∷◌,
}
use hardware_msm7k.Errno.{Errno}

-- The methods of `Deps::Allocator` that the code calls.
pub record HeapOps (S : Type 0) : Type 0 where
  pub set_size : ℕ → S → ℤ × S
  pub allocate : ℕ → S → ℤ × S
  pub deallocate : ℕ → S → ℤ × S

-- The calls of `Deps` that reach the system.
pub data Call : Type 0 where
  open_device : (flags : ℕ) → Call
  get_total_size : (fd : ℤ) → Call
  map_memory : (size : ℕ) (fd : ℤ) → Call
  close_file : (fd : ℤ) → Call
  connect_pmem : (fd master_fd : ℤ) → Call
  map_pmem : (fd : ℤ) (offset size : ℕ) → Call
  clean_pmem : (fd : ℤ) (vaddr offset size : ℕ) → Call
  unmap_pmem : (fd : ℤ) (offset size : ℕ) → Call

-- What the system answers to a call after those before it: the result, the size that
-- `getPmemTotalSize` writes, the address of `mmap` or none for MAP_FAILED, and `getErrno` after
-- the calls so far.
pub record System : Type 0 where
  pub answer : List Call → Call → ℤ
  pub total_size : List Call → ℕ
  pub mapped : List Call → Option ℕ
  pub errno : List Call → ℕ

-- The constants of `fcntl.h` and `gralloc.h` that `get_open_flags` uses.
pub record UsageBits : Type 0 where
  pub o_rdwr : ℕ
  pub o_sync : ℕ
  pub sw_read_mask : ℕ
  pub sw_write_mask : ℕ
  pub sw_read_often : ℕ
  pub sw_write_often : ℕ

-- The object's state, and the calls that were made.
pub record State (S : Type 0) : Type 0 where
  pub master_fd : ℤ
  pub master_base : ℕ
  pub heap : S
  pub calls : List Call

-- `*pBase`, `*pOffset` and `*pFd`
pub record Buffer : Type 0 where
  pub base : ℕ
  pub offset : ℕ
  pub fd : ℤ

-- `get_open_flags`
unfoldable pub get_open_flags : UsageBits → ℕ → ℕ
get_open_flags u usage =
    let open_flags = bit_or u.o_rdwr u.o_sync in
    if (bit_and usage u.sw_read_mask == u.sw_read_often)
      || (bit_and usage u.sw_write_mask == u.sw_write_often)
    then bit_and open_flags (not32 u.o_sync)
    else open_flags

-- `MASTER_FD_INIT`
abbrev pub is_init : ℤ → Bool
is_init (negsuc n) = n == 0
is_init (pos n) = false

module _ {S : Type 0} (sys : System) where
  -- A call, with its result.
  abbrev pub ask : Call → State S → ℤ × State S
  ask c s = (sys.answer s.calls c, record s { calls = c ∷ s.calls })

  -- `-deps.getErrno()`
  abbrev pub last_error : State S → ℤ
  last_error s = neg (sys.errno s.calls)

  -- What `init_pmem_area_locked` does with the address that `mmap` gave.
  unfoldable pub attach : (fd : ℤ) → (err : ℤ) → Option ℕ → State S → ℤ × State S
  attach fd err none s = (last_error s, (ask (close_file fd) s).1)
  attach fd err (some base) s = (err, record s { master_fd = fd; master_base = base })

  -- The rest of `init_pmem_area_locked`, with the size of the device and `err` so far.
  unfoldable pub map_master : HeapOps S → (fd : ℤ) → (size : ℕ) → (err : ℤ) → State S → ℤ × State S
  unfolding attach
  map_master h fd size err s0 =
      let s1 = record s0 { heap = (h.set_size size s0.heap).1 } in
      let s2 = (ask (map_memory size fd) s1).1 in attach fd err (sys.mapped s1.calls) s2

  -- `init_pmem_area_locked`
  unfoldable pub init_pmem_area_locked : HeapOps S → UsageBits → State S → ℤ × State S
  unfolding map_master
  init_pmem_area_locked h u s =
      let (fd, s1) = ask (open_device u.o_rdwr) s in
      let size = sys.total_size s1.calls in
      let (err, s2) = ask (get_total_size fd) s1 in
      if is_neg fd
      then (last_error s1, s1)
      else map_master h fd (if is_neg err then 8388608 else size) err s2

  -- `init_pmem_area`
  unfoldable pub init_pmem_area : HeapOps S → UsageBits → State S → ℤ × State S
  unfolding init_pmem_area_locked
  init_pmem_area h u s =
      let (err, s1) = init_pmem_area_locked h u s in
      if is_init s.master_fd
      then if is_zero err then (err, s1) else (err, record s1 { master_fd = err })
      else if is_neg s.master_fd
      then (s.master_fd, s)
      else (pos 0, s)

  -- The sub-heap of `alloc_pmem_buffer`: `err` once the file has been opened, connected and mapped.
  unfoldable pub make_sub_heap : (fd : ℤ) → (offset size : ℕ) → State S → ℤ × State S
  make_sub_heap fd offset size s =
      let (connected, s1) = ask (connect_pmem fd s.master_fd) s in
      let (mapped, s2) = ask (map_pmem fd offset size) s1 in
      if is_neg fd then (fd, s) else if is_zero connected then (mapped, s2) else (connected, s1)

  -- `alloc_pmem_buffer` once the heap has given an offset.
  unfoldable pub hand_out :
      HeapOps S → (open_flags size offset : ℕ) → State S → ℤ × Option Buffer × State S
  unfolding make_sub_heap
  hand_out h open_flags size offset s =
      let (fd, s1) = ask (open_device open_flags) s in
      let (err, s2) = make_sub_heap fd offset size s1 in
      let closed = (ask (close_file fd) s2).1 in
      let (cleaned, s3) = ask (clean_pmem fd (add32 s.master_base offset) offset size) s2 in
      if is_neg err
      then (last_error s2, none, record closed { heap = (h.deallocate offset closed.heap).1 })
      else (cleaned, some (record { base = s.master_base; offset = offset; fd = fd }), s3)

  -- `alloc_pmem_buffer` once the region is there.
  unfoldable pub allocate_from :
      Errno → HeapOps S → UsageBits → (size usage : ℕ) → State S → ℤ × Option Buffer × State S
  unfolding hand_out get_open_flags
  allocate_from e h u size usage s =
      let (offset, heap) = h.allocate size s.heap in
      let s1 = record s { heap = heap } in
      if is_neg offset
      then (neg e.enomem, none, s1)
      else hand_out h (get_open_flags u usage) size (magnitude offset) s1

  -- `alloc_pmem_buffer`: the result, what is stored through the pointers, if anything, and the
  -- state.
  unfoldable pub alloc_pmem_buffer :
      Errno → HeapOps S → UsageBits → (size usage : ℕ) → State S → ℤ × Option Buffer × State S
  unfolding init_pmem_area allocate_from
  alloc_pmem_buffer e h u size usage s =
      let (err, s1) = init_pmem_area h u s in
      if is_zero err then allocate_from e h u size usage s1 else (err, none, s1)

  -- `free_pmem_buffer`: its inner `err` hides the one that it returns.
  unfoldable pub free_pmem_buffer : HeapOps S → (size : ℕ) → Buffer → State S → ℤ × State S
  free_pmem_buffer h size b s =
      let (err, s1) = ask (unmap_pmem b.fd b.offset size) s in
      if is_neg b.fd
      then (pos 0, s)
      else if is_zero err
      then (pos 0, record s1 { heap = (h.deallocate b.offset s1.heap).1 })
      else (pos 0, s1)
