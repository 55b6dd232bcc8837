-- ===== src/Pmem/Tests.antt =====
-- The pmem allocators on a system where everything works, or the sub-heap cannot be mapped, and
-- their theorems there.
use hardware_msm7k.Prelude.Int.{ℤ, pos, negsuc}
use hardware_msm7k.Prelude.{◌≡◌, inl, refl, none, some, [], arith}
use hardware_msm7k.Errno.{Errno}
use hardware_msm7k.Allocator.{Allocator, empty, set_size, allocate}
use hardware_msm7k.Allocator.Page.{IsPageSize}
use hardware_msm7k.Allocator.History.{set_size-Inv}
use hardware_msm7k.Pmem.{
  System, UsageBits, State, Buffer, Call, open_device, get_total_size, get_open_flags,
  make_sub_heap, hand_out, allocate_from, init_pmem_area, init_pmem_area_locked, map_master, attach,
  alloc_pmem_buffer,
}
use hardware_msm7k.Pmem.Failure.{best_fit, HasErrno, Allocated, alloc_pmem_buffer-Allocated}
use hardware_msm7k.Pmem.Region.{SizeOrError}
use hardware_msm7k.Pmem.Cycle.{Freed, free_pmem_buffer-alloc_pmem_buffer}
use hardware_msm7k.Pmem.Kernel.{Kernel, PmemUsage, kernel_alloc}
use hardware_msm7k.Pmem.Descriptors.{HeldBy, kernel_alloc-HeldBy}

abbrev linux : Errno
linux = record {
  einval = 22;
  enomem = 12;
  enoent = 2;
  einval_pos = omega arith;
  enomem_pos = omega arith;
  enoent_pos = omega arith;
}

page_4096 : IsPageSize 4096
page_4096 = record { exponent = 7; rest = 20; power = refl; in_word = refl }

abbrev usage_bits : UsageBits
usage_bits = record {
  o_rdwr = 2;
  o_sync = 4096;
  sw_read_mask = 15;
  sw_write_mask = 240;
  sw_read_often = 3;
  sw_write_often = 48;
}

abbrev open_answer : Call → ℤ
open_answer (open_device flags) = pos 5
open_answer _ = pos 0

-- The device works and has 64 KiB.
abbrev working : System
working = record {
  answer = λ calls c. open_answer c;
  total_size = λ calls. 65536;
  mapped = λ calls. some 0x4000_0000;
  errno = λ calls. 12;
}

abbrev no_size_answer : Call → ℤ
no_size_answer (open_device flags) = pos 5
no_size_answer (get_total_size fd) = negsuc 21
no_size_answer _ = pos 0

-- The size of the device cannot be asked.
abbrev no_size : System
no_size = record working { answer = λ calls c. no_size_answer c }

working_errno : HasErrno working
working_errno = λ calls. omega arith

abbrev fresh : State Allocator
fresh = record { master_fd = negsuc 0; master_base = 0; heap = empty; calls = [] }

abbrev ready : State Allocator
ready = record {
  master_fd = pos 5;
  master_base = 0x4000_0000;
  heap = (set_size linux 4096 65536 empty).1;
  calls = [];
}

alloc_pmem_buffer-Allocated_example :
    Allocated linux ready
      (alloc_pmem_buffer working linux (best_fit linux 4096) usage_bits 5000 0 ready)
alloc_pmem_buffer-Allocated_example =
    alloc_pmem_buffer-Allocated working linux 4096 working_errno usage_bits 5000 0 5 ready refl
      page_4096 (set_size-Inv 4096 65536 linux page_4096 (omega arith) (omega arith)).1
      (omega arith) (omega arith)

abbrev first_buffer : Buffer
first_buffer = record { base = 0x4000_0000; offset = 0; fd = pos 5 }

first_allocation :
    (alloc_pmem_buffer working linux (best_fit linux 4096) usage_bits 5000 0 ready).1
    ≡ some first_buffer
unfolding alloc_pmem_buffer init_pmem_area init_pmem_area_locked map_master attach allocate_from
    hand_out make_sub_heap get_open_flags set_size allocate
first_allocation = refl

free_pmem_buffer-alloc_pmem_buffer_example :
    Freed working linux 4096 5000 ready.heap first_buffer
      (alloc_pmem_buffer working linux (best_fit linux 4096) usage_bits 5000 0 ready).2
free_pmem_buffer-alloc_pmem_buffer_example =
    free_pmem_buffer-alloc_pmem_buffer working linux 4096 usage_bits 5000 0 5 ready first_buffer
      working_errno refl page_4096
      (set_size-Inv 4096 65536 linux page_4096 (omega arith) (omega arith)).1 (omega arith)
      (omega arith) first_allocation

working_sizes : SizeOrError working
working_sizes calls fd = inl refl

abbrev kernel : Kernel
kernel = record { answer = λ calls c. pos 7; mapped = λ calls. none; errno = λ calls. 12 }

abbrev usages : PmemUsage
usages = record { private_adsp = 1; private_smipool = 2; external_disp = 4; protected = 8 }

kernel_alloc-HeldBy_example :
    HeldBy kernel [] (kernel_alloc kernel linux usage_bits usages 8192 8 264 [])
kernel_alloc-HeldBy_example =
    kernel_alloc-HeldBy kernel (λ calls. omega arith) linux usage_bits usages 8192 8 264 []
