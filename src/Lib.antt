-- ===== src/Lib.antt =====
-- The hardware abstraction libraries of the msm7k and qsd8k platforms: a model of the parts that
-- decide, and theorems about them.
--
-- The parts and their files:
-- - Allocator.antt: `SimpleBestFitAllocator` of libgralloc/allocator.h and allocator.cpp (copied in
--   libgralloc-qsd8k), which shares a region out in units of 32 bytes. A state is the list of its
--   chunks in order, with the heap's size; `set_size`, `allocate`, `deallocate`, `alloc` and `dealloc`
--   are the methods. Below it, Layout has the invariant, Search, Carve and Alloc the search and the
--   split, Merge, Neighbours, Dealloc, Release and AnyOffset the release, Grant, Undo and History what
--   a client sees, and Assertions the release with the fatal assertions of `dealloc` compiled in,
--   which `deallocate` leaves out.
-- - Pmem.antt: `PmemUserspaceAllocator` of libgralloc-qsd8k/pmemalloc.cpp, over the heap interface
--   `HeapOps`, which Pmem/Failure.antt fills with the best-fit allocator; Pmem/Kernel.antt:
--   `PmemKernelAllocator`. A state has the descriptor and the address of the region, the heap and the
--   calls made. Region is about setting up, Failure and Cycle about taking and giving back,
--   Descriptors about the descriptors of the kernel allocator.
-- - Handle.antt: `private_handle_t` of libgralloc-qsd8k/gralloc_priv.h, the handle that the mapper and
--   the device share.
-- - Mapper.antt: libgralloc-qsd8k/mapper.cpp, `gralloc_map` to `gralloc_unlock` as whole calls. A
--   state is the handle; the words that a compare-and-swap saw and lost to another thread are a list
--   that the call is given. Mapper/Threads.antt has the loops of `gralloc_lock` and `gralloc_unlock`
--   again as a step relation of threads over the lock word and its owner. A step is one access of the
--   shared handle, but for the start of an unlock, which reads the word and the owner and clears the
--   owner in one step (only the thread that locked for writing is the owner), and the test of the
--   mapped bit, which goes with its atomic or under the map lock. Word has the abstract lock, Rounds,
--   Invariant, Moves and Exclusion the threads, and Calls the calls.
-- - Gpu.antt: libgralloc-qsd8k/gpu.cpp, over the two pmem allocators as the interface `PmemOps`.
--   Gpu/Buffers.antt: `gralloc_alloc_buffer` and `gralloc_alloc_framebuffer`; Gpu/Format.antt: the
--   formats and the sizes; Gpu/Device.antt: `alloc_impl` and `free_impl`, which calls the mapper's
--   `terminateBuffer`. `mapFrameBufferLocked`, which the code calls through an interface, is a
--   parameter here. A state has the screen, the two allocators and the calls made. Slots and
--   Framebuffer are about the framebuffer, Rounding and Extent about sizes, and Resources and Ashmem
--   about what ashmem buffers hold.
-- - Framebuffer.antt: `mapFrameBufferLocked`, `fb_setSwapInterval` and `fb_setUpdateRect` of
--   libgralloc-qsd8k/framebuffer.cpp; Framebuffer/Mapping.antt is about the mapping, which leaves a
--   screen that Gpu can allocate on.
-- - Lights.antt and Lights/Device.antt: liblights/lights.c. A state is the global variables and the
--   writes, newest first. Kept and Fixed have what the functions leave alone, Brightness the
--   brightness, Shown and Priority what the lamp shows.
-- - Copybit.antt: the rectangles and images of libcopybit/copybit.cpp; Copybit/Stretch.antt:
--   `set_rects`, `msm_copybit`, `stretch_copybit` and `blit_copybit`; Copybit/Settings.antt:
--   `set_parameter_copybit`, `get` and `open_copybit`. Batches, Clip, Scale, Beside and Control hold
--   the theorems.
-- - AudioPolicy.antt: `getDeviceForStrategy` and `computeVolume` of
--   libaudio-qsd8k/AudioPolicyManager.cpp, with Routing, Priority, Media and Volume below it.
-- - Rpc.antt: librpc, the calls of the other processor. Rpc.antt has the handle `XDR` and the outcome
--   of its routines; Rpc/Stream.antt the operations of librpc/svc_clnt_common.c; Rpc/Scalars.antt and
--   Rpc/Compound.antt the routines of librpc/xdr.c; Rpc/Message.antt the headers of librpc/rpc.c and
--   librpc/clnt.c; Rpc/Server.antt and Rpc/Dispatch.antt librpc/svc.c; Rpc/Client.antt and
--   Rpc/Receiver.antt `clnt_call`, the receiving thread's handling of a client and the list of clients
--   of librpc/clnt.c; Rpc/Callback.antt a round of its callback thread; Rpc/Ops.antt the wait in
--   `r_open` of librpc/ops.c. Memory and Codec tie routines to bytes, Exchange follows a message from
--   one side to the other, Bounds is about lengths that wrap, and Registry and Clients are about the
--   two lists. A buffer is a list, a null pointer is none, and an access outside of memory is the
--   outcome `undefined`. What the routine of an element does at a target outside of the memory, which
--   may be to fail before it touches that, is a parameter of the routines for arrays and pointers;
--   Rpc/Scalars.antt has it for `xdr_u_int`.
-- - Prelude.antt and Errno.antt: Boolean tests, lists, integers, bit operations, 32-bit words and
--   error numbers, which all parts share.
--
-- Numbers: a word of 32 bits is a number with its wrap-around written out; an `int` that the code
-- compares with 0 or returns is an integer, and an `int` of a rectangle, of an image or of a light is
-- its 32-bit pattern. A division by 0, in the blitter or on the framebuffer, is the result none.
--
-- What stands outside the repository is a parameter: the constants of the platform's headers, the
-- system's answers, the display driver, the volumes and the base class of the audio policy. The system
-- and the driver are functions of the calls made before, so they may answer anything; where a theorem
-- needs that error numbers are positive, that a call gives 0 or an error, or that mmap gives no
-- address 0, it says so. What is asked while the framebuffer is mapped has one answer a call.
--
-- No definition uses fuel: the loops are recursions on the list of chunks, on the list of the
-- rectangles of a region, on the slots of the framebuffer, on the elements of an array, on the sleeps
-- that are left, and on the words that a compare-and-swap lost to. The threads of the lock word are
-- fewer than 2 ^ 30 - 1, which is as many as its count holds.
--
-- Not modelled: threads, apart from the lock word (a mutex is held over each other operation that is
-- modelled), the contents of memory, logging, and the parts of the repository that the list above does
-- not name: the posting of framebuffers, the gralloc of msm7k, the audio and camera hardware and the
-- daemons, and, of the RPC library, the waits and the loops over poll and select, the reset callbacks
-- and the opening and closing of devices.
pub mod Prelude
pub mod Errno
pub mod Handle
pub mod Allocator
pub mod Pmem
pub mod Mapper
pub mod AudioPolicy
pub mod Copybit
pub mod Gpu
pub mod Lights
pub mod Framebuffer
pub mod Rpc
