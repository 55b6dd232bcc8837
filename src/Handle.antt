-- ===== src/Handle.antt =====
-- `private_handle_t` of libgralloc-qsd8k/gralloc_priv.h: the handle of a buffer, and its flags. The
-- size of the header `native_handle` and the process are parameters.
use hardware_msm7k.Prelude.{ℕ, ◌-◌, ◌^◌, Bool, not, ◌||◌, ◌==◌, if◌then◌else◌, Option, none, some}
use hardware_msm7k.Prelude.Int.{ℤ, pos, neg}
use hardware_msm7k.Errno.{Errno}

pub record PrivateHandle : Type 0 where
  pub version : ℕ
  pub num_fds : ℕ
  pub num_ints : ℕ
  pub fd : ℤ
  pub magic : ℕ
  pub flags : ℕ
  pub size : ℕ
  pub offset : ℕ
  pub buffer_type : ℕ
  pub base : ℕ
  pub lock_state : ℕ
  pub write_owner : ℕ
  pub gpuaddr : ℕ
  pub pid : ℕ
  pub format : ℕ
  pub width : ℕ
  pub height : ℕ

-- `PRIV_FLAGS_*`
abbrev pub flags_framebuffer : ℕ
flags_framebuffer = 0x01

abbrev pub flags_uses_pmem : ℕ
flags_uses_pmem = 0x02

abbrev pub flags_uses_pmem_adsp : ℕ
flags_uses_pmem_adsp = 0x04

abbrev pub flags_needs_flush : ℕ
flags_needs_flush = 0x08

abbrev pub flags_uses_ashmem : ℕ
flags_uses_ashmem = 0x10

-- `LOCK_STATE_*`
abbrev pub lock_state_write : ℕ
lock_state_write = 2 ^ 31

abbrev pub lock_state_mapped : ℕ
lock_state_mapped = 2 ^ 30

abbrev pub lock_state_read_mask : ℕ
lock_state_read_mask = 2 ^ 30 - 1

-- `sNumInts`, `sNumFds` and `sMagic`
abbrev pub handle_num_ints : ℕ
handle_num_ints = 13

abbrev pub handle_num_fds : ℕ
handle_num_fds = 1

abbrev pub handle_magic : ℕ
handle_magic = 0x676d_736d

-- The constructor, in the process `pid`; `header` is the size of `native_handle`.
unfoldable pub new_handle :
    (header pid : ℕ) → (fd : ℤ) → (size flags buffer_type format width height : ℕ) → PrivateHandle
new_handle header pid fd size flags buffer_type format width height = record {
  version = header;
  num_fds = handle_num_fds;
  num_ints = handle_num_ints;
  fd = fd;
  magic = handle_magic;
  flags = flags;
  size = size;
  offset = 0;
  buffer_type = buffer_type;
  base = 0;
  lock_state = 0;
  write_owner = 0;
  gpuaddr = 0;
  pid = pid;
  format = format;
  width = width;
  height = height;
}

-- `validate` gives 0, on a handle that may be null.
unfoldable pub is_valid : (header : ℕ) → PrivateHandle → Bool
is_valid header h = not (
    not (h.version == header)
    || not (h.num_ints == handle_num_ints)
    || not (h.num_fds == handle_num_fds)
    || not (h.magic == handle_magic))

unfoldable pub validate : (header : ℕ) → Errno → Option PrivateHandle → ℤ
unfolding is_valid
validate header e none = neg e.einval
validate header e (some h) = if is_valid header h then pos 0 else neg e.einval
