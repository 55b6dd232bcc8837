-- ===== src/Mapper.antt =====
-- libgralloc-qsd8k/mapper.cpp: mapping, registering, locking and unlocking a buffer. The answers of
-- the system are parameters, and so are the values of the lock word that a compare-and-swap saw and
-- lost to another thread.
pub mod Word
pub mod Threads
pub mod Rounds
pub mod Invariant
pub mod Moves
pub mod Exclusion
pub mod Calls
mod Tests
use hardware_msm7k.Prelude.Words.{add32, sub32, not32, test}
use hardware_msm7k.Prelude.Int.{ℤ, pos, neg, is_zero}
use hardware_msm7k.Prelude.{
  ℕ, ◌-◌, ◌^◌, Bool, true, false, not, ◌&&◌, ◌||◌, bit_and, bit_or, ◌==◌, if◌then◌else◌, Option,
  none, some, List, [], ◌∷◌, ◌>>=◌,
}
use hardware_msm7k.Errno.{Errno}
use hardware_msm7k.Handle.{
  PrivateHandle, flags_framebuffer, flags_uses_pmem, flags_uses_pmem_adsp, flags_needs_flush,
  flags_uses_ashmem, lock_state_write, lock_state_mapped, lock_state_read_mask, is_valid,
}

-- `GRALLOC_USAGE_*` of hardware/gralloc.h.
pub record LockUsage : Type 0 where
  pub sw_read_mask : ℕ
  pub sw_write_mask : ℕ
  pub hw_render : ℕ

-- What the code asks of the system: the size of `native_handle`, the process, the thread, the error
-- number for a busy buffer, and `mmap`: its address, or none and `errno`.
pub record Caller : Type 0 where
  pub header : ℕ
  pub pid : ℕ
  pub tid : ℕ
  pub ebusy : ℕ
  pub mapping : Option ℕ
  pub map_errno : ℕ

abbrev pub is_framebuffer : PrivateHandle → Bool
is_framebuffer h = test h.flags flags_framebuffer

-- `gralloc_map` after the call of `mmap`: the result, what is stored through `vaddr`, and the handle.
unfoldable pub mapped_at : Caller → Option ℕ → PrivateHandle → ℤ × Option ℕ × PrivateHandle
mapped_at c none h = (neg c.map_errno, none, record h { base = 0 })
mapped_at c (some address) h =
    let base = add32 address h.offset in (pos 0, some base, record h { base = base })

-- `gralloc_map`
unfoldable pub gralloc_map : Caller → PrivateHandle → ℤ × Option ℕ × PrivateHandle
unfolding mapped_at
gralloc_map c h =
    if not (is_framebuffer h) then mapped_at c c.mapping h else (pos 0, some h.base, h)

-- `gralloc_unmap`: the handle, and the address and size that are unmapped.
unfoldable pub gralloc_unmap : PrivateHandle → PrivateHandle × Option (ℕ × ℕ)
gralloc_unmap h = (
  record h { base = 0 },
  if not (is_framebuffer h) then some (sub32 h.base h.offset, add32 h.size h.offset) else none,
)

abbrev cleared : PrivateHandle → PrivateHandle
cleared h = record h { base = 0; lock_state = 0; write_owner = 0 }

-- `gralloc_register_buffer`
unfoldable pub gralloc_register_buffer : Errno → Caller → PrivateHandle → ℤ × PrivateHandle
gralloc_register_buffer e c h =
    if not (is_valid c.header h)
    then (neg e.einval, h)
    else (pos 0, if not (h.pid == c.pid) then cleared h else h)

-- `gralloc_unregister_buffer`: the result, the handle, and what is unmapped.
unfoldable pub gralloc_unregister_buffer :
    Errno → Caller → PrivateHandle → ℤ × PrivateHandle × Option (ℕ × ℕ)
unfolding gralloc_unmap
gralloc_unregister_buffer e c h =
    let (unmapped, region) =
      (if test h.lock_state lock_state_mapped then gralloc_unmap h else (h, none)) in
    if not (is_valid c.header h)
    then (neg e.einval, h, none)
    else if not (h.pid == c.pid)
    then (pos 0, cleared unmapped, region)
    else (pos 0, h, none)

-- `terminateBuffer`, which returns 0: the handle, and what is unmapped.
unfoldable pub terminate_buffer : Caller → PrivateHandle → PrivateHandle × Option (ℕ × ℕ)
unfolding gralloc_unmap
terminate_buffer c h =
    if test h.lock_state lock_state_mapped
    then if test h.flags (bit_or (bit_or flags_uses_pmem flags_uses_pmem_adsp) flags_uses_ashmem)
        && (h.pid == c.pid)
      then (h, none)
      else gralloc_unmap h
    else (h, none)

module _ (u : LockUsage) where
  -- The usages that lock for writing.
  unfoldable pub is_write : ℕ → Bool
  is_write usage = test usage (bit_or u.sw_write_mask u.hw_render)

  -- One round of the loop of `gralloc_lock` before the compare-and-swap: the new word, or none for
  -- -EBUSY.
  unfoldable pub locked_word : (usage current : ℕ) → Option ℕ
  unfolding is_write
  locked_word usage current =
      let marked = (if is_write usage then bit_or current lock_state_write else current) in
      if test current lock_state_write
      then none
      else if test current lock_state_read_mask && is_write usage
      then none
      else some (add32 marked 1)

  -- The loop of `gralloc_lock`: `seen` are the words that it lost the compare-and-swap on, and
  -- `current` is the one it won on. The result is `current_value` and `new_value`.
  unfoldable pub lock_loop : (usage : ℕ) → (seen : List ℕ) → (current : ℕ) → Option (ℕ × ℕ)
  unfolding locked_word
  lock_loop usage [] current = locked_word usage current >>= λ new. some (current, new)
  lock_loop usage (value ∷ seen) current =
      let retry = lock_loop usage seen current in locked_word usage value >>= λ lost. retry

  -- `gralloc_lock` after the loop: the owner and the flags.
  unfoldable pub mark_locked : Caller → (usage new : ℕ) → PrivateHandle → PrivateHandle
  mark_locked c usage new h = record h {
    lock_state = new;
    write_owner = if test new lock_state_write then c.tid else h.write_owner;
    flags =
        if test usage u.sw_write_mask && not (is_framebuffer h)
        then bit_or h.flags flags_needs_flush
        else h.flags;
  }

  -- The mapping at the end of `gralloc_lock`, under the map lock.
  unfoldable pub map_locked : Caller → PrivateHandle → ℤ × Option ℕ × PrivateHandle
  unfolding gralloc_map
  map_locked c h =
      let (err, vaddr, h1) = gralloc_map c h in
      if test h.lock_state lock_state_mapped then (pos 0, some h.base, h) else (
        err,
        some h1.base,
        if is_zero err
            then record h1 { lock_state = bit_or h1.lock_state lock_state_mapped }
            else h1,
      )

  -- `gralloc_lock` from the words of the loop on.
  unfoldable pub finish_lock :
      Caller → (usage current new : ℕ) → PrivateHandle → ℤ × Option ℕ × PrivateHandle
  unfolding mark_locked map_locked
  finish_lock c usage current new h =
      let h1 = mark_locked c usage new h in
      if not (test usage (bit_or u.sw_read_mask u.sw_write_mask))
      then (pos 0, none, h1)
      else if test current lock_state_mapped
      then (pos 0, some h1.base, h1)
      else map_locked c h1

  -- `gralloc_lock` from the outcome of the loop on.
  unfoldable pub lock_outcome :
      Caller → (usage : ℕ) → Option (ℕ × ℕ) → PrivateHandle → ℤ × Option ℕ × PrivateHandle
  unfolding finish_lock
  lock_outcome c usage none h = (neg c.ebusy, none, h)
  lock_outcome c usage (some (current, new)) h = finish_lock c usage current new h

  -- `gralloc_lock`: the result, what is stored through `vaddr`, if anything, and the handle.
  unfoldable pub gralloc_lock :
      Errno → Caller → (usage : ℕ) → (seen : List ℕ) → PrivateHandle → ℤ × Option ℕ × PrivateHandle
  unfolding lock_loop lock_outcome
  gralloc_lock e c usage seen h =
      if not (is_valid c.header h)
      then (neg e.einval, none, h)
      else lock_outcome c usage (lock_loop usage seen h.lock_state) h

-- The word without the mark of the writer, where the caller is the one.
unfoldable pub unmarked : (tid owner current : ℕ) → ℕ
unmarked tid owner current =
    if test current lock_state_write && (owner == tid)
    then bit_and current (not32 lock_state_write)
    else current

-- One round of the loop of `gralloc_unlock` before the compare-and-swap: the new word, or none for
-- -EINVAL.
unfoldable pub unlocked_word : (tid owner current : ℕ) → Option ℕ
unfolding unmarked
unlocked_word tid owner current =
    let new = unmarked tid owner current in
    if bit_and new lock_state_read_mask == 0 then none else some (sub32 new 1)

-- `writeOwner` after that round.
unfoldable pub left_owner : (tid owner current : ℕ) → ℕ
left_owner tid owner current = if test current lock_state_write && (owner == tid) then 0 else owner

-- A round that lost the compare-and-swap: it ends the loop only by its error.
unfoldable pub unlock_retry : (owner : ℕ) → Option ℕ → ℕ × Option ℕ → ℕ × Option ℕ
unlock_retry owner none rest = (owner, none)
unlock_retry owner (some lost) rest = rest

-- The loop of `gralloc_unlock`: `writeOwner`, and the word that it stored.
unfoldable pub unlock_loop : (tid owner : ℕ) → (seen : List ℕ) → (current : ℕ) → ℕ × Option ℕ
unfolding unlocked_word left_owner unlock_retry
unlock_loop tid owner [] current = (left_owner tid owner current, unlocked_word tid owner current)
unlock_loop tid owner (value ∷ seen) current =
    let rest = unlock_loop tid (left_owner tid owner value) seen current in
    unlock_retry (left_owner tid owner value) (unlocked_word tid owner value) rest

-- What `gralloc_unlock` makes of the outcome of its loop.
unfoldable pub finish_unlock : Errno → ℕ × Option ℕ → PrivateHandle → ℤ × PrivateHandle
finish_unlock e (owner, none) h = (neg e.einval, record h { write_owner = owner })
finish_unlock e (owner, some new) h = (pos 0, record h { write_owner = owner; lock_state = new })

-- `gralloc_unlock`; the results of flushing the cache are only logged.
unfoldable pub gralloc_unlock : Errno → Caller → (seen : List ℕ) → PrivateHandle → ℤ × PrivateHandle
unfolding unlock_loop finish_unlock
gralloc_unlock e c seen h =
    let flushed =
      (if test h.flags flags_needs_flush
        then record h { flags = bit_and h.flags (not32 flags_needs_flush) }
        else h) in
    if not (is_valid c.header h)
    then (neg e.einval, h)
    else finish_unlock e (unlock_loop c.tid h.write_owner seen h.lock_state) flushed
