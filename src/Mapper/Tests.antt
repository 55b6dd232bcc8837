-- ===== src/Mapper/Tests.antt =====
-- The locks on concrete words, handles and schedules, and their theorems there.
use hardware_msm7k.Prelude.Family.{change, sum_below}
use hardware_msm7k.Prelude.Int.{pos}
use hardware_msm7k.Prelude.{
  ℕ, ◌+◌, ◌%◌, ◌^◌, ◌<◌, ◌≡◌, ◌≢◌, refl, true, false, none, some, [], ◌∷◌, arith,
}
use hardware_msm7k.Errno.{Errno}
use hardware_msm7k.Handle.{PrivateHandle, new_handle, is_valid}
use hardware_msm7k.Mapper.{
  LockUsage, Caller, is_write, locked_word, lock_loop, gralloc_lock, unlocked_word, unmarked,
  left_owner, gralloc_unlock,
}
use hardware_msm7k.Mapper.Word.{Lock, decode, encoded, locked, locked_word-encode}
use hardware_msm7k.Mapper.Threads.{
  idle, loaded, won, held, leaving, load, lock_win, own, leave, unlock_win, System, turn, Reach,
  here, next, holds,
}
use hardware_msm7k.Mapper.Exclusion.{mutual_exclusion, unlock_not_refused, lock_not_lost}
use hardware_msm7k.Mapper.Calls.{gralloc_unlock-gralloc_lock}

abbrev linux : Errno
linux = record {
  einval = 22;
  enomem = 12;
  enoent = 2;
  einval_pos = omega arith;
  enomem_pos = omega arith;
  enoent_pos = omega arith;
}

abbrev usages : LockUsage
usages = record { sw_read_mask = 0xf; sw_write_mask = 0xf0; hw_render = 0x200 }

abbrev caller : Caller
caller = record {
  header = 12;
  pid = 100;
  tid = 101;
  ebusy = 16;
  mapping = some 0x4000_0000;
  map_errno = 12;
}

abbrev buffer : PrivateHandle
buffer = new_handle 12 100 (pos 5) 4096 2 0 1 32 32

abbrev free : Lock
free = record { writer = false; mapped = false; count = 0 }

abbrev two_readers : Lock
two_readers = record { writer = false; mapped = true; count = 2 }

locked_word-encode_example :
    locked_word usages 0x3 (2 ^ 30 + 2) ≡ encoded (locked (is_write usages 0x3) two_readers)
locked_word-encode_example = locked_word-encode usages 0x3 two_readers (omega arith)

-- A lost compare-and-swap against a reader is tried again, against a writer not.
lost_once : lock_loop usages 0x3 (1 ∷ []) 0 ≡ some (0, 1)
unfolding lock_loop locked_word is_write
lost_once = refl

lost_to_writer : lock_loop usages 0x3 ((2 ^ 31 + 1) ∷ []) 0 ≡ none
unfolding lock_loop locked_word is_write
lost_to_writer = refl

buffer_valid : is_valid 12 buffer ≡ true
unfolding new_handle is_valid
buffer_valid = refl

gralloc_unlock-gralloc_lock_example :
    let r = gralloc_unlock linux caller [] (gralloc_lock usages linux caller 0x33 [] buffer).2 in
    (r.0 ≡ pos 0) × ((decode r.1.lock_state).writer ≡ false) × ((decode r.1.lock_state).count ≡ 0)
unfolding new_handle
gralloc_unlock-gralloc_lock_example =
    gralloc_unlock-gralloc_lock usages caller linux 0x33 buffer free buffer_valid refl (omega arith)
      refl

abbrev unmappable : Caller
unmappable = record caller { mapping = none }

-- The first of two threads locks for writing.
abbrev written : System
written = record {
  shared = record { word = 2 ^ 31 + 1; owner = 1 };
  pc =
      change (change (change (λ i. idle) 0 (loaded 0x30 0 (2 ^ 31 + 1))) 0 (won true)) 0
        (held true);
}

written-Reach : Reach usages 2 false written
unfolding locked_word is_write
written-Reach =
    next
      (next (next here (turn 0 (omega arith) (load {usage = 0x30} refl)))
        (turn 0 (omega arith) (lock_win refl)))
      (turn 0 (omega arith) own)

mutual_exclusion_example : ◌≡◌ {A = ℕ} 0 0
mutual_exclusion_example =
    mutual_exclusion usages 2 false written 0 0 (omega arith) written-Reach (omega arith)
      (omega arith) refl refl

unlock_not_refused_example :
    ((2 ^ 31 + 1) % 2 ^ 30 ≡ sum_below holds written.pc 2) × (unlocked_word 1 1 (2 ^ 31 + 1) ≢ none)
unlock_not_refused_example =
    unlock_not_refused usages 2 false written 0 (omega arith) written-Reach (omega arith) refl

-- It unlocks again.
abbrev released : System
released = record {
  shared = record { word = 0; owner = 0 };
  pc = change (change written.pc 0 (leaving true (2 ^ 31 + 1) 0)) 0 idle;
}

released-Reach : Reach usages 2 false released
unfolding unlocked_word unmarked left_owner
released-Reach =
    next (next written-Reach (turn 0 (omega arith) (leave refl)))
      (turn 0 (omega arith) (unlock_win refl))

nobody : (j : ℕ) → j < 2 → holds (released.pc j) ≡ 0
nobody j l = ground arith

lock_not_lost_example : (new : ℕ) × (locked_word usages 0x30 0 ≡ some new)
lock_not_lost_example =
    lock_not_lost usages 2 false released 0x30 (omega arith) released-Reach nobody
