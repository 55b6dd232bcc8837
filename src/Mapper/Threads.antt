-- ===== src/Mapper/Threads.antt =====
-- Threads that lock and unlock one buffer: `gralloc_lock` and `gralloc_unlock` of
-- libgralloc-qsd8k/mapper.cpp. A thread unlocks only what it locked. A step is one access of the shared
-- handle, with two exceptions. `leave` and `refused` take the reads of the word and the owner and the
-- clearing of the owner together, since only the thread that holds the lock for writing is the owner;
-- `map` takes the test of the mapped bit and its atomic or together.
use hardware_msm7k.Prelude.Words.{test}
use hardware_msm7k.Prelude.Family.{change}
use hardware_msm7k.Prelude.{
  ℕ, suc, ◌<◌, ◌≡◌, ◌≢◌, Bool, true, false, if◌then◌else◌, bit_or, none, some,
}
use hardware_msm7k.Handle.{lock_state_write, lock_state_mapped}
use hardware_msm7k.Mapper.{LockUsage, locked_word, unlocked_word, left_owner}

-- `lockState` and `writeOwner`. The thread with the index i has the identifier i + 1, and 0 is none.
pub record Shared : Type 0 where
  pub word : ℕ
  pub owner : ℕ

-- Where a thread stands, with the local variables that are live there.
pub data Pc : Type 0 where
  idle : Pc
  -- before the compare-and-swap of `gralloc_lock`
  loaded : (usage current new : ℕ) → Pc
  -- before `writeOwner` is stored
  won : (write : Bool) → Pc
  -- from there to the next compare-and-swap of `gralloc_unlock`
  held : (write : Bool) → Pc
  leaving : (write : Bool) → (current new : ℕ) → Pc

pub data Move (u : LockUsage) (i : ℕ) (m : Shared) : Pc → Shared → Pc → Type 0 where
  busy : (usage : ℕ) → locked_word u usage m.word ≡ none → Move u i m idle m idle
  load :
      {usage new : ℕ}
      → locked_word u usage m.word ≡ some new
      → Move u i m idle m (loaded usage m.word new)
  -- The retry starts at `idle`, where any usage may follow.
  lock_lose :
      {usage current new : ℕ} → m.word ≢ current → Move u i m (loaded usage current new) m idle
  lock_win :
      {usage current new : ℕ}
      → m.word ≡ current
      → Move u i m
          (loaded usage current new)
          (record m { word = new })
          (won (test new lock_state_write))
  own : Move u i m (won true) (record m { owner = suc i }) (held true)
  share : Move u i m (won false) m (held false)
  -- under the map lock, which lets one thread in at a time
  map :
      {write : Bool}
      → test m.word lock_state_mapped ≡ false
      → Move u i m (held write) (record m { word = bit_or m.word lock_state_mapped }) (held write)
  refused :
      {write : Bool}
      → unlocked_word (suc i) m.owner m.word ≡ none
      → Move u i m
          (held write)
          (record m { owner = left_owner (suc i) m.owner m.word })
          (held write)
  leave :
      {write : Bool} {new : ℕ}
      → unlocked_word (suc i) m.owner m.word ≡ some new
      → Move u i m
          (held write)
          (record m { owner = left_owner (suc i) m.owner m.word })
          (leaving write m.word new)
  unlock_lose :
      {write : Bool} {current new : ℕ}
      → m.word ≢ current
      → Move u i m (leaving write current new) m (held write)
  unlock_win :
      {write : Bool} {current new : ℕ}
      → m.word ≡ current
      → Move u i m (leaving write current new) (record m { word = new }) idle

pub record System : Type 0 where
  pub shared : Shared
  pub pc : ℕ → Pc

-- One of the first `n` threads moves.
pub data Step (u : LockUsage) (n : ℕ) (s : System) : System → Type 0 where
  turn :
      (i : ℕ) {m : Shared} {p : Pc}
      → i < n
      → Move u i s.shared (s.pc i) m p
      → Step u n s (record { shared = m; pc = change s.pc i p })

-- A buffer that nobody locks; it may be mapped.
abbrev pub start : Bool → System
start mapped = record {
  shared = record { word = if mapped then lock_state_mapped else 0; owner = 0 };
  pc = λ i. idle;
}

pub data Reach (u : LockUsage) (n : ℕ) (mapped : Bool) : System → Type 0 where
  here : Reach u n mapped (start mapped)
  next : {s t : System} → Reach u n mapped s → Step u n s t → Reach u n mapped t

-- A thread counts as a holder until its last compare-and-swap.
abbrev pub holds : Pc → ℕ
holds idle = 0
holds (loaded usage current new) = 0
holds (won write) = 1
holds (held write) = 1
holds (leaving write current new) = 1

-- A holder that locked for writing.
abbrev pub writes : Pc → Bool
writes idle = false
writes (loaded usage current new) = false
writes (won write) = write
writes (held write) = write
writes (leaving write current new) = write
