-- ===== src/Mapper/Exclusion.antt =====
-- What holds in every reachable state of the threads that lock and unlock one buffer.
use hardware_msm7k.Prelude.Family.{sum_below, sum_below-zero}
use hardware_msm7k.Prelude.{
  ℕ, suc, ◌+◌, ◌%◌, ◌^◌, ◌<◌, ◌≡◌, ◌≢◌, refl, ◌∙◌, Bool, true, false, ◌==◌, none, some, arith,
  Bool-cases, inl, inr,
}
use hardware_msm7k.Mapper.{LockUsage, is_write, locked_word, unlocked_word}
use hardware_msm7k.Mapper.Word.{decode, encode-decode, encoded, encode, locked, locked_word-encode}
use hardware_msm7k.Mapper.Rounds.{unlocked_word-some}
use hardware_msm7k.Mapper.Threads.{
  idle, System, Step, turn, start, Reach, here, next, holds, writes,
}
use hardware_msm7k.Mapper.Invariant.{Inv, writes-holds}
use hardware_msm7k.Mapper.Moves.{Move-Inv, counts_holder}

not_marked : (mapped : Bool) → (decode (start mapped).shared.word).writer ≢ true
not_marked true e = absurd (cc e)
not_marked false e = absurd (cc e)

module _ (u : LockUsage) (n : ℕ) where
  start-Inv : (mapped : Bool) → Inv u n (start mapped).shared (start mapped).pc
  start-Inv mapped = record {
    fits = ground arith;
    counted =
        ground (arith, sum_below-zero holds (λ (i : ℕ). idle) n (λ (j : ℕ) (l : j < n). refl));
    marked = λ w. absurd (not_marked mapped w);
    kind = λ i l h. absurd (omega (arith, h));
    single = λ w i j l k h. absurd (omega (arith, h));
    fresh = λ i l. tt;
  }

  Step-Inv :
      {s t : System} → n + 1 < 2 ^ 30 → Inv u n s.shared s.pc → Step u n s t → Inv u n t.shared t.pc
  Step-Inv {s} room inv (turn i l mv) = Move-Inv u n s.shared s.pc inv i l room mv refl

  Reach-Inv :
      {mapped : Bool} {s : System} → n + 1 < 2 ^ 30 → Reach u n mapped s → Inv u n s.shared s.pc
  Reach-Inv {mapped} room here = start-Inv mapped
  Reach-Inv room (next r st) = Step-Inv room (Reach-Inv room r) st

  -- In every reachable state of fewer than 2 ^ 30 - 1 threads, each of which unlocks only what it
  -- locked, a thread that holds the buffer for writing is its only holder.
  pub mutual_exclusion :
      (mapped : Bool) (s : System) (i j : ℕ)
      → n + 1 < 2 ^ 30
      → Reach u n mapped s
      → i < n
      → j < n
      → writes (s.pc i) ≡ true
      → holds (s.pc j) ≡ 1
      → i ≡ j
  mutual_exclusion mapped s i j room r li lj w h =
      let inv = Reach-Inv room r in
      let hold = writes-holds u (s.pc i) w in inv.single (inv.kind i li hold ∙ w) i j li lj hold h

  free_word :
      (usage word : ℕ)
      → word < 2 ^ 32
      → word % 2 ^ 30 ≡ 0
      → (decode word).writer ≡ false
      → (new : ℕ) × (locked_word u usage word ≡ some new)
  unfolding locked
  free_word usage word fits z w =
      let l = decode word in
      let empty : (l.count == 0) ≡ true = ground (arith, z) in
      let taken : encoded (locked (is_write u usage) l)
          ≡ some (encode (record l { writer = is_write u usage; count = l.count + 1 })) =
        rw (w, empty) refl in
      (
        encode (record l { writer = is_write u usage; count = l.count + 1 }),
        rw (encode-decode word fits) at (locked_word-encode u usage l (omega (arith, z)) ∙ taken),
      )

  -- In every reachable state of fewer than 2 ^ 30 - 1 threads the lock word counts the holders,
  -- and no holder is refused when it unlocks.
  pub unlock_not_refused :
      (mapped : Bool) (s : System) (i : ℕ)
      → n + 1 < 2 ^ 30
      → Reach u n mapped s
      → i < n
      → holds (s.pc i) ≡ 1
      → (s.shared.word % 2 ^ 30 ≡ sum_below holds s.pc n)
        × (unlocked_word (suc i) s.shared.owner s.shared.word ≢ none)
  unlock_not_refused mapped s i room r l h =
      let inv = Reach-Inv room r in
      (
        inv.counted,
        unlocked_word-some _ _ _ inv.fits (counts_holder u n s.shared s.pc inv i l room i l h),
      )

  -- In every reachable state of fewer than 2 ^ 30 - 1 threads in which no thread holds the buffer,
  -- the next attempt to lock it is not refused, for every usage: the lock is never lost.
  pub lock_not_lost :
      (mapped : Bool) (s : System) (usage : ℕ)
      → n + 1 < 2 ^ 30
      → Reach u n mapped s
      → ((j : ℕ) → j < n → holds (s.pc j) ≡ 0)
      → (new : ℕ) × (locked_word u usage s.shared.word ≡ some new)
  lock_not_lost mapped s usage room r none_holds =
      let inv = Reach-Inv room r in
      let empty : s.shared.word % 2 ^ 30 ≡ 0 =
        inv.counted ∙ sum_below-zero holds s.pc n none_holds in
      free_word usage s.shared.word inv.fits empty
        (elim (Bool-cases (decode s.shared.word).writer) [
          | inl w ↦ absurd (omega (arith, empty, inv.marked w))
          | inr w ↦ w
        ])
