-- ===== src/Mapper/Moves.antt =====
-- Every move of a thread keeps the invariant of the lock.
use mathlib.Core.Path.{subst}
use hardware_msm7k.Prelude.Words.{test}
use hardware_msm7k.Prelude.Family.{change, weight-le_sum, sum_below-le}
use hardware_msm7k.Prelude.{
  ℕ, suc, ◌+◌, ◌-◌, ◌%◌, ◌^◌, ◌<◌, ◌≡◌, ◌≢◌, ◌⊎◌, refl, sym, ap, ◌∙◌, Bool, true, false, not, ◌&&◌,
  bit_or, ◌==◌, ==_iff, some, arith, Bool-cases, inl, inr,
}
use hardware_msm7k.Handle.{lock_state_write, lock_state_mapped}
use hardware_msm7k.Mapper.{LockUsage, is_write, locked_word, left_owner}
use hardware_msm7k.Mapper.Word.{Lock, decode, and_false}
use hardware_msm7k.Mapper.Rounds.{
  locked_word-Taken, Given, unlocked_word-Given, unlocked_word-some, map-Mapped,
}
use hardware_msm7k.Mapper.Threads.{
  Shared, Pc, idle, loaded, won, held, leaving, Move, busy, load, lock_lose, lock_win, own, share,
  map, refused, leave, unlock_lose, unlock_win, holds, writes,
}
use hardware_msm7k.Mapper.Invariant.{Left, IsFresh, Inv, Change-Inv, holds-le, writes-holds}

module _ (u : LockUsage) (n : ℕ) (m : Shared) (pc : ℕ → Pc) (inv : Inv u n m pc) (i : ℕ)
    (mine : i < n) (room : n + 1 < 2 ^ 30) where
  open inv use {fits, counted, kind, single, fresh}

  pub counts_holder : (j : ℕ) → j < n → holds (pc j) ≡ 1 → 0 < m.word % 2 ^ 30
  counts_holder j l h = omega (arith, counted, h, weight-le_sum holds pc n j l)

  few : m.word % 2 ^ 30 + 1 < 2 ^ 30
  few = omega (arith, counted, room, sum_below-le holds (holds-le u) pc n)

  -- While the thread holds, no other holder writes, and no other holds if one writes.
  others_read : holds (pc i) ≡ 1 → (j : ℕ) → j < n → j ≢ i → writes (pc j) ≢ true
  others_read h j l d w =
      let hold = writes-holds u (pc j) w in d (single (kind j l hold ∙ w) j i l mine hold h)

  others_out :
      holds (pc i) ≡ 1 → (decode m.word).writer ≡ true → (j : ℕ) → j < n → j ≢ i → holds (pc j) ≢ 1
  others_out h w j l d k = d (single w j i l mine k h)

  -- A move that leaves the word and the count of holders.
  still :
      (p' : Pc) (m' : Shared)
      → m'.word ≡ m.word
      → holds p' ≡ holds (pc i)
      → (holds p' ≡ 1 → writes p' ≡ writes (pc i))
      → IsFresh u m' i p'
      → (m' ≡ m) ⊎ ((j : ℕ) → j < n → j ≢ i → writes (pc j) ≢ true)
      → Inv u n m' (change pc i p')
  still p' m' w h k f q = Change-Inv u n m pc inv i mine p' m' (record {
    in_word = rw w fits;
    count = omega (arith, ap (λ t. t % 2 ^ 30) w, h);
    in_mark = λ writer. rw w (inv.marked (rw w at writer));
    own_kind = λ one. rw w (kind i mine (sym h ∙ one) ∙ sym (k one));
    others = λ j l d one. rw w refl;
    alone = λ writer one. others_out (sym h ∙ one) (rw w at writer);
    own_fresh = f;
    quiet = q;
  })

  lock_win-Inv :
      (usage new : ℕ)
      → pc i ≡ loaded usage m.word new
      → Inv u n (record m { word = new }) (change pc i (won (test new lock_state_write)))
  lock_win-Inv usage new e =
      let guard : locked_word u usage m.word ≡ some new = subst (IsFresh u m i) e (fresh i mine) in
      let t = locked_word-Taken u usage m.word new fits few guard in
      let written : (decode new).writer ≡ is_write u usage = ap (λ (l : Lock). l.writer) t.after in
      let counted' : new % 2 ^ 30 ≡ m.word % 2 ^ 30 + 1 = ap (λ (l : Lock). l.count) t.after in
      Change-Inv u n m pc inv i mine _ _ (record {
        in_word = t.fits;
        count = omega (arith, counted', ap holds e);
        in_mark = λ w. omega (arith, counted');
        own_kind = λ one. written ∙ sym t.mark;
        others = λ j l d one. elim (Bool-cases (is_write u usage)) [
          | inl w ↦ absurd (omega (arith, counts_holder j l one, t.alone w))
          | inr w ↦ written ∙ w ∙ sym t.no_writer
        ];
        alone =
            λ w one j l d h. absurd (omega (arith, counts_holder j l h, t.alone (sym written ∙ w)));
        own_fresh = tt;
        quiet = inr (λ j l d w.
            let writer = kind j l (writes-holds u (pc j) w) ∙ w in cc (writer, t.no_writer));
      })

  IsFresh-held :
      (write : Bool) (m' : Shared)
      → m'.owner ≡ m.owner
      → IsFresh u m i (held write)
      → IsFresh u m' i (held write)
  IsFresh-held true m' e f = e ∙ f
  IsFresh-held false m' e f = tt

  map-Inv :
      (write : Bool)
      → pc i ≡ held write
      → test m.word lock_state_mapped ≡ false
      → Inv u n (record m { word = bit_or m.word lock_state_mapped }) (change pc i (held write))
  map-Inv write e g =
      let t = map-Mapped m.word fits g in
      let hold : holds (pc i) ≡ 1 = ap holds e in
      let new = bit_or m.word lock_state_mapped in
      let written : (decode new).writer ≡ (decode m.word).writer =
        ap (λ (l : Lock). l.writer) t.after in
      let counted' : new % 2 ^ 30 ≡ m.word % 2 ^ 30 = ap (λ (l : Lock). l.count) t.after in
      Change-Inv u n m pc inv i mine _ _ (record {
        in_word = t.fits;
        count = omega (arith, counted', hold);
        in_mark = λ w. omega (arith, counted', inv.marked (sym written ∙ w));
        own_kind = λ one. written ∙ kind i mine hold ∙ ap writes e;
        others = λ j l d one. written;
        alone = λ w one. others_out hold (sym written ∙ w);
        own_fresh =
            IsFresh-held write (record m { word = new }) refl
              (subst (IsFresh u m i) e (fresh i mine));
        quiet = inr (others_read hold);
      })

  abbrev without : Bool → Lock
  without b = record (decode m.word) { writer = b; count = m.word % 2 ^ 30 - 1 }

  IsFresh-leave :
      (write : Bool) (new : ℕ)
      → holds (pc i) ≡ 1
      → writes (pc i) ≡ write
      → IsFresh u m i (held write)
      → Given (m.owner == suc i) m.word new
      → IsFresh u
          (record m { owner = left_owner (suc i) m.owner m.word })
          i
          (leaving write m.word new)
  IsFresh-leave true new h w f t =
      let owns : (m.owner == suc i) ≡ true = (==_iff m.owner (suc i)).1 f in
      let gone : ((decode m.word).writer && not (m.owner == suc i)) ≡ false =
        rw owns (and_false (decode m.word).writer) in
      (refl, (t.some_holder, t.after ∙ ap without gone, t.fits))
  IsFresh-leave false new h w f t =
      let reads : (decode m.word).writer ≡ false = kind i mine h ∙ w in
      let gone : ((decode m.word).writer && not (m.owner == suc i)) ≡ false = rw reads refl in
      (t.some_holder, t.after ∙ ap without gone, t.fits)

  IsFresh-lose :
      (write : Bool) (current new : ℕ)
      → m.word ≢ current
      → IsFresh u m i (leaving write current new)
      → IsFresh u m i (held write)
  IsFresh-lose true current new d (e, f) = absurd (d e)
  IsFresh-lose false current new d f = tt

  IsFresh-Left :
      (write : Bool) (current new : ℕ)
      → IsFresh u m i (leaving write current new)
      → Left current new
  IsFresh-Left true current new (e, f) = f
  IsFresh-Left false current new f = f

  unlock_win-Inv :
      (write : Bool) (new : ℕ)
      → pc i ≡ leaving write m.word new
      → Inv u n (record m { word = new }) (change pc i idle)
  unlock_win-Inv write new e =
      let (some_holder, after, small) =
        IsFresh-Left write m.word new (subst (IsFresh u m i) e (fresh i mine)) in
      let hold : holds (pc i) ≡ 1 = ap holds e in
      let written : (decode new).writer ≡ false = ap (λ (l : Lock). l.writer) after in
      let counted' : new % 2 ^ 30 ≡ m.word % 2 ^ 30 - 1 = ap (λ (l : Lock). l.count) after in
      Change-Inv u n m pc inv i mine _ _ (record {
        in_word = small;
        count = omega (arith, counted', hold, some_holder);
        in_mark = λ w. cc (w, written);
        own_kind = λ one. absurd (omega (arith, one));
        others = λ j l d one. elim (Bool-cases (decode m.word).writer) [
          | inl w ↦ absurd (others_out hold w j l d one)
          | inr w ↦ written ∙ sym w
        ];
        alone = λ w one. absurd (omega (arith, one));
        own_fresh = tt;
        quiet = inr (others_read hold);
      })

  -- Every move.
  pub Move-Inv :
      {p p' : Pc} {m' : Shared} → Move u i m p m' p' → pc i ≡ p → Inv u n m' (change pc i p')
  Move-Inv (busy usage b) e =
      still idle m refl (sym (ap holds e)) (λ one. absurd (omega (arith, one))) tt (inl refl)
  Move-Inv (load {usage} {new} g) e =
      still _ m refl (sym (ap holds e)) (λ one. absurd (omega (arith, one))) g (inl refl)
  Move-Inv (lock_lose d) e =
      still idle m refl (sym (ap holds e)) (λ one. absurd (omega (arith, one))) tt (inl refl)
  Move-Inv (lock_win {usage} {current} {new} g) e =
      lock_win-Inv usage new (e ∙ ap (λ t. loaded usage t new) (sym g))
  Move-Inv own e =
      still _ _ refl (sym (ap holds e)) (λ one. sym (ap writes e)) refl
        (inr (others_read (ap holds e)))
  Move-Inv share e = still _ m refl (sym (ap holds e)) (λ one. sym (ap writes e)) tt (inl refl)
  Move-Inv (map {write} g) e = map-Inv write e g
  Move-Inv (refused g) e =
      absurd (unlocked_word-some _ _ _ fits (counts_holder i mine (ap holds e)) g)
  Move-Inv (leave {write} {new} g) e =
      still _ _ refl (sym (ap holds e)) (λ one. sym (ap writes e))
        (IsFresh-leave write new (ap holds e) (ap writes e) (subst (IsFresh u m i) e (fresh i mine))
          (unlocked_word-Given (suc i) m.owner m.word new fits g))
        (inr (others_read (ap holds e)))
  Move-Inv (unlock_lose {write} {current} {new} d) e =
      still _ m refl (sym (ap holds e)) (λ one. sym (ap writes e))
        (IsFresh-lose write current new d (subst (IsFresh u m i) e (fresh i mine))) (inl refl)
  Move-Inv (unlock_win {write} {current} {new} g) e =
      unlock_win-Inv write new (e ∙ ap (λ t. leaving write t new) (sym g))
