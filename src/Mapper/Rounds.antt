-- ===== src/Mapper/Rounds.antt =====
-- What one round of the loops of `gralloc_lock` and `gralloc_unlock` makes of the lock word.
use hardware_msm7k.Prelude.Words.{test}
use hardware_msm7k.Prelude.{
  ℕ, ◌+◌, ◌-◌, ◌%◌, ◌^◌, ◌<◌, ◌≡◌, ◌≢◌, sym, ◌∙◌, Bool, true, false, not, ◌&&◌, bit_or, ◌==◌, none,
  some, arith, Bool-cases, inl, inr,
}
use hardware_msm7k.Handle.{lock_state_write, lock_state_mapped}
use hardware_msm7k.Mapper.{LockUsage, is_write, locked_word, unlocked_word}
use hardware_msm7k.Mapper.Word.{
  Lock, encode, decode, encoded, locked, unlocked, encode-decode, decode-encode, encode-lt,
  test-write, test-mapped, set_mapped, locked_word-encode, unlocked_word-encode,
}

-- The outcome of a lock on a word, from its view as a lock state.
pub record Taken (write : Bool) (word new : ℕ) : Type 0 where
  pub no_writer : (decode word).writer ≡ false
  pub alone : write ≡ true → (decode word).count ≡ 0
  pub after :
      decode new
      ≡ record { writer = write; mapped = (decode word).mapped; count = (decode word).count + 1 }
  pub fits : new < 2 ^ 32
  pub mark : test new lock_state_write ≡ write

some_inj : (x y : ℕ) → some x ≡ some y → x ≡ y
some_inj x y e = cc e

Taken-of_encode :
    (write : Bool) (word new : ℕ)
    → (decode word).count + 1 < 2 ^ 30
    → (decode word).writer ≡ false
    → (write ≡ true → (decode word).count ≡ 0)
    → encode
        (record { writer = write; mapped = (decode word).mapped; count = (decode word).count + 1 })
      ≡ new
    → Taken write word new
Taken-of_encode write word new room w a e =
    let l : Lock = record {
      writer = write;
      mapped = (decode word).mapped;
      count = (decode word).count + 1;
    } in
    record {
      no_writer = w;
      alone = a;
      after = rw (← e) (decode-encode l room);
      fits = rw (← e) (encode-lt l room);
      mark = rw (← e) (test-write l room);
    }

locked-Taken :
    (write : Bool) (word new : ℕ)
    → (decode word).count + 1 < 2 ^ 30
    → encoded (locked write (decode word)) ≡ some new
    → Taken write word new
unfolding locked
locked-Taken write word new room e = elim (Bool-cases (decode word).writer) [
  | inl w ↦ absurd (cc (rw w at e))
  | inr w ↦ elim (Bool-cases (not ((decode word).count == 0) && write)) [
    | inl b ↦ absurd (cc (rw (w, b) at e))
    | inr b ↦
        Taken-of_encode write word new room w (λ f. ground (arith, b, f))
          (some_inj _ _ (rw (w, b) at e))
  ]
]

pub locked_word-Taken :
    (u : LockUsage) (usage word new : ℕ)
    → word < 2 ^ 32
    → word % 2 ^ 30 + 1 < 2 ^ 30
    → locked_word u usage word ≡ some new
    → Taken (is_write u usage) word new
locked_word-Taken u usage word new fits room e =
    locked-Taken (is_write u usage) word new room
      (sym (locked_word-encode u usage (decode word) room) ∙ rw (encode-decode word fits) e)

-- The outcome of an unlock.
pub record Given (owns : Bool) (word new : ℕ) : Type 0 where
  pub some_holder : 0 < word % 2 ^ 30
  pub after : decode new ≡ record {
    writer = (decode word).writer && not owns;
    mapped = (decode word).mapped;
    count = (decode word).count - 1;
  }
  pub fits : new < 2 ^ 32

unlocked-Given :
    (owns : Bool) (word new : ℕ)
    → encoded (unlocked owns (decode word)) ≡ some new
    → Given owns word new
unfolding unlocked
unlocked-Given owns word new e = elim (Bool-cases ((decode word).count == 0)) [
  | inl z ↦ absurd (cc (rw z at e))
  | inr z ↦
      let l : Lock = record {
        writer = (decode word).writer && not owns;
        mapped = (decode word).mapped;
        count = (decode word).count - 1;
      } in
      let small : l.count < 2 ^ 30 = omega arith in
      let same : encode l ≡ new = some_inj _ _ (rw z at e) in
      record {
        some_holder = ground (arith, z);
        after = rw (← same) (decode-encode l small);
        fits = rw (← same) (encode-lt l small);
      }
]

pub unlocked_word-Given :
    (tid owner word new : ℕ)
    → word < 2 ^ 32
    → unlocked_word tid owner word ≡ some new
    → Given (owner == tid) word new
unlocked_word-Given tid owner word new fits e = unlocked-Given (owner == tid) word new (
    sym (unlocked_word-encode tid owner (decode word) (omega arith))
    ∙ rw (encode-decode word fits) e)

never_none : (owns : Bool) (l : Lock) → 0 < l.count → encoded (unlocked owns l) ≡ none → ⊥
unfolding unlocked
never_none owns l h e =
    let held : (l.count == 0) ≡ false = ground (arith, h) in absurd (cc (rw held at e))

-- A holder is never refused.
pub unlocked_word-some :
    (tid owner word : ℕ) → word < 2 ^ 32 → 0 < word % 2 ^ 30 → unlocked_word tid owner word ≢ none
unlocked_word-some tid owner word fits h e = never_none (owner == tid) (decode word) h (
    sym (unlocked_word-encode tid owner (decode word) (omega arith))
    ∙ rw (encode-decode word fits) e)

-- The mark of the mapping changes nothing else.
pub record Mapped (word new : ℕ) : Type 0 where
  pub after : decode new ≡ record (decode word) { mapped = true }
  pub fits : new < 2 ^ 32

pub map-Mapped :
    (word : ℕ)
    → word < 2 ^ 32
    → test word lock_state_mapped ≡ false
    → Mapped word (bit_or word lock_state_mapped)
map-Mapped word h e =
    let l = decode word in
    let small : l.count < 2 ^ 30 = omega arith in
    let same : bit_or word lock_state_mapped ≡ encode (record l { mapped = true }) =
      rw (encode-decode word h) at
        (set_mapped l small (sym (test-mapped l small) ∙ rw (encode-decode word h) e)) in
    record {
      after = rw same (decode-encode (record l { mapped = true }) small);
      fits = rw same (encode-lt (record l { mapped = true }) small);
    }
