-- ===== src/Mapper/Calls.antt =====
-- Whole calls of `gralloc_lock` and `gralloc_unlock` that no other thread disturbs.
use hardware_msm7k.Prelude.Words.{test}
use hardware_msm7k.Prelude.Bits.{bit_or_step, bit_and_low}
use hardware_msm7k.Prelude.Int.{pos, neg, is_zero}
use hardware_msm7k.Prelude.{
  ℕ, zero, suc, ◌+◌, ◌-◌, ◌%◌, ◌^◌, ◌<◌, ◌≡◌, ◌⊎◌, refl, sym, ap, ◌∙◌, Bool, true, false, not, ◌&&◌,
  ◌||◌, bit_and, bit_or, ◌==◌, ==_iff, if◌then◌else◌, none, some, [], arith, Bool-cases,
  Option-cases, inl, inr,
}
use hardware_msm7k.Errno.{Errno}
use hardware_msm7k.Handle.{
  PrivateHandle, is_valid, flags_needs_flush, flags_framebuffer, lock_state_write,
  lock_state_mapped,
}
use hardware_msm7k.Mapper.{
  LockUsage, Caller, is_framebuffer, mapped_at, gralloc_map, is_write, locked_word, lock_loop,
  mark_locked, map_locked, finish_lock, lock_outcome, gralloc_lock, unlocked_word, unlock_loop,
  finish_unlock, gralloc_unlock,
}
use hardware_msm7k.Mapper.Word.{
  Lock, encode, encoded, locked, unlocked, decode, decode-encode, test-write, test-mapped,
  set_mapped, locked_word-encode, unlocked_word-encode,
}

neg_not_zero : (n : ℕ) → 0 < n → is_zero (neg n) ≡ false
neg_not_zero zero h = absurd (omega (arith, h))
neg_not_zero (suc n) h = refl

flush_keeps :
    (flags : ℕ)
    → test (bit_or flags flags_needs_flush) flags_framebuffer ≡ test flags flags_framebuffer
flush_keeps flags =
    let low : bit_or flags 8 % 2 ≡ flags % 2 = omega (arith, bit_or_step flags 8) in
    let one : bit_and (bit_or flags 8) 1 ≡ bit_and flags 1 =
      bit_and_low 1 (bit_or flags 8) ∙ low ∙ sym (bit_and_low 1 flags) in
    ap (λ t. not (t == 0)) one

module _ (u : LockUsage) (c : Caller) where
  mark_locked-framebuffer :
      (usage new : ℕ) (h : PrivateHandle)
      → is_framebuffer (mark_locked u c usage new h) ≡ is_framebuffer h
  unfolding mark_locked
  mark_locked-framebuffer usage new h =
      elim (Bool-cases (test usage u.sw_write_mask && not (is_framebuffer h))) [
        | inl e ↦ rw e (flush_keeps h.flags)
        | inr e ↦ rw e refl
      ]

  -- The handle `h1` after the lock word of `h` has become `new`.
  record Held (new : ℕ) (h h1 : PrivateHandle) : Type 0 where
    word :
        (h1.lock_state ≡ new)
        ⊎ ((test new lock_state_mapped ≡ false) × (h1.lock_state ≡ bit_or new lock_state_mapped))
    owner : h1.write_owner ≡ (if test new lock_state_write then c.tid else h.write_owner)
    valid : is_valid c.header h1 ≡ is_valid c.header h

  map_locked-Held :
      (usage new : ℕ) (h : PrivateHandle)
      → Held new h (map_locked u c (mark_locked u c usage new h)).2
  unfolding map_locked mark_locked gralloc_map mapped_at is_valid
  map_locked-Held usage new h = elim (Bool-cases (test new lock_state_mapped)) [
    | inl m ↦ rw m (record { word = inl refl; owner = refl; valid = refl })
    | inr m ↦ elim (Bool-cases (is_framebuffer (mark_locked u c usage new h))) [
      | inl f ↦ rw (m, f) (record { word = inr (m, refl); owner = refl; valid = refl })
      | inr f ↦ elim (Option-cases c.mapping) [
        | inr (address, a) ↦
            rw (m, f, a) (record { word = inr (m, refl); owner = refl; valid = refl })
        | inl a ↦ elim (Bool-cases (is_zero (neg c.map_errno))) [
          | inl z ↦ rw (m, f, a, z) (record { word = inr (m, refl); owner = refl; valid = refl })
          | inr z ↦ rw (m, f, a, z) (record { word = inl refl; owner = refl; valid = refl })
        ]
      ]
    ]
  ]

  finish_lock-Held :
      (usage current new : ℕ) (h : PrivateHandle)
      → Held new h (finish_lock u c usage current new h).2
  unfolding finish_lock mark_locked is_valid
  finish_lock-Held usage current new h =
      elim (Bool-cases (test usage (bit_or u.sw_read_mask u.sw_write_mask))) [
        | inr s ↦ rw s (record { word = inl refl; owner = refl; valid = refl })
        | inl s ↦ elim (Bool-cases (test current lock_state_mapped)) [
          | inl m ↦ rw (s, m) (record { word = inl refl; owner = refl; valid = refl })
          | inr m ↦ rw (s, m) (map_locked-Held usage new h)
        ]
      ]

  -- The state that a lock leaves, as far as the holders go.
  abbrev taken : Bool → Lock → Lock
  taken write l = record { writer = write; mapped = l.mapped; count = l.count + 1 }

  locked-taken :
      (write : Bool) (l : Lock)
      → (l.writer || (not (l.count == 0) && write)) ≡ false
      → locked write l ≡ some (taken write l)
  unfolding locked
  locked-taken write l h = rw h refl

  -- Where the lock is free for the usage, `gralloc_lock` goes on with the new word.
  gralloc_lock-finish :
      (e : Errno) (usage : ℕ) (h : PrivateHandle) (l : Lock)
      → is_valid c.header h ≡ true
      → h.lock_state ≡ encode l
      → l.count + 1 < 2 ^ 30
      → (l.writer || (not (l.count == 0) && is_write u usage)) ≡ false
      → gralloc_lock u e c usage [] h
        ≡ finish_lock u c usage h.lock_state (encode (taken (is_write u usage) l)) h
  unfolding gralloc_lock lock_loop lock_outcome
  gralloc_lock-finish e usage h l v s room free =
      let word : locked_word u usage h.lock_state ≡ some (encode (taken (is_write u usage) l)) =
        ap (locked_word u usage) s
        ∙ locked_word-encode u usage l room
        ∙ ap encoded (locked-taken (is_write u usage) l free) in
      rw (v, word) refl

  gralloc_unlock-restores :
      (e : Errno) (h : PrivateHandle) (l : Lock)
      → is_valid c.header h ≡ true
      → h.lock_state ≡ encode l
      → l.count < 2 ^ 30
      → 0 < l.count
      → (l.writer && not (h.write_owner == c.tid)) ≡ false
      → let r = gralloc_unlock e c [] h in
        (r.0 ≡ pos 0)
        × (r.1.lock_state
            ≡ encode (record { writer = false; mapped = l.mapped; count = l.count - 1 }))
  unfolding gralloc_unlock unlock_loop finish_unlock unlocked
  gralloc_unlock-restores e h l v s small some_holder mine =
      let held : (l.count == 0) ≡ false = ground (arith, some_holder) in
      let after : Lock = record { writer = false; mapped = l.mapped; count = l.count - 1 } in
      let word : unlocked_word c.tid h.write_owner h.lock_state ≡ some (encode after) =
        ap (unlocked_word c.tid h.write_owner) s
        ∙ unlocked_word-encode c.tid h.write_owner l small
        ∙ rw (held, mine) refl in
      rw (v, word) (refl, refl)

  -- The lock word of a held handle as a lock state.
  record State (h1 : PrivateHandle) (l : Lock) : Type 0 where
    mapped : Bool
    word : h1.lock_state ≡ encode (record l { mapped = mapped })

  Held-State :
      (l : Lock) (h h1 : PrivateHandle) → l.count < 2 ^ 30 → Held (encode l) h h1 → State h1 l
  Held-State l h h1 small k = elim k.word [
    | inl s ↦ record { mapped = l.mapped; word = s }
    | inr (m, s) ↦ record {
      mapped = true;
      word = s ∙ set_mapped l small (sym (test-mapped l small) ∙ m);
    }
  ]

  owned :
      (write : Bool) (owner : ℕ)
      → (write && not ((if write then c.tid else owner) == c.tid)) ≡ false
  owned true owner =
      let same : (c.tid == c.tid) ≡ true = (==_iff c.tid c.tid).1 refl in rw same refl
  owned false owner = refl

  unlock-Held :
      (e : Errno) (write : Bool) (l : Lock) (h h1 : PrivateHandle)
      → is_valid c.header h ≡ true
      → l.count + 1 < 2 ^ 30
      → Held (encode (taken write l)) h h1
      → let r = gralloc_unlock e c [] h1 in
        (r.0 ≡ pos 0)
        × ((decode r.1.lock_state).writer ≡ false)
        × ((decode r.1.lock_state).count ≡ l.count)
  unlock-Held e write l h h1 v room k =
      let t = taken write l in
      let s = Held-State t h h1 room k in
      let mark : test (encode t) lock_state_write ≡ write = test-write t room in
      let owner : h1.write_owner ≡ (if write then c.tid else h.write_owner) =
        k.owner ∙ rw mark refl in
      let (zero_result, word) =
        gralloc_unlock-restores e h1 (record t { mapped = s.mapped }) (k.valid ∙ v) s.word room
          (omega arith) (rw owner (owned write h.write_owner)) in
      let after : Lock = record { writer = false; mapped = s.mapped; count = l.count + 1 - 1 } in
      let decoded = ap decode word ∙ decode-encode after (omega (arith, room)) in
      let writer = ap (λ (x : Lock). x.writer) decoded in
      let count = ap (λ (x : Lock). x.count) decoded in (zero_result, writer, omega (arith, count))

  -- Where the handle is valid and its lock is free for the usage, with room for one more holder,
  -- gralloc_unlock after gralloc_lock by the same thread, with no other in between, returns 0 and
  -- leaves no writer and as many holders as before, whatever became of the mapping.
  pub gralloc_unlock-gralloc_lock :
      (e : Errno) (usage : ℕ) (h : PrivateHandle) (l : Lock)
      → is_valid c.header h ≡ true
      → h.lock_state ≡ encode l
      → l.count + 1 < 2 ^ 30
      → (l.writer || (not (l.count == 0) && is_write u usage)) ≡ false
      → let r = gralloc_unlock e c [] (gralloc_lock u e c usage [] h).2 in
        (r.0 ≡ pos 0)
        × ((decode r.1.lock_state).writer ≡ false)
        × ((decode r.1.lock_state).count ≡ l.count)
  gralloc_unlock-gralloc_lock e usage h l v s room free =
      rw (gralloc_lock-finish e usage h l v s room free) (
        unlock-Held e (is_write u usage) l h _ v room
          (finish_lock-Held usage h.lock_state (encode (taken (is_write u usage) l)) h))

  -- Where the lock of a valid handle is free for a software usage, with room for one more holder,
  -- and the buffer, which is no framebuffer, is not mapped and cannot be, gralloc_lock returns the
  -- error of the mapping and a null address, and still leaves the caller counted as a holder. The
  -- error number is positive.
  pub gralloc_lock_map_failed :
      (e : Errno) (usage : ℕ) (h : PrivateHandle) (l : Lock)
      → is_valid c.header h ≡ true
      → h.lock_state ≡ encode l
      → l.count + 1 < 2 ^ 30
      → (l.writer || (not (l.count == 0) && is_write u usage)) ≡ false
      → l.mapped ≡ false
      → test usage (bit_or u.sw_read_mask u.sw_write_mask) ≡ true
      → is_framebuffer h ≡ false
      → c.mapping ≡ none
      → 0 < c.map_errno
      → let r = gralloc_lock u e c usage [] h in
        (r.0 ≡ neg c.map_errno) × (r.1 ≡ some 0) × ((decode r.2.lock_state).count ≡ l.count + 1)
  unfolding finish_lock map_locked gralloc_map mapped_at mark_locked
  gralloc_lock_map_failed e usage h l v s room free m sw f none_mapped errno =
      let t = taken (is_write u usage) l in
      let before : test h.lock_state lock_state_mapped ≡ false =
        ap (λ w. test w lock_state_mapped) s ∙ test-mapped l (omega (arith, room)) ∙ m in
      let after : test (encode t) lock_state_mapped ≡ false = test-mapped t room ∙ m in
      let plain = mark_locked-framebuffer usage (encode t) h ∙ f in
      rw
        (
          gralloc_lock-finish e usage h l v s room free,
          sw,
          before,
          after,
          plain,
          none_mapped,
          neg_not_zero c.map_errno errno,
        )
        (refl, refl, ap (λ (x : Lock). x.count) (decode-encode t room))
