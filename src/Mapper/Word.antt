-- ===== src/Mapper/Word.antt =====
-- The lock word as a writer's mark, a mark of the mapping, and a count of the holders.
use hardware_msm7k.Prelude.Words.{not32, test}
use hardware_msm7k.Prelude.Bits.{bit_and_low}
use hardware_msm7k.Prelude.Masks.{bit_or_disjoint, clear_mask, bit_value}
use hardware_msm7k.Prelude.{
  ℕ, ◌+◌, ◌-◌, ◌*◌, ◌/◌, ◌%◌, ◌^◌, ◌<◌, ◌≡◌, refl, ap, Bool, true, false, not, ◌&&◌, ◌||◌, bit_and,
  bit_or, ◌==◌, if◌then◌else◌, Option, none, some, arith, Bool-cases, inl, inr,
}
use hardware_msm7k.Handle.{lock_state_write, lock_state_mapped, lock_state_read_mask}
use hardware_msm7k.Mapper.{LockUsage, is_write, locked_word, unmarked, unlocked_word}

-- The state of the lock.
pub record Lock : Type 0 where
  pub writer : Bool
  pub mapped : Bool
  pub count : ℕ

abbrev pub bit : Bool → ℕ
bit b = if b then 1 else 0

abbrev pub encode : Lock → ℕ
encode l = bit l.writer * 2 ^ 31 + bit l.mapped * 2 ^ 30 + l.count

-- Taking the lock: one writer, or any number of readers.
unfoldable pub locked : (write : Bool) → Lock → Option Lock
locked write l =
    if l.writer || (not (l.count == 0) && write)
    then none
    else some (record { writer = write; mapped = l.mapped; count = l.count + 1 })

-- Giving it back. `owns` says that the caller is the writer.
unfoldable pub unlocked : (owns : Bool) → Lock → Option Lock
unlocked owns l =
    if l.count == 0
    then none
    else some (record { writer = l.writer && not owns; mapped = l.mapped; count = l.count - 1 })

-- The state that a word stands for.
abbrev pub decode : ℕ → Lock
decode word = record {
  writer = word / 2 ^ 31 == 1;
  mapped = word / 2 ^ 30 % 2 == 1;
  count = word % 2 ^ 30;
}

pub encode-decode : (word : ℕ) → word < 2 ^ 32 → encode (decode word) ≡ word
encode-decode word h = ground arith

bit-one : (b : Bool) → (bit b == 1) ≡ b
bit-one true = refl
bit-one false = refl

pub decode-encode : (l : Lock) → l.count < 2 ^ 30 → decode (encode l) ≡ l
decode-encode l h = lock_ext _ l (ground arith) (ground arith) (omega arith)
  where
    lock_ext : (a b : Lock) → a.writer ≡ b.writer → a.mapped ≡ b.mapped → a.count ≡ b.count → a ≡ b
    lock_ext a b p q r = λ i. record { writer = p i; mapped = q i; count = r i }

abbrev pub encoded : Option Lock → Option ℕ
encoded none = none
encoded (some l) = some (encode l)

module _ (l : Lock) (small : l.count < 2 ^ 30) where
  write_part : bit_and (encode l) lock_state_write ≡ bit l.writer * 2 ^ 31
  write_part = ground (arith, bit_value 31 (encode l))

  mapped_part : bit_and (encode l) lock_state_mapped ≡ bit l.mapped * 2 ^ 30
  mapped_part = ground (arith, bit_value 30 (encode l))

  count_part : bit_and (encode l) lock_state_read_mask ≡ l.count
  count_part = ground (arith, bit_and_low 30 (encode l))

  pub test-write : test (encode l) lock_state_write ≡ l.writer
  test-write = ground (arith, write_part)

  pub test-mapped : test (encode l) lock_state_mapped ≡ l.mapped
  test-mapped = ground (arith, mapped_part)

  pub test-count : test (encode l) lock_state_read_mask ≡ not (l.count == 0)
  test-count = ground (arith, count_part)

  pub encode-lt : encode l < 2 ^ 32
  encode-lt = ground arith

  set_writer :
      l.writer ≡ false → bit_or (encode l) lock_state_write ≡ encode (record l { writer = true })
  set_writer e = ground (arith, bit_or_disjoint (encode l) lock_state_write, write_part)

  pub set_mapped :
      l.mapped ≡ false → bit_or (encode l) lock_state_mapped ≡ encode (record l { mapped = true })
  set_mapped e = ground (arith, bit_or_disjoint (encode l) lock_state_mapped, mapped_part)

  clear_writer : bit_and (encode l) (not32 lock_state_write) ≡ encode (record l { writer = false })
  clear_writer = ground (arith, clear_mask (encode l) lock_state_write, write_part)

pub and_false : (b : Bool) → (b && false) ≡ false
and_false true = refl
and_false false = refl

module _ (u : LockUsage) where
  -- On a word that stands for a lock state with room for one more holder, one round of
  -- gralloc_lock does what the lock does that admits one writer or any number of readers.
  pub locked_word-encode :
      (usage : ℕ) (l : Lock)
      → l.count + 1 < 2 ^ 30
      → locked_word u usage (encode l) ≡ encoded (locked (is_write u usage) l)
  unfolding locked_word locked
  locked_word-encode usage l h = elim (Bool-cases l.writer) [
    | inl w ↦ rw (test-write l small, w) refl
    | inr w ↦ elim (Bool-cases (is_write u usage)) [
      | inr r ↦
          rw (test-write l small, test-count l small, w, r, and_false) (ap some (ground arith))
      | inl r ↦ elim (Bool-cases (l.count == 0)) [
        | inl z ↦
            rw (test-write l small, test-count l small, w, r, z)
              (ap some (ground (arith, set_writer (record l { writer = false }) small refl)))
        | inr z ↦ rw (test-write l small, test-count l small, w, r, z) refl
      ]
    ]
  ]
    where
      small : l.count < 2 ^ 30
      small = omega (arith, h)

unmarked-encode :
    (tid owner : ℕ) (l : Lock)
    → l.count < 2 ^ 30
    → unmarked tid owner (encode l) ≡ encode (record l { writer = l.writer && not (owner == tid) })
unfolding unmarked
unmarked-encode tid owner l h = elim (Bool-cases l.writer) [
  | inr w ↦ rw (test-write l h, w) refl
  | inl w ↦ elim (Bool-cases (owner == tid)) [
    | inl o ↦ rw (test-write l h, w, o) (clear_writer (record l { writer = true }) h)
    | inr o ↦ rw (test-write l h, w, o) refl
  ]
]

-- The word that gralloc_unlock computes.
pub unlocked_word-encode :
    (tid owner : ℕ) (l : Lock)
    → l.count < 2 ^ 30
    → unlocked_word tid owner (encode l) ≡ encoded (unlocked (owner == tid) l)
unfolding unlocked_word unlocked
unlocked_word-encode tid owner l h =
    rw
      (
        unmarked-encode tid owner l h,
        count_part (record l { writer = l.writer && not (owner == tid) }) h,
      )
      (elim (Bool-cases (l.count == 0)) [
        | inl z ↦ rw z refl
        | inr z ↦ rw z (ap some (ground arith))
      ])
