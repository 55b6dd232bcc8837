-- ===== src/Rpc/Bounds.antt =====
-- librpc: lengths from a message that the tests on 32-bit sums let through.
use mathlib.Core.List.{append_assoc}
use native.Mathlib.Nat.{div-lt_iff_lt-mul}
use hardware_msm7k.Prelude.Words.{add32, mul32}
use hardware_msm7k.Prelude.Int.{pos, negsuc, neg, signed32, signed32_small}
use hardware_msm7k.Prelude.{
  ℕ, zero, suc, ◌+◌, ◌-◌, ◌*◌, ◌/◌, ◌%◌, ◌^◌, ◌≤◌, ◌<◌, ◌≡◌, refl, ap, ◌∙◌, arith, Bool, true,
  false, ltb, leb, ◌==◌, Bool-cases, inl, inr, if◌then◌else◌, none, some, List, [], ◌∷◌, ◌++◌,
  length,
}
use hardware_msm7k.Rpc.{
  Xdr, decode, Result, done, failed, undefined, ◌>>=◌, Routine, by_op, msgsize_max, word_bytes,
  get_bytes, is_greater,
}
use hardware_msm7k.Rpc.Stream.{is_beyond, recv_bytes, next_after}
use hardware_msm7k.Rpc.Compound.{each, blanks, allocated, array_elements, xdr_array}
use hardware_msm7k.Rpc.Codec.{Incoming, Incoming-split, consumed}
use hardware_msm7k.Rpc.Codec.Words.{xdr_u_int-Codec}
use hardware_msm7k.Rpc.Codec.Arrays.{flat, Codes}

signed32_high : (w : ℕ) → 2 ^ 31 ≤ w → w < 2 ^ 32 → signed32 w ≡ negsuc (2 ^ 32 - 1 - w)
signed32_high w lo hi =
    let high : leb (2 ^ 31) w ≡ true = ground (arith, lo) in
    let count : 2 ^ 32 - w ≡ suc (2 ^ 32 - 1 - w) = omega (arith, hi) in rw high (ap neg count)

-- A message of `len` bytes that is read up to `in_next`.
module _ (x : Xdr) (len : ℕ) (is_len : x.in_len ≡ pos len) (fits : len ≤ msgsize_max)
    (within : x.in_next ≤ len) where
  -- A sum below 2 ^ 31 is compared as it is.
  is_beyond_small : (n : ℕ) → x.in_next + n < 2 ^ 31 → is_beyond n x ≡ ltb len (x.in_next + n)
  is_beyond_small n small =
      ap (λ t. is_greater t x.in_len) (signed32_small (x.in_next + n) small)
      ∙ ap (is_greater (pos (x.in_next + n))) is_len

  -- A sum that reaches 2 ^ 31 is negative or wraps, and is never found to be beyond.
  is_beyond_large : (n : ℕ) → n < 2 ^ 32 → 2 ^ 31 ≤ x.in_next + n → is_beyond n x ≡ false
  is_beyond_large n bound large = elim (Bool-cases (ltb (x.in_next + n) (2 ^ 32))) [
    | inl e ↦
        let plain : add32 x.in_next n ≡ x.in_next + n = ground (arith, e) in
        let high : x.in_next + n < 2 ^ 32 = ground (arith, e) in
        ap (λ w. is_greater (signed32 w) x.in_len) plain
        ∙ ap (λ t. is_greater t x.in_len) (signed32_high (x.in_next + n) large high)
        ∙ ap (is_greater (negsuc (2 ^ 32 - 1 - (x.in_next + n)))) is_len
    | inr e ↦
        let over : 2 ^ 32 ≤ x.in_next + n = ground (arith, e) in
        let wrapped : x.in_next + n - 2 ^ 32 < 2 ^ 31 = omega (arith, bound, within, fits) in
        let rest : add32 x.in_next n ≡ (x.in_next + n - 2 ^ 32) % 2 ^ 32 =
          omega (arith, over, bound, within, fits) in
        let inside : ltb len (x.in_next + n - 2 ^ 32) ≡ false = ground (arith, bound, within) in
        ap (λ w. is_greater (signed32 w) x.in_len) rest
        ∙ ap (λ t. is_greater t x.in_len) (signed32_small (x.in_next + n - 2 ^ 32) wrapped)
        ∙ ap (is_greater (pos (x.in_next + n - 2 ^ 32))) is_len
        ∙ inside
  ]

  -- In a message of at most 18432 bytes that is read up to a place in it, xdr_std_recv_bytes of n
  -- < 2 ^ 32 bytes fails where they pass its end and the sum of n and the place is below 2 ^ 31,
  -- gives the bytes where they lie in the message, and where the sum is 2 ^ 31 or more lets them
  -- through and reads beyond the buffer.
  pub recv_bytes_lem :
      (n : ℕ)
      → n < 2 ^ 32
      → (len < x.in_next + n → x.in_next + n < 2 ^ 31 → recv_bytes n x ≡ failed x)
        × (x.in_next + n ≤ len
            → recv_bytes n x ≡ done (get_bytes x.in_msg n x.in_next) (next_after n x))
        × (2 ^ 31 ≤ x.in_next + n → recv_bytes n x ≡ undefined)
  unfolding recv_bytes
  recv_bytes_lem n bound = (
    λ beyond small.
        let found : is_beyond n x ≡ true = is_beyond_small n small ∙ ground (arith, beyond) in
        rw found refl,
    λ inside.
        let passed : is_beyond n x ≡ false =
          is_beyond_small n (omega (arith, inside, fits)) ∙ ground (arith, inside) in
        let low : ltb msgsize_max (x.in_next + n) ≡ false = ground (arith, inside, fits) in
        rw (passed, low) refl,
    λ large.
        let passed = is_beyond_large n bound large in
        let high : ltb msgsize_max (x.in_next + n) ≡ true = ground (arith, large) in
        rw (passed, high) refl,
  )

positive_factor : (c e : ℕ) → 2 ^ 32 ≤ c * e → 0 < c
positive_factor zero e h = absurd (omega (arith, h))
positive_factor (suc c) e h = omega arith

fewer : (c e : ℕ) → 0 < e → 2 ^ 32 ≤ c * e → mul32 c e / e < c
fewer c e size over = (div-lt_iff_lt-mul size).1 (omega (arith, over))

module _ {A : Type 0} (f : Routine A) (blank : A) (bytes : A → List ℕ)
    (astray : Xdr → Result {0} Unit) (w : A)
    (beyond : (y : Xdr) → Incoming decode (bytes w) y → astray y ≡ undefined) where
  -- A count that passes the elements that there is memory for leaves it.
  each-short :
      (vs : List A) (n : ℕ) (x : Xdr)
      → Codes f blank bytes vs
      → length vs < n
      → Incoming decode (flat bytes vs ++ bytes w) x
      → each f astray n (blanks blank (length vs)) x ≡ undefined
  unfolding each
  each-short vs zero x codes short h = absurd (omega (arith, short))
  each-short [] (suc n) x codes short h = ap (λ o. o >>= λ u y. each f astray n [] y) (beyond x h)
  each-short (v ∷ vs) (suc n) x codes short h =
      let parts =
        Incoming-split (bytes v) (flat bytes vs ++ bytes w) codes.0.whole x
          (rw append_assoc at h) in
      ap
        (λ o.
          o >>= λ w' y. each f astray n (blanks blank (length vs)) y >>= λ ws z. done (w' ∷ ws) z)
        (codes.0.receives x parts.0)
      ∙ ap (λ o. o >>= λ ws z. done (v ∷ ws) z)
          (each-short vs n (consumed (bytes v) x) codes.1 (omega (arith, short)) parts.1)

  -- Where the count in a message is at most maxsize but the size of the array in bytes reaches 2 ^
  -- 32, there is memory for the wrapped size, and the message goes on with one element more than
  -- that memory holds, at whose target the element's routine goes beyond the memory, xdr_array,
  -- reading through a null pointer, goes beyond it.
  pub xdr_array_overflow :
      (can_alloc : ℕ → Bool) (maxsize elsize c : ℕ) (vs : List A) (x : Xdr)
      → c < 2 ^ 32
      → c ≤ maxsize
      → 0 < elsize
      → 2 ^ 32 ≤ c * elsize
      → can_alloc (mul32 c elsize) ≡ true
      → length vs ≡ mul32 c elsize / elsize
      → Codes f blank bytes vs
      → Incoming decode (word_bytes c ++ (flat bytes vs ++ bytes w)) x
      → xdr_array can_alloc blank f astray maxsize elsize (none, 0) x ≡ undefined
  unfolding xdr_array
  xdr_array_overflow can_alloc maxsize elsize c vs x bound small size over memory held codes h =
      let parts = Incoming-split (word_bytes c) (flat bytes vs ++ bytes w) refl x h in
      let y = consumed (word_bytes c) x in
      let inside : ltb maxsize c ≡ false = ground (arith, small) in
      let some_one : (c == 0) ≡ false = ground (arith, positive_factor c elsize over) in
      ap
        (λ o. o >>= λ n z.
          if by_op z.op (ltb maxsize n) (ltb maxsize n) false
          then failed z
          else array_elements can_alloc blank f astray elsize none n z)
        ((xdr_u_int-Codec 0 c bound).receives x parts.0)
      ∙ ap
          (λ o.
            if by_op o (ltb maxsize c) (ltb maxsize c) false
            then failed y
            else array_elements can_alloc blank f astray elsize none c y)
          h.is_op
      ∙ ap (λ q. if q then failed y else array_elements can_alloc blank f astray elsize none c y)
          inside
      ∙ ap
          (λ o.
            by_op o (each f astray c [] y >>= λ ws z. done (none, c) z)
              (allocated can_alloc blank f astray elsize c y) (done (none, c) y))
          h.is_op
      ∙ rw (some_one, memory, ← held)
          (ap (λ o. o >>= λ ws z. done (some ws, c) z)
            (each-short vs c y codes (rw held (fewer c elsize size over)) parts.1))
