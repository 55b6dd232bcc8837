-- ===== src/Rpc/Codec/Strings.antt =====
-- librpc/xdr.c: what `xdr_opaque`, `xdr_string` and `xdr_bytes` put on the wire.
use native.Mathlib.Nat.{mod-eq_of_lt}
use hardware_msm7k.Prelude.Words.{add32}
use hardware_msm7k.Prelude.{
  ℕ, zero, suc, ◌+◌, ◌^◌, ◌≤◌, ◌<◌, ◌≡◌, refl, ap, ◌∙◌, arith, Bool, true, false, ltb, ◌==◌,
  if◌then◌else◌, none, some, List, [], ◌∷◌, ◌++◌, length,
}
use hardware_msm7k.Rpc.{Xdr, done, failed, ◌>>=◌, by_op, word_bytes}
use hardware_msm7k.Rpc.Stream.{send_bytes, recv_bytes}
use hardware_msm7k.Rpc.Scalars.{xdr_u_int}
use hardware_msm7k.Rpc.Compound.{
  held, send_held, first, overlay, cons_option, suc_option, opaque_bytes, xdr_opaque, strlen,
  end_at, blanks, string_in, string_out, string_free, string_storage, xdr_string,
}
use hardware_msm7k.Rpc.Codec.{
  Sends, Receives, Sends-bind, Receives-bind, Sends-after, Receives-after, Codec,
}
use hardware_msm7k.Rpc.Codec.Words.{xdr_u_int-Codec, Codec-by_op}
use hardware_msm7k.Rpc.Codec.Texts.{padded, padded-IsWhole, Sends-send_bytes, Receives-recv_bytes}
use hardware_msm7k.Rpc.Codec.Arrays.{Sends-none, Receives-none}

first-append : (s rest : List ℕ) → first (length s) (s ++ rest) ≡ some s
unfolding first
first-append [] rest = refl
first-append (b ∷ s) rest = ap (cons_option b) (first-append s rest)

overlay-append :
    (s old rest : List ℕ) → length old ≡ length s → overlay s (old ++ rest) ≡ some (s ++ rest)
unfolding overlay
overlay-append [] [] rest h = refl
overlay-append [] (b ∷ old) rest h = absurd (omega (arith, h))
overlay-append (b ∷ s) [] rest h = absurd (omega (arith, h))
overlay-append (b ∷ s) (c ∷ old) rest h =
    ap (cons_option b) (overlay-append s old rest (omega (arith, h)))

end_at-blanks : (n : ℕ) → end_at n (blanks 0 (suc n)) ≡ some (blanks 0 n ++ (0 ∷ []))
unfolding end_at
end_at-blanks zero = refl
end_at-blanks (suc n) = ap (cons_option 0) (end_at-blanks n)

length-blanks : (n : ℕ) → length {A = ℕ} (blanks 0 n) ≡ n
length-blanks zero = refl
length-blanks (suc n) = ap suc (length-blanks n)

-- Characters, of which none is the zero that ends a string.
abbrev pub IsText : List ℕ → Type 0
IsText [] = Unit
IsText (b ∷ bs) = (0 < b) × IsText bs

strlen-append : (s rest : List ℕ) → IsText s → strlen (s ++ (0 ∷ rest)) ≡ some (length s)
unfolding strlen
strlen-append [] rest h = refl
strlen-append (zero ∷ s) rest h = absurd (omega (arith, h.0))
strlen-append (suc b ∷ s) rest h = ap suc_option (strlen-append s rest h.1)

not_empty : (b : ℕ) (t : List ℕ) → (length (b ∷ t) == 0) ≡ false
not_empty b t = ground arith

-- The bytes at the start of a buffer, and those read over the start of one.
pub Sends-xdr_opaque :
    (s rest : List ℕ) → Sends (xdr_opaque (length s) (s ++ rest)) (s ++ rest) (padded s)
unfolding xdr_opaque send_held
Sends-xdr_opaque [] rest x h = Sends-none rest x h
Sends-xdr_opaque (b ∷ t) rest x h =
    let s = b ∷ t in
    ap (λ q. if q then done (s ++ rest) x else opaque_bytes (length s) (s ++ rest) x)
      (not_empty b t)
    ∙ ap
        (λ o.
          by_op o
            (send_held (first (length s) (s ++ rest)) (length s) x >>= λ u z. done (s ++ rest) z)
            (recv_bytes (length s) x >>= λ bs y. held (overlay bs (s ++ rest)) y)
            (done (s ++ rest) x))
        h.is_op
    ∙ ap (λ o. send_held o (length s) x >>= λ u z. done (s ++ rest) z) (first-append s rest)
    ∙ Sends-after (padded s) (send_bytes s) (λ u z. done (s ++ rest) z) s (s ++ rest) (λ y. refl)
        (Sends-send_bytes s) x h

pub Receives-xdr_opaque :
    (s old rest : List ℕ)
    → length old ≡ length s
    → Receives (xdr_opaque (length s) (old ++ rest)) (s ++ rest) (padded s)
unfolding xdr_opaque
Receives-xdr_opaque [] [] rest e x h = Receives-none rest x h
Receives-xdr_opaque [] (b ∷ old) rest e x h = absurd (omega (arith, e))
Receives-xdr_opaque (b ∷ t) old rest e x h =
    let s = b ∷ t in
    ap (λ q. if q then done (old ++ rest) x else opaque_bytes (length s) (old ++ rest) x)
      (not_empty b t)
    ∙ ap
        (λ o.
          by_op o
            (send_held (first (length s) (old ++ rest)) (length s) x >>= λ u z.
              done (old ++ rest) z)
            (recv_bytes (length s) x >>= λ bs y. held (overlay bs (old ++ rest)) y)
            (done (old ++ rest) x))
        h.is_op
    ∙ Receives-after (padded s) (recv_bytes (length s)) (λ bs y. held (overlay bs (old ++ rest)) y)
        s (s ++ rest) (λ y. ap (λ o. held o y) (overlay-append s old rest e))
        (Receives-recv_bytes s) x h

-- The bytes of a string: its length, and its characters.
abbrev pub string_bytes : List ℕ → List ℕ
string_bytes s = word_bytes (length s) ++ padded s

abbrev pub c_string : List ℕ → List ℕ
c_string s = s ++ (0 ∷ [])

module _ (can_alloc : ℕ → Bool) (maxsize : ℕ) (s : List ℕ) (text : IsText s)
    (small : length s ≤ maxsize) (bound : length s + 1 < 2 ^ 32) where
  inside : ltb maxsize (length s) ≡ false
  inside = ground (arith, small)

  count : Codec xdr_u_int 0 (length s) (word_bytes (length s))
  count = xdr_u_int-Codec 0 (length s) (omega (arith, bound))

  Sends-string :
      Sends (string_out can_alloc maxsize (some (c_string s))) (some (c_string s)) (string_bytes s)
  unfolding strlen
  Sends-string x h =
      let behind = λ (size : ℕ) (y : Xdr).
        if ltb maxsize size
        then failed y
        else xdr_opaque size (c_string s) y >>= (λ t z. done (some (c_string s)) z) in
      ap (λ o. held o x >>= xdr_u_int >>= behind) (strlen-append s [] text)
      ∙ Sends-bind (word_bytes (length s)) (padded s) refl (xdr_u_int (length s)) behind (length s)
          (some (c_string s)) count.sends
          (λ y k.
            ap
              (λ t.
                if t
                then failed y
                else xdr_opaque (length s) (c_string s) y >>= (λ t z. done (some (c_string s)) z))
              inside
            ∙ Sends-after (padded s) (xdr_opaque (length s) (c_string s))
                (λ t z. done (some (c_string s)) z) (c_string s) (some (c_string s)) (λ z. refl)
                (Sends-xdr_opaque s (0 ∷ [])) y k)
          x h

  Receives-string :
      can_alloc (length s + 1) ≡ true
      → Receives (string_in can_alloc maxsize none) (some (c_string s)) (string_bytes s)
  unfolding end_at
  Receives-string memory =
      let n = length s in
      let behind = λ (size : ℕ) (y : Xdr).
        if ltb maxsize size
        then failed y
        else if add32 size 1 == 0
        then done none y
        else string_storage can_alloc none size y
          >>= (λ buf z. held (end_at size buf) z >>= xdr_opaque size >>= λ u w. done (some u) w) in
      let more : (add32 n 1 == 0) ≡ false = ground (arith, bound) in
      let found : can_alloc (add32 n 1) ≡ true = ap can_alloc (mod-eq_of_lt bound) ∙ memory in
      Receives-bind (word_bytes n) (padded s) refl (xdr_u_int 0) behind n (some (c_string s))
        count.receives
        (λ y k.
          rw (inside, more, found, end_at-blanks n)
            (Receives-after (padded s) (xdr_opaque n (blanks 0 n ++ (0 ∷ [])))
              (λ u w. done (some u) w) (c_string s) (some (c_string s)) (λ z. refl)
              (Receives-xdr_opaque s (blanks 0 n) (0 ∷ []) (length-blanks n)) y k))

  -- A string with no zero in it that is not longer than maxsize, where its length and 1 are below
  -- 2 ^ 32 and there is memory for it, is written by xdr_string as its length, its characters and
  -- zeros up to a multiple of 4, and read back, with its zero, through a null pointer.
  pub xdr_string-Codec :
      can_alloc (length s + 1) ≡ true
      → Codec (xdr_string can_alloc maxsize) none (some (c_string s)) (string_bytes s)
  unfolding xdr_string
  xdr_string-Codec memory =
      Codec-by_op (string_out can_alloc maxsize) (string_in can_alloc maxsize)
        (string_free can_alloc maxsize) none (some (c_string s)) (string_bytes s)
        (omega (arith, padded-IsWhole s)) Sends-string (Receives-string memory)
