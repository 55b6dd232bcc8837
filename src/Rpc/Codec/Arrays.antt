-- ===== src/Rpc/Codec/Arrays.antt =====
-- librpc/xdr.c: vectors, arrays and pointers on the wire, from what the elements are there.
use native.Mathlib.Nat.{mul-div_cancel_left}
use hardware_msm7k.Prelude.Words.{mul32, le_product}
use hardware_msm7k.Prelude.{
  ℕ, ◌+◌, ◌*◌, ◌/◌, ◌^◌, ◌≤◌, ◌<◌, ◌≡◌, refl, ap, ◌∙◌, arith, Bool, true, false, ltb, ◌==◌,
  if◌then◌else◌, none, some, List, [], ◌∷◌, ◌++◌, length, length-append,
}
use hardware_msm7k.Rpc.{
  Xdr, XdrOp, Result, done, failed, ◌>>=◌, Routine, by_op, word_bytes, put_bytes,
}
use hardware_msm7k.Rpc.Stream.{appended}
use hardware_msm7k.Rpc.Scalars.{xdr_u_int}
use hardware_msm7k.Rpc.Compound.{each, blanks, array_elements, allocated, xdr_array}
use hardware_msm7k.Rpc.Codec.{
  Sends, SendsAt, Receives, ReceivesAt, Sends-bind, Receives-bind, Sends-after, Receives-after,
  Codec,
}
use hardware_msm7k.Rpc.Codec.Words.{xdr_u_int-Codec}

pub Sends-none : {A : Type 0} {o : XdrOp} (v : A) → SendsAt o (λ x. done v x) v []
unfolding put_bytes
Sends-none v x h =
    let same : x.out_next ≡ x.out_next + 0 = omega arith in
    ap (λ n. done v (record x { out_next = n })) same

pub Receives-none : {A : Type 0} {o : XdrOp} (v : A) → ReceivesAt o (λ x. done v x) v []
Receives-none v x h =
    let same : x.in_next ≡ x.in_next + 0 = omega arith in
    ap (λ n. done v (record x { in_next = n })) same

-- The bytes of the elements, one after the other.
abbrev pub flat {ℓ} : {A : Type ℓ} → (A → List ℕ) → List A → List ℕ
flat bytes [] = []
flat bytes (v ∷ vs) = bytes v ++ flat bytes vs

module _ {A : Type 0} (f : Routine A) (blank : A) (bytes : A → List ℕ) where
  -- The routine writes and reads each element, over zeros, as its bytes.
  abbrev pub Codes : List A → Type 0
  Codes [] = Unit
  Codes (v ∷ vs) = Codec f blank v (bytes v) × Codes vs

  pub each-Codec :
      (astray : Xdr → Result {0} Unit) (vs : List A)
      → Codes vs
      → Codec (each f astray (length vs)) (blanks blank (length vs)) vs (flat bytes vs)
  unfolding each
  each-Codec astray [] c = record {
    whole = refl;
    sends = Sends-none [];
    receives = Receives-none [];
  }
  each-Codec astray (v ∷ vs) c =
      let rest = each-Codec astray vs c.1 in
      let n = length vs in
      record {
        whole = omega (arith, length-append (bytes v) (flat bytes vs), c.0.whole, rest.whole);
        sends =
            Sends-bind (bytes v) (flat bytes vs) c.0.whole (f v)
              (λ w y. each f astray n vs y >>= λ ws z. done (w ∷ ws) z) v (v ∷ vs) c.0.sends
              (Sends-after (flat bytes vs) (each f astray n vs) (λ ws z. done (v ∷ ws) z) vs
                (v ∷ vs) (λ y. refl) rest.sends);
        receives =
            Receives-bind (bytes v) (flat bytes vs) c.0.whole (f blank)
              (λ w y. each f astray n (blanks blank n) y >>= λ ws z. done (w ∷ ws) z) v (v ∷ vs)
              c.0.receives
              (Receives-after (flat bytes vs) (each f astray n (blanks blank n))
                (λ ws z. done (v ∷ ws) z) vs (v ∷ vs) (λ y. refl) rest.receives);
      }

  -- The bytes of an array: the number of its elements, and the elements.
  abbrev pub array_bytes : List A → List ℕ
  array_bytes vs = word_bytes (length vs) ++ flat bytes vs

  module _ (astray : Xdr → Result {0} Unit) (can_alloc : ℕ → Bool) (maxsize elsize : ℕ)
      (vs : List A) (codes : Codes vs) (small : length vs ≤ maxsize) (size : 0 < elsize)
      (words : elsize * length vs < 2 ^ 32) (memory : can_alloc (elsize * length vs) ≡ true)
      (some_element : 0 < length vs) where
    length-small : length vs < 2 ^ 32
    length-small =
        omega (arith, words, le_product elsize (length vs) (elsize * length vs) size refl)

    Sends-elements :
        Sends
          (array_elements can_alloc blank f astray elsize (some vs) (length vs))
          (some vs, length vs)
          (flat bytes vs)
    unfolding each
    Sends-elements x h =
        ap (λ o. o >>= λ ws y. done (by_op y.op (some ws) (some ws) none, length vs) y)
          ((each-Codec astray vs codes).sends x h)
        ∙ ap (λ o. done (by_op o (some vs) (some vs) none, length vs) (appended (flat bytes vs) x))
            h.is_op

    pub Sends-xdr_array :
        Sends
          (xdr_array can_alloc blank f astray maxsize elsize (some vs, length vs))
          (some vs, length vs)
          (array_bytes vs)
    unfolding xdr_array
    Sends-xdr_array =
        let inside : ltb maxsize (length vs) ≡ false = ground (arith, small) in
        Sends-bind (word_bytes (length vs)) (flat bytes vs) refl (xdr_u_int (length vs))
          (λ c y.
            if by_op y.op (ltb maxsize c) (ltb maxsize c) false
            then failed y
            else array_elements can_alloc blank f astray elsize (some vs) c y)
          (length vs) (some vs, length vs)
          (xdr_u_int-Codec (length vs) (length vs) length-small).sends
          (λ y h.
            ap
              (λ o.
                if by_op o (ltb maxsize (length vs)) (ltb maxsize (length vs)) false
                then failed y
                else array_elements can_alloc blank f astray elsize (some vs) (length vs) y)
              h.is_op
            ∙ ap
                (λ t.
                  if t
                  then failed y
                  else array_elements can_alloc blank f astray elsize (some vs) (length vs) y)
                inside
            ∙ Sends-elements y h)

    counted : mul32 (length vs) elsize ≡ elsize * length vs
    counted = omega (arith, words)

    back : mul32 (length vs) elsize / elsize ≡ length vs
    back = rw counted (mul-div_cancel_left (length vs) size)

    Receives-elements :
        Receives
          (array_elements can_alloc blank f astray elsize none (length vs))
          (some vs, length vs)
          (flat bytes vs)
    unfolding each
    Receives-elements x h =
        let n = length vs in
        let some_one : (n == 0) ≡ false = ground (arith, some_element) in
        let found : can_alloc (mul32 n elsize) ≡ true = rw counted memory in
        ap
          (λ o.
            by_op o (each f astray n [] x >>= λ ws y. done (none, n) y)
              (allocated can_alloc blank f astray elsize n x) (done (none, n) x))
          h.is_op
        ∙ rw (some_one, found, back)
            (Receives-after (flat bytes vs) (each f astray n (blanks blank n))
              (λ ws y. done (some ws, n) y) vs (some vs, n) (λ y. refl)
              (each-Codec astray vs codes).receives x h)

    -- If a routine writes each element of an array as some bytes and reads it back over zeros, the
    -- array is not empty and not longer than maxsize, its size in bytes is below 2 ^ 32 and there
    -- is memory for it, then xdr_array writes the array as its length and its elements, and reads
    -- it back through a null pointer, in all messages with room for it.
    pub xdr_array-Codec :
        Codec
          (xdr_array can_alloc blank f astray maxsize elsize)
          (none, 0)
          (some vs, length vs)
          (array_bytes vs)
    unfolding xdr_array
    xdr_array-Codec =
        let inside : ltb maxsize (length vs) ≡ false = ground (arith, small) in
        let count = xdr_u_int-Codec 0 (length vs) length-small in
        record {
          whole = omega (arith, (each-Codec astray vs codes).whole);
          sends = Sends-xdr_array;
          receives =
              Receives-bind (word_bytes (length vs)) (flat bytes vs) refl (xdr_u_int 0)
                (λ c y.
                  if by_op y.op (ltb maxsize c) (ltb maxsize c) false
                  then failed y
                  else array_elements can_alloc blank f astray elsize none c y)
                (length vs) (some vs, length vs) count.receives
                (λ y h.
                  ap
                    (λ o.
                      if by_op o (ltb maxsize (length vs)) (ltb maxsize (length vs)) false
                      then failed y
                      else array_elements can_alloc blank f astray elsize none (length vs) y)
                    h.is_op
                  ∙ ap
                      (λ t.
                        if t
                        then failed y
                        else array_elements can_alloc blank f astray elsize none (length vs) y)
                      inside
                  ∙ Receives-elements y h);
        }
