-- ===== src/Rpc/Codec/Pointers.antt =====
-- librpc/xdr.c: objects behind a pointer on the wire.
use hardware_msm7k.Prelude.{
  ℕ, ◌≡◌, refl, ap, ◌∙◌, arith, Bool, true, ◌==◌, if◌then◌else◌, none, some, List, ◌++◌,
}
use hardware_msm7k.Rpc.{Xdr, Result, done, failed, ◌>>=◌, Routine, by_op, word_bytes}
use hardware_msm7k.Rpc.Stream.{appended}
use hardware_msm7k.Rpc.Scalars.{xdr_bool}
use hardware_msm7k.Rpc.Compound.{xdr_reference, xdr_pointer}
use hardware_msm7k.Rpc.Codec.{
  Sends, Receives, Sends-bind, Receives-bind, Sends-after, Receives-after, Codec,
}
use hardware_msm7k.Rpc.Codec.Words.{xdr_bool-Codec}

module _ {A : Type 0} (f : Routine A) (astray : Xdr → Result {0} Unit) (blank v : A) (bs : List ℕ)
    (codec : Codec f blank v bs) (can_alloc : ℕ → Bool) (size : ℕ)
    (memory : can_alloc size ≡ true) where
  Sends-xdr_reference : Sends (xdr_reference can_alloc blank f astray size (some v)) (some v) bs
  unfolding xdr_reference
  Sends-xdr_reference x h =
      ap (λ o. o >>= λ b y. done (by_op y.op (some b) (some b) none) y) (codec.sends x h)
      ∙ ap (λ o. done (by_op o (some v) (some v) none) (appended bs x)) h.is_op

  Receives-xdr_reference : Receives (xdr_reference can_alloc blank f astray size none) (some v) bs
  unfolding xdr_reference
  Receives-xdr_reference x h =
      let found = λ (q : Bool). if q then f blank x >>= (λ a y. done (some a) y) else failed x in
      ap (λ o. by_op o (astray x >>= λ u y. done none y) (found (can_alloc size)) (done none x))
        h.is_op
      ∙ ap found memory
      ∙ Receives-after bs (f blank) (λ a y. done (some a) y) v (some v) (λ y. refl) codec.receives x
          h

  some-Codec : Codec (xdr_pointer can_alloc blank f astray size) none (some v) (word_bytes 1 ++ bs)
  unfolding xdr_pointer
  some-Codec =
      let there = xdr_bool-Codec 0 1 (omega arith) in
      let again = xdr_bool-Codec 1 1 (omega arith) in
      record {
        whole = omega (arith, codec.whole);
        sends =
            Sends-bind (word_bytes 1) bs refl (xdr_bool 1)
              (λ more y.
                if more == 0
                then done none y
                else xdr_reference can_alloc blank f astray size (some v) y)
              1 (some v) again.sends Sends-xdr_reference;
        receives =
            Receives-bind (word_bytes 1) bs refl (xdr_bool 0)
              (λ more y.
                if more == 0
                then done none y
                else xdr_reference can_alloc blank f astray size none y)
              1 (some v) there.receives Receives-xdr_reference;
      }

  none-Codec : Codec (xdr_pointer can_alloc blank f astray size) none none (word_bytes 0)
  unfolding xdr_pointer
  none-Codec =
      let there = xdr_bool-Codec 0 0 (omega arith) in
      let after = λ (more : ℕ) (y : Xdr).
        if more == 0 then done none y else xdr_reference can_alloc blank f astray size none y in
      record {
        whole = refl;
        sends = Sends-after (word_bytes 0) (xdr_bool 0) after 0 none (λ y. refl) there.sends;
        receives =
            Receives-after (word_bytes 0) (xdr_bool 0) after 0 none (λ y. refl) there.receives;
      }

  -- If a routine writes an object as some bytes and reads it back over zeros, and there is memory
  -- for it, then xdr_pointer writes a pointer to the object as the word 1 and these bytes and a
  -- null pointer as the word 0, and reads each back through a null pointer, in all messages with
  -- room.
  pub xdr_pointer-Codec :
      Codec (xdr_pointer can_alloc blank f astray size) none (some v) (word_bytes 1 ++ bs)
      × Codec (xdr_pointer can_alloc blank f astray size) none none (word_bytes 0)
  xdr_pointer-Codec = (some-Codec, none-Codec)
