-- ===== src/Rpc/Callback/Rounds.antt =====
-- librpc/clnt.c: what a round of the callback thread leaves, for a call to a server that is registered.
use mathlib.Core.Option.{some_inj}
use hardware_msm7k.Prelude.Int.{pos}
use hardware_msm7k.Prelude.{
  ℕ, suc, ◌+◌, ◌≤◌, ◌≡◌, refl, sym, ap, ◌∙◌, arith, Bool, true, false, ltb, ◌==◌, ==_iff,
  Bool-cases, inl, inr, if◌then◌else◌, Option, none, some, List, [], ◌∷◌,
}
use hardware_msm7k.Rpc.{decode, load_word}
use hardware_msm7k.Rpc.Server.{Server, Transport, is_server, svc_find}
use hardware_msm7k.Rpc.Dispatch.{Request, in_word, is_for, called, svc_dispatch}
use hardware_msm7k.Rpc.Callback.{
  Callbacks, copied, cloned, replaced, callback_round, over_xprt, found_or_not, for_server,
  dispatched_to, differ,
}

copied_word : (n : ℕ) (m : ℕ → ℕ) (p : ℕ) → p + 4 ≤ n → load_word (copied n m) p ≡ load_word m p
copied_word n m p h =
    let a : ltb p n ≡ true = ground (arith, h) in
    let b : ltb (suc p) n ≡ true = ground (arith, h) in
    let c : ltb (suc (suc p)) n ≡ true = ground (arith, h) in
    let d : ltb (suc (suc (suc p))) n ≡ true = ground (arith, h) in rw (a, b, c, d) refl

-- What is found has the program that was looked for.
svc_find-prog :
    (prog vers : ℕ) (ss : List Server) (s : Server) → svc_find prog vers ss ≡ some s → s.prog ≡ prog
unfolding svc_find
svc_find-prog prog vers [] s h = absurd (cc h)
svc_find-prog prog vers (r ∷ ss) s h = elim (Bool-cases (is_server prog vers r)) [
  | inl e ↦
      let here : r ≡ s = some_inj.0 (sym (rw e refl) ∙ h) in
      let own : r.prog ≡ prog = ground (arith, e) in ap (λ q. q.prog) (sym here) ∙ own
  | inr e ↦ svc_find-prog prog vers ss s (sym (rw e refl) ∙ h)
]

differ_same : (b : Bool) → differ b b ≡ false
differ_same true = refl
differ_same false = refl

-- A call that has come in, with the transport of a state.
module _ (service : Request → Server → Server) (pid : ℕ) (duplicates : Bool) (st : Callbacks)
    (t : Transport) (there : st.the_xprt ≡ some t) (same : st.xprt_in_reset ≡ st.client.in_reset)
    (called_back : st.client.got_cb ≡ true) where
  abbrev pub call_prog : ℕ
  call_prog = in_word 3 st.client.xdr

  abbrev pub call_vers : ℕ
  call_vers = in_word 4 st.client.xdr

  abbrev pub taken : Callbacks
  taken = record st { client = record st.client { got_cb = false } }

  to_lookup :
      (o : Option Server)
      → svc_find call_prog call_vers t.servers ≡ o
      → callback_round service pid duplicates st
        ≡ found_or_not service pid duplicates call_prog call_vers t taken o
  unfolding callback_round
  to_lookup o found =
      let calm : differ st.client.in_reset st.xprt_in_reset ≡ false =
        ap (differ st.client.in_reset) same ∙ differ_same st.client.in_reset in
      ap (λ q. over_xprt service pid duplicates q st) there
      ∙ rw (calm, called_back)
          (ap (found_or_not service pid duplicates call_prog call_vers t taken) found)

  -- When a call of at least 24 bytes has come in for a client that agrees with the transport about
  -- resets, to a program and version that is registered, and the handle can be duplicated: a round
  -- of the callback thread calls the function of that entry with the program, the version and the
  -- procedure of the message and a copy of the handle at the arguments, and leaves the entry
  -- without a handle and the input buffer free.
  pub callback_round-registered :
      (s : Server) (len : ℕ)
      → svc_find call_prog call_vers t.servers ≡ some s
      → duplicates ≡ true
      → st.client.xdr.in_len ≡ pos len
      → 24 ≤ len
      → in_word 1 st.client.xdr ≡ 0
      → callback_round service pid duplicates st
        ≡ some (record taken {
          client = record st.client { got_cb = false; input_xdr_busy = false };
          the_xprt = some (record t {
            servers =
                replaced call_prog call_vers
                  (record (service
                    (record { prog = call_prog; vers = call_vers; proc = in_word 5 st.client.xdr })
                    (record s {
                      xdr = some (record (cloned call_prog call_vers len st.client.xdr) {
                        in_next = 40;
                        op = decode;
                      });
                      active = pid;
                    })) { active = 0; xdr = none })
                  t.servers;
          });
        })
  unfolding callback_round svc_dispatch
  callback_round-registered s len found dup is_len long is_call =
      let x = cloned call_prog call_vers len st.client.xdr in
      let u = record s { xdr = some x } in
      let m = st.client.xdr.in_msg in
      let w1 = copied_word len m 4 (omega (arith, long)) in
      let w3 = copied_word len m 12 (omega (arith, long)) in
      let w4 = copied_word len m 16 (omega (arith, long)) in
      let w5 = copied_word len m 20 (omega (arith, long)) in
      let own : (call_prog == s.prog) ≡ true =
        (==_iff call_prog s.prog).1 (sym (svc_find-prog call_prog call_vers t.servers s found)) in
      let version : (call_vers == call_vers) ≡ true = (==_iff call_vers call_vers).1 refl in
      let for_it : is_for u x ≡ true = rw (w1, is_call, w3, own, w4, version) refl in
      to_lookup (some s) found
      ∙ ap (λ l. for_server service pid duplicates call_prog call_vers l t taken s) is_len
      ∙ ap
          (λ q.
            if q
            then dispatched_to service pid duplicates call_prog call_vers t taken
                (svc_dispatch service pid u)
            else none)
          dup
      ∙ ap
          (λ q.
            dispatched_to service pid duplicates call_prog call_vers t taken
              (if q then some (called service pid u x) else some u))
          for_it
      ∙ rw (w3, w4, w5) refl
