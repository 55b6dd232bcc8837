-- ===== src/Rpc/Exchange/Request.antt =====
-- librpc/rpc.c and librpc/svc.c: a call that a client sends and a server dispatches.
use hardware_msm7k.Prelude.Int.{pos}
use hardware_msm7k.Prelude.{
  ℕ, ◌+◌, ◌^◌, ◌≤◌, ◌<◌, ◌≡◌, refl, ap, ◌∙◌, arith, true, ◌==◌, if◌then◌else◌, some, List, [], ◌∷◌,
  ◌++◌, length,
}
use hardware_msm7k.Rpc.{
  Auth, Xdr, encode, decode, Result, done, ◌>>=◌, Routine, msgsize_max, load_word, get_bytes,
}
use hardware_msm7k.Rpc.Stream.{appended, msg_start, msg_call, send_uint32}
use hardware_msm7k.Rpc.Message.{auth_none, xdr_call_msg_start, xdr_send_auth, msg_version}
use hardware_msm7k.Rpc.Server.{Server}
use hardware_msm7k.Rpc.Dispatch.{Request, is_for, called, svc_dispatch}
use hardware_msm7k.Rpc.Codec.{Incoming, consumed, Sends, Sends-bind, Codec}
use hardware_msm7k.Rpc.Codec.Headers.{Sends-word, words, Sends-xdr_send_auth}
use hardware_msm7k.Rpc.Exchange.{Message, word_in_front, xid_of, msg_start-Message}

-- The words of a call between its type and its arguments.
abbrev pub call_words : (prog ver proc : ℕ) → List ℕ
call_words prog ver proc = 2 ∷ prog ∷ ver ∷ proc ∷ 0 ∷ 0 ∷ 0 ∷ 0 ∷ []

-- The handle when the number and the type of a call are stored.
abbrev pub started : (prog : ℕ) → Xdr → Xdr
started prog x = msg_start msg_call (record x { prog = prog })

-- The handle when the call is complete.
abbrev pub call_sent : (prog ver proc : ℕ) → List ℕ → Xdr → Xdr
call_sent prog ver proc bs x = appended (words (call_words prog ver proc) ++ bs) (started prog x)

module _ (prog ver proc : ℕ) where
  header : Xdr → Result Auth
  header x = send_uint32 msg_version x >>= λ a y. send_uint32 prog y >>= λ b y.
      send_uint32 ver y >>= λ c y.
      send_uint32 proc y >>= λ d y. xdr_send_auth auth_none y >>= λ e y. xdr_send_auth auth_none y

  Sends-header : Sends header auth_none (words (call_words prog ver proc))
  unfolding header
  Sends-header = Sends-word 2 (words (prog ∷ ver ∷ proc ∷ 0 ∷ 0 ∷ 0 ∷ 0 ∷ [])) auth_none _ (
      Sends-word prog (words (ver ∷ proc ∷ 0 ∷ 0 ∷ 0 ∷ 0 ∷ [])) auth_none _ (
        Sends-word ver (words (proc ∷ 0 ∷ 0 ∷ 0 ∷ 0 ∷ [])) auth_none _ (
          Sends-word proc (words (0 ∷ 0 ∷ 0 ∷ 0 ∷ [])) auth_none _ (
            Sends-bind (words (0 ∷ 0 ∷ [])) (words (0 ∷ 0 ∷ [])) refl (xdr_send_auth auth_none)
              (λ e y. xdr_send_auth auth_none y) auth_none auth_none (Sends-xdr_send_auth 0)
              (Sends-xdr_send_auth 0)))))

  module _ {ℓ} {A : Type ℓ} (f : Routine A) (start v : A) (bs : List ℕ)
      (codec : Codec f start v bs) where
    -- The header and the arguments are sent.
    pub call_sent_lem :
        (x : Xdr)
        → x.op ≡ encode
        → 40 + length bs ≤ msgsize_max
        → (xdr_call_msg_start prog ver proc auth_none auth_none x >>= λ a y. f v y)
          ≡ done v (call_sent prog ver proc bs x)
    unfolding xdr_call_msg_start msg_start header
    call_sent_lem x e room =
        Sends-bind (words (call_words prog ver proc)) bs refl header (λ a y. f v y) auth_none v
          Sends-header codec.sends (started prog x)
          (record { is_op = e; aligned = refl; room = omega (arith, room) })

-- The handle of a server that has read a message, and the handle that its function gets.
abbrev pub received : (m : ℕ → ℕ) → (len : ℕ) → Xdr → Xdr
received m len z = record z { in_msg = m; in_len = pos len; in_next = 8 }

abbrev pub ready : (m : ℕ → ℕ) → (len : ℕ) → Xdr → Xdr
ready m len z = record z { in_msg = m; in_len = pos len; in_next = 40; op = decode }

-- A message that is a call to a procedure, with some bytes of arguments.
module _ (prog ver proc xid : ℕ) (bs : List ℕ) (m : ℕ → ℕ)
    (message : Message xid 0 (words (call_words prog ver proc) ++ bs) m)
    (prog_bound : prog < 2 ^ 32) (ver_bound : ver < 2 ^ 32) (proc_bound : proc < 2 ^ 32) where
  fields :
      (load_word m 12 ≡ prog)
      × (load_word m 16 ≡ ver)
      × (load_word m 20 ≡ proc)
      × (get_bytes m (length bs) 40 ≡ bs)
  fields =
      let rest = words (0 ∷ 0 ∷ 0 ∷ 0 ∷ []) ++ bs in
      let a =
        word_in_front 2 (words (prog ∷ ver ∷ proc ∷ []) ++ rest) m 8 (omega arith) message.holds in
      let b = word_in_front prog (words (ver ∷ proc ∷ []) ++ rest) m 12 prog_bound a.1 in
      let c = word_in_front ver (words (proc ∷ []) ++ rest) m 16 ver_bound b.1 in
      let d = word_in_front proc rest m 20 proc_bound c.1 in
      let e = word_in_front 0 (words (0 ∷ 0 ∷ 0 ∷ []) ++ bs) m 24 (omega arith) d.1 in
      let f = word_in_front 0 (words (0 ∷ 0 ∷ []) ++ bs) m 28 (omega arith) e.1 in
      let g = word_in_front 0 (words (0 ∷ []) ++ bs) m 32 (omega arith) f.1 in
      let h = word_in_front 0 bs m 36 (omega arith) g.1 in (b.0, c.0, d.0, h.1)

  pub arguments :
      (z : Xdr) (len : ℕ)
      → len ≡ 40 + length bs
      → len ≤ msgsize_max
      → Incoming decode bs (ready m len z)
  arguments z len e fits = record {
    is_op = refl;
    len = len;
    in_len-len = refl;
    aligned = refl;
    fits = fits;
    room = omega (arith, e);
    holds = fields.3;
  }

  pub is_for_message :
      (s : Server) (z : Xdr) (len : ℕ)
      → s.prog ≡ prog
      → z.vers ≡ ver
      → is_for s (received m len z) ≡ true
  is_for_message s z len e d =
      let own : (prog == s.prog) ≡ true = ground (arith, e) in
      let version : (ver == z.vers) ≡ true = ground (arith, d) in
      rw (message.second_word, fields.0, fields.1, own, version) refl

  dispatched :
      (service : Request → Server → Server) (pid : ℕ) (s : Server) (z : Xdr) (len : ℕ)
      → s.prog ≡ prog
      → z.vers ≡ ver
      → svc_dispatch service pid (record s { xdr = some (received m len z) })
        ≡ some
            (record (service
              (record { prog = prog; vers = ver; proc = proc })
              (record s { xdr = some (ready m len z); active = pid })) { active = 0 })
  unfolding svc_dispatch
  dispatched service pid s z len e d =
      let t = record s { xdr = some (received m len z) } in
      ap (λ q. if q then some (called service pid t (received m len z)) else some t)
        (is_for_message s z len e d)
      ∙ rw (fields.0, fields.1, fields.2) refl

-- The service's function gets the program, the version and the procedure of the call that the client
-- sends, and reads the arguments that the client gave.
module _ {ℓ} {A : Type ℓ} (f : Routine A) (start v : A) (bs : List ℕ) (codec : Codec f start v bs)
    (prog ver proc : ℕ) (prog_bound : prog < 2 ^ 32) (ver_bound : ver < 2 ^ 32)
    (proc_bound : proc < 2 ^ 32) (x z : Xdr) (is_encode : x.op ≡ encode)
    (room : 40 + length bs ≤ msgsize_max) where
  abbrev pub sent : Xdr
  sent = call_sent prog ver proc bs x

  sent_length : sent.out_next ≡ 40 + length bs
  unfolding msg_start
  sent_length = omega arith

  pub sent-Message :
      Message
        (xid_of msg_call (record x { prog = prog }))
        0
        (words (call_words prog ver proc) ++ bs)
        sent.out_msg
  unfolding msg_start
  sent-Message =
      msg_start-Message 0 (words (call_words prog ver proc) ++ bs) (record x { prog = prog })
        (omega arith) (omega arith)

  -- For a call whose numbers are words and whose arguments fit a message, from a handle that
  -- encodes: the header and the arguments are sent, a server of that program and version that has
  -- read the message calls its function with the program, the version and the procedure of the
  -- call, with the handle at the arguments and set to decode, and the arguments read there are
  -- those that were sent.
  pub call-svc_dispatch :
      (service : Request → Server → Server) (pid : ℕ) (s : Server)
      → s.prog ≡ prog
      → z.vers ≡ ver
      → ((xdr_call_msg_start prog ver proc auth_none auth_none x >>= λ a y. f v y) ≡ done v sent)
        × (svc_dispatch service pid
              (record s { xdr = some (received sent.out_msg sent.out_next z) })
            ≡ some
                (record (service
                  (record { prog = prog; vers = ver; proc = proc })
                  (record s { xdr = some (ready sent.out_msg sent.out_next z); active = pid })) {
                    active = 0;
                  }))
        × (f start (ready sent.out_msg sent.out_next z)
            ≡ done v (consumed bs (ready sent.out_msg sent.out_next z)))
  call-svc_dispatch service pid s e d =
      let xid = xid_of msg_call (record x { prog = prog }) in
      (
        call_sent_lem prog ver proc f start v bs codec x is_encode room,
        dispatched prog ver proc xid bs sent.out_msg sent-Message prog_bound ver_bound proc_bound
            service pid s z sent.out_next e d,
        codec.receives (ready sent.out_msg sent.out_next z) (
            arguments prog ver proc xid bs sent.out_msg sent-Message prog_bound ver_bound proc_bound
              z sent.out_next sent_length (omega (arith, sent_length, room))),
      )
