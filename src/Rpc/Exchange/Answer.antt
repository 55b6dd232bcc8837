-- ===== src/Rpc/Exchange/Answer.antt =====
-- librpc/svc.c and librpc/clnt.c: a reply that a server sends and a client receives.
use hardware_msm7k.Prelude.Int.{ℤ, pos, negsuc}
use hardware_msm7k.Prelude.{
  ℕ, ◌+◌, ◌^◌, ◌≤◌, ◌<◌, ◌≡◌, refl, sym, ap, ◌∙◌, arith, true, false, ◌==◌, ==_iff, if◌then◌else◌,
  none, some, List, [], ◌∷◌, ◌++◌, length,
}
use hardware_msm7k.Rpc.{
  Xdr, encode, decode, Result, done, failed, ◌>>=◌, Routine, msgsize_max, load_word, put_bytes,
  get_bytes,
}
use hardware_msm7k.Rpc.Stream.{appended, msg_start, msg_reply, msg_send, send_uint32}
use hardware_msm7k.Rpc.Message.{
  auth_none, xdr_reply_msg_start, xdr_send_auth, accepted, status, xdr_recv_reply_header,
}
use hardware_msm7k.Rpc.Dispatch.{is_active, answer_sent, svc_sendreply}
use hardware_msm7k.Rpc.Client.{
  Client, finished, unlocked, clnt_receive, header_of, results_of, rpc_success, rpc_cant_recv,
  rpc_subsystem_restart,
}
use hardware_msm7k.Rpc.Memory.{
  put_bytes_above, get_bytes-agree, get_bytes-put_bytes, load_word-agree,
}
use hardware_msm7k.Rpc.Codec.{Incoming, Sends, Sends-bind, Codec, Incoming-split}
use hardware_msm7k.Rpc.Codec.Words.{Sends-send_uint32}
use hardware_msm7k.Rpc.Codec.Headers.{Sends-word, words, Sends-xdr_send_auth}
use hardware_msm7k.Rpc.Codec.Replies.{Receives-xdr_recv_reply_header}
use hardware_msm7k.Rpc.Exchange.{Message, xid_of, msg_start-Message}
use hardware_msm7k.Rpc.Exchange.Request.{received}

-- The words of a reply that was accepted and carried out.
abbrev pub success_words : List ℕ
success_words = 0 ∷ 0 ∷ 0 ∷ 0 ∷ []

-- The handle of the server when the reply is complete, with the number of the call copied into it.
abbrev pub reply_begun : Xdr → Xdr
reply_begun z = msg_start msg_reply (record z { op = encode })

abbrev pub reply_made : List ℕ → Xdr → Xdr
reply_made cs z = appended (words success_words ++ cs) (reply_begun z)

abbrev pub numbered : ℤ → Xdr → Xdr
numbered written y = record y {
  out_msg = put_bytes (get_bytes y.in_msg 4 0) 0 y.out_msg;
  err = written;
}

answer_sent_lem : (written : ℤ) (y : Xdr) → answer_sent written y ≡ numbered written y
unfolding msg_send
answer_sent_lem (pos n) y = refl
answer_sent_lem (negsuc n) y = refl

reply_header : Xdr → Result ℕ
reply_header x = send_uint32 0 x >>= λ a y. xdr_send_auth auth_none y >>= λ b z. send_uint32 0 z

Sends-reply_header : Sends reply_header 0 (words success_words)
unfolding reply_header
Sends-reply_header = Sends-word 0 (words (0 ∷ 0 ∷ 0 ∷ [])) 0 _ (
    Sends-bind (words (0 ∷ 0 ∷ [])) (words (0 ∷ [])) refl (xdr_send_auth auth_none)
      (λ b z. send_uint32 0 z) auth_none 0 (Sends-xdr_send_auth 0) (Sends-send_uint32 0))

module _ {ℓ} {B : Type ℓ} (g : Routine B) (start r : B) (cs : List ℕ)
    (codec : Codec g start r cs) where
  pub svc_sendreply_lem :
      (active : ℕ) (written : ℤ) (z : Xdr)
      → is_active active ≡ true
      → 24 + length cs ≤ msgsize_max
      → svc_sendreply active written g r z ≡ done r (numbered written (reply_made cs z))
  unfolding svc_sendreply xdr_reply_msg_start reply_header msg_start
  svc_sendreply_lem active written z on room =
      ap
        (λ q.
          if q
          then xdr_reply_msg_start auth_none (record z { op = encode })
            >>= (λ s y. g r y >>= λ b w. done b (answer_sent written w))
          else failed z)
        on
      ∙ ap (λ o. o >>= λ b w. done b (answer_sent written w))
          (Sends-bind (words success_words) cs refl reply_header (λ s y. g r y) 0 r
            Sends-reply_header codec.sends (reply_begun z)
            (record { is_op = refl; aligned = refl; room = omega (arith, room) }))
      ∙ ap (done r) (answer_sent_lem written (reply_made cs z))

  -- The reply is a message with the number of the call that the server read.
  pub numbered-Message :
      (written : ℤ) (z : Xdr)
      → xid_of msg_reply (record z { op = encode }) < 2 ^ 32
      → Message
          (load_word z.in_msg 0)
          1
          (words success_words ++ cs)
          (numbered written (reply_made cs z)).out_msg
  unfolding put_bytes get_bytes msg_start
  numbered-Message written z bound =
      let bs = words success_words ++ cs in
      let old = msg_start-Message 1 bs (record z { op = encode }) (omega arith) bound in
      let m = (reply_made cs z).out_msg in
      let first_four = get_bytes z.in_msg 4 0 in
      let kept = λ (n p : ℕ) (h : 4 ≤ p).
        get_bytes-agree (put_bytes first_four 0 m) m n p
          (λ j lo hi. put_bytes_above first_four 0 m j (omega (arith, h, lo))) in
      record {
        first_word =
            load_word-agree (put_bytes first_four 0 m) z.in_msg 0 0
              (get_bytes-put_bytes first_four 0 m);
        second_word =
            load_word-agree (put_bytes first_four 0 m) m 4 4 (kept 4 4 (omega arith))
            ∙ old.second_word;
        holds = kept (length bs) 8 (omega arith) ∙ old.holds;
      }

  -- A client that has read the reply to its call ends with success and the results.
  module _ (xid : ℕ) (m : ℕ → ℕ) (message : Message xid 1 (words success_words ++ cs) m)
      (c : Client) (len : ℕ) (is_len : len ≡ 24 + length cs) (fits : len ≤ msgsize_max)
      (own : load_word c.xdr.out_msg 0 ≡ xid) (up : c.in_reset ≡ false) where
    abbrev answered : Client
    answered = record c { xdr = received m len c.xdr }

    abbrev after_results : Client
    after_results = record c {
      xdr = record (received m len c.xdr) { in_next = 24 + length cs; op = decode };
      input_xdr_busy = false;
    }

    whole_message : Incoming c.xdr.op (words success_words ++ cs) (received m len c.xdr)
    whole_message = record {
      is_op = refl;
      len = len;
      in_len-len = refl;
      aligned = refl;
      fits = fits;
      room = omega (arith, is_len);
      holds = message.holds;
    }

    results : Incoming decode cs (record (received m len c.xdr) { in_next = 24; op = decode })
    results =
        let behind =
          (Incoming-split (words success_words) cs refl (received m len c.xdr) whole_message).1 in
        record {
          is_op = refl;
          len = len;
          in_len-len = refl;
          aligned = refl;
          fits = fits;
          room = omega (arith, is_len);
          holds = behind.holds;
        }

    pub clnt_receive_lem :
        clnt_receive g start answered ≡ finished rpc_success (some r) after_results
    unfolding clnt_receive
    clnt_receive_lem =
        let parts =
          Incoming-split (words success_words) cs refl (received m len c.xdr) whole_message in
        let same : (load_word c.xdr.out_msg 0 == load_word m 0) ≡ true =
          (==_iff (load_word c.xdr.out_msg 0) (load_word m 0)).1 (own ∙ sym message.first_word) in
        let header =
          Receives-xdr_recv_reply_header (accepted auth_none (status 0)) (omega arith, refl, refl)
            (received m len c.xdr) parts.0 in
        ap
          (λ q.
            if q
            then unlocked rpc_subsystem_restart none answered
            else if load_word c.xdr.out_msg 0 == load_word m 0
            then header_of g start answered (xdr_recv_reply_header (received m len c.xdr))
            else unlocked rpc_cant_recv none answered)
          up
        ∙ ap
            (λ q.
              if q
              then header_of g start answered (xdr_recv_reply_header (received m len c.xdr))
              else unlocked rpc_cant_recv none answered)
            same
        ∙ ap (λ o. header_of g start answered o) header
        ∙ ap (λ o. results_of answered o)
            (codec.receives (record (received m len c.xdr) { in_next = 24; op = decode }) results)
