-- ===== src/Rpc/Exchange/Refusal.antt =====
-- librpc/svc.c and librpc/clnt.c: a call that the server does not carry out, as the client learns of it.
use hardware_msm7k.Prelude.Int.{ℤ}
use hardware_msm7k.Prelude.{
  ℕ, suc, ◌+◌, ◌^◌, ◌≤◌, ◌<◌, ◌≡◌, ◌≢◌, refl, sym, ap, ◌∙◌, arith, Bool, true, false, ◌==◌, ==_iff,
  if◌then◌else◌, Option, none, some, length, Bool-cases, inl, inr,
}
use hardware_msm7k.Rpc.{Xdr, done, failed, ◌>>=◌, Routine, msgsize_max, load_word}
use hardware_msm7k.Rpc.Stream.{appended, msg_start, msg_reply, msg_send}
use hardware_msm7k.Rpc.Message.{
  accepted, status, Reply, xdr_send_reply_header, xdr_recv_reply_header,
}
use hardware_msm7k.Rpc.Dispatch.{is_active, svcerr}
use hardware_msm7k.Rpc.Client.{
  Client, Outcome, finished, waiting, lost, unlocked, clnt_receive, header_of, decoded, refusal,
  rpc_cant_recv, rpc_auth_error, rpc_subsystem_restart,
}
use hardware_msm7k.Rpc.Codec.{Incoming, consumed}
use hardware_msm7k.Rpc.Codec.Headers.{words}
use hardware_msm7k.Rpc.Codec.Replies.{
  Sends-xdr_send_reply_header, Receives-xdr_recv_reply_header, reply_words, IsReply,
}
use hardware_msm7k.Rpc.Exchange.{Message, msg_start-Message}
use hardware_msm7k.Rpc.Exchange.Request.{received}

-- A client that has read a reply which says that the call was refused.
module _ {ℓ} {B : Type ℓ} (g : Routine B) (start : B) (r : Reply) (proper : IsReply r) (stat : ℕ)
    (refused : refusal r ≡ some stat) (xid : ℕ) (m : ℕ → ℕ)
    (message : Message xid 1 (words (reply_words r)) m) (c : Client) (len : ℕ)
    (is_len : len ≡ 8 + length (words (reply_words r))) (fits : len ≤ msgsize_max)
    (up : c.in_reset ≡ false) where
  abbrev pub refused_client : Client
  refused_client = record c { xdr = received m len c.xdr }

  -- The call ends with the status of the refusal where the number is its own, and else with
  -- RPC_CANTRECV.
  pub clnt_receive-refusal :
      (load_word c.xdr.out_msg 0 ≡ xid
        → clnt_receive g start refused_client
          ≡ finished stat none (record refused_client {
            xdr = consumed (words (reply_words r)) (received m len c.xdr);
            input_xdr_busy = false;
          }))
      × (load_word c.xdr.out_msg 0 ≢ xid
          → clnt_receive g start refused_client
            ≡ finished rpc_cant_recv none (record refused_client { input_xdr_busy = false }))
  unfolding clnt_receive
  clnt_receive-refusal =
      let x = received m len c.xdr in
      let decide = λ (q : Bool).
        if q
        then header_of g start refused_client (xdr_recv_reply_header x)
        else unlocked rpc_cant_recv none refused_client in
      let is_up =
        ap
          (λ q.
            if q
            then unlocked rpc_subsystem_restart none refused_client
            else decide (load_word c.xdr.out_msg 0 == load_word m 0))
          up in
      let whole : Incoming c.xdr.op (words (reply_words r)) x = record {
        is_op = refl;
        len = len;
        in_len-len = refl;
        aligned = refl;
        fits = fits;
        room = omega (arith, is_len);
        holds = message.holds;
      } in
      (
        λ own.
            let same : (load_word c.xdr.out_msg 0 == load_word m 0) ≡ true =
              (==_iff (load_word c.xdr.out_msg 0) (load_word m 0)).1
                (own ∙ sym message.first_word) in
            is_up
            ∙ ap decide same
            ∙ ap (λ o. header_of g start refused_client o)
                (Receives-xdr_recv_reply_header r proper x whole)
            ∙ ap (λ o. decoded g start refused_client o (consumed (words (reply_words r)) x))
                refused,
        λ other.
            let differs : (load_word c.xdr.out_msg 0 == load_word m 0) ≡ false =
              elim (Bool-cases (load_word c.xdr.out_msg 0 == load_word m 0)) [
                | inl e ↦ absurd (
                    other (
                      (==_iff (load_word c.xdr.out_msg 0) (load_word m 0)).0 e
                      ∙ message.first_word))
                | inr e ↦ e
              ] in
            is_up ∙ ap decide differs,
      )

-- The status that a call ends with.
abbrev pub stat_of {ℓ} : {B : Type ℓ} → Outcome B → Option ℕ
stat_of (finished stat r c) = some stat
stat_of (waiting c) = none
stat_of lost = none

-- The reply with a status of `RPC_MSG_ACCEPTED` and no success.
abbrev pub error_reply : (stat : ℕ) → Xdr → Reply
error_reply stat z = accepted z.verf (status stat)

abbrev pub error_sent : (stat : ℕ) → Xdr → Xdr
error_sent stat z = appended (words (reply_words (error_reply stat z))) (msg_start msg_reply z)

module _ (stat active : ℕ) (z : Xdr) (on : is_active active ≡ true)
    (proper : IsReply (error_reply stat z)) (xid_bound : z.xid < 2 ^ 32) where
  -- The error is sent with the number that the server's handle has.
  svcerr-Message :
      (written : ℤ)
      → (svcerr stat active written z
          ≡ done (msg_send written (error_sent stat z)).0 (msg_send written (error_sent stat z)).1)
        × Message z.xid 1 (words (reply_words (error_reply stat z))) (error_sent stat z).out_msg
  unfolding svcerr msg_start
  svcerr-Message written =
      let y = msg_start msg_reply z in
      (
        ap
              (λ q.
                if q
                then xdr_send_reply_header (error_reply stat z) y
                  >>= (λ s w. let sent = msg_send written w in done sent.0 sent.1)
                else failed z)
              on
            ∙ ap (λ o. o >>= λ s w. let sent = msg_send written w in done sent.0 sent.1)
                (Sends-xdr_send_reply_header (error_reply stat z) proper y
                  (record { is_op = refl; aligned = refl; room = omega arith })),
        msg_start-Message 1 (words (reply_words (error_reply stat z))) z (omega arith) xid_bound,
      )

-- An error of the server, sent with the number that its handle has. The client learns of it where its
-- call has that number, and else gets RPC_CANTRECV.
pub svcerr-clnt_receive {ℓ} :
    {B : Type ℓ} (g : Routine B) (start : B) (k active : ℕ) (z : Xdr) (written : ℤ) (c : Client)
    → is_active active ≡ true
    → IsReply (error_reply (suc k) z)
    → z.xid < 2 ^ 32
    → c.in_reset ≡ false
    → (svcerr (suc k) active written z
        ≡ done
            (msg_send written (error_sent (suc k) z)).0
            (msg_send written (error_sent (suc k) z)).1)
      × (load_word c.xdr.out_msg 0 ≡ z.xid
          → stat_of (
              clnt_receive g start
                (record c { xdr = received (error_sent (suc k) z).out_msg 24 c.xdr }))
            ≡ some (suc k + rpc_auth_error))
      × (load_word c.xdr.out_msg 0 ≢ z.xid
          → stat_of (
              clnt_receive g start
                (record c { xdr = received (error_sent (suc k) z).out_msg 24 c.xdr }))
            ≡ some rpc_cant_recv)
svcerr-clnt_receive g start k active z written c on proper bound up =
    let sent = svcerr-Message (suc k) active z on proper bound written in
    let seen =
      clnt_receive-refusal g start (error_reply (suc k) z) proper (suc k + rpc_auth_error) refl
        z.xid (error_sent (suc k) z).out_msg sent.1 c 24 refl (omega arith) up in
    (sent.0, λ own. ap stat_of (seen.0 own), λ other. ap stat_of (seen.1 other))
