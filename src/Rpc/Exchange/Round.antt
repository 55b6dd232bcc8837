-- ===== src/Rpc/Exchange/Round.antt =====
-- librpc/clnt.c and librpc/svc.c: a call from `clnt_call` through the server and back.
use hardware_msm7k.Prelude.Int.{ℤ, pos}
use hardware_msm7k.Prelude.{
  ℕ, ◌+◌, ◌^◌, ◌≤◌, ◌<◌, ◌≡◌, refl, sym, ap, ◌∙◌, arith, true, false, ltb, ◌==◌, ==_iff,
  if◌then◌else◌, none, some, List, ◌++◌, length,
}
use hardware_msm7k.Rpc.{Xdr, encode, decode, done, ◌>>=◌, Routine, msgsize_max, load_word}
use hardware_msm7k.Rpc.Stream.{msg_call, msg_start, msg_send, read}
use hardware_msm7k.Rpc.Message.{auth_none, xdr_call_msg_start}
use hardware_msm7k.Rpc.Dispatch.{is_active, svc_sendreply}
use hardware_msm7k.Rpc.Client.{
  Client, finished, waiting, unlocked, over_args, clnt_send, after_wait, clnt_call, rpc_success,
  rpc_cant_send, rpc_subsystem_restart,
}
use hardware_msm7k.Rpc.Receiver.{rx_client}
use hardware_msm7k.Rpc.Codec.{Codec}
use hardware_msm7k.Rpc.Codec.Headers.{words}
use hardware_msm7k.Rpc.Exchange.{Message, xid_of}
use hardware_msm7k.Rpc.Exchange.Request.{
  received, call_sent, call_sent_lem, sent-Message, call_words,
}
use hardware_msm7k.Rpc.Exchange.Answer.{
  numbered, reply_made, svc_sendreply_lem, numbered-Message, clnt_receive_lem,
}

-- A client whose receiving thread has read a reply.
abbrev pub delivered : (m : ℕ → ℕ) → (len : ℕ) → Client → Client
delivered m len c = record c { xdr = received m len c.xdr; input_xdr_busy = true; woken = true }

-- The receiving thread hands a reply to the call that waits.
pub rx_client-Message :
    (xid : ℕ) (bs : List ℕ) (m : ℕ → ℕ) (len : ℕ) (c : Client)
    → Message xid 1 bs m
    → 8 ≤ len
    → c.in_reset ≡ false
    → c.input_xdr_busy ≡ false
    → rx_client
        (record { hung_up = false; writable = false; readable = true; len = pos len; msg = m })
        c
      ≡ some (delivered m len c)
unfolding rx_client read
rx_client-Message xid bs m len c message long up idle =
    let complete : ltb len 8 ≡ false = ground (arith, long) in
    rw (up, idle, complete, message.second_word) refl

module _ {ℓ κ} {A : Type ℓ} {B : Type κ} (f : Routine A) (start v : A) (bs : List ℕ)
    (codec : Codec f start v bs) (g : Routine B) (blank r : B) (cs : List ℕ)
    (answer : Codec g blank r cs) (proc : ℕ) (c : Client) (up : c.in_reset ≡ false)
    (prog_bound : c.xdr.prog < 2 ^ 32) (vers_bound : c.xdr.vers < 2 ^ 32)
    (proc_bound : proc < 2 ^ 32) (room : 40 + length bs ≤ msgsize_max)
    (reply_room : 24 + length cs ≤ msgsize_max) where
  -- The client's handle with the call in it.
  abbrev pub outgoing : Xdr
  outgoing = call_sent c.xdr.prog c.xdr.vers proc bs (record c.xdr { op = encode })

  outgoing-Message :
      Message
        (xid_of msg_call (record c.xdr { op = encode; prog = c.xdr.prog }))
        0
        (words (call_words c.xdr.prog c.xdr.vers proc) ++ bs)
        outgoing.out_msg
  outgoing-Message =
      sent-Message f start v bs codec c.xdr.prog c.xdr.vers proc prog_bound vers_bound proc_bound
        (record c.xdr { op = encode }) (record c.xdr { op = encode }) refl room

  clnt_send_lem :
      clnt_send {B = B} proc f v false (pos (40 + length bs)) c
      ≡ waiting (record c { xdr = record outgoing { err = pos (40 + length bs) } })
  unfolding clnt_send msg_send msg_start
  clnt_send_lem =
      let n = 40 + length bs in
      let whole : (n == outgoing.out_next) ≡ true = (==_iff n outgoing.out_next).1 (omega arith) in
      let x = record c.xdr { op = encode } in
      ap
        (λ q.
          if q
          then finished rpc_subsystem_restart none c
          else over_args false (pos n) c (
              xdr_call_msg_start c.xdr.prog c.xdr.vers proc auth_none auth_none x >>= λ a y. f v y))
        up
      ∙ ap (λ o. over_args false (pos n) c o)
          (call_sent_lem c.xdr.prog c.xdr.vers proc f start v bs codec x refl room)
      ∙ ap
          (λ q.
            if q
            then waiting (record c { xdr = record outgoing { err = pos n } })
            else unlocked rpc_cant_send none (record c { xdr = record outgoing { err = pos n } }))
          whole

  -- A server whose handle holds the call sends its results; the client that reads this reply while
  -- it waits ends with success and these results.
  module _ (active : ℕ) (on : is_active active ≡ true) (written : ℤ) (z : Xdr)
      (same : z.in_msg ≡ outgoing.out_msg) (xid_bound : z.xid < 2 ^ 32) where
    abbrev pub answer_made : Xdr
    answer_made = numbered written (reply_made cs z)

    -- For a client that is not in reset, a call whose arguments and whose reply fit a message,
    -- routines that write and read back the arguments and the results, a kernel that takes the
    -- whole message, and a server whose function is active with a handle that holds this call:
    -- svc_sendreply succeeds, and clnt_call, when that reply is read during its wait, ends with
    -- RPC_SUCCESS, the results that the server gave, and the input buffer free.
    pub clnt_call-svc_sendreply :
        (svc_sendreply active written g r z ≡ done r answer_made)
        × (clnt_call proc f v g blank false
              (pos (40 + length bs))
              (delivered answer_made.out_msg (24 + length cs))
              c
            ≡ finished rpc_success (some r) (record c {
              xdr = record outgoing {
                err = pos (40 + length bs);
                in_msg = answer_made.out_msg;
                in_len = pos (24 + length cs);
                in_next = 24 + length cs;
                op = decode;
              };
              input_xdr_busy = false;
              woken = true;
            }))
    unfolding clnt_call msg_start
    clnt_call-svc_sendreply =
        let xid = load_word z.in_msg 0 in
        let waiter = record c {
          xdr = record outgoing { err = pos (40 + length bs) };
          input_xdr_busy = true;
          woken = true;
        } in
        let own : load_word outgoing.out_msg 0 ≡ xid = ap (λ m. load_word m 0) (sym same) in
        (
          svc_sendreply_lem g blank r cs answer active written z on reply_room,
          ap (after_wait g blank (delivered answer_made.out_msg (24 + length cs))) clnt_send_lem
              ∙ clnt_receive_lem g blank r cs answer xid answer_made.out_msg
                  (numbered-Message g blank r cs answer written z xid_bound) waiter (24 + length cs)
                  refl reply_room own up,
        )
