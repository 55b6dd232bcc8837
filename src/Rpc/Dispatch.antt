-- ===== src/Rpc/Dispatch.antt =====
-- librpc/svc.c: a call that has come in, and the replies to it. The service's function and its routines
-- are parameters, and so is what the kernel makes of a message that is sent.
use hardware_msm7k.Prelude.Int.{ℤ}
use hardware_msm7k.Prelude.{ℕ, ◌+◌, ◌*◌, ◌==◌, Bool, false, not, if◌then◌else◌, Option, none, some}
use hardware_msm7k.Rpc.{
  Xdr, encode, decode, free, Result, done, failed, ◌>>=◌, Routine, rpc_offset, load_word, put_bytes,
  get_bytes,
}
use hardware_msm7k.Rpc.Stream.{msg_call, msg_reply, msg_start, msg_send}
use hardware_msm7k.Rpc.Message.{
  auth_none, accepted, status, xdr_reply_msg_start, xdr_send_reply_header,
}
use hardware_msm7k.Rpc.Server.{Server}

-- `struct svc_req`
pub record Request : Type 0 where
  pub prog : ℕ
  pub vers : ℕ
  pub proc : ℕ

-- The word of the incoming message at an index behind the offset.
abbrev pub in_word : ℕ → Xdr → ℕ
in_word i x = load_word x.in_msg ((rpc_offset + i) * 4)

-- Whether `svc_dispatch` comes to the call of the service.
abbrev pub is_for : Server → Xdr → Bool
is_for s x =
    if in_word 1 x == msg_call
    then if in_word 3 x == s.prog then in_word 4 x == x.vers else false
    else false

-- `svc_dispatch`: the server that the service's function leaves, none where the entry has no `xdr`.
module _ (service : Request → Server → Server) (pid : ℕ) where
  abbrev pub called : Server → Xdr → Server
  called s x =
      record (service (record { prog = in_word 3 x; vers = in_word 4 x; proc = in_word 5 x })
        (record s {
          xdr = some (record x { in_next = (rpc_offset + 6 + 4) * 4; op = decode });
          active = pid;
        })) { active = 0 }

  abbrev pub dispatch_with : Option Xdr → Server → Option Server
  dispatch_with none s = none
  dispatch_with (some x) s = (if is_for s x then some (called s x) else some s)

  unfoldable pub svc_dispatch : Server → Option Server
  svc_dispatch s = dispatch_with s.xdr s

-- `serv->active`
abbrev pub is_active : (active : ℕ) → Bool
is_active active = not (active == 0)

-- The end of `svc_sendreply`, which copies the number of the call and does not look at the outcome of
-- the send.
abbrev pub answer_sent : (written : ℤ) → Xdr → Xdr
answer_sent written x =
    (msg_send written (record x {
      out_msg = put_bytes (get_bytes x.in_msg 4 (rpc_offset * 4)) (rpc_offset * 4) x.out_msg;
    })).1

-- `svc_getargs` and `svc_freeargs`, of a server by its `active` and its `xdr`.
module _ {ℓ} {A : Type ℓ} where
  unfoldable pub svc_getargs : (active : ℕ) → Routine A → Routine A
  svc_getargs active xdr_args args x = (if is_active active then xdr_args args x else failed x)

  unfoldable pub svc_freeargs : (active : ℕ) → Routine A → Routine A
  svc_freeargs active xdr_args args x =
      if is_active active then xdr_args args (record x { op = free }) else failed x

  -- `svc_sendreply`
  unfoldable pub svc_sendreply : (active : ℕ) → (written : ℤ) → Routine A → Routine A
  unfolding xdr_reply_msg_start msg_send put_bytes get_bytes
  svc_sendreply active written xdr_results results x =
      if is_active active
      then xdr_reply_msg_start auth_none (record x { op = encode })
        >>= (λ s y. xdr_results results y >>= λ r z. done r (answer_sent written z))
      else failed x

-- `SVCERR_XDR_SEND` with the status of `svcerr_decode` (4), `svcerr_systemerr` (5) or `svcerr_noproc`
-- (3), where what a message that does not fit leaves is not followed.
unfoldable pub svcerr : (stat active : ℕ) → (written : ℤ) → Xdr → Result Bool
unfolding msg_start msg_send xdr_send_reply_header
svcerr stat active written x =
    if is_active active
    then xdr_send_reply_header (accepted x.verf (status stat)) (msg_start msg_reply x)
      >>= (λ s y. let sent = msg_send written y in done sent.0 sent.1)
    else failed x
