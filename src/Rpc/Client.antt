-- ===== src/Rpc/Client.antt =====
-- librpc/clnt.c: a call and its reply, what the receiving thread does for a client, and the list of the
-- clients. Locks are left out; what the kernel answers, what other threads do while a call waits, and
-- the routines of the caller are parameters.
use hardware_msm7k.Prelude.Int.{ℤ, pos, negsuc}
use hardware_msm7k.Prelude.{
  ℕ, zero, suc, ◌+◌, ◌*◌, Bool, true, false, ◌==◌, if◌then◌else◌, Option, none, some,
}
use hardware_msm7k.Rpc.{
  Xdr, encode, decode, Result, done, failed, undefined, ◌>>=◌, Routine, rpc_offset, load_word,
}
use hardware_msm7k.Rpc.Stream.{msg_send}
use hardware_msm7k.Rpc.Message.{
  auth_none, Reply, accepted, denied, other_reply, prog_mismatch, status, mismatch, auth_error,
  other_denial, Denied, xdr_call_msg_start, xdr_recv_reply_header,
}
use hardware_msm7k.Rpc.Dispatch.{in_word}

-- `CLIENT`, with the number of callback threads that were started, and whether a thread that waits for
-- the reply was woken.
pub record Client : Type 0 where
  pub xdr : Xdr
  pub in_reset : Bool
  pub input_xdr_busy : Bool
  pub got_cb : Bool
  pub cb_stop : ℤ
  pub cb_threads : ℕ
  pub woken : Bool

-- The members of `clnt_stat` that the code names.
abbrev pub rpc_success : ℕ
rpc_success = 0

abbrev pub rpc_cant_encode_args : ℕ
rpc_cant_encode_args = 1

abbrev pub rpc_cant_decode_res : ℕ
rpc_cant_decode_res = 2

abbrev pub rpc_cant_send : ℕ
rpc_cant_send = 3

abbrev pub rpc_cant_recv : ℕ
rpc_cant_recv = 4

abbrev pub rpc_vers_mismatch : ℕ
rpc_vers_mismatch = 6

abbrev pub rpc_auth_error : ℕ
rpc_auth_error = 7

abbrev pub rpc_subsystem_restart : ℕ
rpc_subsystem_restart = 26

-- Where a call stands: it is over with a status and perhaps results, it waits for the reply, or it was
-- undefined.
pub data Outcome {ℓ} (A : Type ℓ) : Type ℓ where
  finished : (stat : ℕ) → Option A → Client → Outcome A
  waiting : Client → Outcome A
  lost : Outcome A

-- `xdr->xdr_err == -ENETRESET`
abbrev pub is_netreset : ℤ → Bool
is_netreset (pos n) = false
is_netreset (negsuc n) = n == 101

-- The end at `out_unlock`.
abbrev pub unlocked {ℓ} : {A : Type ℓ} → (stat : ℕ) → Option A → Client → Outcome A
unlocked stat r c = finished stat r (record c { input_xdr_busy = false })

module _ {ℓ} {B : Type ℓ} where
  -- `clnt_call` up to the wait, where `reset` is whether the receiving thread sets `in_reset` while the
  -- call is encoded.
  abbrev pub message_sent : (reset : Bool) → (written : ℤ) → Client → Outcome B
  message_sent reset written c =
      if reset
      then unlocked rpc_subsystem_restart none (record c { in_reset = true })
      else (let sent = msg_send written c.xdr in
          if sent.0
          then waiting (record c { xdr = sent.1 })
          else if is_netreset sent.1.err
          then unlocked rpc_subsystem_restart none (record c { xdr = sent.1; in_reset = true })
          else unlocked rpc_cant_send none (record c { xdr = sent.1 }))

  abbrev pub over_args {κ} :
      {A : Type κ} → (reset : Bool) → (written : ℤ) → Client → Result A → Outcome B
  over_args reset written c (done a y) = message_sent reset written (record c { xdr = y })
  over_args reset written c (failed y) = finished rpc_cant_encode_args none (record c { xdr = y })
  over_args reset written c undefined = lost

  unfoldable pub clnt_send {κ} :
      {A : Type κ}
      → (proc : ℕ) → Routine A
      → A
      → (reset : Bool) → (written : ℤ) → Client
      → Outcome B
  unfolding xdr_call_msg_start msg_send
  clnt_send proc xdr_args args reset written c =
      if c.in_reset
      then finished rpc_subsystem_restart none c
      else (let x = record c.xdr { op = encode } in
          let start = xdr_call_msg_start x.prog x.vers proc auth_none auth_none x in
          let args_sent = start >>= λ a y. xdr_args args y in over_args reset written c args_sent)

-- The status of a call that the other side did not carry out, none where it did.
abbrev pub denial : Denied → ℕ
denial (mismatch low high) = 0
denial (auth_error why) = 1
denial (other_denial stat) = stat

abbrev pub refusal : Reply → Option ℕ
refusal (accepted verf (prog_mismatch low high)) = some (2 + rpc_auth_error)
refusal (accepted verf (status zero)) = none
refusal (accepted verf (status (suc stat))) = some (suc stat + rpc_auth_error)
refusal (denied d) = some (denial d + rpc_vers_mismatch)
refusal (other_reply stat) = none

module _ {ℓ} {B : Type ℓ} where
  -- `clnt_call` from the wait on.
  abbrev pub results_of : Client → Result B → Outcome B
  results_of c (done r y) = unlocked rpc_success (some r) (record c { xdr = y })
  results_of c (failed y) = unlocked rpc_cant_decode_res none (record c { xdr = y })
  results_of c undefined = lost

  abbrev pub decoded : Routine B → B → Client → Option ℕ → Xdr → Outcome B
  decoded xdr_results rets c none y = results_of c (xdr_results rets (record y { op = decode }))
  decoded xdr_results rets c (some stat) y = unlocked stat none (record c { xdr = y })

  abbrev pub header_of : Routine B → B → Client → Result Reply → Outcome B
  header_of xdr_results rets c (done reply y) = decoded xdr_results rets c (refusal reply) y
  header_of xdr_results rets c (failed y) = unlocked rpc_cant_recv none (record c { xdr = y })
  header_of xdr_results rets c undefined = lost

  unfoldable pub clnt_receive : Routine B → B → Client → Outcome B
  unfolding xdr_recv_reply_header
  clnt_receive xdr_results rets c =
      if c.in_reset
      then unlocked rpc_subsystem_restart none c
      else if load_word c.xdr.out_msg (rpc_offset * 4) == in_word 0 c.xdr
      then header_of xdr_results rets c (xdr_recv_reply_header c.xdr)
      else unlocked rpc_cant_recv none c

  -- `clnt_call`, where `meanwhile` is what the receiving thread makes of the client during the wait.
  abbrev pub after_wait : Routine B → B → (Client → Client) → Outcome B → Outcome B
  after_wait xdr_results rets meanwhile (waiting c) = clnt_receive xdr_results rets (meanwhile c)
  after_wait xdr_results rets meanwhile (finished stat r c) = finished stat r c
  after_wait xdr_results rets meanwhile lost = lost

  unfoldable pub clnt_call {κ} :
      {A : Type κ}
      → (proc : ℕ) → Routine A
      → A
      → Routine B
      → B
      → (reset : Bool) → (written : ℤ) → (Client → Client)
      → Client
      → Outcome B
  unfolding clnt_send clnt_receive
  clnt_call proc xdr_args args xdr_results rets reset written meanwhile c =
      after_wait xdr_results rets meanwhile (clnt_send proc xdr_args args reset written c)
