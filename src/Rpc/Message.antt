-- ===== src/Rpc/Message.antt =====
-- librpc/rpc.c and the receiving half in librpc/clnt.c: the headers of calls and replies. An enum has 4
-- bytes.
use hardware_msm7k.Prelude.{ℕ, Bool, not, ◌&&◌, leb, ◌==◌, if◌then◌else◌, [], length}
use hardware_msm7k.Rpc.{Auth, Xdr, free, Result, done, failed, ◌>>=◌, Routine}
use hardware_msm7k.Rpc.Stream.{
  msg_call, msg_reply, msg_start, send_uint32, send_bytes, recv_uint32, skip_bytes,
}
use hardware_msm7k.Rpc.Scalars.{xdr_send_enum, xdr_recv_enum}

-- `RPC_MSG_VERSION`
abbrev pub msg_version : ℕ
msg_version = 2

-- What `rpc_accepted_reply_header` says beside the verifier: `RPC_PROG_MISMATCH` with the versions that
-- the server has, or a status with nothing more.
pub data Accepted : Type 0 where
  prog_mismatch : (low high : ℕ) → Accepted
  status : (stat : ℕ) → Accepted

-- `rpc_denied_reply`, of which the last is with a status that is none of the enum's.
pub data Denied : Type 0 where
  mismatch : (low high : ℕ) → Denied
  auth_error : (why : ℕ) → Denied
  other_denial : (stat : ℕ) → Denied

-- `rpc_reply_header`, of which the last is with a status that is none of the enum's.
pub data Reply : Type 0 where
  accepted : (verf : Auth) → Accepted → Reply
  denied : Denied → Reply
  other_reply : (stat : ℕ) → Reply

-- `AUTH_NONE`
abbrev pub auth_none : Auth
auth_none = record { flavor = 0; body = [] }

-- `xdr_send_auth`
unfoldable pub xdr_send_auth : Auth → Xdr → Result Auth
unfolding send_uint32 send_bytes
xdr_send_auth auth x = send_uint32 auth.flavor x >>= λ s y.
    send_uint32 (length auth.body) y >>= λ n z.
    if length auth.body == 0 then done auth z else send_bytes auth.body z >>= (λ b w. done auth w)

-- `xdr_recv_auth`
unfoldable pub xdr_recv_auth : Xdr → Result Auth
unfolding recv_uint32 skip_bytes
xdr_recv_auth x = recv_uint32 x >>= λ flavor y. recv_uint32 y >>= λ size z.
    if size == 0
    then done (record { flavor = flavor; body = [] }) z
    else skip_bytes size z >>= (λ n w. failed w)

-- `xdr_call_msg_start`. The number of the procedure, kept for the log, is left out.
unfoldable pub xdr_call_msg_start : (prog ver proc : ℕ) → (cred verf : Auth) → Xdr → Result Auth
unfolding msg_start send_uint32 xdr_send_auth
xdr_call_msg_start prog ver proc cred verf x =
    send_uint32 msg_version (msg_start msg_call (record x { prog = prog })) >>= λ a y.
    send_uint32 prog y >>= λ b y. send_uint32 ver y >>= λ c y.
    send_uint32 proc y >>= λ d y. xdr_send_auth cred y >>= λ e y. xdr_send_auth verf y

-- `xdr_reply_msg_start`
unfoldable pub xdr_reply_msg_start : (verf : Auth) → Xdr → Result ℕ
unfolding msg_start send_uint32 xdr_send_auth
xdr_reply_msg_start verf x =
    send_uint32 0 (msg_start msg_reply x) >>= λ a y. xdr_send_auth verf y >>= λ b z. send_uint32 0 z

-- A status of the enum that comes with nothing more: all up to `RPC_PROG_LOCKED` but
-- `RPC_PROG_MISMATCH`.
abbrev pub is_plain : ℕ → Bool
is_plain stat = leb stat 6 && not (stat == 2)

-- `xdr_send_accepted_reply_header`
abbrev pub send_accepted_body : Accepted → Xdr → Result ℕ
send_accepted_body (prog_mismatch low high) x =
    xdr_send_enum 4 2 x >>= λ s y. send_uint32 low y >>= λ l z. send_uint32 high z
send_accepted_body (status stat) x =
    xdr_send_enum 4 stat x >>= λ s y. if is_plain stat then done stat y else failed y

unfoldable pub xdr_send_accepted_reply_header : Auth → Accepted → Xdr → Result ℕ
unfolding send_uint32 xdr_send_enum xdr_send_auth
xdr_send_accepted_reply_header verf body x =
    xdr_send_auth verf x >>= λ v y. send_accepted_body body y

-- `xdr_send_denied_reply`
unfoldable pub xdr_send_denied_reply : Denied → Xdr → Result ℕ
unfolding send_uint32 xdr_send_enum
xdr_send_denied_reply (mismatch low high) x =
    xdr_send_enum 4 0 x >>= λ s y. send_uint32 low y >>= λ l z. send_uint32 high z
xdr_send_denied_reply (auth_error why) x = xdr_send_enum 4 1 x >>= λ s y. xdr_send_enum 4 why y
xdr_send_denied_reply (other_denial stat) x = xdr_send_enum 4 stat x >>= λ s y. failed y

-- `xdr_send_reply_header`
unfoldable pub xdr_send_reply_header : Reply → Xdr → Result ℕ
unfolding xdr_send_enum xdr_send_accepted_reply_header xdr_send_denied_reply
xdr_send_reply_header (accepted verf body) x =
    xdr_send_enum 4 0 x >>= λ s y. xdr_send_accepted_reply_header verf body y
xdr_send_reply_header (denied d) x = xdr_send_enum 4 1 x >>= λ s y. xdr_send_denied_reply d y
xdr_send_reply_header (other_reply stat) x = xdr_send_enum 4 stat x >>= λ s y. failed y

-- `low` and `high`
abbrev pub recv_versions : Xdr → Result (ℕ × ℕ)
recv_versions x = recv_uint32 x >>= λ low y. recv_uint32 y >>= λ high z. done (low, high) z

-- `xdr_recv_accepted_reply_header`
unfoldable pub xdr_recv_accepted_reply_header : Xdr → Result Reply
unfolding recv_uint32 xdr_recv_enum xdr_recv_auth
xdr_recv_accepted_reply_header x = xdr_recv_auth x >>= λ verf y. xdr_recv_enum 4 y >>= λ stat z.
    if stat == 2
    then recv_versions z >>= (λ v w. done (accepted verf (prog_mismatch v.0 v.1)) w)
    else if is_plain stat
    then done (accepted verf (status stat)) z
    else failed z

-- `xdr_recv_denied_reply`
unfoldable pub xdr_recv_denied_reply : Xdr → Result Reply
unfolding recv_uint32 xdr_recv_enum
xdr_recv_denied_reply x = xdr_recv_enum 4 x >>= λ stat y.
    if stat == 0
    then recv_versions y >>= (λ v w. done (denied (mismatch v.0 v.1)) w)
    else if stat == 1
    then xdr_recv_enum 4 y >>= (λ why w. done (denied (auth_error why)) w)
    else failed y

-- `xdr_recv_reply_header`
unfoldable pub xdr_recv_reply_header : Xdr → Result Reply
unfolding xdr_recv_enum xdr_recv_accepted_reply_header xdr_recv_denied_reply
xdr_recv_reply_header x = xdr_recv_enum 4 x >>= λ stat y.
    if stat == 0
    then xdr_recv_accepted_reply_header y
    else if stat == 1
    then xdr_recv_denied_reply y
    else failed y

-- `xdr_free`, on a handle of which only the operation is set.
abbrev pub xdr_free {ℓ} : {A : Type ℓ} → Routine A → A → (unset : Xdr) → Result A
xdr_free proc obj unset = proc obj (record unset { op = free })
