-- ===== src/Rpc/Codec/Replies.antt =====
-- librpc/rpc.c and librpc/clnt.c: the headers of replies, sent and received.
use mathlib.Core.Path.{subst}
use hardware_msm7k.Prelude.{
  ℕ, ◌^◌, ◌<◌, ◌≡◌, refl, sym, ap, ◌∙◌, arith, true, false, leb, ◌==◌, if◌then◌else◌, List, [], ◌∷◌,
}
use hardware_msm7k.Rpc.{Auth, Xdr, XdrOp, Result, done, failed, ◌>>=◌}
use hardware_msm7k.Rpc.Stream.{send_uint32, recv_uint32}
use hardware_msm7k.Rpc.Scalars.{xdr_send_enum, xdr_recv_enum}
use hardware_msm7k.Rpc.Message.{
  Accepted, prog_mismatch, status, Denied, mismatch, auth_error, other_denial, Reply, accepted,
  denied, other_reply, is_plain, xdr_send_auth, xdr_recv_auth, xdr_send_accepted_reply_header,
  xdr_send_denied_reply, xdr_send_reply_header, xdr_recv_accepted_reply_header,
  xdr_recv_denied_reply, xdr_recv_reply_header, recv_versions, send_accepted_body,
}
use hardware_msm7k.Rpc.Codec.{SendsAt, ReceivesAt, Sends-bind, Receives-bind, Receives-after}
use hardware_msm7k.Rpc.Codec.Words.{Sends-send_uint32}
use hardware_msm7k.Rpc.Codec.Arrays.{Sends-none, Receives-none}
use hardware_msm7k.Rpc.Codec.Headers.{
  Sends-word, Receives-word, words, bare, Sends-xdr_send_auth, Receives-xdr_recv_auth,
}

-- The words of an accepted reply behind its verifier, and of a denied one behind its first word.
abbrev pub accepted_words : Accepted → List ℕ
accepted_words (prog_mismatch low high) = 2 ∷ low ∷ high ∷ []
accepted_words (status stat) = stat ∷ []

abbrev pub denied_words : Denied → List ℕ
denied_words (mismatch low high) = 0 ∷ low ∷ high ∷ []
denied_words (auth_error why) = 1 ∷ why ∷ []
denied_words (other_denial stat) = []

abbrev pub reply_words : Reply → List ℕ
reply_words (accepted verf body) = 0 ∷ verf.flavor ∷ 0 ∷ accepted_words body
reply_words (denied d) = 1 ∷ denied_words d
reply_words (other_reply stat) = []

-- A header whose statuses are the enums', whose numbers are words, and whose verifier has no body.
abbrev pub IsAccepted : Accepted → Type 0
IsAccepted (prog_mismatch low high) = (low < 2 ^ 32) × (high < 2 ^ 32)
IsAccepted (status stat) = is_plain stat ≡ true

abbrev pub IsDenied : Denied → Type 0
IsDenied (mismatch low high) = (low < 2 ^ 32) × (high < 2 ^ 32)
IsDenied (auth_error why) = why < 2 ^ 32
IsDenied (other_denial stat) = ⊥

abbrev pub IsReply : Reply → Type 0
IsReply (accepted verf body) = (verf.flavor < 2 ^ 32) × (verf.body ≡ []) × IsAccepted body
IsReply (denied d) = IsDenied d
IsReply (other_reply stat) = ⊥

-- The last word that is sent, which is what the sending functions give here.
abbrev pub accepted_last : Accepted → ℕ
accepted_last (prog_mismatch low high) = high
accepted_last (status stat) = stat

abbrev pub denied_last : Denied → ℕ
denied_last (mismatch low high) = high
denied_last (auth_error why) = why
denied_last (other_denial stat) = stat

abbrev pub reply_last : Reply → ℕ
reply_last (accepted verf body) = accepted_last body
reply_last (denied d) = denied_last d
reply_last (other_reply stat) = stat

two_words :
    {o : XdrOp} (low high : ℕ)
    → SendsAt o
        (λ x. send_uint32 low x >>= λ l z. send_uint32 high z)
        high
        (words (low ∷ high ∷ []))
two_words low high = Sends-word low (words (high ∷ [])) high _ (Sends-send_uint32 high)

two_received :
    {o : XdrOp} (low high : ℕ)
    → low < 2 ^ 32
    → high < 2 ^ 32
    → ReceivesAt o recv_versions (low, high) (words (low ∷ high ∷ []))
two_received low high l h =
    Receives-word low (words (high ∷ [])) (low, high) l
      (λ low y. recv_uint32 y >>= λ high z. done (low, high) z)
      (Receives-word high [] (low, high) h (λ high z. done (low, high) z)
        (Receives-none (low, high)))

Sends-body :
    {o : XdrOp} (body : Accepted)
    → IsAccepted body
    → SendsAt o (send_accepted_body body) (accepted_last body) (words (accepted_words body))
unfolding xdr_send_enum
Sends-body (prog_mismatch low high) p =
    Sends-word 2 (words (low ∷ high ∷ [])) high _ (two_words low high)
Sends-body (status stat) p =
    Sends-word stat [] stat (λ s y. if is_plain stat then done stat y else failed y)
      (λ y h. ap (λ t. if t then done stat y else failed y) p ∙ Sends-none stat y h)

Sends-denied :
    {o : XdrOp} (d : Denied)
    → IsDenied d
    → SendsAt o (xdr_send_denied_reply d) (denied_last d) (words (denied_words d))
unfolding xdr_send_denied_reply xdr_send_enum
Sends-denied (mismatch low high) p =
    Sends-word 0 (words (low ∷ high ∷ [])) high _ (two_words low high)
Sends-denied (other_denial stat) p = elim p [ ]
Sends-denied (auth_error why) p = Sends-word 1 (words (why ∷ [])) why _ (Sends-send_uint32 why)

as_bare : (verf : Auth) → verf.body ≡ [] → bare verf.flavor ≡ verf
as_bare verf e = ap (λ b. record { flavor = verf.flavor; body = b }) (sym e)

-- Each header is sent as its words.
pub Sends-xdr_send_reply_header :
    {o : XdrOp} (r : Reply)
    → IsReply r
    → SendsAt o (xdr_send_reply_header r) (reply_last r) (words (reply_words r))
unfolding xdr_send_reply_header xdr_send_accepted_reply_header xdr_send_enum
Sends-xdr_send_reply_header {o} (accepted verf body) p =
    let auth_sent =
      subst (λ a. SendsAt o (xdr_send_auth a) a (words (verf.flavor ∷ 0 ∷ []))) (as_bare verf p.1)
        (Sends-xdr_send_auth verf.flavor) in
    Sends-word 0 (words (verf.flavor ∷ 0 ∷ accepted_words body)) (accepted_last body) _ (
      Sends-bind (words (verf.flavor ∷ 0 ∷ [])) (words (accepted_words body)) refl
        (xdr_send_auth verf) (λ v y. send_accepted_body body y) verf (accepted_last body) auth_sent
        (Sends-body body p.2))
Sends-xdr_send_reply_header {o} (denied d) p =
    Sends-word 1 (words (denied_words d)) (denied_last d) _ (Sends-denied d p)
Sends-xdr_send_reply_header {o} (other_reply stat) p = elim p [ ]

-- What the receiving functions do with a status.
abbrev accepted_from : Auth → ℕ → Xdr → Result Reply
accepted_from verf stat z =
    if stat == 2
    then recv_versions z >>= (λ v w. done (accepted verf (prog_mismatch v.0 v.1)) w)
    else if is_plain stat
    then done (accepted verf (status stat)) z
    else failed z

abbrev denied_from : ℕ → Xdr → Result Reply
denied_from stat y =
    if stat == 0
    then recv_versions y >>= (λ v w. done (denied (mismatch v.0 v.1)) w)
    else if stat == 1
    then recv_uint32 y >>= (λ why w. done (denied (auth_error why)) w)
    else failed y

plain_bounds :
    (stat : ℕ)
    → is_plain stat ≡ true
    → (stat < 2 ^ 32) × ((stat == 2) ≡ false) × (leb stat 6 ≡ true)
plain_bounds stat h = ground arith

Receives-accepted :
    {o : XdrOp} (verf : Auth) (body : Accepted)
    → IsAccepted body
    → ReceivesAt o
        (λ y. recv_uint32 y >>= accepted_from verf)
        (accepted verf body)
        (words (accepted_words body))
Receives-accepted verf (prog_mismatch low high) p =
    Receives-word 2 (words (low ∷ high ∷ [])) (accepted verf (prog_mismatch low high)) (omega arith)
      (accepted_from verf)
      (Receives-after (words (low ∷ high ∷ [])) recv_versions
        (λ v w. done (accepted verf (prog_mismatch v.0 v.1)) w) (low, high)
        (accepted verf (prog_mismatch low high)) (λ y. refl) (two_received low high p.0 p.1))
Receives-accepted verf (status stat) p =
    let bounds = plain_bounds stat p in
    Receives-word stat [] (accepted verf (status stat)) bounds.0 (accepted_from verf)
      (λ y h. rw (bounds.1, bounds.2) (Receives-none (accepted verf (status stat)) y h))

Receives-denied :
    {o : XdrOp} (d : Denied)
    → IsDenied d
    → ReceivesAt o (λ y. recv_uint32 y >>= denied_from) (denied d) (words (denied_words d))
Receives-denied (mismatch low high) p =
    Receives-word 0 (words (low ∷ high ∷ [])) (denied (mismatch low high)) (omega arith) denied_from
      (Receives-after (words (low ∷ high ∷ [])) recv_versions
        (λ v w. done (denied (mismatch v.0 v.1)) w) (low, high) (denied (mismatch low high))
        (λ y. refl) (two_received low high p.0 p.1))
Receives-denied (other_denial stat) p = elim p [ ]
Receives-denied (auth_error why) p =
    Receives-word 1 (words (why ∷ [])) (denied (auth_error why)) (omega arith) denied_from (
      Receives-word why [] (denied (auth_error why)) p (λ w y. done (denied (auth_error w)) y)
        (Receives-none (denied (auth_error why))))

-- Each header is received from its words.
pub Receives-xdr_recv_reply_header :
    {o : XdrOp} (r : Reply)
    → IsReply r
    → ReceivesAt o xdr_recv_reply_header r (words (reply_words r))
unfolding xdr_recv_reply_header xdr_recv_accepted_reply_header xdr_recv_denied_reply xdr_recv_enum
Receives-xdr_recv_reply_header {o} (accepted verf body) p =
    let auth_received =
      subst (λ a. ReceivesAt o xdr_recv_auth a (words (verf.flavor ∷ 0 ∷ []))) (as_bare verf p.1)
        (Receives-xdr_recv_auth verf.flavor p.0) in
    Receives-word 0 (words (verf.flavor ∷ 0 ∷ accepted_words body)) (accepted verf body)
      (omega arith)
      (λ stat y.
        if stat == 0
        then xdr_recv_accepted_reply_header y
        else if stat == 1
        then xdr_recv_denied_reply y
        else failed y)
      (Receives-bind (words (verf.flavor ∷ 0 ∷ [])) (words (accepted_words body)) refl xdr_recv_auth
        (λ v y. recv_uint32 y >>= accepted_from v) verf (accepted verf body) auth_received
        (Receives-accepted verf body p.2))
Receives-xdr_recv_reply_header {o} (denied d) p =
    Receives-word 1 (words (denied_words d)) (denied d) (omega arith)
      (λ stat y.
        if stat == 0
        then xdr_recv_accepted_reply_header y
        else if stat == 1
        then xdr_recv_denied_reply y
        else failed y)
      (Receives-denied d p)
Receives-xdr_recv_reply_header {o} (other_reply stat) p = elim p [ ]

-- A reply header whose statuses are the enums', whose numbers are words, and whose verifier has no
-- body is sent as the words that describe it, and received from them, whatever the operation of
-- the handle.
pub xdr_recv_reply_header-xdr_send_reply_header :
    (o p : XdrOp) (r : Reply)
    → IsReply r
    → SendsAt o (xdr_send_reply_header r) (reply_last r) (words (reply_words r))
      × ReceivesAt p xdr_recv_reply_header r (words (reply_words r))
xdr_recv_reply_header-xdr_send_reply_header o p r proper =
    (Sends-xdr_send_reply_header r proper, Receives-xdr_recv_reply_header r proper)
