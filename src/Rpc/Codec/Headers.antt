-- ===== src/Rpc/Codec/Headers.antt =====
-- librpc/rpc.c and librpc/clnt.c: the headers of calls and replies on the wire.
use hardware_msm7k.Prelude.{ℕ, ◌^◌, ◌<◌, refl, arith, ◌==◌, if◌then◌else◌, List, [], ◌∷◌, ◌++◌}
use hardware_msm7k.Rpc.{Auth, Xdr, XdrOp, Result, done, failed, ◌>>=◌, word_bytes}
use hardware_msm7k.Rpc.Stream.{send_uint32, recv_uint32, skip_bytes}
use hardware_msm7k.Rpc.Message.{xdr_send_auth, xdr_recv_auth}
use hardware_msm7k.Rpc.Codec.{SendsAt, ReceivesAt, Sends-bind, Receives-bind}
use hardware_msm7k.Rpc.Codec.Words.{Sends-send_uint32, Receives-recv_uint32}
use hardware_msm7k.Rpc.Codec.Arrays.{Sends-none, Receives-none}

-- A word in front of what follows.
module _ {ℓ} {B : Type ℓ} (v : ℕ) (cs : List ℕ) (b : B) where
  pub Sends-word :
      {o : XdrOp} (g : ℕ → Xdr → Result B)
      → SendsAt o (g v) b cs
      → SendsAt o (λ x. send_uint32 v x >>= g) b (word_bytes v ++ cs)
  Sends-word g next =
      Sends-bind (word_bytes v) cs refl (send_uint32 v) g v b (Sends-send_uint32 v) next

  pub Receives-word :
      {o : XdrOp}
      → v < 2 ^ 32
      → (g : ℕ → Xdr → Result B) → ReceivesAt o (g v) b cs
      → ReceivesAt o (λ x. recv_uint32 x >>= g) b (word_bytes v ++ cs)
  Receives-word bound g next =
      Receives-bind (word_bytes v) cs refl recv_uint32 g v b (Receives-recv_uint32 v bound) next

-- A list of words as bytes.
abbrev pub words : List ℕ → List ℕ
words [] = []
words (v ∷ vs) = word_bytes v ++ words vs

-- An authenticator with no body.
abbrev pub bare : ℕ → Auth
bare flavor = record { flavor = flavor; body = [] }

pub Sends-xdr_send_auth :
    {o : XdrOp} (flavor : ℕ)
    → SendsAt o (xdr_send_auth (bare flavor)) (bare flavor) (words (flavor ∷ 0 ∷ []))
unfolding xdr_send_auth
Sends-xdr_send_auth flavor =
    Sends-word flavor (words (0 ∷ [])) (bare flavor) _
      (Sends-word 0 [] (bare flavor) (λ n z. done (bare flavor) z) (Sends-none (bare flavor)))

pub Receives-xdr_recv_auth :
    {o : XdrOp} (flavor : ℕ)
    → flavor < 2 ^ 32
    → ReceivesAt o xdr_recv_auth (bare flavor) (words (flavor ∷ 0 ∷ []))
unfolding xdr_recv_auth
Receives-xdr_recv_auth flavor bound =
    Receives-word flavor (words (0 ∷ [])) (bare flavor) bound
      (λ f y. recv_uint32 y >>= λ size z.
        if size == 0 then done (bare f) z else skip_bytes size z >>= (λ n w. failed w))
      (Receives-word 0 [] (bare flavor) (omega arith)
        (λ size z.
          if size == 0 then done (bare flavor) z else skip_bytes size z >>= (λ n w. failed w))
        (Receives-none (bare flavor)))
