-- ===== src/Rpc.antt =====
-- librpc: messages of remote procedure calls. This file has the handle `XDR` of rpc/types.h and the
-- outcome of its routines. An array of bytes is a function of the index, an `int` that counts bytes is
-- its 32-bit pattern, and a length that comes back from the system is an integer.
pub mod Stream
pub mod Scalars
pub mod Compound
pub mod Message
pub mod Server
pub mod Dispatch
pub mod Client
pub mod Memory
pub mod Codec
pub mod Exchange
pub mod Registry
pub mod Bounds
pub mod Ops
pub mod Clients
pub mod Callback
mod Tests
pub mod Receiver
use hardware_msm7k.Prelude.Family.{change}
use hardware_msm7k.Prelude.Int.{ℤ, pos, negsuc}
use hardware_msm7k.Prelude.{
  ℕ, zero, suc, ◌+◌, ◌*◌, ◌/◌, ◌%◌, ◌^◌, Bool, true, false, ltb, leb, if◌then◌else◌, List, [], ◌∷◌,
  ◌-◌,
}

-- `enum xdr_op`
pub data XdrOp : Type 0 where
  encode decode free : XdrOp

-- `opaque_auth`: the flavour, and the bytes that `oa_base` and `oa_length` stand for.
pub record Auth : Type 0 where
  pub flavor : ℕ
  pub body : List ℕ

-- `struct xdr_struct`, without the operations and what only the log reads.
pub record Xdr : Type 0 where
  pub op : XdrOp
  pub prog : ℕ
  pub vers : ℕ
  pub verf : Auth
  pub xid : ℕ
  pub out_msg : ℕ → ℕ
  pub out_next : ℕ
  pub in_msg : ℕ → ℕ
  pub in_next : ℕ
  pub in_len : ℤ
  pub err : ℤ

-- `RPCROUTER_MSGSIZE_MAX`, and `RPC_OFFSET` as the library is built.
abbrev pub msgsize_max : ℕ
msgsize_max = 18432

abbrev pub rpc_offset : ℕ
rpc_offset = 0

-- What a routine comes to: TRUE with a value, FALSE, or an access outside of an array or through a null
-- pointer, which C leaves undefined. What a routine that fails leaves in the caller's data is not
-- followed.
pub data Result {ℓ} (A : Type ℓ) : Type ℓ where
  done : A → Xdr → Result A
  failed : Xdr → Result A
  undefined : Result A

infixl 5 ◌>>=◌
abbrev pub ◌>>=◌ {ℓ κ} : {A : Type ℓ} {B : Type κ} → Result A → (A → Xdr → Result B) → Result B
done a x >>= f = f a x
failed x >>= f = failed x
undefined >>= f = undefined

-- `xdrproc_t`: a routine for data of one type, for all three operations.
abbrev pub Routine {ℓ} : Type ℓ → Type ℓ
Routine A = A → Xdr → Result A

-- The switch on `x_op`.
abbrev pub by_op {ℓ} : {A : Type ℓ} → XdrOp → A → A → A → A
by_op encode e d f = e
by_op decode e d f = d
by_op free e d f = f

-- The bytes of a word in the order of the network, and back: `htonl` and `ntohl`.
abbrev pub word_bytes : ℕ → List ℕ
word_bytes v = v / 2 ^ 24 % 256 ∷ v / 2 ^ 16 % 256 ∷ v / 2 ^ 8 % 256 ∷ v % 256 ∷ []

abbrev pub load_word : (ℕ → ℕ) → ℕ → ℕ
load_word m p = m p * 2 ^ 24 + m (suc p) * 2 ^ 16 + m (suc (suc p)) * 2 ^ 8 + m (suc (suc (suc p)))

-- Bytes stored one after the other.
unfoldable pub put_bytes : List ℕ → (at : ℕ) → (ℕ → ℕ) → ℕ → ℕ
put_bytes [] at m = m
put_bytes (b ∷ bs) at m = put_bytes bs (suc at) (change m at b)

-- Bytes read one after the other.
unfoldable pub get_bytes : (ℕ → ℕ) → (n at : ℕ) → List ℕ
get_bytes m zero at = []
get_bytes m (suc n) at = m at ∷ get_bytes m n (suc at)

-- `a > b` on two `int`s
abbrev pub is_greater : ℤ → ℤ → Bool
is_greater (pos a) (pos b) = ltb b a
is_greater (pos a) (negsuc b) = true
is_greater (negsuc a) (pos b) = false
is_greater (negsuc a) (negsuc b) = ltb a b

-- The `int` that a value of 8 or 16 bits becomes.
abbrev pub extend : (half v : ℕ) → ℕ
extend half v = (if leb half v then v + 2 ^ 32 - 2 * half else v)
