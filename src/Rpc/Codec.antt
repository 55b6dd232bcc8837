-- ===== src/Rpc/Codec.antt =====
-- librpc: what a routine promises on the wire. `Sends` and `Receives` tie a routine to the bytes that a
-- value has, and the lemmas here put routines behind each other.
pub mod Words
pub mod Arrays
pub mod Texts
pub mod Strings
pub mod Pointers
pub mod Headers
pub mod Replies
use hardware_msm7k.Prelude.Int.{ℤ, pos}
use hardware_msm7k.Prelude.{
  ℕ, zero, suc, ◌+◌, ◌-◌, ◌*◌, ◌%◌, ◌^◌, ◌≤◌, ◌<◌, ◌≡◌, refl, sym, ap, ◌∙◌, arith, List, [], ◌∷◌,
  ◌++◌, length, length-append,
}
use hardware_msm7k.Rpc.{
  Xdr, XdrOp, encode, decode, Result, done, ◌>>=◌, Routine, msgsize_max, put_bytes, get_bytes,
}
use hardware_msm7k.Rpc.Stream.{appended}
use hardware_msm7k.Rpc.Memory.{put_bytes-append, get_bytes-append}

-- Bytes that fill whole words.
abbrev pub IsWhole : List ℕ → Type 0
IsWhole bs = length bs % 4 ≡ 0

-- An outgoing message with room for some bytes, and the operation of its handle.
pub record Outgoing (o : XdrOp) (n : ℕ) (x : Xdr) : Type 0 where
  pub is_op : x.op ≡ o
  pub aligned : x.out_next % 4 ≡ 0
  pub room : x.out_next + n ≤ msgsize_max

-- An incoming message that goes on with some bytes, and the operation of its handle.
pub record Incoming (o : XdrOp) (bs : List ℕ) (x : Xdr) : Type 0 where
  pub is_op : x.op ≡ o
  pub len : ℕ
  pub in_len-len : x.in_len ≡ pos len
  pub aligned : x.in_next % 4 ≡ 0
  pub fits : len ≤ msgsize_max
  pub room : x.in_next + length bs ≤ len
  pub holds : get_bytes x.in_msg (length bs) x.in_next ≡ bs

-- The message with some bytes of it read.
abbrev pub consumed : List ℕ → Xdr → Xdr
consumed bs x = record x { in_next = x.in_next + length bs }

abbrev pub SendsAt {ℓ} : {A : Type ℓ} → XdrOp → (Xdr → Result A) → A → List ℕ → Type ℓ
SendsAt o f v bs = (x : Xdr) → Outgoing o (length bs) x → f x ≡ done v (appended bs x)

abbrev pub Sends {ℓ} : {A : Type ℓ} → (Xdr → Result A) → A → List ℕ → Type ℓ
Sends = SendsAt encode

abbrev pub ReceivesAt {ℓ} : {A : Type ℓ} → XdrOp → (Xdr → Result A) → A → List ℕ → Type ℓ
ReceivesAt o f v bs = (x : Xdr) → Incoming o bs x → f x ≡ done v (consumed bs x)

abbrev pub Receives {ℓ} : {A : Type ℓ} → (Xdr → Result A) → A → List ℕ → Type ℓ
Receives = ReceivesAt decode

pub appended-appended :
    (bs cs : List ℕ) (x : Xdr) → appended cs (appended bs x) ≡ appended (bs ++ cs) x
appended-appended bs cs x =
    let bytes = put_bytes-append bs cs x.out_next x.out_msg in
    let place : x.out_next + length bs + length cs ≡ x.out_next + length (bs ++ cs) =
      omega (arith, length-append bs cs) in
    ap (λ m. record x { out_msg = m; out_next = x.out_next + length bs + length cs }) bytes
    ∙ ap (λ n. record x { out_msg = put_bytes (bs ++ cs) x.out_next x.out_msg; out_next = n }) place

pub consumed-consumed :
    (bs cs : List ℕ) (x : Xdr) → consumed cs (consumed bs x) ≡ consumed (bs ++ cs) x
consumed-consumed bs cs x =
    let place : x.in_next + length bs + length cs ≡ x.in_next + length (bs ++ cs) =
      omega (arith, length-append bs cs) in
    ap (λ n. record x { in_next = n }) place

module _ (bs cs : List ℕ) (whole : IsWhole bs) (x : Xdr) where
  pub Outgoing-split :
      {o : XdrOp}
      → Outgoing o (length (bs ++ cs)) x
      → Outgoing o (length bs) x × Outgoing o (length cs) (appended bs x)
  Outgoing-split h = (
    record {
      is_op = h.is_op;
      aligned = h.aligned;
      room = omega (arith, h.room, length-append bs cs);
    },
    record {
      is_op = h.is_op;
      aligned = omega (arith, h.aligned, whole);
      room = omega (arith, h.room, length-append bs cs);
    },
  )

  pub Incoming-split :
      {o : XdrOp} → Incoming o (bs ++ cs) x → Incoming o bs x × Incoming o cs (consumed bs x)
  Incoming-split h =
      let parts = get_bytes-append bs cs x.in_msg x.in_next h.holds in
      (
        record {
          is_op = h.is_op;
          len = h.len;
          in_len-len = h.in_len-len;
          aligned = h.aligned;
          fits = h.fits;
          room = omega (arith, h.room, length-append bs cs);
          holds = parts.0;
        },
        record {
          is_op = h.is_op;
          len = h.len;
          in_len-len = h.in_len-len;
          aligned = omega (arith, h.aligned, whole);
          fits = h.fits;
          room = omega (arith, h.room, length-append bs cs);
          holds = parts.1;
        },
      )

-- A routine behind another sends its bytes behind the other's, and receives them there.
module _ {ℓ κ} {A : Type ℓ} {B : Type κ} (bs cs : List ℕ) (whole : IsWhole bs) where
  pub Sends-bind :
      {o : XdrOp} (f : Xdr → Result A) (g : A → Xdr → Result B) (a : A) (b : B)
      → SendsAt o f a bs
      → SendsAt o (g a) b cs
      → SendsAt o (λ x. f x >>= g) b (bs ++ cs)
  Sends-bind f g a b front behind x h =
      let parts = Outgoing-split bs cs whole x h in
      ap (λ o. o >>= g) (front x parts.0)
      ∙ behind (appended bs x) parts.1
      ∙ ap (done b) (appended-appended bs cs x)

  pub Receives-bind :
      {o : XdrOp} (f : Xdr → Result A) (g : A → Xdr → Result B) (a : A) (b : B)
      → ReceivesAt o f a bs
      → ReceivesAt o (g a) b cs
      → ReceivesAt o (λ x. f x >>= g) b (bs ++ cs)
  Receives-bind f g a b front behind x h =
      let parts = Incoming-split bs cs whole x h in
      ap (λ o. o >>= g) (front x parts.0)
      ∙ behind (consumed bs x) parts.1
      ∙ ap (done b) (consumed-consumed bs cs x)

-- A routine that only computes after another has the other's bytes.
module _ {ℓ κ} {A : Type ℓ} {B : Type κ} (bs : List ℕ) where
  pub Sends-after :
      {o : XdrOp} (f : Xdr → Result A) (g : A → Xdr → Result B) (a : A) (b : B)
      → ((y : Xdr) → g a y ≡ done b y)
      → SendsAt o f a bs
      → SendsAt o (λ x. f x >>= g) b bs
  Sends-after f g a b finish front x h = ap (λ o. o >>= g) (front x h) ∙ finish (appended bs x)

  pub Receives-after :
      {o : XdrOp} (f : Xdr → Result A) (g : A → Xdr → Result B) (a : A) (b : B)
      → ((y : Xdr) → g a y ≡ done b y)
      → ReceivesAt o f a bs
      → ReceivesAt o (λ x. f x >>= g) b bs
  Receives-after f g a b finish front x h = ap (λ o. o >>= g) (front x h) ∙ finish (consumed bs x)

-- A routine that writes a value as some bytes, and reads the value from them over another one.
pub record Codec {ℓ} {A : Type ℓ} (f : Routine A) (start v : A) (bs : List ℕ) : Type ℓ where
  pub whole : IsWhole bs
  pub sends : Sends (f v) v bs
  pub receives : Receives (f start) v bs
