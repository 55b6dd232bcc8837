-- ===== src/Rpc/Codec/Words.antt =====
-- librpc/svc_clnt_common.c and librpc/xdr.c: the routines for numbers on the wire.
use hardware_msm7k.Prelude.Words.{add32}
use hardware_msm7k.Prelude.Int.{pos, signed32_small}
use hardware_msm7k.Prelude.{
  ℕ, ◌+◌, ◌-◌, ◌*◌, ◌/◌, ◌%◌, ◌^◌, ◌≤◌, ◌<◌, ◌≡◌, refl, ap, ◌∙◌, arith, false, ltb, leb, ◌==◌,
  if◌then◌else◌, List, ◌++◌, length,
}
use hardware_msm7k.Rpc.{
  Xdr, XdrOp, done, failed, ◌>>=◌, Routine, by_op, msgsize_max, word_bytes, is_greater,
}
use hardware_msm7k.Rpc.Stream.{appended, is_beyond, send_uint32, recv_uint32}
use hardware_msm7k.Rpc.Scalars.{xdr_u_int, xdr_u_short, xdr_u_hyper, xdr_bool}
use hardware_msm7k.Rpc.Memory.{load_word-word_bytes}
use hardware_msm7k.Rpc.Codec.{
  Sends, SendsAt, Receives, ReceivesAt, Sends-bind, Receives-bind, Sends-after, Receives-after,
  Codec,
}

-- Bytes that the message holds are not beyond its end.
pub is_beyond_held :
    (n : ℕ) (x : Xdr) (len : ℕ)
    → x.in_len ≡ pos len
    → len ≤ msgsize_max
    → x.in_next + n ≤ len
    → is_beyond n x ≡ false
is_beyond_held n x len e fits room =
    let small = signed32_small (x.in_next + n) (omega (arith, fits, room)) in
    let inside : ltb len (x.in_next + n) ≡ false = ground (arith, room) in
    ap (λ t. is_greater t x.in_len) small ∙ ap (λ t. is_greater (pos (x.in_next + n)) t) e ∙ inside

pub Sends-send_uint32 : {o : XdrOp} (v : ℕ) → SendsAt o (send_uint32 v) v (word_bytes v)
unfolding send_uint32
Sends-send_uint32 v x h =
    let fits : leb (msgsize_max - 3) x.out_next ≡ false = ground (arith, h.room) in
    ap (λ t. if t then failed x else done v (appended (word_bytes v) x)) fits

pub Receives-recv_uint32 :
    {o : XdrOp} (v : ℕ) → v < 2 ^ 32 → ReceivesAt o recv_uint32 v (word_bytes v)
unfolding recv_uint32
Receives-recv_uint32 v bound x h =
    let inside = is_beyond_held 4 x h.len h.in_len-len h.fits h.room in
    let low : ltb msgsize_max (x.in_next + 4) ≡ false = ground (arith, h.room, h.fits) in
    let step : add32 x.in_next 4 ≡ x.in_next + 4 = omega (arith, h.room, h.fits) in
    rw (inside, low, load_word-word_bytes v x.in_msg x.in_next bound h.holds, step) refl

-- The switch on `x_op`: the part for one direction decides.
module _ {ℓ} {A : Type ℓ} (s r f : Routine A) (start v : A) (bs : List ℕ) where
  pub Codec-by_op :
      length bs % 4 ≡ 0
      → Sends (s v) v bs
      → Receives (r start) v bs
      → Codec (λ u x. by_op x.op (s u x) (r u x) (f u x)) start v bs
  Codec-by_op whole sends receives = record {
    whole = whole;
    sends = λ x h. ap (λ o. by_op o (s v x) (r v x) (f v x)) h.is_op ∙ sends x h;
    receives = λ x h. ap (λ o. by_op o (s start x) (r start x) (f start x)) h.is_op ∙ receives x h;
  }

-- A number of 32 bits is four bytes, the highest first.
pub xdr_u_int-Codec : (start v : ℕ) → v < 2 ^ 32 → Codec xdr_u_int start v (word_bytes v)
unfolding xdr_u_int
xdr_u_int-Codec start v bound =
    Codec-by_op send_uint32 (λ u. recv_uint32) done start v (word_bytes v) refl
      (Sends-send_uint32 v) (Receives-recv_uint32 v bound)

-- A number of 16 bits takes a whole word.
pub xdr_u_short-Codec : (start v : ℕ) → v < 2 ^ 16 → Codec xdr_u_short start v (word_bytes v)
unfolding xdr_u_short
xdr_u_short-Codec start v bound =
    let low : v % 2 ^ 16 ≡ v = omega (arith, bound) in
    Codec-by_op send_uint32 (λ u x. recv_uint32 x >>= λ l y. done (l % 2 ^ 16) y) done start v
      (word_bytes v) refl (Sends-send_uint32 v)
      (Receives-after (word_bytes v) recv_uint32 (λ l y. done (l % 2 ^ 16) y) v v
        (λ y. ap (λ t. done t y) low) (Receives-recv_uint32 v (omega (arith, bound))))

-- A truth value is a word, 0 or 1.
pub xdr_bool-Codec : (start b : ℕ) → b ≤ 1 → Codec xdr_bool start b (word_bytes b)
unfolding xdr_bool
xdr_bool-Codec start b bound =
    let sent : (if b == 0 then 0 else 1) ≡ b = ground (arith, bound) in
    Codec-by_op (λ u x. send_uint32 (if u == 0 then 0 else 1) x >>= λ l y. done u y)
      (λ u x. recv_uint32 x >>= λ l y. done (if l == 0 then 0 else 1) y) done start b (word_bytes b)
      refl
      (λ x h.
        ap (λ t. send_uint32 t x >>= λ l y. done b y) sent
        ∙ Sends-after (word_bytes b) (send_uint32 b) (λ l y. done b y) b b (λ y. refl)
            (Sends-send_uint32 b) x h)
      (Receives-after (word_bytes b) recv_uint32 (λ l y. done (if l == 0 then 0 else 1) y) b b
        (λ y. ap (λ t. done t y) sent) (Receives-recv_uint32 b (omega (arith, bound))))

-- A number of 64 bits is its high word and its low word.
abbrev pub hyper_bytes : ℕ → List ℕ
hyper_bytes v = word_bytes (v / 2 ^ 32) ++ word_bytes (v % 2 ^ 32)

module _ (start v : ℕ) (bound : v < 2 ^ 64) where
  Sends-hyper :
      Sends
        (λ x. send_uint32 (v / 2 ^ 32 % 2 ^ 32) x >>= λ t1 y.
          send_uint32 (v % 2 ^ 32) y >>= λ t2 z. done v z)
        v
        (hyper_bytes v)
  Sends-hyper x h =
      let hi = v / 2 ^ 32 in
      let lo = v % 2 ^ 32 in
      let in_word : hi % 2 ^ 32 ≡ hi = omega (arith, bound) in
      ap (λ t. send_uint32 t x >>= λ t1 y. send_uint32 lo y >>= λ t2 z. done v z) in_word
      ∙ Sends-bind (word_bytes hi) (word_bytes lo) refl (send_uint32 hi)
          (λ t1 y. send_uint32 lo y >>= λ t2 z. done v z) hi v (Sends-send_uint32 hi)
          (Sends-after (word_bytes lo) (send_uint32 lo) (λ t2 z. done v z) lo v (λ y. refl)
            (Sends-send_uint32 lo))
          x h

  Receives-hyper :
      Receives
        (λ x. recv_uint32 x >>= λ t1 y. recv_uint32 y >>= λ t2 z. done (t1 * 2 ^ 32 + t2) z)
        v
        (hyper_bytes v)
  Receives-hyper =
      let hi = v / 2 ^ 32 in
      let lo = v % 2 ^ 32 in
      let whole : hi * 2 ^ 32 + lo ≡ v = omega arith in
      Receives-bind (word_bytes hi) (word_bytes lo) refl recv_uint32
        (λ t1 y. recv_uint32 y >>= λ t2 z. done (t1 * 2 ^ 32 + t2) z) hi v
        (Receives-recv_uint32 hi (omega (arith, bound)))
        (Receives-after (word_bytes lo) recv_uint32 (λ t2 z. done (hi * 2 ^ 32 + t2) z) lo v
          (λ y. ap (λ t. done t y) whole) (Receives-recv_uint32 lo (omega arith)))

  pub xdr_u_hyper-Codec : Codec xdr_u_hyper start v (hyper_bytes v)
  unfolding xdr_u_hyper
  xdr_u_hyper-Codec =
      Codec-by_op
        (λ u x. send_uint32 (u / 2 ^ 32 % 2 ^ 32) x >>= λ t1 y.
          send_uint32 (u % 2 ^ 32) y >>= λ t2 z. done u z)
        (λ u x. recv_uint32 x >>= λ t1 y. recv_uint32 y >>= λ t2 z. done (t1 * 2 ^ 32 + t2) z) done
        start v (hyper_bytes v) refl Sends-hyper Receives-hyper
