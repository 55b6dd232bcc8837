-- ===== src/Rpc/Scalars.antt =====
-- librpc/xdr.c: the routines for numbers. `long` has 32 bits, and a plain `char` is unsigned, as on
-- the machine that the code is built for; a signed number is its pattern.
use hardware_msm7k.Prelude.{ℕ, ◌+◌, ◌-◌, leb, ◌*◌, ◌/◌, ◌%◌, ◌^◌, ◌==◌, if◌then◌else◌}
use hardware_msm7k.Rpc.{
  Xdr, Result, done, failed, undefined, msgsize_max, ◌>>=◌, Routine, by_op, extend,
}
use hardware_msm7k.Rpc.Stream.{
  send_uint32, send_int32, send_int8, send_int16, recv_uint32, recv_int32, recv_int8, recv_int16,
}

-- `xdr_u_int`
unfoldable pub xdr_u_int : Routine ℕ
unfolding send_uint32 recv_uint32
xdr_u_int v x = by_op x.op (send_uint32 v x) (recv_uint32 x) (done v x)

-- `xdr_u_int` at a target outside of the memory: the message is tested before the target is read or
-- stored to.
unfoldable pub xdr_u_int_astray : Xdr → Result {0} Unit
unfolding recv_uint32
xdr_u_int_astray x =
    by_op x.op (if leb (msgsize_max - 3) x.out_next then failed x else undefined)
      (recv_uint32 x >>= λ v y. undefined) (done tt x)

-- The routines with the same body: `xdr_int`, `xdr_enum` and `xdr_long` send and receive an `int32`.
unfoldable pub xdr_int : Routine ℕ
xdr_int v x = by_op x.op (send_int32 v x) (recv_int32 x) (done v x)

unfoldable pub xdr_enum : Routine ℕ
xdr_enum v x = by_op x.op (send_int32 v x) (recv_int32 x) (done v x)

unfoldable pub xdr_long : Routine ℕ
xdr_long v x = by_op x.op (send_int32 v x) (recv_int32 x) (done v x)

unfoldable pub xdr_u_long : Routine ℕ
xdr_u_long v x = by_op x.op (send_uint32 v x) (recv_uint32 x) (done v x)

-- `xdr_u_char` and `xdr_char`
unfoldable pub xdr_u_char : Routine ℕ
unfolding xdr_u_int
xdr_u_char c x = xdr_u_int c x >>= λ u y. done (u % 2 ^ 8) y

unfoldable pub xdr_char : Routine ℕ
xdr_char c x = xdr_int c x >>= λ i y. done (i % 2 ^ 8) y

-- `xdr_u_short`
unfoldable pub xdr_u_short : Routine ℕ
unfolding send_uint32 recv_uint32
xdr_u_short v x =
    by_op x.op (send_uint32 v x) (recv_uint32 x >>= λ l y. done (l % 2 ^ 16) y) (done v x)

-- `xdr_short`
unfoldable pub xdr_short : Routine ℕ
unfolding send_uint32 recv_uint32
xdr_short v x =
    by_op x.op (send_uint32 (extend (2 ^ 15) v) x >>= λ l y. done v y)
      (recv_uint32 x >>= λ l y. done (l % 2 ^ 16) y) (done v x)

-- `xdr_u_hyper`, and `xdr_u_quad_t` and `xdr_quad_t`, which call it.
unfoldable pub xdr_u_hyper : Routine ℕ
unfolding send_uint32 recv_uint32
xdr_u_hyper v x =
    by_op x.op
      (send_uint32 (v / 2 ^ 32 % 2 ^ 32) x >>= λ t1 y.
        send_uint32 (v % 2 ^ 32) y >>= λ t2 z. done v z)
      (recv_uint32 x >>= λ t1 y. recv_uint32 y >>= λ t2 z. done (t1 * 2 ^ 32 + t2) z) (done v x)

abbrev pub xdr_u_quad_t : Routine ℕ
xdr_u_quad_t = xdr_u_hyper

abbrev pub xdr_quad_t : Routine ℕ
xdr_quad_t = xdr_u_quad_t

-- `xdr_void`, for data of any type.
abbrev pub xdr_void {ℓ} : {A : Type ℓ} → Routine A
xdr_void a x = done a x

-- `xdr_bool`
unfoldable pub xdr_bool : Routine ℕ
unfolding send_uint32 recv_uint32
xdr_bool b x =
    by_op x.op (send_uint32 (if b == 0 then 0 else 1) x >>= λ lb y. done b y)
      (recv_uint32 x >>= λ lb y. done (if lb == 0 then 0 else 1) y) (done b x)

-- `xdr_send_enum` and `xdr_recv_enum`, by the size of the type.
unfoldable pub xdr_send_enum : (size value : ℕ) → Xdr → Result ℕ
unfolding send_uint32 send_int16 send_int8
xdr_send_enum size value x =
    if size == 4
    then send_uint32 value x
    else if size == 2
    then send_int16 value x
    else if size == 1
    then send_int8 value x
    else failed x

unfoldable pub xdr_recv_enum : (size : ℕ) → Xdr → Result ℕ
unfolding recv_uint32 recv_int16 recv_int8
xdr_recv_enum size x =
    if size == 4
    then recv_uint32 x
    else if size == 2
    then recv_int16 x
    else if size == 1
    then recv_int8 x
    else failed x
