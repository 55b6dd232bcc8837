-- ===== src/Rpc/Stream.antt =====
-- librpc/svc_clnt_common.c: the operations of the transport `xdr_std_xops`. A send gives back the
-- value that it sent.
use hardware_msm7k.Prelude.Words.{add32, align32}
use hardware_msm7k.Prelude.Int.{ℤ, pos, negsuc, signed32}
use hardware_msm7k.Prelude.{
  ℕ, zero, suc, ◌+◌, ◌-◌, ◌*◌, ◌%◌, ◌^◌, Bool, true, false, ltb, leb, ◌==◌, if◌then◌else◌, List, [],
  ◌∷◌, ◌++◌, length,
}
use hardware_msm7k.Rpc.{
  Xdr, Result, done, failed, undefined, ◌>>=◌, msgsize_max, rpc_offset, word_bytes, load_word,
  put_bytes, get_bytes, is_greater, extend,
}

-- `RPC_MSG_CALL` and `RPC_MSG_REPLY`
abbrev pub msg_call : ℕ
msg_call = 0

abbrev pub msg_reply : ℕ
msg_reply = 1

-- Bytes appended to the outgoing message.
abbrev pub appended : List ℕ → Xdr → Xdr
appended bs x = record x {
  out_msg = put_bytes bs x.out_next x.out_msg;
  out_next = x.out_next + length bs;
}

-- `xdr_std_msg_start`
unfoldable pub msg_start : (msg_type : ℕ) → Xdr → Xdr
unfolding put_bytes
msg_start msg_type x =
    let xid = (if msg_type == msg_call then add32 x.xid 1 else x.xid) in
    record x {
      xid = xid;
      out_next = (rpc_offset + 2) * 4;
      out_msg =
          put_bytes (word_bytes msg_type) ((rpc_offset + 1) * 4)
            (put_bytes (word_bytes xid) (rpc_offset * 4) x.out_msg);
    }

-- `xdr_std_msg_send`, with what `r_write` gives.
unfoldable pub msg_send : (written : ℤ) → Xdr → Bool × Xdr
msg_send (pos n) x = (n == x.out_next, record x { err = pos n })
msg_send (negsuc n) x = (false, record x { err = negsuc n })

-- `xdr_std_read`, with the length that `r_read` gives and what the message holds then.
unfoldable pub read : (len : ℤ) → (msg : ℕ → ℕ) → Xdr → Bool × Xdr
read (negsuc n) msg x = (false, record x { in_msg = msg; in_len = negsuc n })
read (pos n) msg x =
    if ltb n ((rpc_offset + 2) * 4)
    then (false, record x { in_msg = msg; in_len = negsuc 0 })
    else (true, record x { in_msg = msg; in_len = pos n; in_next = (rpc_offset + 2) * 4 })

-- `xdr_std_send_uint32`
unfoldable pub send_uint32 : ℕ → Xdr → Result ℕ
unfolding put_bytes
send_uint32 value x =
    if leb (msgsize_max - 3) x.out_next
    then failed x
    else done value (appended (word_bytes value) x)

-- `xdr_std_send_int32`, `xdr_std_send_uint8` and `xdr_std_send_uint16`
abbrev pub send_int32 : ℕ → Xdr → Result ℕ
send_int32 = send_uint32

abbrev pub send_uint8 : ℕ → Xdr → Result ℕ
send_uint8 = send_uint32

abbrev pub send_uint16 : ℕ → Xdr → Result ℕ
send_uint16 = send_uint32

-- `xdr_std_send_int8` and `xdr_std_send_int16`
unfoldable pub send_int8 : ℕ → Xdr → Result ℕ
unfolding send_uint32
send_int8 value x = send_uint32 (extend (2 ^ 7) value) x

unfoldable pub send_int16 : ℕ → Xdr → Result ℕ
unfolding send_uint32
send_int16 value x = send_uint32 (extend (2 ^ 15) value) x

-- The zeros that fill a message up to a multiple of 4 bytes.
abbrev pub zeros : ℕ → List ℕ
zeros zero = []
zeros (suc n) = 0 ∷ zeros n

abbrev pub padding : ℕ → List ℕ
padding n = zeros ((4 - n % 4) % 4)

-- `xdr_std_send_bytes`, of a buffer of `length buf` bytes. The bound is tested on a sum that wraps.
unfoldable pub send_bytes : List ℕ → Xdr → Result (List ℕ)
unfolding put_bytes
send_bytes buf x =
    if ltb msgsize_max (add32 x.out_next (length buf))
    then failed x
    else if ltb msgsize_max (x.out_next + length buf)
    then undefined
    else done buf (appended (buf ++ padding (x.out_next + length buf)) x)

-- Whether `n` bytes more pass the end of the incoming message, on an `int` that may wrap.
abbrev pub is_beyond : ℕ → Xdr → Bool
is_beyond n x = is_greater (signed32 (add32 x.in_next n)) x.in_len

-- `xdr_std_recv_uint32`
unfoldable pub recv_uint32 : Xdr → Result ℕ
recv_uint32 x =
    if is_beyond 4 x
    then failed x
    else if ltb msgsize_max (x.in_next + 4)
    then undefined
    else done (load_word x.in_msg x.in_next) (record x { in_next = add32 x.in_next 4 })

-- `xdr_std_recv_int32`
abbrev pub recv_int32 : Xdr → Result ℕ
recv_int32 = recv_uint32

-- `xdr_std_recv_int8` and `xdr_std_recv_int16`, and the unsigned ones, as patterns of 8 and 16 bits.
unfoldable pub recv_int8 : Xdr → Result ℕ
unfolding recv_uint32
recv_int8 x = recv_uint32 x >>= λ v y. done (v % 2 ^ 8) y

unfoldable pub recv_int16 : Xdr → Result ℕ
unfolding recv_uint32
recv_int16 x = recv_uint32 x >>= λ v y. done (v % 2 ^ 16) y

abbrev pub recv_uint8 : Xdr → Result ℕ
recv_uint8 = recv_int8

abbrev pub recv_uint16 : Xdr → Result ℕ
recv_uint16 = recv_int16

-- `in_next` after so many bytes and their padding.
abbrev pub next_after : ℕ → Xdr → Xdr
next_after n x = record x { in_next = align32 (add32 x.in_next n) 4 }

-- `xdr_std_recv_bytes` into a buffer.
unfoldable pub recv_bytes : (len : ℕ) → Xdr → Result (List ℕ)
unfolding get_bytes
recv_bytes len x =
    if is_beyond len x
    then failed x
    else if ltb msgsize_max (x.in_next + len)
    then undefined
    else done (get_bytes x.in_msg len x.in_next) (next_after len x)

-- `xdr_std_recv_bytes` with no buffer, which skips the bytes.
unfoldable pub skip_bytes : (len : ℕ) → Xdr → Result ℕ
skip_bytes len x = if is_beyond len x then failed x else done len (next_after len x)
