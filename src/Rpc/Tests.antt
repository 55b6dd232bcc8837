-- ===== src/Rpc/Tests.antt =====
-- librpc: values on the wire, and messages with lengths that wrap.
mod Calls
mod Lists
use mathlib.Core.Option.{map}
use hardware_msm7k.Prelude.Int.{pos, negsuc}
use hardware_msm7k.Prelude.{
  ℕ, ◌+◌, ◌-◌, ◌/◌, ◌*◌, ◌^◌, leb, ap, ◌∙◌, if◌then◌else◌, ◌≤◌, ◌<◌, ◌≡◌, ◌≢◌, refl, arith, Bool,
  true, false, ◌==◌, ltb, ◌&&◌, length, none, some, List, [], ◌∷◌, ◌++◌,
}
use hardware_msm7k.Rpc.{
  Xdr, encode, decode, msgsize_max, by_op, done, failed, undefined, ◌>>=◌, word_bytes, load_word,
  put_bytes, get_bytes,
}
use hardware_msm7k.Rpc.Stream.{recv_uint32, recv_bytes, next_after, msg_send}
use hardware_msm7k.Rpc.Scalars.{xdr_u_int, xdr_u_int_astray}
use hardware_msm7k.Rpc.Compound.{xdr_array, xdr_string, xdr_pointer}
use hardware_msm7k.Rpc.Message.{
  auth_none, Reply, accepted, prog_mismatch, xdr_call_msg_start, xdr_send_reply_header,
  xdr_recv_reply_header,
}
use hardware_msm7k.Rpc.Server.{Server, Transport, Answers, svc_find, svc_register, svc_unregister}
use hardware_msm7k.Rpc.Dispatch.{Request, svc_dispatch, svc_sendreply, svcerr}
use hardware_msm7k.Rpc.Client.{Client, finished, clnt_call, clnt_receive, rpc_success}
use hardware_msm7k.Rpc.Codec.{Codec, SendsAt, ReceivesAt, Incoming, consumed}
use hardware_msm7k.Rpc.Codec.Words.{xdr_u_int-Codec, Receives-recv_uint32}
use hardware_msm7k.Rpc.Codec.Arrays.{array_bytes, flat, xdr_array-Codec}
use hardware_msm7k.Rpc.Codec.Pointers.{xdr_pointer-Codec}
use hardware_msm7k.Rpc.Codec.Strings.{c_string, string_bytes, xdr_string-Codec}
use hardware_msm7k.Rpc.Codec.Headers.{words, bare}
use hardware_msm7k.Rpc.Codec.Replies.{
  reply_words, reply_last, xdr_recv_reply_header-xdr_send_reply_header,
}
use hardware_msm7k.Rpc.Exchange.Request.{received, ready, sent, call-svc_dispatch}
use hardware_msm7k.Rpc.Exchange.Round.{outgoing, delivered, answer_made, clnt_call-svc_sendreply}
use hardware_msm7k.Rpc.Exchange.Refusal.{error_sent, stat_of, svcerr-clnt_receive}
use hardware_msm7k.Rpc.Bounds.{recv_bytes_lem, xdr_array_overflow}
use hardware_msm7k.Rpc.Registry.{WellFormed, register, unregister, after, after-WellFormed}
use hardware_msm7k.Rpc.Receiver.{Event, rx_client}
use hardware_msm7k.Rpc.Callback.{Callbacks, cloned, replaced, callback_round}
use hardware_msm7k.Rpc.Callback.Rounds.{callback_round-registered}
use hardware_msm7k.Rpc.Registry.Entries.{svc_register-svc_find}
use hardware_msm7k.Rpc.Clients.{Balanced, create, destroy, version_used_lem}
use hardware_msm7k.Rpc.Clients
use hardware_msm7k.Rpc.Receiver.{version_used}
use hardware_msm7k.Rpc.Ops.{r_open, r_open_lem}

abbrev pub any_memory : ℕ → Bool
any_memory n = true

abbrev pub handle : Xdr
handle = record {
  op = encode;
  prog = 0x3000_0059;
  vers = 0x0001_0000;
  verf = auth_none;
  xid = 6;
  out_msg = λ j. 0;
  out_next = 0;
  in_msg = λ j. 0;
  in_next = 0;
  in_len = pos 0;
  err = pos 0;
}

abbrev pub client : Client
client = record {
  xdr = handle;
  in_reset = false;
  input_xdr_busy = false;
  got_cb = false;
  cb_stop = negsuc 0;
  cb_threads = 0;
  woken = false;
}

-- The word 7 as an argument, and "ok" as a result.
abbrev pub seven : Codec xdr_u_int 0 7 (word_bytes 7)
seven = xdr_u_int-Codec 0 7 (omega arith)

abbrev pub ok : List ℕ
ok = 111 ∷ 107 ∷ []

xdr_string-Codec_example :
    Codec (xdr_string any_memory 16) none (some (c_string ok)) (string_bytes ok)
xdr_string-Codec_example =
    xdr_string-Codec any_memory 16 ok (omega arith, (omega arith, _)) (omega arith) (omega arith)
      refl

abbrev pub ok_codec : Codec (xdr_string any_memory 16) none (some (c_string ok)) (string_bytes ok)
ok_codec =
    xdr_string-Codec any_memory 16 ok (omega arith, (omega arith, _)) (omega arith) (omega arith)
      refl

xdr_pointer-Codec_example :
    Codec
      (xdr_pointer any_memory 0 xdr_u_int xdr_u_int_astray 4)
      none
      (some 7)
      (word_bytes 1 ++ word_bytes 7)
    × Codec (xdr_pointer any_memory 0 xdr_u_int xdr_u_int_astray 4) none none (word_bytes 0)
xdr_pointer-Codec_example =
    xdr_pointer-Codec xdr_u_int xdr_u_int_astray 0 7 (word_bytes 7) seven any_memory 4 refl

xdr_array-Codec_example :
    Codec
      (xdr_array any_memory 0 xdr_u_int xdr_u_int_astray 4 4)
      (none, 0)
      (some (7 ∷ 9 ∷ []), 2)
      (array_bytes xdr_u_int 0 word_bytes (7 ∷ 9 ∷ []))
xdr_array-Codec_example =
    xdr_array-Codec xdr_u_int 0 word_bytes xdr_u_int_astray any_memory 4 4 (7 ∷ 9 ∷ [])
      (seven, (xdr_u_int-Codec 0 9 (omega arith), _)) (omega arith) (omega arith) (omega arith) refl
      (omega arith)

abbrev versions : Reply
versions = accepted (bare 0) (prog_mismatch 1 3)

xdr_recv_reply_header-xdr_send_reply_header_example :
    SendsAt encode
      (xdr_send_reply_header versions)
      (reply_last versions)
      (words (reply_words versions))
    × ReceivesAt decode xdr_recv_reply_header versions (words (reply_words versions))
xdr_recv_reply_header-xdr_send_reply_header_example =
    xdr_recv_reply_header-xdr_send_reply_header encode decode versions
      (omega arith, refl, (omega arith, omega arith))

-- A message of 24 bytes that is read up to the length of some bytes.
abbrev short_message : Xdr
short_message = record handle { op = decode; in_next = 8; in_len = pos 24 }

recv_bytes_lem_example :
    (24 < 8 + 4294967292
      → 8 + 4294967292 < 2 ^ 31
      → recv_bytes 4294967292 short_message ≡ failed short_message)
    × (8 + 4294967292 ≤ 24
        → recv_bytes 4294967292 short_message
          ≡ done
              (get_bytes short_message.in_msg 4294967292 8)
              (next_after 4294967292 short_message))
    × (2 ^ 31 ≤ 8 + 4294967292 → recv_bytes 4294967292 short_message ≡ undefined)
recv_bytes_lem_example =
    recv_bytes_lem short_message 24 refl (omega arith) (omega arith) 4294967292 (omega arith)

-- A count of 2 ^ 30 + 1 words, whose size in bytes wraps to 4.
abbrev count_and_seven : List ℕ
count_and_seven = word_bytes 1073741825 ++ (flat word_bytes (7 ∷ []) ++ word_bytes 9)

abbrev large_count : Xdr
large_count = record handle {
  op = decode;
  in_next = 8;
  in_len = pos 32;
  in_msg = put_bytes count_and_seven 8 (λ j. 0);
}

large_count-Incoming : Incoming decode count_and_seven large_count
unfolding put_bytes get_bytes
large_count-Incoming = record {
  is_op = refl;
  len = 32;
  in_len-len = refl;
  aligned = refl;
  fits = omega arith;
  room = omega arith;
  holds = refl;
}

-- A word that is received is stored outside of the memory.
nine_astray : (y : Xdr) → Incoming decode (word_bytes 9) y → xdr_u_int_astray y ≡ undefined
unfolding xdr_u_int_astray
nine_astray y h =
    ap
      (λ o.
        by_op o (if leb (msgsize_max - 3) y.out_next then failed y else undefined)
          (recv_uint32 y >>= λ v z. undefined) (done tt y))
      h.is_op
    ∙ ap (λ o. o >>= λ v z. undefined) (Receives-recv_uint32 9 (omega arith) y h)

xdr_array_overflow_example :
    xdr_array any_memory 0 xdr_u_int xdr_u_int_astray 4294967295 4 (none, 0) large_count ≡ undefined
xdr_array_overflow_example =
    xdr_array_overflow xdr_u_int 0 word_bytes xdr_u_int_astray 9 nine_astray any_memory 4294967295 4
      1073741825 (7 ∷ []) large_count (omega arith) (omega arith) (omega arith) (omega arith) refl
      refl (seven, _) large_count-Incoming
