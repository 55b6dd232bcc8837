-- ===== src/Rpc/Tests/Calls.antt =====
-- librpc: a call with a number as its argument and a string as its result, an error, and callbacks.
use hardware_msm7k.Prelude.Int.{pos}
use hardware_msm7k.Prelude.{◌≡◌, ◌≢◌, refl, arith, true, false, length, none, some, List, [], ◌∷◌}
use hardware_msm7k.Rpc.{Xdr, decode, done, ◌>>=◌, word_bytes, load_word, put_bytes}
use hardware_msm7k.Rpc.Stream.{msg_send}
use hardware_msm7k.Rpc.Scalars.{xdr_u_int}
use hardware_msm7k.Rpc.Compound.{xdr_string}
use hardware_msm7k.Rpc.Message.{auth_none, xdr_call_msg_start}
use hardware_msm7k.Rpc.Server.{Server, Transport, svc_find}
use hardware_msm7k.Rpc.Dispatch.{Request, svc_dispatch, svc_sendreply, svcerr}
use hardware_msm7k.Rpc.Client.{finished, clnt_call, clnt_receive, rpc_success}
use hardware_msm7k.Rpc.Codec.{consumed}
use hardware_msm7k.Rpc.Codec.Strings.{c_string, string_bytes}
use hardware_msm7k.Rpc.Codec.Headers.{words}
use hardware_msm7k.Rpc.Exchange.Request.{received, ready, sent, call-svc_dispatch}
use hardware_msm7k.Rpc.Exchange.Round.{outgoing, delivered, answer_made, clnt_call-svc_sendreply}
use hardware_msm7k.Rpc.Exchange.Refusal.{error_sent, stat_of, svcerr-clnt_receive}
use hardware_msm7k.Rpc.Callback.{Callbacks, cloned, replaced, callback_round}
use hardware_msm7k.Rpc.Callback.Rounds.{callback_round-registered}
use hardware_msm7k.Rpc.Tests.{any_memory, handle, client, seven, ok, ok_codec}
use hardware_msm7k.Rpc.Tests.Lists.{nobody}

abbrev server : Server
server = record { xdr = none; prog = 0x3000_0059; vers = 0x0001_0000; dispatch = 1; active = 0 }

-- A service that leaves the server as it is.
abbrev quiet : Request → Server → Server
quiet request s = s

abbrev sent_seven : Xdr
sent_seven =
    sent xdr_u_int 0 7 (word_bytes 7) seven 0x3000_0059 0x0001_0000 4 (omega arith) (omega arith)
      (omega arith) handle handle refl (omega arith)

call-svc_dispatch_example :
    ((xdr_call_msg_start 0x3000_0059 0x0001_0000 4 auth_none auth_none handle >>= λ a y.
    xdr_u_int 7 y)
      ≡ done 7 sent_seven)
    × (svc_dispatch quiet 100
          (record server { xdr = some (received sent_seven.out_msg sent_seven.out_next handle) })
        ≡ some
            (record (quiet
              (record { prog = 0x3000_0059; vers = 0x0001_0000; proc = 4 })
              (record server {
                xdr = some (ready sent_seven.out_msg sent_seven.out_next handle);
                active = 100;
              })) { active = 0 }))
    × (xdr_u_int 0 (ready sent_seven.out_msg sent_seven.out_next handle)
        ≡ done 7 (consumed (word_bytes 7) (ready sent_seven.out_msg sent_seven.out_next handle)))
call-svc_dispatch_example =
    call-svc_dispatch xdr_u_int 0 7 (word_bytes 7) seven 0x3000_0059 0x0001_0000 4 (omega arith)
      (omega arith) (omega arith) handle handle refl (omega arith) quiet 100 server refl refl

abbrev call_seven : Xdr
call_seven =
    outgoing xdr_u_int 0 7 (word_bytes 7) seven (xdr_string any_memory 16) none (some (c_string ok))
      (string_bytes ok) ok_codec 4 client refl (omega arith) (omega arith) (omega arith)
      (omega arith) (omega arith)

-- The server's handle when it has read the call.
abbrev serving : Xdr
serving = record handle { in_msg = call_seven.out_msg; in_len = pos 44; in_next = 44; op = decode }

abbrev answer_ok : Xdr
answer_ok =
    answer_made xdr_u_int 0 7 (word_bytes 7) seven (xdr_string any_memory 16) none
      (some (c_string ok)) (string_bytes ok) ok_codec 4 client refl (omega arith) (omega arith)
      (omega arith) (omega arith) (omega arith) 100 refl (pos 32) serving refl (omega arith)

clnt_call-svc_sendreply_example :
    (svc_sendreply 100 (pos 32) (xdr_string any_memory 16) (some (c_string ok)) serving
      ≡ done (some (c_string ok)) answer_ok)
    × (clnt_call 4 xdr_u_int 7
          (xdr_string any_memory 16)
          none
          false
          (pos 44)
          (delivered answer_ok.out_msg 32)
          client
        ≡ finished rpc_success (some (some (c_string ok))) (record client {
          xdr = record call_seven {
            err = pos 44;
            in_msg = answer_ok.out_msg;
            in_len = pos 32;
            in_next = 32;
            op = decode;
          };
          input_xdr_busy = false;
          woken = true;
        }))
clnt_call-svc_sendreply_example =
    clnt_call-svc_sendreply xdr_u_int 0 7 (word_bytes 7) seven (xdr_string any_memory 16) none
      (some (c_string ok)) (string_bytes ok) ok_codec 4 client refl (omega arith) (omega arith)
      (omega arith) (omega arith) (omega arith) 100 refl (pos 32) serving refl (omega arith)

-- `svcerr_noproc`, from a handle that has a number of its own.
svcerr-clnt_receive_example :
    (svcerr 3 100 (pos 24) serving
      ≡ done
          (msg_send (pos 24) (error_sent 3 serving)).0
          (msg_send (pos 24) (error_sent 3 serving)).1)
    × (load_word client.xdr.out_msg 0 ≡ 6
        → stat_of (
            clnt_receive xdr_u_int 0
              (record client { xdr = received (error_sent 3 serving).out_msg 24 client.xdr }))
          ≡ some 10)
    × (load_word client.xdr.out_msg 0 ≢ 6
        → stat_of (
            clnt_receive xdr_u_int 0
              (record client { xdr = received (error_sent 3 serving).out_msg 24 client.xdr }))
          ≡ some 4)
svcerr-clnt_receive_example =
    svcerr-clnt_receive xdr_u_int 0 2 100 serving (pos 24) client refl (omega arith, refl, refl)
      (omega arith) refl

-- A call that the client receives for the program 0x31000059, and a transport that has it.
abbrev called_handle : Xdr
called_handle = record handle {
  in_msg =
      put_bytes (words (9 ∷ 0 ∷ 2 ∷ 0x3100_0059 ∷ 0x0001_0000 ∷ 1 ∷ 0 ∷ 0 ∷ 0 ∷ 0 ∷ [])) 0 (λ j. 0);
  in_len = pos 40;
  in_next = 8;
}

abbrev callback_entry : Server
callback_entry = record server { prog = 0x3100_0059 }

abbrev with_servers : List Server → Callbacks
with_servers ss = record {
  client = record client { xdr = called_handle; got_cb = true; input_xdr_busy = true };
  the_xprt = some (record nobody { servers = ss; num_cb_servers = length ss });
  xprt_in_reset = false;
  resets = [];
}

abbrev one_entry : Transport
one_entry = record nobody { servers = callback_entry ∷ []; num_cb_servers = 1 }

entry_there : svc_find 0x3100_0059 0x0001_0000 one_entry.servers ≡ some callback_entry
unfolding svc_find
entry_there = refl

callback_round-registered_example :
    callback_round quiet 100 true (with_servers (callback_entry ∷ []))
    ≡ some (record (with_servers (callback_entry ∷ [])) {
      client = record client { xdr = called_handle };
      the_xprt = some (record one_entry {
        servers =
            replaced 0x3100_0059 0x0001_0000
              (record (quiet
                (record { prog = 0x3100_0059; vers = 0x0001_0000; proc = 1 })
                (record callback_entry {
                  xdr = some (record (cloned 0x3100_0059 0x0001_0000 40 called_handle) {
                    in_next = 40;
                    op = decode;
                  });
                  active = 100;
                })) { active = 0; xdr = none })
              one_entry.servers;
      });
    })
unfolding put_bytes
callback_round-registered_example =
    callback_round-registered quiet 100 true (with_servers (callback_entry ∷ [])) one_entry refl
      refl refl callback_entry 40 entry_there refl refl (omega arith) refl
