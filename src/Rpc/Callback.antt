-- ===== src/Rpc/Callback.antt =====
-- librpc/clnt.c: the thread for the calls that a client receives. The service's function, whether `dup`
-- succeeds, and the transport are parameters of a round; the wake lock and the log are left out.
pub mod Rounds
use hardware_msm7k.Prelude.Int.{ℤ, pos, negsuc}
use hardware_msm7k.Prelude.{
  ℕ, ◌+◌, ◌*◌, Bool, true, false, not, ltb, ◌==◌, if◌then◌else◌, Option, none, some, List, [], ◌∷◌,
}
use hardware_msm7k.Rpc.{Xdr, XdrOp, encode, Auth}
use hardware_msm7k.Rpc.Message.{auth_none}
use hardware_msm7k.Rpc.Server.{Server, Transport, is_server, svc_find}
use hardware_msm7k.Rpc.Dispatch.{Request, in_word, svc_dispatch}
use hardware_msm7k.Rpc.Client.{Client}

-- The client, the transport if there is one with its `in_reset`, and the resets that were passed on to
-- the transport's callback, newest first.
pub record Callbacks : Type 0 where
  pub client : Client
  pub the_xprt : Option Transport
  pub xprt_in_reset : Bool
  pub resets : List Bool

-- The bytes that `memcpy` takes over into a new buffer.
abbrev pub copied : ℕ → (ℕ → ℕ) → ℕ → ℕ
copied n m j = (if ltb j n then m j else 0)

-- The handle that the server gets: `xdr_clone`, whose number stays 0, and the copies of the messages.
abbrev pub cloned : (prog vers len : ℕ) → Xdr → Xdr
cloned prog vers len x = record {
  op = encode;
  prog = prog;
  vers = vers;
  verf = auth_none;
  xid = 0;
  out_msg = copied x.out_next x.out_msg;
  out_next = x.out_next;
  in_msg = copied len x.in_msg;
  in_next = 0;
  in_len = pos len;
  err = pos 0;
}

-- The entry of a program and version with what it has become.
unfoldable pub replaced : (prog vers : ℕ) → Server → List Server → List Server
replaced prog vers new [] = []
replaced prog vers new (s ∷ ss) =
    if is_server prog vers s then new ∷ ss else s ∷ replaced prog vers new ss

-- `!=` on two truth values
abbrev pub differ : Bool → Bool → Bool
differ true b = not b
differ false b = b

abbrev pub freed : Client → Client
freed c = record c { input_xdr_busy = false }

module _ (service : Request → Server → Server) (pid : ℕ) (duplicates : Bool) where
  -- From the dispatch on: the entry loses its handle again.
  abbrev pub dispatched_to :
      (prog vers : ℕ) → Transport → Callbacks → Option Server → Option Callbacks
  dispatched_to prog vers t st none = none
  dispatched_to prog vers t st (some s) = some (record st {
    client = freed st.client;
    the_xprt = some (record t { servers = replaced prog vers (record s { xdr = none }) t.servers });
  })

  -- The server that was found, if any. A clone that fails is dereferenced.
  abbrev pub for_server : (prog vers : ℕ) → ℤ → Transport → Callbacks → Server → Option Callbacks
  for_server prog vers (negsuc n) t st s = some st
  for_server prog vers (pos len) t st s =
      if duplicates
      then dispatched_to prog vers t st
          (svc_dispatch service pid (record s { xdr = some (cloned prog vers len st.client.xdr) }))
      else none

  abbrev pub found_or_not :
      (prog vers : ℕ) → Transport → Callbacks → Option Server → Option Callbacks
  found_or_not prog vers t st none = some st
  found_or_not prog vers t st (some s) = for_server prog vers st.client.xdr.in_len t st s

  abbrev pub with_xprt : Transport → Callbacks → Option Callbacks
  with_xprt t st =
      let c = st.client in
      if differ c.in_reset st.xprt_in_reset
      then some (record st { xprt_in_reset = c.in_reset; resets = c.in_reset ∷ st.resets })
      else if c.got_cb
      then found_or_not (in_word 3 c.xdr) (in_word 4 c.xdr) t
          (record st { client = record c { got_cb = false } })
          (svc_find (in_word 3 c.xdr) (in_word 4 c.xdr) t.servers)
      else some st

  -- The body of the loop of `cb_context` behind the wait: none where it goes through a null pointer,
  -- as it does with no transport.
  abbrev pub over_xprt : Option Transport → Callbacks → Option Callbacks
  over_xprt none st = none
  over_xprt (some t) st = with_xprt t st

  unfoldable pub callback_round : Callbacks → Option Callbacks
  unfolding svc_find svc_dispatch replaced
  callback_round st = over_xprt st.the_xprt st
