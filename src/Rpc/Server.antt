-- ===== src/Rpc/Server.antt =====
-- librpc/svc.c: the servers of the transport, the dispatch of calls to them, and their replies. The
-- kernel's answers, what `malloc` leaves in an entry, and the functions of the services are parameters;
-- locks and file descriptors are left out.
use hardware_msm7k.Prelude.Words.{test}
use hardware_msm7k.Prelude.{
  ℕ, ◌+◌, ◌-◌, ◌^◌, Bool, true, false, ◌&&◌, ◌==◌, if◌then◌else◌, Option, none, some, List, [], ◌∷◌,
}
use hardware_msm7k.Rpc.{Xdr}

-- `registered_server`, with a number for its function `dispatch`.
pub record Server : Type 0 where
  pub xdr : Option Xdr
  pub prog : ℕ
  pub vers : ℕ
  pub dispatch : ℕ
  pub active : ℕ

-- `SVCXPRT`, with the number of threads that were started.
pub record Transport : Type 0 where
  pub servers : List Server
  pub num_servers : ℕ
  pub num_cb_servers : ℕ
  pub threads : ℕ

-- `trav->x_prog == prog && trav->x_vers == vers`
abbrev pub is_server : (prog vers : ℕ) → Server → Bool
is_server prog vers s = (s.prog == prog) && (s.vers == vers)

-- `svc_find_nosync`: the entry, and the list without it.
unfoldable pub svc_find : (prog vers : ℕ) → List Server → Option Server
svc_find prog vers [] = none
svc_find prog vers (s ∷ ss) = (if is_server prog vers s then some s else svc_find prog vers ss)

unfoldable pub unlinked : (prog vers : ℕ) → List Server → List Server
unlinked prog vers [] = []
unlinked prog vers (s ∷ ss) = (if is_server prog vers s then ss else s ∷ unlinked prog vers ss)

-- A program number of a callback client.
abbrev pub is_callback : (prog : ℕ) → Bool
is_callback prog = test prog (2 ^ 24)

-- The entry in front of the list, the counts, and the thread for the first server.
abbrev pub count_in : Option Xdr → Transport → Transport
count_in none t = record t { num_cb_servers = t.num_cb_servers + 1 }
count_in (some x) t = record t { num_servers = t.num_servers + 1 }

abbrev pub thread_started : Transport → Transport
thread_started t = (if t.num_servers == 1 then record t { threads = t.threads + 1 } else t)

abbrev pub linked : Server → Transport → Transport
linked s t = thread_started (count_in s.xdr (record t { servers = s ∷ t.servers }))

-- What `xdr_init_common` opens and whether the kernel registers the server, and what `malloc` leaves in
-- `active`.
pub record Answers : Type 0 where
  pub opened : Option Xdr
  pub granted : Bool
  pub stale : ℕ

-- The new entry.
abbrev pub entry : Answers → Option Xdr → (prog vers dispatch : ℕ) → Server
entry a o prog vers dispatch = record {
  xdr = o;
  prog = prog;
  vers = vers;
  dispatch = dispatch;
  active = a.stale;
}

-- The part of `svc_register` for a server that is no callback client.
abbrev pub register_real :
    Answers → Option Xdr → (prog vers dispatch : ℕ) → Transport → Bool × Transport
register_real a none prog vers dispatch t = (false, t)
register_real a (some x) prog vers dispatch t =
    if a.granted
    then (
      true,
      linked (entry a (some (record x { prog = prog; vers = vers })) prog vers dispatch) t,
    )
    else (false, t)

abbrev pub register_new : Answers → (prog vers dispatch : ℕ) → Transport → Bool × Transport
register_new a prog vers dispatch t =
    if is_callback prog
    then (true, linked (entry a none prog vers dispatch) t)
    else register_real a a.opened prog vers dispatch t

-- `svc_register`
abbrev pub register_over :
    Option Server → Answers → (prog vers dispatch : ℕ) → Transport → Bool × Transport
register_over none a prog vers dispatch t = register_new a prog vers dispatch t
register_over (some s) a prog vers dispatch t = (s.dispatch == dispatch, t)

unfoldable pub svc_register : Answers → (prog vers dispatch : ℕ) → Transport → Bool × Transport
unfolding svc_find
svc_register a prog vers dispatch t =
    register_over (svc_find prog vers t.servers) a prog vers dispatch t

-- `svc_unregister`, whose calls of the kernel change nothing else.
abbrev pub count_out : Option Xdr → Transport → Transport
count_out none t = record t { num_cb_servers = t.num_cb_servers - 1 }
count_out (some x) t = record t { num_servers = t.num_servers - 1 }

abbrev pub unregister_found : Option Server → (prog vers : ℕ) → Transport → Transport
unregister_found none prog vers t = t
unregister_found (some s) prog vers t =
    count_out s.xdr (record t { servers = unlinked prog vers t.servers })

unfoldable pub svc_unregister : (prog vers : ℕ) → Transport → Transport
unfolding svc_find unlinked
svc_unregister prog vers t = unregister_found (svc_find prog vers t.servers) prog vers t

-- `the_xprt`, a number for the transport, and `xprt_refcount`
pub record Registered : Type 0 where
  pub the_xprt : Option ℕ
  pub refcount : ℕ

abbrev pub is_the : Option ℕ → ℕ → Bool
is_the none n = false
is_the (some m) n = m == n

-- `xprt_register`, of a transport that may be null.
unfoldable pub xprt_register : Option ℕ → Registered → Registered
xprt_register p r = registered_over p r.the_xprt r
  where
    registered_over : Option ℕ → Option ℕ → Registered → Registered
    registered_over p none r = record { the_xprt = p; refcount = r.refcount + 1 }
    registered_over p (some n) r =
        if is_the p n then record { the_xprt = p; refcount = r.refcount + 1 } else r

-- `xprt_unregister`
unfoldable pub xprt_unregister : Option ℕ → Registered → Registered
xprt_unregister p r = unregistered_over p r.the_xprt r
  where
    unregistered_over : Option ℕ → Option ℕ → Registered → Registered
    unregistered_over p none r = r
    unregistered_over p (some n) r =
        if is_the p n
        then if r.refcount == 1
          then record { the_xprt = none; refcount = 0 }
          else record r { refcount = r.refcount - 1 }
        else r
