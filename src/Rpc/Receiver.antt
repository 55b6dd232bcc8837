-- ===== src/Rpc/Receiver.antt =====
-- librpc/clnt.c: what the receiving thread does for a client whose descriptor is ready, and the list of
-- the clients. What `poll`, the read and the opening of devices give are parameters; waking the
-- callback thread and the reset callbacks are left out.
use hardware_msm7k.Prelude.Words.{test}
use hardware_msm7k.Prelude.Int.{ℤ, pos, is_neg}
use hardware_msm7k.Prelude.{
  ℕ, ◌+◌, ◌-◌, ◌^◌, bit_and, Bool, true, false, ◌==◌, if◌then◌else◌, Option, none, some, List, [],
  ◌∷◌,
}
use hardware_msm7k.Rpc.Stream.{msg_reply, read}
use hardware_msm7k.Rpc.Dispatch.{in_word}
use hardware_msm7k.Rpc.Client.{Client}

-- `revents`, and what `r_read` gives.
pub record Event : Type 0 where
  pub hung_up : Bool
  pub writable : Bool
  pub readable : Bool
  pub len : ℤ
  pub msg : ℕ → ℕ

-- The message that was read goes to the call that waits, or to the callback thread.
abbrev pub callback_woken : Client → Client
callback_woken c =
    if is_neg c.cb_stop
    then record c { got_cb = true; cb_stop = pos 0; cb_threads = c.cb_threads + 1 }
    else record c { got_cb = true }

abbrev pub passed_on : Client → Client
passed_on c = (if in_word 1 c.xdr == msg_reply then record c { woken = true } else callback_woken c)

-- The part for `POLLIN`: none where the thread waits for `input_xdr_busy` to go.
abbrev pub readable_rx : Event → Client → Option Client
readable_rx e c =
    if e.readable
    then if c.input_xdr_busy
      then none
      else (let got = read e.len e.msg c.xdr in
          if got.0
          then some (passed_on (record c { xdr = got.1; input_xdr_busy = true }))
          else some (record c { xdr = got.1 }))
    else some c

-- The body of the loop of `rx_context` over the clients.
unfoldable pub rx_client : Event → Client → Option Client
unfolding read
rx_client e c =
    if c.in_reset
    then readable_rx e (if e.writable then record c { in_reset = false } else c)
    else if e.hung_up
    then some (record c { in_reset = true; woken = true; input_xdr_busy = false })
    else readable_rx e c

-- The globals: the clients by number, the router and the pipe, and the threads that were started and
-- joined.
pub record Clients : Type 0 where
  pub clients : List ℕ
  pub num_clients : ℕ
  pub router_open : Bool
  pub pipe_open : Bool
  pub running : Bool

-- The version that `clnt_create` uses.
abbrev pub major_version : ℕ → ℕ
major_version vers = bit_and vers (2 ^ 32 - 2 ^ 16)

abbrev pub first_masked : ℕ → ℕ
first_masked vers = (if bit_and vers (2 ^ 32 - 2 ^ 20) == 0 then major_version vers else vers)

unfoldable pub version_used : ℕ → ℕ
version_used vers = let v = first_masked vers in if test v (2 ^ 31) then v else major_version v

-- `clnt_create`, of a new client, with whether the router, the server's device and the pipe open.
unfoldable pub clnt_create : (router device pipe : Bool) → (new : ℕ) → Clients → Bool × Clients
clnt_create router device pipe new g =
    if g.num_clients == 0
    then if router
      then if device
        then if pipe
          then (
            true,
            record {
              clients = new ∷ g.clients;
              num_clients = g.num_clients + 1;
              router_open = true;
              pipe_open = true;
              running = true;
            },
          )
          else (false, record g { router_open = false })
        else (false, record g { router_open = false })
      else (false, g)
    else if device
    then (true, record g { clients = new ∷ g.clients; num_clients = g.num_clients + 1 })
    else (false, g)

-- The client taken out of the list, where it is there.
abbrev pub dropped : (client : ℕ) → List ℕ → Option (List ℕ)
dropped client [] = none
dropped client (c ∷ cs) = (if c == client then some cs else kept_in_front c (dropped client cs))
  where
    kept_in_front : ℕ → Option (List ℕ) → Option (List ℕ)
    kept_in_front c none = none
    kept_in_front c (some cs) = some (c ∷ cs)

-- The end of `clnt_destroy`.
abbrev pub stopped : Clients → Clients
stopped g =
    if g.num_clients == 0
    then record g { router_open = false; pipe_open = false; running = false }
    else g

abbrev pub list_after : Option (List ℕ) → Clients → Clients
list_after none g = g
list_after (some cs) g = record g { clients = cs; num_clients = g.num_clients - 1 }

unfoldable pub clnt_destroy : (client : ℕ) → Clients → Clients
clnt_destroy client g = stopped (list_after (dropped client g.clients) g)
