-- ===== src/Rpc/Tests/Lists.antt =====
-- librpc: the lists of servers and clients, and the wait for a device.
use mathlib.Core.Option.{map}
use hardware_msm7k.Prelude.{
  ℕ, ◌/◌, ◌*◌, ◌^◌, leb, if◌then◌else◌, ◌≤◌, ◌<◌, ◌≡◌, refl, arith, true, false, ◌==◌, ltb, ◌&&◌,
  none, some, List, [], ◌∷◌,
}
use hardware_msm7k.Rpc.Server.{Transport, Answers, svc_find, svc_register, svc_unregister}
use hardware_msm7k.Rpc.Registry.{WellFormed, register, unregister, after, after-WellFormed}
use hardware_msm7k.Rpc.Registry.Entries.{svc_register-svc_find}
use hardware_msm7k.Rpc.Clients.{create, destroy, version_used_lem}
use hardware_msm7k.Rpc.Clients
use hardware_msm7k.Rpc.Receiver.{version_used}
use hardware_msm7k.Rpc.Ops.{r_open, r_open_lem}
use hardware_msm7k.Rpc.Tests.{handle}

-- A server that registers, a callback client, and the server again.
abbrev answers : Answers
answers = record { opened = some handle; granted = true; stale = 0 }

after-WellFormed_example : WellFormed (
    after (
      register answers 0x3000_0059 1 5
      ∷ unregister 0x3000_0059 1
      ∷ register answers 0x3100_0059 1 6
      ∷ register answers 0x3000_0059 1 5
      ∷ []))
after-WellFormed_example = after-WellFormed (
    register answers 0x3000_0059 1 5
    ∷ unregister 0x3000_0059 1
    ∷ register answers 0x3100_0059 1 6
    ∷ register answers 0x3000_0059 1 5
    ∷ [])

abbrev pub nobody : Transport
nobody = record { servers = []; num_servers = 0; num_cb_servers = 0; threads = 0 }

nobody_new : svc_find 0x3000_0059 1 nobody.servers ≡ none
unfolding svc_find
nobody_new = refl

accepted_there : (svc_register answers 0x3000_0059 1 5 nobody).0 ≡ true
unfolding svc_register svc_find
accepted_there = refl

svc_register-svc_find_example :
    (map
        (λ s. s.dispatch)
        (svc_find 0x3000_0059 1 (svc_register answers 0x3000_0059 1 5 nobody).1.servers)
      ≡ some 5)
    × ((p v : ℕ)
        → (0x3000_0059 == p) && (1 == v) ≡ false
        → svc_find p v (svc_register answers 0x3000_0059 1 5 nobody).1.servers
          ≡ svc_find p v nobody.servers)
    × ((svc_unregister 0x3000_0059 1 (svc_register answers 0x3000_0059 1 5 nobody).1).servers
        ≡ nobody.servers)
svc_register-svc_find_example =
    svc_register-svc_find answers 0x3000_0059 1 5 nobody nobody_new accepted_there

-- A device that is there at the third try.
r_open_lem_example :
    (r_open (λ j. ltb j 2) ≤ 30)
    × ((j : ℕ) → j < r_open (λ j. ltb j 2) → ltb j 2 ≡ true)
    × (r_open (λ j. ltb j 2) < 30 → ltb (r_open (λ j. ltb j 2)) 2 ≡ false)
r_open_lem_example = r_open_lem (λ j. ltb j 2)

version_used_lem_example :
    version_used 0x0012_3456
    ≡ (if leb (2 ^ 31) 0x0012_3456 then 0x0012_3456 else 0x0012_3456 / 2 ^ 16 * 2 ^ 16)
version_used_lem_example = version_used_lem 0x0012_3456 (omega arith)

-- Newest first: a client, a second one whose device does not open, and the end of the first.
abbrev client_calls : List Clients.Call
client_calls = destroy 1 ∷ create true false true 2 ∷ create true true true 1 ∷ []
