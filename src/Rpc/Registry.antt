-- ===== src/Rpc/Registry.antt =====
-- librpc/svc.c: what holds of the list of servers after any calls of `svc_register` and
-- `svc_unregister`.
pub mod Entries
use mathlib.Core.Path.{subst}
use mathlib.Core.Option.{some_inj, map}
use hardware_msm7k.Prelude.{
  ℕ, ◌+◌, ◌-◌, ◌≡◌, refl, sym, ap, ◌∙◌, arith, true, false, ◌==◌, ◌&&◌, Bool-cases, Option-cases,
  Option, none, some, List, [], ◌∷◌, inl, inr,
}
use hardware_msm7k.Rpc.{Xdr}
use hardware_msm7k.Rpc.Server.{
  Server, Transport, Answers, is_server, is_callback, svc_find, unlinked, count_in, thread_started,
  linked, entry, register_new, register_over, svc_register, count_out, unregister_found,
  svc_unregister,
}

-- How many entries have a handle, and how many have none.
abbrev pub real : Option Xdr → ℕ
real none = 0
real (some x) = 1

abbrev pub callback : Option Xdr → ℕ
callback none = 1
callback (some x) = 0

abbrev pub sum_of : (Option Xdr → ℕ) → List Server → ℕ
sum_of w [] = 0
sum_of w (s ∷ ss) = w s.xdr + sum_of w ss

-- No two entries have one program and version.
abbrev pub IsDistinct : List Server → Type 0
IsDistinct [] = Unit
IsDistinct (s ∷ ss) = (svc_find s.prog s.vers ss ≡ none) × IsDistinct ss

pub record WellFormed (t : Transport) : Type 0 where
  pub is_distinct : IsDistinct t.servers
  pub real_counted : t.num_servers ≡ sum_of real t.servers
  pub callbacks_counted : t.num_cb_servers ≡ sum_of callback t.servers

-- Taking out the entry that is found takes its weight out, and leaves what is not found so.
sum_of-unlinked :
    (w : Option Xdr → ℕ) (prog vers : ℕ) (ss : List Server) (s : Server)
    → svc_find prog vers ss ≡ some s
    → sum_of w ss ≡ w s.xdr + sum_of w (unlinked prog vers ss)
unfolding svc_find unlinked
sum_of-unlinked w prog vers [] s h = absurd (cc h)
sum_of-unlinked w prog vers (r ∷ ss) s h = elim (Bool-cases (is_server prog vers r)) [
  | inl e ↦
      let here : r ≡ s = some_inj.0 (sym (rw e refl) ∙ h) in
      rw e (ap (λ q. w q.xdr + sum_of w ss) here)
  | inr e ↦
      let there : svc_find prog vers ss ≡ some s = sym (rw e refl) ∙ h in
      rw e (omega (arith, sum_of-unlinked w prog vers ss s there))
]

svc_find-unlinked :
    (p v prog vers : ℕ) (ss : List Server)
    → svc_find p v ss ≡ none
    → svc_find p v (unlinked prog vers ss) ≡ none
unfolding svc_find unlinked
svc_find-unlinked p v prog vers [] h = refl
svc_find-unlinked p v prog vers (r ∷ ss) h = elim (Bool-cases (is_server p v r)) [
  | inl e ↦ absurd (cc (h, e))
  | inr e ↦
      let behind : svc_find p v ss ≡ none = sym (rw e refl) ∙ h in
      elim (Bool-cases (is_server prog vers r)) [
        | inl f ↦ rw f behind
        | inr f ↦ rw (f, e) (svc_find-unlinked p v prog vers ss behind)
      ]
]

IsDistinct-unlinked :
    (prog vers : ℕ) (ss : List Server) → IsDistinct ss → IsDistinct (unlinked prog vers ss)
unfolding unlinked
IsDistinct-unlinked prog vers [] d = d
IsDistinct-unlinked prog vers (s ∷ ss) d = elim (Bool-cases (is_server prog vers s)) [
  | inl e ↦ rw e d.1
  | inr e ↦
      rw e (svc_find-unlinked s.prog s.vers prog vers ss d.0, IsDistinct-unlinked prog vers ss d.1)
]

pub count_in-counts :
    (o : Option Xdr) (t : Transport)
    → ((count_in o t).servers ≡ t.servers)
      × ((count_in o t).num_servers ≡ real o + t.num_servers)
      × ((count_in o t).num_cb_servers ≡ callback o + t.num_cb_servers)
count_in-counts none t = (refl, omega arith, omega arith)
count_in-counts (some x) t = (refl, omega arith, omega arith)

pub count_out-counts :
    (o : Option Xdr) (t : Transport)
    → ((count_out o t).servers ≡ t.servers)
      × ((count_out o t).num_servers ≡ t.num_servers - real o)
      × ((count_out o t).num_cb_servers ≡ t.num_cb_servers - callback o)
count_out-counts none t = (refl, omega arith, omega arith)
count_out-counts (some x) t = (refl, omega arith, omega arith)

thread_started-WellFormed : (t : Transport) → WellFormed t → WellFormed (thread_started t)
thread_started-WellFormed t w = elim (Bool-cases (t.num_servers == 1)) [
  | inl e ↦ rw e (record {
    is_distinct = w.is_distinct;
    real_counted = w.real_counted;
    callbacks_counted = w.callbacks_counted;
  })
  | inr e ↦ rw e w
]

linked-WellFormed :
    (s : Server) (t : Transport)
    → WellFormed t
    → svc_find s.prog s.vers t.servers ≡ none
    → WellFormed (linked s t)
linked-WellFormed s t w free_key =
    let u = record t { servers = s ∷ t.servers } in
    let c = count_in-counts s.xdr u in
    thread_started-WellFormed (count_in s.xdr u) (record {
      is_distinct = subst IsDistinct (sym c.0) (free_key, w.is_distinct);
      real_counted = c.1 ∙ ap (λ n. real s.xdr + n) w.real_counted ∙ ap (sum_of real) (sym c.0);
      callbacks_counted =
          c.2 ∙ ap (λ n. callback s.xdr + n) w.callbacks_counted ∙ ap (sum_of callback) (sym c.0);
    })

register_new-WellFormed :
    (a : Answers) (prog vers dispatch : ℕ) (t : Transport)
    → WellFormed t
    → svc_find prog vers t.servers ≡ none
    → WellFormed (register_new a prog vers dispatch t).1
register_new-WellFormed a prog vers dispatch t w none_there = elim (Bool-cases (is_callback prog)) [
  | inl e ↦ rw e (linked-WellFormed (entry a none prog vers dispatch) t w none_there)
  | inr e ↦ elim (Option-cases a.opened) [
    | inl o ↦ rw (e, o) w
    | inr (x, o) ↦ elim (Bool-cases a.granted) [
      | inl g ↦
          rw (e, o, g)
            (linked-WellFormed
              (entry a (some (record x { prog = prog; vers = vers })) prog vers dispatch) t w
              none_there)
      | inr g ↦ rw (e, o, g) w
    ]
  ]
]

-- Registering keeps the list and its counts in order, whatever the system answers.
pub svc_register-WellFormed :
    (a : Answers) (prog vers dispatch : ℕ) (t : Transport)
    → WellFormed t
    → WellFormed (svc_register a prog vers dispatch t).1
unfolding svc_register
svc_register-WellFormed a prog vers dispatch t w =
    elim (Option-cases (svc_find prog vers t.servers)) [
      | inl e ↦ rw e (register_new-WellFormed a prog vers dispatch t w e)
      | inr (s, e) ↦ rw e w
    ]

-- And so does unregistering.
pub svc_unregister-WellFormed :
    (prog vers : ℕ) (t : Transport) → WellFormed t → WellFormed (svc_unregister prog vers t)
unfolding svc_unregister
svc_unregister-WellFormed prog vers t w = elim (Option-cases (svc_find prog vers t.servers)) [
  | inl e ↦ rw e w
  | inr (s, e) ↦
      let u = record t { servers = unlinked prog vers t.servers } in
      let c = count_out-counts s.xdr u in
      let reals = sum_of-unlinked real prog vers t.servers s e in
      let callbacks = sum_of-unlinked callback prog vers t.servers s e in
      rw e (record {
        is_distinct =
            subst IsDistinct (sym c.0) (IsDistinct-unlinked prog vers t.servers w.is_distinct);
        real_counted = c.1 ∙ omega (arith, w.real_counted, reals) ∙ ap (sum_of real) (sym c.0);
        callbacks_counted =
            c.2 ∙ omega (arith, w.callbacks_counted, callbacks) ∙ ap (sum_of callback) (sym c.0);
      })
]

-- A history of calls, from a transport with no server.
pub data Call : Type 0 where
  register : Answers → (prog vers dispatch : ℕ) → Call
  unregister : (prog vers : ℕ) → Call

abbrev pub after_call : Call → Transport → Transport
after_call (register a prog vers dispatch) t = (svc_register a prog vers dispatch t).1
after_call (unregister prog vers) t = svc_unregister prog vers t

abbrev pub after : List Call → Transport
after [] = record { servers = []; num_servers = 0; num_cb_servers = 0; threads = 0 }
after (c ∷ cs) = after_call c (after cs)

-- After any calls of svc_register and svc_unregister from an empty transport, whatever the system
-- answers, no two entries have one program and version, num_servers counts the entries with a
-- handle, and num_cb_servers those without.
pub after-WellFormed : (cs : List Call) → WellFormed (after cs)
after-WellFormed [] = record { is_distinct = _; real_counted = refl; callbacks_counted = refl }
after-WellFormed (register a prog vers dispatch ∷ cs) =
    svc_register-WellFormed a prog vers dispatch (after cs) (after-WellFormed cs)
after-WellFormed (unregister prog vers ∷ cs) =
    svc_unregister-WellFormed prog vers (after cs) (after-WellFormed cs)
