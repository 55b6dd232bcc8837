-- ===== src/Rpc/Registry/Entries.antt =====
-- librpc/svc.c: what a registration that succeeds leaves in the list of servers.
use mathlib.Core.Option.{map}
use hardware_msm7k.Prelude.{
  ℕ, ◌≡◌, refl, sym, ap, ◌∙◌, arith, true, false, ◌==◌, ◌&&◌, Bool-cases, Option-cases, Option,
  none, some, List, ◌∷◌, inl, inr,
}
use hardware_msm7k.Rpc.{Xdr}
use hardware_msm7k.Rpc.Server.{
  Server, Transport, Answers, is_callback, svc_find, unlinked, count_in, thread_started, linked,
  entry, register_new, register_over, svc_register, unregister_found, svc_unregister,
}
use hardware_msm7k.Rpc.Registry.{count_in-counts, count_out-counts}

-- Unregistering the entry in front.
gone :
    (prog vers : ℕ) (u : Transport) (s : Server) {ss : List Server}
    → u.servers ≡ s ∷ ss
    → svc_find prog vers u.servers ≡ some s
    → unlinked prog vers (s ∷ ss) ≡ ss
    → (svc_unregister prog vers u).servers ≡ ss
unfolding svc_unregister
gone prog vers u s e found first_one =
    ap (λ o. (unregister_found o prog vers u).servers) found
    ∙ (count_out-counts s.xdr (record u { servers = unlinked prog vers u.servers })).0
    ∙ ap (unlinked prog vers) e
    ∙ first_one

-- A registration of a server that was not registered.
module _ (a : Answers) (prog vers dispatch : ℕ) (t : Transport)
    (new : svc_find prog vers t.servers ≡ none) where
  thread_started-servers : (u : Transport) → (thread_started u).servers ≡ u.servers
  thread_started-servers u = elim (Bool-cases (u.num_servers == 1)) [
    | inl e ↦ rw e refl
    | inr e ↦ rw e refl
  ]

  linked-servers : (s : Server) → (linked s t).servers ≡ s ∷ t.servers
  linked-servers s =
      thread_started-servers (count_in s.xdr (record t { servers = s ∷ t.servers }))
      ∙ (count_in-counts s.xdr (record t { servers = s ∷ t.servers })).0

  -- The list after a registration that succeeds, for some handle.
  register_new-servers :
      (register_new a prog vers dispatch t).0 ≡ true
      → (o : Option Xdr) × ((register_new a prog vers dispatch t).1.servers
          ≡ entry a o prog vers dispatch ∷ t.servers)
  register_new-servers h = elim (Bool-cases (is_callback prog)) [
    | inl e ↦ (none, rw e (linked-servers (entry a none prog vers dispatch)))
    | inr e ↦ elim (Option-cases a.opened) [
      | inl o ↦
          let no : (register_new a prog vers dispatch t).0 ≡ false = rw (e, o) refl in
          absurd (cc (h, no))
      | inr (x, o) ↦ elim (Bool-cases a.granted) [
        | inl g ↦
            let p = some (record x { prog = prog; vers = vers }) in
            (p, rw (e, o, g) (linked-servers (entry a p prog vers dispatch)))
        | inr g ↦
            let no : (register_new a prog vers dispatch t).0 ≡ false = rw (e, o, g) refl in
            absurd (cc (h, no))
      ]
    ]
  ]

  key_found : (prog == prog) && (vers == vers) ≡ true
  key_found = ground arith

  -- Where a program and version is not registered and svc_register succeeds, svc_find gives an
  -- entry with its function, finds every other program and version as before, and svc_unregister
  -- gives back the list.
  pub svc_register-svc_find :
      (svc_register a prog vers dispatch t).0 ≡ true
      → (map (λ s. s.dispatch) (svc_find prog vers (svc_register a prog vers dispatch t).1.servers)
          ≡ some dispatch)
        × ((p v : ℕ)
            → (prog == p) && (vers == v) ≡ false
            → svc_find p v (svc_register a prog vers dispatch t).1.servers ≡ svc_find p v t.servers)
        × ((svc_unregister prog vers (svc_register a prog vers dispatch t).1).servers ≡ t.servers)
  unfolding svc_register svc_find unlinked svc_unregister
  svc_register-svc_find h =
      let over : svc_register a prog vers dispatch t ≡ register_new a prog vers dispatch t =
        ap (λ o. register_over o a prog vers dispatch t) new in
      let made = register_new-servers (ap (λ r. r.0) (sym over) ∙ h) in
      let servers : (svc_register a prog vers dispatch t).1.servers
          ≡ entry a made.0 prog vers dispatch ∷ t.servers =
        ap (λ r. r.1.servers) over ∙ made.1 in
      let here : (ss : List Server)
          → svc_find prog vers (entry a made.0 prog vers dispatch ∷ ss)
            ≡ some (entry a made.0 prog vers dispatch) =
        λ ss. rw key_found refl in
      (
        ap (λ ss. map (λ s. s.dispatch) (svc_find prog vers ss)) servers
            ∙ ap (map (λ s. s.dispatch)) (here t.servers),
        (λ p v other. ap (svc_find p v) servers ∙ rw other refl),
        gone prog vers (svc_register a prog vers dispatch t).1 (entry a made.0 prog vers dispatch)
            servers (ap (svc_find prog vers) servers ∙ here t.servers) (rw key_found refl),
      )
