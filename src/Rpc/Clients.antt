-- ===== src/Rpc/Clients.antt =====
-- librpc/clnt.c: what holds of the list of clients after any calls of `clnt_create` and `clnt_destroy`,
-- and the version that a client asks for.
use hardware_msm7k.Prelude.Bits.{bit_and_low, bit_and_shift}
use hardware_msm7k.Prelude.Words.{test}
use hardware_msm7k.Prelude.{
  ℕ, ◌-◌, ◌*◌, ◌/◌, ◌^◌, ◌<◌, ◌≡◌, refl, ap, ◌∙◌, arith, Bool, false, not, ◌==◌, leb, Bool-cases,
  if◌then◌else◌, List, [], ◌∷◌, length, inl, inr, bit_and,
}
use hardware_msm7k.Rpc.Receiver.{
  Clients, version_used, first_masked, major_version, clnt_create, clnt_destroy,
}

major_version_lem : (v : ℕ) → v < 2 ^ 32 → major_version v ≡ v / 2 ^ 16 * 2 ^ 16
major_version_lem v bound =
    bit_and_shift 16 v (2 ^ 16 - 1)
    ∙ ap (λ t. t * 2 ^ 16) (bit_and_low 16 (v / 2 ^ 16) ∙ omega (arith, bound))

high_part : (v : ℕ) → v < 2 ^ 32 → bit_and v (2 ^ 32 - 2 ^ 20) ≡ v / 2 ^ 20 * 2 ^ 20
high_part v bound =
    bit_and_shift 20 v (2 ^ 12 - 1)
    ∙ ap (λ t. t * 2 ^ 20) (bit_and_low 12 (v / 2 ^ 20) ∙ omega (arith, bound))

top_bit : (v : ℕ) → v < 2 ^ 32 → bit_and v (2 ^ 31) ≡ v / 2 ^ 31 * 2 ^ 31
top_bit v bound =
    bit_and_shift 31 v (2 ^ 1 - 1)
    ∙ ap (λ t. t * 2 ^ 31) (bit_and_low 1 (v / 2 ^ 31) ∙ omega (arith, bound))

test_top : (v : ℕ) → v < 2 ^ 32 → test v (2 ^ 31) ≡ leb (2 ^ 31) v
test_top v bound = ap (λ t. not (t == 0)) (top_bit v bound) ∙ ground (arith, bound)

second_mask :
    (v : ℕ)
    → v < 2 ^ 32
    → (if test v (2 ^ 31) then v else major_version v)
      ≡ (if leb (2 ^ 31) v then v else v / 2 ^ 16 * 2 ^ 16)
second_mask v bound = rw (test_top v bound, major_version_lem v bound) refl

-- For every 32-bit version, clnt_create asks for the version itself if its bit 31 is set and else
-- for the version without its low 16 bits, so that the first of its two masks makes no difference.
pub version_used_lem :
    (v : ℕ) → v < 2 ^ 32 → version_used v ≡ (if leb (2 ^ 31) v then v else v / 2 ^ 16 * 2 ^ 16)
unfolding version_used
version_used_lem v bound = elim (Bool-cases (v / 2 ^ 20 * 2 ^ 20 == 0)) [
  | inl e ↦
      let w = v / 2 ^ 16 * 2 ^ 16 in
      let masked : first_masked v ≡ w =
        ap (λ t. if t == 0 then major_version v else v) (high_part v bound)
        ∙ ap (λ q. if q then major_version v else v) e
        ∙ major_version_lem v bound in
      let low : leb (2 ^ 31) v ≡ false = ground (arith, e) in
      let still : leb (2 ^ 31) w ≡ false = ground (arith, e) in
      ap (λ t. if test t (2 ^ 31) then t else major_version t) masked
      ∙ second_mask w (omega (arith, bound))
      ∙ rw (low, still) (omega arith)
  | inr e ↦
      let unmasked : first_masked v ≡ v =
        ap (λ t. if t == 0 then major_version v else v) (high_part v bound)
        ∙ ap (λ q. if q then major_version v else v) e in
      ap (λ t. if test t (2 ^ 31) then t else major_version t) unmasked ∙ second_mask v bound
]

-- The count is that of the list, and the router, the pipe and the thread are there just while there is
-- a client.
pub record Balanced (g : Clients) : Type 0 where
  pub counted : g.num_clients ≡ length g.clients
  pub router : g.router_open ≡ not (g.num_clients == 0)
  pub pipe : g.pipe_open ≡ not (g.num_clients == 0)
  pub thread : g.running ≡ not (g.num_clients == 0)

-- The calls of the two functions, from the state before any.
pub data Call : Type 0 where
  create : (router device pipe : Bool) → (new : ℕ) → Call
  destroy : (client : ℕ) → Call

abbrev pub after_call : Call → Clients → Clients
after_call (create router device pipe new) g = (clnt_create router device pipe new g).1
after_call (destroy client) g = clnt_destroy client g

abbrev pub after : List Call → Clients
after [] = record {
  clients = [];
  num_clients = 0;
  router_open = false;
  pipe_open = false;
  running = false;
}
after (c ∷ cs) = after_call c (after cs)
