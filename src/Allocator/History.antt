-- ===== src/Allocator/History.antt =====
-- Any sequence of calls, on an allocator whose size has been set.
use hardware_msm7k.Prelude.{
  ℕ, zero, suc, ◌+◌, ◌*◌, ◌-◌, ◌/◌, ◌^◌, ◌≤◌, ◌<◌, ◌≡◌, refl, inl, inr, Bool-cases, List, [], ◌∷◌,
  arith,
}
use native.Mathlib.Nat.{le_trans, mod-add-div', mod-lt, suc-mul}
use hardware_msm7k.Prelude.Int.{pos}
use hardware_msm7k.Errno.{Errno}
use hardware_msm7k.Allocator.{Chunk, Allocator, empty, set_size, alloc, allocate, deallocate}
use hardware_msm7k.Allocator.Layout.{Inv, Tiles, used}
use hardware_msm7k.Allocator.Page.{IsPageSize, align_page, page_pos, page_le}
use hardware_msm7k.Allocator.Grant.{allocate-Granted}
use hardware_msm7k.Allocator.AnyOffset.{deallocate-Inv}

-- A client's call, with its argument.
pub data Call : Type 0 where
  get give_back : ℕ → Call

-- The sizes asked for do not wrap when they are rounded up.
abbrev pub InRange : List Call → Type 0
InRange [] = Unit
InRange (get size ∷ cs) = (size + 31 < 2 ^ 32) × InRange cs
InRange (give_back offset ∷ cs) = InRange cs

module _ (page : ℕ) (e : Errno) where
  unfoldable pub step : Allocator → Call → Allocator
  step a (get size) = (allocate e page size a).1
  step a (give_back offset) = (deallocate e offset a).1

  unfoldable pub run : Allocator → List Call → Allocator
  unfolding step
  run a [] = a
  run a (c ∷ cs) = run (step a c) cs

-- The blocks lie in order between units `s` and `e`, and no two overlap.
abbrev pub Apart : ℕ → List (ℕ × ℕ) → ℕ → Type 0
Apart s [] e = s ≤ e
Apart s ((b, n) ∷ bs) e = (s ≤ b) × (0 < n) × Apart (b + n) bs e

Apart-weaken : (r s : ℕ) (bs : List (ℕ × ℕ)) (e : ℕ) → r ≤ s → Apart s bs e → Apart r bs e
Apart-weaken r s [] e h k = le_trans h k
Apart-weaken r s ((b, n) ∷ bs) e h k = (le_trans h k.0, k.1, k.2)

-- The blocks of a division do not overlap.
pub used-Apart : (s e : ℕ) (xs : List Chunk) → Tiles s xs e → Apart s (used xs) e
used-Apart s e [] t = omega arith
used-Apart s e (c ∷ cs) t = elim (Bool-cases c.free) [
  | inl f ↦
      rw f
        (Apart-weaken s (s + c.size) (used cs) e (omega arith) (used-Apart (s + c.size) e cs t.2))
  | inr u ↦ rw (u, t.0) (omega arith, t.1, used-Apart (s + c.size) e cs t.2)
]

product_pos : (k p : ℕ) → 0 < k * p → p ≤ k * p
product_pos zero p h = absurd (omega arith)
product_pos (suc k) p h = omega (arith, suc-mul k p)

round_up :
    (x p : ℕ) → 0 < x → 0 < p → let q = (x + p - 1) / p * p in (x ≤ q) × (q < x + p) × (p ≤ q)
round_up x p h0 h1 =
    let sum = mod-add-div' (x + p - 1) p in
    let low = mod-lt (x + p - 1) h1 in
    (omega arith, omega arith, product_pos ((x + p - 1) / p) p (omega arith))

-- setSize on a new allocator, with a positive size that stays within 2 GiB when a page is added,
-- returns the size and gives a valid state with no block handed out and a heap at least as large.
pub set_size-Inv :
    (page size : ℕ) (e : Errno)
    → IsPageSize page
    → 0 < size
    → size + page ≤ 2 ^ 31
    → let r = set_size e page size empty in
      (r.0 ≡ pos size) × Inv r.1 × (used r.1.list ≡ []) × (size ≤ r.1.heap_size)
unfolding set_size
set_size-Inv page size e p h0 h1 =
    let (low, high, whole) = round_up size page h0 (page_pos p) in
    rw (align_page p size (omega arith)) (
      ground arith,
      record {
        tiles = omega (arith, page_le p, low, high, whole);
        coalesced = (refl, tt);
        some_heap = omega (arith, low);
        small = omega (arith, high);
      },
      refl,
      low,
    )

allocate-zero :
    (page : ℕ) (e : Errno) (a : Allocator) → 0 < a.heap_size → allocate e page 0 a ≡ (pos 0, a)
unfolding allocate alloc
allocate-zero page e a h = ground arith

allocate-Inv :
    (page size : ℕ) (e : Errno) (a : Allocator)
    → IsPageSize page
    → Inv a
    → size + 31 < 2 ^ 32
    → Inv (allocate e page size a).1
allocate-Inv page zero e a p v h = rw (allocate-zero page e a v.some_heap) v
allocate-Inv page (suc n) e a p v h = elim (allocate-Granted page (suc n) e a p v (omega arith) h) [
  | inl g ↦ g.valid
  | inr f ↦ rw (f.1) v
]

run-Inv :
    (page : ℕ) (e : Errno) (a : Allocator) (cs : List Call)
    → IsPageSize page
    → InRange cs
    → Inv a
    → Inv (run page e a cs)
unfolding run step
run-Inv page e a [] p r v = v
run-Inv page e a (get size ∷ cs) p r v =
    run-Inv page e (allocate e page size a).1 cs p r.1 (allocate-Inv page size e a p v r.0)
run-Inv page e a (give_back offset ∷ cs) p r v =
    run-Inv page e (deallocate e offset a).1 cs p r (deallocate-Inv e a offset v)

-- After the size has been set and any sequence of allocate and deallocate calls, with any offsets
-- and with sizes that do not wrap, the state is valid and the blocks handed out lie inside the
-- heap without overlapping.
pub run-Apart :
    (page size : ℕ) (e : Errno) (cs : List Call)
    → IsPageSize page
    → 0 < size
    → size + page ≤ 2 ^ 31
    → InRange cs
    → let a = run page e (set_size e page size empty).1 cs in
      Inv a × Apart 0 (used a.list) (a.heap_size / 32)
run-Apart page size e cs p h0 h1 r =
    let v = run-Inv page e _ cs p r (set_size-Inv page size e p h0 h1).1 in
    (v, used-Apart 0 _ _ v.tiles)
