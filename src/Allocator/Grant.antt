-- ===== src/Allocator/Grant.antt =====
-- `allocate` seen from its client: the blocks handed out, before and after.
use hardware_msm7k.Prelude.{
  ℕ, ◌+◌, ◌*◌, ◌/◌, ◌%◌, ◌^◌, ◌≤◌, ◌<◌, ◌≡◌, ap, ◌⊎◌, inl, inr, false, List, ◌∷◌, ◌++◌, arith, ◌==◌,
  Bool-cases,
}
use hardware_msm7k.Prelude.Int.{ℤ, pos, neg}
use hardware_msm7k.Errno.{Errno}
use hardware_msm7k.Allocator.{Allocator, allocate}
use hardware_msm7k.Allocator.Layout.{
  Inv, Tiles, Tiles-split, Tiles-join, chunk-le, Coalesced, Coalesced-split, Coalesced-join,
  last_free, used, used-append,
}
use hardware_msm7k.Allocator.Page.{IsPageSize, page_offset}
use hardware_msm7k.Allocator.Search.{NoneFits}
use hardware_msm7k.Allocator.Carve.{Tiles-pieces, Coalesced-pieces, used-pieces}
use hardware_msm7k.Allocator.Alloc.{units_for, Served, alloc-cases}

-- A block of the units asked for is handed out, on a page boundary and inside the heap. The blocks
-- of before are as they were, and the state is again a valid one.
pub record Granted (page size : ℕ) (a : Allocator) (r : ℤ × Allocator) : Type 0 where
  pub below : List (ℕ × ℕ)
  pub above : List (ℕ × ℕ)
  pub start : ℕ
  pub was : used a.list ≡ below ++ above
  pub now : used r.1.list ≡ below ++ ((start, units_for size) ∷ above)
  pub result : r.0 ≡ pos (start * 32)
  pub on_page : start * 32 % page ≡ 0
  pub enough : size ≤ units_for size * 32
  pub inside : (start + units_for size) * 32 ≤ a.heap_size
  pub valid : Inv r.1

module _ {page size : ℕ} (p : IsPageSize page) (h0 : 0 < size) {a : Allocator} (v : Inv a)
    {r : ℤ × Allocator} (s : Served page size a r) where
  open s use {before, after, chosen, gap, rest}

  pub tiles : Tiles 0 (before ++ (chosen ∷ after)) (a.heap_size / 32)
  tiles = rw s.was at v.tiles

  pub coalesced : Coalesced false before × Coalesced (last_free false before) (chosen ∷ after)
  coalesced = Coalesced-split false before (chosen ∷ after) (rw s.was at v.coalesced)

  pub before_ends_used : last_free false before ≡ false
  before_ends_used = ground (arith, coalesced.1.0, s.was_free)

  Served-Tiles : Tiles 0 r.1.list (r.1.heap_size / 32)
  Served-Tiles =
      let (m, front, middle) = Tiles-split 0 _ before (chosen ∷ after) tiles in
      let covered : m + gap + units_for size + rest ≡ m + chosen.size = omega (arith, s.covered) in
      rw (s.list, s.heap_size, middle.0)
        (Tiles-join 0 m _ before _ front (
          Tiles-join m (m + chosen.size) _ _ after
            (Tiles-pieces m gap (units_for size) rest _ (omega arith) covered) middle.2))

  Served-Coalesced : Coalesced false r.1.list
  Served-Coalesced = rw s.list (
      Coalesced-join false before _ coalesced.0 (
        rw before_ends_used (
          Coalesced-pieces chosen.start gap (units_for size) rest after
            (rw s.was_free at (coalesced.1.1)))))

  pub Served-Inv : Inv r.1
  Served-Inv = record {
    tiles = Served-Tiles;
    coalesced = Served-Coalesced;
    some_heap = rw s.heap_size v.some_heap;
    small = rw s.heap_size v.small;
  }

  Served-Granted : Granted page size a r
  Served-Granted = record {
    below = used before;
    above = used after;
    start = chosen.start + gap;
    was = rw (s.was, used-append before (chosen ∷ after), s.was_free);
    now =
        rw (s.list, used-append before _)
          (ap (◌++◌ (used before)) (used-pieces chosen.start gap (units_for size) rest after));
    result = s.result;
    on_page = page_offset p _ s.on_page;
    enough = omega arith;
    inside = omega (arith, chunk-le 0 _ before chosen after tiles, s.covered);
    valid = Served-Inv;
  }

-- `allocate` at a positive request that does not wrap: it is served, or no chunk fits.
pub allocate-cases :
    {page : ℕ} (p : IsPageSize page) (e : Errno) (size : ℕ)
    → 0 < size
    → size + 31 < 2 ^ 32
    → {a : Allocator} → Inv a
    → Served page size a (allocate e page size a)
      ⊎ (NoneFits page (units_for size) a.list × (allocate e page size a ≡ (neg e.enomem, a)))
unfolding allocate
allocate-cases p e size h0 h1 {a} v = elim (Bool-cases (a.heap_size == 0)) [
  | inl z ↦ absurd (ground (arith, v.some_heap))
  | inr nz ↦ rw nz (alloc-cases p e size h0 h1 v)
]

-- A positive request that does not wrap is granted a block of its size in units, on a page
-- boundary and inside the heap, that joins the blocks handed out while the others stay and the
-- state stays valid; or no chunk fits, the result is the error for lack of memory, and nothing
-- changes.
pub allocate-Granted :
    (page size : ℕ) (e : Errno) (a : Allocator)
    → IsPageSize page
    → Inv a
    → 0 < size
    → size + 31 < 2 ^ 32
    → Granted page size a (allocate e page size a)
      ⊎ (NoneFits page (units_for size) a.list × (allocate e page size a ≡ (neg e.enomem, a)))
allocate-Granted page size e a p v h0 h1 = elim (allocate-cases p e size h0 h1 v) [
  | inl s ↦ inl (Served-Granted p h0 v s)
  | inr f ↦ inr f
]
