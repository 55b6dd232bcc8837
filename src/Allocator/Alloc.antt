-- ===== src/Allocator/Alloc.antt =====
-- What `alloc` does to the chunk list, on every branch.
use hardware_msm7k.Prelude.{
  ℕ, ◌+◌, ◌-◌, ◌*◌, ◌/◌, ◌%◌, ◌^◌, ◌≤◌, ◌<◌, ◌≡◌, refl, ◌⊎◌, inl, inr, true, none, some, List, [],
  ◌∷◌, ◌++◌, arith, ◌==◌, Option-cases, Bool-cases, splice_at,
}
use hardware_msm7k.Prelude.Int.{ℤ, pos, neg, signed32_small}
use hardware_msm7k.Prelude.Words.{add32, sub32}
use native.Mathlib.Nat.{le_trans}
use hardware_msm7k.Errno.{Errno}
use hardware_msm7k.Allocator.{Chunk, Allocator, extra, find_best, carve, commit, alloc}
use hardware_msm7k.Allocator.Layout.{Inv, Tiles, Tiles-le, chunk-le}
use hardware_msm7k.Allocator.Page.{IsPageSize, padding_page, page_units-le}
use hardware_msm7k.Allocator.Search.{
  FoundAt, find_best-FoundAt, NoneFits, find_best-NoneFits, AtLeast, find_best-AtLeast,
}
use hardware_msm7k.Allocator.Carve.{pieces, fits-le, carve-pieces}

-- The units that a request of `size` bytes takes.
abbrev pub units_for : ℕ → ℕ
units_for size = (size + 31) / 32

-- A request was served: the chunk chosen, and what stands in its place.
pub record Served (page size : ℕ) (a : Allocator) (r : ℤ × Allocator) : Type 0 where
  pub before : List Chunk
  pub after : List Chunk
  pub chosen : Chunk
  pub gap : ℕ
  pub rest : ℕ
  pub was : a.list ≡ before ++ (chosen ∷ after)
  pub was_free : chosen.free ≡ true
  pub covered : gap + units_for size + rest ≡ chosen.size
  pub on_page : (chosen.start + gap) % (page / 32) ≡ 0
  pub smallest : AtLeast page (units_for size) chosen.size a.list
  pub result : r.0 ≡ pos ((chosen.start + gap) * 32)
  pub list : r.1.list ≡ before ++ (pieces chosen.start gap (units_for size) rest ++ after)
  pub heap_size : r.1.heap_size ≡ a.heap_size

module _ {page : ℕ} (p : IsPageSize page) where
  extra-lt : (c : Chunk) → c.start < 2 ^ 32 → extra page c < page / 32
  extra-lt c h = (padding_page p c.start h).0

  -- Every chunk of a division that passes the test is large enough.
  AtLeast-of_Tiles :
      (n s e : ℕ) (xs : List Chunk) → n ≤ 2 ^ 27 → e ≤ 2 ^ 26 → Tiles s xs e → AtLeast page n n xs
  AtLeast-of_Tiles n s e [] h k t = tt
  AtLeast-of_Tiles n s e (c ∷ cs) h k t = (
    (λ ok. ground (
      arith,
      extra-lt c (omega (arith, t, Tiles-le (s + c.size) e cs t.2)),
      page_units-le p,
      ok,
    )),
    AtLeast-of_Tiles n (s + c.size) e cs h k t.2,
  )

  module _ (e : Errno) (size : ℕ) (h0 : 0 < size) (h1 : size + 31 < 2 ^ 32) {a : Allocator}
      (v : Inv a) where
    units-eq : sub32 (add32 size 32) 1 / 32 ≡ units_for size
    units-eq = omega arith

    alloc-commit :
        alloc e page size a
        ≡ commit e page (units_for size) a (find_best page (units_for size) 0 none a.list)
    unfolding alloc
    alloc-commit = elim (Bool-cases (size == 0)) [
      | inl z ↦ absurd (ground arith)
      | inr nz ↦ rw (nz, units-eq)
    ]

    module _ (j : ℕ) (c : Chunk) (f : FoundAt page (units_for size) 0 j c a.list) where
      heap_units : a.heap_size / 32 ≤ 2 ^ 26
      heap_units = omega (arith, v.small)

      in_heap : c.start + c.size ≤ 2 ^ 26
      in_heap = le_trans (chunk-le 0 _ f.before c f.after (rw f.here at v.tiles)).1 heap_units

      room : units_for size ≤ 2 ^ 27
      room = omega arith

      gap-le : extra page c ≤ 2 ^ 27
      gap-le = omega (arith, extra-lt c (omega (arith, in_heap)), page_units-le p)

      carved : carve page (units_for size) c ≡ (
        pieces c.start (extra page c) (units_for size) (c.size - (units_for size + extra page c)),
        c.start + extra page c,
      )
      carved = carve-pieces page (units_for size) c f.suits in_heap room gap-le

      start-lt : (c.start + extra page c) * 32 < 2 ^ 31
      start-lt = omega (arith, in_heap, fits-le page (units_for size) c f.suits in_heap room gap-le)

      commit-Served :
          AtLeast page (units_for size) c.size a.list
          → Served page size a (commit e page (units_for size) a (some (j, c)))
      unfolding commit
      commit-Served least = record {
        before = f.before;
        after = f.after;
        chosen = c;
        gap = extra page c;
        rest = c.size - (units_for size + extra page c);
        was = f.here;
        was_free = ground (arith, f.suits);
        covered = omega (arith, fits-le page (units_for size) c f.suits in_heap room gap-le);
        on_page = (padding_page p c.start (omega (arith, in_heap))).1;
        smallest = least;
        result = rw carved (signed32_small ((c.start + extra page c) * 32) start-lt);
        list =
            rw carved (splice_at a.list f.before c f.after _ j f.here (omega (arith, f.position)));
        heap_size = refl;
      }

    -- In a valid state alloc serves a positive request that does not wrap from a free chunk of
    -- which none that fits is smaller, replacing it by the block and the free pieces around it; or
    -- no chunk fits, and it fails with the error for lack of memory and changes nothing.
    pub alloc-cases :
        Served page size a (alloc e page size a)
        ⊎ (NoneFits page (units_for size) a.list × (alloc e page size a ≡ (neg e.enomem, a)))
    unfolding commit
    alloc-cases = elim (Option-cases (find_best page (units_for size) 0 none a.list)) [
      | inl f ↦ inr ((find_best-NoneFits page _ 0 none a.list f).1, rw (alloc-commit, f))
      | inr ((j, c), f) ↦ elim (find_best-FoundAt page _ 0 none a.list j c f) [
        | inl g ↦ absurd (cc)
        | inr g ↦ inl (
            rw (alloc-commit, f)
              (commit-Served j c g (
                find_best-AtLeast page _ a.list j c
                  (AtLeast-of_Tiles _ 0 _ a.list (omega arith) (omega (arith, v.small)) v.tiles)
                  f)))
      ]
    ]
