-- ===== src/Allocator/Undo.antt =====
-- Giving a block back right after it was handed out restores the chunk list exactly.
use hardware_msm7k.Prelude.{
  ℕ, zero, suc, ◌+◌, ◌*◌, ◌^◌, ◌≤◌, ◌<◌, ◌≡◌, refl, ap, ◌∙◌, ◌⊎◌, inl, inr, true, false, Option,
  none, some, ◌∷◌, ◌++◌, arith, length, opt_list,
}
use mathlib.Core.List.{append_assoc}
use hardware_msm7k.Prelude.Int.{ℤ, pos, neg, is_neg, magnitude}
use hardware_msm7k.Errno.{Errno}
use hardware_msm7k.Allocator.{Chunk, Allocator, dealloc, allocate, deallocate}
use hardware_msm7k.Allocator.Layout.{Inv, chunk-le}
use hardware_msm7k.Allocator.Page.{IsPageSize}
use hardware_msm7k.Allocator.Merge.{IsFree, head_free}
use hardware_msm7k.Allocator.Neighbours.{head_free_after}
use hardware_msm7k.Allocator.Carve.{chunk, free_piece}
use hardware_msm7k.Allocator.Alloc.{units_for, Served}
use hardware_msm7k.Allocator.Grant.{tiles, coalesced, before_ends_used, Served-Inv, allocate-cases}
use hardware_msm7k.Allocator.Dealloc.{joined, dealloc-joined}
use hardware_msm7k.Allocator.Release.{deallocate-found}

abbrev piece? : ℕ → ℕ → Option Chunk
piece? s zero = none
piece? s (suc n) = some (chunk s (suc n) true)

free_piece-opt : (s n : ℕ) → free_piece s n ≡ opt_list (piece? s n)
free_piece-opt s zero = refl
free_piece-opt s (suc n) = refl

piece?-IsFree : (s n : ℕ) → IsFree (piece? s n)
piece?-IsFree s zero = tt
piece?-IsFree s (suc n) = refl

joined_pieces :
    (s gap size rest : ℕ)
    → gap + size + rest ≤ 2 ^ 26
    → joined (piece? s gap) (chunk (s + gap) size false) (piece? (s + gap + size) rest)
      ≡ chunk s (gap + size + rest) true
joined_pieces s zero size zero h = ground arith
joined_pieces s zero size (suc rest) h = ground arith
joined_pieces s (suc gap) size zero h = ground arith
joined_pieces s (suc gap) size (suc rest) h = ground arith

module _ {page size : ℕ} (p : IsPageSize page) (h0 : 0 < size) {a : Allocator} (v : Inv a)
    {r : ℤ × Allocator} (s : Served page size a r) (e : Errno) where
  open s use {before, after, chosen, gap, rest}

  -- The list after the request, with the free pieces as optional chunks.
  list-parts :
      r.1.list
      ≡ (before ++ opt_list (piece? chosen.start gap))
        ++ (chunk (chosen.start + gap) (units_for size) false
            ∷ (opt_list (piece? (chosen.start + gap + units_for size) rest) ++ after))
  list-parts = s.list ∙ simp (free_piece-opt, append_assoc)

  after_starts_used : head_free after ≡ false
  after_starts_used = head_free_after after (rw s.was_free at ((coalesced p h0 v s).1.1))

  small : gap + units_for size + rest ≤ 2 ^ 26
  small = omega (arith, v.small, chunk-le 0 _ before chosen after (tiles p h0 v s), s.covered)

  restored :
      joined
        (piece? chosen.start gap)
        (chunk (chosen.start + gap) (units_for size) false)
        (piece? (chosen.start + gap + units_for size) rest)
      ≡ chosen
  restored =
      joined_pieces chosen.start gap (units_for size) rest small
      ∙ ground (arith, s.covered, s.was_free)

  same :
      record r.1 {
        list =
            before
            ++ (joined
                  (piece? chosen.start gap)
                  (chunk (chosen.start + gap) (units_for size) false)
                  (piece? (chosen.start + gap + units_for size) rest)
                ∷ after);
      }
      ≡ a
  same = rw restored (ground (arith, s.was, s.heap_size))

  undone : dealloc ((chosen.start + gap) * 32) r.1 ≡ some (a, length before)
  undone =
      dealloc-joined r.1 _ ((chosen.start + gap) * 32) before (piece? chosen.start gap) _
        (piece? (chosen.start + gap + units_for size) rest) after list-parts
        (Served-Inv p h0 v s).tiles (piece?-IsFree chosen.start gap) (before_ends_used p h0 v s)
        (piece?-IsFree (chosen.start + gap + units_for size) rest) after_starts_used (omega arith)
      ∙ ap (λ b. some (b, length before)) same

  pub Served-undo : deallocate e (magnitude r.0) r.1 ≡ (pos 0, a)
  Served-undo = rw s.result (deallocate-found e r.1 _ a _ (rw s.heap_size v.some_heap) undone)

-- In a valid state a positive request that does not wrap either fails with the error for lack of
-- memory and changes nothing, or returns an offset that is not negative, and giving that offset
-- back succeeds and restores the allocator exactly.
pub deallocate-allocate :
    (page size : ℕ) (e : Errno) (a : Allocator)
    → IsPageSize page
    → Inv a
    → 0 < size
    → size + 31 < 2 ^ 32
    → let r = allocate e page size a in
      (r ≡ (neg e.enomem, a))
      ⊎ ((is_neg r.0 ≡ false) × (deallocate e (magnitude r.0) r.1 ≡ (pos 0, a)))
deallocate-allocate page size e a p v h0 h1 = elim (allocate-cases p e size h0 h1 v) [
  | inl s ↦ inr (rw (s.result), Served-undo p h0 v s e)
  | inr f ↦ inl f.1
]
