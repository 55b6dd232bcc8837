-- ===== src/Allocator/AnyOffset.antt =====
-- `deallocate` at any offset: only a block that is handed out is affected.
use hardware_msm7k.Prelude.{
  ℕ, ◌/◌, ◌≡◌, ◌≢◌, refl, ap, ◌∙◌, sym, ◌⊎◌, inl, inr, true, false, Bool-cases, none, some, List,
  [], ◌∷◌, ◌++◌, arith, length,
}
use mathlib.Core.List.{append-nil}
use native.Mathlib.Decide.{ℕ_discrete}
use hardware_msm7k.Prelude.Int.{pos}
use hardware_msm7k.Errno.{Errno}
use hardware_msm7k.Allocator.{Chunk, Allocator, deallocate}
use hardware_msm7k.Allocator.Layout.{Inv, Coalesced, used, used-append, Coalesced-split, last_free}
use hardware_msm7k.Allocator.Neighbours.{NoneStarts, head_free_after}
use hardware_msm7k.Allocator.Dealloc.{dealloc-joined}
use hardware_msm7k.Allocator.Release.{
  Block, release, after_free-Inv, deallocate-found, deallocate-unknown,
}

-- A chunk of the list starts at a unit, or none does.
pub record StartsAt (start : ℕ) (xs : List Chunk) : Type 0 where
  pub before : List Chunk
  pub chunk : Chunk
  pub after : List Chunk
  pub here : xs ≡ before ++ (chunk ∷ after)
  pub starts : chunk.start ≡ start

pub find_start : (start : ℕ) (xs : List Chunk) → NoneStarts start xs ⊎ StartsAt start xs
find_start start [] = inl tt
find_start start (x ∷ xs) = elim (ℕ_discrete x.start start) [
  | yes e ↦ inr (record { before = []; chunk = x; after = xs; here = refl; starts = e })
  | no ne ↦ elim (find_start start xs) [
    | inl n ↦ inl (ne, n)
    | inr f ↦ inr (record {
      before = x ∷ f.before;
      chunk = f.chunk;
      after = f.after;
      here = ap (◌∷◌ x) f.here;
      starts = f.starts;
    })
  ]
]

module _ (e : Errno) {a : Allocator} (offset : ℕ) (v : Inv a)
    (f : StartsAt (offset / 32) a.list) where
  open f use {before, chunk, after, here}

  around : Coalesced false before × Coalesced (last_free false before) (chunk ∷ after)
  around = Coalesced-split false before (chunk ∷ after) (rw here at v.coalesced)

  -- A free chunk has no free neighbours, so the call leaves the list as it was.
  deallocate-free : chunk.free ≡ true → deallocate e offset a ≡ (pos 0, a)
  deallocate-free h = deallocate-found e a offset a (length before) v.some_heap (
      dealloc-joined a _ offset before none chunk none after plain v.tiles tt ends tt
        (head_free_after after (rw h at (around.1.1))) (sym f.starts)
      ∙ ap (λ b. some (b, length before)) (ground (arith, h, here)))
    where
      plain : a.list ≡ (before ++ []) ++ (chunk ∷ after)
      plain = rw append-nil here

      ends : last_free false before ≡ false
      ends = ground (arith, around.1.0, h)

  pub block : chunk.free ≡ false → Block a.list (used before) (offset / 32) chunk.size (used after)
  block h = record {
    before = before;
    chunk = chunk;
    after = after;
    here = here;
    taken = h;
    starts = f.starts;
    below_it = refl;
    above_it = refl;
  }

  block_used :
      chunk.free ≡ false → used a.list ≡ used before ++ ((offset / 32, chunk.size) ∷ used after)
  block_used h = rw (here, used-append before (chunk ∷ after), h, f.starts)

-- No block handed out starts at unit `start`.
abbrev pub NoBlockAt : ℕ → List (ℕ × ℕ) → Type 0
NoBlockAt start [] = Unit
NoBlockAt start ((b, n) ∷ bs) = (b ≢ start) × NoBlockAt start bs

NoBlockAt-absurd :
    (start n : ℕ) (xs ys : List (ℕ × ℕ)) → NoBlockAt start (xs ++ ((start, n) ∷ ys)) → ⊥
NoBlockAt-absurd start n [] ys h = h.0 refl
NoBlockAt-absurd start n ((b, m) ∷ xs) ys h = NoBlockAt-absurd start n xs ys h.1

-- With the assertions compiled out an offset at whose unit no block handed out starts changes nothing.
pub deallocate-unchanged :
    (e : Errno) (a : Allocator) (offset : ℕ)
    → Inv a
    → NoBlockAt (offset / 32) (used a.list)
    → (deallocate e offset a).1 ≡ a
deallocate-unchanged e a offset v h = elim (find_start (offset / 32) a.list) [
  | inl n ↦ rw (deallocate-unknown e a offset v.some_heap n)
  | inr f ↦ elim (Bool-cases f.chunk.free) [
    | inl g ↦ rw (deallocate-free e offset v f g)
    | inr u ↦
        absurd (
          NoBlockAt-absurd _ _ (used f.before) (used f.after) (rw (block_used e offset v f u) at h))
  ]
]

-- Whatever offset a client gives back, the state stays valid.
pub deallocate-Inv :
    (e : Errno) (a : Allocator) (offset : ℕ) → Inv a → Inv (deallocate e offset a).1
deallocate-Inv e a offset v = elim (find_start (offset / 32) a.list) [
  | inl n ↦ rw (deallocate-unknown e a offset v.some_heap n) v
  | inr f ↦ elim (Bool-cases f.chunk.free) [
    | inl g ↦ rw (deallocate-free e offset v f g) v
    | inr u ↦
        rw (release v (block e offset v f u) e offset refl)
          (after_free-Inv v (block e offset v f u))
  ]
]
