-- ===== src/Allocator/Neighbours.antt =====
-- The free neighbours of a block, and how the outer loop of `dealloc` finds the block.
use hardware_msm7k.Prelude.{
  ℕ, ◌+◌, ◌≤◌, ◌≡◌, ◌≢◌, refl, ap, Bool, true, false, Option, none, some, List, [], ◌∷◌, ◌++◌,
  arith, length, rejoin, opt_list, Bool-cases, inl, inr,
}
use hardware_msm7k.Allocator.{Chunk, merge, dealloc_from}
use hardware_msm7k.Allocator.Layout.{Tiles, Coalesced, last_free}
use hardware_msm7k.Allocator.Merge.{IsFree, head_free}

-- A list as its front and a last chunk, if that is free.
pub record FreeLast (b : Bool) (xs : List Chunk) : Type 0 where
  pub front : List Chunk
  pub last : Option Chunk
  pub parts : xs ≡ front ++ opt_list last
  pub is_free : IsFree last
  pub ends_used : last_free b front ≡ false

free_last_of_cons :
    (b : Bool) (x : Chunk) (xs : List Chunk) → Coalesced b (x ∷ xs) → FreeLast b (x ∷ xs)
free_last_of_cons b x [] h = elim (Bool-cases x.free) [
  | inl f ↦ record {
    front = [];
    last = some x;
    parts = refl;
    is_free = f;
    ends_used = ground arith;
  }
  | inr u ↦ record { front = x ∷ []; last = none; parts = refl; is_free = tt; ends_used = u }
]
free_last_of_cons b x (y ∷ ys) h =
    let r = free_last_of_cons x.free y ys h.1 in
    record {
      front = x ∷ r.front;
      last = r.last;
      parts = ap (◌∷◌ x) r.parts;
      is_free = r.is_free;
      ends_used = r.ends_used;
    }

pub free_last : (xs : List Chunk) → Coalesced false xs → FreeLast false xs
free_last [] h = record { front = []; last = none; parts = refl; is_free = tt; ends_used = refl }
free_last (x ∷ xs) h = free_last_of_cons false x xs h

-- A list as a first chunk, if that is free, and the rest.
pub record FreeFirst (xs : List Chunk) : Type 0 where
  pub first : Option Chunk
  pub back : List Chunk
  pub parts : xs ≡ opt_list first ++ back
  pub is_free : IsFree first
  pub starts_used : head_free back ≡ false

pub head_free_after : (xs : List Chunk) → Coalesced true xs → head_free xs ≡ false
head_free_after [] h = refl
head_free_after (x ∷ xs) h = h.0

pub free_first : (b : Bool) (xs : List Chunk) → Coalesced b xs → FreeFirst xs
free_first b [] h = record {
  first = none;
  back = [];
  parts = refl;
  is_free = tt;
  starts_used = refl;
}
free_first b (x ∷ xs) h = elim (Bool-cases x.free) [
  | inl f ↦ record {
    first = some x;
    back = xs;
    parts = refl;
    is_free = f;
    starts_used = head_free_after xs (rw f at (h.1));
  }
  | inr u ↦ record { first = none; back = x ∷ xs; parts = refl; is_free = tt; starts_used = u }
]

start-le :
    (s e : ℕ) (xs : List Chunk) (c : Chunk) (ys : List Chunk)
    → Tiles s (xs ++ (c ∷ ys)) e
    → s ≤ c.start
start-le s e [] c ys t = omega arith
start-le s e (x ∷ xs) c ys t = omega (arith, start-le (s + x.size) e xs c ys t.2)

-- The outer loop finds the chunk that starts at the given unit.
pub dealloc_from-found :
    (s e : ℕ) (left before : List Chunk) (c : Chunk) (after : List Chunk)
    → Tiles s (before ++ (c ∷ after)) e
    → dealloc_from left (before ++ (c ∷ after)) c.start
      ≡ some (
          merge (rejoin before left) (record c { free = true }) after (length (rejoin before left)))
unfolding dealloc_from
dealloc_from-found s e left [] c after t = ground arith
dealloc_from-found s e left (x ∷ before) c after t = ground (
  arith,
  dealloc_from-found (s + x.size) e (x ∷ left) before c after t.2,
  start-le (s + x.size) e before c after t.2,
)

-- No chunk starts at unit `start`.
abbrev pub NoneStarts : ℕ → List Chunk → Type 0
NoneStarts start [] = Unit
NoneStarts start (c ∷ cs) = (c.start ≢ start) × NoneStarts start cs

pub dealloc_from-none :
    (left right : List Chunk) (start : ℕ)
    → NoneStarts start right
    → dealloc_from left right start ≡ none
unfolding dealloc_from
dealloc_from-none left [] start h = refl
dealloc_from-none left (c ∷ right) start h =
    ground (arith, dealloc_from-none (c ∷ left) right start)
