-- ===== src/Allocator/Layout.antt =====
-- The chunk list as a division of the heap: what an allocator's state has to satisfy, and the
-- blocks that are handed out.
use hardware_msm7k.Prelude.{
  ℕ, ◌+◌, ◌/◌, ◌^◌, ◌≤◌, ◌<◌, ◌≡◌, refl, Bool, true, false, ◌&&◌, List, [], ◌∷◌, ◌++◌, arith,
  if◌then◌else◌,
}
use hardware_msm7k.Allocator.{Chunk, Allocator, k_memory_align}

-- The chunks lie end to end from unit `s` to unit `e`, and none is empty.
abbrev pub Tiles : ℕ → List Chunk → ℕ → Type 0
Tiles s [] e = s ≡ e
Tiles s (c ∷ cs) e = (c.start ≡ s) × (0 < c.size) × Tiles (s + c.size) cs e

-- No free chunk follows a free one; the flag says whether the chunk before the list is free.
abbrev pub Coalesced : Bool → List Chunk → Type 0
Coalesced b [] = Unit
Coalesced b (c ∷ cs) = ((b && c.free) ≡ false) × Coalesced c.free cs

-- The blocks handed out, as start and size in units.
abbrev pub used : List Chunk → List (ℕ × ℕ)
used [] = []
used (c ∷ cs) = if c.free then used cs else (c.start, c.size) ∷ used cs

-- The invariant between operations of an allocator whose size has been set.
pub record Inv (a : Allocator) : Type 0 where
  pub tiles : Tiles 0 a.list (a.heap_size / k_memory_align)
  pub coalesced : Coalesced false a.list
  pub some_heap : 0 < a.heap_size
  pub small : a.heap_size ≤ 2 ^ 31

-- Where a division splits.
pub Tiles-split :
    (s e : ℕ) (xs ys : List Chunk) → Tiles s (xs ++ ys) e → (m : ℕ) × Tiles s xs m × Tiles m ys e
Tiles-split s e [] ys t = (s, refl, t)
Tiles-split s e (x ∷ xs) ys t =
    let r = Tiles-split (s + x.size) e xs ys t.2 in (r.0, (t.0, t.1, r.1), r.2)

pub Tiles-join :
    (s m e : ℕ) (xs ys : List Chunk) → Tiles s xs m → Tiles m ys e → Tiles s (xs ++ ys) e
Tiles-join s m e [] ys t u = rw t u
Tiles-join s m e (x ∷ xs) ys t u = (t.0, t.1, Tiles-join (s + x.size) m e xs ys t.2 u)

pub Tiles-le : (s e : ℕ) (xs : List Chunk) → Tiles s xs e → s ≤ e
Tiles-le s e [] t = omega arith
Tiles-le s e (x ∷ xs) t = omega (arith, Tiles-le (s + x.size) e xs t.2)

-- A chunk of a division ends within it.
pub chunk-le :
    (s e : ℕ) (xs : List Chunk) (c : Chunk) (ys : List Chunk)
    → Tiles s (xs ++ (c ∷ ys)) e
    → (0 < c.size) × (c.start + c.size ≤ e)
chunk-le s e xs c ys t =
    let (m, _, r) = Tiles-split s e xs (c ∷ ys) t in
    (r.1, omega (arith, r.0, Tiles-le (m + c.size) e ys r.2))

-- Whether the last chunk of a list is free, or the chunk before it.
abbrev pub last_free : Bool → List Chunk → Bool
last_free b [] = b
last_free b (c ∷ cs) = last_free c.free cs

pub Coalesced-weaken : (xs : List Chunk) → Coalesced true xs → Coalesced false xs
Coalesced-weaken [] h = tt
Coalesced-weaken (x ∷ xs) h = (refl, h.1)

pub Coalesced-split :
    (b : Bool) (xs ys : List Chunk)
    → Coalesced b (xs ++ ys)
    → Coalesced b xs × Coalesced (last_free b xs) ys
Coalesced-split b [] ys h = (tt, h)
Coalesced-split b (x ∷ xs) ys h = let r = Coalesced-split x.free xs ys h.1 in ((h.0, r.0), r.1)

pub Coalesced-join :
    (b : Bool) (xs ys : List Chunk)
    → Coalesced b xs
    → Coalesced (last_free b xs) ys
    → Coalesced b (xs ++ ys)
Coalesced-join b [] ys h k = k
Coalesced-join b (x ∷ xs) ys h k = (h.0, Coalesced-join x.free xs ys h.1 k)

pub used-append : (xs ys : List Chunk) → used (xs ++ ys) ≡ used xs ++ used ys
used-append [] ys = refl
used-append (x ∷ xs) ys = ground (arith, used-append xs ys)
