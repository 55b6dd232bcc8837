-- ===== src/Allocator/Dealloc.antt =====
-- What `dealloc` does to the chunk list when it is given the start of a block handed out.
use hardware_msm7k.Prelude.{
  ℕ, ◌+◌, ◌/◌, ◌^◌, ◌≤◌, ◌<◌, ◌≡◌, refl, Bool, true, false, Option, none, some, List, [], ◌∷◌, ◌++◌,
  arith, length, rejoin, opt_list,
}
use mathlib.Core.List.{append-nil}
use native.Mathlib.Nat.{add_assoc}
use hardware_msm7k.Allocator.{Chunk, Allocator, size_field, merge, dealloc_from, dealloc}
use hardware_msm7k.Allocator.Layout.{
  Tiles, Tiles-le, chunk-le, Coalesced, last_free, used, used-append,
}
use hardware_msm7k.Allocator.Merge.{
  fuse, fuse_left, fuse_right, IsFree, head_free, length-rejoin_nil, merge_lem,
}
use hardware_msm7k.Allocator.Neighbours.{dealloc_from-found}

-- Joining two chunks that lie end to end.
Tiles-fuse :
    (s e : ℕ) (x y : Chunk) (ys : List Chunk)
    → e ≤ 2 ^ 26
    → Tiles s (x ∷ y ∷ ys) e
    → Tiles s (fuse x y ∷ ys) e
Tiles-fuse s e x y ys h t =
    let sum : size_field (x.size + y.size) ≡ x.size + y.size =
      omega (arith, Tiles-le (s + x.size + y.size) e ys t.2.2) in
    rw sum (t.0, omega (arith, t), rw (← add_assoc) t.2.2)

-- Joining a chunk with free neighbours keeps the division.
pub Tiles-fused :
    (s e : ℕ) (p : Option Chunk) (c : Chunk) (n : Option Chunk) (back : List Chunk)
    → e ≤ 2 ^ 26
    → Tiles s (opt_list p ++ (c ∷ (opt_list n ++ back))) e
    → Tiles s (fuse_right (fuse_left p c) n ∷ back) e
Tiles-fused s e none c none back h t = t
Tiles-fused s e none c (some n) back h t = Tiles-fuse s e c n back h t
Tiles-fused s e (some p) c none back h t = Tiles-fuse s e p c back h t
Tiles-fused s e (some p) c (some n) back h t =
    Tiles-fuse s e (fuse p c) n back h (Tiles-fuse s e p c (n ∷ back) h t)

pub fused-IsFree :
    (p : Option Chunk) (c : Chunk) (n : Option Chunk)
    → IsFree p
    → c.free ≡ true
    → (fuse_right (fuse_left p c) n).free ≡ true
fused-IsFree none c none h k = k
fused-IsFree none c (some n) h k = k
fused-IsFree (some p) c none h k = h
fused-IsFree (some p) c (some n) h k = h

pub used-opt_list :
    (front : List Chunk) (p : Option Chunk) → IsFree p → used (front ++ opt_list p) ≡ used front
used-opt_list front none h = rw append-nil
used-opt_list front (some p) h = rw (used-append, h, append-nil)

pub used-opt_list_first :
    (n : Option Chunk) (back : List Chunk) → IsFree n → used (opt_list n ++ back) ≡ used back
used-opt_list_first none back h = refl
used-opt_list_first (some n) back h = rw h

pub Tiles-set_free :
    (s e : ℕ) (p : Option Chunk) (c : Chunk) (ys : List Chunk)
    → Tiles s (opt_list p ++ (c ∷ ys)) e
    → Tiles s (opt_list p ++ (record c { free = true } ∷ ys)) e
Tiles-set_free s e none c ys t = t
Tiles-set_free s e (some p) c ys t = t

Coalesced-any : (b : Bool) (xs : List Chunk) → Coalesced b xs → Coalesced false xs
Coalesced-any b [] h = tt
Coalesced-any b (x ∷ xs) h = (refl, h.1)

pub Coalesced-back :
    (b : Bool) (n : Option Chunk) (back : List Chunk)
    → Coalesced b (opt_list n ++ back)
    → Coalesced false back
Coalesced-back b none back h = Coalesced-any b back h
Coalesced-back b (some n) back h = Coalesced-any n.free back h.1

pub Coalesced-of_used :
    (b : Bool) (xs : List Chunk) → head_free xs ≡ false → Coalesced false xs → Coalesced b xs
Coalesced-of_used b [] h k = tt
Coalesced-of_used b (x ∷ xs) h k = (ground arith, k.1)

-- The chunk that takes the place of a block that is given back and of its free neighbours.
abbrev pub joined : Option Chunk → Chunk → Option Chunk → Chunk
joined p c n = fuse_right (fuse_left p (record c { free = true })) n

module _ (a : Allocator) (e offset : ℕ) (front : List Chunk) (p : Option Chunk) (c : Chunk)
    (n : Option Chunk) (back : List Chunk)
    (here : a.list ≡ (front ++ opt_list p) ++ (c ∷ (opt_list n ++ back))) (t : Tiles 0 a.list e)
    (hp : IsFree p) (hf : last_free false front ≡ false) (hn : IsFree n)
    (hb : head_free back ≡ false) (at : offset / 32 ≡ c.start) where
  -- The loops of `dealloc` at the start of a block.
  pub dealloc_from-joined :
      dealloc_from [] a.list (offset / 32) ≡ some (front ++ (joined p c n ∷ back), length front)
  dealloc_from-joined = rw (
    at,
    here,
    found,
    merge_lem front p (record c { free = true }) n back hp hf size_pos refl hn hb,
  )
    where
      tiles : Tiles 0 ((front ++ opt_list p) ++ (c ∷ (opt_list n ++ back))) e
      tiles = rw here at t

      size_pos : 0 < c.size
      size_pos = (chunk-le 0 e _ c _ tiles).0

      found :
          dealloc_from [] ((front ++ opt_list p) ++ (c ∷ (opt_list n ++ back))) c.start
          ≡ some (
              merge
                (rejoin (front ++ opt_list p) [])
                (record c { free = true })
                (opt_list n ++ back)
                (length (front ++ opt_list p)))
      found =
          rw (← length-rejoin_nil (front ++ opt_list p))
            (dealloc_from-found 0 e [] (front ++ opt_list p) c (opt_list n ++ back) tiles)

  -- `dealloc` at the start of a block joins it with its free neighbours.
  pub dealloc-joined :
      dealloc offset a ≡ some (record a { list = front ++ (joined p c n ∷ back) }, length front)
  unfolding dealloc
  dealloc-joined = rw (dealloc_from-joined, dealloc)
