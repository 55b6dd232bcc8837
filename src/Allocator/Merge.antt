-- ===== src/Allocator/Merge.antt =====
-- The merging loop of `dealloc`: in a list where no two free chunks touch it joins the freed chunk
-- with a free neighbour on either side, and stops.
use hardware_msm7k.Prelude.{
  ℕ, ◌+◌, ◌≡◌, refl, ap, ◌∙◌, Bool, true, false, Option, none, some, List, [], ◌∷◌, ◌++◌, arith,
  ◌<◌, length, rejoin, rejoin-rejoin, rejoin-append, length-rejoin, opt_list,
}
use mathlib.Core.Path.{ap₂}
use mathlib.Core.List.{append-nil}
use hardware_msm7k.Allocator.{Chunk, size_field, absorb, merge}
use hardware_msm7k.Allocator.Layout.{last_free}

-- `p` with the room of `c` added.
abbrev pub fuse : Chunk → Chunk → Chunk
fuse p c = record p { size = size_field (p.size + c.size) }

abbrev pub fuse_left : Option Chunk → Chunk → Chunk
fuse_left none c = c
fuse_left (some p) c = fuse p c

abbrev pub fuse_right : Chunk → Option Chunk → Chunk
fuse_right c none = c
fuse_right c (some n) = fuse c n

abbrev pub IsFree : Option Chunk → Type 0
IsFree none = Unit
IsFree (some c) = c.free ≡ true

-- Whether a list begins with a free chunk.
abbrev pub head_free : List Chunk → Bool
head_free [] = false
head_free (c ∷ cs) = c.free

-- After a round that leaves `l` behind the cursor the loop stops at a chunk that is not free.
merge_stop :
    (left : List Chunk) (cur : Chunk) (right : List Chunk) (freed : ℕ)
    → head_free right ≡ false
    → merge left cur right freed
      ≡ (rejoin (absorb left cur freed).0 right, (absorb left cur freed).1)
unfolding merge
merge_stop left cur [] freed h = refl
merge_stop left cur (n ∷ right) freed h = rw h

merge_go :
    (left : List Chunk) (cur n : Chunk) (right : List Chunk) (freed : ℕ)
    → n.free ≡ true
    → merge left cur (n ∷ right) freed
      ≡ merge (absorb left cur freed).0 n right (absorb left cur freed).1
unfolding merge
merge_go left cur n right freed h = rw h

absorb_free :
    (p c : Chunk) (left : List Chunk) (i : ℕ)
    → p.free ≡ true
    → absorb (p ∷ left) c i ≡ (fuse p c ∷ left, length left)
unfolding absorb
absorb_free p c left i h = ground arith

absorb_used :
    (c : Chunk) (left : List Chunk) (i : ℕ)
    → head_free left ≡ false
    → 0 < c.size
    → absorb left c i ≡ (c ∷ left, i)
unfolding absorb
absorb_used c [] i h k = refl
absorb_used c (p ∷ left) i h k = ground arith

head_free-rejoin :
    (front l : List Chunk) → head_free (rejoin front l) ≡ last_free (head_free l) front
head_free-rejoin [] l = refl
head_free-rejoin (x ∷ front) l = head_free-rejoin front (x ∷ l)

pub length-rejoin_nil : (front : List Chunk) → length (rejoin front []) ≡ length front
length-rejoin_nil front = omega (arith, length-rejoin front [])

-- The round at the freed chunk: it joins a free predecessor, and only such a one.
absorb-fuse_left :
    (front : List Chunk) (p : Option Chunk) (c : Chunk)
    → IsFree p
    → last_free false front ≡ false
    → 0 < c.size
    → absorb (rejoin (front ++ opt_list p) []) c (length (front ++ opt_list p))
      ≡ (fuse_left p c ∷ rejoin front [], length front)
absorb-fuse_left front none c h k pos =
    rw append-nil
      (absorb_used c (rejoin front []) (length front) (head_free-rejoin front [] ∙ k) pos)
absorb-fuse_left front (some p) c h k pos = rw (rejoin-append front (p ∷ []) []) (
    absorb_free p c (rejoin front []) _ h
    ∙ ap (λ i. (fuse p c ∷ rejoin front [], i)) (length-rejoin_nil front))

-- The loop from the freed chunk on.
pub merge_lem :
    (front : List Chunk) (p : Option Chunk) (c : Chunk) (n : Option Chunk) (back : List Chunk)
    → IsFree p
    → last_free false front ≡ false
    → 0 < c.size
    → c.free ≡ true
    → IsFree n
    → head_free back ≡ false
    → merge (rejoin (front ++ opt_list p) []) c (opt_list n ++ back) (length (front ++ opt_list p))
      ≡ (front ++ (fuse_right (fuse_left p c) n ∷ back), length front)
merge_lem front p c none back h k pos cf hn hb =
    rw (merge_stop _ c back _ hb, absorb-fuse_left front p c h k pos)
      (ap (λ l. (l, length front)) (rejoin-rejoin front [] (fuse_left p c ∷ back)))
merge_lem front p c (some n) back h k pos cf hn hb =
    rw (merge_go _ c n back _ hn, absorb-fuse_left front p c h k pos)
      (merge_stop (fuse_left p c ∷ rejoin front []) n back (length front) hb
        ∙ rw (absorb_free (fuse_left p c) n (rejoin front []) (length front) (fused p h)) (
            ap₂ (λ l i. (l, i)) (rejoin-rejoin front [] (fuse (fuse_left p c) n ∷ back))
              (length-rejoin_nil front)))
  where
    fused : (q : Option Chunk) → IsFree q → (fuse_left q c).free ≡ true
    fused none hq = cf
    fused (some q) hq = hq
