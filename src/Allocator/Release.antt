-- ===== src/Allocator/Release.antt =====
-- `deallocate` seen from its client: the blocks handed out, before and after.
use hardware_msm7k.Prelude.{
  ℕ, ◌/◌, ◌<◌, ◌≡◌, refl, ap, ◌∙◌, sym, inl, inr, false, true, List, [], ◌∷◌, ◌++◌, arith,
  Bool-cases, some, none, opt_list, length,
}
use mathlib.Core.List.{append_assoc}
use mathlib.Core.Path.{ap₂}
use hardware_msm7k.Prelude.Int.{pos, neg}
use hardware_msm7k.Errno.{Errno}
use hardware_msm7k.Allocator.{Chunk, Allocator, dealloc_from, dealloc, deallocate}
use hardware_msm7k.Allocator.Layout.{
  Inv, Tiles, Tiles-split, Tiles-join, Coalesced, Coalesced-split, Coalesced-join, last_free, used,
  used-append,
}
use hardware_msm7k.Allocator.Neighbours.{
  FreeLast, free_last, FreeFirst, free_first, NoneStarts, dealloc_from-none,
}
use hardware_msm7k.Allocator.Dealloc.{
  joined, dealloc_from-joined, dealloc-joined, Tiles-set_free, Coalesced-back, used-opt_list_first,
  Tiles-fused, fused-IsFree, used-opt_list, Coalesced-of_used,
}

-- Where a block handed out stands in the list.
pub record Block (xs : List Chunk) (below : List (ℕ × ℕ)) (start size : ℕ) (above : List (ℕ × ℕ))
    : Type 0 where
  pub before : List Chunk
  pub chunk : Chunk
  pub after : List Chunk
  pub here : xs ≡ before ++ (chunk ∷ after)
  pub taken : chunk.free ≡ false
  pub starts : chunk.start ≡ start
  pub below_it : used before ≡ below
  pub above_it : used after ≡ above

Block-cons :
    (x : Chunk) (xs : List Chunk) (below below' : List (ℕ × ℕ)) (start size : ℕ)
    (above : List (ℕ × ℕ))
    → ((before : List Chunk) → used before ≡ below → used (x ∷ before) ≡ below')
    → Block xs below start size above
    → Block (x ∷ xs) below' start size above
Block-cons x xs below below' start size above h r = record {
  before = x ∷ r.before;
  chunk = r.chunk;
  after = r.after;
  here = ap (◌∷◌ x) r.here;
  taken = r.taken;
  starts = r.starts;
  below_it = h r.before r.below_it;
  above_it = r.above_it;
}

find-Block :
    (xs : List Chunk) (below : List (ℕ × ℕ)) (start size : ℕ) (above : List (ℕ × ℕ))
    → used xs ≡ below ++ ((start, size) ∷ above)
    → Block xs below start size above
find-Block [] [] start size above h = absurd (ground arith)
find-Block [] (b ∷ below) start size above h = absurd (ground arith)
find-Block (x ∷ xs) [] start size above h = elim (Bool-cases x.free) [
  | inl f ↦
      Block-cons x xs [] [] start size above (λ before q. rw (f, q))
        (find-Block xs [] start size above (rw f at h))
  | inr u ↦ record {
    before = [];
    chunk = x;
    after = xs;
    here = refl;
    taken = u;
    starts = ground arith;
    below_it = refl;
    above_it = ground arith;
  }
]
find-Block (x ∷ xs) (b ∷ below) start size above h = elim (Bool-cases x.free) [
  | inl f ↦
      Block-cons x xs (b ∷ below) (b ∷ below) start size above (λ before q. rw (f, q))
        (find-Block xs (b ∷ below) start size above (rw f at h))
  | inr u ↦
      Block-cons x xs below (b ∷ below) start size above (λ before q. ground arith)
        (find-Block xs below start size above (ground arith))
]

pub deallocate-found :
    (e : Errno) (a : Allocator) (offset : ℕ) (a' : Allocator) (i : ℕ)
    → 0 < a.heap_size
    → dealloc offset a ≡ some (a', i)
    → deallocate e offset a ≡ (pos 0, a')
unfolding deallocate
deallocate-found e a offset a' i h found = ground (arith, found)

module _ {a : Allocator} (v : Inv a) {below : List (ℕ × ℕ)} {start size : ℕ} {above : List (ℕ × ℕ)}
    (k : Block a.list below start size above) where
  open k use {before, chunk, after}

  coalesced : Coalesced false before × Coalesced (last_free false before) (chunk ∷ after)
  coalesced = Coalesced-split false before (chunk ∷ after) (rw k.here at v.coalesced)

  pub left : FreeLast false before
  left = free_last before coalesced.0

  pub right : FreeFirst after
  right = free_first chunk.free after coalesced.1.1

  -- The list with the free neighbours of the block taken apart from the rest.
  parts :
      a.list ≡ (left.front ++ opt_list left.last) ++ (chunk ∷ (opt_list right.first ++ right.back))
  parts = k.here ∙ ap₂ (λ xs ys. xs ++ (chunk ∷ ys)) left.parts right.parts

  -- The list after the call.
  abbrev pub list' : List Chunk
  list' = left.front ++ (joined left.last chunk right.first ∷ right.back)

  -- The chunk that the block is joined into.
  abbrev pub freed_chunk : Chunk
  freed_chunk = joined left.last chunk right.first

  pub joined_free : (joined left.last chunk right.first).free ≡ true
  joined_free = fused-IsFree left.last _ right.first left.is_free refl

  Tiles-list' : Tiles 0 list' (a.heap_size / 32)
  Tiles-list' =
      let (m, front, middle) =
        Tiles-split 0 (a.heap_size / 32) left.front _ (rw (← append_assoc) (rw parts at v.tiles)) in
      Tiles-join 0 m _ left.front _ front (
        Tiles-fused m _ left.last _ right.first right.back (omega (arith, v.small))
          (Tiles-set_free m _ left.last chunk _ middle))

  Coalesced-list' : Coalesced false list'
  Coalesced-list' =
      Coalesced-join false left.front _
        (Coalesced-split false left.front (opt_list left.last) (rw left.parts at (coalesced.0))).0
        (rw (left.ends_used, joined_free)
          (
            refl,
            Coalesced-of_used true right.back right.starts_used (
                Coalesced-back chunk.free right.first right.back
                  (rw right.parts at (coalesced.1.1))),
          ))

  pub used-list' : used list' ≡ below ++ above
  used-list' =
      rw (used-append left.front _, joined_free)
        (ap₂ ◌++◌
          (sym (used-opt_list left.front left.last left.is_free)
            ∙ sym (ap used left.parts)
            ∙ k.below_it)
          (sym (used-opt_list_first right.first right.back right.is_free)
            ∙ sym (ap used right.parts)
            ∙ k.above_it))

  pub after_free-Inv : Inv (record a { list = list' })
  after_free-Inv = record {
    tiles = Tiles-list';
    coalesced = Coalesced-list';
    some_heap = v.some_heap;
    small = v.small;
  }

  pub release_found :
      (offset : ℕ)
      → offset / 32 ≡ start
      → dealloc_from [] a.list (offset / 32) ≡ some (list', length left.front)
  release_found offset at =
      dealloc_from-joined a _ offset left.front left.last chunk right.first right.back parts v.tiles
        left.is_free left.ends_used right.is_free right.starts_used (at ∙ sym k.starts)

  pub release :
      (e : Errno) (offset : ℕ)
      → offset / 32 ≡ start
      → deallocate e offset a ≡ (pos 0, record a { list = list' })
  unfolding deallocate
  release e offset at =
      let found : dealloc offset a ≡ some (record a { list = list' }, length left.front) =
        dealloc-joined a _ offset left.front left.last chunk right.first right.back parts v.tiles
          left.is_free left.ends_used right.is_free right.starts_used (at ∙ sym k.starts) in
      deallocate-found e a offset (record a { list = list' }) _ v.some_heap found

-- In a valid state giving back an offset in the first unit of a block that is handed out returns
-- 0, takes just that block from the blocks handed out, and leaves a valid state, in which no two
-- free chunks touch.
pub deallocate-releases :
    (e : Errno) (a : Allocator) (offset : ℕ) (below : List (ℕ × ℕ)) (start size : ℕ)
    (above : List (ℕ × ℕ))
    → Inv a
    → used a.list ≡ below ++ ((start, size) ∷ above)
    → offset / 32 ≡ start
    → let r = deallocate e offset a in (r.0 ≡ pos 0) × (used r.1.list ≡ below ++ above) × Inv r.1
deallocate-releases e a offset below start size above v h at =
    let k = find-Block a.list below start size above h in
    rw (release v k e offset at) (refl, used-list' v k, after_free-Inv v k)

-- No chunk starts at the given offset: the call fails and changes nothing.
pub deallocate-unknown :
    (e : Errno) (a : Allocator) (offset : ℕ)
    → 0 < a.heap_size
    → NoneStarts (offset / 32) a.list
    → deallocate e offset a ≡ (neg e.enoent, a)
unfolding deallocate dealloc
deallocate-unknown e a offset h n =
    let missing : dealloc_from [] a.list (offset / 32) ≡ none =
      dealloc_from-none [] a.list (offset / 32) n in
    ground (arith, missing)
