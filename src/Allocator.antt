-- ===== src/Allocator.antt =====
-- libgralloc/allocator.h and libgralloc/allocator.cpp (libgralloc-qsd8k holds a copy):
-- `SimpleBestFitAllocator`. The linked list is the list of its nodes in order, and a pointer to a
-- node is its position. `mLock` is held for the whole of each operation, so operations do not
-- interleave. `page` is what `getpagesize()` returns.
pub mod Layout
pub mod Search
pub mod Page
pub mod Carve
pub mod Alloc
pub mod Merge
pub mod Neighbours
pub mod Dealloc
pub mod Grant
pub mod Release
pub mod Undo
pub mod AnyOffset
pub mod History
pub mod Assertions
mod Tests
use hardware_msm7k.Prelude.{
  ℕ, ◌/◌, ◌%◌, ◌^◌, ◌+◌, Bool, true, false, ◌&&◌, ◌||◌, not, Option, none, some, List, [], ◌∷◌,
  ◌++◌, ltb, leb, ◌==◌, if◌then◌else◌, splice, rejoin, length, get_elem?,
}
use hardware_msm7k.Prelude.Int.{ℤ, pos, neg, signed32}
use hardware_msm7k.Prelude.Words.{add32, sub32, mul32, align32, padding32}
use hardware_msm7k.Errno.{Errno}

-- `chunk_t`, in units of `kMemoryAlign`. `size` is a bit field of 28 bits; `free` holds 0 or 1.
pub record Chunk : Type 0 where
  pub start : ℕ
  pub size : ℕ
  pub free : Bool

-- The fields of the class: `mList` and `mHeapSize`.
pub record Allocator : Type 0 where
  pub list : List Chunk
  pub heap_size : ℕ

abbrev pub k_memory_align : ℕ
k_memory_align = 32

abbrev pub size_field : ℕ → ℕ
size_field n = n % 2 ^ 28

-- The constructor `chunk_t(start, size)`.
abbrev pub new_chunk : ℕ → ℕ → Chunk
new_chunk start size = record { start = start; size = size_field size; free = true }

-- A chunk handed out: `free = 0` and `size = size`.
abbrev pub taken : ℕ → ℕ → Chunk
taken start size = record { start = start; size = size_field size; free = false }

-- `SimpleBestFitAllocator()`
abbrev pub empty : Allocator
empty = record { list = []; heap_size = 0 }

-- Units from the chunk's start to the next page boundary.
abbrev pub extra : ℕ → Chunk → ℕ
extra page c = padding32 c.start (page / k_memory_align)

-- `cur->free && (cur->size >= (size+extra))`
abbrev pub fits : ℕ → ℕ → Chunk → Bool
fits page size c = c.free && leb (add32 size (extra page c)) c.size

-- `(!free_chunk) || (cur->size < free_chunk->size)`
abbrev pub is_better : Chunk → Option (ℕ × Chunk) → Bool
is_better c none = true
is_better c (some (i, b)) = ltb c.size b.size

-- The assignment to `free_chunk` at the chunk `cur`, the `i`-th of the list.
abbrev pub choose : ℕ → ℕ → ℕ → Option (ℕ × Chunk) → Chunk → Option (ℕ × Chunk)
choose page size i best cur =
    if fits page size cur && is_better cur best then some (i, cur) else best

-- The first loop of `alloc`: the best chunk so far and its position, from position `i` on.
pub find_best : ℕ → ℕ → ℕ → Option (ℕ × Chunk) → List Chunk → Option (ℕ × Chunk)
find_best page size i best [] = best
find_best page size i best (cur ∷ rest) =
    let best' = choose page size i best cur in
    let later = find_best page size (i + 1) best' rest in
    if fits page size cur && (cur.size == size) then best' else later

-- The chunks that take the place of the chosen one, when it is larger than what is asked for.
pub split_chunk : ℕ → ℕ → Chunk → List Chunk × ℕ
split_chunk page size c =
    let gap = extra page c in
    let start = (if not (gap == 0) then add32 c.start gap else c.start) in
    let front = (if not (gap == 0) then new_chunk c.start gap ∷ [] else []) in
    let tail_free = sub32 c.size (add32 size gap) in
    let back =
      (if ltb 0 tail_free && ltb tail_free (2 ^ 31)
        then new_chunk (add32 start (size_field size)) tail_free ∷ []
        else []) in
    (front ++ (taken start size ∷ back), start)

-- What `alloc` makes of the chosen chunk, and the start of the block handed out.
pub carve : ℕ → ℕ → Chunk → List Chunk × ℕ
unfolding split_chunk
carve page size c =
    if ltb size c.size then split_chunk page size c else (taken c.start size ∷ [], c.start)

-- One round of the merging loop of `dealloc`, at the node `cur` whose predecessors are `left`,
-- nearest first: the new predecessors of the node after `cur`, and the position `freed`.
pub absorb : List Chunk → Chunk → ℕ → List Chunk × ℕ
absorb [] cur freed = (cur ∷ [], freed)
absorb (p ∷ left) cur freed =
    if p.free || (cur.size == 0)
    then (record p { size = size_field (p.size + cur.size) } ∷ left, length left)
    else (cur ∷ p ∷ left, freed)

-- The `do` loop: it goes on to the next node while that is free.
pub merge : List Chunk → Chunk → List Chunk → ℕ → List Chunk × ℕ
unfolding absorb
merge left cur [] freed = let (left', freed') = absorb left cur freed in (rejoin left' [], freed')
merge left cur (n ∷ right) freed =
    let (left', freed') = absorb left cur freed in
    let later = merge left' n right freed' in
    if n.free then later else (rejoin left' (n ∷ right), freed')

-- The outer loop of `dealloc`, at the list `right` behind `left`. `start` is in units. The result
-- is the new list with the position of the chunk returned, or `none` for a null pointer.
pub dealloc_from : List Chunk → List Chunk → ℕ → Option (List Chunk × ℕ)
unfolding merge
dealloc_from left [] start = none
dealloc_from left (cur ∷ right) start =
    let later = dealloc_from (cur ∷ left) right start in
    if cur.start == start
    then some (merge left (record cur { free = true }) right (length left))
    else later

-- `dealloc`
pub dealloc : ℕ → Allocator → Option (Allocator × ℕ)
unfolding dealloc_from
dealloc start a = elim (dealloc_from [] a.list (start / k_memory_align)) [
  | none ↦ none
  | some (chunks, freed) ↦ some (record a { list = chunks }, freed)
]

module _ (e : Errno) where
  open e use {einval, enomem, enoent}

  -- `setSize`
  unfoldable pub set_size : ℕ → ℕ → Allocator → ℤ × Allocator
  set_size page size a =
      let heap = align32 size page in
      if not (a.heap_size == 0) then (neg einval, a) else (
        signed32 size,
        record { list = new_chunk 0 (heap / k_memory_align) ∷ a.list; heap_size = heap },
      )

  -- The end of `alloc`: what it does with the outcome of the search.
  pub commit : ℕ → ℕ → Allocator → Option (ℕ × Chunk) → ℤ × Allocator
  unfolding carve
  commit page units a none = (neg enomem, a)
  commit page units a (some (i, c)) =
      let (chunks, start) = carve page units c in
      (signed32 (mul32 start k_memory_align), record a { list = splice a.list i chunks })

  -- `alloc`
  pub alloc : ℕ → ℕ → Allocator → ℤ × Allocator
  unfolding find_best commit
  alloc page size a =
      let units = sub32 (add32 size k_memory_align) 1 / k_memory_align in
      if size == 0 then (pos 0, a) else commit page units a (find_best page units 0 none a.list)

  -- `allocate`
  unfoldable pub allocate : ℕ → ℕ → Allocator → ℤ × Allocator
  unfolding alloc
  allocate page size a = if a.heap_size == 0 then (neg einval, a) else alloc page size a

  -- `deallocate`
  pub deallocate : ℕ → Allocator → ℤ × Allocator
  deallocate offset a =
      if a.heap_size == 0
      then (neg einval, a)
      else elim (dealloc offset a) [ none ↦ (neg enoent, a) | some (a', freed) ↦ (pos 0, a') ]
