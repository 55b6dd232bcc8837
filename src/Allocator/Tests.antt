-- ===== src/Allocator/Tests.antt =====
-- The allocator on pages of 4096 bytes, and its theorems at a heap of 64 KiB with two blocks.
use hardware_msm7k.Prelude.{
  if◌then◌else◌, ◌/◌, ◌≤◌, ◌≡◌, refl, true, false, List, [], ◌∷◌, ◌⊎◌, arith,
}
use hardware_msm7k.Prelude.Int.{pos, neg, is_neg, magnitude}
use hardware_msm7k.Errno.{Errno}
use hardware_msm7k.Allocator.{Allocator, empty, set_size, alloc, allocate, dealloc, deallocate}
use hardware_msm7k.Allocator.Layout.{Inv, used}
use hardware_msm7k.Allocator.Page.{IsPageSize}
use hardware_msm7k.Allocator.Carve.{chunk}
use hardware_msm7k.Allocator.Search.{NoneFits}
use hardware_msm7k.Allocator.Alloc.{units_for, Served, alloc-cases}
use hardware_msm7k.Allocator.Grant.{Granted, allocate-Granted}
use hardware_msm7k.Allocator.Release.{deallocate-releases}
use hardware_msm7k.Allocator.Undo.{deallocate-allocate}
use hardware_msm7k.Allocator.AnyOffset.{NoBlockAt}
use hardware_msm7k.Allocator.Assertions.{
  aborts, returns, free_at, deallocate_checked, deallocate_checked-free_at,
}
use hardware_msm7k.Allocator.History.{Call, get, give_back, Apart, run, set_size-Inv, run-Apart}

abbrev linux : Errno
linux = record {
  einval = 22;
  enomem = 12;
  enoent = 2;
  einval_pos = omega arith;
  enomem_pos = omega arith;
  enoent_pos = omega arith;
}

page_4096 : IsPageSize 4096
page_4096 = record { exponent = 7; rest = 20; power = refl; in_word = refl }

abbrev calls : List Call
calls = get 5000 ∷ get 100 ∷ get 4096 ∷ give_back 0 ∷ give_back 0 ∷ []

abbrev two_blocks : Allocator
two_blocks = record {
  list = chunk 0 157 false ∷ chunk 157 99 true ∷ chunk 256 4 false ∷ chunk 260 1788 true ∷ [];
  heap_size = 65536;
}

two_blocks-Inv : Inv two_blocks
two_blocks-Inv = record {
  tiles = omega arith;
  coalesced = (refl, (refl, (refl, (refl, tt))));
  some_heap = omega arith;
  small = omega arith;
}

two_blocks_reached :
    run 4096 linux (set_size linux 4096 65536 empty).1 (get 5000 ∷ get 100 ∷ []) ≡ two_blocks
unfolding run set_size allocate
two_blocks_reached = refl

-- The second block starts on the next page, and what is in front of it stays free.
second_offset :
    (allocate linux 4096 100 (run 4096 linux (set_size linux 4096 65536 empty).1 (get 5000 ∷ []))).0
    ≡ pos 8192
unfolding run set_size allocate
second_offset = refl

-- All is given back, one block twice.
all_given_back :
    used
      (run 4096 linux
        (set_size linux 4096 65536 empty).1
        (get 5000 ∷ give_back 0 ∷ give_back 0 ∷ [])).list
    ≡ []
unfolding run set_size allocate deallocate dealloc
all_given_back = refl

-- A block of no bytes is at offset 0, where another block stands, and giving it back frees that.
nothing_asked : (allocate linux 4096 0 two_blocks).0 ≡ pos 0
unfolding allocate
nothing_asked = refl

alloc-cases_example :
    Served 4096 100 two_blocks (alloc linux 4096 100 two_blocks)
    ⊎ (NoneFits 4096 (units_for 100) two_blocks.list
        × (alloc linux 4096 100 two_blocks ≡ (neg 12, two_blocks)))
alloc-cases_example = alloc-cases page_4096 linux 100 (omega arith) (omega arith) two_blocks-Inv

allocate-Granted_example :
    Granted 4096 100 two_blocks (allocate linux 4096 100 two_blocks)
    ⊎ (NoneFits 4096 (units_for 100) two_blocks.list
        × (allocate linux 4096 100 two_blocks ≡ (neg 12, two_blocks)))
allocate-Granted_example =
    allocate-Granted 4096 100 linux two_blocks page_4096 two_blocks-Inv (omega arith) (omega arith)

-- Unit 157, of offset 5024, starts a free chunk.
deallocate_checked-free_at_example :
    (deallocate_checked linux 5024 two_blocks ≡ (
      if free_at 157 two_blocks.list then aborts else returns (deallocate linux 5024 two_blocks)))
    × (NoBlockAt 157 (used two_blocks.list) → (deallocate linux 5024 two_blocks).1 ≡ two_blocks)
deallocate_checked-free_at_example = deallocate_checked-free_at linux two_blocks 5024 two_blocks-Inv

deallocate-releases_example :
    let r = deallocate linux 8192 two_blocks in
    (r.0 ≡ pos 0) × (used r.1.list ≡ (0, 157) ∷ []) × Inv r.1
deallocate-releases_example =
    deallocate-releases linux two_blocks 8192 ((0, 157) ∷ []) 256 4 [] two_blocks-Inv refl refl

deallocate-allocate_example :
    let r = allocate linux 4096 100 two_blocks in
    (r ≡ (neg 12, two_blocks))
    ⊎ ((is_neg r.0 ≡ false) × (deallocate linux (magnitude r.0) r.1 ≡ (pos 0, two_blocks)))
deallocate-allocate_example =
    deallocate-allocate 4096 100 linux two_blocks page_4096 two_blocks-Inv (omega arith)
      (omega arith)

set_size-Inv_example :
    let r = set_size linux 4096 65536 empty in
    (r.0 ≡ pos 65536) × Inv r.1 × (used r.1.list ≡ []) × (65536 ≤ r.1.heap_size)
set_size-Inv_example = set_size-Inv 4096 65536 linux page_4096 (omega arith) (omega arith)

run-Apart_example :
    let a = run 4096 linux (set_size linux 4096 65536 empty).1 calls in
    Inv a × Apart 0 (used a.list) (a.heap_size / 32)
run-Apart_example =
    run-Apart 4096 65536 linux calls page_4096 (omega arith) (omega arith) (omega arith)
