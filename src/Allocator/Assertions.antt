-- ===== src/Allocator/Assertions.antt =====
-- `deallocate` with the fatal assertions of `dealloc` compiled in.
use hardware_msm7k.Prelude.{
  ℕ, ◌+◌, ◌/◌, ◌<◌, ◌≡◌, refl, sym, ap, ◌∙◌, Bool, true, false, ◌&&◌, ◌||◌, Option, none, some,
  List, [], ◌∷◌, ◌++◌, arith, length, get_elem?, get_elem?-append, ◌==◌, if◌then◌else◌, Bool-cases,
  Option-cases, inl, inr,
}
use hardware_msm7k.Prelude.Int.{ℤ, pos, neg}
use hardware_msm7k.Errno.{Errno}
use hardware_msm7k.Allocator.{
  Chunk, Allocator, k_memory_align, merge, dealloc_from, dealloc, deallocate,
}
use hardware_msm7k.Allocator.Layout.{Inv, Tiles, used}
use hardware_msm7k.Allocator.Neighbours.{dealloc_from-none}
use hardware_msm7k.Allocator.Release.{release_found, list', left, freed_chunk, joined_free}
use hardware_msm7k.Allocator.AnyOffset.{find_start, block, NoBlockAt, deallocate-unchanged}

-- What a call comes to where the fatal assertions are compiled in.
pub data Checked {ℓ} (A : Type ℓ) : Type ℓ where
  aborts : Checked A
  returns : A → Checked A

-- The assertion on the chunk that is returned, at its position.
abbrev pub check_freed : Option Chunk → List Chunk × ℕ → Checked (Option (List Chunk × ℕ))
check_freed none r = aborts
check_freed (some c) r = if c.free then returns (some r) else aborts

-- The outer loop of `dealloc` with its assertions.
unfoldable pub dealloc_checked_from :
    List Chunk → List Chunk → ℕ → Checked (Option (List Chunk × ℕ))
unfolding merge
dealloc_checked_from behind [] start = returns none
dealloc_checked_from behind (cur ∷ rest) start =
    let later = dealloc_checked_from (cur ∷ behind) rest start in
    let merged = merge behind (record cur { free = true }) rest (length behind) in
    if cur.start == start
    then (if cur.free then aborts else check_freed (get_elem? merged.0 merged.1) merged)
    else later

-- What `deallocate` makes of the outcome of `dealloc`.
abbrev pub deallocated :
    Errno → Allocator → Checked (Option (List Chunk × ℕ)) → Checked (ℤ × Allocator)
deallocated e a aborts = aborts
deallocated e a (returns none) = returns (neg e.enoent, a)
deallocated e a (returns (some (chunks, freed))) = returns (pos 0, record a { list = chunks })

-- `deallocate` with the assertions.
unfoldable pub deallocate_checked : Errno → ℕ → Allocator → Checked (ℤ × Allocator)
unfolding dealloc_checked_from
deallocate_checked e offset a =
    if a.heap_size == 0
    then returns (neg e.einval, a)
    else deallocated e a (dealloc_checked_from [] a.list (offset / k_memory_align))

-- A free chunk starts at a unit.
abbrev pub free_at : ℕ → List Chunk → Bool
free_at start [] = false
free_at start (c ∷ cs) = ((c.start == start) && c.free) || free_at start cs

-- What the assertion on the result makes of the outcome without assertions.
abbrev checked : Option (List Chunk × ℕ) → Checked (Option (List Chunk × ℕ))
checked none = returns none
checked (some r) = check_freed (get_elem? r.0 r.1) r

free_at-later :
    (s e start : ℕ) (xs : List Chunk) → Tiles s xs e → start < s → free_at start xs ≡ false
free_at-later s e start [] t h = refl
free_at-later s e start (c ∷ cs) t h =
    let rest = free_at-later (s + c.size) e start cs t.2 (omega (arith, h)) in
    let other : (c.start == start) ≡ false = ground (arith, t.0, h) in rw (other, rest) refl

-- The first assertion decides, and else the second is on what is done without assertions.
dealloc_checked_from-free_at :
    (s e start : ℕ) (behind xs : List Chunk)
    → Tiles s xs e
    → dealloc_checked_from behind xs start
      ≡ (if free_at start xs then aborts else checked (dealloc_from behind xs start))
unfolding dealloc_checked_from dealloc_from
dealloc_checked_from-free_at s e start behind [] t = refl
dealloc_checked_from-free_at s e start behind (c ∷ cs) t = elim (Bool-cases (c.start == start)) [
  | inl h ↦
      let rest = free_at-later (s + c.size) e start cs t.2 (ground (arith, h, t)) in
      elim (Bool-cases c.free) [ inl f ↦ rw (h, f) refl | inr f ↦ rw (h, f, rest) refl ]
  | inr h ↦ rw h (dealloc_checked_from-free_at (s + c.size) e start (c ∷ behind) cs t.2)
]

free_at-append :
    (start : ℕ) (xs : List Chunk) (c : Chunk) (ys : List Chunk)
    → c.start ≡ start
    → c.free ≡ true
    → free_at start (xs ++ (c ∷ ys)) ≡ true
free_at-append start [] c ys h f =
    let same : (c.start == start) ≡ true = ground (arith, h) in rw (same, f) refl
free_at-append start (x ∷ xs) c ys h f =
    let rest = free_at-append start xs c ys h f in
    ap (λ b. ((x.start == start) && x.free) || b) rest ∙ or_true ((x.start == start) && x.free)
  where
    or_true : (b : Bool) → b || true ≡ true
    or_true true = refl
    or_true false = refl

-- In a valid state the second assertion holds.
checked-returns :
    (e : Errno) (a : Allocator) (offset : ℕ)
    → Inv a
    → free_at (offset / 32) a.list ≡ false
    → checked (dealloc_from [] a.list (offset / 32))
      ≡ returns (dealloc_from [] a.list (offset / 32))
checked-returns e a offset v h = elim (find_start (offset / 32) a.list) [
  | inl n ↦ rw (dealloc_from-none [] a.list (offset / 32) n) refl
  | inr f ↦ elim (Bool-cases f.chunk.free) [
    | inl g ↦
        let there : free_at (offset / 32) a.list ≡ true =
          rw f.here (free_at-append (offset / 32) f.before f.chunk f.after f.starts g) in
        absurd (cc (there, h))
    | inr u ↦
        let k = block e offset v f u in
        let last : get_elem? (list' v k) (length (left v k).front) ≡ some (freed_chunk v k) =
          get_elem?-append (left v k).front _ _ in
        ap checked (release_found v k offset refl)
        ∙ ap (λ o. check_freed o (list' v k, length (left v k).front)) last
        ∙ ap (λ b. if b then returns (some (list' v k, length (left v k).front)) else aborts)
            (joined_free v k)
        ∙ ap returns (sym (release_found v k offset refl))
  ]
]

-- Without a failing assertion the call is the one without assertions.
deallocated_lem :
    (e : Errno) (a : Allocator) (offset : ℕ)
    → (a.heap_size == 0) ≡ false
    → deallocated e a (returns (dealloc_from [] a.list (offset / 32)))
      ≡ returns (deallocate e offset a)
unfolding deallocate dealloc
deallocated_lem e a offset ready = elim (Option-cases (dealloc_from [] a.list (offset / 32))) [
  | inl n ↦ rw (n, ready) refl
  | inr s ↦ rw (s.1, ready) refl
]

-- In a valid state, with the fatal assertions of dealloc compiled in, deallocate aborts where a
-- free chunk starts at the unit of the offset, and else does what it does with them compiled out;
-- with them compiled out, an offset at whose unit no block handed out starts changes nothing.
pub deallocate_checked-free_at :
    (e : Errno) (a : Allocator) (offset : ℕ)
    → Inv a
    → (deallocate_checked e offset a
        ≡ (if free_at (offset / 32) a.list then aborts else returns (deallocate e offset a)))
      × (NoBlockAt (offset / 32) (used a.list) → (deallocate e offset a).1 ≡ a)
unfolding deallocate_checked
deallocate_checked-free_at e a offset v =
    let start = offset / 32 in
    let ready : (a.heap_size == 0) ≡ false = ground (arith, v.some_heap) in
    let found = dealloc_from [] a.list start in
    let decided : deallocate_checked e offset a
        ≡ deallocated e a (if free_at start a.list then aborts else checked found) =
      ap
        (λ b.
          if b
          then returns (neg e.einval, a)
          else deallocated e a (dealloc_checked_from [] a.list start))
        ready
      ∙ ap (deallocated e a) (dealloc_checked_from-free_at 0 _ start [] a.list v.tiles) in
    (
      elim (Bool-cases (free_at start a.list)) [
        | inl h ↦ decided ∙ rw h refl
        | inr h ↦
            decided
            ∙ ap (λ b. deallocated e a (if b then aborts else checked found)) h
            ∙ ap (deallocated e a) (checked-returns e a offset v h)
            ∙ deallocated_lem e a offset ready
            ∙ sym (ap (λ b. if b then aborts else returns (deallocate e offset a)) h)
      ],
      deallocate-unchanged e a offset v,
    )
