-- ===== src/Allocator/Search.antt =====
-- The search loop of `alloc`: it returns a chunk of the list that fits, a smallest one, and it
-- returns none only where none fits.
use hardware_msm7k.Prelude.{
  ℕ, ◌+◌, ◌≤◌, ◌≡◌, ◌⊎◌, inl, inr, true, false, Option, none, some, List, [], ◌∷◌, ◌++◌, arith,
  length, Bool-cases, ◌&&◌, ◌==◌,
}
use native.Mathlib.Nat.{le_trans, le_refl}
use hardware_msm7k.Allocator.{Chunk, fits, is_better, choose, find_best}

-- The chunk `c` stands at position `j` of a list that starts at position `i`, and fits.
pub record FoundAt (page size i j : ℕ) (c : Chunk) (xs : List Chunk) : Type 0 where
  pub before : List Chunk
  pub after : List Chunk
  pub here : xs ≡ before ++ (c ∷ after)
  pub position : j ≡ i + length before
  pub suits : fits page size c ≡ true

module _ (page size : ℕ) where
  FoundAt-cons :
      (i j : ℕ) (c x : Chunk) (xs : List Chunk)
      → FoundAt page size (i + 1) j c xs
      → FoundAt page size i j c (x ∷ xs)
  FoundAt-cons i j c x xs f = record {
    before = x ∷ f.before;
    after = f.after;
    here = ground arith;
    position = omega (arith, f.position);
    suits = f.suits;
  }

  choose-FoundAt :
      (i : ℕ) (best : Option (ℕ × Chunk)) (x : Chunk) (xs : List Chunk) (j : ℕ) (c : Chunk)
      → choose page size i best x ≡ some (j, c)
      → (best ≡ some (j, c)) ⊎ FoundAt page size i j c (x ∷ xs)
  choose-FoundAt i best x xs j c e = elim (Bool-cases (fits page size x && is_better x best)) [
    | inl t ↦ inr (record {
      before = [];
      after = xs;
      here = ground arith;
      position = ground arith;
      suits = ground arith;
    })
    | inr f ↦ inl (rw f at e)
  ]

  -- What the search returns is the chunk that it started with, or one of the list that fits.
  pub find_best-FoundAt :
      (i : ℕ) (best : Option (ℕ × Chunk)) (xs : List Chunk) (j : ℕ) (c : Chunk)
      → find_best page size i best xs ≡ some (j, c)
      → (best ≡ some (j, c)) ⊎ FoundAt page size i j c xs
  unfolding find_best
  find_best-FoundAt i best [] j c e = inl e
  find_best-FoundAt i best (x ∷ xs) j c e =
      elim (Bool-cases (fits page size x && (x.size == size))) [
        | inl t ↦ choose-FoundAt i best x xs j c (rw t at e)
        | inr f ↦ elim (find_best-FoundAt (i + 1) (choose page size i best x) xs j c (rw f at e)) [
          | inl g ↦ choose-FoundAt i best x xs j c g
          | inr g ↦ inr (FoundAt-cons i j c x xs g)
        ]
      ]

  -- No chunk fits.
  abbrev pub NoneFits : List Chunk → Type 0
  NoneFits [] = Unit
  NoneFits (c ∷ cs) = (fits page size c ≡ false) × NoneFits cs

  choose-none :
      (i : ℕ) (best : Option (ℕ × Chunk)) (x : Chunk)
      → choose page size i best x ≡ none
      → (best ≡ none) × (fits page size x ≡ false)
  choose-none i best x e = ground arith

  -- The search returns no chunk only where it started with none, and no chunk of the list fits.
  pub find_best-NoneFits :
      (i : ℕ) (best : Option (ℕ × Chunk)) (xs : List Chunk)
      → find_best page size i best xs ≡ none
      → (best ≡ none) × NoneFits xs
  unfolding find_best
  find_best-NoneFits i best [] e = (e, tt)
  find_best-NoneFits i best (x ∷ xs) e =
      ground
        (arith, choose-none i best x, find_best-NoneFits (i + 1) (choose page size i best x) xs)

  -- No fitting chunk is smaller than `n`.
  abbrev pub AtLeast : ℕ → List Chunk → Type 0
  AtLeast n [] = Unit
  AtLeast n (c ∷ cs) = (fits page size c ≡ true → n ≤ c.size) × AtLeast n cs

  AtLeast-mono : (m n : ℕ) (xs : List Chunk) → m ≤ n → AtLeast n xs → AtLeast m xs
  AtLeast-mono m n [] h a = tt
  AtLeast-mono m n (x ∷ xs) h a = ((λ ok. le_trans h (a.0 ok)), AtLeast-mono m n xs h a.1)

  -- The chunk found so far, if any, has at least `n` units.
  abbrev Bounds : ℕ → Option (ℕ × Chunk) → Type 0
  Bounds n none = Unit
  Bounds n (some (k, b)) = n ≤ b.size

  choose-Bounds :
      (n i : ℕ) (best : Option (ℕ × Chunk)) (x : Chunk)
      → (fits page size x ≡ true → n ≤ x.size)
      → Bounds n best
      → Bounds n (choose page size i best x)
  choose-Bounds n i none x h b = ground arith
  choose-Bounds n i (some (k, c)) x h b = ground arith

  Bounds-choose :
      (n i : ℕ) (best : Option (ℕ × Chunk)) (x : Chunk)
      → Bounds n (choose page size i best x)
      → Bounds n best × (fits page size x ≡ true → n ≤ x.size)
  Bounds-choose n i none x b = ground arith
  Bounds-choose n i (some (k, c)) x b = ground arith

  Bounds-of_eq :
      (j : ℕ) (c : Chunk) (best : Option (ℕ × Chunk)) → best ≡ some (j, c) → Bounds c.size best
  Bounds-of_eq j c best e = rw e (le_refl c.size)

  find_best-Bounds :
      (i : ℕ) (best : Option (ℕ × Chunk)) (xs : List Chunk) (j : ℕ) (c : Chunk)
      → AtLeast size xs
      → Bounds size best
      → find_best page size i best xs ≡ some (j, c)
      → Bounds c.size best × AtLeast c.size xs
  unfolding find_best
  find_best-Bounds i best [] j c a b e = (Bounds-of_eq j c best e, tt)
  find_best-Bounds i best (x ∷ xs) j c a b e =
      elim (Bool-cases (fits page size x && (x.size == size))) [
        | inl t ↦
            let g = Bounds-choose c.size i best x (Bounds-of_eq j c _ (rw t at e)) in
            (g.0, (g.1, AtLeast-mono c.size size xs (ground (arith, g)) a.1))
        | inr f ↦
            let r =
              find_best-Bounds (i + 1) (choose page size i best x) xs j c a.1
                (choose-Bounds size i best x a.0 b) (rw f at e) in
            let g = Bounds-choose c.size i best x r.0 in (g.0, (g.1, r.1))
      ]

  -- The chunk returned is a smallest of those that fit.
  pub find_best-AtLeast :
      (xs : List Chunk) (j : ℕ) (c : Chunk)
      → AtLeast size xs
      → find_best page size 0 none xs ≡ some (j, c)
      → AtLeast c.size xs
  find_best-AtLeast xs j c a e = (find_best-Bounds 0 none xs j c a tt e).1
