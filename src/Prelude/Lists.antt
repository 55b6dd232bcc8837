-- ===== src/Prelude/Lists.antt =====
-- Lists measured and indexed by native numbers, under the library's names, and a walk back over
-- the nodes that a cursor has passed.
use Prim.Native.Nat.{ℕ, zero, suc, ◌+◌}
use mathlib.Core.Path.{◌≡◌, refl, ap}
use mathlib.Core.List.{List, [], ◌∷◌, ◌++◌}
use mathlib.Core.Option.{Option, none, some}
use native.Mathlib.Omega.{arith}

module _ {ℓ} {A : Type ℓ} where
  abbrev pub length : List A → ℕ
  length [] = 0
  length (x ∷ xs) = suc (length xs)

  abbrev pub get_elem? : List A → ℕ → Option A
  get_elem? [] i = none
  get_elem? (x ∷ xs) zero = some x
  get_elem? (x ∷ xs) (suc i) = get_elem? xs i

  -- Replaces the element at an index by a list; out of range nothing changes.
  abbrev pub splice : List A → ℕ → List A → List A
  splice [] i ys = []
  splice (x ∷ xs) zero ys = ys ++ xs
  splice (x ∷ xs) (suc i) ys = x ∷ splice xs i ys

  -- The list whose front is `left`, nearest element first, and whose rest is `right`.
  abbrev pub rejoin : List A → List A → List A
  rejoin [] right = right
  rejoin (x ∷ left) right = rejoin left (x ∷ right)

  pub length-append : (xs ys : List A) → length (xs ++ ys) ≡ length xs + length ys
  length-append [] ys = omega arith
  length-append (x ∷ xs) ys = omega (arith, length-append xs ys)

  pub splice-append :
      (xs : List A) (x : A) (ys zs : List A)
      → splice (xs ++ (x ∷ ys)) (length xs) zs ≡ xs ++ (zs ++ ys)
  splice-append [] x ys zs = refl
  splice-append (y ∷ xs) x ys zs = ap (◌∷◌ y) (splice-append xs x ys zs)

  -- The same at a list and a position that are known by equations.
  pub splice_at :
      (l xs : List A) (x : A) (ys zs : List A) (i : ℕ)
      → l ≡ xs ++ (x ∷ ys)
      → i ≡ length xs
      → splice l i zs ≡ xs ++ (zs ++ ys)
  splice_at l xs x ys zs i e f = rw (e, f) (splice-append xs x ys zs)

  pub get_elem?-append :
      (xs : List A) (x : A) (ys : List A) → get_elem? (xs ++ (x ∷ ys)) (length xs) ≡ some x
  get_elem?-append [] x ys = refl
  get_elem?-append (y ∷ xs) x ys = get_elem?-append xs x ys

  -- Walking over `xs` puts it in front of what lies behind the cursor, and walking back undoes it.
  pub rejoin-rejoin : (xs l ys : List A) → rejoin (rejoin xs l) ys ≡ rejoin l (xs ++ ys)
  rejoin-rejoin [] l ys = refl
  rejoin-rejoin (x ∷ xs) l ys = rejoin-rejoin xs (x ∷ l) ys

  pub rejoin-append : (xs ys l : List A) → rejoin (xs ++ ys) l ≡ rejoin ys (rejoin xs l)
  rejoin-append [] ys l = refl
  rejoin-append (x ∷ xs) ys l = rejoin-append xs ys (x ∷ l)

  pub length-rejoin : (xs l : List A) → length (rejoin xs l) ≡ length xs + length l
  length-rejoin [] l = omega arith
  length-rejoin (x ∷ xs) l = omega (arith, length-rejoin xs (x ∷ l))

  -- The list with one element, or none.
  abbrev pub opt_list : Option A → List A
  opt_list none = []
  opt_list (some x) = x ∷ []
