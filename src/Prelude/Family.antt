-- ===== src/Prelude/Family.antt =====
-- What the threads of a system hold, by index: change at one index, and the sum over the first `n`.
use Prim.Native.Nat.{ℕ, zero, suc, ◌+◌, ◌≤◌, ◌<◌}
use mathlib.Core.Path.{◌≡◌, refl, ap}
use mathlib.Core.Logic.{◌≢◌, inl, inr}
use mathlib.Core.Bool.{true, false}
use native.Mathlib.Omega.{arith}
use hardware_msm7k.Prelude.Tests.{◌==◌, ==_iff, if◌then◌else◌, Bool-cases}

module _ {ℓ} {A : Type ℓ} where
  abbrev pub change : (ℕ → A) → ℕ → A → ℕ → A
  change f at a j = if j == at then a else f j

  pub change_here : (f : ℕ → A) (at : ℕ) (a : A) → change f at a at ≡ a
  change_here f at a = let same : (at == at) ≡ true = (==_iff at at).1 refl in rw same refl

  pub change_there : (f : ℕ → A) (at j : ℕ) (a : A) → j ≢ at → change f at a j ≡ f j
  change_there f at j a n = let other : (j == at) ≡ false = ground arith in rw other refl

  module _ (weight : A → ℕ) where
    pub sum_below : (ℕ → A) → ℕ → ℕ
    sum_below f zero = 0
    sum_below f (suc n) = weight (f n) + sum_below f n

    sum_below-outside :
        (f : ℕ → A) (at : ℕ) (a : A) (n : ℕ) → n ≤ at → sum_below (change f at a) n ≡ sum_below f n
    unfolding sum_below
    sum_below-outside f at a zero h = refl
    sum_below-outside f at a (suc n) h =
        let below : n ≢ at = omega (arith, h) in
        let same = ap weight (change_there f at n a below) in
        omega (arith, same, sum_below-outside f at a n (omega (arith, h)))

    pub sum_below-change :
        (f : ℕ → A) (at : ℕ) (a : A) (n : ℕ)
        → at < n
        → weight (f at) + sum_below (change f at a) n ≡ weight a + sum_below f n
    unfolding sum_below
    sum_below-change f at a zero h = absurd (omega (arith, h))
    sum_below-change f at a (suc n) h = elim (Bool-cases (n == at)) [
      | inl e ↦
          let same : n ≡ at = (==_iff n at).0 e in
          let here : weight (change f at a n) ≡ weight a = ap weight (rw e refl) in
          let old : weight (f n) ≡ weight (f at) = ap (λ j. weight (f j)) same in
          omega (arith, here, old, sum_below-outside f at a n (omega (arith, same)))
      | inr e ↦
          let there : weight (change f at a n) ≡ weight (f n) = ap weight (rw e refl) in
          let before : at < n = ground (arith, h, e) in
          omega (arith, there, sum_below-change f at a n before)
    ]

    pub weight-le_sum : (f : ℕ → A) (n j : ℕ) → j < n → weight (f j) ≤ sum_below f n
    unfolding sum_below
    weight-le_sum f zero j h = absurd (omega (arith, h))
    weight-le_sum f (suc n) j h = elim (Bool-cases (n == j)) [
      | inl e ↦ let same = ap (λ k. weight (f k)) ((==_iff n j).0 e) in omega (arith, same)
      | inr e ↦
          let before : j < n = ground (arith, h, e) in omega (arith, weight-le_sum f n j before)
    ]

    pub sum_below-le : ((a : A) → weight a ≤ 1) → (f : ℕ → A) (n : ℕ) → sum_below f n ≤ n
    unfolding sum_below
    sum_below-le small f zero = omega arith
    sum_below-le small f (suc n) = omega (arith, small (f n), sum_below-le small f n)

    pub sum_below-zero :
        (f : ℕ → A) (n : ℕ) → ((j : ℕ) → j < n → weight (f j) ≡ 0) → sum_below f n ≡ 0
    unfolding sum_below
    sum_below-zero f zero h = refl
    sum_below-zero f (suc n) h =
        omega (arith, h n (omega arith), sum_below-zero f n (λ j l. h j (omega (arith, l))))
