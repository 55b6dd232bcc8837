-- ===== src/Mapper/Invariant.antt =====
-- What holds of the lock word and the threads between two accesses, and what a move has to keep.
use mathlib.Core.Path.{subst}
use hardware_msm7k.Prelude.Family.{change, change_here, change_there, sum_below, sum_below-change}
use hardware_msm7k.Prelude.{
  ℕ, suc, ◌+◌, ◌-◌, ◌%◌, ◌^◌, ◌≤◌, ◌<◌, ◌≡◌, ◌≢◌, ◌⊎◌, refl, sym, ap, ◌∙◌, true, false, ◌==◌,
  ==_iff, some, arith, Bool-cases, inl, inr,
}
use hardware_msm7k.Mapper.{LockUsage, locked_word}
use hardware_msm7k.Mapper.Word.{decode}
use hardware_msm7k.Mapper.Threads.{Shared, Pc, idle, loaded, won, held, leaving, holds, writes}

abbrev pub Left : (current new : ℕ) → Type 0
Left current new =
    (0 < current % 2 ^ 30)
    × (decode new ≡ record (decode current) { writer = false; count = current % 2 ^ 30 - 1 })
    × (new < 2 ^ 32)

module _ (u : LockUsage) where
  -- What the local variables of the thread `i` say about the handle.
  abbrev pub IsFresh : Shared → ℕ → Pc → Type 0
  IsFresh m i idle = Unit {0}
  IsFresh m i (loaded usage current new) = locked_word u usage current ≡ some new
  IsFresh m i (won write) = Unit {0}
  IsFresh m i (held true) = m.owner ≡ suc i
  IsFresh m i (held false) = Unit {0}
  IsFresh m i (leaving true current new) = (m.word ≡ current) × Left current new
  IsFresh m i (leaving false current new) = Left current new

  pub record Inv (n : ℕ) (m : Shared) (pc : ℕ → Pc) : Type 0 where
    pub fits : m.word < 2 ^ 32
    pub counted : m.word % 2 ^ 30 ≡ sum_below holds pc n
    pub marked : (decode m.word).writer ≡ true → 0 < m.word % 2 ^ 30
    pub kind : (i : ℕ) → i < n → holds (pc i) ≡ 1 → (decode m.word).writer ≡ writes (pc i)
    pub single :
        (decode m.word).writer ≡ true
        → (i j : ℕ) → i < n
        → j < n
        → holds (pc i) ≡ 1
        → holds (pc j) ≡ 1
        → i ≡ j
    pub fresh : (i : ℕ) → i < n → IsFresh m i (pc i)

  pub holds-le : (p : Pc) → holds p ≤ 1
  holds-le p = ground arith

  pub writes-holds : (p : Pc) → writes p ≡ true → holds p ≡ 1
  writes-holds p h = ground arith

  -- Where a thread is no writer, its local variables do not depend on the handle.
  IsFresh-reader :
      (m m' : Shared) (i : ℕ) (p : Pc) → (writes p ≢ true) → IsFresh m i p → IsFresh m' i p
  IsFresh-reader m m' i idle w f = tt
  IsFresh-reader m m' i (loaded usage current new) w f = f
  IsFresh-reader m m' i (won write) w f = tt
  IsFresh-reader m m' i (held true) w f = absurd (w refl)
  IsFresh-reader m m' i (held false) w f = tt
  IsFresh-reader m m' i (leaving true current new) w f = absurd (w refl)
  IsFresh-reader m m' i (leaving false current new) w f = f

  module _ (n : ℕ) (m : Shared) (pc : ℕ → Pc) (inv : Inv n m pc) (i : ℕ) (mine : i < n) where
    open inv use {fits, counted, kind, single, fresh}

    -- What a move of the thread `i` to `p'` and `m'` has to keep.
    pub record Change (p' : Pc) (m' : Shared) : Type 0 where
      pub in_word : m'.word < 2 ^ 32
      pub count : m'.word % 2 ^ 30 + holds (pc i) ≡ m.word % 2 ^ 30 + holds p'
      pub in_mark : (decode m'.word).writer ≡ true → 0 < m'.word % 2 ^ 30
      pub own_kind : holds p' ≡ 1 → (decode m'.word).writer ≡ writes p'
      pub others :
          (j : ℕ)
          → j < n
          → j ≢ i
          → holds (pc j) ≡ 1
          → (decode m'.word).writer ≡ (decode m.word).writer
      pub alone :
          (decode m'.word).writer ≡ true → holds p' ≡ 1 → (j : ℕ) → j < n → j ≢ i → holds (pc j) ≢ 1
      pub own_fresh : IsFresh m' i p'
      pub quiet : (m' ≡ m) ⊎ ((j : ℕ) → j < n → j ≢ i → writes (pc j) ≢ true)

    module _ (p' : Pc) (m' : Shared) (c : Change p' m') where
      open c use {in_word, count, own_kind, others, alone, own_fresh, quiet}

      abbrev pc' : ℕ → Pc
      pc' = change pc i p'

      at_mover : pc' i ≡ p'
      at_mover = change_here pc i p'

      at_other : (j : ℕ) → j ≢ i → pc' j ≡ pc j
      at_other j d = change_there pc i j p' d

      kind' : (j : ℕ) → j < n → holds (pc' j) ≡ 1 → (decode m'.word).writer ≡ writes (pc' j)
      kind' j l h = elim (Bool-cases (j == i)) [
        | inl e ↦
            let same : j ≡ i = (==_iff j i).0 e in
            let there : pc' j ≡ p' = ap pc' same ∙ at_mover in rw there (own_kind (rw there at h))
        | inr e ↦
            let d : j ≢ i = ground (arith, e) in
            let hold : holds (pc j) ≡ 1 = rw (at_other j d) at h in
            rw (at_other j d) (others j l d hold ∙ kind j l hold)
      ]

      apart : (j : ℕ) → (j == i) ≡ false → j ≢ i
      apart j e = ground (arith, e)

      taken : (j : ℕ) → (j == i) ≡ true → holds (pc' j) ≡ 1 → holds p' ≡ 1
      taken j e h = let there : pc' j ≡ p' = ap pc' ((==_iff j i).0 e) ∙ at_mover in rw there at h

      lone :
          (decode m'.word).writer ≡ true
          → (j : ℕ) → j < n
          → j ≢ i
          → holds p' ≡ 1
          → holds (pc' j) ≢ 1
      lone w j l d h k = alone w h j l d (rw (at_other j d) at k)

      single' :
          (decode m'.word).writer ≡ true
          → (a b : ℕ) → a < n
          → b < n
          → holds (pc' a) ≡ 1
          → holds (pc' b) ≡ 1
          → a ≡ b
      single' w a b la lb ha hb = elim (Bool-cases (a == i)) [
        | inl ea ↦ elim (Bool-cases (b == i)) [
          | inl eb ↦ (==_iff a i).0 ea ∙ sym ((==_iff b i).0 eb)
          | inr eb ↦ absurd (lone w b lb (apart b eb) (taken a ea ha) hb)
        ]
        | inr ea ↦ elim (Bool-cases (b == i)) [
          | inl eb ↦ absurd (lone w a la (apart a ea) (taken b eb hb) ha)
          | inr eb ↦
              let hold : holds (pc a) ≡ 1 = rw (at_other a (apart a ea)) at ha in
              single (sym (others a la (apart a ea) hold) ∙ w) a b la lb hold
                (rw (at_other b (apart b eb)) at hb)
        ]
      ]

      fresh' : (j : ℕ) → j < n → IsFresh m' j (pc' j)
      fresh' j l = elim (Bool-cases (j == i)) [
        | inl e ↦ subst (λ k. IsFresh m' k (pc' k)) (sym ((==_iff j i).0 e)) (rw at_mover own_fresh)
        | inr e ↦ rw (at_other j (apart j e)) (elim quiet [
          | inl same ↦ subst (λ x. IsFresh x j (pc j)) (sym same) (fresh j l)
          | inr w ↦ IsFresh-reader m m' j (pc j) (w j l (apart j e)) (fresh j l)
        ])
      ]

      pub Change-Inv : Inv n m' pc'
      Change-Inv = record {
        fits = in_word;
        counted = omega (arith, count, counted, sum_below-change holds pc i p' n mine);
        marked = c.in_mark;
        kind = kind';
        single = single';
        fresh = fresh';
      }
