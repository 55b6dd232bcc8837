-- ===== src/Rpc/Memory.antt =====
-- librpc: bytes that are stored in a message and read again.
use mathlib.Core.List.{head-eq_of_cons-eq, tail-eq_of_cons-eq}
use hardware_msm7k.Prelude.Family.{change, change_here, change_there}
use hardware_msm7k.Prelude.{
  ℕ, zero, suc, ◌+◌, ◌^◌, ◌≤◌, ◌<◌, ◌≡◌, refl, ◌∙◌, arith, List, [], ◌∷◌, ◌++◌, length,
}
use hardware_msm7k.Rpc.{word_bytes, load_word, put_bytes, get_bytes}

-- What lies in front of the bytes that are stored stays.
pub put_bytes_below :
    (bs : List ℕ) (at : ℕ) (m : ℕ → ℕ) (j : ℕ) → j < at → put_bytes bs at m j ≡ m j
unfolding put_bytes
put_bytes_below [] at m j h = refl
put_bytes_below (b ∷ bs) at m j h =
    put_bytes_below bs (suc at) (change m at b) j (omega (arith, h))
    ∙ change_there m at j b (omega (arith, h))

pub put_bytes_above :
    (bs : List ℕ) (at : ℕ) (m : ℕ → ℕ) (j : ℕ) → at + length bs ≤ j → put_bytes bs at m j ≡ m j
unfolding put_bytes
put_bytes_above [] at m j h = refl
put_bytes_above (b ∷ bs) at m j h =
    put_bytes_above bs (suc at) (change m at b) j (omega (arith, h))
    ∙ change_there m at j b (omega (arith, h))

pub get_bytes-agree :
    (f g : ℕ → ℕ) (n at : ℕ)
    → ((j : ℕ) → at ≤ j → j < at + n → f j ≡ g j)
    → get_bytes f n at ≡ get_bytes g n at
unfolding get_bytes
get_bytes-agree f g zero at h = refl
get_bytes-agree f g (suc n) at h =
    rw
      (
        h at (omega arith) (omega arith),
        get_bytes-agree f g n (suc at) (λ j lo hi. h j (omega (arith, lo)) (omega (arith, hi))),
      )
      refl

-- What was stored is read again.
pub get_bytes-put_bytes :
    (bs : List ℕ) (at : ℕ) (m : ℕ → ℕ) → get_bytes (put_bytes bs at m) (length bs) at ≡ bs
unfolding put_bytes get_bytes
get_bytes-put_bytes [] at m = refl
get_bytes-put_bytes (b ∷ bs) at m =
    rw
      (
        put_bytes_below bs (suc at) (change m at b) at (omega arith),
        change_here m at b,
        get_bytes-put_bytes bs (suc at) (change m at b),
      )
      refl

pub put_bytes-append :
    (bs cs : List ℕ) (at : ℕ) (m : ℕ → ℕ)
    → put_bytes cs (at + length bs) (put_bytes bs at m) ≡ put_bytes (bs ++ cs) at m
unfolding put_bytes
put_bytes-append [] cs at m = let none : at + 0 ≡ at = omega arith in rw none refl
put_bytes-append (b ∷ bs) cs at m =
    let moved : at + suc (length bs) ≡ suc at + length bs = omega arith in
    rw moved (put_bytes-append bs cs (suc at) (change m at b))

-- Bytes that lie in memory, as two parts.
pub get_bytes-append :
    (bs cs : List ℕ) (m : ℕ → ℕ) (at : ℕ)
    → get_bytes m (length (bs ++ cs)) at ≡ bs ++ cs
    → (get_bytes m (length bs) at ≡ bs) × (get_bytes m (length cs) (at + length bs) ≡ cs)
unfolding get_bytes
get_bytes-append [] cs m at h = let none : at + 0 ≡ at = omega arith in (refl, rw none h)
get_bytes-append (b ∷ bs) cs m at h =
    let rest = get_bytes-append bs cs m (suc at) (tail-eq_of_cons-eq h) in
    let moved : at + suc (length bs) ≡ suc at + length bs = omega arith in
    (rw (head-eq_of_cons-eq h, rest.0) refl, rw moved rest.1)

-- Words of the same bytes are the same.
pub load_word-agree :
    (f g : ℕ → ℕ) (p q : ℕ) → get_bytes f 4 p ≡ get_bytes g 4 q → load_word f p ≡ load_word g q
unfolding get_bytes
load_word-agree f g p q h =
    let h1 = tail-eq_of_cons-eq h in
    let h2 = tail-eq_of_cons-eq h1 in
    let h3 = tail-eq_of_cons-eq h2 in
    rw (head-eq_of_cons-eq h, head-eq_of_cons-eq h1, head-eq_of_cons-eq h2, head-eq_of_cons-eq h3)
      refl

-- A word that lies in memory is loaded.
module _ (v : ℕ) (m : ℕ → ℕ) (at : ℕ) (bound : v < 2 ^ 32) where
  pub load_word-word_bytes : get_bytes m 4 at ≡ word_bytes v → load_word m at ≡ v
  unfolding get_bytes
  load_word-word_bytes h =
      let h1 = tail-eq_of_cons-eq h in
      let h2 = tail-eq_of_cons-eq h1 in
      let h3 = tail-eq_of_cons-eq h2 in
      rw (head-eq_of_cons-eq h, head-eq_of_cons-eq h1, head-eq_of_cons-eq h2, head-eq_of_cons-eq h3)
        (omega (arith, bound))
