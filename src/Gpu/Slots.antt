-- ===== src/Gpu/Slots.antt =====
-- The slots of the framebuffer, which `bufferMask` keeps count of.
use hardware_msm7k.Prelude.Words.{add32, not32}
use hardware_msm7k.Prelude.Masks.{bit_or_disjoint, clear_mask, bit_value}
use hardware_msm7k.Prelude.{
  ℕ, zero, suc, ◌+◌, ◌*◌, ◌/◌, ◌%◌, ◌^◌, ◌≤◌, ◌<◌, ◌≡◌, ◌≢◌, inl, inr, refl, ap, ◌∙◌, true, false,
  bit_and, bit_or, ◌==◌, ==_iff, Bool-cases, arith,
}
use hardware_msm7k.Gpu.Buffers.{bit32, find_slot}
use native.Mathlib.Nat.{
  pow-succ', one-le-pow, mod-add-div, add-div_right, pow-le-pow_right, mod-eq_of_lt,
  mul-add-mod_self_left, mod-lt, suc-mul, mul-le-mul_right,
}

-- `1 << i` does not wrap below 32.
pub two-pow-lt : (i : ℕ) → i < 32 → 2 ^ i < 2 ^ 32
two-pow-lt i h =
    let top : 2 ^ i ≤ 2 ^ 31 = pow-le-pow_right (omega arith) {j = 31} (omega (arith, h)) in
    omega (arith, top)

pub bit32_lem : (i : ℕ) → i < 32 → bit32 i ≡ 2 ^ i
bit32_lem i h = mod-eq_of_lt (two-pow-lt i h)

digit_split : (m p : ℕ) → 0 < p → m / p % 2 ≡ 1 → m % (2 * p) ≡ m % p + p
digit_split m p h d =
    let odd : m / p ≡ m / p / 2 * 2 + 1 = omega (arith, d) in
    let whole : m ≡ 2 * p * (m / p / 2) + (m % p + p) =
      grind (arith, mod-add-div m p, ap (λ (t : ℕ). p * t) odd) in
    ap (λ t. t % (2 * p)) whole
    ∙ mul-add-mod_self_left (2 * p) (m / p / 2) (m % p + p)
    ∙ mod-eq_of_lt (omega (arith, mod-lt m h))

low_step : (i m : ℕ) → m % 2 ^ i + 1 ≡ 2 ^ i → bit_and m (2 ^ i) ≢ 0 → m % 2 ^ suc i + 1 ≡ 2 ^ suc i
low_step i m h n =
    let digit : m / 2 ^ i % 2 ≡ 1 = ground (arith, bit_value i m) in
    omega (
      arith,
      digit_split m (2 ^ i) (one-le-pow i 2 (omega arith)) digit,
      pow-succ' 2 i,
      ap (λ t. m % t) (pow-succ' 2 i),
    )

-- The slot that a search found, counted from `base`: it lies below `n`, it was free and those below
-- it were not, and it is taken now.
pub record Taken (size mask n base : ℕ) (result : ℕ × ℕ) : Type 0 where
  pub index : ℕ
  pub below : index < n
  pub was_free : bit_and mask (2 ^ index) ≡ 0
  pub others_taken : (j : ℕ) → j < index → bit_and mask (2 ^ j) ≢ 0
  pub marked : result.0 ≡ bit_or mask (2 ^ index)
  pub address : result.1 ≡ base + index * size

-- Slots below `i` are taken.
abbrev TakenBelow : ℕ → ℕ → Type 0
TakenBelow mask i = (j : ℕ) → j < i → bit_and mask (2 ^ j) ≢ 0

TakenBelow-suc :
    (mask i : ℕ) → TakenBelow mask i → bit_and mask (2 ^ i) ≢ 0 → TakenBelow mask (suc i)
TakenBelow-suc mask i h n j l = elim (Bool-cases (j == i)) [
  | inl q ↦ let same : j ≡ i = (==_iff j i).0 q in rw same n
  | inr q ↦ h j (ground (arith, l, q))
]

TakenBelow-low : (mask i : ℕ) → TakenBelow mask i → mask % 2 ^ i + 1 ≡ 2 ^ i
TakenBelow-low mask zero h = omega arith
TakenBelow-low mask (suc i) h =
    low_step i mask (TakenBelow-low mask i (λ j l. h j (omega (arith, l)))) (h i (omega arith))

bit_free : (mask : ℕ) {b p : ℕ} → b ≡ p → (bit_and mask b == 0) ≡ true → bit_and mask p ≡ 0
bit_free mask {b} {p} e q = rw e at ((==_iff (bit_and mask b) 0).0 q)

bit_taken : (mask : ℕ) {b p : ℕ} → b ≡ p → (bit_and mask b == 0) ≡ false → bit_and mask p ≢ 0
bit_taken mask {b} {p} e q z = let zero_b : bit_and mask b ≡ 0 = rw e z in ground (arith, q, zero_b)

module _ (size mask base : ℕ) where
  find_slot-Taken_from :
      (n i vaddr total : ℕ)
      → n + i ≡ total
      → total < 32
      → mask + 1 < 2 ^ total
      → base + total * size < 2 ^ 32
      → vaddr ≡ base + i * size
      → TakenBelow mask i
      → Taken size mask total base (find_slot size mask n i vaddr)
  unfolding find_slot
  find_slot-Taken_from zero i vaddr total t few room fits v h =
      let same : i ≡ total = omega (arith, t) in
      let low : mask % 2 ^ total + 1 ≡ 2 ^ total = rw (← same) (TakenBelow-low mask i h) in
      let plain : mask % 2 ^ total ≡ mask = mod-eq_of_lt (omega (arith, room)) in
      absurd (omega (arith, room, low, plain))
  find_slot-Taken_from (suc n) i vaddr total t few room fits v h =
      elim (Bool-cases (bit_and mask (bit32 i) == 0)) [
        | inl q ↦
            rw (q, bit32_lem i (omega (arith, t, few)))
              (record {
                index = i;
                below = omega (arith, t);
                was_free = bit_free mask (bit32_lem i (omega (arith, t, few))) q;
                others_taken = h;
                marked = refl;
                address = v;
              })
        | inr q ↦ rw q (
            find_slot-Taken_from n (suc i) (add32 vaddr size) total (omega (arith, t)) few room fits
              (next (omega (arith, t)))
              (TakenBelow-suc mask i h (bit_taken mask (bit32_lem i (omega (arith, t, few))) q)))
      ]
    where
      next : suc i ≤ total → add32 vaddr size ≡ base + suc i * size
      next l = omega (arith, v, fits, suc-mul i size, mul-le-mul_right size l)

-- With room in the mask the search finds a slot.
pub find_slot-Taken :
    (size mask base n : ℕ)
    → n < 32
    → mask + 1 < 2 ^ n
    → base + n * size < 2 ^ 32
    → Taken size mask n base (find_slot size mask n 0 base)
find_slot-Taken size mask base n few room fits =
    find_slot-Taken_from size mask base n 0 base n (omega arith) few room fits (omega arith)
      (λ j l. absurd (omega (arith, l)))

-- Clearing the bit of a slot that was taken gives the mask back.
pub give_back :
    (mask i : ℕ)
    → i < 32
    → mask + 2 ^ i < 2 ^ 32
    → bit_and mask (2 ^ i) ≡ 0
    → bit_and (bit_or mask (2 ^ i)) (not32 (2 ^ i)) ≡ mask
give_back mask i h l f =
    let sum : bit_or mask (2 ^ i) ≡ mask + 2 ^ i = bit_or_disjoint mask (2 ^ i) f in
    let digit : (mask + 2 ^ i) / 2 ^ i ≡ mask / 2 ^ i + 1 =
      add-div_right mask (one-le-pow i 2 (omega arith)) in
    let even : mask / 2 ^ i % 2 ≡ 0 = ground (arith, f, bit_value i mask, one-le-pow i 2) in
    let odd : (mask + 2 ^ i) / 2 ^ i % 2 ≡ 1 = omega (arith, digit, even) in
    let both : bit_and (mask + 2 ^ i) (2 ^ i) ≡ 2 ^ i =
      bit_value i (mask + 2 ^ i) ∙ ap (λ t. t * 2 ^ i) odd ∙ omega arith in
    rw sum (omega (arith, both, clear_mask (mask + 2 ^ i) (2 ^ i) l (two-pow-lt i h)))
