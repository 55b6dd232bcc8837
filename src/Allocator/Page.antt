-- ===== src/Allocator/Page.antt =====
-- What the allocator relies on of `getpagesize()`: a power of two, a multiple of `kMemoryAlign`.
use hardware_msm7k.Prelude.{ℕ, suc, ◌+◌, ◌-◌, ◌*◌, ◌/◌, ◌%◌, ◌^◌, ◌≤◌, ◌<◌, ◌≡◌, ◌∙◌, sym, arith}
use hardware_msm7k.Prelude.Words.{align32, padding32, align32_lem, le_product, padding32_lem}
use native.Mathlib.Nat.{pow-succ', one-le-pow, mod-add-div, mul-mod_left}

pub record IsPageSize (page : ℕ) : Type 0 where
  pub exponent : ℕ
  pub rest : ℕ
  pub power : page ≡ 32 * 2 ^ exponent
  pub in_word : 2 ^ rest * 2 ^ exponent ≡ 2 ^ 27

pow_five : (k : ℕ) → 2 ^ suc (suc (suc (suc (suc k)))) ≡ 32 * 2 ^ k
pow_five k = omega (
  arith,
  pow-succ' 2 k,
  pow-succ' 2 (suc k),
  pow-succ' 2 (suc (suc k)),
  pow-succ' 2 (suc (suc (suc k))),
  pow-succ' 2 (suc (suc (suc (suc k)))),
)

whole_pages : (x n : ℕ) → x % n ≡ 0 → x * 32 % (32 * n) ≡ 0
whole_pages x n h =
    let e : x * 32 ≡ x / n * (32 * n) = omega (arith, mod-add-div x n, h) in
    rw e (mul-mod_left (x / n) (32 * n))

module _ {page : ℕ} (p : IsPageSize page) where
  open p use {exponent, rest, power, in_word}

  full_units : 2 ^ suc (suc (suc (suc (suc rest)))) * 2 ^ exponent ≡ 2 ^ 32
  full_units = rw pow_five (omega (arith, in_word))

  full_bytes : 2 ^ rest * 2 ^ suc (suc (suc (suc (suc exponent)))) ≡ 2 ^ 32
  full_bytes = rw pow_five (omega (arith, in_word))

  pub page_units : page / 32 ≡ 2 ^ exponent
  page_units = omega (arith, power)

  pub page_units-le : page / 32 ≤ 2 ^ 27
  page_units-le =
      rw page_units (le_product (2 ^ rest) _ (2 ^ 27) (one-le-pow rest 2 (omega arith)) in_word)

  pub page_pos : 0 < page
  page_pos = omega (arith, power, one-le-pow exponent 2)

  pub page_le : 32 ≤ page
  page_le = omega (arith, power, one-le-pow exponent 2)

  -- Rounding up to a page.
  pub align_page : (x : ℕ) → x + page ≤ 2 ^ 32 → align32 x page ≡ (x + page - 1) / page * page
  align_page x h =
      let q : page ≡ 2 ^ suc (suc (suc (suc (suc exponent)))) = power ∙ sym (pow_five exponent) in
      rw q (align32_lem _ rest full_bytes x (rw (← q) h))

  -- The distance to the next page boundary, in units.
  pub padding_page :
      (x : ℕ)
      → x < 2 ^ 32
      → (padding32 x (page / 32) < page / 32) × ((x + padding32 x (page / 32)) % (page / 32) ≡ 0)
  padding_page x h = rw page_units (padding32_lem exponent _ full_units x h)

  -- A start on a page boundary in units is one in bytes.
  pub page_offset : (x : ℕ) → x % (page / 32) ≡ 0 → x * 32 % page ≡ 0
  page_offset x h = rw power (whole_pages x (2 ^ exponent) (rw page_units at h))
