-- ===== src/Rpc/Ops.antt =====
-- librpc/ops.c: the wait for a device in `r_open`. Whether `stat` finds the device at each try is a
-- parameter, and `open` and the sleep itself are left out.
use hardware_msm7k.Prelude.{
  ℕ, zero, suc, ◌+◌, ◌*◌, ◌/◌, ◌≤◌, ◌<◌, ◌≡◌, sym, ap, ◌∙◌, arith, Bool, true, false, Bool-cases,
  inl, inr, if◌then◌else◌,
}

-- `SERVER_WAIT_DURATION * (1000 / POLL_INTERVAL_MS)`
abbrev pub poll_count : ℕ
poll_count = 15 * (1000 / 500)

-- The loop, from a try on and with so many sleeps left: how many times it sleeps before `open`.
unfoldable pub sleeps : (missing : ℕ → Bool) → (attempt left : ℕ) → ℕ
sleeps missing attempt zero = 0
sleeps missing attempt (suc left) =
    let rest = sleeps missing (suc attempt) left in if missing attempt then suc rest else 0

-- `r_open`
unfoldable pub r_open : (missing : ℕ → Bool) → ℕ
unfolding sleeps
r_open missing = sleeps missing 0 poll_count

-- The loop ends by the device being there or by the last sleep, and not before.
sleeps_lem :
    (missing : ℕ → Bool) (attempt left : ℕ)
    → (sleeps missing attempt left ≤ left)
      × ((j : ℕ) → j < sleeps missing attempt left → missing (attempt + j) ≡ true)
      × (sleeps missing attempt left < left
          → missing (attempt + sleeps missing attempt left) ≡ false)
unfolding sleeps
sleeps_lem missing attempt zero =
    (omega arith, λ j h. absurd (omega (arith, h)), λ h. absurd (omega (arith, h)))
sleeps_lem missing attempt (suc left) = elim (Bool-cases (missing attempt)) [
  | inl e ↦
      let rest = sleeps_lem missing (suc attempt) left in
      let n = sleeps missing (suc attempt) left in
      let move =
        λ (j : ℕ). let same : suc attempt + j ≡ attempt + suc j = omega arith in ap missing same in
      rw e (
        omega (arith, rest.0),
        sleeping missing attempt n e (λ j h. sym (move j) ∙ rest.1 j h),
        λ h. sym (move n) ∙ rest.2 (omega (arith, h)),
      )
  | inr e ↦
      let same : attempt + 0 ≡ attempt = omega arith in
      rw e (omega arith, λ j h. absurd (omega (arith, h)), λ h. rw same e)
]
  where
    sleeping :
        (missing : ℕ → Bool) (attempt n : ℕ)
        → missing attempt ≡ true
        → ((j : ℕ) → j < n → missing (attempt + suc j) ≡ true)
        → (j : ℕ) → j < suc n
        → missing (attempt + j) ≡ true
    sleeping missing attempt n e later zero h =
        let same : attempt + 0 ≡ attempt = omega arith in rw same e
    sleeping missing attempt n e later (suc j) h = later j (omega (arith, h))

-- r_open comes to its open after at most 30 sleeps, sleeps only while stat does not find the
-- device, and stops short of 30 only where stat finds it.
pub r_open_lem :
    (missing : ℕ → Bool)
    → (r_open missing ≤ 30)
      × ((j : ℕ) → j < r_open missing → missing j ≡ true)
      × (r_open missing < 30 → missing (r_open missing) ≡ false)
unfolding r_open
r_open_lem missing =
    let all = sleeps_lem missing 0 30 in
    (all.0, λ j h. rw (← plain j) (all.1 j h), λ h. rw (← plain (r_open missing)) (all.2 h))
  where
    plain : (j : ℕ) → 0 + j ≡ j
    plain j = omega arith
