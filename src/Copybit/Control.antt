-- ===== src/Copybit/Control.antt =====
-- The parameters and the opening of the device.
use hardware_msm7k.Prelude.Int.{ℤ, pos, negsuc, neg, neg-is_neg, is_neg, is_zero, magnitude}
use hardware_msm7k.Prelude.{
  ℕ, zero, suc, ◌%◌, ◌^◌, ◌<◌, ◌≡◌, ◌⊎◌, inl, inr, refl, Bool, true, false, ◌==◌, leb,
  if◌then◌else◌, Option, none, some, List, [], ◌∷◌, arith, Bool-cases,
}
use hardware_msm7k.Errno.{Errno}
use hardware_msm7k.Copybit.{FlagBits, Context}
use hardware_msm7k.Copybit.Settings.{
  Names, set_rotation, clamp_alpha, switch, set_on, set_parameter_copybit, Screen, open_status,
  open_copybit,
}

-- The fields fit the types that the source gives them.
pub record Fits (ctx : Context) : Type 0 where
  pub alpha : ctx.alpha < 256
  pub flags : ctx.flags < 256

-- The result of setting a parameter on `ctx`.
pub record Settled (e : Errno) (ctx : Context) (result : ℤ × Context) : Type 0 where
  pub same_file : result.1.fd ≡ ctx.fd
  pub fits : Fits result.1
  pub outcome : (result.0 ≡ pos 0) ⊎ ((result.0 ≡ neg e.einval) × (result.1 ≡ ctx))

settled :
    (e : Errno) (ctx after : Context)
    → after.fd ≡ ctx.fd
    → Fits after
    → Settled e ctx (pos 0, after)
settled e ctx after s f = record { same_file = s; fits = f; outcome = inl refl }

refused : (e : Errno) (ctx : Context) → Fits ctx → Settled e ctx (neg e.einval, ctx)
refused e ctx f = record { same_file = refl; fits = f; outcome = inr (refl, refl) }

Settled-if :
    (e : Errno) (ctx : Context) (b : Bool) (x y : ℤ × Context)
    → Settled e ctx x
    → Settled e ctx y
    → Settled e ctx (if b then x else y)
Settled-if e ctx true x y h k = h
Settled-if e ctx false x y h k = k

module _ (e : Errno) (k : FlagBits) (n : Names) (ctx : Context) (fits : Fits ctx) where
  with_flags : (flags : ℕ) → flags < 256 → Settled e ctx (pos 0, record ctx { flags = flags })
  with_flags flags h = settled e ctx _ refl (record { alpha = fits.alpha; flags = h })

  set_rotation-Settled : (value : ℕ) → Settled e ctx (set_rotation e k ctx value)
  unfolding set_rotation
  set_rotation-Settled value = Settled-if e ctx (value == 0) _ _ (with_flags _ (omega arith)) (
      Settled-if e ctx (value == 90) _ _ (with_flags _ (omega arith)) (
        Settled-if e ctx (value == 180) _ _ (with_flags _ (omega arith))
          (Settled-if e ctx (value == 270) _ _ (with_flags _ (omega arith)) (refused e ctx fits))))

  switch-Settled : (flag value : ℕ) → Settled e ctx (pos 0, switch n flag ctx value)
  unfolding switch
  switch-Settled flag value = elim (Bool-cases (value == n.enable)) [
    | inl p ↦ rw p (with_flags _ (omega arith))
    | inr p ↦ elim (Bool-cases (value == n.disable)) [
      | inl q ↦ rw (p, q) (with_flags _ (omega arith))
      | inr q ↦ rw (p, q) (settled e ctx ctx refl fits)
    ]
  ]

  clamp_alpha-lt : (value : ℕ) → clamp_alpha value < 256
  unfolding clamp_alpha
  clamp_alpha-lt value = omega arith

  set_on-Settled : (name value : ℕ) → Settled e ctx (set_on e k n ctx name value)
  unfolding set_on
  set_on-Settled name value =
      Settled-if e ctx (name == n.rotation_deg) _ _ (set_rotation-Settled value) (
        Settled-if e ctx (name == n.plane_alpha) _ _
          (settled e ctx _ refl (record { alpha = clamp_alpha-lt value; flags = fits.flags }))
          (Settled-if e ctx (name == n.dither) _ _ (switch-Settled k.mdp_dither value) (
            Settled-if e ctx (name == n.blur) _ _ (switch-Settled k.mdp_blur value) (
              Settled-if e ctx (name == n.transform) _ _ (with_flags _ (omega arith))
                (refused e ctx fits)))))

  -- Setting a parameter of a device whose fields are below 256 keeps them below 256 and the file
  -- as it was, and either returns 0, or returns the error for an invalid argument and changes
  -- nothing, for every parameter and value.
  pub set_parameter_copybit-Settled :
      (name value : ℕ)
      → (result : ℤ × Context) × (set_parameter_copybit e k n (some ctx) name value
          ≡ (result.0, some result.1))
        × Settled e ctx result
  unfolding set_parameter_copybit
  set_parameter_copybit-Settled name value =
      (set_on e k n ctx name value, refl, set_on-Settled name value)

-- A plane alpha is clamped: what lies in 0 to 255 is stored as it is, a negative int as 0, and a
-- larger one as 255.
pub clamp_alpha_lem :
    (value : ℕ)
    → value < 2 ^ 32
    → clamp_alpha value ≡ (if leb value 255 then value else if leb (2 ^ 31) value then 0 else 255)
unfolding clamp_alpha
clamp_alpha_lem value h = ground arith

-- What `open_copybit` leaves: a device on the file that was opened, which stays open, or none, and
-- then whatever was opened is closed.
pub data Opened (k : FlagBits) (s : Screen) : ℤ × Option Context × List ℤ → Type 0 where
  ready :
      is_neg s.opened ≡ false
      → s.is_msmfb ≡ true
      → Opened k s (
        pos 0,
        some (record { fd = magnitude s.opened; alpha = k.mdp_alpha_nop % 2 ^ 8; flags = 0 }),
        [],
      )
  failed : (status : ℤ) → is_neg status ≡ true → Opened k s (status, none, s.opened ∷ [])

Opened-of_status :
    (k : FlagBits) (s : Screen) (status : ℤ)
    → ((status ≡ pos 0) × (is_neg s.opened ≡ false) × (s.is_msmfb ≡ true)) ⊎ (is_neg status ≡ true)
    → Opened k s (
        if is_zero status
        then (
          status,
          some (record { fd = magnitude s.opened; alpha = k.mdp_alpha_nop % 2 ^ 8; flags = 0 }),
          [],
        )
        else (status, none, s.opened ∷ []))
Opened-of_status k s (pos zero) (inl (e, a, b)) = ready a b
Opened-of_status k s (pos (suc n)) (inl (e, a, b)) = absurd (cc e)
Opened-of_status k s (negsuc n) h = failed (negsuc n) refl
Opened-of_status k s (pos n) (inr h) = absurd (cc h)

open_status_cases :
    (e : Errno) (s : Screen)
    → (0 < s.open_errno) × (0 < s.info_errno)
    → ((open_status e s ≡ pos 0) × (is_neg s.opened ≡ false) × (s.is_msmfb ≡ true))
      ⊎ (is_neg (open_status e s) ≡ true)
unfolding open_status
open_status_cases e s (p, q) = elim (Bool-cases (is_neg s.opened)) [
  | inl a ↦ inr (rw a (neg-is_neg s.open_errno p))
  | inr a ↦ elim (Bool-cases (is_zero s.info)) [
    | inr b ↦ inr (rw (a, b) (neg-is_neg s.info_errno q))
    | inl b ↦ elim (Bool-cases s.is_msmfb) [
      | inl c ↦ inl (rw (a, b, c) (refl, refl, refl))
      | inr c ↦ inr (rw (a, b, c) (neg-is_neg e.einval e.einval_pos))
    ]
  ]
]

-- open_copybit either returns 0 and gives a device on the file that it opened, whose screen is
-- "msmfb", and leaves the file open, or returns an error, gives no device and closes the file,
-- where the system's error numbers are positive.
pub open_copybit-Opened :
    (e : Errno) (k : FlagBits) (s : Screen)
    → (0 < s.open_errno) × (0 < s.info_errno)
    → Opened k s (open_copybit e k s)
unfolding open_copybit
open_copybit-Opened e k s h = Opened-of_status k s (open_status e s) (open_status_cases e s h)
