-- ===== src/Framebuffer/Mapping.antt =====
-- The mapping of the framebuffer, and what the device finds after it.
use hardware_msm7k.Prelude.Words.{mul32}
use hardware_msm7k.Prelude.Int.{ℤ, pos, neg, is_neg}
use hardware_msm7k.Prelude.{
  ℕ, ◌+◌, ◌*◌, ◌/◌, ◌^◌, ◌≤◌, ◌<◌, ◌≡◌, refl, ap, ◌∙◌, false, ◌==◌, if◌then◌else◌, Option, none,
  some, arith,
}
use hardware_msm7k.Handle.{PrivateHandle, new_handle}
use hardware_msm7k.Gpu.Buffers.{slot_size}
use hardware_msm7k.Gpu.Framebuffer.{HasRoom}
use hardware_msm7k.Framebuffer.{
  FixInfo, VarInfo, FbDriver, FbSetup, FbModule, chosen_format, number_of_buffers, flip_flags,
  with_framebuffer, install, with_fix_after, with_granted, with_var, with_fix, opened_fd, map_once,
  map_framebuffer_locked,
}
use native.Mathlib.Nat.{
  le-div_iff_mul-le, div-lt_iff_lt-mul, pow-le-pow_right, mul-le-mul_left, mul-le-mul_right,
  div-mul-le_self, mod-le,
}

-- The driver answers every inquiry: `f` and `v` at first, and `w` and `after` in the end, a screen with
-- 2 to 31 times its rows in memory.
pub record Answers (d : FbDriver) (f after : FixInfo) (v w : VarInfo) : Type 0 where
  pub is_opened : is_neg (opened_fd d d.first_fd) ≡ false
  pub first_fix : d.fix_info ≡ some f
  pub first_var : d.var_info ≡ some v
  pub pixels : 0 < mul32 (mul32 v.yres v.xres) (if v.bits_per_pixel == 32 then 4 else 2)
  pub last_var : d.granted ≡ some w
  pub last_fix : d.fix_after ≡ some after
  pub memory : 0 < after.smem_len
  pub rows : 0 < w.yres
  pub two_screens : 2 * w.yres ≤ w.yres_virtual
  pub few_screens : w.yres_virtual < 32 * w.yres
  pub slots : 0 < mul32 after.line_length w.yres
  pub in_space :
      (base : ℕ) → d.mapping ≡ some base → base + w.yres_virtual * after.line_length < 2 ^ 32

-- What mapping comes to. Either way the framebuffer is there for the next call, whatever the driver
-- answers then, which returns 0 at once.
pub data MapOutcome (c : FbSetup) (d : FbDriver) : Option (ℤ × FbModule) → Type 0 where
  usable :
      (fb : PrivateHandle) (t : FbModule)
      → d.mapping ≡ some fb.base
      → HasRoom fb t.screen
      → ((next : FbDriver) → map_framebuffer_locked c next t ≡ some (pos 0, t))
      → MapOutcome c d (some (pos 0, t))
  broken :
      (fb : PrivateHandle) (t : FbModule)
      → d.mapping ≡ none
      → t.screen.framebuffer ≡ some fb
      → fb.base ≡ 0
      → ((next : FbDriver) → map_framebuffer_locked c next t ≡ some (pos 0, t))
      → MapOutcome c d (some (neg d.errno, t))

module _ (c : FbSetup) (d : FbDriver) (f after : FixInfo) (v w : VarInfo)
    (a : Answers d f after v w) where
  open a use {
    is_opened, first_fix, first_var, pixels, last_var, last_fix, memory, rows, two_screens,
    few_screens, slots, in_space,
  }

  with_framebuffer-HasRoom :
      (flags format : ℕ) (h : PrivateHandle)
      → d.mapping ≡ some h.base
      → HasRoom h (with_framebuffer c d flags format w after h).screen
  unfolding slot_size
  with_framebuffer-HasRoom flags format h e =
      let n = w.yres_virtual / w.yres in
      let two : 2 ≤ n = (le-div_iff_mul-le rows).1 two_screens in
      let four : 2 ^ 2 ≤ 2 ^ n = pow-le-pow_right (omega arith) two in
      let slot : n * mul32 after.line_length w.yres ≤ n * (after.line_length * w.yres) =
        mul-le-mul_left n (mod-le _ _) in
      let whole : n * w.yres * after.line_length ≤ w.yres_virtual * after.line_length =
        mul-le-mul_right after.line_length (div-mul-le_self w.yres_virtual w.yres) in
      record {
        is_mapped = refl;
        several = omega (arith, two);
        few = (div-lt_iff_lt-mul rows).1 few_screens;
        room = omega (arith, four);
        sized = slots;
        in_space = grind (arith, slot, whole, in_space h.base e);
      }

  install-MapOutcome :
      (flags format : ℕ) (mapping : Option ℕ)
      → d.mapping ≡ mapping
      → MapOutcome c d (some (install c d flags format w after mapping))
  unfolding install map_framebuffer_locked map_once new_handle
  install-MapOutcome flags format none e = broken _ _ e refl refl (λ next. refl)
  install-MapOutcome flags format (some base) e =
      usable _ _ e (with_framebuffer-HasRoom flags format _ e) (λ next. refl)

  abbrev flags : ℕ
  flags =
      let bytes = (if v.bits_per_pixel == 32 then 4 else 2) in
      flip_flags d.accepts v.yres
        (number_of_buffers c (f.smem_len / mul32 (mul32 v.yres v.xres) bytes))

  abbrev format : ℕ
  format = chosen_format c v.bits_per_pixel

  abbrev installed : Option (ℤ × FbModule)
  installed = some (install c d flags format w after d.mapping)

  module _ (s : FbModule) where
    after_granted : with_granted c d flags format d.granted s ≡ installed
    unfolding with_granted with_fix_after
    after_granted =
        let full : (after.smem_len == 0) ≡ false = ground (arith, memory) in
        let tall : (w.yres == 0) ≡ false = ground (arith, rows) in
        ap (λ o. with_granted c d flags format o s) last_var
        ∙ ap (λ o. with_fix_after c d flags format w o s) last_fix
        ∙ rw (full, tall) refl

    after_var : with_var c d f d.var_info s ≡ installed
    unfolding with_var
    after_var =
        let area : (mul32 (mul32 v.yres v.xres) (if v.bits_per_pixel == 32 then 4 else 2) == 0)
            ≡ false =
          ground (arith, pixels) in
        ap (λ o. with_var c d f o s) first_var ∙ rw area after_granted

    after_opened : map_once c d none s ≡ installed
    unfolding map_once with_fix
    after_opened = rw is_opened (ap (λ o. with_fix c d o s) first_fix ∙ after_var)

    -- Where no framebuffer is mapped yet, and the driver answers every inquiry and has memory for
    -- 2 to 31 screens within the address space, mapFrameBufferLocked either returns 0 and leaves a
    -- framebuffer at the mapped address with room for allocations, or, where mmap fails, returns
    -- its error and leaves a framebuffer at the address 0; either way every later call returns 0
    -- and changes nothing.
    pub map_framebuffer_locked-MapOutcome :
        s.screen.framebuffer ≡ none → MapOutcome c d (map_framebuffer_locked c d s)
    unfolding map_framebuffer_locked
    map_framebuffer_locked-MapOutcome e =
        rw (ap (λ o. map_once c d o s) e ∙ after_opened)
          (install-MapOutcome flags format d.mapping refl)
