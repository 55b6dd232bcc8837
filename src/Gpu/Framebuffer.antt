-- ===== src/Gpu/Framebuffer.antt =====
-- A buffer on the framebuffer, from its allocation to its release.
use hardware_msm7k.Prelude.Words.{sub32, not32, test}
use hardware_msm7k.Prelude.Int.{ℤ, pos}
use hardware_msm7k.Prelude.{
  ℕ, ◌+◌, ◌*◌, ◌/◌, ◌^◌, ◌≤◌, ◌<◌, ◌≡◌, ◌≢◌, refl, ap, true, false, bit_and, ◌==◌, leb, Option,
  some, ◌∷◌, arith,
}
use hardware_msm7k.Errno.{Errno}
use hardware_msm7k.Handle.{PrivateHandle, new_handle, flags_framebuffer}
use hardware_msm7k.Mapper.{Caller}
use hardware_msm7k.Gpu.{Setup, GpuSystem, Screen, Mapped, PmemOps, Gpu, close_fd}
use hardware_msm7k.Gpu.Buffers.{
  bit32, slot_size, take_slot, alloc_slot, alloc_on_screen, gralloc_alloc_framebuffer,
}
use hardware_msm7k.Gpu.Device.{free_slot, free_impl}
use hardware_msm7k.Gpu.Slots.{bit32_lem, Taken, find_slot-Taken, give_back}
use native.Mathlib.Nat.{mul-div_cancel, pow-le-pow_right, mul-le-mul_right}

-- The framebuffer `fb` is mapped, it has at least two slots and fewer than 32, one of them is free,
-- and they lie within the address space.
pub record HasRoom (fb : PrivateHandle) (s : Screen) : Type 0 where
  pub is_mapped : s.framebuffer ≡ some fb
  pub several : s.num_buffers ≢ 1
  pub few : s.num_buffers < 32
  pub room : s.buffer_mask + 1 < 2 ^ s.num_buffers
  pub sized : 0 < slot_size s
  pub in_space : fb.base + s.num_buffers * slot_size s < 2 ^ 32

-- What an allocation on the screen `s` comes to: a handle of the lowest free slot, whose release
-- gives the screen back as it was.
pub record SlotCycle {S T : Type 0} (ps : PmemOps S) (pt : PmemOps T) (caller : Caller)
    (fb : PrivateHandle) (s : Screen) (result : ℤ × Option PrivateHandle × Gpu S T) : Type 0 where
  pub made : PrivateHandle
  pub returned : (result.0 ≡ pos 0) × (result.1 ≡ some made)
  pub taken :
      Taken
        (slot_size s)
        s.buffer_mask
        s.num_buffers
        fb.base
        (result.2.screen.buffer_mask, made.base)
  pub offset_in : fb.base + made.offset ≡ made.base
  pub after : Gpu S T
  pub freed : free_impl ps pt caller made result.2 ≡ some after
  pub restored : after.screen ≡ s

module _ {S T : Type 0} (ps : PmemOps S) (pt : PmemOps T) (fb made : PrivateHandle)
    (g : Gpu S T) where
  -- The state once the slot of `made` is given back.
  abbrev slot_freed : Gpu S T
  slot_freed =
      let index = sub32 made.base fb.base / slot_size g.screen in
      record g {
        screen = record g.screen {
          buffer_mask = bit_and g.screen.buffer_mask (not32 (bit32 index));
        };
        calls = close_fd made.fd ∷ g.calls;
      }

  free_impl-slot :
      (caller : Caller)
      → g.screen.framebuffer ≡ some fb
      → 0 < slot_size g.screen
      → test made.flags flags_framebuffer ≡ true
      → free_impl ps pt caller made g ≡ some slot_freed
  unfolding free_impl free_slot
  free_impl-slot caller f sized t =
      let not_zero : (slot_size g.screen == 0) ≡ false = ground (arith, sized) in
      rw (t, f, not_zero) refl

module _ {S T : Type 0} (e : Errno) (c : Setup) (sys : GpuSystem) (ps : PmemOps S) (pt : PmemOps T)
    (map_screen : Screen → Mapped) (caller : Caller) (fb : PrivateHandle) (usage : ℕ) (g : Gpu S T)
    (h : HasRoom fb g.screen) where
  open h use {is_mapped, several, few, room, sized, in_space}

  abbrev slot : PrivateHandle × Gpu S T
  slot = take_slot e c sys ps pt fb g

  slot-Taken :
      Taken
        (slot_size g.screen)
        g.screen.buffer_mask
        g.screen.num_buffers
        fb.base
        (slot.1.screen.buffer_mask, slot.0.base)
  unfolding take_slot
  slot-Taken = find_slot-Taken _ _ _ _ few room in_space

  open slot-Taken use {index, below, was_free, marked, address}

  index-le : index * slot_size g.screen ≤ g.screen.num_buffers * slot_size g.screen
  index-le = mul-le-mul_right (slot_size g.screen) (omega (arith, below))

  distance : sub32 slot.0.base fb.base ≡ index * slot_size g.screen
  distance = omega (arith, address, in_space, index-le)

  slot_index : sub32 slot.0.base fb.base / slot_size g.screen ≡ index
  slot_index = rw distance (mul-div_cancel index sized)

  mask_restored :
      bit_and slot.1.screen.buffer_mask
        (not32 (bit32 (sub32 slot.0.base fb.base / slot_size g.screen)))
      ≡ g.screen.buffer_mask
  mask_restored =
      let small : index < 32 = omega (arith, below, few) in
      let top : 2 ^ g.screen.num_buffers ≤ 2 ^ 31 =
        pow-le-pow_right (omega arith) {j = 31} (omega (arith, few)) in
      let bit : 2 ^ index ≤ 2 ^ 31 =
        pow-le-pow_right (omega arith) {j = 31} (omega (arith, small)) in
      rw (slot_index, bit32_lem index small, marked)
        (give_back g.screen.buffer_mask index small (omega (arith, top, bit, room)) was_free)

  slot-SlotCycle : SlotCycle ps pt caller fb g.screen (pos 0, some slot.0, slot.1)
  unfolding take_slot free_impl free_slot new_handle
  slot-SlotCycle = record {
    made = slot.0;
    returned = (refl, refl);
    taken = slot-Taken;
    offset_in = omega (arith, distance, address);
    after = slot_freed ps pt fb slot.0 slot.1;
    freed = free_impl-slot ps pt fb slot.0 slot.1 caller is_mapped sized refl;
    restored = ap (λ m. record g.screen { buffer_mask = m }) mask_restored;
  }

  on_mapped :
      alloc_on_screen e c sys ps pt map_screen g.screen.framebuffer usage g
      ≡ alloc_slot e c sys ps pt fb usage g
  unfolding alloc_on_screen
  on_mapped = ap (λ o. alloc_on_screen e c sys ps pt map_screen o usage g) is_mapped

  -- Where the framebuffer is mapped, has 2 to 31 slots within the address space, one of them free,
  -- and the usage does not ask for PMEM_ADSP, gralloc_alloc_framebuffer returns 0 and a handle
  -- whose base is the address of the lowest free slot, which is marked as taken, and free_impl of
  -- that handle gives the screen back as it was.
  pub gralloc_alloc_framebuffer-SlotCycle :
      test usage c.usage_bits.private_adsp ≡ false
      → SlotCycle ps pt caller fb g.screen
          (gralloc_alloc_framebuffer e c sys ps pt map_screen usage g)
  unfolding gralloc_alloc_framebuffer alloc_slot
  gralloc_alloc_framebuffer-SlotCycle no_adsp =
      let several_slots : (g.screen.num_buffers == 1) ≡ false = ground (arith, several) in
      let top : 2 ^ g.screen.num_buffers ≤ 2 ^ 31 =
        pow-le-pow_right (omega arith) {j = 31} (omega (arith, few)) in
      let not_full : leb (sub32 (bit32 g.screen.num_buffers) 1) g.screen.buffer_mask ≡ false =
        rw (bit32_lem g.screen.num_buffers few) (ground (arith, top, room)) in
      rw (no_adsp, on_mapped, several_slots, not_full) slot-SlotCycle
