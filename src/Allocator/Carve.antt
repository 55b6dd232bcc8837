-- ===== src/Allocator/Carve.antt =====
-- The cutting of the chosen chunk: a free piece up to the page boundary, the block, and a free rest.
use hardware_msm7k.Prelude.{
  ℕ, zero, suc, ◌+◌, ◌-◌, ◌^◌, ◌≤◌, ◌<◌, ◌≡◌, refl, Bool, true, false, List, [], ◌∷◌, ◌++◌, arith,
}
use hardware_msm7k.Allocator.{Chunk, extra, fits, split_chunk, carve}
use hardware_msm7k.Allocator.Layout.{Tiles, Coalesced, used, Coalesced-weaken}

abbrev pub chunk : ℕ → ℕ → Bool → Chunk
chunk start size free = record { start = start; size = size; free = free }

-- A free chunk, where it is not empty.
abbrev pub free_piece : ℕ → ℕ → List Chunk
free_piece start zero = []
free_piece start (suc n) = chunk start (suc n) true ∷ []

abbrev pub pieces : ℕ → ℕ → ℕ → ℕ → List Chunk
pieces start gap size rest =
    free_piece start gap ++ (chunk (start + gap) size false ∷ free_piece (start + gap + size) rest)

module _ (page size : ℕ) (c : Chunk) (ok : fits page size c ≡ true) (h1 : c.start + c.size ≤ 2 ^ 26)
    (h2 : size ≤ 2 ^ 27) (h3 : extra page c ≤ 2 ^ 27) where
  pub fits-le : size + extra page c ≤ c.size
  fits-le = ground arith

  pub carve-pieces : carve page size c ≡ (
    pieces c.start (extra page c) size (c.size - (size + extra page c)),
    c.start + extra page c,
  )
  unfolding carve split_chunk
  carve-pieces = ground (arith, fits-le)

-- The pieces cover the chosen chunk.
pub Tiles-pieces :
    (s gap size rest e : ℕ)
    → 0 < size
    → s + gap + size + rest ≡ e
    → Tiles s (pieces s gap size rest) e
Tiles-pieces s zero size zero e h k = ground arith
Tiles-pieces s zero size (suc rest) e h k = ground arith
Tiles-pieces s (suc gap) size zero e h k = ground arith
Tiles-pieces s (suc gap) size (suc rest) e h k = ground arith

-- Between two chunks that are not free no two free pieces touch.
pub Coalesced-pieces :
    (s gap size rest : ℕ) (after : List Chunk)
    → Coalesced true after
    → Coalesced false (pieces s gap size rest ++ after)
Coalesced-pieces s zero size zero after h = (refl, Coalesced-weaken after h)
Coalesced-pieces s zero size (suc rest) after h = (refl, (refl, h))
Coalesced-pieces s (suc gap) size zero after h = (refl, (refl, Coalesced-weaken after h))
Coalesced-pieces s (suc gap) size (suc rest) after h = (refl, (refl, (refl, h)))

-- One block of them is handed out.
pub used-pieces :
    (s gap size rest : ℕ) (after : List Chunk)
    → used (pieces s gap size rest ++ after) ≡ (s + gap, size) ∷ used after
used-pieces s zero size zero after = refl
used-pieces s zero size (suc rest) after = refl
used-pieces s (suc gap) size zero after = refl
used-pieces s (suc gap) size (suc rest) after = refl
