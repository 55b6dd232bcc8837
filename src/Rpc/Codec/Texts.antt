-- ===== src/Rpc/Codec/Texts.antt =====
-- librpc/svc_clnt_common.c and librpc/xdr.c: bytes and strings on the wire.
use hardware_msm7k.Prelude.Words.{add32, align32, align32_lem}
use hardware_msm7k.Prelude.{
  ℕ, zero, suc, ◌+◌, ◌-◌, ◌*◌, ◌/◌, ◌%◌, ◌^◌, ◌≤◌, ◌<◌, ◌≡◌, refl, ap, ◌∙◌, arith, false, ltb, List,
  ◌++◌, length, length-append,
}
use hardware_msm7k.Rpc.{Xdr, decode, done, msgsize_max}
use hardware_msm7k.Rpc.Stream.{appended, zeros, padding, send_bytes, recv_bytes, next_after}
use hardware_msm7k.Rpc.Memory.{get_bytes-append}
use hardware_msm7k.Rpc.Codec.{IsWhole, Incoming, consumed, Sends, Receives}
use hardware_msm7k.Rpc.Codec.Words.{is_beyond_held}

length-zeros : (n : ℕ) → length (zeros n) ≡ n
length-zeros zero = refl
length-zeros (suc n) = ap suc (length-zeros n)

length-padding : (n : ℕ) → length (padding n) ≡ (4 - n % 4) % 4
length-padding n = length-zeros ((4 - n % 4) % 4)

-- Bytes, and zeros up to a multiple of 4.
abbrev pub padded : List ℕ → List ℕ
padded bs = bs ++ padding (length bs)

pub padded-IsWhole : (bs : List ℕ) → IsWhole (padded bs)
padded-IsWhole bs =
    omega (arith, length-append bs (padding (length bs)), length-padding (length bs))

module _ (bs : List ℕ) where
  length-padded : length (padded bs) ≡ length bs + (4 - length bs % 4) % 4
  length-padded =
      length-append bs (padding (length bs)) ∙ ap (λ n. length bs + n) (length-padding (length bs))

  pub Sends-send_bytes : Sends (send_bytes bs) bs (padded bs)
  unfolding send_bytes
  Sends-send_bytes x h =
      let room : x.out_next + length bs ≤ msgsize_max = omega (arith, h.room, length-padded) in
      let first_test : ltb msgsize_max (add32 x.out_next (length bs)) ≡ false =
        ground (arith, room) in
      let second_test : ltb msgsize_max (x.out_next + length bs) ≡ false = ground (arith, room) in
      let rest : (4 - (x.out_next + length bs) % 4) % 4 ≡ (4 - length bs % 4) % 4 =
        omega (arith, h.aligned) in
      rw (first_test, second_test) (ap (λ n. done bs (appended (bs ++ zeros n) x)) rest)

  next_after-padded :
      (x : Xdr) → Incoming decode (padded bs) x → next_after (length bs) x ≡ consumed (padded bs) x
  next_after-padded x h =
      let room = h.room in
      let small : x.in_next + length bs < 2 ^ 31 = omega (arith, h.room, h.fits, length-padded) in
      let plain : add32 x.in_next (length bs) ≡ x.in_next + length bs = omega (arith, small) in
      let up = align32_lem 2 30 refl (x.in_next + length bs) (omega (arith, small)) in
      let place : (x.in_next + length bs + 2 ^ 2 - 1) / 2 ^ 2 * 2 ^ 2
          ≡ x.in_next + length (padded bs) =
        omega (arith, h.aligned, length-padded) in
      ap (λ n. record x { in_next = n }) (ap (λ n. align32 n 4) plain ∙ up ∙ place)

  pub Receives-recv_bytes : Receives (recv_bytes (length bs)) bs (padded bs)
  unfolding recv_bytes
  Receives-recv_bytes x h =
      let room : x.in_next + length bs ≤ h.len = omega (arith, h.room, length-padded) in
      let inside = is_beyond_held (length bs) x h.len h.in_len-len h.fits room in
      let low : ltb msgsize_max (x.in_next + length bs) ≡ false = ground (arith, room, h.fits) in
      let parts = get_bytes-append bs (padding (length bs)) x.in_msg x.in_next h.holds in
      rw (inside, low)
        (ap (λ t. done t (next_after (length bs) x)) parts.0 ∙ ap (done bs) (next_after-padded x h))
