-- ===== src/Copybit/Beside.antt =====
-- Rectangles of the region that miss the target.
use hardware_msm7k.Prelude.Words.{sub32, test}
use hardware_msm7k.Prelude.{
  ℕ, ◌^◌, ◌<◌, ◌≡◌, ◌≢◌, refl, Bool, false, ◌==◌, ==_iff, some, [], ◌∷◌, bit_or, arith,
}
use hardware_msm7k.Copybit.{
  Formats, FlagBits, Rect, Image, MdpImg, BlitReq, Context, muldiv, set_image, dst_rect_of,
  unscaled,
}
use hardware_msm7k.Copybit.Stretch.{request, is_empty, src_rect_of, scaled, flip}
use hardware_msm7k.Copybit.Batches.{kept}
use hardware_msm7k.Copybit.Clip.{cut_of, IsWords}

muldiv_same : (a b mul div : ℕ) → mul ≡ div → muldiv a b mul div ≡ some (a, b)
unfolding muldiv
muldiv_same a b mul div e = rw ((==_iff mul div).1 e) refl

-- The request at the same size, with no rotation.
abbrev request_at :
    Formats → FlagBits → Bool → Context → Image → Image → Rect → Rect → Rect → BlitReq
request_at k f msm7k ctx dst src dst_rect src_rect cut =
    let img = set_image k msm7k src in
    record {
      src = img;
      dst = set_image k msm7k dst;
      src_rect = flip f ctx.flags img.width img.height (unscaled false dst_rect src_rect cut);
      dst_rect = dst_rect_of cut;
      alpha = ctx.alpha;
      transp_mask = f.mdp_transp_nop;
      flags = bit_or ctx.flags f.mdp_blend_fg_premult;
    }

module _ (k : Formats) (f : FlagBits) (msm7k : Bool) (ctx : Context) (dst src : Image)
    (dst_rect src_rect clip : Rect) where
  src_rect_of_same :
      (img : MdpImg) (cut : Rect)
      → test ctx.flags f.transform_rot_90 ≡ false
      → sub32 src_rect.r src_rect.l ≡ sub32 dst_rect.r dst_rect.l
      → sub32 src_rect.b src_rect.t ≡ sub32 dst_rect.b dst_rect.t
      → src_rect_of f ctx.flags img dst_rect src_rect cut
        ≡ some (flip f ctx.flags img.width img.height (unscaled false dst_rect src_rect cut))
  unfolding src_rect_of scaled
  src_rect_of_same img cut r w h =
      let e = unscaled false dst_rect src_rect cut in
      rw (r, muldiv_same e.x e.w _ _ w, muldiv_same e.y e.h _ _ h) refl

  difference : (a b : ℕ) → a < 2 ^ 32 → b < 2 ^ 32 → a ≢ b → (sub32 b a == 0) ≡ false
  difference a b p q n = ground arith

  kept_at :
      (cut : Rect)
      → IsWords cut
      → cut.l ≢ cut.r
      → cut.t ≢ cut.b
      → let req = request_at k f msm7k ctx dst src dst_rect src_rect cut in kept req ≡ req ∷ []
  unfolding kept is_empty flip unscaled dst_rect_of
  kept_at cut c h v =
      rw (difference cut.l cut.r c.left c.right h, difference cut.t cut.b c.top c.bottom v) refl

  -- A rectangle of the region is sent to the driver unless the cut is empty by an equality: where
  -- its left and right differ, and its top and bottom, the request is kept, also where right lies
  -- before left, at the same size and with no rotation. The corners are words.
  pub request-kept :
      test ctx.flags f.transform_rot_90 ≡ false
      → sub32 src_rect.r src_rect.l ≡ sub32 dst_rect.r dst_rect.l
      → sub32 src_rect.b src_rect.t ≡ sub32 dst_rect.b dst_rect.t
      → let cut = cut_of dst dst_rect clip in
        IsWords cut
        → cut.l ≢ cut.r
        → cut.t ≢ cut.b
        → (req : BlitReq) × (request k f msm7k ctx dst src dst_rect src_rect clip ≡ some req)
          × (kept req ≡ req ∷ [])
  unfolding request
  request-kept r w h c p q =
      let cut = cut_of dst dst_rect clip in
      (
        request_at k f msm7k ctx dst src dst_rect src_rect cut,
        rw (src_rect_of_same (set_image k msm7k src) cut r w h) refl,
        kept_at cut c p q,
      )
