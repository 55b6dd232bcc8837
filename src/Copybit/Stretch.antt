-- ===== src/Copybit/Stretch.antt =====
-- `set_rects`, `msm_copybit`, `stretch_copybit` and `blit_copybit` of libcopybit/copybit.cpp.
use hardware_msm7k.Prelude.Words.{add32, sub32, test, lts32}
use hardware_msm7k.Prelude.Int.{ℤ, pos, neg, is_zero}
use hardware_msm7k.Prelude.{
  ℕ, suc, Bool, not, ◌&&◌, ◌||◌, bit_or, ltb, ◌==◌, if◌then◌else◌, Option, some, List, [], ◌∷◌,
  ◌++◌, length, ◌>>=◌,
}
use hardware_msm7k.Errno.{Errno}
use hardware_msm7k.Copybit.{
  Formats, FlagBits, Rect, Image, MdpImg, MdpRect, BlitReq, Context, muldiv, intersect, set_image,
  dst_rect_of, unscaled,
}

-- The flips at the end of `set_rects`, on an image of the given width and height.
unfoldable pub flip : FlagBits → (flags width height : ℕ) → MdpRect → MdpRect
flip k flags width height e =
    let y = (if test flags k.transform_flip_v then sub32 height (add32 e.y e.h) else e.y) in
    let x = (if test flags k.transform_flip_h then sub32 width (add32 e.x e.w) else e.x) in
    record e { x = x; y = y }

-- The scaling of `set_rects`: `w` and `h` are its `W` and `H`.
unfoldable pub scaled : (src : Rect) → (w h : ℕ) → MdpRect → Option MdpRect
unfolding muldiv
scaled src w h e = do
  (x, width) ← muldiv e.x e.w (sub32 src.r src.l) w
  (y, height) ← muldiv e.y e.h (sub32 src.b src.t) h
  some (record { x = x; y = y; w = width; h = height })

-- `e->src_rect` of `set_rects`; `img` is `e->src`.
unfoldable pub src_rect_of :
    FlagBits → (flags : ℕ) → MdpImg → (dst src clip : Rect) → Option MdpRect
unfolding unscaled scaled flip
src_rect_of k flags img dst src clip =
    let rotated = test flags k.transform_rot_90 in
    let across = sub32 dst.r dst.l in
    let down = sub32 dst.b dst.t in
    do
      e ←
          scaled src (if rotated then down else across) (if rotated then across else down)
            (unscaled rotated dst src clip)
      some (flip k flags img.width img.height e)

-- `set_infos`, `set_image` and `set_rects` on the request for one rectangle of the region, which
-- is cut to the bounds of the destination first.
unfoldable pub request :
    Formats
    → FlagBits
    → (msm7k : Bool) → Context
    → (dst src : Image) → (dst_rect src_rect clip : Rect) → Option BlitReq
unfolding intersect set_image dst_rect_of src_rect_of
request k f msm7k ctx dst src dst_rect src_rect clip =
    let bounds : Rect = record { l = 0; t = 0; r = dst.w; b = dst.h } in
    let cut = intersect (intersect bounds clip) dst_rect in
    let img = set_image k msm7k src in
    do
      from ← src_rect_of f ctx.flags img dst_rect src_rect cut
      some (record {
        src = img;
        dst = set_image k msm7k dst;
        src_rect = from;
        dst_rect = dst_rect_of cut;
        alpha = ctx.alpha;
        transp_mask = f.mdp_transp_nop;
        flags = bit_or ctx.flags f.mdp_blend_fg_premult;
      })

-- The display driver at MSMFB_BLIT: from the lists that it was given before and this one to the
-- result of `ioctl` and `errno`.
abbrev pub Driver : Type 0
Driver = List (List BlitReq) → List BlitReq → ℤ × ℕ

-- `msm_copybit`
unfoldable pub msm_copybit : Driver → List (List BlitReq) → List BlitReq → ℤ
msm_copybit driver sent batch =
    let answer = driver sent batch in if is_zero answer.0 then pos 0 else neg answer.1

-- The state of the loop: the requests of `list`, `status`, and what the driver was given.
pub record Progress : Type 0 where
  pub pending : List BlitReq
  pub status : ℤ
  pub sent : List (List BlitReq)

abbrev pub max_count : ℕ
max_count = 12

-- `msm_copybit` on the pending requests, and `list.count = 0`.
unfoldable pub submit : Driver → Progress → Progress
unfolding msm_copybit
submit driver s = record {
  pending = [];
  status = msm_copybit driver s.sent s.pending;
  sent = s.sent ++ (s.pending ∷ []);
}

-- The tests `w<=0` and `h<=0`, on unsigned words.
unfoldable pub is_empty : MdpRect → Bool
is_empty e = (e.w == 0) || (e.h == 0)

-- The end of the loop's body, from the tests on.
unfoldable pub enqueue : Driver → BlitReq → Progress → Progress
unfolding submit is_empty
enqueue driver req s =
    let added = record s { pending = s.pending ++ (req ∷ []) } in
    if is_empty req.src_rect || is_empty req.dst_rect
    then s
    else if suc (length s.pending) == max_count
    then submit driver added
    else added

module _ (k : Formats) (f : FlagBits) (msm7k : Bool) (ctx : Context) (driver : Driver) where
  -- The loop of `stretch_copybit` over the rectangles of the region.
  unfoldable pub scan :
      (dst src : Image) → (dst_rect src_rect : Rect) → List Rect → Progress → Option Progress
  unfolding request enqueue
  scan dst src dst_rect src_rect [] s = some s
  scan dst src dst_rect src_rect (clip ∷ region) s =
      let rest = scan dst src dst_rect src_rect region in
      if not (is_zero s.status) then some s else do
        req ← request k f msm7k ctx dst src dst_rect src_rect clip
        rest (enqueue driver req s)

  -- What follows the loop.
  unfoldable pub flush : Progress → Progress
  unfolding submit
  flush s = if is_zero s.status && ltb 0 (length s.pending) then submit driver s else s

  -- The formats that plane alpha is not supported with.
  unfoldable pub has_alpha : ℕ → Bool
  has_alpha format =
      (format == k.rgba_8888)
      || (format == k.bgra_8888)
      || (format == k.rgba_5551)
      || (format == k.rgba_4444)

  -- `MAX_DIMENSION`
  unfoldable pub max_dimension : ℕ
  max_dimension = if msm7k then 4096 else 2048

  -- The checks before the loop.
  unfoldable pub is_refused : (dst src : Image) → (src_rect : Rect) → Bool
  unfolding has_alpha max_dimension
  is_refused dst src e =
      (ltb ctx.alpha 255 && has_alpha src.format)
      || (lts32 e.l 0 || ltb src.w e.r || lts32 e.t 0 || ltb src.h e.b)
      || (ltb max_dimension src.w || ltb max_dimension src.h)
      || (ltb max_dimension dst.w || ltb max_dimension dst.h)

  -- `stretch_copybit` on a device that is not null: the status and what the driver was given. None
  -- is a division by 0.
  unfoldable pub stretch_copybit :
      Errno
      → (dst src : Image) → (dst_rect src_rect : Rect) → List Rect
      → Option (ℤ × List (List BlitReq))
  unfolding scan flush is_refused
  stretch_copybit errno dst src dst_rect src_rect region =
      if is_refused dst src src_rect then some (neg errno.einval, []) else do
        s ←
            scan dst src dst_rect src_rect region
              (record { pending = []; status = pos 0; sent = [] })
        let done = flush s
        some (done.status, done.sent)

  -- `blit_copybit`
  unfoldable pub blit_copybit :
      Errno → (dst src : Image) → List Rect → Option (ℤ × List (List BlitReq))
  unfolding stretch_copybit
  blit_copybit errno dst src region =
      stretch_copybit errno dst src (record { l = 0; t = 0; r = dst.w; b = dst.h })
        (record { l = 0; t = 0; r = src.w; b = src.h }) region
