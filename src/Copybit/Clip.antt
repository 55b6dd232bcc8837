-- ===== src/Copybit/Clip.antt =====
-- The destination rectangles of the requests against the image, the clip and the target.
use native.Mathlib.Nat.{le_trans}
use hardware_msm7k.Prelude.Words.{add32, sub32, lts32}
use hardware_msm7k.Prelude.{
  ℕ, ◌+◌, ◌^◌, ◌≤◌, ◌<◌, ◌≡◌, Bool, false, some, bind-some, arith, Bool-cases, inl, inr,
}
use hardware_msm7k.Copybit.{
  Formats, FlagBits, Rect, Image, BlitReq, Context, min_int, max_int, intersect, dst_rect_of,
  set_image,
}
use hardware_msm7k.Copybit.Stretch.{request, src_rect_of}

-- The order of `int`s as an order of words.
abbrev pub bias : ℕ → ℕ
bias a = add32 a (2 ^ 31)

max_int_bounds :
    (a b : ℕ)
    → a < 2 ^ 32
    → b < 2 ^ 32
    → (bias a ≤ bias (max_int a b)) × (bias b ≤ bias (max_int a b)) × (max_int a b < 2 ^ 32)
max_int_bounds a b h k = elim (Bool-cases (lts32 b a)) [
  | inl e ↦ rw e (ground (arith, e))
  | inr e ↦ rw e (ground (arith, e))
]

min_int_bounds :
    (a b : ℕ)
    → a < 2 ^ 32
    → b < 2 ^ 32
    → (bias (min_int a b) ≤ bias a) × (bias (min_int a b) ≤ bias b) × (min_int a b < 2 ^ 32)
min_int_bounds a b h k = elim (Bool-cases (lts32 a b)) [
  | inl e ↦ rw e (ground (arith, e))
  | inr e ↦ rw e (ground (arith, e))
]

-- One axis of a rectangle that is cut to the image, to a clip and to the target. Corners compare
-- as `int`s.
pub record Inside (size lo hi lo' hi' x w : ℕ) : Type 0 where
  pub in_image : x + w ≤ size
  pub after_clip : bias lo ≤ bias x
  pub after_target : bias lo' ≤ bias x
  pub before_clip : bias (x + w) ≤ bias hi
  pub before_target : bias (x + w) ≤ bias hi'

edges-Inside :
    (size lo hi lo' hi' l r : ℕ)
    → size < 2 ^ 31
    → (l < 2 ^ 32) × (bias 0 ≤ bias l) × (bias lo ≤ bias l) × (bias lo' ≤ bias l)
    → (r < 2 ^ 32) × (bias r ≤ bias size) × (bias r ≤ bias hi) × (bias r ≤ bias hi')
    → lts32 r l ≡ false
    → Inside size lo hi lo' hi' l (sub32 r l)
edges-Inside size lo hi lo' hi' l r s (lw, l0, l1, l2) (rw', r0, r1, r2) e =
    let ordered : bias l ≤ bias r = ground (arith, e) in
    let whole : l + sub32 r l ≡ r = omega (arith, ordered, lw, l0, rw', r0, s) in
    record {
      in_image = rw whole (omega (arith, lw, l0, rw', r0, s));
      after_clip = l1;
      after_target = l2;
      before_clip = rw whole r1;
      before_target = rw whole r2;
    }

axis-Inside :
    (size lo hi lo' hi' : ℕ)
    → size < 2 ^ 31
    → (lo < 2 ^ 32) × (hi < 2 ^ 32) × (lo' < 2 ^ 32) × (hi' < 2 ^ 32)
    → lts32 (min_int (min_int size hi) hi') (max_int (max_int 0 lo) lo') ≡ false
    → let l = max_int (max_int 0 lo) lo' in
      Inside size lo hi lo' hi' l (sub32 (min_int (min_int size hi) hi') l)
axis-Inside size lo hi lo' hi' s (a, b, c, d) e =
    let (p0, p1, p2) = max_int_bounds 0 lo (omega arith) a in
    let (q0, q1, q2) = max_int_bounds (max_int 0 lo) lo' p2 c in
    let (u0, u1, u2) = min_int_bounds size hi (omega (arith, s)) b in
    let (v0, v1, v2) = min_int_bounds (min_int size hi) hi' u2 d in
    edges-Inside size lo hi lo' hi' _ _ s (q2, le_trans p0 q0, le_trans p1 q0, q1)
      (v2, le_trans v0 u0, le_trans v0 u1, v1) e

-- The corners of a rectangle are words.
pub record IsWords (e : Rect) : Type 0 where
  pub left : e.l < 2 ^ 32
  pub top : e.t < 2 ^ 32
  pub right : e.r < 2 ^ 32
  pub bottom : e.b < 2 ^ 32

-- What `request` cuts the rectangle of the region to.
abbrev pub cut_of : (dst : Image) → (dst_rect clip : Rect) → Rect
cut_of dst dst_rect clip =
    intersect (intersect (record { l = 0; t = 0; r = dst.w; b = dst.h }) clip) dst_rect

dst_rect_inj : (x y : BlitReq) → some x ≡ some y → y.dst_rect ≡ x.dst_rect
dst_rect_inj x y e = cc e

module _ (k : Formats) (f : FlagBits) (msm7k : Bool) (ctx : Context) (dst src : Image)
    (dst_rect src_rect clip : Rect) (req : BlitReq) where
  request_dst :
      request k f msm7k ctx dst src dst_rect src_rect clip ≡ some req
      → req.dst_rect ≡ dst_rect_of (cut_of dst dst_rect clip)
  unfolding request
  request_dst e =
      let img = set_image k msm7k src in
      let (from, now, made) =
        bind-some (src_rect_of f ctx.flags img dst_rect src_rect (cut_of dst dst_rect clip)) _ req
          e in
      dst_rect_inj _ _ made

  -- The destination of a request lies in the image, in the rectangle of the region and in the
  -- target, where the image's sides are below 2 ^ 31 and the three meet: the cut's right and
  -- bottom are not before its left and top. Corners compare as ints.
  pub request-Inside :
      request k f msm7k ctx dst src dst_rect src_rect clip ≡ some req
      → (dst.w < 2 ^ 31) × (dst.h < 2 ^ 31)
      → IsWords clip
      → IsWords dst_rect
      → let cut = cut_of dst dst_rect clip in
        lts32 cut.r cut.l ≡ false
        → lts32 cut.b cut.t ≡ false
        → Inside dst.w clip.l clip.r dst_rect.l dst_rect.r req.dst_rect.x req.dst_rect.w
          × Inside dst.h clip.t clip.b dst_rect.t dst_rect.b req.dst_rect.y req.dst_rect.h
  unfolding intersect dst_rect_of
  request-Inside e (dw, dh) c t h v = rw (request_dst e) (
    axis-Inside dst.w clip.l clip.r dst_rect.l dst_rect.r dw (c.left, c.right, t.left, t.right) h,
    axis-Inside dst.h clip.t clip.b dst_rect.t dst_rect.b dh (c.top, c.bottom, t.top, t.bottom) v,
  )
