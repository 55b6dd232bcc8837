-- ===== src/Copybit/Scale.antt =====
-- The source rectangles of the requests against the source image.
use native.Mathlib.Nat.{
  le_trans, le-div_iff_mul-le, div-le_of_le-mul, add-mul, mul-add, mul_comm, div-mul-le_self,
  mul-le-mul_left, mul-le-mul,
}
use mathlib.Core.Path.{subst}
use hardware_msm7k.Prelude.Words.{sub32, mul32, test}
use hardware_msm7k.Prelude.{
  ℕ, ◌+◌, ◌*◌, ◌/◌, ◌^◌, ◌≤◌, ◌<◌, ◌≡◌, refl, ap, Bool, true, false, ◌&&◌, ◌==◌, if◌then◌else◌,
  Option, none, some, bind-some, arith, Bool-cases, ==_iff, inl, inr,
}
use hardware_msm7k.Copybit.{
  Formats, FlagBits, Rect, Image, MdpImg, MdpRect, BlitReq, Context, flag_uses_gpu, muldiv,
  unscaled, set_image,
}
use hardware_msm7k.Copybit.Clip.{cut_of}
use hardware_msm7k.Copybit.Stretch.{request, src_rect_of, scaled, flip}

quotients : (p q m d : ℕ) → 0 < d → p + q ≤ d * m → p / d + q / d ≤ m
quotients p q m d h k = le_trans ((le-div_iff_mul-le h).1 joined) (div-le_of_le-mul d k)
  where
    joined : (p / d + q / d) * d ≤ p + q
    joined = omega (arith, add-mul (p / d) (q / d) d, div-mul-le_self p d, div-mul-le_self q d)

extent : Option (ℕ × ℕ) → ℕ
extent none = 0
extent (some (a, b)) = a + b

extent-le : (o : Option (ℕ × ℕ)) (x w n : ℕ) → o ≡ some (x, w) → extent o ≤ n → x + w ≤ n
unfolding extent
extent-le o x w n e h = omega (arith, ap extent e, h)

-- Scaling an interval that fits in `div` gives one that fits in `mul`.
muldiv_inside :
    (a b mul div x w : ℕ)
    → muldiv a b mul div ≡ some (x, w)
    → a + b ≤ div
    → div * mul < 2 ^ 32
    → x + w ≤ mul
unfolding muldiv extent
muldiv_inside a b mul div x w e h k = elim (Bool-cases (mul == div)) [
  | inl c ↦ extent-le _ x w mul e (rw c (omega (arith, h, (==_iff mul div).0 c)))
  | inr c ↦ elim (Bool-cases (div == 0)) [
    | inl z ↦ absurd (none_not (rw (c, z) at e))
    | inr z ↦
        extent-le _ x w mul e
          (rw (c, z) (quotients (mul32 mul a) (mul32 mul b) mul div (ground (arith, z)) room))
  ]
]
  where
    spread : mul * a + mul * b ≤ div * mul
    spread = omega (arith, mul-add mul a b, mul_comm mul div, mul-le-mul_left mul h)

    room : mul32 mul a + mul32 mul b ≤ div * mul
    room = omega (arith, spread, k)

    none_not : ◌≡◌ {A = Option (ℕ × ℕ)} none (some (x, w)) → ⊥
    none_not e = absurd (cc e)

-- A rectangle in an image whose sides are `width` and `height`.
pub record InImage (e : MdpRect) (width height : ℕ) : Type 0 where
  pub across : e.x + e.w ≤ width
  pub down : e.y + e.h ≤ height

InImage-transport :
    (e made : MdpRect) (width height : ℕ)
    → some e ≡ some made
    → InImage e width height
    → InImage made width height
InImage-transport e made width height q i =
    let same : e ≡ made = cc q in subst (λ r. InImage r width height) same i

scaled-InImage :
    (src : Rect) (w h : ℕ) (e made : MdpRect)
    → scaled src w h e ≡ some made
    → InImage e w h
    → (w * sub32 src.r src.l < 2 ^ 32) × (h * sub32 src.b src.t < 2 ^ 32)
    → InImage made (sub32 src.r src.l) (sub32 src.b src.t)
unfolding scaled
scaled-InImage src w h e made q i (rx, ry) =
    let ((x, width), mx, q1) = bind-some (muldiv e.x e.w (sub32 src.r src.l) w) _ made q in
    let ((y, height), my, q2) = bind-some (muldiv e.y e.h (sub32 src.b src.t) h) _ made q1 in
    InImage-transport _ made _ _ q2 (record {
      across = muldiv_inside e.x e.w (sub32 src.r src.l) w x width mx i.across rx;
      down = muldiv_inside e.y e.h (sub32 src.b src.t) h y height my i.down ry;
    })

flip-InImage :
    (k : FlagBits) (flags width height : ℕ) (e : MdpRect)
    → (width < 2 ^ 32) × (height < 2 ^ 32)
    → InImage e width height
    → InImage (flip k flags width height e) width height
unfolding flip
flip-InImage k flags width height e (ww, hw) i = record {
  across = ground (arith, i.across);
  down = ground (arith, i.down);
}

-- The cut lies in the target, and both are in the first quadrant.
pub record Within (cut dst : Rect) : Type 0 where
  pub left : dst.l ≤ cut.l
  pub across : cut.l ≤ cut.r
  pub right : cut.r ≤ dst.r
  pub top : dst.t ≤ cut.t
  pub down : cut.t ≤ cut.b
  pub bottom : cut.b ≤ dst.b
  pub wide : dst.r ≤ 2 ^ 19
  pub high : dst.b ≤ 2 ^ 19

unscaled-InImage :
    (dst src cut : Rect)
    → Within cut dst
    → (src.l ≡ 0) × (src.t ≡ 0)
    → (rotated : Bool)
    → let across = sub32 dst.r dst.l in
      let down = sub32 dst.b dst.t in
      InImage
        (unscaled rotated dst src cut)
        (if rotated then down else across)
        (if rotated then across else down)
unfolding unscaled
unscaled-InImage dst src cut w (l, t) true = record {
  across = omega (arith, w.top, w.down, w.bottom, w.high, t);
  down = omega (arith, w.left, w.across, w.right, w.wide, l);
}
unscaled-InImage dst src cut w (l, t) false = record {
  across = omega (arith, w.left, w.across, w.right, w.wide, l);
  down = omega (arith, w.top, w.down, w.bottom, w.high, t);
}

-- A source rectangle that starts at the origin and lies in an image of the device's size.
pub record AtOrigin (src : Rect) (width height : ℕ) : Type 0 where
  pub left : src.l ≡ 0
  pub top : src.t ≡ 0
  pub right : src.r ≤ width
  pub bottom : src.b ≤ height
  pub wide : width ≤ 4096
  pub high : height ≤ 4096

product_small : (w m : ℕ) → w ≤ 2 ^ 19 → m ≤ 4096 → w * m < 2 ^ 32
product_small w m h k = omega (arith, mul-le-mul h k)

InImage-grow :
    (e : MdpRect) (w h width height : ℕ)
    → InImage e w h
    → (w ≤ width) × (h ≤ height)
    → InImage e width height
InImage-grow e w h width height i (p, q) = record {
  across = omega (arith, i.across, p);
  down = omega (arith, i.down, q);
}

src_rect_of-InImage :
    (k : FlagBits) (flags : ℕ) (img : MdpImg) (dst src cut : Rect) (e : MdpRect)
    → src_rect_of k flags img dst src cut ≡ some e
    → Within cut dst
    → AtOrigin src img.width img.height
    → InImage e img.width img.height
unfolding src_rect_of
src_rect_of-InImage k flags img dst src cut e q w o =
    let rotated = test flags k.transform_rot_90 in
    let across = sub32 dst.r dst.l in
    let down = sub32 dst.b dst.t in
    let (made, now, later) =
      bind-some
        (scaled src (if rotated then down else across) (if rotated then across else down)
          (unscaled rotated dst src cut))
        _ e q in
    InImage-transport _ e _ _ later (
      flip-InImage k flags img.width img.height made (omega (arith, o.wide), omega (arith, o.high))
        (InImage-grow made _ _ img.width img.height
          (scaled-InImage src _ _ _ made now
            (unscaled-InImage dst src cut w (o.left, o.top) rotated) (rooms rotated))
          (omega (arith, o.left, o.right, o.wide), omega (arith, o.top, o.bottom, o.high))))
  where
    small : (sub32 dst.r dst.l ≤ 2 ^ 19) × (sub32 dst.b dst.t ≤ 2 ^ 19)
    small = (
      omega (arith, w.left, w.across, w.right, w.wide),
      omega (arith, w.top, w.down, w.bottom, w.high),
    )

    sides : (sub32 src.r src.l ≤ 4096) × (sub32 src.b src.t ≤ 4096)
    sides = (omega (arith, o.left, o.right, o.wide), omega (arith, o.top, o.bottom, o.high))

    rooms :
        (b : Bool)
        → ((if b then sub32 dst.b dst.t else sub32 dst.r dst.l) * sub32 src.r src.l < 2 ^ 32)
          × ((if b then sub32 dst.r dst.l else sub32 dst.b dst.t) * sub32 src.b src.t < 2 ^ 32)
    rooms true = (product_small _ _ small.1 sides.0, product_small _ _ small.0 sides.1)
    rooms false = (product_small _ _ small.0 sides.0, product_small _ _ small.1 sides.1)

set_image_sizes :
    (k : Formats) (msm7k : Bool) (src : Image)
    → ((set_image k msm7k src).width ≡ src.w) × ((set_image k msm7k src).height ≡ src.h)
unfolding set_image
set_image_sizes k msm7k src = elim (Bool-cases (msm7k && test src.handle.flags flag_uses_gpu)) [
  | inl e ↦ rw e (refl, refl)
  | inr e ↦ rw e (refl, refl)
]

src_rect_inj : (x y : BlitReq) → some x ≡ some y → x.src_rect ≡ y.src_rect
src_rect_inj x y e = cc e

-- The source rectangle of a request lies in the source image, under every rotation, flip and
-- scaling, where the source rectangle asked for starts at the origin, the image is at most 4096
-- wide and high, and the cut destination lies in the target, whose corners are at most 2 ^ 19.
pub request-InImage :
    (k : Formats) (f : FlagBits) (msm7k : Bool) (ctx : Context) (dst src : Image)
    (dst_rect src_rect clip : Rect) (req : BlitReq)
    → request k f msm7k ctx dst src dst_rect src_rect clip ≡ some req
    → Within (cut_of dst dst_rect clip) dst_rect
    → AtOrigin src_rect src.w src.h
    → InImage req.src_rect src.w src.h
unfolding request
request-InImage k f msm7k ctx dst src dst_rect src_rect clip req q w o =
    let img = set_image k msm7k src in
    let (from, now, made) =
      bind-some (src_rect_of f ctx.flags img dst_rect src_rect (cut_of dst dst_rect clip)) _ req
        q in
    let (width, height) = set_image_sizes k msm7k src in
    let origin : AtOrigin src_rect img.width img.height = rw (width, height) o in
    let inside : InImage from src.w src.h =
      rw (width, height) at
        (src_rect_of-InImage f ctx.flags img dst_rect src_rect (cut_of dst dst_rect clip) from now w
          origin) in
    subst (λ r. InImage r src.w src.h) (src_rect_inj _ _ made) inside
