-- ===== src/Display/Layout/Fitting.antt =====
-- The rectangle of an image that is not stretched, by the error bounds of IEEE 754 single precision.
use native.Mathlib.Nat.{mul-le-mul_left}
use obs_vscode_privacy_guard.Base.{
  ap, arith, false, if_cases, inl, inr, true, ℕ, ◌%◌, ◌*◌, ◌+◌, ◌-◌, ◌<◌, ◌≡◌, ◌≤◌, ◌⊎◌,
}
use obs_vscode_privacy_guard.Display.Layout.{
  Float, Layout, at_least_one, fit_to_canvas, layout_of, ratio, scaled, smaller, u32_mod, u32_sub,
}

-- 2 ^ 24, the numbers up to which a `float` holds every integer.
abbrev pub precision : ℕ
precision = 16777216

-- What IEEE 754 and the C++ standard say of the operations on numbers that are not negative.
-- `AtMost f n d` is that `f` is finite and at most `n / d`, `AtLeast f n d` that it is at least
-- that. A quotient and a product are off by a factor of `1 ± 2 ^ -24` at most, and `lround` rounds
-- to the nearest integer, halves up, as long as it is not too large.
pub record FloatLaws {F : Type 0} (q : Float F) : Type 1 where
  pub AtMost : F → ℕ → ℕ → Type 0
  pub AtLeast : F → ℕ → ℕ → Type 0
  pub div_upper :
      (a b : ℕ)
      → a ≤ precision
      → b ≤ precision
      → 0 < b
      → AtMost (q.div (q.of_nat a) (q.of_nat b)) (a * (precision + 1)) (b * precision)
  pub div_lower :
      (a b : ℕ)
      → a ≤ precision
      → b ≤ precision
      → 0 < b
      → AtLeast (q.div (q.of_nat a) (q.of_nat b)) (a * 16777215) (b * precision)
  pub mul_upper :
      (m : ℕ) (f : F) (n d : ℕ)
      → m ≤ precision
      → n ≤ d * precision
      → AtMost f n d
      → AtMost (q.mul (q.of_nat m) f) (m * n * (precision + 1)) (d * precision)
  pub mul_lower :
      (m : ℕ) (f : F) (n d : ℕ)
      → m ≤ precision
      → AtLeast f n d
      → AtLeast (q.mul (q.of_nat m) f) (m * n * 16777215) (d * precision)
  pub lround_upper :
      (f : F) (n d k : ℕ) → k ≤ precision → AtMost f n d → 2 * n < (2 * k + 1) * d → q.lround f ≤ k
  pub lround_lower :
      (f : F) (n d n' d' k : ℕ)
      → 0 < d
      → n' ≤ d' * precision
      → AtMost f n' d'
      → AtLeast f n d
      → 2 * k * d ≤ 2 * n + d
      → k ≤ q.lround f
  pub less_upper :
      (f g : F) (n d n' d' : ℕ) → q.less f g ≡ true → AtMost f n' d' → AtMost g n d → AtMost f n d
  pub not_less_upper :
      (f g : F) (n d n' d' : ℕ) → q.less f g ≡ false → AtMost g n' d' → AtMost f n d → AtMost g n d

clamp :
    (n canvas : ℕ)
    → 0 < canvas
    → canvas ≤ 2097152
    → n ≤ canvas
    → (1 ≤ at_least_one (n % u32_mod))
      × (at_least_one (n % u32_mod) ≤ canvas)
      × (canvas ≤ n → at_least_one (n % u32_mod) ≡ canvas)
clamp n canvas some_canvas room h = ground arith

u32_sub_within : (a b : ℕ) → a ≤ 2097152 → b ≤ a → u32_sub a b ≡ a - b
u32_sub_within a b room h = omega arith

area : (side canvas : ℕ) → canvas ≤ 2097152 → side * canvas ≤ side * 2097152
area side canvas room = mul-le-mul_left side room

module _ {F : Type 0} (q : Float F) (laws : FloatLaws q) where
  -- The bounds on a scale that fits a side of an image to a side of the canvas.
  abbrev Under : F → ℕ → ℕ → Type 0
  Under scale side canvas = laws.AtMost scale (canvas * (precision + 1)) (side * precision)

  abbrev Over : F → ℕ → ℕ → Type 0
  Over scale side canvas = laws.AtLeast scale (canvas * 16777215) (side * precision)

  lround-Under :
      (scale : F) (side canvas : ℕ)
      → 0 < side
      → side ≤ precision
      → canvas ≤ 2097152
      → Under scale side canvas
      → q.lround (q.mul (q.of_nat side) scale) ≤ canvas
  lround-Under scale side canvas some_side small room h =
      laws.lround_upper _ _ _ canvas (omega (arith, room))
        (laws.mul_upper side scale _ _ small (omega arith) h)
        (omega (arith, area side canvas room, some_side))

  lround-Over :
      (scale : F) (side canvas : ℕ)
      → 0 < side
      → side ≤ precision
      → canvas ≤ 2097152
      → Under scale side canvas
      → Over scale side canvas
      → canvas ≤ q.lround (q.mul (q.of_nat side) scale)
  lround-Over scale side canvas some_side small room under over =
      laws.lround_lower _ _ _ _ _ canvas (omega (arith, some_side))
        (omega (arith, area side canvas room, some_side))
        (laws.mul_upper side scale _ _ small (omega arith) under)
        (laws.mul_lower side scale _ _ small over) (omega (arith, area side canvas room))

  -- The smaller of the two ratios fits both sides, and is one of them.
  smaller-bounds :
      (texture_width texture_height width height : ℕ)
      → 0 < texture_width
      → 0 < texture_height
      → texture_width ≤ precision
      → texture_height ≤ precision
      → width ≤ precision
      → height ≤ precision
      → (let scale = smaller q (ratio q width texture_width) (ratio q height texture_height) in
          Under scale texture_width width
          × Under scale texture_height height
          × (Over scale texture_width width ⊎ Over scale texture_height height))
  smaller-bounds texture_width texture_height width height some_width some_height small small' room
        room' =
      let a = ratio q width texture_width in
      let b = ratio q height texture_height in
      let under = laws.div_upper width texture_width room small some_width in
      let under' = laws.div_upper height texture_height room' small' some_height in
      let over = laws.div_lower width texture_width room small some_width in
      let over' = laws.div_lower height texture_height room' small' some_height in
      if_cases
        (λ scale.
          Under scale texture_width width
          × Under scale texture_height height
          × (Over scale texture_width width ⊎ Over scale texture_height height))
        (q.less b a) b a (λ lt. (laws.less_upper b a _ _ _ _ lt under' under, under', inr over'))
        (λ ge. (under, laws.not_less_upper b a _ _ _ _ ge under under', inl over))

  -- A side that is at most that of the canvas, and at least one.
  scaled-fits :
      (side canvas : ℕ) (scale : F)
      → 0 < side
      → 0 < canvas
      → side ≤ precision
      → canvas ≤ 2097152
      → Under scale side canvas
      → (1 ≤ scaled q side scale)
        × (scaled q side scale ≤ canvas)
        × (Over scale side canvas → scaled q side scale ≡ canvas)
  scaled-fits side canvas scale some_side some_canvas small room h =
      let upper = lround-Under scale side canvas some_side small room h in
      let clamped = clamp _ canvas some_canvas room upper in
      (
        clamped.0,
        clamped.1,
        λ over. clamped.2 (lround-Over scale side canvas some_side small room h over),
      )

-- The rectangle lies on the canvas, touches two opposite edges, and is in the middle.
pub record Fits {F : Type 0} (q : Float F) (width height : ℕ) (l : Layout F) : Type 0 where
  pub some_width : 1 ≤ l.draw_width
  pub some_height : 1 ≤ l.draw_height
  pub within_width : l.draw_width ≤ width
  pub within_height : l.draw_height ≤ height
  pub touches : (l.draw_width ≡ width) ⊎ (l.draw_height ≡ height)
  pub centred_x : l.offset_x ≡ q.half (q.of_nat (width - l.draw_width))
  pub centred_y : l.offset_y ≡ q.half (q.of_nat (height - l.draw_height))

-- With a `float` that keeps to `FloatLaws`, an image of 1 to 2^24 pixels in width and in height that
-- is not stretched is drawn on a canvas of 1 to 2^21 pixels in width and in height so that it lies
-- on the canvas, is not empty, touches two opposite edges, and is in the middle; in particular the
-- subtractions for the offset do not wrap.
pub fit_to_canvas-Fits :
    {F : Type 0} (q : Float F)
    → FloatLaws q
    → (texture_width texture_height width height : ℕ) → 0 < texture_width
    → 0 < texture_height
    → 0 < width
    → 0 < height
    → texture_width ≤ precision
    → texture_height ≤ precision
    → width ≤ 2097152
    → height ≤ 2097152
    → Fits q width height (layout_of q false texture_width texture_height width height)
unfolding layout_of fit_to_canvas
fit_to_canvas-Fits q laws texture_width texture_height width height tw th w h small small' room
      room' =
    let scale = smaller q (ratio q width texture_width) (ratio q height texture_height) in
    let (under, under', over) =
      smaller-bounds q laws texture_width texture_height width height tw th small small'
        (omega (arith, room)) (omega (arith, room')) in
    let fits = scaled-fits q laws texture_width width scale tw w small room under in
    let fits' = scaled-fits q laws texture_height height scale th h small' room' under' in
    record {
      some_width = fits.0;
      some_height = fits'.0;
      within_width = fits.1;
      within_height = fits'.1;
      touches = elim over [ inl o ↦ inl (fits.2 o) | inr o ↦ inr (fits'.2 o) ];
      centred_x = ap (λ n. q.half (q.of_nat n)) (u32_sub_within width _ room fits.1);
      centred_y = ap (λ n. q.half (q.of_nat n)) (u32_sub_within height _ room' fits'.1);
    }
