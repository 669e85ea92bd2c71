-- ===== src/Display/Layout.antt =====
-- Where `ImageRenderer::render_with_layout` of obs-plugin/src/protection-display.cpp puts an image on
-- the canvas. Its `float` is a parameter with the operations that the code uses.
pub mod Fitting
mod Tests
use obs_vscode_privacy_guard.Base.{Bool, if◌then◌else◌, ltb, not, ℕ, ◌%◌, ◌+◌, ◌-◌}

-- `static_cast<float>`, `/`, `*`, `<`, `std::lround` of what is not negative, the division by `2.0F`,
-- and `0.0F`.
pub record Float (F : Type 0) : Type 0 where
  pub of_nat : ℕ → F
  pub div : F → F → F
  pub mul : F → F → F
  pub less : F → F → Bool
  pub lround : F → ℕ
  pub half : F → F
  pub nought : F

-- 2 ^ 32
abbrev pub u32_mod : ℕ
u32_mod = 4294967296

-- The subtraction of two `std::uint32_t`.
abbrev pub u32_sub : ℕ → ℕ → ℕ
u32_sub a b = (a + (u32_mod - b)) % u32_mod

-- `std::max(1U, n)`
abbrev pub at_least_one : ℕ → ℕ
at_least_one n = if ltb 1 n then n else 1

pub record Layout (F : Type 0) : Type 0 where
  pub draw_width : ℕ
  pub draw_height : ℕ
  pub offset_x : F
  pub offset_y : F

module _ {F : Type 0} (q : Float F) where
  -- `std::min(a, b)`
  abbrev pub smaller : F → F → F
  smaller a b = if q.less b a then b else a

  abbrev pub ratio : ℕ → ℕ → F
  ratio a b = q.div (q.of_nat a) (q.of_nat b)

  -- The side of an image at this scale.
  abbrev pub scaled : ℕ → F → ℕ
  scaled side scale = at_least_one (q.lround (q.mul (q.of_nat side) scale) % u32_mod)

  unfoldable pub fit_to_canvas : (texture_width texture_height width height : ℕ) → Layout F
  fit_to_canvas texture_width texture_height width height =
      let scale = smaller (ratio width texture_width) (ratio height texture_height) in
      let draw_width = scaled texture_width scale in
      let draw_height = scaled texture_height scale in
      record {
        draw_width = draw_width;
        draw_height = draw_height;
        offset_x = q.half (q.of_nat (u32_sub width draw_width));
        offset_y = q.half (q.of_nat (u32_sub height draw_height));
      }

  unfoldable pub layout_of :
      (stretch_to_canvas : Bool) (texture_width texture_height width height : ℕ) → Layout F
  unfolding fit_to_canvas
  layout_of stretch_to_canvas texture_width texture_height width height =
      if not stretch_to_canvas
      then fit_to_canvas texture_width texture_height width height
      else record {
        draw_width = width;
        draw_height = height;
        offset_x = q.nought;
        offset_y = q.nought;
      }
