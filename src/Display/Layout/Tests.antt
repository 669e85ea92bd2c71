-- ===== src/Display/Layout/Tests.antt =====
-- The layout of a sprite with exact fractions for `float`.
use Prim.Native.Nat.{◌/◌}
use native.Mathlib.Nat.{
  div-lt_iff_lt-mul, le-div_iff_mul-le, le_of_mul-le-mul_right, lt_of_mul-lt-mul_left,
  mul-lt-mul_of_pos_right, mul-le-mul_left, mul-le-mul_right,
}
use obs_vscode_privacy_guard.Base.{arith, false, ltb, refl, ℕ, ◌*◌, ◌+◌, ◌<◌, ◌≡◌, ◌≤◌}
use obs_vscode_privacy_guard.Display.Layout.{Float, fit_to_canvas, layout_of}
use obs_vscode_privacy_guard.Display.Layout.Fitting.{Fits, FloatLaws, fit_to_canvas-Fits}

-- The fraction of the two numbers; with `0` below it is no number.
abbrev Exact : Type 0
Exact = ℕ × ℕ

abbrev exact : Float Exact
exact = record {
  of_nat = λ n. (n, 1);
  div = λ f g. (f.0 * g.1, f.1 * g.0);
  mul = λ f g. (f.0 * g.0, f.1 * g.1);
  less = λ f g. ltb (f.0 * g.1) (g.0 * f.1);
  lround = λ f. (2 * f.0 + f.1) / (2 * f.1);
  half = λ f. (f.0, 2 * f.1);
  nought = (0, 1);
}

cross_le : (a b c e n d : ℕ) → a * e ≤ c * b → c * d ≤ n * e → 0 < e → a * d ≤ n * b
cross_le a b c e n d h h' some_e =
    le_of_mul-le-mul_right (omega (arith, mul-le-mul_right d h, mul-le-mul_right b h')) some_e

rounded_upper :
    (a b n d k : ℕ) → 0 < b → a * d ≤ n * b → 2 * n < (2 * k + 1) * d → (2 * a + b) / (2 * b) ≤ k
rounded_upper a b n d k some_b h small =
    let below : (d * (2 * a) < d * ((2 * k + 1) * b)) =
      omega (arith, h, mul-lt-mul_of_pos_right {k = b} small some_b) in
    let less : (2 * a < (2 * k + 1) * b) = lt_of_mul-lt-mul_left d below in
    let some_double : (0 < 2 * b) = omega (arith, some_b) in
    let quotient : ((2 * a + b) / (2 * b) < k + 1) =
      (div-lt_iff_lt-mul some_double).1 (omega (arith, less)) in
    omega (arith, quotient)

rounded_lower :
    (a b n d k : ℕ)
    → 0 < b
    → 0 < d
    → n * b ≤ a * d
    → 2 * k * d ≤ 2 * n + d
    → k ≤ (2 * a + b) / (2 * b)
rounded_lower a b n d k some_b some_d h small =
    (le-div_iff_mul-le (omega (arith, some_b))).1
      (le_of_mul-le-mul_right (omega (arith, h, mul-le-mul_right b small)) some_d)

exact-FloatLaws : FloatLaws exact
exact-FloatLaws = record {
  AtMost = λ f n d. (0 < f.1) × (f.0 * d ≤ n * f.1);
  AtLeast = λ f n d. (0 < f.1) × (n * f.1 ≤ f.0 * d);
  div_upper = λ a b small small' some_b. (omega (arith, some_b), omega arith);
  div_lower = λ a b small small' some_b. (omega (arith, some_b), omega arith);
  mul_upper = λ m f n d small room h. (omega (arith, h.0), omega (arith, mul-le-mul_left m h.1));
  mul_lower = λ m f n d small h. (omega (arith, h.0), omega (arith, mul-le-mul_left m h.1));
  lround_upper = λ f n d k room h small. rounded_upper f.0 f.1 n d k h.0 h.1 small;
  lround_lower =
      λ f n d n' d' k some_d room most h small. rounded_lower f.0 f.1 n d k h.0 some_d h.1 small;
  less_upper = λ f g n d n' d' lt f_number g_most.
      (f_number.0, cross_le f.0 f.1 g.0 g.1 n d (ground (arith, lt)) g_most.1 g_most.0);
  not_less_upper = λ f g n d n' d' ge g_number f_most.
      (g_number.0, cross_le g.0 g.1 f.0 f.1 n d (ground (arith, ge)) f_most.1 f_most.0);
}

-- An image of 400 by 300 pixels on a canvas of 1920 by 1080.
fit_to_canvas-Fits_example : Fits exact 1920 1080 (layout_of exact false 400 300 1920 1080)
fit_to_canvas-Fits_example =
    fit_to_canvas-Fits exact exact-FloatLaws 400 300 1920 1080 (omega arith) (omega arith)
      (omega arith) (omega arith) (omega arith) (omega arith) (omega arith) (omega arith)

test_layout :
    ((layout_of exact false 400 300 1920 1080).draw_width ≡ 1440)
    × ((layout_of exact false 400 300 1920 1080).draw_height ≡ 1080)
unfolding layout_of fit_to_canvas
test_layout = (refl, refl)
