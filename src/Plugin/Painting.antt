-- ===== src/Plugin/Painting.antt =====
-- `render_controller` when the overlay is required.
use obs_vscode_privacy_guard.Base.{
  Bool, List, [], ap, arith, false, if_cases, if◌then◌else◌, not, refl, some, subst, suc, sym, true,
  ℕ, ◌&&◌, ◌++◌, ◌∷◌, ◌≡◌,
}
use obs_vscode_privacy_guard.Display.Controller.{Controller}
use obs_vscode_privacy_guard.Display.Drawing.{Canvas, Sprite, fills, opaque_black, repeat}
use obs_vscode_privacy_guard.Display.Renderer.{Graphics}
use obs_vscode_privacy_guard.Plugin.{
  draw_opaque_overlay, render_controller, render_on, render_sized,
}

module _ {Image : Type 0} where
  -- A required overlay is the first thing drawn, over the whole canvas.
  unfoldable pub Covers : ℕ → ℕ → List (Sprite Image) → Type 0
  Covers width height sprites =
      (rest : List (Sprite Image)) × (sprites ≡ fills opaque_black width height ∷ rest)

  pub draw_opaque_overlay-solid :
      (c : Canvas) (width height n : ℕ)
      → c.solid_passes ≡ some n
      → draw_opaque_overlay {Image = Image} c width height
        ≡ repeat n (fills opaque_black width height)
  unfolding draw_opaque_overlay
  draw_opaque_overlay-solid c width height n e = rw (e, draw_opaque_overlay) refl

  pub overlay-Covers :
      (c : Canvas) (width height passes : ℕ) (required : Bool) (rest : List (Sprite Image))
      → c.solid_passes ≡ some (suc passes)
      → required ≡ true
      → Covers width height ((if required then draw_opaque_overlay c width height else []) ++ rest)
  unfolding Covers
  overlay-Covers c width height passes true rest solid e = (
    repeat passes (fills opaque_black width height) ++ rest,
    ap (λ o. o ++ rest) (draw_opaque_overlay-solid c width height (suc passes) solid),
  )
  overlay-Covers c width height passes false rest solid e = cc

  pub render_controller-Covers :
      (g : Graphics Image) (c : Canvas) (d : Controller Image) (width height passes : ℕ)
      → c.video_info ≡ some (width, height)
      → c.solid_passes ≡ some (suc passes)
      → d.overlay_required ≡ true
      → Covers width height (render_controller g c d).1
  unfolding render_controller render_sized render_on draw_opaque_overlay Covers
  render_controller-Covers g c d width height passes video solid overlay =
      if_cases (λ (r : Controller Image × List (Sprite Image)). Covers width height r.1)
        (not d.overlay_required && not d.watermark_required) (d, [])
        (render_sized g c c.video_info d) (λ off. ground arith)
        (λ _.
          subst (λ o. Covers width height (render_sized g c o d).1) (sym video)
            (overlay-Covers c width height passes d.overlay_required _ solid overlay))
