-- ===== src/Display/Drawing.antt =====
-- `ImageRenderer::render_with_layout` of obs-plugin/src/protection-display.cpp, up to the sprite that
-- it draws. The rectangle of the sprite is in the module Layout.
use obs_vscode_privacy_guard.Base.{
  Bool, List, Option, [], false, if◌then◌else◌, none, some, suc, true, zero, ℕ, ◌==◌, ◌||◌, ◌∷◌,
}
use obs_vscode_privacy_guard.Display.Renderer.{Graphics, Renderer, update_texture}
use obs_vscode_privacy_guard.Display.Controller.{Controller}

-- A colour of `vec4_set`, of which the code sets each component to 0 or 1.
pub record Color : Type 0 where
  pub red : ℕ
  pub green : ℕ
  pub blue : ℕ
  pub alpha : ℕ

abbrev pub opaque_black : Color
opaque_black = record { red = 0; green = 0; blue = 0; alpha = 1 }

-- A sprite on a canvas of this width and height: one colour over all of it, or an image, stretched to
-- the canvas or not.
pub data Sprite (Image : Type 0) : Type 0 where
  fills : (color : Color) (width height : ℕ) → Sprite Image
  draws : (image : Image) (stretch_to_canvas : Bool) (width height : ℕ) → Sprite Image

-- What OBS's graphics answer. The passes are those of the effect's technique; `none` where the effect
-- or its parameter is null.
pub record Canvas : Type 0 where
  pub video_info : Option (ℕ × ℕ)
  pub solid_passes : Option ℕ
  pub default_passes : Option ℕ

-- The loop `while (gs_effect_loop(...))`.
abbrev pub repeat : {A : Type 0} → ℕ → A → List A
repeat zero a = []
repeat (suc n) a = a ∷ repeat n a

module _ {Image : Type 0} where
  abbrev pub draw_texture : Canvas → Option Image → Bool → ℕ → ℕ → List (Sprite Image)
  draw_texture c none stretch width height = []
  draw_texture c (some image) stretch width height = elim c.default_passes [
    | none ↦ []
    | some passes ↦ repeat passes (draws image stretch width height)
  ]

  unfoldable pub render_with_layout :
      Graphics Image → Canvas → Renderer Image → ℕ → ℕ → Bool → Renderer Image × List (Sprite Image)
  unfolding update_texture
  render_with_layout g c r width height stretch =
      let r' = update_texture g r in
      (
        r',
        if r'.texture_width == 0 || r'.texture_height == 0 || width == 0 || height == 0
            then []
            else draw_texture c r'.texture stretch width height,
      )

  unfoldable pub render_privacy_image :
      Graphics Image → Canvas → Controller Image → ℕ → ℕ → Controller Image × List (Sprite Image)
  unfolding render_with_layout
  render_privacy_image g c d width height =
      let (r, sprites) = render_with_layout g c d.image_renderer width height false in
      (record d { image_renderer = r }, sprites)

  unfoldable pub render_watermark :
      Graphics Image → Canvas → Controller Image → ℕ → ℕ → Controller Image × List (Sprite Image)
  unfolding render_with_layout
  render_watermark g c d width height =
      let (r, sprites) = render_with_layout g c d.watermark_renderer width height true in
      (record d { watermark_renderer = r }, sprites)
