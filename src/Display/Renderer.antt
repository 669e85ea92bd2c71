-- ===== src/Display/Renderer.antt =====
-- `ImageRenderer` of obs-plugin/src/protection-display.cpp: the image that is selected on the UI
-- thread, and the texture that the graphics thread makes of it. An image of Qt is a value of the type
-- `Image`; a null image is `none`.
pub mod Upload
use obs_vscode_privacy_guard.Base.{
  Bool, Bytes, Option, codes, false, if◌then◌else◌, none, some, true, u64_mod, ℕ, ◌%◌, ◌+◌, ◌==◌,
}
use obs_vscode_privacy_guard.Privacy.{Mode}

-- What the code asks of Qt and OBS at one moment. `load` is `QImageReader::read` with the conversion
-- to RGBA, `source` whether a source of this name exists and is a scene, and `current_scene` the
-- frontend's current scene and its name, either of which may be null.
pub record World (Image : Type 0) : Type 0 where
  pub load : Bytes → Option Image
  pub source : Bytes → Option Bool
  pub current_scene : Option (Option Bytes)

-- What the code asks of an image and of the graphics: its size, and whether `gs_texture_create`
-- makes a texture of it.
pub record Graphics (Image : Type 0) : Type 0 where
  pub width : Image → ℕ
  pub height : Image → ℕ
  pub creates : Image → Bool

-- The texture is the image that it was made of.
pub record Renderer (Image : Type 0) : Type 0 where
  pub selected_image : Option Image
  pub selected_generation : ℕ
  pub texture_generation : ℕ
  pub texture : Option Image
  pub texture_width : ℕ
  pub texture_height : ℕ

abbrev pub make_renderer : (Image : Type 0) → Renderer Image
make_renderer Image = record {
  selected_image = none;
  selected_generation = 1;
  texture_generation = 0;
  texture = none;
  texture_width = 0;
  texture_height = 0;
}

abbrev pub sensitive_resource_path : Bytes
sensitive_resource_path = codes ":/privacy-guard/sensitive-file.png"

abbrev pub connection_resource_path : Bytes
connection_resource_path = codes ":/privacy-guard/connection-lost.png"

abbrev pub watermark_resource_path : Bytes
watermark_resource_path = codes ":/privacy-guard/watermark.png"

-- `mode == Mode::Sensitive ? sensitive_resource_path : connection_resource_path`
abbrev pub resource_of : Mode → Bytes
resource_of Mode.sensitive = sensitive_resource_path
resource_of _ = connection_resource_path

unfoldable pub load_privacy_image : {Image : Type 0} → World Image → Bytes → Option Image
load_privacy_image w path = w.load path

module _ {Image : Type 0} where
  unfoldable pub select : Renderer Image → Option Image → Renderer Image
  select r image = record r {
    selected_image = image;
    selected_generation = (r.selected_generation + 1) % u64_mod;
  }

  unfoldable pub clear : Renderer Image → Renderer Image
  unfolding select
  clear r = select r none

  -- A bundled image that cannot be loaded leaves black.
  unfoldable pub select_default : World Image → Renderer Image → Mode → Renderer Image × Bool
  unfolding load_privacy_image select clear
  select_default w r m = elim (load_privacy_image w (resource_of m)) [
    | none ↦ (clear r, false)
    | some image ↦ (select r (some image), true)
  ]

  unfoldable pub select_custom : World Image → Renderer Image → Bytes → Renderer Image × Bool
  unfolding load_privacy_image select
  select_custom w r path = elim (load_privacy_image w path) [
    | none ↦ (r, false)
    | some image ↦ (select r (some image), true)
  ]

  unfoldable pub select_resource : World Image → Renderer Image → Bytes → Renderer Image × Bool
  unfolding load_privacy_image select
  select_resource w r path = elim (load_privacy_image w path) [
    | none ↦ (r, false)
    | some image ↦ (select r (some image), true)
  ]

  -- The new texture of `update_texture`, once the old one is destroyed.
  pub create_texture : Graphics Image → Option Image → Renderer Image → Renderer Image
  create_texture g none r = r
  create_texture g (some image) r =
      if g.creates image
      then record r {
        texture = some image;
        texture_width = g.width image;
        texture_height = g.height image;
      }
      else r

  unfoldable pub update_texture : Graphics Image → Renderer Image → Renderer Image
  unfolding create_texture
  update_texture g r =
      if r.texture_generation == r.selected_generation
      then r
      else record (create_texture g r.selected_image
          (record r { texture = none; texture_width = 0; texture_height = 0 })) {
            texture_generation = r.selected_generation;
          }

  -- `ImageRenderer::shutdown`
  unfoldable pub destroy_texture : Renderer Image → Renderer Image
  destroy_texture r = record r { texture = none }
