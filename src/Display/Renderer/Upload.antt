-- ===== src/Display/Renderer/Upload.antt =====
-- `update_texture` of the renderer in the steps that the graphics thread takes, with images selected by
-- the other threads in between (obs-plugin/src/protection-display.cpp). A step is one section under the
-- mutex, or the work on the texture between the two of them, which only the graphics thread touches.
pub mod Steps
pub mod Fresh
mod Tests
use obs_vscode_privacy_guard.Base.{List, Option, [], if◌then◌else◌, length, none, ℕ, ◌+◌, ◌==◌, ◌∷◌}
use obs_vscode_privacy_guard.Display.Renderer.{Graphics, Renderer, create_texture, select}

-- Where the graphics thread is in `update_texture`: outside, behind the first section with what it has
-- read there, or before the last section.
pub data Uploader (Image : Type 0) : Type 0 where
  waiting : Uploader Image
  holding : (selected : Option Image) (generation : ℕ) → Uploader Image
  built : (generation : ℕ) → Uploader Image

module _ {Image : Type 0} where
  -- The first section.
  unfoldable pub begin_update : Renderer Image → Uploader Image
  begin_update r =
      if r.texture_generation == r.selected_generation
      then waiting
      else holding r.selected_image r.selected_generation

  -- The next step.
  unfoldable pub advance_update :
      Graphics Image → Uploader Image → Renderer Image → Uploader Image × Renderer Image
  unfolding create_texture
  advance_update g waiting r = (waiting, r)
  advance_update g (holding selected generation) r = (
    built generation,
    create_texture g selected (record r { texture = none; texture_width = 0; texture_height = 0 }),
  )
  advance_update g (built generation) r = (waiting, record r { texture_generation = generation })

  -- The images that other threads select, one after another.
  unfoldable pub select_all : Renderer Image → List (Option Image) → Renderer Image
  unfolding select
  select_all r [] = r
  select_all r (image ∷ images) = select_all (select r image) images

-- A frame: what the graphics answer, and the images that are selected before the second and the third
-- step of `update_texture` and before the texture is drawn.
pub record Frame (Image : Type 0) : Type 0 where
  pub graphics : Graphics Image
  pub before_build : List (Option Image)
  pub before_end : List (Option Image)
  pub before_draw : List (Option Image)

module _ {Image : Type 0} where
  -- `update_texture` in a frame, from where the graphics thread is behind the first section.
  unfoldable pub run_update : Frame Image → Uploader Image → Renderer Image → Renderer Image
  unfolding advance_update select_all
  run_update f u r =
      let (u1, r1) = advance_update f.graphics u (select_all r f.before_build) in
      let (u2, r2) = advance_update f.graphics u1 (select_all r1 f.before_end) in
      select_all r2 f.before_draw

  unfoldable pub run_frame : Frame Image → Renderer Image → Renderer Image
  unfolding begin_update run_update
  run_frame f r = run_update f (begin_update r) r

  unfoldable pub run_frames : List (Frame Image) → Renderer Image → Renderer Image
  unfolding run_frame
  run_frames [] r = r
  run_frames (f ∷ fs) r = run_frames fs (run_frame f r)

  -- How many images are selected in the frames.
  unfoldable pub selections : List (Frame Image) → ℕ
  selections [] = 0
  selections (f ∷ fs) =
      length f.before_build + (length f.before_end + (length f.before_draw + selections fs))
