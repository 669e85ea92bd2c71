-- ===== src/Display/Renderer/Upload/Tests.antt =====
-- The theorems on frames at three images. An image is a number here.
use obs_vscode_privacy_guard.Base.{[], arith, none, refl, some, true, ℕ, ◌∷◌, ◌≡◌, ◌⊎◌}
use obs_vscode_privacy_guard.Display.Renderer.{Graphics, Renderer, make_renderer, select}
use obs_vscode_privacy_guard.Display.Renderer.Upload.{
  Frame, advance_update, begin_update, run_frame, run_frames, run_update, select_all, selections,
}
use obs_vscode_privacy_guard.Display.Renderer.Upload.Fresh.{frame_draws_selected}

abbrev a_graphics : Graphics ℕ
a_graphics = record { width = λ image. image; height = λ image. image; creates = λ image. true }

-- The image 8 is selected while the texture of 7 is built, and the renderer cleared before it is drawn.
abbrev first : Frame ℕ
first = record {
  graphics = a_graphics;
  before_build = some 8 ∷ [];
  before_end = [];
  before_draw = none ∷ [];
}

abbrev second : Frame ℕ
second = record {
  graphics = a_graphics;
  before_build = [];
  before_end = some 9 ∷ [];
  before_draw = [];
}

abbrev after_first : Renderer ℕ
after_first = run_frames (first ∷ []) (select_all (make_renderer ℕ) (some 7 ∷ []))

test_first : (after_first.texture ≡ some 7) × ((run_frame second after_first).texture ≡ none)
unfolding run_frames run_frame begin_update run_update advance_update select_all select
test_first = (refl, refl)

frame_draws_selected_example :
    ((run_frame second after_first).texture ≡ none)
    ⊎ ((run_frame second after_first).texture ≡ after_first.selected_image)
unfolding selections
frame_draws_selected_example = frame_draws_selected (some 7 ∷ []) (first ∷ []) second (omega arith)
