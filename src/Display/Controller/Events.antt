-- ===== src/Display/Controller/Events.antt =====
-- `frontend_event`, `update_settings` and `shutdown` of the controller, and all that can happen to it.
use obs_vscode_privacy_guard.Base.{List, [], false, if◌then◌else◌, is_nil, not, ◌&&◌, ◌∷◌}
use obs_vscode_privacy_guard.Privacy.{Mode}
use obs_vscode_privacy_guard.Display.{DisplaySettings}
use obs_vscode_privacy_guard.Display.Renderer.{World, clear, destroy_texture, select_default}
use obs_vscode_privacy_guard.Display.Controller.{
  ApplyRequest, Controller, apply_on_ui_thread, apply_task, cover, forget_scenes, is_protected_mode,
  privacy_mode_changed, queue_apply, restore_previous_scene, scene_exists, show_default,
}

-- `obs_frontend_event`, of which the code tells two values apart.
pub data FrontendEvent : Type 0 where
  scene_collection_changing scene_list_changed other_event : FrontendEvent

module _ {Image : Type 0} where
  unfoldable pub collection_changing : Controller Image → Controller Image
  unfolding clear
  collection_changing d = forget_scenes (record d {
    watermark_required = false;
    overlay_required = is_protected_mode d.latest_mode;
    image_renderer = clear d.image_renderer;
  })

  unfoldable pub scene_list_changed_handler : World Image → Controller Image → Controller Image
  unfolding scene_exists select_default restore_previous_scene
  scene_list_changed_handler w d =
      if not (is_nil d.active_target_scene) && not (scene_exists w d.active_target_scene)
      then restore_previous_scene w (show_default w d.latest_mode d)
      else d

  unfoldable pub frontend_event : World Image → FrontendEvent → Controller Image → Controller Image
  unfolding collection_changing scene_list_changed_handler
  frontend_event w scene_collection_changing d = collection_changing d
  frontend_event w scene_list_changed d = scene_list_changed_handler w d
  frontend_event w other_event d = d

  unfoldable pub update_settings : DisplaySettings → Controller Image → Controller Image
  unfolding queue_apply clear
  update_settings settings d =
      let d' = record d { settings = settings } in
      queue_apply (if is_protected_mode d.latest_mode then cover d' else d') d.latest_mode

  -- The tasks that the barrier of `shutdown` waits for, each run in its turn.
  unfoldable pub run_tasks : World Image → List ApplyRequest → Controller Image → Controller Image
  unfolding apply_on_ui_thread
  run_tasks w [] d = record d { tasks = [] }
  run_tasks w (request ∷ rest) d =
      run_tasks w rest
        (apply_on_ui_thread w request.mode request.generation (record d { tasks = rest }))

  unfoldable pub shutdown : World Image → Controller Image → Controller Image
  unfolding run_tasks destroy_texture
  shutdown w d =
      if not d.alive
      then d
      else let d' = run_tasks w d.tasks (record d { alive = false }) in
        record d' {
          image_renderer = destroy_texture d'.image_renderer;
          watermark_renderer = destroy_texture d'.watermark_renderer;
        }

-- One thing that happens: a mode from the tick, a task of the UI queue, an event of the frontend, or
-- new settings. What Qt and OBS answer may be different each time.
pub data Happens {Image : Type 0} (d : Controller Image) : Controller Image → Type 0 where
  changes : (m : Mode) → Happens d (privacy_mode_changed d m)
  applies : (w : World Image) → Happens d (apply_task w d)
  fires : (w : World Image) (event : FrontendEvent) → Happens d (frontend_event w event d)
  configures : (settings : DisplaySettings) → Happens d (update_settings settings d)
  stops : (w : World Image) → Happens d (shutdown w d)
