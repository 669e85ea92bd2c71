-- ===== src/Display/Controller.antt =====
-- `ProtectionDisplayController` of obs-plugin/src/protection-display.hpp and protection-display.cpp.
-- The handlers of OBS's events are in the module Events below this one.
-- A handler is one function here, as it runs when no other handler runs in between.
pub mod Events
pub mod Hiding
pub mod Cover
pub mod Safety
pub mod Settled
pub mod Restored
pub mod Race
pub mod Kept
use obs_vscode_privacy_guard.Base.{
  Bool, Bytes, List, Option, [], false, if◌then◌else◌, is_nil, none, not, some, true, u64_mod, ℕ,
  ◌%◌, ◌&&◌, ◌++◌, ◌+◌, ◌==◌, ◌∷◌,
}
use obs_vscode_privacy_guard.Privacy.{Mode}
use obs_vscode_privacy_guard.Display.{
  DisplayAction, DisplaySettings, EventDisplaySettings, default_settings, event_of,
  resolve_display_action,
}
use obs_vscode_privacy_guard.Display.Renderer.{
  Renderer, World, clear, make_renderer, select_custom, select_default, select_resource,
  watermark_resource_path,
}

pub record ApplyRequest : Type 0 where
  pub mode : Mode
  pub generation : ℕ

-- The fields of the controller. Of OBS it has `tasks`, the requests in OBS's UI task queue, first in
-- first out, and `scene_log`, the scenes that `obs_frontend_set_current_scene` was called with, the
-- latest first.
pub record Controller (Image : Type 0) : Type 0 where
  pub settings : DisplaySettings
  pub latest_mode : Mode
  pub generation : ℕ
  pub overlay_required : Bool
  pub watermark_required : Bool
  pub alive : Bool
  pub image_renderer : Renderer Image
  pub watermark_renderer : Renderer Image
  pub watermark_available : Bool
  pub custom_scene_active : Bool
  pub previous_scene : Bytes
  pub active_target_scene : Bytes
  pub tasks : List ApplyRequest
  pub scene_log : List Bytes

-- `is_protected_mode`
abbrev pub is_protected_mode : Mode → Bool
is_protected_mode Mode.awaiting_connection = true
is_protected_mode Mode.sensitive = true
is_protected_mode Mode.disconnected = true
is_protected_mode _ = false

abbrev pub is_true : Option Bool → Bool
is_true none = false
is_true (some b) = b

module _ {Image : Type 0} where
  unfoldable pub scene_exists : World Image → Bytes → Bool
  scene_exists w name = is_true (w.source name)

  unfoldable pub current_scene_name : World Image → Bytes
  current_scene_name w = elim w.current_scene [
    | none ↦ []
    | some none ↦ []
    | some (some name) ↦ name
  ]

  unfoldable pub switch_to_scene : World Image → Bytes → Controller Image → Controller Image × Bool
  switch_to_scene w name d =
      if is_true (w.source name)
      then (record d { scene_log = name ∷ d.scene_log }, true)
      else (d, false)

  -- The constructor.
  unfoldable pub make_controller : World Image → Controller Image
  unfolding select_resource
  make_controller w =
      let (watermark, available) =
        select_resource w (make_renderer Image) watermark_resource_path in
      record {
        settings = default_settings;
        latest_mode = Mode.awaiting_connection;
        generation = 0;
        overlay_required = true;
        watermark_required = false;
        alive = true;
        image_renderer = make_renderer Image;
        watermark_renderer = watermark;
        watermark_available = available;
        custom_scene_active = false;
        previous_scene = [];
        active_target_scene = [];
        tasks = [];
        scene_log = [];
      }

  unfoldable pub queue_apply : Controller Image → Mode → Controller Image
  queue_apply d m =
      let next = (d.generation + 1) % u64_mod in
      record d {
        latest_mode = m;
        generation = next;
        tasks = d.tasks ++ record { mode = m; generation = next } ∷ [];
      }

  -- `watermark_required_ = false; overlay_required_ = true; image_renderer_->clear();`
  abbrev pub cover : Controller Image → Controller Image
  cover d = record d {
    watermark_required = false;
    overlay_required = true;
    image_renderer = clear d.image_renderer;
  }

  unfoldable pub privacy_mode_changed : Controller Image → Mode → Controller Image
  unfolding queue_apply clear
  privacy_mode_changed d m =
      if not d.alive then d else queue_apply (if is_protected_mode m then cover d else d) m

  -- The end of `restore_previous_scene`.
  abbrev pub forget_scenes : Controller Image → Controller Image
  forget_scenes d = record d {
    custom_scene_active = false;
    previous_scene = [];
    active_target_scene = [];
  }

  unfoldable pub restore_previous_scene : World Image → Controller Image → Controller Image
  unfolding switch_to_scene
  restore_previous_scene w d = forget_scenes (
      if d.custom_scene_active && not (is_nil d.previous_scene)
      then (switch_to_scene w d.previous_scene d).0
      else d)

  -- `image_renderer_->select_default(mode); watermark_required_ = false; overlay_required_ = true;`
  abbrev pub show_default : World Image → Mode → Controller Image → Controller Image
  show_default w m d = record d {
    image_renderer = (select_default w d.image_renderer m).0;
    watermark_required = false;
    overlay_required = true;
  }

  -- The three cases of `apply_on_ui_thread` in a protected mode.
  unfoldable pub apply_built_in : World Image → Mode → Controller Image → Controller Image
  unfolding restore_previous_scene select_default
  apply_built_in w m d = show_default w m (restore_previous_scene w d)

  unfoldable pub apply_image :
      World Image → Mode → EventDisplaySettings → Controller Image → Controller Image
  unfolding restore_previous_scene select_custom select_default
  apply_image w m event d =
      let d' = restore_previous_scene w d in
      let (renderer, selected) = select_custom w d'.image_renderer event.image_path in
      if not selected then show_default w m d' else record d' {
        image_renderer = renderer;
        watermark_required = d'.watermark_available;
        overlay_required = true;
      }

  unfoldable pub apply_scene :
      World Image → Mode → EventDisplaySettings → Controller Image → Controller Image
  unfolding switch_to_scene restore_previous_scene select_default current_scene_name clear
  apply_scene w m event d =
      let (d', switched) = switch_to_scene w event.scene d in
      if not switched then show_default w m (restore_previous_scene w d') else record d' {
        previous_scene = if d.custom_scene_active then d.previous_scene else current_scene_name w;
        custom_scene_active = true;
        image_renderer = clear d'.image_renderer;
        active_target_scene = event.scene;
        watermark_required = d'.watermark_available;
        overlay_required = false;
      }

  abbrev pub apply_action :
      DisplayAction
      → World Image
      → Mode
      → EventDisplaySettings
      → Controller Image
      → Controller Image
  apply_action DisplayAction.built_in_image w m event d = apply_built_in w m d
  apply_action DisplayAction.custom_image w m event d = apply_image w m event d
  apply_action _ w m event d = apply_scene w m event d

  -- The rest of `apply_on_ui_thread` once the controller is alive and the request the latest.
  abbrev pub apply_checked : World Image → Mode → Controller Image → Controller Image
  apply_checked w m d =
      if not (is_protected_mode m)
      then restore_previous_scene w
          (record d { watermark_required = false; overlay_required = false })
      else apply_action (resolve_display_action d.settings m) w m (event_of d.settings m) d

  unfoldable pub apply_on_ui_thread : World Image → Mode → ℕ → Controller Image → Controller Image
  unfolding apply_built_in apply_image apply_scene resolve_display_action restore_previous_scene
  apply_on_ui_thread w m generation d =
      if not d.alive then d else if not (generation == d.generation) then d else apply_checked w m d

  -- OBS takes the first request off its queue and runs it on the UI thread.
  unfoldable pub apply_task : World Image → Controller Image → Controller Image
  unfolding apply_on_ui_thread
  apply_task w d = elim d.tasks [
    | [] ↦ d
    | request ∷ rest ↦
        apply_on_ui_thread w request.mode request.generation (record d { tasks = rest })
  ]
