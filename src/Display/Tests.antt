-- ===== src/Display/Tests.antt =====
-- The theorems on the display at concrete settings and events. An image is a number here.
use obs_vscode_privacy_guard.Base.{
  Bytes, List, [], arith, codes, false, length, refl, some, true, ℕ, ◌↔◌, ◌∷◌, ◌≡◌, ◌≢◌, ◌⊎◌,
}
use obs_vscode_privacy_guard.Privacy.{Mode}
use obs_vscode_privacy_guard.Display.{
  DisplayAction, DisplayMode, DisplaySettings, resolve_display_action,
}
use obs_vscode_privacy_guard.Display.Resolve.{Takes, resolve_iff}
use obs_vscode_privacy_guard.Display.Renderer.{World}
use obs_vscode_privacy_guard.Display.Controller.{
  Controller, apply_task, make_controller, privacy_mode_changed,
}
use obs_vscode_privacy_guard.Display.Controller.Events.{
  applies, changes, configures, update_settings,
}
use obs_vscode_privacy_guard.Display.Controller.Safety.{here, next, stays_hidden}

-- Every image can be loaded, and every name is a scene.
abbrev a_world : World ℕ
a_world = record {
  load = λ path. some (length path);
  source = λ name. some true;
  current_scene = some (some (codes "Desktop"));
}

-- A scene is chosen for sensitive files, and the risk accepted.
abbrev a_choice : DisplaySettings
a_choice = record {
  sensitive = record { mode = DisplayMode.custom_scene; image_path = []; scene = codes "Break" };
  connection = record {
    mode = DisplayMode.custom_image;
    image_path = codes "lost.png";
    scene = [];
  };
  custom_scene_risk_accepted = true;
}

resolve_iff_example :
    (resolve_display_action a_choice Mode.sensitive ≡ DisplayAction.custom_scene)
    ↔ Takes DisplayAction.custom_scene a_choice Mode.sensitive
resolve_iff_example = resolve_iff DisplayAction.custom_scene a_choice Mode.sensitive

-- New settings, a sensitive file, and the two tasks that they queue.
abbrev shown : Controller ℕ
shown = apply_task a_world (
    apply_task a_world
      (privacy_mode_changed (update_settings a_choice (make_controller a_world)) Mode.sensitive))

test_scene :
    (shown.overlay_required ≡ false)
    × (shown.custom_scene_active ≡ true)
    × (shown.scene_log ≡ codes "Break" ∷ [])
    × (shown.previous_scene ≡ codes "Desktop")
unfolding apply_task privacy_mode_changed update_settings make_controller
test_scene = (refl, refl, refl, refl)

stays_hidden_example :
    (shown.overlay_required ≡ true)
    ⊎ ((shown.custom_scene_active ≡ true)
        × (shown.active_target_scene ≢ [])
        × ((earlier : List Bytes) × (shown.scene_log ≡ shown.active_target_scene ∷ earlier)))
stays_hidden_example =
    stays_hidden a_world
      (next
        (next (next (next here (configures a_choice)) (changes Mode.sensitive)) (applies a_world))
        (applies a_world))
      (omega arith) (unfold apply_task privacy_mode_changed update_settings make_controller in refl)
