-- ===== src/Plugin/Restored.antt =====
-- The scene of the user that OBS was on, once the mode is no protected one any more and the UI
-- thread has caught up (obs-plugin/src/plugin-main.cpp and obs-plugin/src/protection-display.cpp).
use obs_vscode_privacy_guard.Base.{Bytes, List, false, some, true, ◌≡◌}
use obs_vscode_privacy_guard.Display.Renderer.{World}
use obs_vscode_privacy_guard.Display.Controller.{Controller, is_true}
use obs_vscode_privacy_guard.Plugin.{Plugin}

module _ {Image : Type 0} where
  -- OBS has the scene.
  abbrev pub HasScene : Bytes → World Image → Type 0
  HasScene name w = is_true (w.source name) ≡ true

  -- The plugin's controller has been switched to these scenes, and is on no custom scene.
  abbrev pub IsBack : List Bytes → Plugin Image → Type 0
  IsBack scenes p =
      (d : Controller Image) × (p.display_controller ≡ some d)
      × (d.custom_scene_active ≡ false)
      × (d.scene_log ≡ scenes)
