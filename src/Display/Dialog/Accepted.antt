-- ===== src/Display/Dialog/Accepted.antt =====
-- The tests of the OK button of the settings dialog, against what the controller then shows.
use obs_vscode_privacy_guard.Base.{Bool, Bytes, List, codes, false, none, true, ◌∷◌, ◌≡◌, ◌≢◌}
use obs_vscode_privacy_guard.Privacy.{Mode}
use obs_vscode_privacy_guard.Display.{
  DisplayAction, DisplayMode, DisplaySettings, EventDisplaySettings, is_custom_image,
  is_custom_scene,
}
use obs_vscode_privacy_guard.Display.Renderer.{Renderer, World}
use obs_vscode_privacy_guard.Display.Controller.{Controller, is_true}
use obs_vscode_privacy_guard.Display.Dialog.{is_null}

abbrev chosen : DisplayMode → DisplayAction
chosen DisplayMode.built_in_image = DisplayAction.built_in_image
chosen DisplayMode.custom_image = DisplayAction.custom_image
chosen DisplayMode.custom_scene = DisplayAction.custom_scene

-- The file of the bundled image for a mode.
abbrev pub bundled : Mode → Bytes
bundled Mode.sensitive = codes ":/privacy-guard/sensitive-file.png"
bundled _ = codes ":/privacy-guard/connection-lost.png"

module _ {Image : Type 0} where
  -- The choice for an event can be shown.
  abbrev IsReady : World Image → Bool → EventDisplaySettings → Type 0
  IsReady w risk event =
      (is_custom_scene event.mode ≡ true → (risk ≡ true) × (is_true (w.source event.scene) ≡ true))
      × (is_custom_image event.mode ≡ true → is_null (w.load event.image_path) ≡ false)

  abbrev AllReady : World Image → DisplaySettings → Type 0
  AllReady w s =
      IsReady w s.custom_scene_risk_accepted s.sensitive
      × IsReady w s.custom_scene_risk_accepted s.connection

  -- What was chosen is what is shown: an overlay with the bundled image for the mode, an overlay with
  -- this image under the watermark, or no overlay but this scene, to which OBS was switched last, under
  -- the watermark.
  abbrev IsShownAs :
      DisplayMode → World Image → Mode → EventDisplaySettings → Controller Image → Type 0
  IsShownAs DisplayMode.built_in_image w m event d =
      (d.overlay_required ≡ true)
      × (d.watermark_required ≡ false)
      × (d.image_renderer.selected_image ≡ w.load (bundled m))
  IsShownAs DisplayMode.custom_image w m event d =
      (d.overlay_required ≡ true)
      × (d.watermark_required ≡ d.watermark_available)
      × (d.image_renderer.selected_image ≡ w.load event.image_path)
      × (w.load event.image_path ≢ none)
  IsShownAs DisplayMode.custom_scene w m event d =
      (d.overlay_required ≡ false)
      × (d.watermark_required ≡ d.watermark_available)
      × (d.custom_scene_active ≡ true)
      × (d.active_target_scene ≡ event.scene)
      × ((earlier : List Bytes) × (d.scene_log ≡ event.scene ∷ earlier))

  abbrev pub IsShown : World Image → Mode → EventDisplaySettings → Controller Image → Type 0
  IsShown w m event d = IsShownAs event.mode w m event d
