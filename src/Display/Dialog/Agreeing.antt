-- ===== src/Display/Dialog/Agreeing.antt =====
-- The widgets of the settings dialog that `refresh_controls` hides.
use obs_vscode_privacy_guard.Base.{Bool, arith, true, ◌≡◌}
use obs_vscode_privacy_guard.Privacy.{Mode}
use obs_vscode_privacy_guard.Display.{resolve_display_action}
use obs_vscode_privacy_guard.Display.Renderer.{World, load_privacy_image}
use obs_vscode_privacy_guard.Display.Controller.{scene_exists}
use obs_vscode_privacy_guard.Display.Dialog.{Form, press_ok, refresh_controls, settings_of}

-- Two forms that differ only in widgets that are hidden.
pub record Agrees (f f' : Form) : Type 0 where
  pub same_enabled : f.protection_enabled ≡ f'.protection_enabled
  pub same_sensitive : f.sensitive_mode ≡ f'.sensitive_mode
  pub same_connection : f.connection_mode ≡ f'.connection_mode
  pub same_sensitive_image :
      (refresh_controls f).sensitive_image_row ≡ true → f.sensitive_image ≡ f'.sensitive_image
  pub same_sensitive_scene :
      (refresh_controls f).sensitive_scene_row ≡ true → f.sensitive_scene ≡ f'.sensitive_scene
  pub same_connection_image :
      (refresh_controls f).connection_image_row ≡ true → f.connection_image ≡ f'.connection_image
  pub same_connection_scene :
      (refresh_controls f).connection_scene_row ≡ true → f.connection_scene ≡ f'.connection_scene
  pub same_risk : (refresh_controls f).risk_accepted ≡ true → f.risk_accepted ≡ f'.risk_accepted

resolve-Agrees :
    (f f' : Form) (m : Mode)
    → Agrees f f'
    → resolve_display_action (settings_of f) m ≡ resolve_display_action (settings_of f') m
unfolding resolve_display_action settings_of refresh_controls
resolve-Agrees f f' m h = ground (arith, h)

module _ {Image : Type 0} where
  press_ok-Agrees :
      (w : World Image) (enabled says_yes : Bool) (f f' : Form)
      → Agrees f f'
      → press_ok w enabled says_yes f ≡ press_ok w enabled says_yes f'
  unfolding press_ok load_privacy_image scene_exists refresh_controls
  press_ok-Agrees w enabled says_yes f f' h = ground (arith, h)

-- What the dialog hides does not count: forms that differ only in widgets that are hidden get the same
-- answer to OK, and as settings they lead to the same action in every mode.
pub hidden_ignored :
    {Image : Type 0} (w : World Image) (enabled says_yes : Bool) (f f' : Form) (m : Mode)
    → Agrees f f'
    → (press_ok w enabled says_yes f ≡ press_ok w enabled says_yes f')
      × (resolve_display_action (settings_of f) m ≡ resolve_display_action (settings_of f') m)
hidden_ignored w enabled says_yes f f' m h =
    (press_ok-Agrees w enabled says_yes f f' h, resolve-Agrees f f' m h)
