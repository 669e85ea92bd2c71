-- ===== src/Display/Dialog/Tests.antt =====
-- The theorems on the settings dialog at a concrete form and state.
use obs_vscode_privacy_guard.Base.{
  Bytes, List, Option, [], arith, codes, equal, false, if◌then◌else◌, none, refl, some, true, ℕ,
  ◌∷◌, ◌≡◌, ◌≢◌,
}
use obs_vscode_privacy_guard.Privacy.{Mode, PrivacyState, make_state, mode}
use obs_vscode_privacy_guard.Display.{DisplayMode, DisplaySettings, resolve_display_action}
use obs_vscode_privacy_guard.Display.Renderer.{World}
use obs_vscode_privacy_guard.Display.Controller.{Controller, make_controller}
use obs_vscode_privacy_guard.Display.Dialog.{
  Action, Form, edits, press_ok, presses_ok, refresh_controls, settings_of, show_settings_dialog,
}
use obs_vscode_privacy_guard.Privacy.History.{closes, opens, ticks}
use obs_vscode_privacy_guard.Display.Dialog.Boxes.{
  mode_box, mode_box-ComboLaws, scene_box, scene_box-ComboLaws,
}
use obs_vscode_privacy_guard.Display.Dialog.Agreeing.{hidden_ignored}
use obs_vscode_privacy_guard.Display.Dialog.Unedited.{show_settings_dialog-unedited}
use obs_vscode_privacy_guard.Display.Dialog.Armed.{Deed, asks, makes, perform_all, stays_armed}

-- The image `lost.png` can be loaded, and `Break` is a scene.
abbrev a_world : World ℕ
a_world = record {
  load = λ path. if equal path (codes "lost.png") then some 7 else none;
  source = λ name. if equal name (codes "Break") then some true else none;
  current_scene = some (some (codes "Desktop"));
}

abbrev a_form : Form
a_form = record {
  protection_enabled = true;
  sensitive_mode = DisplayMode.custom_scene;
  sensitive_image = [];
  sensitive_scene = codes "Break";
  connection_mode = DisplayMode.custom_image;
  connection_image = codes "lost.png";
  connection_scene = codes "Gone";
  risk_accepted = true;
}

-- The settings that the form stands for.
abbrev a_choice : DisplaySettings
a_choice = record {
  sensitive = record { mode = DisplayMode.custom_scene; image_path = []; scene = codes "Break" };
  connection = record {
    mode = DisplayMode.custom_image;
    image_path = codes "lost.png";
    scene = codes "Gone";
  };
  custom_scene_risk_accepted = true;
}

abbrev a_controller : Controller ℕ
a_controller = record (make_controller a_world) { settings = a_choice }

abbrev a_state : PrivacyState
a_state = record {
  clients = [];
  disconnected_clients = 0;
  liveness_timeout = 3000;
  next_connection_id = 1;
  enabled = true;
  untrusted_failure_latched = false;
}

-- A press of OK that is answered with Cancel, and one that needs no answer.
abbrev presses : List (Action ℕ)
presses = presses_ok a_world false ∷ presses_ok a_world false ∷ []

-- Protection is switched off, and the question answered with Cancel.
abbrev disabling : List (Action ℕ)
disabling = edits (record a_form { protection_enabled = false }) ∷ presses

abbrev scenes : Option (List Bytes)
scenes = some (codes "Desktop" ∷ codes "Break" ∷ [])

show_settings_dialog-unedited_example :
    ((show_settings_dialog mode_box scene_box scenes presses (a_controller, a_state)).0.settings
      ≡ a_choice)
    × ((show_settings_dialog mode_box scene_box scenes presses (a_controller, a_state)).1 ≡ a_state)
show_settings_dialog-unedited_example =
    show_settings_dialog-unedited mode_box scene_box mode_box-ComboLaws scene_box-ComboLaws scenes
      presses a_controller a_state tt (λ e. ground (arith, e)) (λ e. ground (arith, e))

-- Two connections, the dialog while one of them closes, and a tick.
abbrev deeds : List (Deed ℕ)
deeds =
    makes (opens 5 ∷ opens 6 ∷ [])
    ∷ asks a_controller scenes disabling (closes 1 ∷ [])
    ∷ makes (ticks 9 ∷ [])
    ∷ []

stays_armed_example :
    ((perform_all mode_box scene_box (make_state 3000) deeds).enabled ≡ true)
    × (mode (perform_all mode_box scene_box (make_state 3000) deeds) ≢ Mode.disabled)
stays_armed_example =
    stays_armed mode_box scene_box 3000 deeds (tt, (tt, (refl, (refl, tt)), (tt, tt)))

-- The same with a scene for the event that shows an image.
abbrev other_form : Form
other_form = record a_form { connection_scene = codes "Elsewhere" }

hidden_ignored_example :
    (press_ok a_world true false a_form ≡ press_ok a_world true false other_form)
    × (resolve_display_action (settings_of a_form) Mode.disconnected
        ≡ resolve_display_action (settings_of other_form) Mode.disconnected)
unfolding refresh_controls
hidden_ignored_example =
    hidden_ignored a_world true false a_form other_form Mode.disconnected (record {
      same_enabled = refl;
      same_sensitive = refl;
      same_connection = refl;
      same_sensitive_image = λ _. refl;
      same_sensitive_scene = λ _. refl;
      same_connection_image = λ _. refl;
      same_connection_scene = λ e. ground (arith, e);
      same_risk = λ _. refl;
    })
