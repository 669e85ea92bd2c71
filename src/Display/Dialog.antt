-- ===== src/Display/Dialog.antt =====
-- The settings dialog of obs-plugin/src/protection-display.cpp: what its widgets hold when it
-- opens, the checks of its OK button and what it does with the settings. A text is the bytes of its
-- UTF-8. The layout of the widgets is not modelled.
pub mod Reopened
pub mod Unedited
pub mod Accepted
pub mod Agreeing
pub mod Confirmed
pub mod Armed
pub mod Boxes
mod Tests
use obs_vscode_privacy_guard.Base.{
  Bool, Bytes, List, Option, [], codes, equal, false, if◌then◌else◌, is_nil, none, not, some, true,
  ℕ, ◌&&◌, ◌++◌, ◌||◌, ◌∷◌,
}
use obs_vscode_privacy_guard.Privacy.{PrivacyState, mode, set_enabled}
use obs_vscode_privacy_guard.Display.{
  DisplayMode, DisplaySettings, is_custom_image, is_custom_scene,
}
use obs_vscode_privacy_guard.Display.Renderer.{World, load_privacy_image}
use obs_vscode_privacy_guard.Display.Controller.{Controller, scene_exists}
use obs_vscode_privacy_guard.Display.Controller.Events.{update_settings}

-- A `QComboBox` with data of the type `D`. Without a current item its data is the default of `D`.
pub record ComboBox (D : Type 0) : Type 1 where
  pub Box : Type 0
  pub empty_box : Box
  pub add_item : (text : Bytes) → D → Box → Box
  pub find_data : D → Box → Option ℕ
  pub set_current_index : ℕ → Box → Box
  pub current_data : Box → D

abbrev pub index_or_first : Option ℕ → ℕ
index_or_first none = 0
index_or_first (some index) = index

module _ (q : ComboBox DisplayMode) where
  abbrev pub selected_display_mode : q.Box → DisplayMode
  selected_display_mode combo = q.current_data combo

  unfoldable pub populate_display_modes : DisplayMode → q.Box
  populate_display_modes selected =
      let box = q.add_item (codes "Custom OBS scene (user managed)") DisplayMode.custom_scene (
        q.add_item (codes "Custom image (post-render protected)") DisplayMode.custom_image (
          q.add_item (codes "Built-in Privacy Guard image (recommended)") DisplayMode.built_in_image
            q.empty_box)) in
      q.set_current_index (index_or_first (q.find_data selected box)) box

-- The names that `obs_frontend_get_scene_names` returns; `none` is null.
abbrev pub scene_names : Option (List Bytes) → List Bytes
scene_names none = []
scene_names (some names) = names

module _ (q : ComboBox Bytes) where
  -- The loop over the names of the scenes: the box, and whether the selected one is among them.
  unfoldable pub add_scenes : List Bytes → Bytes → q.Box → Bool → q.Box × Bool
  add_scenes [] selected box found = (box, found)
  add_scenes (name ∷ names) selected box found =
      add_scenes names selected (q.add_item name name box) (found || equal name selected)

  abbrev pub select_index : Option ℕ → q.Box → q.Box
  select_index none box = box
  select_index (some index) box = q.set_current_index index box

  unfoldable pub populate_scene_combo : Option (List Bytes) → Bytes → q.Box
  unfolding add_scenes
  populate_scene_combo scenes selected =
      let (box, found) = add_scenes (scene_names scenes) selected q.empty_box false in
      let box' =
        if not (is_nil selected) && not found
        then q.add_item (codes "Missing: " ++ selected) selected box
        else box in
      select_index (q.find_data selected box') box'

-- What the widgets hold: the data of the four combo boxes, the two texts and the two check boxes.
pub record Form : Type 0 where
  pub protection_enabled : Bool
  pub sensitive_mode : DisplayMode
  pub sensitive_image : Bytes
  pub sensitive_scene : Bytes
  pub connection_mode : DisplayMode
  pub connection_image : Bytes
  pub connection_scene : Bytes
  pub risk_accepted : Bool

-- What `refresh_controls` shows.
pub record Visible : Type 0 where
  pub sensitive_image_row : Bool
  pub sensitive_scene_row : Bool
  pub connection_image_row : Bool
  pub connection_scene_row : Bool
  pub image_note : Bool
  pub warning : Bool
  pub risk_accepted : Bool

unfoldable pub refresh_controls : Form → Visible
refresh_controls f =
    let any_custom_image = is_custom_image f.sensitive_mode || is_custom_image f.connection_mode in
    let any_custom_scene = is_custom_scene f.sensitive_mode || is_custom_scene f.connection_mode in
    record {
      sensitive_image_row = is_custom_image f.sensitive_mode;
      sensitive_scene_row = is_custom_scene f.sensitive_mode;
      connection_image_row = is_custom_image f.connection_mode;
      connection_scene_row = is_custom_scene f.connection_mode;
      image_note = any_custom_image;
      warning = any_custom_scene;
      risk_accepted = any_custom_scene;
    }

unfoldable pub open_form :
    ComboBox DisplayMode → ComboBox Bytes → Option (List Bytes) → Bool → DisplaySettings → Form
unfolding populate_display_modes populate_scene_combo
open_form modes scenes names enabled current = record {
  protection_enabled = enabled;
  sensitive_mode =
      selected_display_mode modes (populate_display_modes modes current.sensitive.mode);
  sensitive_image = current.sensitive.image_path;
  sensitive_scene = scenes.current_data (populate_scene_combo scenes names current.sensitive.scene);
  connection_mode =
      selected_display_mode modes (populate_display_modes modes current.connection.mode);
  connection_image = current.connection.image_path;
  connection_scene =
      scenes.current_data (populate_scene_combo scenes names current.connection.scene);
  risk_accepted = current.custom_scene_risk_accepted;
}

-- What a press of OK leads to: a message, the question about disabling answered otherwise than with
-- Yes, or the end of the dialog.
pub data Verdict : Type 0 where
  risk_required image_unavailable scene_unavailable not_confirmed accepted : Verdict

-- What the user does: edits widgets, picks a file for one of the images or none, presses OK with an
-- answer to the question that may come, or cancels. The images and scenes are those of that moment.
pub data Action (Image : Type 0) : Type 0 where
  edits : Form → Action Image
  chooses_sensitive chooses_connection : Bytes → Action Image
  presses_ok : World Image → (says_yes : Bool) → Action Image
  cancels : Action Image

unfoldable pub choose_image : Bytes → Bytes → Bytes
choose_image selected text = if not (is_nil selected) then selected else text

unfoldable pub settings_of : Form → DisplaySettings
settings_of f = record {
  sensitive = record {
    mode = f.sensitive_mode;
    image_path = f.sensitive_image;
    scene = f.sensitive_scene;
  };
  connection = record {
    mode = f.connection_mode;
    image_path = f.connection_image;
    scene = f.connection_scene;
  };
  custom_scene_risk_accepted = f.risk_accepted;
}

-- The dialog stays open after any other verdict.
abbrev pub after_ok : Verdict → Form → Option Form → Option Form
after_ok accepted f later = some f
after_ok risk_required f later = later
after_ok image_unavailable f later = later
after_ok scene_unavailable f later = later
after_ok not_confirmed f later = later

module _ {Image : Type 0} where
  abbrev pub is_null : Option Image → Bool
  is_null none = true
  is_null (some image) = false

  unfoldable pub press_ok : World Image → (enabled says_yes : Bool) → Form → Verdict
  unfolding load_privacy_image scene_exists
  press_ok w enabled says_yes f =
      let any_custom_scene =
        is_custom_scene f.sensitive_mode || is_custom_scene f.connection_mode in
      if any_custom_scene && not f.risk_accepted
      then risk_required
      else if (is_custom_image f.sensitive_mode && is_null (load_privacy_image w f.sensitive_image))
          || (is_custom_image f.connection_mode
              && is_null (load_privacy_image w f.connection_image))
      then image_unavailable
      else if (is_custom_scene f.sensitive_mode && not (scene_exists w f.sensitive_scene))
          || (is_custom_scene f.connection_mode && not (scene_exists w f.connection_scene))
      then scene_unavailable
      else if enabled && not f.protection_enabled && not says_yes
      then not_confirmed
      else accepted

  -- `dialog.exec()`: the form that was accepted. `enabled` is that of the privacy state, which nothing
  -- else sets meanwhile.
  unfoldable pub exec : (enabled : Bool) → Form → List (Action Image) → Option Form
  unfolding press_ok choose_image
  exec enabled f [] = none
  exec enabled f (edits f' ∷ actions) = exec enabled f' actions
  exec enabled f (chooses_sensitive selected ∷ actions) =
      exec enabled (record f { sensitive_image = choose_image selected f.sensitive_image }) actions
  exec enabled f (chooses_connection selected ∷ actions) =
      exec enabled (record f { connection_image = choose_image selected f.connection_image })
        actions
  exec enabled f (presses_ok w says_yes ∷ actions) =
      after_ok (press_ok w enabled says_yes f) f (exec enabled f actions)
  exec enabled f (cancels ∷ actions) = none

  -- The end of `show_settings_dialog`.
  unfoldable pub apply_form :
      Option Form → Controller Image × PrivacyState → Controller Image × PrivacyState
  unfolding update_settings set_enabled settings_of
  apply_form none (d, st) = (d, st)
  apply_form (some f) (d, st) =
      (update_settings (settings_of f) d, set_enabled st f.protection_enabled)

  unfoldable pub show_settings_dialog :
      ComboBox DisplayMode
      → ComboBox Bytes
      → Option (List Bytes)
      → List (Action Image)
      → Controller Image × PrivacyState
      → Controller Image × PrivacyState
  unfolding open_form exec apply_form
  show_settings_dialog modes scenes names actions (d, st) =
      apply_form (exec st.enabled (open_form modes scenes names st.enabled d.settings) actions)
        (d, st)
