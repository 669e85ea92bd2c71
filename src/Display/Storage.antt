-- ===== src/Display/Storage.antt =====
-- `load_display_mode` and `save_load` of obs-plugin/src/protection-display.cpp: the settings in OBS's
-- scene collection. The stored object is of the type `Data` of the interface below, with what OBS
-- documents of its accessors: a value is read back under the key that it was set under, other keys
-- stay as they are, and a key that was set has a user value.
pub mod Accessors
pub mod RoundTrip
mod Tests
use obs_vscode_privacy_guard.Base.{
  Bool, Bytes, Option, [], codes, false, if◌then◌else◌, ltb, negsuc, none, not, pos, some, true, ℕ,
  ℤ, ◌==◌,
}
use obs_vscode_privacy_guard.Display.{DisplayMode, DisplaySettings, default_settings}
use obs_vscode_privacy_guard.Display.Controller.{Controller}
use obs_vscode_privacy_guard.Display.Controller.Events.{update_settings}

-- `obs_data_t`: a string that is not there is null, a number 0 and a flag false.
pub record ObsData : Type 1 where
  pub Data : Type 0
  pub create : Data
  pub set_int : Bytes → ℤ → Data → Data
  pub set_string : Bytes → Bytes → Data → Data
  pub set_bool : Bytes → Bool → Data → Data
  pub has_user_value : Bytes → Data → Bool
  pub get_int : Bytes → Data → ℤ
  pub get_string : Bytes → Data → Option Bytes
  pub get_bool : Bytes → Data → Bool

abbrev pub sensitive_mode_key : Bytes
sensitive_mode_key = codes "sensitive_mode"

abbrev pub sensitive_image_key : Bytes
sensitive_image_key = codes "sensitive_image"

abbrev pub sensitive_scene_key : Bytes
sensitive_scene_key = codes "sensitive_scene"

abbrev pub connection_mode_key : Bytes
connection_mode_key = codes "connection_mode"

abbrev pub connection_image_key : Bytes
connection_image_key = codes "connection_image"

abbrev pub connection_scene_key : Bytes
connection_scene_key = codes "connection_scene"

abbrev pub risk_accepted_key : Bytes
risk_accepted_key = codes "custom_scene_risk_accepted"

abbrev pub legacy_use_sensitive_scene_key : Bytes
legacy_use_sensitive_scene_key = codes "use_sensitive_scene"

abbrev pub legacy_use_connection_scene_key : Bytes
legacy_use_connection_scene_key = codes "use_connection_scene"

-- `static_cast<long long>` of a mode, and `static_cast<DisplayMode>` of a number in its range.
abbrev pub number_of : DisplayMode → ℤ
number_of DisplayMode.built_in_image = pos 0
number_of DisplayMode.custom_image = pos 1
number_of DisplayMode.custom_scene = pos 2

abbrev pub mode_of : ℕ → DisplayMode
mode_of n =
    if n == 0
    then DisplayMode.built_in_image
    else if n == 1
    then DisplayMode.custom_image
    else DisplayMode.custom_scene

-- The number that is stored, if it is in the range of the modes.
abbrev pub mode_in_range : ℤ → DisplayMode
mode_in_range (negsuc n) = DisplayMode.built_in_image
mode_in_range (pos n) = if ltb 2 n then DisplayMode.built_in_image else mode_of n

-- `text != nullptr ? text : ""`
abbrev pub or_empty : Option Bytes → Bytes
or_empty none = []
or_empty (some s) = s

module _ (o : ObsData) where
  open o use {
    Data, create, set_int, set_string, set_bool, has_user_value, get_int, get_string, get_bool,
  }

  unfoldable pub load_display_mode : Data → Bytes → Bytes → DisplayMode
  load_display_mode d key legacy_scene_key =
      if not (has_user_value key d)
      then (if get_bool legacy_scene_key d
          then DisplayMode.custom_scene
          else DisplayMode.built_in_image)
      else mode_in_range (get_int key d)

  -- The object that `save_load` stores.
  unfoldable pub save : DisplaySettings → Data
  save s =
      let d1 = set_int sensitive_mode_key (number_of s.sensitive.mode) create in
      let d2 = set_string sensitive_image_key s.sensitive.image_path d1 in
      let d3 = set_string sensitive_scene_key s.sensitive.scene d2 in
      let d4 = set_int connection_mode_key (number_of s.connection.mode) d3 in
      let d5 = set_string connection_image_key s.connection.image_path d4 in
      let d6 = set_string connection_scene_key s.connection.scene d5 in
      set_bool risk_accepted_key s.custom_scene_risk_accepted d6

  -- The settings that `save_load` reads, of an object that is there.
  unfoldable pub load_settings : Data → DisplaySettings
  unfolding load_display_mode
  load_settings d = record {
    sensitive = record {
      mode = load_display_mode d sensitive_mode_key legacy_use_sensitive_scene_key;
      image_path = or_empty (get_string sensitive_image_key d);
      scene = or_empty (get_string sensitive_scene_key d);
    };
    connection = record {
      mode = load_display_mode d connection_mode_key legacy_use_connection_scene_key;
      image_path = or_empty (get_string connection_image_key d);
      scene = or_empty (get_string connection_scene_key d);
    };
    custom_scene_risk_accepted = get_bool risk_accepted_key d;
  }

  -- `save_load`, with the object that the scene collection has for the plugin.
  unfoldable pub save_load :
      {Image : Type 0} → Bool → Option Data → Controller Image → Option Data × Controller Image
  unfolding save load_settings update_settings
  save_load true stored d = (some (save d.settings), d)
  save_load false none d = (none, update_settings default_settings d)
  save_load false (some object) d = (some object, update_settings (load_settings object) d)
