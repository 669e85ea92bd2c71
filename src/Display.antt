-- ===== src/Display.antt =====
-- obs-plugin/src/display-settings.hpp and display-settings.cpp: what to show in each privacy mode. The
-- controller that shows it is in the module Controller below this one.
pub mod Resolve
pub mod Renderer
pub mod Controller
pub mod Storage
pub mod Drawing
pub mod Layout
pub mod Dialog
mod Tests
use obs_vscode_privacy_guard.Base.{
  Bool, Bytes, [], codes, false, if◌then◌else◌, is_nil, not, refl, true, ◌&&◌, ◌≡◌,
}
use obs_vscode_privacy_guard.Privacy.{Mode}

pub data DisplayMode : Type 0 where
  built_in_image custom_image custom_scene : DisplayMode

pub data DisplayAction : Type 0 where
  normal_output built_in_image custom_image custom_scene : DisplayAction

pub record EventDisplaySettings : Type 0 where
  pub mode : DisplayMode
  pub image_path : Bytes
  pub scene : Bytes

pub record DisplaySettings : Type 0 where
  pub sensitive : EventDisplaySettings
  pub connection : EventDisplaySettings
  pub custom_scene_risk_accepted : Bool

abbrev pub default_event : EventDisplaySettings
default_event = record { mode = DisplayMode.built_in_image; image_path = []; scene = [] }

-- `DisplaySettings{}`
abbrev pub default_settings : DisplaySettings
default_settings = record {
  sensitive = default_event;
  connection = default_event;
  custom_scene_risk_accepted = false;
}

-- The tests `== DisplayMode::CustomScene` and `== DisplayMode::CustomImage`.
abbrev pub is_custom_scene : DisplayMode → Bool
is_custom_scene DisplayMode.custom_scene = true
is_custom_scene _ = false

abbrev pub is_custom_image : DisplayMode → Bool
is_custom_image DisplayMode.custom_image = true
is_custom_image _ = false

-- `mode == Mode::Sensitive ? settings.sensitive : settings.connection`
abbrev pub event_of : DisplaySettings → Mode → EventDisplaySettings
event_of settings Mode.sensitive = settings.sensitive
event_of settings _ = settings.connection

-- `mode == Mode::Safe || mode == Mode::Disabled`
abbrev pub is_open_mode : Mode → Bool
is_open_mode Mode.safe = true
is_open_mode Mode.disabled = true
is_open_mode _ = false

unfoldable pub resolve_display_action : DisplaySettings → Mode → DisplayAction
resolve_display_action settings m =
    if is_open_mode m
    then DisplayAction.normal_output
    else let event = event_of settings m in
      if is_custom_scene event.mode
        && settings.custom_scene_risk_accepted
        && not (is_nil event.scene)
      then DisplayAction.custom_scene
      else if is_custom_image event.mode && not (is_nil event.image_path)
      then DisplayAction.custom_image
      else DisplayAction.built_in_image

abbrev is_built_in : DisplayAction → Bool
is_built_in DisplayAction.built_in_image = true
is_built_in _ = false

abbrev is_image : DisplayAction → Bool
is_image DisplayAction.custom_image = true
is_image _ = false

abbrev is_scene_action : DisplayAction → Bool
is_scene_action DisplayAction.custom_scene = true
is_scene_action _ = false

abbrev is_normal : DisplayAction → Bool
is_normal DisplayAction.normal_output = true
is_normal _ = false

-- The settings are changed step by step, and every step is checked, as the source does at compile
-- time.
pub secure_defaults_are_preserved : Bool
unfolding resolve_display_action
secure_defaults_are_preserved =
    let s0 = default_settings in
    let s1 = record s0 { sensitive = record (s0.sensitive) { mode = DisplayMode.custom_image } } in
    let s2 = record s1 { sensitive = record (s1.sensitive) { image_path = codes "privacy.png" } } in
    let s3 = record s2 {
      sensitive = record (s2.sensitive) {
        mode = DisplayMode.custom_scene;
        scene = codes "Privacy Scene";
      };
    } in
    let s4 = record s3 { custom_scene_risk_accepted = true } in
    is_built_in (resolve_display_action s0 Mode.sensitive)
    && is_built_in (resolve_display_action s0 Mode.disconnected)
    && is_built_in (resolve_display_action s1 Mode.sensitive)
    && is_image (resolve_display_action s2 Mode.sensitive)
    && is_built_in (resolve_display_action s3 Mode.sensitive)
    && is_scene_action (resolve_display_action s4 Mode.sensitive)
    && is_normal (resolve_display_action s4 Mode.safe)

-- The `static_assert`.
test_secure_defaults : secure_defaults_are_preserved ≡ true
unfolding secure_defaults_are_preserved
test_secure_defaults = refl
