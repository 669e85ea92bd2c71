-- ===== src/Display/Storage/RoundTrip.antt =====
-- `save_load`: saving and then loading.
use obs_vscode_privacy_guard.Display.Storage.Accessors.{IsObsData}
use obs_vscode_privacy_guard.Base.{
  Bytes, Option, ap, arith, equal, false, if_cases, refl, some, true, ◌||◌, ◌∙◌, ◌≡◌,
}
use obs_vscode_privacy_guard.Display.{DisplayMode, DisplaySettings}
use obs_vscode_privacy_guard.Display.Controller.{Controller, is_protected_mode, queue_apply}
use obs_vscode_privacy_guard.Display.Controller.Events.{update_settings}
use obs_vscode_privacy_guard.Display.Storage.{
  ObsData, connection_image_key, connection_mode_key, connection_scene_key,
  legacy_use_connection_scene_key, legacy_use_sensitive_scene_key, load_display_mode, load_settings,
  mode_in_range, number_of, or_empty, risk_accepted_key, save, save_load, sensitive_image_key,
  sensitive_mode_key, sensitive_scene_key,
}

mode_in_range-number_of : (m : DisplayMode) → mode_in_range (number_of m) ≡ m
mode_in_range-number_of DisplayMode.built_in_image = refl
mode_in_range-number_of DisplayMode.custom_image = refl
mode_in_range-number_of DisplayMode.custom_scene = refl

same_settings :
    (s t : DisplaySettings)
    → s.sensitive.mode ≡ t.sensitive.mode
    → s.sensitive.image_path ≡ t.sensitive.image_path
    → s.sensitive.scene ≡ t.sensitive.scene
    → s.connection.mode ≡ t.connection.mode
    → s.connection.image_path ≡ t.connection.image_path
    → s.connection.scene ≡ t.connection.scene
    → s.custom_scene_risk_accepted ≡ t.custom_scene_risk_accepted
    → s ≡ t
same_settings s t a b c d e f g = ground arith

module _ (o : ObsData) (l : IsObsData o) where
  -- A mode that is there as a user value.
  load_display_mode-stored :
      (d : o.Data) (key legacy : Bytes) (m : DisplayMode)
      → o.has_user_value key d ≡ true
      → o.get_int key d ≡ number_of m
      → load_display_mode o d key legacy ≡ m
  unfolding load_display_mode
  load_display_mode-stored d key legacy m there value =
      rw there (rw value (mode_in_range-number_of m))

  -- The value and the presence of a number behind the six entries that follow it, or the three.
  int_behind_strings :
      (k j j' : Bytes) (s s' : Bytes) (d : o.Data)
      → equal k j ≡ false
      → equal k j' ≡ false
      → (o.get_int k (o.set_string j' s' (o.set_string j s d)) ≡ o.get_int k d)
        × (o.has_user_value k (o.set_string j' s' (o.set_string j s d)) ≡ o.has_user_value k d)
  int_behind_strings k j j' s s' d e e' = (
    l.int_past_string k j' s' (o.set_string j s d) e' ∙ l.int_past_string k j s d e,
    l.value_past_string k j' s' (o.set_string j s d) e' ∙ l.value_past_string k j s d e,
  )

  abbrev settings_1 : DisplaySettings → o.Data
  settings_1 s = o.set_int sensitive_mode_key (number_of s.sensitive.mode) o.create

  abbrev settings_3 : DisplaySettings → o.Data
  settings_3 s =
      o.set_string sensitive_scene_key s.sensitive.scene
        (o.set_string sensitive_image_key s.sensitive.image_path (settings_1 s))

  abbrev settings_4 : DisplaySettings → o.Data
  settings_4 s = o.set_int connection_mode_key (number_of s.connection.mode) (settings_3 s)

  abbrev settings_6 : DisplaySettings → o.Data
  settings_6 s =
      o.set_string connection_scene_key s.connection.scene
        (o.set_string connection_image_key s.connection.image_path (settings_4 s))

  save_is :
      (s : DisplaySettings)
      → save o s ≡ o.set_bool risk_accepted_key s.custom_scene_risk_accepted (settings_6 s)
  unfolding save
  save_is s = refl

  connection_mode :
      (s : DisplaySettings)
      → (o.get_int connection_mode_key (save o s) ≡ number_of s.connection.mode)
        × (o.has_user_value connection_mode_key (save o s) ≡ true)
  unfolding save equal
  connection_mode s =
      let (value, there) =
        int_behind_strings connection_mode_key connection_image_key connection_scene_key
          s.connection.image_path s.connection.scene (settings_4 s) refl refl in
      (
        l.int_past_bool connection_mode_key risk_accepted_key s.custom_scene_risk_accepted
              (settings_6 s) refl
            ∙ value
            ∙ l.int_int connection_mode_key (number_of s.connection.mode) (settings_3 s),
        l.value_past_bool connection_mode_key risk_accepted_key s.custom_scene_risk_accepted
              (settings_6 s) refl
            ∙ there
            ∙ l.value_int connection_mode_key (number_of s.connection.mode) (settings_3 s),
      )

  sensitive_mode :
      (s : DisplaySettings)
      → (o.get_int sensitive_mode_key (save o s) ≡ number_of s.sensitive.mode)
        × (o.has_user_value sensitive_mode_key (save o s) ≡ true)
  unfolding save equal
  sensitive_mode s =
      let key = sensitive_mode_key in
      let m = number_of s.connection.mode in
      let (value, there) =
        int_behind_strings key connection_image_key connection_scene_key s.connection.image_path
          s.connection.scene (settings_4 s) refl refl in
      let (value', there') =
        int_behind_strings key sensitive_image_key sensitive_scene_key s.sensitive.image_path
          s.sensitive.scene (settings_1 s) refl refl in
      let b = s.custom_scene_risk_accepted in
      (
        l.int_past_bool key risk_accepted_key b (settings_6 s) refl
            ∙ value
            ∙ l.int_past_int key connection_mode_key m (settings_3 s) refl
            ∙ value'
            ∙ l.int_int key (number_of s.sensitive.mode) o.create,
        l.value_past_bool key risk_accepted_key b (settings_6 s) refl
            ∙ there
            ∙ l.value_past_int key connection_mode_key m (settings_3 s) refl
            ∙ there'
            ∙ l.value_int key (number_of s.sensitive.mode) o.create,
      )

  connection_strings :
      (s : DisplaySettings)
      → (o.get_string connection_image_key (save o s) ≡ some s.connection.image_path)
        × (o.get_string connection_scene_key (save o s) ≡ some s.connection.scene)
  unfolding save equal
  connection_strings s =
      let b = s.custom_scene_risk_accepted in
      let with_image = o.set_string connection_image_key s.connection.image_path (settings_4 s) in
      (
        l.string_past_bool connection_image_key risk_accepted_key b (settings_6 s) refl
            ∙ l.string_past_string connection_image_key connection_scene_key s.connection.scene
                with_image refl
            ∙ l.string_string connection_image_key s.connection.image_path (settings_4 s),
        l.string_past_bool connection_scene_key risk_accepted_key b (settings_6 s) refl
            ∙ l.string_string connection_scene_key s.connection.scene with_image,
      )

  -- A string among the entries for sensitive files, behind those for the connection.
  early_string :
      (s : DisplaySettings) (key : Bytes)
      → equal key risk_accepted_key ≡ false
      → equal key connection_scene_key ≡ false
      → equal key connection_image_key ≡ false
      → equal key connection_mode_key ≡ false
      → o.get_string key (save o s) ≡ o.get_string key (settings_3 s)
  unfolding save
  early_string s key e0 e1 e2 e3 =
      l.string_past_bool key risk_accepted_key s.custom_scene_risk_accepted (settings_6 s) e0
      ∙ l.string_past_string key connection_scene_key s.connection.scene
          (o.set_string connection_image_key s.connection.image_path (settings_4 s)) e1
      ∙ l.string_past_string key connection_image_key s.connection.image_path (settings_4 s) e2
      ∙ l.string_past_int key connection_mode_key (number_of s.connection.mode) (settings_3 s) e3

  sensitive_strings :
      (s : DisplaySettings)
      → (o.get_string sensitive_image_key (save o s) ≡ some s.sensitive.image_path)
        × (o.get_string sensitive_scene_key (save o s) ≡ some s.sensitive.scene)
  unfolding equal
  sensitive_strings s =
      let with_image = o.set_string sensitive_image_key s.sensitive.image_path (settings_1 s) in
      (
        early_string s sensitive_image_key refl refl refl refl
            ∙ l.string_past_string sensitive_image_key sensitive_scene_key s.sensitive.scene
                with_image refl
            ∙ l.string_string sensitive_image_key s.sensitive.image_path (settings_1 s),
        early_string s sensitive_scene_key refl refl refl refl
            ∙ l.string_string sensitive_scene_key s.sensitive.scene with_image,
      )

  load_settings-save : (s : DisplaySettings) → load_settings o (save o s) ≡ s
  unfolding load_settings save
  load_settings-save s =
      let (value, there) = sensitive_mode s in
      let (value', there') = connection_mode s in
      let (image, scene) = sensitive_strings s in
      let (image', scene') = connection_strings s in
      let d = save o s in
      same_settings (load_settings o d) s
        (load_display_mode-stored d sensitive_mode_key legacy_use_sensitive_scene_key
          s.sensitive.mode there value)
        (ap or_empty image) (ap or_empty scene)
        (load_display_mode-stored d connection_mode_key legacy_use_connection_scene_key
          s.connection.mode there' value')
        (ap or_empty image') (ap or_empty scene')
        (l.bool_bool risk_accepted_key s.custom_scene_risk_accepted (settings_6 s))

-- Settings that a controller saves are the settings of the controller that loads them, whatever it
-- had before; and it covers the output then if its mode is a protected one.
pub save_load-save :
    {Image : Type 0} (o : ObsData) (d e : Controller Image) (stored : Option o.Data)
    → IsObsData o
    → ((save_load o false (save_load o true stored d).0 e).1.settings ≡ d.settings)
      × ((save_load o false (save_load o true stored d).0 e).1.overlay_required
          ≡ (is_protected_mode e.latest_mode || e.overlay_required))
unfolding save_load update_settings queue_apply
save_load-save {Image = Image} o d e stored l = (
  if_cases (λ (x : Controller Image). x.settings ≡ d.settings) (is_protected_mode e.latest_mode) _ _
      (λ _. load_settings-save o l d.settings) (λ _. load_settings-save o l d.settings),
  ground arith,
)
