-- ===== src/Display/Dialog/Unedited.antt =====
-- The settings dialog that is opened and closed again without an edit.
use obs_vscode_privacy_guard.Base.{
  Bool, Bytes, List, Option, [], arith, false, if_cases, inl, inr, none, refl, some, true, ◌∙◌, ◌∷◌,
  ◌≡◌, ◌≢◌, ◌⊎◌,
}
use obs_vscode_privacy_guard.Privacy.{PrivacyState, same, set_enabled}
use obs_vscode_privacy_guard.Display.{DisplayMode, DisplaySettings}
use obs_vscode_privacy_guard.Display.Controller.{Controller, cover, is_protected_mode, queue_apply}
use obs_vscode_privacy_guard.Display.Controller.Events.{update_settings}
use obs_vscode_privacy_guard.Display.Dialog.{
  Action, ComboBox, Form, Verdict, accepted, after_ok, apply_form, cancels, chooses_connection,
  chooses_sensitive, edits, exec, image_unavailable, not_confirmed, open_form, press_ok, presses_ok,
  risk_required, scene_unavailable, settings_of, show_settings_dialog,
}
use obs_vscode_privacy_guard.Display.Dialog.Reopened.{ComboLaws, open_form-settings_of}

after_ok-same :
    (v : Verdict) (f : Form) (later : Option Form)
    → (later ≡ none) ⊎ (later ≡ some f)
    → (after_ok v f later ≡ none) ⊎ (after_ok v f later ≡ some f)
after_ok-same accepted f later h = inr refl
after_ok-same risk_required f later h = h
after_ok-same image_unavailable f later h = h
after_ok-same scene_unavailable f later h = h
after_ok-same not_confirmed f later h = h

same_self : (b : Bool) → same b b ≡ false → ⊥
same_self true e = ground (arith, e)
same_self false e = ground (arith, e)

set_enabled-same : (st : PrivacyState) → set_enabled st st.enabled ≡ st
unfolding set_enabled
set_enabled-same st =
    if_cases (λ t. t ≡ st) (same st.enabled st.enabled) _ _ (λ _. refl)
      (λ e. absurd (same_self st.enabled e))

module _ {Image : Type 0} where
  -- Nothing is edited or chosen.
  abbrev pub NeverEdits : List (Action Image) → Type 0
  NeverEdits [] = Unit
  NeverEdits (presses_ok w says_yes ∷ actions) = NeverEdits actions
  NeverEdits (cancels ∷ actions) = NeverEdits actions
  NeverEdits (edits f ∷ actions) = ⊥
  NeverEdits (chooses_sensitive selected ∷ actions) = ⊥
  NeverEdits (chooses_connection selected ∷ actions) = ⊥

  update_settings-settings :
      (s : DisplaySettings) (d : Controller Image) → (update_settings s d).settings ≡ s
  unfolding update_settings queue_apply
  update_settings-settings s d =
      let d' = record d { settings = s } in
      if_cases (λ c. c.settings ≡ s) (is_protected_mode d.latest_mode) (cover d') d' (λ _. refl)
        (λ _. refl)

  exec-same :
      (enabled : Bool) (f : Form) (actions : List (Action Image))
      → NeverEdits actions
      → (exec enabled f actions ≡ none) ⊎ (exec enabled f actions ≡ some f)
  unfolding exec
  exec-same enabled f [] never = inl refl
  exec-same enabled f (presses_ok w says_yes ∷ actions) never =
      after_ok-same (press_ok w enabled says_yes f) f _ (exec-same enabled f actions never)
  exec-same enabled f (cancels ∷ actions) never = inl refl
  exec-same enabled f (edits f' ∷ actions) never = absurd never
  exec-same enabled f (chooses_sensitive selected ∷ actions) never = absurd never
  exec-same enabled f (chooses_connection selected ∷ actions) never = absurd never

  apply_form-same :
      (o : Option Form) (f : Form) (d : Controller Image) (st : PrivacyState)
      → (o ≡ none) ⊎ (o ≡ some f)
      → settings_of f ≡ d.settings
      → f.protection_enabled ≡ st.enabled
      → ((apply_form o (d, st)).0.settings ≡ d.settings) × ((apply_form o (d, st)).1 ≡ st)
  unfolding apply_form
  apply_form-same o f d st (inl e) s p = rw e (refl, refl)
  apply_form-same o f d st (inr e) s p =
      rw (e, p) (update_settings-settings (settings_of f) d ∙ s, set_enabled-same st)

  -- With combo boxes that keep to `ComboLaws`, the dialog that is opened and closed again without an
  -- edit leaves the settings and the privacy state as they were, OK or not, if the settings name a
  -- scene for both events: whatever scenes there are.
  pub show_settings_dialog-unedited :
      (modes : ComboBox DisplayMode) (scenes : ComboBox Bytes)
      → ComboLaws modes
      → ComboLaws scenes
      → (names : Option (List Bytes)) (actions : List (Action Image)) (d : Controller Image)
        (st : PrivacyState)
      → NeverEdits actions
      → d.settings.sensitive.scene ≢ []
      → d.settings.connection.scene ≢ []
      → ((show_settings_dialog modes scenes names actions (d, st)).0.settings ≡ d.settings)
        × ((show_settings_dialog modes scenes names actions (d, st)).1 ≡ st)
  unfolding show_settings_dialog
  show_settings_dialog-unedited modes scenes ml sl names actions d st never named named' =
      let form = open_form modes scenes names st.enabled d.settings in
      let (settings, enabled) =
        open_form-settings_of modes scenes ml sl names st.enabled d.settings named named' in
      apply_form-same (exec st.enabled form actions) form d st
        (exec-same st.enabled form actions never) settings enabled
