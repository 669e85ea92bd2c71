-- ===== src/Display/Dialog/Armed.antt =====
-- The protection under everything that may happen while OBS runs: the calls of the pipe and the tick,
-- and the settings dialog, which is open while such calls go on.
use obs_vscode_privacy_guard.Base.{
  Bytes, List, Option, [], arith, refl, true, ℕ, ◌∙◌, ◌∷◌, ◌≡◌, ◌≢◌,
}
use obs_vscode_privacy_guard.Privacy.{Mode, PrivacyState, make_state, mode}
use obs_vscode_privacy_guard.Privacy.Arming.{IsRemote, enabled-run}
use obs_vscode_privacy_guard.Privacy.History.{Call, run}
use obs_vscode_privacy_guard.Privacy.Modes.{mode_iff}
use obs_vscode_privacy_guard.Display.{DisplayMode}
use obs_vscode_privacy_guard.Display.Controller.{Controller}
use obs_vscode_privacy_guard.Display.Dialog.{Action, ComboBox, apply_form, exec, open_form}
use obs_vscode_privacy_guard.Display.Dialog.Confirmed.{
  NeverConfirms, apply_form-enabled, exec-armed,
}

-- Calls one after another, or a dialog over the controller of that moment with the calls that are made
-- while it is open.
pub data Deed (Image : Type 0) : Type 0 where
  makes : List Call → Deed Image
  asks :
      Controller Image
      → (names : Option (List Bytes)) → List (Action Image)
      → (meanwhile : List Call) → Deed Image

module _ {Image : Type 0} (modes : ComboBox DisplayMode) (scenes : ComboBox Bytes) where
  abbrev pub perform : PrivacyState → Deed Image → PrivacyState
  perform st (makes made) = run st made
  perform st (asks d names actions meanwhile) =
      (apply_form (exec st.enabled (open_form modes scenes names st.enabled d.settings) actions)
        (d, run st meanwhile)).1

  abbrev pub perform_all : PrivacyState → List (Deed Image) → PrivacyState
  perform_all st [] = st
  perform_all st (deed ∷ deeds) = perform_all (perform st deed) deeds

  -- No call sets `enabled`, and no press of OK is answered with Yes.
  abbrev pub NeverDisarms : List (Deed Image) → Type 0
  NeverDisarms [] = Unit
  NeverDisarms (makes made ∷ deeds) = IsRemote made × NeverDisarms deeds
  NeverDisarms (asks d names actions meanwhile ∷ deeds) =
      IsRemote meanwhile × NeverConfirms actions × NeverDisarms deeds

  perform_all-enabled :
      (st : PrivacyState) (deeds : List (Deed Image))
      → NeverDisarms deeds
      → st.enabled ≡ true
      → (perform_all st deeds).enabled ≡ true
  perform_all-enabled st [] never armed = armed
  perform_all-enabled st (makes made ∷ deeds) (remote, never) armed =
      perform_all-enabled (run st made) deeds never (enabled-run st made remote ∙ armed)
  perform_all-enabled st (asks d names actions meanwhile ∷ deeds) (remote, silent, never) armed =
      perform_all-enabled _ deeds never (
        apply_form-enabled
          (exec st.enabled (open_form modes scenes names st.enabled d.settings) actions) d
          (run st meanwhile)
          (exec-armed st.enabled (open_form modes scenes names st.enabled d.settings) actions silent
            armed)
          (enabled-run st meanwhile remote ∙ armed))

-- From the start of OBS on, through any messages, connections and ticks, and any use of the settings
-- dialog while these go on: as long as no press of OK is answered with Yes, protection stays enabled
-- and the mode is not disabled.
pub stays_armed :
    {Image : Type 0} (modes : ComboBox DisplayMode) (scenes : ComboBox Bytes) (timeout : ℕ)
    (deeds : List (Deed Image))
    → NeverDisarms modes scenes deeds
    → ((perform_all modes scenes (make_state timeout) deeds).enabled ≡ true)
      × (mode (perform_all modes scenes (make_state timeout) deeds) ≢ Mode.disabled)
stays_armed modes scenes timeout deeds never =
    let armed = perform_all-enabled modes scenes (make_state timeout) deeds never refl in
    (armed, λ e. ground (arith, armed, (mode_iff Mode.disabled _).0 e))
