-- ===== src/Display/Dialog/Confirmed.antt =====
-- What the settings dialog does when it is cancelled, or the question about disabling is not answered
-- with Yes.
use obs_vscode_privacy_guard.Base.{
  Bool, List, Option, [], arith, false, none, refl, some, subst, sym, true, ◌∷◌, ◌≡◌,
}
use obs_vscode_privacy_guard.Privacy.{PrivacyState, set_enabled}
use obs_vscode_privacy_guard.Display.Renderer.{World}
use obs_vscode_privacy_guard.Display.Controller.{Controller}
use obs_vscode_privacy_guard.Display.Dialog.{
  Action, Form, Verdict, accepted, after_ok, apply_form, cancels, chooses_connection,
  chooses_sensitive, edits, exec, image_unavailable, not_confirmed, press_ok, presses_ok,
  risk_required, scene_unavailable,
}

abbrev pub Protects : Option Form → Type 0
Protects none = Unit
Protects (some f) = f.protection_enabled ≡ true

after_ok-Protects :
    (v : Verdict) (f : Form) (later : Option Form)
    → (v ≡ accepted → f.protection_enabled ≡ true)
    → Protects later
    → Protects (after_ok v f later)
after_ok-Protects accepted f later h l = h refl
after_ok-Protects risk_required f later h l = l
after_ok-Protects image_unavailable f later h l = l
after_ok-Protects scene_unavailable f later h l = l
after_ok-Protects not_confirmed f later h l = l

module _ {Image : Type 0} where
  -- No press of OK is followed by Yes.
  abbrev pub NeverConfirms : List (Action Image) → Type 0
  NeverConfirms [] = Unit
  NeverConfirms (presses_ok w says_yes ∷ actions) = (says_yes ≡ false) × NeverConfirms actions
  NeverConfirms (cancels ∷ actions) = NeverConfirms actions
  NeverConfirms (edits f ∷ actions) = NeverConfirms actions
  NeverConfirms (chooses_sensitive selected ∷ actions) = NeverConfirms actions
  NeverConfirms (chooses_connection selected ∷ actions) = NeverConfirms actions

  press_ok-enabled :
      (w : World Image) (f : Form)
      → press_ok w true false f ≡ accepted
      → f.protection_enabled ≡ true
  unfolding press_ok
  press_ok-enabled w f e = ground arith

  exec-Protects :
      (f : Form) (actions : List (Action Image))
      → NeverConfirms actions
      → Protects (exec true f actions)
  unfolding exec
  exec-Protects f [] never = tt
  exec-Protects f (edits f' ∷ actions) never = exec-Protects f' actions never
  exec-Protects f (chooses_sensitive selected ∷ actions) never = exec-Protects _ actions never
  exec-Protects f (chooses_connection selected ∷ actions) never = exec-Protects _ actions never
  exec-Protects f (presses_ok w says_yes ∷ actions) (answer, never) = rw answer (
      after_ok-Protects (press_ok w true false f) f _ (press_ok-enabled w f)
        (exec-Protects f actions never))
  exec-Protects f (cancels ∷ actions) never = tt

  pub exec-armed :
      (enabled : Bool) (f : Form) (actions : List (Action Image))
      → NeverConfirms actions
      → enabled ≡ true
      → Protects (exec enabled f actions)
  exec-armed enabled f actions never armed =
      subst (λ b. Protects (exec b f actions)) (sym armed) (exec-Protects f actions never)

  pub apply_form-enabled :
      (o : Option Form) (d : Controller Image) (st : PrivacyState)
      → Protects o
      → st.enabled ≡ true
      → (apply_form o (d, st)).1.enabled ≡ true
  unfolding apply_form set_enabled
  apply_form-enabled none d st h armed = armed
  apply_form-enabled (some f) d st h armed = ground arith
