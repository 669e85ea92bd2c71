-- ===== src/Display/Resolve.antt =====
-- When each display action is taken.
use obs_vscode_privacy_guard.Base.{
  Bytes, [], arith, false, is_nil, refl, true, ◌↔◌, ◌∷◌, ◌≡◌, ◌≢◌, ◌⊎◌,
}
use obs_vscode_privacy_guard.Privacy.{Mode}
use obs_vscode_privacy_guard.Display.{
  DisplayAction, DisplayMode, DisplaySettings, event_of, is_open_mode, resolve_display_action,
}

-- The user has chosen a custom scene for this mode, has accepted the risk and has named the scene.
abbrev pub WantsScene : DisplaySettings → Mode → Type 0
WantsScene s m =
    ((event_of s m).mode ≡ DisplayMode.custom_scene)
    × (s.custom_scene_risk_accepted ≡ true)
    × ((event_of s m).scene ≢ [])

abbrev pub WantsImage : DisplaySettings → Mode → Type 0
WantsImage s m = ((event_of s m).mode ≡ DisplayMode.custom_image) × ((event_of s m).image_path ≢ [])

abbrev pub Takes : DisplayAction → DisplaySettings → Mode → Type 0
Takes DisplayAction.normal_output s m = (m ≡ Mode.safe) ⊎ (m ≡ Mode.disabled)
Takes DisplayAction.custom_scene s m = (is_open_mode m ≡ false) × WantsScene s m
Takes DisplayAction.custom_image s m = (is_open_mode m ≡ false) × WantsImage s m
Takes DisplayAction.built_in_image s m =
    (is_open_mode m ≡ false) × (¬ WantsScene s m) × (¬ WantsImage s m)

is_nil-false : (b : Bytes) → (is_nil b ≡ false) ↔ (b ≢ [])
is_nil-false [] = ((λ e. cc), λ h. absurd (h refl))
is_nil-false (c ∷ b) = ((λ e z. cc), λ h. refl)

-- An action is taken exactly if: normal output, the mode is safe or disabled; a custom scene, the mode
-- is another and a named scene is chosen with the risk accepted; a custom image, the mode is another
-- and an image file is chosen; the bundled image, in all that is left.
pub resolve_iff :
    (a : DisplayAction) (s : DisplaySettings) (m : Mode)
    → (resolve_display_action s m ≡ a) ↔ Takes a s m
unfolding resolve_display_action
resolve_iff DisplayAction.normal_output s m = ((λ e. ground arith), λ h. ground arith)
resolve_iff DisplayAction.custom_scene s m = (
  (λ e. ground (arith, is_nil-false (event_of s m).scene)),
  (λ h. ground (arith, is_nil-false (event_of s m).scene)),
)
resolve_iff DisplayAction.custom_image s m = (
  (λ e. ground (arith, is_nil-false (event_of s m).image_path)),
  (λ h. ground (arith, is_nil-false (event_of s m).image_path)),
)
resolve_iff DisplayAction.built_in_image s m = (
  (λ e. ground (arith, is_nil-false (event_of s m).scene, is_nil-false (event_of s m).image_path)),
  (λ h. ground (arith, is_nil-false (event_of s m).scene, is_nil-false (event_of s m).image_path)),
)
