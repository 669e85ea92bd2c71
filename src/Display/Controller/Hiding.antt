-- ===== src/Display/Controller/Hiding.antt =====
-- What the handlers on the UI thread leave alone, and whether they hide the output.
use obs_vscode_privacy_guard.Base.{
  Bool, Bool-cases, Bytes, List, [], arith, if_cases, inl, inr, not, refl, true, ℕ, ◌==◌, ◌∷◌, ◌≡◌,
  ◌≢◌, ◌⊎◌,
}
use obs_vscode_privacy_guard.Privacy.{Mode}
use obs_vscode_privacy_guard.Display.{
  DisplayAction, DisplaySettings, EventDisplaySettings, event_of, resolve_display_action,
}
use obs_vscode_privacy_guard.Display.Resolve.{resolve_iff}
use obs_vscode_privacy_guard.Display.Renderer.{World}
use obs_vscode_privacy_guard.Display.Controller.{
  Controller, apply_action, apply_built_in, apply_checked, apply_image, apply_on_ui_thread,
  apply_scene, is_protected_mode, is_true, restore_previous_scene,
}

-- A custom scene with a name is active, and it is the scene that the plugin set in OBS last.
abbrev pub IsSwitched : Bool → Bytes → List Bytes → Type 0
IsSwitched active target log =
    (active ≡ true) × (target ≢ []) × ((earlier : List Bytes) × (log ≡ target ∷ earlier))

-- The output is under the overlay, or OBS was switched to an active custom scene.
abbrev pub IsHidden : Bool → Bool → Bytes → List Bytes → Type 0
IsHidden overlay active target log = (overlay ≡ true) ⊎ IsSwitched active target log

pub protected_action :
    (s : DisplaySettings) (m : Mode)
    → is_protected_mode m ≡ true
    → (resolve_display_action s m ≢ DisplayAction.normal_output)
      × (resolve_display_action s m ≡ DisplayAction.custom_scene → (event_of s m).scene ≢ [])
protected_action s m p = (
  (λ e. ground (arith, (resolve_iff DisplayAction.normal_output s m).0 e)),
  (λ e. ((resolve_iff DisplayAction.custom_scene s m).0 e).1.2),
)

pub not_protected :
    (m m' : Mode) → m ≡ m' → not (is_protected_mode m) ≡ true → is_protected_mode m' ≡ true → ⊥
not_protected m m' e h p = ground arith

module _ {Image : Type 0} where
  -- What a handler on the UI thread leaves alone.
  abbrev pub Leaves : Controller Image → Controller Image → Type 0
  Leaves d d' =
      (d'.generation ≡ d.generation) × (d'.latest_mode ≡ d.latest_mode) × (d'.tasks ≡ d.tasks)

  pub restore-Leaves :
      (w : World Image) (d : Controller Image) → Leaves d (restore_previous_scene w d)
  unfolding restore_previous_scene
  restore-Leaves w d = (ground arith, ground arith, ground arith)

  pub restore-overlay :
      (w : World Image) (d : Controller Image)
      → ((restore_previous_scene w d).overlay_required ≡ d.overlay_required)
        × ((restore_previous_scene w d).watermark_required ≡ d.watermark_required)
        × ((restore_previous_scene w d).image_renderer ≡ d.image_renderer)
  unfolding restore_previous_scene
  restore-overlay w d = (ground arith, ground arith, ground arith)

  -- The handler leaves the requests alone and hides the output.
  abbrev pub Hides : Controller Image → Controller Image → Type 0
  Hides d d' =
      Leaves d d'
      × IsHidden d'.overlay_required d'.custom_scene_active d'.active_target_scene d'.scene_log

  pub apply_built_in-Hides :
      (w : World Image) (m : Mode) (d : Controller Image) → Hides d (apply_built_in w m d)
  unfolding apply_built_in
  apply_built_in-Hides w m d = (restore-Leaves w d, inl refl)

  pub apply_image-Hides :
      (w : World Image) (m : Mode) (event : EventDisplaySettings) (d : Controller Image)
      → Hides d (apply_image w m event d)
  unfolding apply_image
  apply_image-Hides w m event d =
      let l = restore-Leaves w d in
      if_cases (Hides d) _ _ _ (λ _. (l, inl refl)) (λ _. (l, inl refl))

  pub apply_scene-Hides :
      (w : World Image) (m : Mode) (event : EventDisplaySettings) (d : Controller Image)
      → event.scene ≢ []
      → Hides d (apply_scene w m event d)
  unfolding apply_scene
  apply_scene-Hides w m event d ne = elim (Bool-cases (is_true (w.source event.scene))) [
    | inl there ↦ rw there ((refl, refl, refl), inr (refl, ne, (d.scene_log, refl)))
    | inr missing ↦ rw missing (restore-Leaves w d, inl refl)
  ]

  pub apply_action-Hides :
      (a : DisplayAction) (w : World Image) (m : Mode) (event : EventDisplaySettings)
      (d : Controller Image)
      → a ≢ DisplayAction.normal_output
      → (a ≡ DisplayAction.custom_scene → event.scene ≢ [])
      → Hides d (apply_action a w m event d)
  apply_action-Hides DisplayAction.built_in_image w m event d h ne = apply_built_in-Hides w m d
  apply_action-Hides DisplayAction.custom_image w m event d h ne = apply_image-Hides w m event d
  apply_action-Hides DisplayAction.custom_scene w m event d h ne =
      apply_scene-Hides w m event d (ne refl)
  apply_action-Hides DisplayAction.normal_output w m event d h ne = absurd (h refl)

  pub apply_checked-Leaves :
      (w : World Image) (m : Mode) (d : Controller Image) → Leaves d (apply_checked w m d)
  apply_checked-Leaves w m d =
      if_cases (Leaves d) (not (is_protected_mode m)) _ _ (λ shown. restore-Leaves w _)
        (λ p.
          let (not_normal, named) = protected_action d.settings m (ground arith) in
          (apply_action-Hides (resolve_display_action d.settings m) w m (event_of d.settings m) d
            not_normal named).0)

  -- A protected mode is applied by hiding the output.
  pub apply_checked-Hides :
      (w : World Image) (m : Mode) (d : Controller Image)
      → is_protected_mode m ≡ true
      → Hides d (apply_checked w m d)
  apply_checked-Hides w m d p =
      let (not_normal, named) = protected_action d.settings m p in
      if_cases (Hides d) (not (is_protected_mode m)) _ _
        (λ shown. absurd (not_protected m m refl shown p))
        (λ _.
          apply_action-Hides (resolve_display_action d.settings m) w m (event_of d.settings m) d
            not_normal named)

  pub apply_on_ui_thread-Leaves :
      (w : World Image) (m : Mode) (generation : ℕ) (d : Controller Image)
      → Leaves d (apply_on_ui_thread w m generation d)
  unfolding apply_on_ui_thread
  apply_on_ui_thread-Leaves w m generation d =
      if_cases (Leaves d) (not d.alive) _ _ (λ _. (refl, refl, refl))
        λ on.
          if_cases (Leaves d) (not (generation == d.generation)) _ _ (λ _. (refl, refl, refl))
            (λ _. apply_checked-Leaves w m d)
