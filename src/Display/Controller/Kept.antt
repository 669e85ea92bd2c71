-- ===== src/Display/Controller/Kept.antt =====
-- What the handlers of the controller do to `alive_` and `latest_mode_`.
use obs_vscode_privacy_guard.Base.{
  Bool-cases, List, [], arith, if_cases, if◌then◌else◌, inl, inr, is_nil, not, refl, true, ℕ, ◌&&◌,
  ◌==◌, ◌∷◌, ◌≡◌,
}
use obs_vscode_privacy_guard.Privacy.{Mode}
use obs_vscode_privacy_guard.Display.{
  DisplayAction, DisplaySettings, EventDisplaySettings, event_of, resolve_display_action,
}
use obs_vscode_privacy_guard.Display.Renderer.{World}
use obs_vscode_privacy_guard.Display.Controller.{
  ApplyRequest, Controller, apply_action, apply_built_in, apply_checked, apply_image,
  apply_on_ui_thread, apply_scene, apply_task, cover, is_protected_mode, is_true,
  privacy_mode_changed, queue_apply, restore_previous_scene, scene_exists, show_default,
}
use obs_vscode_privacy_guard.Display.Controller.Events.{
  FrontendEvent, frontend_event, other_event, scene_collection_changing, scene_list_changed,
  update_settings,
}

module _ {Image : Type 0} where
  -- The handlers of the display keep the controller alive and the mode that it was told.
  abbrev pub Keeps : Controller Image → Controller Image → Type 0
  Keeps d d' = (d'.alive ≡ d.alive) × (d'.latest_mode ≡ d.latest_mode)

  pub restore-Keeps :
      (w : World Image) (d : Controller Image) → Keeps d (restore_previous_scene w d)
  unfolding restore_previous_scene
  restore-Keeps w d = (ground arith, ground arith)

  pub apply_action-Keeps :
      (a : DisplayAction) (w : World Image) (m : Mode) (event : EventDisplaySettings)
      (d : Controller Image)
      → Keeps d (apply_action a w m event d)
  unfolding apply_built_in apply_image apply_scene
  apply_action-Keeps DisplayAction.built_in_image w m event d = restore-Keeps w d
  apply_action-Keeps DisplayAction.custom_image w m event d =
      if_cases (Keeps d) _ _ _ (λ _. restore-Keeps w d) (λ _. restore-Keeps w d)
  apply_action-Keeps DisplayAction.custom_scene w m event d =
      elim (Bool-cases (is_true (w.source event.scene))) [
        | inl there ↦ rw there (refl, refl)
        | inr missing ↦ rw missing (restore-Keeps w d)
      ]
  apply_action-Keeps DisplayAction.normal_output w m event d =
      elim (Bool-cases (is_true (w.source event.scene))) [
        | inl there ↦ rw there (refl, refl)
        | inr missing ↦ rw missing (restore-Keeps w d)
      ]

  pub apply_checked-Keeps :
      (w : World Image) (m : Mode) (d : Controller Image) → Keeps d (apply_checked w m d)
  apply_checked-Keeps w m d =
      if_cases (Keeps d) (not (is_protected_mode m)) _ _ (λ shown. restore-Keeps w _)
        (λ p.
          apply_action-Keeps (resolve_display_action d.settings m) w m (event_of d.settings m) d)

  pub apply_on_ui_thread-Keeps :
      (w : World Image) (m : Mode) (generation : ℕ) (d : Controller Image)
      → Keeps d (apply_on_ui_thread w m generation d)
  unfolding apply_on_ui_thread
  apply_on_ui_thread-Keeps w m generation d =
      if_cases (Keeps d) (not d.alive) _ _ (λ _. (refl, refl))
        λ on.
          if_cases (Keeps d) (not (generation == d.generation)) _ _ (λ _. (refl, refl))
            (λ _. apply_checked-Keeps w m d)

  pub apply_task-Keeps : (w : World Image) (d : Controller Image) → Keeps d (apply_task w d)
  unfolding apply_task
  apply_task-Keeps w d = go d.tasks refl
    where
      go : (rs : List ApplyRequest) → d.tasks ≡ rs → Keeps d (apply_task w d)
      go [] e = rw (e, apply_task) (refl, refl)
      go (r ∷ rs) e =
          rw (e, apply_task)
            (apply_on_ui_thread-Keeps w r.mode r.generation (record d { tasks = rs }))

  pub frontend_event-Keeps :
      (w : World Image) (event : FrontendEvent) (d : Controller Image)
      → Keeps d (frontend_event w event d)
  unfolding frontend_event
  frontend_event-Keeps w scene_collection_changing d = (refl, refl)
  frontend_event-Keeps w scene_list_changed d =
      if_cases (Keeps d)
        (not (is_nil d.active_target_scene) && not (scene_exists w d.active_target_scene))
        (restore_previous_scene w (show_default w d.latest_mode d)) d
        (λ gone. restore-Keeps w (show_default w d.latest_mode d)) (λ _. (refl, refl))
  frontend_event-Keeps w other_event d = (refl, refl)

  pub update_settings-Keeps :
      (settings : DisplaySettings) (d : Controller Image) → Keeps d (update_settings settings d)
  unfolding update_settings queue_apply
  update_settings-Keeps settings d = (
    if_cases (λ (x : Controller Image). x.alive ≡ d.alive) (is_protected_mode d.latest_mode) _ _
        (λ _. refl) (λ _. refl),
    refl,
  )

  -- The controller is told the mode.
  pub privacy_mode_changed-latest :
      (d : Controller Image) (m : Mode)
      → d.alive ≡ true
      → ((privacy_mode_changed d m).alive ≡ true) × ((privacy_mode_changed d m).latest_mode ≡ m)
  unfolding privacy_mode_changed queue_apply
  privacy_mode_changed-latest d m on =
      if_cases (λ x. (x.alive ≡ true) × (x.latest_mode ≡ m)) (not d.alive) d
        (queue_apply (if is_protected_mode m then cover d else d) m) (λ off. cc)
        (λ _. (
          if_cases (λ x. x.alive ≡ true) (is_protected_mode m) (cover d) d (λ _. on) (λ _. on),
          refl,
        ))
