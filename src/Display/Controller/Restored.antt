-- ===== src/Display/Controller/Restored.antt =====
-- The scene that OBS is switched back to when the mode is no protected one any more.
use obs_vscode_privacy_guard.Base.{
  ==_iff, All, Bytes, List, [], ap, arith, false, if_cases, if◌then◌else◌, inl, inr, is_nil, not,
  refl, subst, true, ℕ, ◌&&◌, ◌==◌, ◌∙◌, ◌∷◌, ◌≡◌, ◌⊎◌,
}
use obs_vscode_privacy_guard.Privacy.{Mode, same}
use obs_vscode_privacy_guard.Display.Renderer.{World}
use obs_vscode_privacy_guard.Display.Controller.{
  ApplyRequest, Controller, apply_checked, apply_on_ui_thread, apply_task, is_protected_mode,
  is_true, restore_previous_scene, switch_to_scene,
}
use obs_vscode_privacy_guard.Display.Controller.Cover.{IsCovered, IsRequest}

module _ {Image : Type 0} where
  -- The scenes that OBS was switched to, once it is back from an active custom scene.
  abbrev pub scenes_back : Controller Image → List Bytes
  scenes_back d =
      if d.custom_scene_active && not (is_nil d.previous_scene)
      then d.previous_scene ∷ d.scene_log
      else d.scene_log

  -- The previous scene is still to be restored, or nothing is.
  abbrev pub Returns : Bytes → Controller Image → Type 0
  Returns previous d = (d.previous_scene ≡ previous) ⊎ (d.custom_scene_active ≡ false)

  -- A step on the way back.
  abbrev pub GoesBack : Bytes → Controller Image → Controller Image → Type 0
  GoesBack previous d d' = (scenes_back d' ≡ scenes_back d) × Returns previous d'

  restore-GoesBack :
      (w : World Image) (previous : Bytes) (d : Controller Image)
      → is_true (w.source previous) ≡ true
      → Returns previous d
      → GoesBack previous d (restore_previous_scene w d)
  unfolding restore_previous_scene switch_to_scene
  restore-GoesBack w previous d there (inl same) = (ground (arith, there, same), inr refl)
  restore-GoesBack w previous d there (inr left) = (ground (arith, left), inr refl)

  apply_checked-GoesBack :
      (w : World Image) (m : Mode) (previous : Bytes) (d : Controller Image)
      → is_protected_mode m ≡ false
      → is_true (w.source previous) ≡ true
      → Returns previous d
      → GoesBack previous d (apply_checked w m d)
  apply_checked-GoesBack w m previous d shown there h =
      if_cases (GoesBack previous d) (not (is_protected_mode m)) _ _
        (λ _.
          restore-GoesBack w previous
            (record d { watermark_required = false; overlay_required = false }) there h)
        (λ hidden. absurd (ground (arith, hidden, shown)))

  apply_on_ui_thread-GoesBack :
      (w : World Image) (m : Mode) (generation : ℕ) (previous : Bytes) (d : Controller Image)
      → (generation ≡ d.generation → m ≡ d.latest_mode)
      → is_protected_mode d.latest_mode ≡ false
      → is_true (w.source previous) ≡ true
      → Returns previous d
      → GoesBack previous d (apply_on_ui_thread w m generation d)
  unfolding apply_on_ui_thread
  apply_on_ui_thread-GoesBack w m generation previous d current shown there h =
      if_cases (GoesBack previous d) (not d.alive) d _ (λ _. (refl, h))
        (λ _.
          if_cases (GoesBack previous d) (not (generation == d.generation)) d _ (λ _. (refl, h))
            (λ match.
              apply_checked-GoesBack w m previous d
                (ap is_protected_mode (current ((==_iff generation d.generation).0 (ground arith)))
                  ∙ shown)
                there h))

  -- A task, while OBS still has the previous scene.
  pub apply_task-GoesBack :
      (w : World Image) (previous : Bytes) (d : Controller Image)
      → IsCovered d
      → is_protected_mode d.latest_mode ≡ false
      → is_true (w.source previous) ≡ true
      → Returns previous d
      → GoesBack previous d (apply_task w d)
  unfolding apply_task
  apply_task-GoesBack w previous d v shown there h = go d.tasks refl
    where
      go : (rs : List ApplyRequest) → d.tasks ≡ rs → GoesBack previous d (apply_task w d)
      go [] e = rw (e, apply_task) (refl, h)
      go (r ∷ rs) e =
          let waiting : All (IsRequest d.generation d.latest_mode) (r ∷ rs) =
            subst (All (IsRequest d.generation d.latest_mode)) e v.requests in
          rw (e, apply_task)
            (apply_on_ui_thread-GoesBack w r.mode r.generation previous (record d { tasks = rs })
              waiting.0.1 shown there h)
