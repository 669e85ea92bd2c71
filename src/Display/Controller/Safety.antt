-- ===== src/Display/Controller/Safety.antt =====
-- Sequences of all that can happen to the controller.
use obs_vscode_privacy_guard.Base.{
  Bytes, List, [], ap, arith, false, if_cases, if◌then◌else◌, inl, is_nil, not, refl, suc, true,
  u64_mod, ℕ, ◌&&◌, ◌+◌, ◌<◌, ◌∙◌, ◌∷◌, ◌≡◌, ◌≢◌, ◌≤◌, ◌⊎◌,
}
use obs_vscode_privacy_guard.Privacy.{Mode}
use obs_vscode_privacy_guard.Display.Renderer.{World}
use obs_vscode_privacy_guard.Display.Controller.{
  ApplyRequest, Controller, apply_on_ui_thread, apply_task, cover, is_protected_mode,
  make_controller, privacy_mode_changed, queue_apply, restore_previous_scene, scene_exists,
  show_default,
}
use obs_vscode_privacy_guard.Display.Controller.Events.{
  FrontendEvent, Happens, applies, changes, collection_changing, configures, fires, frontend_event,
  other_event, run_tasks, scene_collection_changing, scene_list_changed, shutdown, stops,
  update_settings,
}
use obs_vscode_privacy_guard.Display.Controller.Hiding.{
  apply_on_ui_thread-Leaves, restore-Leaves, restore-overlay,
}
use obs_vscode_privacy_guard.Display.Controller.Cover.{
  IsCovered, apply_task-IsCovered, keep-IsCovered, make_controller-IsCovered,
  privacy_mode_changed-IsCovered, update_settings-IsCovered,
}

module _ {Image : Type 0} where
  frontend_event-IsCovered :
      (w : World Image) (event : FrontendEvent) (d : Controller Image)
      → IsCovered d
      → IsCovered (frontend_event w event d)
  unfolding frontend_event
  frontend_event-IsCovered w scene_collection_changing d v =
      keep-IsCovered d (collection_changing d) (refl, refl, refl) (λ p. inl p) v
  frontend_event-IsCovered w scene_list_changed d v =
      if_cases IsCovered
        (not (is_nil d.active_target_scene) && not (scene_exists w d.active_target_scene))
        (restore_previous_scene w (show_default w d.latest_mode d)) d
        (λ gone.
          let (overlay, _, _) = restore-overlay w (show_default w d.latest_mode d) in
          keep-IsCovered d _ (restore-Leaves w (show_default w d.latest_mode d)) (λ _. inl overlay)
            v)
        (λ _. v)
  frontend_event-IsCovered w other_event d v = v

  apply_dead :
      (w : World Image) (m : Mode) (generation : ℕ) (d : Controller Image)
      → d.alive ≡ false
      → apply_on_ui_thread w m generation d ≡ d
  unfolding apply_on_ui_thread
  apply_dead w m generation d dead =
      if_cases (λ x. x ≡ d) (not d.alive) d _ (λ _. refl) (λ on. ground arith)

  -- The tasks that a stopped controller still gets do nothing.
  run_tasks_dead :
      (w : World Image) (rs : List ApplyRequest) (d : Controller Image)
      → d.alive ≡ false
      → run_tasks w rs d ≡ record d { tasks = [] }
  unfolding run_tasks
  run_tasks_dead w [] d dead = refl
  run_tasks_dead w (r ∷ rs) d dead =
      ap (run_tasks w rs) (apply_dead w r.mode r.generation (record d { tasks = rs }) dead)
      ∙ run_tasks_dead w rs (record d { tasks = rs }) dead

  shutdown-IsCovered :
      (w : World Image) (d : Controller Image) → IsCovered d → IsCovered (shutdown w d)
  unfolding shutdown
  shutdown-IsCovered w d v =
      if_cases IsCovered (not d.alive) d _ (λ _. v)
        λ on.
          rw (run_tasks_dead w d.tasks (record d { alive = false }) refl)
            (record { requests = tt; bounded = v.bounded; hidden = v.hidden })

  pub Happens-IsCovered :
      {d d' : Controller Image}
      → Happens d d'
      → d.generation + 1 < u64_mod
      → IsCovered d
      → IsCovered d'
  Happens-IsCovered {d} (changes m) room v = privacy_mode_changed-IsCovered d m room v
  Happens-IsCovered {d} (applies w) room v = apply_task-IsCovered w d v
  Happens-IsCovered {d} (fires w event) room v = frontend_event-IsCovered w event d v
  Happens-IsCovered {d} (configures settings) room v = update_settings-IsCovered settings d room v
  Happens-IsCovered {d} (stops w) room v = shutdown-IsCovered w d v

  -- The generation after a handler is at most one above that before it.
  abbrev Advances : Controller Image → Controller Image → Type 0
  Advances d d' = d'.generation ≤ d.generation + 1

  queue_apply-Advances :
      (d d' : Controller Image) (m : Mode)
      → d'.generation ≡ d.generation
      → Advances d (queue_apply d' m)
  unfolding queue_apply
  queue_apply-Advances d d' m e = omega arith

  apply_task-Advances : (w : World Image) (d : Controller Image) → Advances d (apply_task w d)
  unfolding apply_task
  apply_task-Advances w d = go d.tasks refl
    where
      go : (rs : List ApplyRequest) → d.tasks ≡ rs → Advances d (apply_task w d)
      go [] e = rw (e, apply_task) (omega arith)
      go (r ∷ rs) e =
          rw (e, apply_task)
            (omega (
              arith,
              (apply_on_ui_thread-Leaves w r.mode r.generation (record d { tasks = rs })).0,
            ))

  frontend_event-Advances :
      (w : World Image) (event : FrontendEvent) (d : Controller Image)
      → Advances d (frontend_event w event d)
  unfolding frontend_event
  frontend_event-Advances w scene_collection_changing d = omega arith
  frontend_event-Advances w scene_list_changed d =
      if_cases (Advances d)
        (not (is_nil d.active_target_scene) && not (scene_exists w d.active_target_scene))
        (restore_previous_scene w (show_default w d.latest_mode d)) d
        (λ gone. omega (arith, (restore-Leaves w (show_default w d.latest_mode d)).0))
        (λ _. omega arith)
  frontend_event-Advances w other_event d = omega arith

  shutdown-Advances : (w : World Image) (d : Controller Image) → Advances d (shutdown w d)
  unfolding shutdown
  shutdown-Advances w d =
      if_cases (Advances d) (not d.alive) d _ (λ _. omega arith)
        (λ on. rw (run_tasks_dead w d.tasks (record d { alive = false }) refl) (omega arith))

  pub Happens-Advances : {d d' : Controller Image} → Happens d d' → Advances d d'
  unfolding privacy_mode_changed update_settings
  Happens-Advances {d} (changes m) =
      if_cases (Advances d) (not d.alive) d _ (λ _. omega arith)
        (λ on. queue_apply-Advances d (if is_protected_mode m then cover d else d) m (
          if_cases (λ x. x.generation ≡ d.generation) (is_protected_mode m) (cover d) d (λ _. refl)
            (λ _. refl)))
  Happens-Advances {d} (applies w) = apply_task-Advances w d
  Happens-Advances {d} (fires w event) = frontend_event-Advances w event d
  Happens-Advances {d} (configures settings) =
      queue_apply-Advances d
        (if is_protected_mode d.latest_mode
          then cover (record d { settings = settings })
          else record d { settings = settings })
        d.latest_mode
        (if_cases (λ x. x.generation ≡ d.generation) (is_protected_mode d.latest_mode)
          (cover (record d { settings = settings })) (record d { settings = settings }) (λ _. refl)
          (λ _. refl))
  Happens-Advances {d} (stops w) = shutdown-Advances w d

-- What `n` events lead to.
pub data Reaches {Image : Type 0} (d : Controller Image) : ℕ → Controller Image → Type 0 where
  here : Reaches d 0 d
  next : {n : ℕ} {e e' : Controller Image} → Reaches d n e → Happens e e' → Reaches d (suc n) e'

Reaches-IsCovered :
    {Image : Type 0} (d : Controller Image) {n : ℕ} {e : Controller Image}
    → Reaches d n e
    → d.generation + n < u64_mod
    → IsCovered d
    → IsCovered e × (e.generation ≤ d.generation + n)
Reaches-IsCovered d here room v = (v, omega arith)
Reaches-IsCovered d (next r h) room v =
    let (covered, le) = Reaches-IsCovered d r (omega arith) v in
    (Happens-IsCovered h (omega arith) covered, omega (arith, Happens-Advances h))

-- From the start, after fewer than 2^64 events in any order, each as one step, the controller keeps
-- the output hidden whenever the mode that it was told last is a protected one: under the overlay,
-- or a custom scene with a name is active, and OBS was switched to it and by the plugin to no other
-- scene since; so a scene that is missing keeps the overlay. A scene that the user chooses by hand
-- is not followed.
pub stays_hidden :
    {Image : Type 0} {n : ℕ} (w : World Image) {d : Controller Image}
    → Reaches (make_controller w) n d
    → n < u64_mod
    → is_protected_mode d.latest_mode ≡ true
    → (d.overlay_required ≡ true)
      ⊎ ((d.custom_scene_active ≡ true)
          × (d.active_target_scene ≢ [])
          × ((earlier : List Bytes) × (d.scene_log ≡ d.active_target_scene ∷ earlier)))
stays_hidden {n = n} w {d} r room =
    (Reaches-IsCovered (make_controller w) r start (make_controller-IsCovered w)).0.hidden
  where
    start : (make_controller w).generation + n < u64_mod
    start = unfold make_controller in omega arith
