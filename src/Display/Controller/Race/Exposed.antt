-- ===== src/Display/Controller/Race/Exposed.antt =====
-- Two interleavings of the tick thread with a handler of the UI thread.
use obs_vscode_privacy_guard.Base.{
  Bool, List, [], ap, arith, false, if_cases, if◌then◌else◌, not, refl, true, u64_mod, ℕ, ◌%◌, ◌&&◌,
  ◌++◌, ◌+◌, ◌<◌, ◌==◌, ◌∙◌, ◌∷◌, ◌≡◌, ◌≢◌,
}
use obs_vscode_privacy_guard.Privacy.{Mode, same}
use obs_vscode_privacy_guard.Display.{DisplaySettings, event_of, resolve_display_action}
use obs_vscode_privacy_guard.Display.Renderer.{World}
use obs_vscode_privacy_guard.Display.Controller.{
  ApplyRequest, Controller, apply_action, apply_checked, apply_on_ui_thread, cover,
  is_protected_mode, privacy_mode_changed, queue_apply, restore_previous_scene,
}
use obs_vscode_privacy_guard.Display.Controller.Events.{run_tasks}
use obs_vscode_privacy_guard.Display.Controller.Hiding.{apply_checked-Leaves, restore-overlay}
use obs_vscode_privacy_guard.Display.Controller.Race.{
  advance, applying, finish_task, idle, locking, store_settings, take_task,
}

module _ {Image : Type 0} where
  -- The UI thread stores new settings and reads the mode; the tick thread tells a new mode; the UI
  -- thread ends `update_settings`, and then runs the tasks of the queue.
  unfoldable pub told_during_update :
      World Image → DisplaySettings → Mode → Controller Image → Controller Image
  unfolding store_settings privacy_mode_changed advance run_tasks
  told_during_update w settings m d =
      let (n1, d1) = store_settings settings d in
      let (n2, d2) = advance n1 (privacy_mode_changed d1 m) in
      let (n3, d3) = advance n2 d2 in let d4 = (advance n3 d3).1 in run_tasks w d4.tasks d4

  -- The UI thread takes a task and checks its generation; the tick thread tells a new mode; the UI
  -- thread ends its task.
  unfoldable pub told_during_task : World Image → Mode → Controller Image → Controller Image
  unfolding take_task privacy_mode_changed finish_task
  told_during_task w m d =
      let (ui, d1) = take_task d in finish_task w ui (privacy_mode_changed d1 m)

  privacy_mode_changed-protected :
      (d : Controller Image) (m : Mode)
      → d.alive ≡ true
      → is_protected_mode m ≡ true
      → privacy_mode_changed d m ≡ queue_apply (cover d) m
  unfolding privacy_mode_changed
  privacy_mode_changed-protected d m on p =
      if_cases (λ x. x ≡ queue_apply (cover d) m) (not d.alive) d
        (queue_apply (if is_protected_mode m then cover d else d) m) (λ off. cc)
        (λ _. ap (λ b. queue_apply (if b then cover d else d) m) p)

  apply_on_ui_thread-stale :
      (w : World Image) (m : Mode) (generation : ℕ) (d : Controller Image)
      → generation ≢ d.generation
      → apply_on_ui_thread w m generation d ≡ d
  unfolding apply_on_ui_thread
  apply_on_ui_thread-stale w m generation d ne =
      if_cases (λ x. x ≡ d) (not d.alive) d _ (λ _. refl)
        (λ _.
          if_cases (λ x. x ≡ d) (not (generation == d.generation)) d (apply_checked w m d)
            (λ _. refl) (λ same. absurd (ground arith)))

  apply_on_ui_thread-current :
      (w : World Image) (m : Mode) (generation : ℕ) (d : Controller Image)
      → d.alive ≡ true
      → generation ≡ d.generation
      → apply_on_ui_thread w m generation d ≡ apply_checked w m d
  unfolding apply_on_ui_thread
  apply_on_ui_thread-current w m generation d on same =
      if_cases (λ x. x ≡ apply_checked w m d) (not d.alive) d _ (λ off. cc)
        (λ _.
          if_cases (λ x. x ≡ apply_checked w m d) (not (generation == d.generation)) d
            (apply_checked w m d) (λ differs. absurd (ground arith)) (λ _. refl))

  -- Nothing hides the output.
  abbrev pub IsExposed : Controller Image → Type 0
  IsExposed d = (d.overlay_required ≡ false) × (d.custom_scene_active ≡ false)

  apply_checked-exposes :
      (w : World Image) (m : Mode) (d : Controller Image)
      → is_protected_mode m ≡ false
      → IsExposed (apply_checked w m d)
  apply_checked-exposes w m d open_mode =
      if_cases IsExposed (not (is_protected_mode m))
        (restore_previous_scene w
          (record d { watermark_required = false; overlay_required = false }))
        (apply_action (resolve_display_action d.settings m) w m (event_of d.settings m) d)
        (λ _. (
          (restore-overlay w (record d { watermark_required = false; overlay_required = false })).0,
          unfold restore_previous_scene in refl,
        ))
        (λ protected. absurd (ground arith))

  -- A stale task, and then the latest one.
  two_tasks :
      (w : World Image) (q : Controller Image) (ts : List ApplyRequest)
      (stale latest : ApplyRequest)
      → ts ≡ []
      → q.alive ≡ true
      → stale.generation ≢ q.generation
      → latest.generation ≡ q.generation
      → is_protected_mode latest.mode ≡ false
      → IsExposed (run_tasks w ((ts ++ stale ∷ []) ++ latest ∷ []) q)
        × ((run_tasks w ((ts ++ stale ∷ []) ++ latest ∷ []) q).tasks ≡ [])
  unfolding run_tasks
  two_tasks w q ts stale latest none_before on ne same open_mode = rw none_before (
      rw
        (apply_on_ui_thread-stale w stale.mode stale.generation (record q { tasks = latest ∷ [] })
          ne)
        (rw
          (apply_on_ui_thread-current w latest.mode latest.generation (record q { tasks = [] }) on
            same)
          (apply_checked-exposes w latest.mode (record q { tasks = [] }) open_mode, refl)))

module _ {Image : Type 0} where
  take_task-latest :
      (d : Controller Image) (r : ApplyRequest) (rs : List ApplyRequest)
      → d.alive ≡ true
      → d.tasks ≡ r ∷ rs
      → r.generation ≡ d.generation
      → take_task d ≡ (applying r, record d { tasks = rs })
  unfolding take_task
  take_task-latest d r rs on tasks same =
      let taken : (take_task d ≡ (
        if d.alive && r.generation == d.generation then applying r else idle,
        record d { tasks = rs },
      )) =
        simp (tasks, take_task) in
      let latest : ((d.alive && r.generation == d.generation) ≡ true) = ground arith in
      taken ∙ ap (λ b. (if b then applying r else idle, record d { tasks = rs })) latest

-- If the tick thread tells a protected mode while the UI thread is in `update_settings`, after it
-- has read a mode that is not protected and before it queues that mode, and no task was in the queue
-- before, then the output is shown once the tasks have run, and no task is left that would hide it;
-- as long as the controller is alive and the generation has room for two more.
pub told_during_update-exposes :
    {Image : Type 0} (w : World Image) (settings : DisplaySettings) (m : Mode)
    (d : Controller Image)
    → d.alive ≡ true
    → d.tasks ≡ []
    → d.generation + 2 < u64_mod
    → is_protected_mode d.latest_mode ≡ false
    → is_protected_mode m ≡ true
    → IsExposed (told_during_update w settings m d)
      × ((told_during_update w settings m d).tasks ≡ [])
unfolding told_during_update store_settings advance queue_apply
told_during_update-exposes {Image = Image} w settings m d on none_before room open_mode p =
    let d1 : Controller Image = record d { settings = settings } in
    let rest : (Controller Image → Bool → Controller Image) = λ x b.
      let d2 = if b then cover x else x in
      let (n3, d3) = advance (locking d.latest_mode) d2 in
      let d4 = (advance n3 d3).1 in run_tasks w d4.tasks d4 in
    let told : (told_during_update w settings m d ≡ rest (queue_apply (cover d1) m) false) =
      ap (λ x. rest x (is_protected_mode d.latest_mode)) (privacy_mode_changed-protected d1 m on p)
      ∙ ap (rest (queue_apply (cover d1) m)) open_mode in
    let gen1 = (d.generation + 1) % u64_mod in
    let gen2 = (gen1 + 1) % u64_mod in
    let q : Controller Image = record (queue_apply (cover d1) m) {
      latest_mode = d.latest_mode;
      generation = gen2;
      tasks =
          ((d.tasks ++ record { mode = m; generation = gen1 } ∷ [])
            ++ record { mode = d.latest_mode; generation = gen2 } ∷ []);
    } in
    rw told (
      two_tasks w q d.tasks (record { mode = m; generation = gen1 })
        (record { mode = d.latest_mode; generation = gen2 }) none_before on (λ e. omega (arith, e))
        refl open_mode)

-- If the tick thread tells a protected mode while the UI thread is in the task of the latest
-- request, for a mode that is not protected and behind its check of the generation, with the
-- controller alive, then the output is shown when that task ends, although the controller has the
-- protected mode; and the request that hides it is the last in the queue.
pub told_during_task-exposes :
    {Image : Type 0} (w : World Image) (m : Mode) (d : Controller Image) (r : ApplyRequest)
    (rs : List ApplyRequest)
    → d.alive ≡ true
    → d.tasks ≡ r ∷ rs
    → r.generation ≡ d.generation
    → is_protected_mode r.mode ≡ false
    → is_protected_mode m ≡ true
    → IsExposed (told_during_task w m d)
      × ((told_during_task w m d).latest_mode ≡ m)
      × ((told_during_task w m d).tasks
          ≡ rs ++ record { mode = m; generation = (d.generation + 1) % u64_mod } ∷ [])
unfolding told_during_task take_task finish_task queue_apply
told_during_task-exposes {Image = Image} w m d r rs on tasks same open_mode p =
    let d1 : Controller Image = record d { tasks = rs } in
    let q = queue_apply (cover d1) m in
    let told : (told_during_task w m d ≡ apply_checked w r.mode q) =
      ap (λ x. finish_task w x.0 (privacy_mode_changed x.1 m))
        (take_task-latest d r rs on tasks same)
      ∙ ap (apply_checked w r.mode) (privacy_mode_changed-protected d1 m on p) in
    let (_, latest, queue) = apply_checked-Leaves w r.mode q in
    rw told (apply_checked-exposes w r.mode q open_mode, latest, queue)
