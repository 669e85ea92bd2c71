-- ===== src/Display/Controller/Race/Tests.antt =====
-- The theorems on the two threads at concrete steps. An image is a number here.
use obs_vscode_privacy_guard.Base.{Bytes, List, [], arith, none, refl, true, ℕ, ◌∷◌, ◌≡◌, ◌≢◌, ◌⊎◌}
use obs_vscode_privacy_guard.Privacy.{Mode}
use obs_vscode_privacy_guard.Display.{default_settings}
use obs_vscode_privacy_guard.Display.Renderer.{World}
use obs_vscode_privacy_guard.Display.Controller.{
  ApplyRequest, Controller, apply_task, make_controller, privacy_mode_changed,
}
use obs_vscode_privacy_guard.Display.Controller.Race.{
  Runs, Threads, advance, advances, done, finish_task, finishes, idle, more, notices, notify,
  take_task, takes,
}
use obs_vscode_privacy_guard.Display.Controller.Race.Quiet.{quiet_hides, start}
use obs_vscode_privacy_guard.Display.Controller.Race.Exposed.{
  IsExposed, told_during_task, told_during_task-exposes, told_during_update,
  told_during_update-exposes,
}

-- No image can be loaded and no scene exists.
abbrev bare_world : World ℕ
bare_world = record { load = λ path. none; source = λ name. none; current_scene = none }

abbrev before : Controller ℕ
before = make_controller bare_world

-- The controller once the mode is safe and its task has run.
abbrev showing : Controller ℕ
showing = apply_task bare_world (privacy_mode_changed before Mode.safe)

-- The same with the task still in the queue.
abbrev waiting : Controller ℕ
waiting = privacy_mode_changed before Mode.safe

abbrev safe_request : ApplyRequest
safe_request = record { mode = Mode.safe; generation = 1 }

abbrev noticed : Mode → Threads ℕ → Threads ℕ
noticed m t = record t { tick = notify t.controller m }

abbrev advanced : Threads ℕ → Threads ℕ
advanced t = record t {
  tick = (advance t.tick t.controller).0;
  controller = (advance t.tick t.controller).1;
}

abbrev taken : Threads ℕ → Threads ℕ
taken t = record t { ui = (take_task t.controller).0; controller = (take_task t.controller).1 }

abbrev finished : Threads ℕ → Threads ℕ
finished t = record t { ui = idle; controller = finish_task bare_world t.ui t.controller }

-- The tick thread tells the safe mode, and a sensitive file in the middle of the first task.
abbrev first_task : Threads ℕ
first_task = taken (advanced (advanced (advanced (noticed Mode.safe (start bare_world)))))

abbrev after : Threads ℕ
after =
    finished (taken (advanced (finished (advanced (advanced (noticed Mode.sensitive first_task))))))

first_run : Runs (start bare_world) 5 first_task
unfolding notify advance take_task make_controller
first_run =
    more (more (more (more (more done (notices Mode.safe refl)) advances) advances) advances)
      (takes refl)

whole_run : Runs (start bare_world) 12 after
unfolding notify advance take_task finish_task make_controller
whole_run =
    more
      (more
        (more
          (more (more (more (more first_run (notices Mode.sensitive refl)) advances) advances)
            (finishes bare_world))
          advances)
        (takes refl))
      (finishes bare_world)

quiet_hides_example :
    (after.controller.overlay_required ≡ true)
    ⊎ ((after.controller.custom_scene_active ≡ true)
        × (after.controller.active_target_scene ≢ [])
        × ((earlier : List Bytes) × (after.controller.scene_log
              ≡ after.controller.active_target_scene ∷ earlier)))
unfolding notify advance take_task finish_task make_controller
quiet_hides_example = quiet_hides bare_world whole_run (omega arith) (refl, refl, refl) refl

told_during_update-exposes_example :
    IsExposed (told_during_update bare_world default_settings Mode.sensitive showing)
    × ((told_during_update bare_world default_settings Mode.sensitive showing).tasks ≡ [])
unfolding apply_task privacy_mode_changed make_controller
told_during_update-exposes_example =
    told_during_update-exposes bare_world default_settings Mode.sensitive showing refl refl
      (omega arith) refl refl

told_during_task-exposes_example :
    IsExposed (told_during_task bare_world Mode.sensitive waiting)
    × ((told_during_task bare_world Mode.sensitive waiting).latest_mode ≡ Mode.sensitive)
    × ((told_during_task bare_world Mode.sensitive waiting).tasks
        ≡ record { mode = Mode.sensitive; generation = 2 } ∷ [])
unfolding privacy_mode_changed make_controller
told_during_task-exposes_example =
    told_during_task-exposes bare_world Mode.sensitive waiting safe_request [] refl refl refl refl
      refl
