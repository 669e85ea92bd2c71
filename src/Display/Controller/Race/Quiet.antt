-- ===== src/Display/Controller/Race/Quiet.antt =====
-- The controller after all steps of the two threads.
use obs_vscode_privacy_guard.Display.Controller.Race.Requests.{not_pending}
use obs_vscode_privacy_guard.Display.Controller.Race.Steps.{
  IsSoundThreads, Step-IsSound, frontend_event-Shut,
}
use obs_vscode_privacy_guard.Display.Renderer.{World}
use obs_vscode_privacy_guard.Display.Controller.Events.{Happens}
use obs_vscode_privacy_guard.Display.Controller.Safety.{Happens-Advances}
use obs_vscode_privacy_guard.Base.{
  Bytes, List, [], arith, if_cases, inl, inr, refl, true, u64_mod, ℕ, ◌+◌, ◌<◌, ◌∷◌, ◌≡◌, ◌≢◌, ◌≤◌,
  ◌⊎◌,
}
use obs_vscode_privacy_guard.Privacy.{tick}
use obs_vscode_privacy_guard.Display.Controller.{
  ApplyRequest, Controller, cover, is_protected_mode, make_controller,
}
use obs_vscode_privacy_guard.Display.Controller.Hiding.{apply_checked-Leaves}
use obs_vscode_privacy_guard.Display.Controller.Race.{
  Applier, Notifier, Runs, Step, Threads, advance, advances, applying, covering, done, finish_task,
  finishes, idle, locking, more, notices, queueing, resting, take_task, takes,
}

module _ {Image : Type 0} where
  advance-generation :
      (tick : Notifier) (d : Controller Image) → (advance tick d).1.generation ≤ d.generation + 1
  unfolding advance
  advance-generation resting d = omega arith
  advance-generation (covering m) d =
      if_cases (λ x. x.generation ≤ d.generation + 1) (is_protected_mode m) (cover d) d
        (λ _. omega arith) (λ _. omega arith)
  advance-generation (locking m) d = omega arith
  advance-generation (queueing r) d = omega arith

  take_task-generation : (d : Controller Image) → (take_task d).1.generation ≡ d.generation
  unfolding take_task
  take_task-generation d = go d.tasks refl
    where
      go : (rs : List ApplyRequest) → d.tasks ≡ rs → (take_task d).1.generation ≡ d.generation
      go [] e = rw (e, take_task) refl
      go (r ∷ rs) e = rw (e, take_task) refl

  finish_task-generation :
      (w : World Image) (ui : Applier) (d : Controller Image)
      → (finish_task w ui d).generation ≡ d.generation
  unfolding finish_task
  finish_task-generation w idle d = refl
  finish_task-generation w (applying r) d = (apply_checked-Leaves w r.mode d).0

  Step-generation :
      {t u : Threads Image} → Step t u → u.controller.generation ≤ t.controller.generation + 1
  Step-generation {t} (notices m rest) = omega arith
  Step-generation {t} advances = advance-generation t.tick t.controller
  Step-generation {t} (takes at_rest) = omega (arith, take_task-generation t.controller)
  Step-generation {t} (finishes w) = omega (arith, finish_task-generation w t.ui t.controller)
  Step-generation {t} (Step.fires w event at_rest) =
      omega (arith, (frontend_event-Shut w event t.controller).0.0)
  Step-generation {t} (Step.configures settings at_rest) =
      omega (arith, Happens-Advances {d = t.controller} (Happens.configures settings))

  Runs-IsSound :
      (t : Threads Image) {n : ℕ} {u : Threads Image}
      → Runs t n u
      → t.controller.generation + n < u64_mod
      → IsSoundThreads t
      → IsSoundThreads u × (u.controller.generation ≤ t.controller.generation + n)
  Runs-IsSound t done room v = (v, omega arith)
  Runs-IsSound t (more r st) room v =
      let (sound, le) = Runs-IsSound t r (omega arith) v in
      (Step-IsSound st (omega arith) sound, omega (arith, Step-generation st))

  -- Both threads are outside the handlers and the queue is empty.
  abbrev pub IsQuiet : Threads Image → Type 0
  IsQuiet t = (t.tick ≡ resting) × (t.ui ≡ idle) × (t.controller.tasks ≡ [])

  abbrev pub start : World Image → Threads Image
  start w = record { controller = make_controller w; tick = resting; ui = idle }

  start-IsSound : (w : World Image) → IsSoundThreads (start w)
  unfolding make_controller
  start-IsSound w = record {
    alive = refl;
    requests = tt;
    tick_request = tt;
    ui_request = tt;
    settled = inr (refl, λ _. inl refl);
  }

-- From the start, after fewer than 2^64 steps of the tick thread and the UI thread in any
-- interleaving, in which a change of the settings is one step: whenever both threads are outside the
-- handlers and the queue of tasks is empty, a protected mode that was told last has its output
-- hidden under the overlay, or a custom scene with a name is active, and OBS was switched to it and by
-- the plugin to no other scene since. A scene that the user chooses by hand is not followed.
pub quiet_hides :
    {Image : Type 0} (w : World Image) {n : ℕ} {t : Threads Image}
    → Runs (start w) n t
    → n < u64_mod
    → IsQuiet t
    → is_protected_mode t.controller.latest_mode ≡ true
    → (t.controller.overlay_required ≡ true)
      ⊎ ((t.controller.custom_scene_active ≡ true)
          × (t.controller.active_target_scene ≢ [])
          × ((earlier : List Bytes) × (t.controller.scene_log
                ≡ t.controller.active_target_scene ∷ earlier)))
quiet_hides w {n = n} {t = t} r room (tick, ui, tasks) p =
    let v = (Runs-IsSound (start w) r start_room (start-IsSound w)).0 in
    elim v.settled [
      | inl pending ↦
          absurd (
            not_pending t.controller.generation t.controller.tasks t.tick t.ui tick ui tasks
              pending)
      | inr s ↦ s.1 p
    ]
  where
    start_room : (start w).controller.generation + n < u64_mod
    start_room = unfold make_controller in omega arith
