-- ===== src/Display/Controller/Race.antt =====
-- The controller's handlers in steps, as the tick thread and the UI thread of OBS take them at the same
-- time (obs-plugin/src/protection-display.cpp). A step is one section under the mutex or the writes
-- between two such sections. A handler writes each of its fields once on a path, so a write of the
-- other thread in the middle of a step leaves every field as it would before or after the step.
pub mod Requests
pub mod Sound
pub mod Steps
pub mod Quiet
pub mod Exposed
mod Tests
use obs_vscode_privacy_guard.Base.{
  [], if◌then◌else◌, suc, u64_mod, ℕ, ◌%◌, ◌&&◌, ◌++◌, ◌+◌, ◌==◌, ◌∷◌, ◌≡◌,
}
use obs_vscode_privacy_guard.Privacy.{Mode, mode}
use obs_vscode_privacy_guard.Display.{DisplaySettings, resolve_display_action}
use obs_vscode_privacy_guard.Display.Renderer.{World, clear}
use obs_vscode_privacy_guard.Display.Controller.{
  ApplyRequest, Controller, apply_built_in, apply_checked, apply_image, apply_scene, cover,
  is_protected_mode, restore_previous_scene,
}
use obs_vscode_privacy_guard.Display.Controller.Events.{
  FrontendEvent, frontend_event, update_settings,
}

-- Where a thread is in `privacy_mode_changed`: outside, before the cover, before the mutex of
-- `queue_apply`, or before `obs_queue_task`.
pub data Notifier : Type 0 where
  resting : Notifier
  covering locking : Mode → Notifier
  queueing : ApplyRequest → Notifier

-- Where the UI thread is in `apply_on_ui_thread`: outside, or behind the check of the generation.
pub data Applier : Type 0 where
  idle : Applier
  applying : ApplyRequest → Applier

pub record Threads (Image : Type 0) : Type 0 where
  pub controller : Controller Image
  pub tick : Notifier
  pub ui : Applier

module _ {Image : Type 0} where
  -- `privacy_mode_changed` up to its check of `alive_`.
  unfoldable pub notify : Controller Image → Mode → Notifier
  notify d m = if d.alive then covering m else resting

  -- The next step of `privacy_mode_changed`, and of `update_settings` once it has read the mode.
  unfoldable pub advance : Notifier → Controller Image → Notifier × Controller Image
  unfolding clear
  advance resting d = (resting, d)
  advance (covering m) d = (locking m, if is_protected_mode m then cover d else d)
  advance (locking m) d =
      let next = (d.generation + 1) % u64_mod in
      (
        queueing (record { mode = m; generation = next }),
        record d { latest_mode = m; generation = next },
      )
  advance (queueing request) d = (resting, record d { tasks = d.tasks ++ request ∷ [] })

  -- `update_settings` up to the end of its first section under the mutex.
  unfoldable pub store_settings : DisplaySettings → Controller Image → Notifier × Controller Image
  store_settings settings d = (covering d.latest_mode, record d { settings = settings })

  -- The UI thread takes a task off the queue and makes the two checks of `apply_on_ui_thread`.
  unfoldable pub take_task : Controller Image → Applier × Controller Image
  take_task d = elim d.tasks [
    | [] ↦ (idle, d)
    | request ∷ rest ↦ (
      if d.alive && request.generation == d.generation then applying request else idle,
      record d { tasks = rest },
    )
  ]

  -- The rest of the task.
  unfoldable pub finish_task : World Image → Applier → Controller Image → Controller Image
  unfolding apply_built_in apply_image apply_scene resolve_display_action restore_previous_scene
  finish_task w idle d = d
  finish_task w (applying request) d = apply_checked w request.mode d

  -- A step of either thread. The handlers of the UI thread other than the task are single steps, and
  -- run outside a task.
  pub data Step (t : Threads Image) : Threads Image → Type 0 where
    notices : (m : Mode) → t.tick ≡ resting → Step t (record t { tick = notify t.controller m })
    advances : Step t (record t {
      tick = (advance t.tick t.controller).0;
      controller = (advance t.tick t.controller).1;
    })
    takes :
        t.ui ≡ idle
        → Step t
            (record t { ui = (take_task t.controller).0; controller = (take_task t.controller).1 })
    finishes :
        (w : World Image)
        → Step t (record t { ui = idle; controller = finish_task w t.ui t.controller })
    fires :
        (w : World Image) (event : FrontendEvent)
        → t.ui ≡ idle
        → Step t (record t { controller = frontend_event w event t.controller })
    configures :
        (settings : DisplaySettings)
        → t.ui ≡ idle
        → Step t (record t { controller = update_settings settings t.controller })

  pub data Runs (t : Threads Image) : ℕ → Threads Image → Type 0 where
    done : Runs t 0 t
    more : {n : ℕ} {u v : Threads Image} → Runs t n u → Step u v → Runs t (suc n) v
