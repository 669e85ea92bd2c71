-- ===== src/Display/Controller/Race/Steps.antt =====
-- The events of the frontend, new settings, and any step of either thread.
use obs_vscode_privacy_guard.Display.Controller.Race.Requests.{
  Any-append, IsLatest, IsShut, IsSound, TickKeeps, older_tick,
}
use obs_vscode_privacy_guard.Display.Controller.Race.Sound.{
  IsSound-advance, IsSound-finish, IsSound-handle, IsSound-notify, IsSound-take,
}
use obs_vscode_privacy_guard.Display.Renderer.{World}
use obs_vscode_privacy_guard.Display.Controller.Kept.{frontend_event-Keeps}
use obs_vscode_privacy_guard.Display.Controller.Events.{
  FrontendEvent, frontend_event, other_event, scene_collection_changing, scene_list_changed,
  update_settings,
}
use obs_vscode_privacy_guard.Display.{DisplaySettings}
use obs_vscode_privacy_guard.Base.{
  All, All-append, arith, if_cases, inl, inr, is_nil, not, refl, subst, sym, true, u64_mod, ◌%◌,
  ◌&&◌, ◌+◌, ◌<◌, ◌≡◌,
}
use obs_vscode_privacy_guard.Privacy.{Mode, tick}
use obs_vscode_privacy_guard.Display.Controller.{
  ApplyRequest, Controller, cover, is_protected_mode, queue_apply, restore_previous_scene,
  scene_exists, show_default,
}
use obs_vscode_privacy_guard.Display.Controller.Hiding.{Leaves, restore-Leaves, restore-overlay}
use obs_vscode_privacy_guard.Display.Controller.Cover.{IsRequest, older}
use obs_vscode_privacy_guard.Display.Controller.Race.{
  Notifier, Step, Threads, advances, finishes, idle, notices, takes,
}

module _ {Image : Type 0} where
  pub frontend_event-Shut :
      (w : World Image) (event : FrontendEvent) (d : Controller Image)
      → Leaves d (frontend_event w event d)
        × ((is_protected_mode d.latest_mode ≡ true → IsShut d)
            → is_protected_mode d.latest_mode ≡ true
            → IsShut (frontend_event w event d))
  unfolding frontend_event
  frontend_event-Shut w scene_collection_changing d = ((refl, refl, refl), λ h p. inl p)
  frontend_event-Shut w scene_list_changed d =
      let shown = show_default w d.latest_mode d in
      if_cases
        (λ x.
          Leaves d x
          × ((is_protected_mode d.latest_mode ≡ true → IsShut d)
              → is_protected_mode d.latest_mode ≡ true
              → IsShut x))
        (not (is_nil d.active_target_scene) && not (scene_exists w d.active_target_scene))
        (restore_previous_scene w shown) d
        (λ gone. (restore-Leaves w shown, λ h p. inl (restore-overlay w shown).0))
        (λ _. ((refl, refl, refl), λ h. h))
  frontend_event-Shut w other_event d = ((refl, refl, refl), λ h. h)

  pub IsSound-queue_apply :
      (tick : Notifier) (d : Controller Image) (m : Mode)
      → d.generation + 1 < u64_mod
      → d.alive ≡ true
      → All (IsRequest d.generation d.latest_mode) d.tasks
      → TickKeeps (IsRequest d.generation d.latest_mode) tick
      → IsSound (queue_apply d m) tick idle
  unfolding queue_apply
  IsSound-queue_apply tick d m room alive rs held =
      let e : (d.generation + 1) % u64_mod ≡ d.generation + 1 = omega arith in
      let request : ApplyRequest = record { mode = m; generation = d.generation + 1 } in
      rw e (record {
        alive = alive;
        requests =
            All-append (IsRequest (d.generation + 1) m) d.tasks _
              (older d.generation d.latest_mode m d.tasks rs) ((omega arith, λ _. refl), tt);
        tick_request = older_tick d.generation d.latest_mode m tick held;
        ui_request = tt;
        settled = inl (inl (Any-append (IsLatest (d.generation + 1)) d.tasks request (inr refl)));
      })

  pub IsSound-configure :
      (settings : DisplaySettings) (tick : Notifier) (d : Controller Image)
      → d.generation + 1 < u64_mod
      → IsSound d tick idle
      → IsSound (update_settings settings d) tick idle
  unfolding update_settings
  IsSound-configure settings tick d room v =
      let d' = record d { settings = settings } in
      if_cases (λ x. IsSound (queue_apply x d.latest_mode) tick idle)
        (is_protected_mode d.latest_mode) (cover d') d'
        (λ _.
          IsSound-queue_apply tick (cover d') d.latest_mode room v.alive v.requests v.tick_request)
        (λ _. IsSound-queue_apply tick d' d.latest_mode room v.alive v.requests v.tick_request)

  abbrev pub IsSoundThreads : Threads Image → Type 0
  IsSoundThreads t = IsSound t.controller t.tick t.ui

  pub Step-IsSound :
      {t u : Threads Image}
      → Step t u
      → t.controller.generation + 1 < u64_mod
      → IsSoundThreads t
      → IsSoundThreads u
  Step-IsSound {t} (notices m rest) room v =
      IsSound-notify t.controller m t.ui (subst (λ k. IsSound t.controller k t.ui) rest v)
  Step-IsSound {t} advances room v = IsSound-advance t.tick t.controller t.ui room v
  Step-IsSound {t} (takes at_rest) room v =
      IsSound-take t.tick t.controller (subst (IsSound t.controller t.tick) at_rest v)
  Step-IsSound {t} (finishes w) room v = IsSound-finish w t.tick t.controller t.ui v
  Step-IsSound {t} (Step.fires w event at_rest) room v =
      let (leaves, shut) = frontend_event-Shut w event t.controller in
      let handled =
        IsSound-handle t.tick t.controller (frontend_event w event t.controller) leaves
          (frontend_event-Keeps w event t.controller) shut
          (subst (IsSound t.controller t.tick) at_rest v) in
      subst (IsSound (frontend_event w event t.controller) t.tick) (sym at_rest) handled
  Step-IsSound {t} (Step.configures settings at_rest) room v =
      subst (IsSound (update_settings settings t.controller) t.tick) (sym at_rest) (
        IsSound-configure settings t.tick t.controller room
          (subst (IsSound t.controller t.tick) at_rest v))
