-- ===== src/Plugin/Shown.antt =====
-- What OBS draws when the mode is not a protected one and the UI thread has caught up.
use obs_vscode_privacy_guard.Base.{
  Bool, Bytes, List, Option, [], ap, arith, false, length, none, refl, some, subst, suc, u64_mod, ℕ,
  ◌+◌, ◌<◌, ◌∙◌, ◌∷◌, ◌≡◌, ◌≤◌,
}
use obs_vscode_privacy_guard.Privacy.{Mode, PrivacyState}
use obs_vscode_privacy_guard.Privacy.History.{Call}
use obs_vscode_privacy_guard.Display.Renderer.{Graphics, World}
use obs_vscode_privacy_guard.Display.Drawing.{Canvas}
use obs_vscode_privacy_guard.Display.Controller.{Controller, apply_task, is_protected_mode}
use obs_vscode_privacy_guard.Display.Controller.Events.{applies}
use obs_vscode_privacy_guard.Display.Controller.Kept.{apply_task-Keeps}
use obs_vscode_privacy_guard.Display.Controller.Settled.{IsSettled, apply_task-IsSettled}
use obs_vscode_privacy_guard.Plugin.{
  Event, Plugin, applied, render_controller, render_privacy_overlay,
}
use obs_vscode_privacy_guard.Plugin.History.{happen}
use obs_vscode_privacy_guard.Plugin.Told.{IsTold, IsTold-step, loaded}
use obs_vscode_privacy_guard.Plugin.Following.{cycles-Follows}
use obs_vscode_privacy_guard.Plugin.EndToEnd.{IsCurrent, current_mode, tick-IsCurrent, ticked_after}

none_of_length : {A : Type 0} (xs : List A) → length xs ≤ 0 → xs ≡ []
none_of_length [] le = refl
none_of_length (x ∷ xs) le = absurd (omega arith)

module _ {Image : Type 0} where
  -- The UI thread takes tasks off its queue, with these answers of Qt and OBS.
  unfoldable pub run_ui : List (World Image) → Plugin Image → Plugin Image
  unfolding happen
  run_ui [] p = p
  run_ui (w ∷ ws) p = run_ui ws (happen p (applied w))

  -- How many tasks the controller has queued.
  abbrev pub queued_tasks : Plugin Image → ℕ
  queued_tasks p = elim p.display_controller [ none ↦ 0 | some d ↦ length d.tasks ]

  -- No task is left, and the controller has the mode.
  pub record CaughtUp (m : Mode) (p : Plugin Image) : Type 0 where
    pub d : Controller Image
    pub is_loaded : p.display_controller ≡ some d
    pub settled : IsSettled d
    pub mode_is : d.latest_mode ≡ m
    pub none_left : d.tasks ≡ []

  pub run_ui-CaughtUp :
      (ws : List (World Image)) (n : ℕ) (st : PrivacyState) (d : Controller Image)
      (last : Option Mode) (listening : Bool) (log : List Bytes)
      → n + length ws < u64_mod
      → IsTold n d last
      → length d.tasks ≤ length ws
      → CaughtUp d.latest_mode (run_ui ws (loaded st d last listening log))
  unfolding run_ui happen
  run_ui-CaughtUp [] n st d last listening log room t le = record {
    d = d;
    is_loaded = refl;
    settled = t.settled;
    mode_is = refl;
    none_left = none_of_length d.tasks le;
  }
  run_ui-CaughtUp (w ∷ ws) n st d last listening log room t le =
      let (settled, fewer) = apply_task-IsSettled w d t.alive t.covered t.settled in
      let d' = apply_task w d in
      let keeps = apply_task-Keeps w d in
      subst (λ m. CaughtUp m (run_ui ws (loaded st d' last listening log))) keeps.1
        (run_ui-CaughtUp ws (suc n) st d' last listening log (omega arith)
          (IsTold-step n d d' last (omega arith) (applies w) keeps settled t)
          (omega (arith, fewer)))

  render_controller-nothing :
      (g : Graphics Image) (c : Canvas) (d : Controller Image)
      → d.overlay_required ≡ false
      → d.watermark_required ≡ false
      → (render_controller g c d).1 ≡ []
  unfolding render_controller
  render_controller-nothing g c d overlay watermark = rw (overlay, watermark) refl

  CaughtUp-draws :
      (g : Graphics Image) (c : Canvas) (m : Mode) (p : Plugin Image)
      → is_protected_mode m ≡ false
      → CaughtUp m p
      → (render_privacy_overlay g c p).1 ≡ []
  unfolding render_privacy_overlay
  CaughtUp-draws g c m p shown u =
      let clear = u.settled.is_clear (ap is_protected_mode u.mode_is ∙ shown) u.none_left in
      rw (u.is_loaded, render_privacy_overlay) (render_controller-nothing g c u.d clear.0 clear.1)

  current-draws :
      (g : Graphics Image) (c : Canvas) (ws : List (World Image)) (n : ℕ) (p : Plugin Image)
      → n + length ws < u64_mod
      → IsCurrent n p
      → is_protected_mode (current_mode p) ≡ false
      → queued_tasks p ≤ length ws
      → (render_privacy_overlay g c (run_ui ws p)).1 ≡ []
  unfolding IsCurrent
  current-draws g c ws n p room (f, latest) = rw f.is_loaded (λ shown queue.
      CaughtUp-draws g c f.d.latest_mode (run_ui ws (loaded f.st f.d f.last f.listening f.log))
        (ap is_protected_mode latest ∙ shown)
        (run_ui-CaughtUp ws n f.st f.d f.last f.listening f.log room f.tells queue))

-- In every load cycle, from load on, after any calls, tasks, events, ticks, settings and frames in
-- any order: when OBS has ticked and the mode that this tick reads is SAFE or DISABLED, and the UI
-- thread has then taken as many tasks as were queued, whatever Qt and OBS answer meanwhile, then
-- the next frame draws nothing over the output: no black, no image and no watermark; provided that
-- the events and these tasks are fewer than 2^64 - 1.
pub shown_frame :
    {Image : Type 0} (cycles : List (World Image × List (Event Image))) (w : World Image)
    (events : List (Event Image)) (now : ℕ) (between : List Call) (ws : List (World Image))
    (g : Graphics Image) (c : Canvas)
    → length events + length ws + 1 < u64_mod
    → is_protected_mode (current_mode (ticked_after cycles w events now between)) ≡ false
    → queued_tasks (ticked_after cycles w events now between) ≤ length ws
    → (render_privacy_overlay g c (run_ui ws (ticked_after cycles w events now between))).1 ≡ []
shown_frame {Image = Image} cycles w events now between ws g c room shown queue =
    current-draws g c ws (suc (length events)) (ticked_after cycles w events now between)
      (omega arith)
      (tick-IsCurrent (length events) now between _ (omega arith)
        (cycles-Follows cycles w events (omega arith)))
      shown queue
