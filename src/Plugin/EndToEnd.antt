-- ===== src/Plugin/EndToEnd.antt =====
-- From load on, through all that may happen, to the rendering of a frame after a tick.
use obs_vscode_privacy_guard.Plugin.Following.{cycles-Follows}
use obs_vscode_privacy_guard.Plugin.Painting.{Covers, render_controller-Covers}
use obs_vscode_privacy_guard.Base.{
  Bool, Bytes, List, Option, [], arith, if_cases, inl, inr, length, none, refl, some, suc, true,
  u64_mod, ℕ, ◌+◌, ◌<◌, ◌∙◌, ◌∷◌, ◌≡◌, ◌≢◌, ◌⊎◌,
}
use obs_vscode_privacy_guard.Privacy.History.{Call, run}
use obs_vscode_privacy_guard.Privacy.{Mode, PrivacyState, mode, same, tick}
use obs_vscode_privacy_guard.Display.Renderer.{Graphics, World}
use obs_vscode_privacy_guard.Display.Drawing.{Canvas, Sprite, fills, opaque_black}
use obs_vscode_privacy_guard.Display.Controller.{
  Controller, is_protected_mode, privacy_mode_changed,
}
use obs_vscode_privacy_guard.Display.Controller.Kept.{privacy_mode_changed-latest}
use obs_vscode_privacy_guard.Plugin.{
  Event, Plugin, is_logged, log_mode, mode_name, obs_module_load, render_privacy_overlay,
  tick_privacy_state, unloaded,
}
use obs_vscode_privacy_guard.Plugin.History.{happen_all, run_cycles}
use obs_vscode_privacy_guard.Plugin.Told.{
  Follows, IsTold, IsTold-changed, IsTold-later, loaded, same_mode_eq,
}

logged_mode :
    (last : Option Mode) (current latest : Mode)
    → is_logged last current ≡ true
    → ((m : Mode) → last ≡ some m → latest ≡ m)
    → latest ≡ current
logged_mode none current latest same told = cc
logged_mode (some m) current latest same told = told m refl ∙ same_mode_eq m current same

module _ {Image : Type 0} where
  -- After a tick the controller has the mode of the privacy state.
  unfoldable pub IsCurrent : ℕ → Plugin Image → Type 0
  IsCurrent n p = (f : Follows n p) × (f.d.latest_mode ≡ mode f.st)

  pub tick-IsCurrent :
      (n now : ℕ) (between : List Call) (p : Plugin Image)
      → n + 1 < u64_mod
      → Follows n p
      → IsCurrent (suc n) (tick_privacy_state now between p)
  unfolding tick_privacy_state log_mode IsCurrent
  tick-IsCurrent n now between p room f =
      rw f.is_loaded (told f.st f.d f.last f.listening f.log f.tells)
    where
      told :
          (st : PrivacyState) (d : Controller Image) (last : Option Mode) (listening : Bool)
          (log : List Bytes)
          → IsTold n d last
          → IsCurrent (suc n) (tick_privacy_state now between (loaded st d last listening log))
      told st d last listening log t =
          let current = mode (run (tick st now) between) in
          if_cases (IsCurrent (suc n)) (is_logged last current) _ _
            (λ same. (
              record {
                st = run (tick st now) between;
                d = d;
                last = last;
                listening = listening;
                log = log;
                is_loaded = refl;
                tells = IsTold-later n d last t;
              },
              logged_mode last current d.latest_mode same t.told,
            ))
            (λ _. (
              record {
                st = run (tick st now) between;
                d = privacy_mode_changed d current;
                last = some current;
                listening = listening;
                log = mode_name current ∷ log;
                is_loaded = refl;
                tells = IsTold-changed n d last current room t;
              },
              (privacy_mode_changed-latest d current t.alive).1,
            ))

  -- The mode that the privacy state has, of a loaded plugin.
  abbrev pub current_mode : Plugin Image → Mode
  current_mode p = elim p.privacy_state [ none ↦ Mode.disabled | some st ↦ mode st ]

  -- A scene of the user is active, and the plugin has set it in OBS and no other scene since.
  abbrev pub IsOnScene : Plugin Image → Type 0
  IsOnScene p =
      (d : Controller Image) × (p.display_controller ≡ some d)
      × (d.custom_scene_active ≡ true)
      × (d.active_target_scene ≢ [])
      × ((earlier : List Bytes) × (d.scene_log ≡ d.active_target_scene ∷ earlier))

  pub covered_frame :
      (g : Graphics Image) (c : Canvas) (width height passes n : ℕ) (p : Plugin Image)
      → c.video_info ≡ some (width, height)
      → c.solid_passes ≡ some (suc passes)
      → IsCurrent n p
      → is_protected_mode (current_mode p) ≡ true
      → Covers width height (render_privacy_overlay g c p).1 ⊎ IsOnScene p
  unfolding IsCurrent render_privacy_overlay
  covered_frame g c width height passes n p video solid (f, latest) = rw f.is_loaded (λ protected.
      elim (f.tells.covered.hidden (rw latest protected)) [
        | inl overlay ↦
            inl (render_controller-Covers g c f.d width height passes video solid overlay)
        | inr (active, named, scenes) ↦ inr (f.d, refl, active, named, scenes)
      ])

-- The plugin at the tick after these events, which follow a load, after earlier load cycles.
abbrev pub ticked_after :
    {Image : Type 0}
    → List (World Image × List (Event Image))
    → World Image
    → List (Event Image)
    → ℕ
    → List Call
    → Plugin Image
ticked_after {Image = Image} cycles w events now between =
    tick_privacy_state now between
      (happen_all (obs_module_load w (run_cycles cycles (unloaded Image))) events)

-- In every load cycle, from load on, after fewer than 2^64 - 1 calls, tasks, events, ticks,
-- settings and frames in any order, each as one step, but for a tick, where other threads may call
-- the privacy state between its `tick` and its `mode`: when OBS has ticked and the mode that this
-- tick reads is a protected one, the next frame is drawn over with opaque black on the whole canvas
-- first, or a custom scene of the user with a name is active, and OBS was switched to it and by the
-- plugin to no other scene since; provided that OBS knows its canvas and has its effect for solid
-- colours.
pub protected_frame :
    {Image : Type 0} (cycles : List (World Image × List (Event Image))) (w : World Image)
    (events : List (Event Image)) (now : ℕ) (between : List Call) (g : Graphics Image) (c : Canvas)
    (width height passes : ℕ)
    → length events + 1 < u64_mod
    → c.video_info ≡ some (width, height)
    → c.solid_passes ≡ some (suc passes)
    → is_protected_mode (current_mode (ticked_after cycles w events now between)) ≡ true
    → ((rest : List (Sprite Image)) × ((render_privacy_overlay g c
            (ticked_after cycles w events now between)).1
          ≡ fills opaque_black width height ∷ rest))
      ⊎ IsOnScene (ticked_after cycles w events now between)
unfolding Covers
protected_frame {Image = Image} cycles w events now between g c width height passes room video
      solid =
    covered_frame g c width height passes (suc (length events))
      (ticked_after cycles w events now between) video solid
      (tick-IsCurrent (length events) now between _ room
        (cycles-Follows cycles w events (omega (arith, room))))
