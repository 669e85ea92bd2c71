-- ===== src/Plugin/Received.antt =====
-- From the bytes that a worker reads to the frame that OBS draws: the worker of
-- obs-plugin/src/named-pipe-server.cpp and the tick and the drawing of
-- obs-plugin/src/plugin-main.cpp on the same privacy state.
use obs_vscode_privacy_guard.Base.{
  Bytes, List, Option-cases, [], ap, arith, false, if_cases, inl, inr, length, refl, some, subst,
  suc, sym, true, u64_mod, ℕ, ◌++◌, ◌+◌, ◌<◌, ◌∙◌, ◌∷◌, ◌≡◌, ◌≢◌, ◌⊎◌,
}
use obs_vscode_privacy_guard.Privacy.{Client, Mode, PrivacyState, find, make_state, mode, tick}
use obs_vscode_privacy_guard.Privacy.History.{Call, run, step, ticks}
use obs_vscode_privacy_guard.Privacy.Invariant.{Inv}
use obs_vscode_privacy_guard.Privacy.Preserved.{opened, run-make_state-Inv}
use obs_vscode_privacy_guard.Privacy.Modes.{mode_iff}
use obs_vscode_privacy_guard.Privacy.Arming.{enabled-run}
use obs_vscode_privacy_guard.Privacy.FailClosed.{tick_safe_iff}
use obs_vscode_privacy_guard.Pipe.{Worker, receive}
use obs_vscode_privacy_guard.Pipe.Alarm.{IsAlarm, IsHidden, alone, receive-IsHidden}
use obs_vscode_privacy_guard.Display.Renderer.{Graphics, World}
use obs_vscode_privacy_guard.Display.Drawing.{Canvas, Sprite, fills, opaque_black}
use obs_vscode_privacy_guard.Display.Controller.{is_protected_mode}
use obs_vscode_privacy_guard.Plugin.{
  Event, Plugin, applied, called, configured, fired, is_logged, liveness_timeout, log_mode,
  obs_module_load, render_privacy_overlay, rendered, tick_privacy_state, ticked, unloaded,
}
use obs_vscode_privacy_guard.Plugin.History.{happen, happen_all, run_cycles}
use obs_vscode_privacy_guard.Plugin.Told.{Follows}
use obs_vscode_privacy_guard.Plugin.Following.{cycles-Follows}
use obs_vscode_privacy_guard.Plugin.Painting.{Covers}
use obs_vscode_privacy_guard.Plugin.EndToEnd.{
  IsOnScene, covered_frame, current_mode, tick-IsCurrent,
}

pub protected_of : (m : Mode) → m ≢ Mode.safe → m ≢ Mode.disabled → is_protected_mode m ≡ true
protected_of Mode.disabled shown off = absurd (off refl)
protected_of Mode.awaiting_connection shown off = refl
protected_of Mode.safe shown off = absurd (shown refl)
protected_of Mode.sensitive shown off = refl
protected_of Mode.disconnected shown off = refl

-- A tick does not show what was hidden.
tick-IsHidden :
    (now : ℕ) (st : PrivacyState) → IsHidden st → is_protected_mode (mode (tick st now)) ≡ true
unfolding run step
tick-IsHidden now st h =
    let on = enabled-run st (ticks now ∷ []) tt ∙ h.enabled in
    protected_of (mode (tick st now)) (λ e. h.not_safe ((tick_safe_iff st now h.inv).0 e).0)
      (λ off. ground (arith, on, (mode_iff Mode.disabled (tick st now)).0 off))

pub run-append :
    (st : PrivacyState) (calls later : List Call)
    → run st (calls ++ later) ≡ run (run st calls) later
unfolding run
run-append st [] later = refl
run-append st (call ∷ calls) later = run-append (step st call) calls later

module _ {Image : Type 0} where
  -- The calls on the privacy state that an event makes, and those that the events make.
  unfoldable pub calls_at : Event Image → List Call
  calls_at (ticked now between) = ticks now ∷ between
  calls_at (called call) = call ∷ []
  calls_at _ = []

  unfoldable pub calls_of : List (Event Image) → List Call
  unfolding calls_at
  calls_of [] = []
  calls_of (event ∷ events) = calls_at event ++ calls_of events

  pub tick_privacy_state-run :
      (now : ℕ) (between : List Call) (p : Plugin Image) (st : PrivacyState)
      → p.privacy_state ≡ some st
      → (tick_privacy_state now between p).privacy_state ≡ some (run (tick st now) between)
  unfolding tick_privacy_state log_mode
  tick_privacy_state-run now between p st e =
      let st' = run (tick st now) between in
      rw (e, tick_privacy_state)
        (if_cases (λ (q : Plugin Image). q.privacy_state ≡ some st')
          (is_logged p.last_logged_mode (mode st')) _ _ (λ _. refl) (λ _. refl))

  render_privacy_overlay-run :
      (g : Graphics Image) (c : Canvas) (p : Plugin Image)
      → (render_privacy_overlay g c p).0.privacy_state ≡ p.privacy_state
  unfolding render_privacy_overlay
  render_privacy_overlay-run g c p = elim (Option-cases p.display_controller) [
    | inl e ↦ rw (e, render_privacy_overlay) refl
    | inr (d, e) ↦ rw (e, render_privacy_overlay) refl
  ]

  happen-run :
      (event : Event Image) (p : Plugin Image) (st : PrivacyState)
      → p.privacy_state ≡ some st
      → (happen p event).privacy_state ≡ some (run st (calls_at event))
  unfolding happen calls_at run step
  happen-run (ticked now between) p st e = tick_privacy_state-run now between p st e
  happen-run (called call) p st e = rw e refl
  happen-run (applied w) p st e = e
  happen-run (fired w event) p st e = e
  happen-run (configured settings) p st e = e
  happen-run (rendered g c) p st e = render_privacy_overlay-run g c p ∙ e

  pub happen_all-run :
      (events : List (Event Image)) (p : Plugin Image) (st : PrivacyState)
      → p.privacy_state ≡ some st
      → (happen_all p events).privacy_state ≡ some (run st (calls_of events))
  unfolding happen_all calls_of run
  happen_all-run [] p st e = e
  happen_all-run (event ∷ events) p st e =
      happen_all-run events (happen p event) (run st (calls_at event)) (happen-run event p st e)
      ∙ ap some (sym (run-append st (calls_at event) (calls_of events)))

  -- The plugin with the privacy state as a worker leaves it.
  abbrev pub with_state : PrivacyState → Plugin Image → Plugin Image
  with_state st p = record p { privacy_state = some st }

  with_state-Follows :
      (n : ℕ) (st : PrivacyState) (p : Plugin Image) → Follows n p → Follows n (with_state st p)
  with_state-Follows n st p f = record {
    st = st;
    d = f.d;
    last = f.last;
    listening = f.listening;
    log = f.log;
    is_loaded = ap (with_state st) f.is_loaded;
    tells = f.tells;
  }

pub some_state : (st st' : PrivacyState) → some st ≡ some st' → st ≡ st'
some_state st st' e = cc

tick-IsProtected :
    {Image : Type 0} (now : ℕ) (st : PrivacyState) (p : Plugin Image)
    → IsHidden st
    → is_protected_mode (current_mode (tick_privacy_state now [] (with_state st p))) ≡ true
unfolding run
tick-IsProtected now st p hidden =
    rw (tick_privacy_state-run now [] (with_state st p) st refl) (tick-IsHidden now st hidden)

-- The plugin of a load cycle after these events.
abbrev pub after_events :
    {Image : Type 0}
    → List (World Image × List (Event Image))
    → World Image
    → List (Event Image)
    → Plugin Image
after_events {Image = Image} cycles w events =
    happen_all (obs_module_load w (run_cycles cycles (unloaded Image))) events

pub after_events-run :
    {Image : Type 0} (cycles : List (World Image × List (Event Image))) (w : World Image)
    (events : List (Event Image))
    → (after_events cycles w events).privacy_state
      ≡ some (run (make_state liveness_timeout) (calls_of events))
unfolding obs_module_load
after_events-run {Image = Image} cycles w events =
    happen_all-run events (obs_module_load w (run_cycles cycles (unloaded Image)))
      (make_state liveness_timeout) refl

-- The plugin at the tick after a read of the worker of connection `id`.
abbrev pub ticked_after_read :
    {Image : Type 0} (clock : ℕ → ℕ) (id : ℕ) → Bytes → Worker → ℕ → Plugin Image → Plugin Image
ticked_after_read clock id bytes k now p =
    tick_privacy_state now [] (with_state (receive (alone clock) id bytes k).shared p)

-- In every load cycle, after fewer than 2^64 - 1 events in any order that open fewer than 2^64 - 1
-- connections: when the worker of a connection that has an entry, while protection is enabled,
-- reads bytes that complete a STATE line with SENSITIVE, with nothing behind it, or a line that is
-- no frame, or that leave more than 1024 bytes with no newline, then the frame after the next tick
-- is drawn over with opaque black on the whole canvas first, or a custom scene of the user with a
-- name is active, and OBS was switched to it and by the plugin to no other scene since; whether the
-- worker accepts the line or not. No other thread uses the privacy state between the start of the
-- read and the tick, the read meets no line before that one in the buffer, and OBS knows its canvas
-- and has its effect for solid colours.
pub received_alarm_hides :
    {Image : Type 0} (cycles : List (World Image × List (Event Image))) (w : World Image)
    (events : List (Event Image)) (clock : ℕ → ℕ) (id : ℕ) (bytes : Bytes) (k : Worker) (c : Client)
    (now : ℕ) (g : Graphics Image) (canvas : Canvas) (width height passes : ℕ)
    → length events + 1 < u64_mod
    → opened (calls_of events) + 1 < u64_mod
    → (after_events cycles w events).privacy_state ≡ some k.shared
    → k.shared.enabled ≡ true
    → find id k.shared.clients ≡ some c
    → k.graceful ≡ false
    → IsAlarm (k.pending ++ bytes)
    → canvas.video_info ≡ some (width, height)
    → canvas.solid_passes ≡ some (suc passes)
    → let p = ticked_after_read clock id bytes k now (after_events cycles w events) in
      ((rest : List (Sprite Image)) × ((render_privacy_overlay g canvas p).1
          ≡ fills opaque_black width height ∷ rest))
      ⊎ IsOnScene p
unfolding Covers
received_alarm_hides {Image = Image} cycles w events clock id bytes k c now g canvas width height
      passes room few shared on found goes_on alarm video solid =
    let inv : Inv k.shared =
      subst Inv (some_state _ k.shared (sym (after_events-run cycles w events) ∙ shared))
        (run-make_state-Inv liveness_timeout (calls_of events) few) in
    let hidden = receive-IsHidden clock id bytes k c goes_on inv on found alarm in
    let st = (receive (alone clock) id bytes k).shared in
    let follows = cycles-Follows cycles w events (omega (arith, room)) in
    covered_frame g canvas width height passes (suc (length events))
      (ticked_after_read clock id bytes k now (after_events cycles w events)) video solid
      (tick-IsCurrent (length events) now [] (with_state st (after_events cycles w events)) room
        (with_state-Follows (length events) st (after_events cycles w events) follows))
      (tick-IsProtected now st (after_events cycles w events) hidden)
