-- ===== src/Plugin/Guarded.antt =====
-- A client that reports a sensitive file or falls silent, from the privacy state to the frames that
-- follow (obs-plugin/src/privacy-state.cpp and obs-plugin/src/plugin-main.cpp).
use obs_vscode_privacy_guard.Base.{
  All, List, [], ap, append_assoc, length, refl, some, subst, suc, sym, true, u64_mod, ℕ, ◌++◌, ◌+◌,
  ◌<◌, ◌∙◌, ◌∷◌, ◌≡◌, ◌⊎◌,
}
use obs_vscode_privacy_guard.Privacy.{
  Client, PrivacyState, find, make_state, mode, state_received, tick,
}
use obs_vscode_privacy_guard.Privacy.Clients.{Distinct}
use obs_vscode_privacy_guard.Privacy.Invariant.{Inv}
use obs_vscode_privacy_guard.Privacy.Preserved.{opened, run-make_state-Inv}
use obs_vscode_privacy_guard.Privacy.FailClosed.{silent_client_disconnects}
use obs_vscode_privacy_guard.Privacy.Distinctness.{run-Distinct}
use obs_vscode_privacy_guard.Privacy.Guarded.{IsElsewhere, sensitive_holds, timeout-run}
use obs_vscode_privacy_guard.Privacy.History.{Call, run, states, step, ticks}
use obs_vscode_privacy_guard.Display.Renderer.{Graphics, World}
use obs_vscode_privacy_guard.Display.Drawing.{Canvas, Sprite, fills, opaque_black}
use obs_vscode_privacy_guard.Display.Controller.{is_protected_mode}
use obs_vscode_privacy_guard.Plugin.{Event, called, liveness_timeout, render_privacy_overlay}
use obs_vscode_privacy_guard.Plugin.EndToEnd.{
  IsOnScene, current_mode, protected_frame, ticked_after,
}
use obs_vscode_privacy_guard.Plugin.Received.{
  after_events, after_events-run, calls_at, calls_of, protected_of, run-append, some_state,
  tick_privacy_state-run,
}

module _ {Image : Type 0} where
  calls_of-append :
      (events later : List (Event Image))
      → calls_of (events ++ later) ≡ calls_of events ++ calls_of later
  unfolding calls_of
  calls_of-append [] later = refl
  calls_of-append (event ∷ events) later =
      ap (λ calls. calls_at event ++ calls) (calls_of-append events later)
      ∙ sym (append_assoc (calls_at event) (calls_of events) (calls_of later))

  -- The mode that a tick reads.
  current_mode-ticked_after :
      (cycles : List (World Image × List (Event Image))) (w : World Image)
      (events : List (Event Image)) (now : ℕ) (between : List Call)
      → current_mode (ticked_after cycles w events now between)
        ≡ mode (run (run (make_state liveness_timeout) (calls_of events)) (ticks now ∷ between))
  unfolding run step
  current_mode-ticked_after cycles w events now between =
      rw
        (tick_privacy_state-run now between (after_events cycles w events) _
          (after_events-run cycles w events))
        refl

  -- The state after the report and the calls behind it.
  after_report-run :
      (before after : List (Event Image)) (id sequence at now : ℕ) (between : List Call)
      → (let st = run (make_state liveness_timeout) (calls_of before) in
          run
            (run
              (make_state liveness_timeout)
              (calls_of (before ++ called (states id sequence true at) ∷ after)))
            (ticks now ∷ between)
          ≡ run (state_received st id sequence true at).0 (calls_of after ++ (ticks now ∷ between)))
  unfolding run step calls_of calls_at
  after_report-run before after id sequence at now between =
      let start = make_state liveness_timeout in
      let report : Call = states id sequence true at in
      let st = run start (calls_of before) in
      let tick_calls = ticks now ∷ between in
      ap (λ calls. run (run start calls) tick_calls)
        (calls_of-append before (called report ∷ after))
      ∙ (ap (λ s. run s tick_calls) (run-append start (calls_of before) (report ∷ calls_of after))
          ∙ sym (run-append (step st report) (calls_of after) tick_calls))

-- In every load cycle: when a STATE with SENSITIVE is accepted on connection `id` at the time `at`,
-- with protection enabled, then whatever happens before and behind it, each time OBS ticks the next
-- frame is drawn over with opaque black on the whole canvas first, or a custom scene of the user
-- with a name is active, and OBS was switched to it and by the plugin to no other scene since; as
-- long as the calls on the privacy state behind it are not about this connection and do not arm or
-- disarm, and no tick is later than two seconds after `at`. All that happens is fewer than 2^64 - 1
-- calls, tasks, events, ticks, settings and frames, in any order, and OBS knows its canvas and has
-- its effect for solid colours.
pub sensitive_file_hidden :
    {Image : Type 0} (cycles : List (World Image × List (Event Image))) (w : World Image)
    (before after : List (Event Image)) (st : PrivacyState) (id sequence at now : ℕ)
    (between : List Call) (g : Graphics Image) (c : Canvas) (width height passes : ℕ)
    → length (before ++ called (states id sequence true at) ∷ after) + 1 < u64_mod
    → (after_events cycles w before).privacy_state ≡ some st
    → st.enabled ≡ true
    → (state_received st id sequence true at).1 ≡ true
    → All (IsElsewhere id (at + liveness_timeout)) (calls_of after ++ (ticks now ∷ between))
    → c.video_info ≡ some (width, height)
    → c.solid_passes ≡ some (suc passes)
    → let p =
        ticked_after cycles w (before ++ called (states id sequence true at) ∷ after) now between in
      ((rest : List (Sprite Image)) × ((render_privacy_overlay g c p).1
          ≡ fills opaque_black width height ∷ rest))
      ⊎ IsOnScene p
sensitive_file_hidden cycles w before after st id sequence at now between g c width height passes
      room shared on taken away video solid =
    let events = before ++ called (states id sequence true at) ∷ after in
    let calls = calls_of after ++ (ticks now ∷ between) in
    let is_run = some_state _ st (sym (after_events-run cycles w before) ∙ shared) in
    let timeout : (st.liveness_timeout ≡ liveness_timeout) =
      subst (λ (s : PrivacyState). s.liveness_timeout ≡ liveness_timeout) is_run
        (timeout-run (make_state liveness_timeout) (calls_of before)) in
    let distinct =
      subst (λ (s : PrivacyState). Distinct s.clients) is_run
        (run-Distinct (make_state liveness_timeout) (calls_of before) tt) in
    let (shown, off) =
      sensitive_holds st id sequence at calls distinct on taken (rw timeout away) in
    let mode_is =
      current_mode-ticked_after cycles w events now between
      ∙ ap mode (after_report-run before after id sequence at now between)
      ∙ ap (λ s. mode (run (state_received s id sequence true at).0 calls)) is_run in
    protected_frame cycles w events now between g c width height passes room video solid
      (ap is_protected_mode mode_is ∙ protected_of _ shown off)

-- In every load cycle, after any calls, tasks, events, ticks, settings and frames in any order,
-- fewer than 2^64 - 1 in all and with fewer than 2^64 - 1 connections opened: when OBS ticks with
-- protection enabled and a client has not sent an update for more than two seconds, the next frame
-- is drawn over with opaque black on the whole canvas first, or a custom scene of the user with a
-- name is active, and OBS was switched to it and by the plugin to no other scene since; provided
-- that no other thread uses the privacy state between this tick and its reading of the mode, and
-- that OBS knows its canvas and has its effect for solid colours.
pub silent_client_hidden :
    {Image : Type 0} (cycles : List (World Image × List (Event Image))) (w : World Image)
    (events : List (Event Image)) (st : PrivacyState) (id now : ℕ) (client : Client)
    (g : Graphics Image) (c : Canvas) (width height passes : ℕ)
    → length events + 1 < u64_mod
    → opened (calls_of events) + 1 < u64_mod
    → (after_events cycles w events).privacy_state ≡ some st
    → st.enabled ≡ true
    → find id st.clients ≡ some client
    → client.last_update + liveness_timeout < now
    → c.video_info ≡ some (width, height)
    → c.solid_passes ≡ some (suc passes)
    → let p = ticked_after cycles w events now [] in
      ((rest : List (Sprite Image)) × ((render_privacy_overlay g c p).1
          ≡ fills opaque_black width height ∷ rest))
      ⊎ IsOnScene p
unfolding run step
silent_client_hidden cycles w events st id now client g c width height passes room few shared on
      found late video solid =
    let start = make_state liveness_timeout in
    let is_run = some_state _ st (sym (after_events-run cycles w events) ∙ shared) in
    let timeout : (st.liveness_timeout ≡ liveness_timeout) =
      subst (λ (s : PrivacyState). s.liveness_timeout ≡ liveness_timeout) is_run
        (timeout-run start (calls_of events)) in
    let inv = subst Inv is_run (run-make_state-Inv liveness_timeout (calls_of events) few) in
    let mode_is =
      current_mode-ticked_after cycles w events now []
      ∙ ap (λ s. mode (tick s now)) is_run
      ∙ silent_client_disconnects st id now client inv on found (rw timeout late) in
    protected_frame cycles w events now [] g c width height passes room video solid
      (ap is_protected_mode mode_is)
