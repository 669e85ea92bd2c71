-- ===== src/Pipe/Alarm.antt =====
-- Input that hides the output, and what the worker makes of it when no other thread is in between.
use obs_vscode_privacy_guard.Base.{
  Bool, Bytes, [], arith, drop, false, inl, inr, length, refl, some, suc, take, true, zero, ℕ, ◌++◌,
  ◌∙◌, ◌∷◌, ◌≡◌, ◌≢◌, ◌≤◌, ◌⊎◌,
}
use obs_vscode_privacy_guard.Protocol.{Frame, FrameKind, parse_frame}
use obs_vscode_privacy_guard.Privacy.{
  Client, Mode, PrivacyState, find, mode, protocol_error, state_received,
}
use obs_vscode_privacy_guard.Privacy.Clients.{find-assign}
use obs_vscode_privacy_guard.Privacy.History.{errors, run, step}
use obs_vscode_privacy_guard.Privacy.Invariant.{Inv}
use obs_vscode_privacy_guard.Privacy.Outcomes.{state_cases, updated}
use obs_vscode_privacy_guard.Privacy.Preserved.{fail_connection-Inv, state_received-Inv}
use obs_vscode_privacy_guard.Privacy.Arming.{client_hides, enabled-run}
use obs_vscode_privacy_guard.Privacy.FailClosed.{lost_connection_disconnects}
use obs_vscode_privacy_guard.Pipe.{
  FrameResult, Schedule, Worker, after_frame, apply_frame, check_size, drain, fail_protocol,
  find_newline, receive, result_of, take_frame,
}
use obs_vscode_privacy_guard.Pipe.Frames.{
  behind, check_size-graceful, check_size-within, drain-none, drain-some, find_newline-append,
  no_newline,
}
use obs_vscode_privacy_guard.Pipe.Limits.{IsBad, receive-IsBad}

-- The pending bytes are a line that reports a sensitive file, or bad.
abbrev pub IsAlarm : Bytes → Type 0
IsAlarm pending =
    IsBad pending
    ⊎ ((k : ℕ) × (f : Frame) × (find_newline pending ≡ some k)
        × (drop (suc k) pending ≡ [])
        × (parse_frame (take k pending) ≡ some f)
        × (f.kind ≡ FrameKind.state)
        × (f.sensitive ≡ true))

-- No other thread uses the shared state.
abbrev pub alone : (ℕ → ℕ) → Schedule
alone clock = record { clock = clock; others = λ n. [] }

-- The protection is on, and the output is not shown.
pub record IsHidden (st : PrivacyState) : Type 0 where
  pub inv : Inv st
  pub enabled : st.enabled ≡ true
  pub not_safe : mode st ≢ Mode.safe

protocol_error-IsHidden :
    (st : PrivacyState) (id : ℕ) (c : Client)
    → Inv st
    → st.enabled ≡ true
    → find id st.clients ≡ some c
    → IsHidden (protocol_error st id)
unfolding run step protocol_error
protocol_error-IsHidden st id c v on e = record {
  inv = fail_connection-Inv st id v;
  enabled = enabled-run st (errors id ∷ []) tt ∙ on;
  not_safe = λ safe. ground (arith, (lost_connection_disconnects st id c v on e).0, safe);
}

module _ (clock : ℕ → ℕ) (id : ℕ) where
  -- A round that hides the output and is the last, of the loop or of the input.
  abbrev IsLast : Worker × Bool → Type 0
  IsLast r =
      IsHidden r.0.shared
      × (((r.1 ≡ true) × (r.0.pending ≡ [])) ⊎ ((r.1 ≡ false) × (r.0.graceful ≡ true)))

  state-IsLast :
      (w : Worker) (c : Client) (sequence : ℕ)
      → Inv w.shared
      → w.shared.enabled ≡ true
      → find id w.shared.clients ≡ some c
      → (let r =
            result_of FrameResult.continue
              (state_received w.shared id sequence true (clock w.uses)) in
          IsLast
            (after_frame (alone clock) id [] (record w { shared = r.0; uses = suc w.uses }) r.1))
  unfolding fail_protocol run find
  state-IsLast w c sequence v on e =
      let received = state_received w.shared id sequence true (clock w.uses) in
      let after : (PrivacyState × Bool → Worker × Bool) = λ x.
        let r = result_of FrameResult.continue x in
        after_frame (alone clock) id [] (record w { shared = r.0; uses = suc w.uses }) r.1 in
      state_cases (λ x. Inv x.0 → IsLast (after x)) w.shared id sequence true (clock w.uses)
        (λ _. (protocol_error-IsHidden w.shared id c v on e, inr (refl, refl)))
        (λ d found said fresh kept.
          let now_sensitive = updated d sequence true (clock w.uses) in
          let found_now = find-assign id id now_sensitive w.shared.clients in
          (
            record {
              inv = kept;
              enabled = on;
              not_safe =
                  (client_hides _ id now_sensitive on (ground (arith, found_now, found))
                    (inr refl)).0;
            },
            inl (refl, refl),
          ))
        (state_received-Inv w.shared id sequence true (clock w.uses) v)

  take_frame-IsLast :
      (w : Worker) (c : Client) (f : Frame)
      → Inv w.shared
      → w.shared.enabled ≡ true
      → find id w.shared.clients ≡ some c
      → f.kind ≡ FrameKind.state
      → f.sensitive ≡ true
      → IsLast (take_frame (alone clock) id (some f) [] w)
  unfolding take_frame apply_frame run
  take_frame-IsLast w c f v on e kind sensitive =
      rw (kind, sensitive) (state-IsLast w c f.sequence v on e)

  drain-IsLast :
      (fuel : ℕ) (w : Worker) (k : ℕ)
      → 1 ≤ fuel
      → find_newline w.pending ≡ some k
      → IsLast
          (take_frame (alone clock) id (parse_frame (take k w.pending)) (drop (suc k) w.pending) w)
      → IsHidden (check_size (alone clock) id (drain (alone clock) id fuel w)).shared
  drain-IsLast zero w k some_fuel e last = absurd (omega (arith, some_fuel))
  drain-IsLast (suc fuel) w k some_fuel e (hidden, inl (go, empty)) =
      let r =
        take_frame (alone clock) id (parse_frame (take k w.pending)) (drop (suc k) w.pending) w in
      let none_left = no_newline r.0.pending (rw empty (omega arith)) in
      rw ((drain-some (alone clock) id fuel w k e).0 go) (
        rw (drain-none (alone clock) id fuel r.0 none_left)
          (rw (check_size-within (alone clock) id r.0 (rw empty (omega arith))) hidden))
  drain-IsLast (suc fuel) w k some_fuel e (hidden, inr (stop, done)) =
      let r =
        take_frame (alone clock) id (parse_frame (take k w.pending)) (drop (suc k) w.pending) w in
      rw ((drain-some (alone clock) id fuel w k e).1 stop)
        (rw (check_size-graceful (alone clock) id r.0 done) hidden)

  -- A read that leaves an alarm in the buffer of a known connection hides the output.
  pub receive-IsHidden :
      (bytes : Bytes) (w : Worker) (c : Client)
      → w.graceful ≡ false
      → Inv w.shared
      → w.shared.enabled ≡ true
      → find id w.shared.clients ≡ some c
      → IsAlarm (w.pending ++ bytes)
      → IsHidden (receive (alone clock) id bytes w).shared
  unfolding receive fail_protocol run
  receive-IsHidden bytes w c goes_on v on e (inl bad) =
      rw (receive-IsBad (alone clock) id bytes w goes_on bad)
        (protocol_error-IsHidden w.shared id c v on e)
  receive-IsHidden bytes w c goes_on v on e (inr alarm) =
      let (k, f, newline, rest, parsed, kind, sensitive) = alarm in
      let w' = behind (alone clock) id bytes w in
      let (_, _, _, less) = find_newline-append w'.pending [] k newline in
      drain-IsLast (length w'.pending) w' k (omega (arith, less)) newline
        (rw (parsed, rest) (take_frame-IsLast w' c f v on e kind sensitive))
