-- ===== src/Pipe/Cleanup.antt =====
-- What `process_connection` leaves of its connection in the shared state.
use obs_vscode_privacy_guard.Base.{
  Bool, Bool-cases, Bytes, List, Option, Option-cases, [], arith, drop, false, if_cases, inl, inr,
  length, ltb, none, not, refl, some, suc, take, true, zero, ℕ, ◌&&◌, ◌++◌, ◌∙◌, ◌∷◌, ◌≡◌, ◌⊎◌,
}
use obs_vscode_privacy_guard.Protocol.{Frame, FrameKind, max_frame_size, parse_frame}
use obs_vscode_privacy_guard.Privacy.{
  PrivacyState, connection_closed, find, goodbye_received, hello_received, state_received,
}
use obs_vscode_privacy_guard.Privacy.Clients.{Distinct}
use obs_vscode_privacy_guard.Privacy.Distinctness.{
  connection_closed-gone, goodbye_received-Distinct, goodbye_received-gone, hello_received-Distinct,
  protocol_error-gone, run-Distinct, state_received-Distinct,
}
use obs_vscode_privacy_guard.Pipe.Frames.{
  drain-none, drain-some, serve-breaks, serve-first, serve-graceful, serve-waits,
}
use obs_vscode_privacy_guard.Pipe.{
  FrameResult, Round, Schedule, Worker, after_frame, apply_frame, breaks, check_size, drain, enter,
  fail_protocol, find_newline, finish, make_worker, process_connection, reads, receive, result_of,
  serve, take_frame, waits,
}

module _ (s : Schedule) (id : ℕ) where
  -- A worker whose entry is no longer its own to close is done, and the entry is gone.
  abbrev IsTidy : Worker → Type 0
  IsTidy w =
      Distinct w.shared.clients
      × ((w.state_entry_active ≡ true) ⊎ ((w.graceful ≡ true) × (find id w.shared.clients ≡ none)))

  fail_protocol-IsTidy : (w : Worker) → Distinct w.shared.clients → IsTidy (fail_protocol s id w)
  unfolding fail_protocol
  fail_protocol-IsTidy w h =
      let (distinct, gone) =
        protocol_error-gone (enter s id w) id (run-Distinct w.shared (s.others w.uses) h) in
      (distinct, inr (refl, gone))

  -- The state after a frame, and the entry if it was GOODBYE.
  abbrev IsApplied : PrivacyState × FrameResult → Type 0
  IsApplied r = Distinct r.0.clients × (r.1 ≡ FrameResult.goodbye → find id r.0.clients ≡ none)

  result_of-IsApplied :
      (result : FrameResult) (r : PrivacyState × Bool)
      → Distinct r.0.clients
      → (r.1 ≡ true → result ≡ FrameResult.goodbye → find id r.0.clients ≡ none)
      → IsApplied (result_of result r)
  result_of-IsApplied result (st, true) h gone = (h, gone refl)
  result_of-IsApplied result (st, false) h gone = (h, λ e. cc)

  apply_frame-IsApplied :
      (st : PrivacyState) (now : ℕ) (frame : Frame)
      → Distinct st.clients
      → IsApplied (apply_frame st id now frame)
  unfolding apply_frame hello_received state_received goodbye_received
  apply_frame-IsApplied st now frame h = go frame.kind refl
    where
      go : (kind : FrameKind) → frame.kind ≡ kind → IsApplied (apply_frame st id now frame)
      go FrameKind.hello e =
          rw (e, apply_frame)
            (result_of-IsApplied FrameResult.continue (hello_received st id frame.client_id now)
              (hello_received-Distinct st id frame.client_id now h) (λ ok z. cc))
      go FrameKind.state e =
          rw (e, apply_frame)
            (result_of-IsApplied FrameResult.continue
              (state_received st id frame.sequence frame.sensitive now)
              (state_received-Distinct st id frame.sequence frame.sensitive now h) (λ ok z. cc))
      go FrameKind.goodbye e =
          rw (e, apply_frame)
            (result_of-IsApplied FrameResult.goodbye (goodbye_received st id)
              (goodbye_received-Distinct st id h) (λ ok _. goodbye_received-gone st id h ok))

  after_frame-IsTidy :
      (result : FrameResult) (rest : Bytes) (w : Worker)
      → Distinct w.shared.clients
      → w.state_entry_active ≡ true
      → (result ≡ FrameResult.goodbye → find id w.shared.clients ≡ none)
      → IsTidy (after_frame s id rest w result).0
  after_frame-IsTidy FrameResult.continue rest w h active gone = (h, inl active)
  after_frame-IsTidy FrameResult.goodbye rest w h active gone = (h, inr (refl, gone refl))
  after_frame-IsTidy FrameResult.invalid rest w h active gone = fail_protocol-IsTidy w h

  take_frame-IsTidy :
      (o : Option Frame) (rest : Bytes) (w : Worker)
      → Distinct w.shared.clients
      → w.state_entry_active ≡ true
      → IsTidy (take_frame s id o rest w).0
  unfolding take_frame
  take_frame-IsTidy none rest w h active = fail_protocol-IsTidy w h
  take_frame-IsTidy (some frame) rest w h active =
      let r = apply_frame (enter s id w) id (s.clock w.uses) frame in
      let (distinct, gone) =
        apply_frame-IsApplied (enter s id w) (s.clock w.uses) frame
          (run-Distinct w.shared (s.others w.uses) h) in
      after_frame-IsTidy r.1 rest (record w { shared = r.0; uses = suc w.uses }) distinct active
        gone

  -- A round that goes on leaves the entry to the worker.
  take_frame-going :
      (o : Option Frame) (rest : Bytes) (w : Worker)
      → (take_frame s id o rest w).1 ≡ true
      → (take_frame s id o rest w).0.state_entry_active ≡ w.state_entry_active
  unfolding take_frame
  take_frame-going none rest w go = cc
  take_frame-going (some frame) rest w go =
      let r = apply_frame (enter s id w) id (s.clock w.uses) frame in
      after r.1 (record w { shared = r.0; uses = suc w.uses }) go
    where
      after :
          (result : FrameResult) (v : Worker)
          → (after_frame s id rest v result).1 ≡ true
          → (after_frame s id rest v result).0.state_entry_active ≡ v.state_entry_active
      after FrameResult.continue v e = refl
      after FrameResult.goodbye v e = cc
      after FrameResult.invalid v e = cc

  drain-IsTidy :
      (fuel : ℕ) (w : Worker)
      → Distinct w.shared.clients
      → w.state_entry_active ≡ true
      → IsTidy (drain s id fuel w)
  unfolding drain
  drain-IsTidy zero w h active = (h, inl active)
  drain-IsTidy (suc fuel) w h active = elim (Option-cases (find_newline w.pending)) [
    | inl e ↦ rw (drain-none s id (suc fuel) w e) (h, inl active)
    | inr (k, e) ↦
        let o = parse_frame (take k w.pending) in
        let rest = drop (suc k) w.pending in
        let r = take_frame s id o rest w in
        let tidy = take_frame-IsTidy o rest w h active in
        elim (Bool-cases r.1) [
          | inl go ↦
              rw ((drain-some s id fuel w k e).0 go)
                (drain-IsTidy fuel r.0 tidy.0 (take_frame-going o rest w go ∙ active))
          | inr stop ↦ rw ((drain-some s id fuel w k e).1 stop) tidy
        ]
  ]

  receive-IsTidy :
      (bytes : Bytes) (w : Worker)
      → Distinct w.shared.clients
      → w.state_entry_active ≡ true
      → IsTidy (receive s id bytes w)
  unfolding receive check_size
  receive-IsTidy bytes w h active =
      let pending = w.pending ++ bytes in
      let w' = drain s id (length pending) (record w { pending = pending }) in
      let tidy = drain-IsTidy (length pending) (record w { pending = pending }) h active in
      if_cases IsTidy (not w'.graceful && ltb max_frame_size (length w'.pending))
        (fail_protocol s id w') w' (λ _. fail_protocol-IsTidy w' tidy.0) (λ _. tidy)

  going_active : (w : Worker) → IsTidy w → w.graceful ≡ false → w.state_entry_active ≡ true
  going_active w h going = ground (arith, h.1)

  serve-IsTidy : (rounds : List Round) (w : Worker) → IsTidy w → IsTidy (serve s id rounds w)
  unfolding serve
  serve-IsTidy [] w h = h
  serve-IsTidy (reads bytes ∷ rs) w h = elim (Bool-cases w.graceful) [
    | inl done ↦ rw (serve-graceful s id (reads bytes ∷ rs) w done) h
    | inr going ↦ rw (serve-first s id bytes rs w going) (
        serve-IsTidy rs (receive s id bytes w)
          (receive-IsTidy bytes w h.0 (going_active w h going)))
  ]
  serve-IsTidy (waits ∷ rs) w h = elim (Bool-cases w.graceful) [
    | inl done ↦ rw (serve-graceful s id (waits ∷ rs) w done) h
    | inr going ↦ rw (serve-waits s id rs w going) (serve-IsTidy rs w h)
  ]
  serve-IsTidy (breaks ∷ rs) w h = elim (Bool-cases w.graceful) [
    | inl done ↦ rw (serve-graceful s id (breaks ∷ rs) w done) h
    | inr going ↦ rw (serve-breaks s id rs w going) h
  ]

-- When a worker ends while the server runs, by GOODBYE, by a protocol error or because its pipe
-- broke, whatever the other threads did meanwhile, its connection has no entry left that could hold
-- the mode back.
pub process_connection-gone :
    (s : Schedule) (id : ℕ) (rounds : List Round) (st : PrivacyState)
    → Distinct st.clients
    → find id (process_connection s id rounds true st).shared.clients ≡ none
unfolding process_connection finish
process_connection-gone s id rounds st h =
    let w = serve s id rounds (make_worker st) in
    let tidy = serve-IsTidy s id rounds (make_worker st) (h, inl refl) in
    if_cases (λ x. find id x.shared.clients ≡ none) (w.state_entry_active && true)
      (record w { shared = connection_closed (enter s id w) id; uses = suc w.uses }) w
      (λ _.
        connection_closed-gone (enter s id w) id (run-Distinct w.shared (s.others w.uses) tidy.0))
      (λ off. ground (arith, tidy.1))
