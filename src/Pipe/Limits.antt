-- ===== src/Pipe/Limits.antt =====
-- Malformed and oversized input, and what is left pending.
use obs_vscode_privacy_guard.Base.{
  Bytes, Option-cases, [], ap, arith, drop, false, if_cases, inl, inr, length, ltb, none, not, refl,
  some, suc, take, true, zero, ℕ, ◌&&◌, ◌++◌, ◌<◌, ◌∙◌, ◌≡◌, ◌≤◌, ◌⊎◌,
}
use obs_vscode_privacy_guard.Protocol.{max_frame_size, parse_frame}
use obs_vscode_privacy_guard.Privacy.{Client, Mode, find, mode}
use obs_vscode_privacy_guard.Privacy.Invariant.{Inv}
use obs_vscode_privacy_guard.Privacy.FailClosed.{lost_connection_disconnects}
use obs_vscode_privacy_guard.Pipe.Frames.{
  behind, check_size-graceful, check_size-over, drain-none, drain-refused, drain-some,
  find_newline-append, no_newline, take_frame-append,
}
use obs_vscode_privacy_guard.Pipe.{
  Schedule, Worker, check_size, drain, enter, fail_protocol, find_newline, receive, take_frame,
}

-- The pending bytes hold a complete line that is no frame, or an incomplete one that is too long.
abbrev pub IsBad : Bytes → Type 0
IsBad pending =
    ((k : ℕ) × (find_newline pending ≡ some k) × (parse_frame (take k pending) ≡ none))
    ⊎ ((find_newline pending ≡ none) × (max_frame_size < length pending))

module _ (s : Schedule) (id : ℕ) where
  pub receive-IsBad :
      (bytes : Bytes) (w : Worker)
      → w.graceful ≡ false
      → IsBad (w.pending ++ bytes)
      → receive s id bytes w ≡ fail_protocol s id (behind s id bytes w)
  unfolding receive fail_protocol
  receive-IsBad bytes w on (inl (k, e, refused)) =
      let w' = behind s id bytes w in
      let (_, _, _, less) = find_newline-append w'.pending [] k e in
      ap (check_size s id)
        (drain-refused s id (length w'.pending) w' k (omega (arith, less)) e refused)
      ∙ check_size-graceful s id (fail_protocol s id w') refl
  receive-IsBad bytes w on (inr (e, big)) =
      let w' = behind s id bytes w in
      ap (check_size s id) (drain-none s id (length w'.pending) w' e)
      ∙ check_size-over s id w' on big

  drain-settled :
      (fuel : ℕ) (w : Worker)
      → length w.pending ≤ fuel
      → w.graceful ≡ false
      → ((drain s id fuel w).graceful ≡ true) ⊎ (find_newline (drain s id fuel w).pending ≡ none)
  drain-settled zero w le on = let e = no_newline w.pending le in rw (drain-none s id 0 w e) (inr e)
  drain-settled (suc fuel) w le on = elim (Option-cases (find_newline w.pending)) [
    | inl e ↦ rw (drain-none s id (suc fuel) w e) (inr e)
    | inr (k, e) ↦
        let o = parse_frame (take k w.pending) in
        let rest = drop (suc k) w.pending in
        let r = take_frame s id o rest w in
        let (_, _, _, less) = find_newline-append w.pending [] k e in
        elim (take_frame-append s id o rest [] w) [
          | inl (go, pend, gr, _) ↦
              let shorter : (length r.0.pending < length w.pending) = rw pend less in
              rw ((drain-some s id fuel w k e).0 go)
                (drain-settled fuel r.0 (omega (arith, shorter)) (gr ∙ on))
          | inr (stop, _, done, _) ↦ rw ((drain-some s id fuel w k e).1 stop) (inl done)
        ]
  ]

-- While protection is enabled, a read after which the first line in the buffer is complete and no
-- frame, or after which the buffer has no newline and more than 1024 bytes, ends the worker and
-- hides the output as disconnected, if its connection still has an entry when the worker gets to
-- it. A bad line or an oversized rest behind other lines of the same read is not meant here.
pub bad_input_disconnects :
    (s : Schedule) (id : ℕ) (bytes : Bytes) (w : Worker) (c : Client)
    → w.graceful ≡ false
    → IsBad (w.pending ++ bytes)
    → Inv (enter s id w)
    → (enter s id w).enabled ≡ true
    → find id (enter s id w).clients ≡ some c
    → ((receive s id bytes w).graceful ≡ true)
      × (mode (receive s id bytes w).shared ≡ Mode.disconnected)
unfolding fail_protocol
bad_input_disconnects s id bytes w c on bad v enabled e =
    rw (receive-IsBad s id bytes w on bad)
      (refl, (lost_connection_disconnects (enter s id w) id c v enabled e).0)

-- After a read the worker is done, or it has taken every complete line and keeps at most 1024 bytes of
-- the next one: the loop over the lines ends, and the buffer is bounded.
pub receive_bounded :
    (s : Schedule) (id : ℕ) (bytes : Bytes) (w : Worker)
    → w.graceful ≡ false
    → ((receive s id bytes w).graceful ≡ true)
      ⊎ ((find_newline (receive s id bytes w).pending ≡ none)
          × (length (receive s id bytes w).pending ≤ max_frame_size))
unfolding receive check_size fail_protocol
receive_bounded s id bytes w on =
    let w' = behind s id bytes w in
    let drained = drain s id (length w'.pending) w' in
    let settled = drain-settled s id (length w'.pending) w' (omega arith) on in
    if_cases
      (λ x.
        (x.graceful ≡ true)
        ⊎ ((find_newline x.pending ≡ none) × (length x.pending ≤ max_frame_size)))
      (not drained.graceful && ltb max_frame_size (length drained.pending))
      (fail_protocol s id drained) drained (λ _. inl refl) (λ small. ground (arith, settled))
