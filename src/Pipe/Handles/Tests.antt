-- ===== src/Pipe/Handles/Tests.antt =====
-- The theorem on the pipes of a server at a run with two of them.
use obs_vscode_privacy_guard.Base.{[], refl, true, ℕ, ◌∷◌, ◌≡◌}
use obs_vscode_privacy_guard.Privacy.{make_state}
use obs_vscode_privacy_guard.Pipe.Listener.{accept_step, begin_stop, start, succeeds}
use obs_vscode_privacy_guard.Pipe.Handles.{
  Pipes, accept_pipe, closes_pipe, creates_pipe, disconnects_pipe, join_pipes, make_pipes,
}
use obs_vscode_privacy_guard.Pipe.Handles.Counts.{IsProper, closed, created}
use obs_vscode_privacy_guard.Pipe.Handles.Closed.{
  Reaches, accepts, begins_stop, here, next, pipes_closed, starts,
}

abbrev fresh : Pipes
fresh = make_pipes (make_state 2000) true

abbrev started : Pipes
started = record fresh { server = start fresh.server }

-- A client connects to the pipe 40, and the thread then waits at the pipe 44.
abbrev served : Pipes
served =
    accept_pipe 0 (succeeds 7) (
      accept_pipe 0 (succeeds 7) (accept_pipe 40 (succeeds 6) (accept_pipe 0 (succeeds 6) started)))

abbrev waiting : Pipes
waiting = accept_pipe 44 (succeeds 8) (accept_pipe 0 (succeeds 8) served)

served_run : Reaches fresh served
unfolding accept_pipe accept_step start created closed
served_run =
    next
      (next
        (next (next (next here (starts (λ _. refl))) (accepts 0 (succeeds 6) refl))
          (accepts 40 (succeeds 6) refl))
        (accepts 0 (succeeds 7) refl))
      (accepts 0 (succeeds 7) refl)

-- `stop` sets `running_`, and the client of `wake_accept_thread` connects.
abbrev woken : Pipes
woken = accept_pipe 0 (succeeds 9) (record waiting { server = begin_stop waiting.server })

woken_run : Reaches fresh woken
unfolding accept_pipe accept_step start created closed
woken_run =
    next
      (next (next (next served_run (accepts 0 (succeeds 8) refl)) (accepts 44 (succeeds 8) refl))
        begins_stop)
      (accepts 0 (succeeds 9) refl)

test_stopped :
    (join_pipes [] woken).calls
    ≡ closes_pipe 40
      ∷ disconnects_pipe 40
      ∷ closes_pipe 44
      ∷ disconnects_pipe 44
      ∷ creates_pipe 44
      ∷ creates_pipe 40
      ∷ []
unfolding join_pipes accept_pipe accept_step start
test_stopped = refl

pipes_closed_example :
    IsProper (join_pipes [] woken).calls
    × ((h : ℕ) → created h (join_pipes [] woken).calls ≡ closed h (join_pipes [] woken).calls)
unfolding accept_pipe accept_step start
pipes_closed_example = pipes_closed (make_state 2000) true [] woken_run refl
