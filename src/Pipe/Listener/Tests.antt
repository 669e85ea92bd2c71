-- ===== src/Pipe/Listener/Tests.antt =====
-- The theorems on the server at concrete answers of Windows.
use obs_vscode_privacy_guard.Base.{
  List, [], arith, codes, false, if◌then◌else◌, none, refl, some, true, ℕ, ◌==◌, ◌∷◌, ◌≡◌, ◌≢◌,
}
use obs_vscode_privacy_guard.Privacy.{
  Client, accept_sequence, connection_closed, find, hello_received, make_state, mode, new_client,
  state_received,
}
use obs_vscode_privacy_guard.Privacy.History.{Call, closes, hellos, opens, run, states, step}
use obs_vscode_privacy_guard.Pipe.{Schedule, breaks, process_connection}
use obs_vscode_privacy_guard.Pipe.Listener.{
  Answer, Server, accept_all, accept_step, at_head, error, fails, finish_worker, join, make_server,
  start, stop, succeeds, wake_accept_thread,
}
use obs_vscode_privacy_guard.Pipe.Listener.Owned.{
  HasWorker, Reaches, accepts, entry-HasWorker, finishes, here, next, starts, works,
}
use obs_vscode_privacy_guard.Pipe.Listener.Shown.{safe-HasWorker}
use obs_vscode_privacy_guard.Privacy.Modes.{Reported}

abbrev fresh : Server
fresh = make_server (make_state 2000) true

-- The first pipe cannot be created; then a client connects. The steps at the head of the loop and
-- behind the last test of a round take no answer of Windows but its time.
abbrev served : Server
served =
    accept_all (succeeds 4 ∷ fails 5 4 ∷ succeeds 5 ∷ succeeds 6 ∷ succeeds 6 ∷ succeeds 7 ∷ [])
      (start fresh)

served_run : Reaches fresh served
unfolding accept_all
served_run =
    next
      (next
        (next
          (next (next (next (next here starts) (accepts (succeeds 4))) (accepts (fails 5 4)))
            (accepts (succeeds 5)))
          (accepts (succeeds 6)))
        (accepts (succeeds 6)))
      (accepts (succeeds 7))

test_served :
    (served.workers ≡ record { connection_id = 1; finished = false } ∷ [])
    × (served.log ≡ record { level = error; operation = codes "CreateNamedPipe"; code = 5 } ∷ [])
    × (served.accepter ≡ at_head)
unfolding accept_all accept_step start find
test_served = (refl, refl, refl)

-- A second client connects, the pipe of the first one breaks, and its worker finishes.
abbrev served_two : Server
served_two = accept_all (succeeds 8 ∷ succeeds 8 ∷ succeeds 8 ∷ succeeds 9 ∷ []) served

abbrev left : Server
left = record served_two { privacy_state = step served_two.privacy_state (closes 1) }

abbrev over : Server
over = record left { workers = finish_worker 1 left.workers }

abbrev alone : Schedule
alone = record { clock = λ n. n; others = λ n. [] }

over_run : Reaches fresh over
unfolding accept_all accept_step start find step run process_connection connection_closed
over_run =
    next
      (next
        (next
          (next (next (next served_run (accepts (succeeds 8))) (accepts (succeeds 8)))
            (accepts (succeeds 8)))
          (accepts (succeeds 9)))
        (works (closes 1) tt))
      (finishes alone 1 (breaks ∷ []) 2000 (opens 7 ∷ opens 9 ∷ []) []
        (refl, omega arith, omega arith))

entry-HasWorker_example : HasWorker 2 over.workers
unfolding accept_all accept_step start find step connection_closed
entry-HasWorker_example = entry-HasWorker 2000 true 2 (new_client 9) over_run refl

-- The stop comes while the accept thread creates its next pipe; the third attempt finds it.
abbrev creating_next : Server
creating_next = accept_step (succeeds 8) served

abbrev slow_rounds : ℕ → List Answer
slow_rounds n = if n == 2 then succeeds 9 ∷ [] else []

test_not_joined :
    (stop (λ n. []) 9 [] [] creating_next ≡ none)
    × (stop (λ n. []) 9 (succeeds 10 ∷ []) [] creating_next ≡ none)
unfolding accept_all accept_step start find stop wake_accept_thread join
test_not_joined = (refl, refl)

-- The client says HELLO and reports that nothing is sensitive.
abbrev greeting : Call
greeting = hellos 1 (codes "a") 8

abbrev report : Call
report = states 1 1 false 9

abbrev shown : Server
shown = record served { privacy_state = run served.privacy_state (greeting ∷ report ∷ []) }

shown_run : Reaches fresh shown
unfolding run
shown_run = next (next served_run (works greeting tt)) (works report tt)

safe-HasWorker_example :
    (shown.privacy_state.clients ≢ [])
    × ((id : ℕ) (c : Client)
        → find id shown.privacy_state.clients ≡ some c
        → Reported false c × HasWorker id shown.workers)
unfolding run step accept_all accept_step start find hello_received state_received accept_sequence
    mode
safe-HasWorker_example = safe-HasWorker 2000 true shown_run refl
