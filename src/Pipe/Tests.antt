-- ===== src/Pipe/Tests.antt =====
-- The theorems on the worker at concrete reads.
use obs_vscode_privacy_guard.Base.{
  Bytes, List, [], arith, codes, false, inl, length, map, none, refl, true, ◌++◌, ◌∷◌, ◌≡◌, ◌≤◌,
  ◌⊎◌,
}
use obs_vscode_privacy_guard.Protocol.{max_frame_size, parse_frame}
use obs_vscode_privacy_guard.Privacy.{
  Mode, PrivacyState, connection_opened, find, make_state, mode, new_client,
}
use obs_vscode_privacy_guard.Privacy.History.{opens, run, step}
use obs_vscode_privacy_guard.Privacy.Preserved.{run-make_state-Inv}
use obs_vscode_privacy_guard.Pipe.{
  Schedule, breaks, find_newline, make_worker, process_connection, reads, receive, waits,
}
use obs_vscode_privacy_guard.Pipe.Chunks.{process_connection-concat}
use obs_vscode_privacy_guard.Pipe.Cleanup.{process_connection-gone}
use obs_vscode_privacy_guard.Pipe.Limits.{bad_input_disconnects, receive_bounded}

-- No other thread does anything, and the clock counts the frames.
abbrev quiet : Schedule
quiet = record { clock = λ n. n; others = λ n. [] }

-- One connection, which has the number 1.
abbrev one_connection : PrivacyState
one_connection = run (make_state 2000) (opens 0 ∷ [])

abbrev hello_line : Bytes
hello_line = codes "PG/1 HELLO 01234567-89ab-cdef-0123-456789abcdef\n"

-- HELLO and a state, in two reads that cut the second line.
abbrev in_two : List Bytes
in_two = (hello_line ++ codes "PG/1 STA") ∷ codes "TE 1 SAFE\n" ∷ []

abbrev in_one : List Bytes
in_one = (hello_line ++ codes "PG/1 STATE 1 SAFE\n") ∷ []

process_connection-concat_example :
    (process_connection quiet 1 (map reads in_two) false one_connection).shared
    ≡ (process_connection quiet 1 (map reads in_one) false one_connection).shared
process_connection-concat_example =
    process_connection-concat quiet 1 false one_connection in_two in_one refl

process_connection-gone_example :
    find 1
      (process_connection quiet 1
        (waits ∷ reads hello_line ∷ breaks ∷ [])
        true
        one_connection).shared.clients
    ≡ none
unfolding run step connection_opened find
process_connection-gone_example =
    process_connection-gone quiet 1 (waits ∷ reads hello_line ∷ breaks ∷ []) one_connection
      (refl, tt)

bad_input_disconnects_example :
    ((receive quiet 1 (codes " \n") (make_worker one_connection)).graceful ≡ true)
    × (mode (receive quiet 1 (codes " \n") (make_worker one_connection)).shared ≡ Mode.disconnected)
unfolding run step connection_opened find parse_frame find_newline
bad_input_disconnects_example =
    bad_input_disconnects quiet 1 (codes " \n") (make_worker one_connection) (new_client 0) refl
      (inl (1, refl, refl)) (run-make_state-Inv 2000 (opens 0 ∷ []) (omega arith)) refl refl

receive_bounded_example :
    ((receive quiet 1 hello_line (make_worker one_connection)).graceful ≡ true)
    ⊎ ((find_newline (receive quiet 1 hello_line (make_worker one_connection)).pending ≡ none)
        × (length (receive quiet 1 hello_line (make_worker one_connection)).pending
            ≤ max_frame_size))
receive_bounded_example = receive_bounded quiet 1 hello_line (make_worker one_connection) refl
