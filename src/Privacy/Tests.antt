-- ===== src/Privacy/Tests.antt =====
-- The theorems on the aggregation of clients at concrete histories.
use mathlib.Core.Option
use obs_vscode_privacy_guard.Base.{
  Bytes, List, [], arith, codes, equal, false, if◌then◌else◌, ltb, none, refl, some, true, ℕ, ◌++◌,
  ◌<◌, ◌||◌, ◌↔◌, ◌∷◌, ◌≡◌,
}
use obs_vscode_privacy_guard.Privacy.{
  Client, Mode, PrivacyState, accept_sequence, connection_closed, connection_opened,
  fail_connection, find, goodbye_received, hello_received, is_taken, make_state, mode,
  protocol_error, record_connection_failure, set_enabled, state_received, tick,
}
use obs_vscode_privacy_guard.Privacy.Clients.{Each}
use obs_vscode_privacy_guard.Privacy.History.{
  Call, closes, enables, errors, goodbyes, hellos, opens, run, states, step, ticks,
}
use obs_vscode_privacy_guard.Privacy.Invariant.{Inv}
use obs_vscode_privacy_guard.Privacy.Preserved.{run-make_state-Inv, step-Inv}
use obs_vscode_privacy_guard.Privacy.Modes.{Means, mode_iff}
use obs_vscode_privacy_guard.Privacy.FailClosed.{
  IsLive, lost_connection_disconnects, silent_client_disconnects, tick_safe_iff,
}
use obs_vscode_privacy_guard.Privacy.Arming.{connection_opened_hides, set_enabled_rearms}
use obs_vscode_privacy_guard.Privacy.Replay.{replay_rejected}
use obs_vscode_privacy_guard.Privacy.Latch.{first_reports, latch_holds, untrusted_failure_cleared}
use obs_vscode_privacy_guard.Privacy.Recovery.{connect, connect_recovers}

abbrev alice : Bytes
alice = codes "01234567-89ab-cdef-0123-456789abcdef"

abbrev bob : Bytes
bob = codes "fedcba98-7654-3210-fedc-ba9876543210"

-- Two clients, both safe.
abbrev two_clients : List Call
two_clients =
    opens 0
    ∷ hellos 1 alice 0
    ∷ states 1 5 false 10
    ∷ opens 20
    ∷ hellos 2 bob 20
    ∷ states 2 1 false 30
    ∷ []

abbrev guarded : PrivacyState
guarded = run (make_state 2000) two_clients

-- The second client's pipe breaks.
abbrev one_lost : List Call
one_lost = two_clients ++ closes 2 ∷ []

abbrev lost : PrivacyState
lost = run (make_state 2000) one_lost

-- A third connection fails before it says HELLO.
abbrev latched : PrivacyState
latched = run (make_state 2000) (two_clients ++ opens 40 ∷ errors 3 ∷ [])

abbrev alice_client : Client
alice_client = record {
  client_id = alice;
  last_sequence = some 5;
  sensitive = some false;
  last_update = 10;
  hello_received = true;
}

test_modes :
    (mode (make_state 2000) ≡ Mode.awaiting_connection)
    × (mode guarded ≡ Mode.safe)
    × (mode (step guarded (states 2 2 true 40)) ≡ Mode.sensitive)
    × (mode lost ≡ Mode.disconnected)
    × (mode latched ≡ Mode.disconnected)
    × (mode (step guarded (goodbyes 2)) ≡ Mode.safe)
    × (mode (step guarded (enables false)) ≡ Mode.disabled)
    × (mode (step guarded (ticks 2011)) ≡ Mode.disconnected)
unfolding run step find equal accept_sequence connection_opened hello_received state_received
    goodbye_received record_connection_failure fail_connection connection_closed protocol_error
    set_enabled tick mode
test_modes = (refl, refl, refl, refl, refl, refl, refl, refl)

guarded-Inv : Inv guarded
guarded-Inv = run-make_state-Inv 2000 two_clients (omega arith)

lost-Inv : Inv lost
lost-Inv = run-make_state-Inv 2000 one_lost (omega arith)

guarded_facts : (guarded.enabled ≡ true) × (find 1 guarded.clients ≡ some alice_client)
unfolding run step find equal accept_sequence connection_opened hello_received state_received
    goodbye_received record_connection_failure fail_connection connection_closed protocol_error
    set_enabled tick mode
guarded_facts = (refl, refl)

mode_iff_example : (mode guarded ≡ Mode.safe) ↔ Means Mode.safe guarded
mode_iff_example = mode_iff Mode.safe guarded

run-make_state-Inv_example : Inv guarded
run-make_state-Inv_example = run-make_state-Inv 2000 two_clients (omega arith)

tick_safe_iff_example :
    (mode (tick guarded 1000) ≡ Mode.safe)
    ↔ ((mode guarded ≡ Mode.safe) × Each (IsLive guarded.liveness_timeout 1000) guarded.clients)
tick_safe_iff_example = tick_safe_iff guarded 1000 guarded-Inv

lost_connection_disconnects_example :
    (mode (protocol_error guarded 1) ≡ Mode.disconnected)
    × (mode (connection_closed guarded 1) ≡ Mode.disconnected)
lost_connection_disconnects_example =
    lost_connection_disconnects guarded 1 alice_client guarded-Inv guarded_facts.0 guarded_facts.1

silent_client_disconnects_example : mode (tick guarded 2011) ≡ Mode.disconnected
unfolding run step find equal accept_sequence connection_opened hello_received state_received
    goodbye_received record_connection_failure fail_connection connection_closed protocol_error
    set_enabled tick mode
silent_client_disconnects_example =
    silent_client_disconnects guarded 1 2011 alice_client guarded-Inv guarded_facts.0
      guarded_facts.1 (omega arith)

replay_rejected_example : 6 < 8
unfolding run step find equal accept_sequence connection_opened hello_received state_received
    goodbye_received record_connection_failure fail_connection connection_closed protocol_error
    set_enabled tick mode
replay_rejected_example =
    replay_rejected guarded 1 6 8 false true 40 60 (ticks 50 ∷ opens 55 ∷ []) guarded-Inv
      (omega arith) refl refl

latch_holds_example : mode (run lost (states 1 6 false 50 ∷ ticks 60 ∷ [])) ≡ Mode.disconnected
unfolding run step find equal accept_sequence connection_opened hello_received state_received
    goodbye_received record_connection_failure fail_connection connection_closed protocol_error
    set_enabled tick mode first_reports
latch_holds_example =
    latch_holds lost (states 1 6 false 50 ∷ ticks 60 ∷ []) lost-Inv (omega arith) tt refl
      (omega arith)

untrusted_failure_cleared_example :
    (mode latched ≡ Mode.disconnected) × (mode (state_received latched 1 6 false 50).0 ≡ Mode.safe)
unfolding run step find equal accept_sequence connection_opened hello_received state_received
    goodbye_received record_connection_failure fail_connection connection_closed protocol_error
    set_enabled tick mode
untrusted_failure_cleared_example =
    untrusted_failure_cleared latched 1 6 50 alice_client refl refl refl
      ((refl, refl), ((refl, refl), tt)) refl refl

connect_recovers_example :
    ((connect (step guarded (closes 2)) bob 1 false 60 60 70).1 ≡ true)
    × (mode (connect (step guarded (closes 2)) bob 1 false 60 60 70).0 ≡ Mode.safe)
unfolding run step find equal accept_sequence connection_opened hello_received state_received
    goodbye_received record_connection_failure fail_connection connection_closed protocol_error
    set_enabled tick mode is_taken
connect_recovers_example =
    connect_recovers (step guarded (closes 2)) bob 1 false 60 60 70
      (step-Inv guarded (closes 2) (omega arith) guarded-Inv) refl (omega arith) ((refl, refl), tt)
      refl

connection_opened_hides_example : mode (connection_opened guarded 50).0 ≡ (
    if guarded.untrusted_failure_latched || ltb 0 guarded.disconnected_clients
    then Mode.disconnected
    else Mode.awaiting_connection)
connection_opened_hides_example = connection_opened_hides guarded 50 guarded-Inv guarded_facts.0

set_enabled_rearms_example :
    (mode (set_enabled (set_enabled lost false) true) ≡ Mode.awaiting_connection)
    × Each (λ _ c. c.sensitive ≡ none) (set_enabled (set_enabled lost false) true).clients
    × ((id : ℕ)
        → find id (set_enabled (set_enabled lost false) true).clients
          ≡ Option.map
              (λ (c : Client). record c { sensitive = none })
              (find id (set_enabled lost false).clients))
    × (set_enabled (set_enabled (set_enabled lost false) true) true
        ≡ set_enabled (set_enabled lost false) true)
unfolding run step find equal accept_sequence connection_opened hello_received state_received
    goodbye_received record_connection_failure fail_connection connection_closed protocol_error
    set_enabled tick mode
set_enabled_rearms_example = set_enabled_rearms (set_enabled lost false) refl
