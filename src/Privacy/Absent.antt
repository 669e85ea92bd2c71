-- ===== src/Privacy/Absent.antt =====
-- The lookups in the map of clients for connections that have no entry.
use mathlib.Core.Option
use obs_vscode_privacy_guard.Base.{[], ap, arith, none, refl, ℕ, ◌∙◌, ◌∷◌, ◌≡◌, ◌≢◌}
use obs_vscode_privacy_guard.Privacy.{
  Client, Clients, PrivacyState, assign, connection_closed, emplace, erase, fail_connection, find,
  protocol_error, tick,
}
use obs_vscode_privacy_guard.Privacy.Clients.{find-assign, find-live-none, find-map-reset, reset}
use obs_vscode_privacy_guard.Privacy.Sweep.{clients-sweep}
use obs_vscode_privacy_guard.Privacy.Outcomes.{
  enable_cases, failure_cases, goodbye_cases, hello_cases, state_cases,
}
use obs_vscode_privacy_guard.Privacy.History.{
  Call, closes, enables, errors, goodbyes, hellos, opens, states, step, ticks,
}

find-erase-none : (j id : ℕ) (cs : Clients) → find j cs ≡ none → find j (erase id cs) ≡ none
unfolding find erase
find-erase-none j id [] e = refl
find-erase-none j id ((key, c) ∷ cs) e = ground (arith, find-erase-none j id cs)

find-assign-none :
    (j id : ℕ) (d : Client) (cs : Clients) → find j cs ≡ none → find j (assign id d cs) ≡ none
find-assign-none j id d cs e = ground (arith, find-assign j id d cs)

-- Every call but that of a new connection.
abbrev pub IsWork : Call → Type 0
IsWork (opens now) = ⊥
IsWork _ = Unit {0}

fail_connection-none :
    (st : PrivacyState) (id j : ℕ)
    → find j st.clients ≡ none
    → find j (fail_connection st id).clients ≡ none
fail_connection-none st id j e =
    failure_cases (λ s. find j s.clients ≡ none) st id (λ _. e)
      (λ c _ _. find-erase-none j id st.clients e) (λ c _ _. find-erase-none j id st.clients e)

-- No other call makes an entry.
pub step-none :
    (st : PrivacyState) (call : Call) (j : ℕ)
    → IsWork call
    → find j st.clients ≡ none
    → find j (step st call).clients ≡ none
unfolding step protocol_error connection_closed tick
step-none st (opens now) j work e = absurd work
step-none st (enables b) j work e =
    enable_cases (λ s. find j s.clients ≡ none) st b (λ _. e) (λ _. e)
      (λ _. find-map-reset j st.clients ∙ ap (Option.map reset) e)
step-none st (hellos id client_id now) j work e =
    hello_cases (λ r. find j r.0.clients ≡ none) st id client_id now e
      (λ c _ _ _. find-assign-none j id _ st.clients e)
step-none st (states id sequence reported now) j work e =
    state_cases (λ r. find j r.0.clients ≡ none) st id sequence reported now e
      (λ c _ _ _. find-assign-none j id _ st.clients e)
step-none st (goodbyes id) j work e =
    goodbye_cases (λ r. find j r.0.clients ≡ none) st id e
      (λ c _ _. find-erase-none j id st.clients e)
step-none st (errors id) j work e = fail_connection-none st id j e
step-none st (closes id) j work e = fail_connection-none st id j e
step-none st (ticks now) j work e =
    rw (clients-sweep now st.clients st) (find-live-none j st.liveness_timeout now st.clients e)

pub find-emplace-other :
    (j id : ℕ) (d : Client) (cs : Clients) → j ≢ id → find j (emplace id d cs) ≡ find j cs
unfolding find emplace
find-emplace-other j id d cs ne = ground arith
