-- ===== src/Privacy/Distinctness.antt =====
-- The connection numbers of the map under every call, and the entry of a connection that ends.
use obs_vscode_privacy_guard.Base.{Bool, Bytes, List, [], arith, none, true, ℕ, ◌∷◌, ◌≡◌}
use obs_vscode_privacy_guard.Privacy.{
  Clients, PrivacyState, connection_closed, connection_opened, erase, fail_connection, find,
  goodbye_received, hello_received, new_client, protocol_error, state_received, tick,
}
use obs_vscode_privacy_guard.Privacy.Clients.{
  Distinct, Distinct-assign, Distinct-emplace, Distinct-erase, Distinct-live, Distinct-map_reset,
  find-erase,
}
use obs_vscode_privacy_guard.Privacy.Sweep.{clients-sweep}
use obs_vscode_privacy_guard.Privacy.Outcomes.{
  enable_cases, failure_cases, goodbye_cases, hello_cases, state_cases,
}
use obs_vscode_privacy_guard.Privacy.History.{
  Call, closes, enables, errors, goodbyes, hellos, opens, run, states, step, ticks,
}

fail_connection-Distinct :
    (st : PrivacyState) (id : ℕ) → Distinct st.clients → Distinct (fail_connection st id).clients
fail_connection-Distinct st id h =
    failure_cases (λ s. Distinct s.clients) st id (λ _. h) (λ c _ _. Distinct-erase id st.clients h)
      (λ c _ _. Distinct-erase id st.clients h)

pub goodbye_received-Distinct :
    (st : PrivacyState) (id : ℕ) → Distinct st.clients → Distinct (goodbye_received st id).0.clients
goodbye_received-Distinct st id h =
    goodbye_cases (λ r. Distinct r.0.clients) st id h (λ c _ _. Distinct-erase id st.clients h)

pub hello_received-Distinct :
    (st : PrivacyState) (id : ℕ) (client_id : Bytes) (now : ℕ)
    → Distinct st.clients
    → Distinct (hello_received st id client_id now).0.clients
hello_received-Distinct st id client_id now h =
    hello_cases (λ r. Distinct r.0.clients) st id client_id now h
      (λ c _ _ _. Distinct-assign id _ st.clients h)

pub state_received-Distinct :
    (st : PrivacyState) (id sequence : ℕ) (reported : Bool) (now : ℕ)
    → Distinct st.clients
    → Distinct (state_received st id sequence reported now).0.clients
state_received-Distinct st id sequence reported now h =
    state_cases (λ r. Distinct r.0.clients) st id sequence reported now h
      (λ c _ _ _. Distinct-assign id _ st.clients h)

pub step-Distinct :
    (st : PrivacyState) (call : Call) → Distinct st.clients → Distinct (step st call).clients
unfolding step protocol_error connection_closed connection_opened tick
step-Distinct st (enables b) h =
    enable_cases (λ s. Distinct s.clients) st b (λ _. h) (λ _. h)
      (λ _. Distinct-map_reset st.clients h)
step-Distinct st (opens now) h =
    Distinct-emplace st.next_connection_id (new_client now) st.clients h
step-Distinct st (hellos id client_id now) h = hello_received-Distinct st id client_id now h
step-Distinct st (states id sequence reported now) h =
    state_received-Distinct st id sequence reported now h
step-Distinct st (goodbyes id) h = goodbye_received-Distinct st id h
step-Distinct st (errors id) h = fail_connection-Distinct st id h
step-Distinct st (closes id) h = fail_connection-Distinct st id h
step-Distinct st (ticks now) h =
    rw (clients-sweep now st.clients st) (Distinct-live st.liveness_timeout now st.clients h)

pub run-Distinct :
    (st : PrivacyState) (calls : List Call) → Distinct st.clients → Distinct (run st calls).clients
unfolding run
run-Distinct st [] h = h
run-Distinct st (call ∷ calls) h = run-Distinct (step st call) calls (step-Distinct st call h)

gone : (id : ℕ) (cs : Clients) → Distinct cs → find id (erase id cs) ≡ none
gone id cs h = ground (arith, find-erase id id cs h)

-- The entry of a connection that has failed or closed is gone.
pub protocol_error-gone :
    (st : PrivacyState) (id : ℕ)
    → Distinct st.clients
    → Distinct (protocol_error st id).clients × (find id (protocol_error st id).clients ≡ none)
unfolding protocol_error
protocol_error-gone st id h = (
  fail_connection-Distinct st id h,
  failure_cases (λ s. find id s.clients ≡ none) st id (λ absent. absent)
      (λ c _ _. gone id st.clients h) (λ c _ _. gone id st.clients h),
)

pub connection_closed-gone :
    (st : PrivacyState) (id : ℕ)
    → Distinct st.clients
    → find id (connection_closed st id).clients ≡ none
unfolding connection_closed
connection_closed-gone st id h =
    failure_cases (λ s. find id s.clients ≡ none) st id (λ absent. absent)
      (λ c _ _. gone id st.clients h) (λ c _ _. gone id st.clients h)

-- An accepted GOODBYE removes the entry.
pub goodbye_received-gone :
    (st : PrivacyState) (id : ℕ)
    → Distinct st.clients
    → (goodbye_received st id).1 ≡ true
    → find id (goodbye_received st id).0.clients ≡ none
goodbye_received-gone st id h =
    goodbye_cases (λ r. r.1 ≡ true → find id r.0.clients ≡ none) st id (λ no. cc)
      (λ c _ _ _. gone id st.clients h)
