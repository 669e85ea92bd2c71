-- ===== src/Privacy/Guarded.antt =====
-- A client that has reported a sensitive file, and what others do.
use obs_vscode_privacy_guard.Base.{
  All, List, [], arith, false, inr, refl, some, subst, sym, true, ℕ, ◌+◌, ◌∙◌, ◌∷◌, ◌≡◌, ◌≢◌, ◌≤◌,
}
use obs_vscode_privacy_guard.Privacy.{
  Client, Clients, Mode, PrivacyState, assign, connection_closed, connection_opened, emplace, erase,
  find, is_expired, mode, new_client, protocol_error, state_received, tick,
}
use obs_vscode_privacy_guard.Privacy.Clients.{Distinct, find-assign, find-erase, live}
use obs_vscode_privacy_guard.Privacy.Distinctness.{step-Distinct}
use obs_vscode_privacy_guard.Privacy.Sweep.{clients-sweep, sweep-Kept}
use obs_vscode_privacy_guard.Privacy.Outcomes.{
  enable_cases, failure_cases, goodbye_cases, hello_cases, state_cases, updated,
}
use obs_vscode_privacy_guard.Privacy.Arming.{client_hides, enabled-step}
use obs_vscode_privacy_guard.Privacy.History.{
  Call, closes, enables, errors, goodbyes, hellos, opens, run, states, step, ticks,
}

-- A call that is not about connection `id` and does not arm or disarm, and no tick after `limit`.
abbrev pub IsElsewhere : (id limit : ℕ) → Call → Type 0
IsElsewhere id limit (enables b) = ⊥
IsElsewhere id limit (opens now) = Unit {0}
IsElsewhere id limit (hellos j client_id now) = id ≢ j
IsElsewhere id limit (states j sequence reported now) = id ≢ j
IsElsewhere id limit (goodbyes j) = id ≢ j
IsElsewhere id limit (errors j) = id ≢ j
IsElsewhere id limit (closes j) = id ≢ j
IsElsewhere id limit (ticks now) = now ≤ limit

timeout-step :
    (st : PrivacyState) (call : Call) → (step st call).liveness_timeout ≡ st.liveness_timeout
unfolding step protocol_error connection_closed connection_opened tick
timeout-step st (enables b) =
    enable_cases (λ s. s.liveness_timeout ≡ st.liveness_timeout) st b (λ _. refl) (λ _. refl)
      (λ _. refl)
timeout-step st (opens now) = refl
timeout-step st (hellos id client_id now) =
    hello_cases (λ r. r.0.liveness_timeout ≡ st.liveness_timeout) st id client_id now refl
      (λ c e new free. refl)
timeout-step st (states id sequence reported now) =
    state_cases (λ r. r.0.liveness_timeout ≡ st.liveness_timeout) st id sequence reported now refl
      (λ c e said fresh. refl)
timeout-step st (goodbyes id) =
    goodbye_cases (λ r. r.0.liveness_timeout ≡ st.liveness_timeout) st id refl (λ c e said. refl)
timeout-step st (errors id) =
    failure_cases (λ s. s.liveness_timeout ≡ st.liveness_timeout) st id (λ _. refl)
      (λ c e told. refl) (λ c e mute. refl)
timeout-step st (closes id) =
    failure_cases (λ s. s.liveness_timeout ≡ st.liveness_timeout) st id (λ _. refl)
      (λ c e told. refl) (λ c e mute. refl)
timeout-step st (ticks now) = (sweep-Kept now st.clients st).timeout_kept

pub timeout-run :
    (st : PrivacyState) (calls : List Call) → (run st calls).liveness_timeout ≡ st.liveness_timeout
unfolding run
timeout-run st [] = refl
timeout-run st (call ∷ calls) = timeout-run (step st call) calls ∙ timeout-step st call

find-assign-other :
    (j id : ℕ) (d : Client) (cs : Clients) → j ≢ id → find j (assign id d cs) ≡ find j cs
find-assign-other j id d cs ne = ground (arith, find-assign j id d cs)

find-erase-other :
    (j id : ℕ) (cs : Clients) → Distinct cs → j ≢ id → find j (erase id cs) ≡ find j cs
find-erase-other j id cs h ne = ground (arith, find-erase j id cs h)

find-emplace-some :
    (j id : ℕ) (d c : Client) (cs : Clients)
    → find j cs ≡ some c
    → find j (emplace id d cs) ≡ some c
unfolding find emplace
find-emplace-some j id d c cs e = ground arith

find-live-some :
    (j timeout now : ℕ) (cs : Clients) (c : Client)
    → find j cs ≡ some c
    → is_expired timeout now c ≡ false
    → find j (live timeout now cs) ≡ some c
unfolding find live
find-live-some j timeout now [] c e x = cc
find-live-some j timeout now ((key, d) ∷ cs) c e x =
    ground (arith, find-live-some j timeout now cs c)

-- The entry of a connection, with protection enabled.
record Stays (id : ℕ) (c : Client) (st : PrivacyState) : Type 0 where
  found : find id st.clients ≡ some c
  distinct : Distinct st.clients
  enabled : st.enabled ≡ true

step-find :
    (st : PrivacyState) (call : Call) (id : ℕ) (c : Client)
    → Distinct st.clients
    → IsElsewhere id (c.last_update + st.liveness_timeout) call
    → find id st.clients ≡ some c
    → find id (step st call).clients ≡ some c
unfolding step protocol_error connection_closed connection_opened tick
step-find st (enables b) id c h away e = absurd away
step-find st (opens now) id c h away e =
    find-emplace-some id st.next_connection_id (new_client now) c st.clients e
step-find st (hellos j client_id now) id c h away e =
    hello_cases (λ r. find id r.0.clients ≡ some c) st j client_id now e
      (λ d _ _ _. find-assign-other id j _ st.clients away ∙ e)
step-find st (states j sequence reported now) id c h away e =
    state_cases (λ r. find id r.0.clients ≡ some c) st j sequence reported now e
      (λ d _ _ _. find-assign-other id j _ st.clients away ∙ e)
step-find st (goodbyes j) id c h away e =
    goodbye_cases (λ r. find id r.0.clients ≡ some c) st j e
      (λ d _ _. find-erase-other id j st.clients h away ∙ e)
step-find st (errors j) id c h away e =
    failure_cases (λ s. find id s.clients ≡ some c) st j (λ _. e)
      (λ d _ _. find-erase-other id j st.clients h away ∙ e)
      (λ d _ _. find-erase-other id j st.clients h away ∙ e)
step-find st (closes j) id c h away e =
    failure_cases (λ s. find id s.clients ≡ some c) st j (λ _. e)
      (λ d _ _. find-erase-other id j st.clients h away ∙ e)
      (λ d _ _. find-erase-other id j st.clients h away ∙ e)
step-find st (ticks now) id c h away e =
    rw (clients-sweep now st.clients st)
      (find-live-some id st.liveness_timeout now st.clients c e (ground arith))

enabled-elsewhere :
    (st : PrivacyState) (call : Call) (id limit : ℕ)
    → IsElsewhere id limit call
    → (step st call).enabled ≡ st.enabled
enabled-elsewhere st (enables b) id limit away = absurd away
enabled-elsewhere st (opens now) id limit away = enabled-step st (opens now) tt
enabled-elsewhere st (hellos j client_id now) id limit away =
    enabled-step st (hellos j client_id now) tt
enabled-elsewhere st (states j sequence reported now) id limit away =
    enabled-step st (states j sequence reported now) tt
enabled-elsewhere st (goodbyes j) id limit away = enabled-step st (goodbyes j) tt
enabled-elsewhere st (errors j) id limit away = enabled-step st (errors j) tt
enabled-elsewhere st (closes j) id limit away = enabled-step st (closes j) tt
enabled-elsewhere st (ticks now) id limit away = enabled-step st (ticks now) tt

run-Stays :
    (calls : List Call) (st : PrivacyState) (id : ℕ) (c : Client)
    → All (IsElsewhere id (c.last_update + st.liveness_timeout)) calls
    → Stays id c st
    → Stays id c (run st calls)
unfolding run
run-Stays [] st id c away s = s
run-Stays (call ∷ calls) st id c (one, away) s =
    run-Stays calls (step st call) id c
      (subst (λ t. All (IsElsewhere id (c.last_update + t)) calls) (sym (timeout-step st call))
        away)
      (record {
        found = step-find st call id c s.distinct one s.found;
        distinct = step-Distinct st call s.distinct;
        enabled =
            enabled-elsewhere st call id (c.last_update + st.liveness_timeout) one ∙ s.enabled;
      })

-- The entry after a STATE with SENSITIVE that was accepted.
reported_entry :
    (st : PrivacyState) (id sequence now : ℕ)
    → (state_received st id sequence true now).1 ≡ true
    → (c : Client) × (find id (state_received st id sequence true now).0.clients ≡ some c)
      × (c.sensitive ≡ some true)
      × (c.last_update ≡ now)
reported_entry st id sequence now =
    state_cases
      (λ r.
        r.1 ≡ true
        → (c : Client) × (find id r.0.clients ≡ some c)
          × (c.sensitive ≡ some true)
          × (c.last_update ≡ now))
      st id sequence true now (λ e. absurd (ground (arith, e)))
      (λ d e said fresh _.
        let c = updated d sequence true now in
        (c, ground (arith, find-assign id id c st.clients, e), refl, refl))

-- Once a STATE with SENSITIVE is accepted at the time `now`, with protection enabled, the output stays
-- hidden through all calls that are not about this connection and do not arm or disarm, with no tick
-- later than the timeout allows for the client's last update.
pub sensitive_holds :
    (st : PrivacyState) (id sequence now : ℕ) (calls : List Call)
    → Distinct st.clients
    → st.enabled ≡ true
    → (state_received st id sequence true now).1 ≡ true
    → All (IsElsewhere id (now + st.liveness_timeout)) calls
    → (mode (run (state_received st id sequence true now).0 calls) ≢ Mode.safe)
      × (mode (run (state_received st id sequence true now).0 calls) ≢ Mode.disabled)
unfolding step
sensitive_holds st id sequence now calls distinct on taken away =
    let after = (state_received st id sequence true now).0 in
    let (c, e, sensitive, at) = reported_entry st id sequence now taken in
    let call = states id sequence true now in
    let away' : All (IsElsewhere id (c.last_update + after.liveness_timeout)) calls =
      rw (at, timeout-step st call) away in
    let s = run-Stays calls after id c away' (record {
      found = e;
      distinct = step-Distinct st call distinct;
      enabled = enabled-step st call tt ∙ on;
    }) in
    client_hides (run after calls) id c s.enabled s.found (inr sensitive)
