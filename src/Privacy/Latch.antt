-- ===== src/Privacy/Latch.antt =====
-- Which calls make a failure good: `disconnected_clients_` and the latch over a history.
use obs_vscode_privacy_guard.Base.{
  Bool, List, Option, [], arith, false, if◌then◌else◌, inl, inr, is_some, none, not, refl, some,
  true, u64_mod, ℕ, ◌&&◌, ◌+◌, ◌<◌, ◌∙◌, ◌∷◌, ◌≡◌, ◌≤◌,
}
use obs_vscode_privacy_guard.Privacy.{
  Client, Mode, PrivacyState, connection_closed, connection_opened, find, is_fresh, mode,
  protocol_error, state_received, tick,
}
use obs_vscode_privacy_guard.Privacy.Clients.{Each, Each-assign, Each-find, assign-ne-nil}
use obs_vscode_privacy_guard.Privacy.Sweep.{disconnected-sweep, length-live}
use obs_vscode_privacy_guard.Privacy.Outcomes.{
  failure_cases, goodbye_cases, hello_cases, state_accepts, state_cases, updated,
}
use obs_vscode_privacy_guard.Privacy.History.{
  Call, closes, enables, errors, goodbyes, hellos, opens, run, states, step, ticks,
}
use obs_vscode_privacy_guard.Privacy.Invariant.{Inv}
use obs_vscode_privacy_guard.Privacy.Preserved.{next-step, opened, opened-cons, step-Inv}
use obs_vscode_privacy_guard.Privacy.Modes.{Reported, mode_iff}
use obs_vscode_privacy_guard.Privacy.Arming.{IsRemote, IsRemote-cons, enabled-run}

-- The client that the connection has would report for the first time.
abbrev unreported : Option Client → Bool
unreported none = false
unreported (some c) = not (is_some c.sensitive)

-- The call is an accepted first STATE of a client.
abbrev pub is_first_report : PrivacyState → Call → Bool
is_first_report st (states id sequence reported now) =
    unreported (find id st.clients) && (state_received st id sequence reported now).1
is_first_report st _ = false

-- The first reports of a history.
unfoldable pub first_reports : PrivacyState → List Call → ℕ
first_reports st [] = 0
first_reports st (call ∷ calls) =
    (if is_first_report st call then 1 else 0) + first_reports (step st call) calls

-- The failures that are left, with those made good by this call.
abbrev Remains : PrivacyState → PrivacyState → ℕ → Type 0
Remains st st' made_good = st.disconnected_clients ≤ st'.disconnected_clients + made_good

step-Remains :
    (st : PrivacyState) (call : Call)
    → Inv st
    → IsRemote (call ∷ [])
    → Remains st (step st call) (if is_first_report st call then 1 else 0)
unfolding step protocol_error connection_closed connection_opened tick
step-Remains st (enables b) v h = absurd h
step-Remains st (opens now) v h = omega arith
step-Remains st (hellos id client_id now) v h =
    hello_cases (λ r. Remains st r.0 0) st id client_id now (omega arith)
      (λ c e new free. omega arith)
step-Remains st (states id sequence reported now) v h =
    state_cases (λ r. Remains st r.0 (if unreported (find id st.clients) && r.1 then 1 else 0)) st
      id sequence reported now (omega arith) (λ c e said fresh. rw e (ground arith))
step-Remains st (goodbyes id) v h =
    goodbye_cases (λ r. Remains st r.0 0) st id (omega arith) (λ c e said. omega arith)
step-Remains st (errors id) v h =
    failure_cases (λ s. Remains st s 0) st id (λ _. omega arith)
      (λ c e told. omega (arith, v.counted, v.bounded)) (λ c e mute. omega arith)
step-Remains st (closes id) v h =
    failure_cases (λ s. Remains st s 0) st id (λ _. omega arith)
      (λ c e told. omega (arith, v.counted, v.bounded)) (λ c e mute. omega arith)
step-Remains st (ticks now) v h = omega (
  arith,
  disconnected-sweep now st.clients st
      (omega (arith, v.counted, v.bounded, length-live st.liveness_timeout now st.clients)),
)

run-Remains :
    (st : PrivacyState) (calls : List Call)
    → Inv st
    → st.next_connection_id + opened calls < u64_mod
    → IsRemote calls
    → Remains st (run st calls) (first_reports st calls)
unfolding run first_reports
run-Remains st [] v room h = omega arith
run-Remains st (call ∷ calls) v room h =
    let split = opened-cons call calls in
    let next = next-step st call (omega arith) in
    let (one, rest) = IsRemote-cons call calls h in
    omega (
      arith,
      step-Remains st call v one,
      run-Remains (step st call) calls (step-Inv st call (omega arith) v) (omega (arith, next))
          rest,
    )

-- While protection is enabled, and until OBS sets it anew, the mode stays disconnected as long as
-- there have been fewer first reports than failures of clients that had reported: updates of clients
-- that have reported, however many, make none of those failures good.
pub latch_holds :
    (st : PrivacyState) (calls : List Call)
    → Inv st
    → st.next_connection_id + opened calls < u64_mod
    → IsRemote calls
    → st.enabled ≡ true
    → first_reports st calls < st.disconnected_clients
    → mode (run st calls) ≡ Mode.disconnected
latch_holds st calls v room h on few =
    (mode_iff Mode.disconnected (run st calls)).1
      (enabled-run st calls h ∙ on, inr (omega (arith, run-Remains st calls v room h)))

-- A failure of a connection that had not reported yet is made good by any client's next update: with
-- every client safe and no failure counted, an accepted safe update takes the mode from disconnected
-- to safe, though the client reported before and was connected all along.
pub untrusted_failure_cleared :
    (st : PrivacyState) (id sequence now : ℕ) (c : Client)
    → st.enabled ≡ true
    → st.untrusted_failure_latched ≡ true
    → st.disconnected_clients ≡ 0
    → Each (λ _. Reported false) st.clients
    → find id st.clients ≡ some c
    → is_fresh c.last_sequence sequence ≡ true
    → (mode st ≡ Mode.disconnected) × (mode (state_received st id sequence false now).0 ≡ Mode.safe)
untrusted_failure_cleared st id sequence now c on latched none_failed all_safe e fresh =
    let (said, told) = Each-find (λ _ d. Reported false d) id st.clients c all_safe e in
    (
      (mode_iff Mode.disconnected st).1 (on, inl latched),
      rw (state_accepts st id sequence false now c e said fresh) (
          (mode_iff Mode.safe _).1 (
            on,
            (refl, ground (arith)),
            (
              assign-ne-nil id (updated c sequence false now) st.clients c e,
              Each-assign (λ _ d. Reported false d) id (updated c sequence false now) st.clients
                  all_safe (refl, refl),
            ),
          )),
    )
