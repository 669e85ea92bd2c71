-- ===== src/Privacy/Order/Rehash.antt =====
-- `PrivacyState` when the map of clients is put into another order at any time, as a rehash of the
-- `std::unordered_map` may do.
use obs_vscode_privacy_guard.Base.{
  Bool, Bool-cases, Bytes, List, Option-cases, [], false, inl, inr, is_some, refl, subst, true, ℕ,
  ◌∙◌, ◌∷◌, ◌≡◌,
}
use obs_vscode_privacy_guard.Privacy.{
  Client, Clients, PrivacyState, accept_sequence, connection_closed, connection_opened,
  fail_connection, find, goodbye_received, hello_received, if_accepted, is_taken, make_state, mode,
  new_client, protocol_error, record_connection_failure, record_state, same, set_enabled,
  state_received, tick,
}
use obs_vscode_privacy_guard.Privacy.Clients.{Distinct}
use obs_vscode_privacy_guard.Privacy.Order.{
  Shuffled, Shuffled-assign, Shuffled-emplace, Shuffled-erase, Shuffled-map-reset, both,
  is_nil-Shuffled, is_taken-Shuffled, scan_clients-Shuffled, Shuffled-lookup, unchanged,
}
use obs_vscode_privacy_guard.Privacy.Order.Swept.{Rearranged, sweep-Rearranged}
use obs_vscode_privacy_guard.Privacy.Distinctness.{run-Distinct, step-Distinct}
use obs_vscode_privacy_guard.Privacy.History.{
  Call, closes, enables, errors, goodbyes, hellos, opens, run, states, step, ticks,
}

module _ (st : PrivacyState) {ds : Clients} (p : Shuffled st.clients ds)
    (h : Distinct st.clients) where
  abbrev reordered : PrivacyState
  reordered = record st { clients = ds }

  -- The results agree too.
  abbrev Agree : PrivacyState × Bool → PrivacyState × Bool → Type 0
  Agree (s, b) (s', b') = Rearranged s s' × (b ≡ b')

  found : (id : ℕ) → find id st.clients ≡ find id ds
  found id = (Shuffled-lookup p h).1 id

  hello_received-Agree :
      (id : ℕ) (client_id : Bytes) (now : ℕ)
      → Agree (hello_received st id client_id now) (hello_received reordered id client_id now)
  unfolding hello_received
  hello_received-Agree id client_id now = elim (Option-cases (find id ds)) [
    | inl e ↦ rw (found id, e, hello_received) ((p, refl), refl)
    | inr (c, e) ↦ elim (Bool-cases c.hello_received) [
      | inl said ↦ rw (found id, e, hello_received, said) ((p, refl), refl)
      | inr new ↦ elim (Bool-cases (is_taken id client_id ds)) [
        | inl taken ↦
            rw (found id, e, hello_received, new, is_taken-Shuffled id client_id p, taken)
              ((p, refl), refl)
        | inr free ↦
            rw (found id, e, hello_received, new, is_taken-Shuffled id client_id p, free)
              ((Shuffled-assign id _ p h, refl), refl)
      ]
    ]
  ]

  fail_connection-Rearranged :
      (id : ℕ) → Rearranged (fail_connection st id) (fail_connection reordered id)
  unfolding fail_connection record_connection_failure
  fail_connection-Rearranged id = elim (Option-cases (find id ds)) [
    | inl e ↦ rw (found id, e, fail_connection, record_connection_failure) (p, refl)
    | inr (c, e) ↦ elim (Bool-cases (is_some c.sensitive)) [
      | inl told ↦
          rw (found id, e, fail_connection, record_connection_failure, told)
            (Shuffled-erase id p h, refl)
      | inr mute ↦
          rw (found id, e, fail_connection, record_connection_failure, mute)
            (Shuffled-erase id p h, refl)
    ]
  ]

  goodbye_received-Agree : (id : ℕ) → Agree (goodbye_received st id) (goodbye_received reordered id)
  unfolding goodbye_received
  goodbye_received-Agree id = elim (Option-cases (find id ds)) [
    | inl e ↦ rw (found id, e, goodbye_received) ((p, refl), refl)
    | inr (c, e) ↦ elim (Bool-cases c.hello_received) [
      | inl said ↦ rw (found id, e, goodbye_received, said) ((Shuffled-erase id p h, refl), refl)
      | inr new ↦ rw (found id, e, goodbye_received, new) ((p, refl), refl)
    ]
  ]

  if_accepted-Agree :
      (id : ℕ) (r : Client × Bool) (reported : Bool) (now : ℕ)
      → Agree (if_accepted st id r reported now) (if_accepted reordered id r reported now)
  unfolding if_accepted record_state
  if_accepted-Agree id (c, true) reported now = ((Shuffled-assign id _ p h, refl), refl)
  if_accepted-Agree id (c, false) reported now = ((p, refl), refl)

  state_received-Agree :
      (id sequence : ℕ) (reported : Bool) (now : ℕ)
      → Agree
          (state_received st id sequence reported now)
          (state_received reordered id sequence reported now)
  unfolding state_received
  state_received-Agree id sequence reported now = elim (Option-cases (find id ds)) [
    | inl e ↦ rw (found id, e, state_received) ((p, refl), refl)
    | inr (c, e) ↦ elim (Bool-cases c.hello_received) [
      | inl said ↦
          rw (found id, e, state_received, said)
            (if_accepted-Agree id (accept_sequence (record c { hello_received = true }) sequence)
              reported now)
      | inr new ↦ rw (found id, e, state_received, new) ((p, refl), refl)
    ]
  ]

  set_enabled-Rearranged : (b : Bool) → Rearranged (set_enabled st b) (set_enabled reordered b)
  unfolding set_enabled
  set_enabled-Rearranged b = elim (Bool-cases (same st.enabled b)) [
    | inl e ↦ rw e (p, refl)
    | inr e ↦ elim (Bool-cases b) [
      | inl on ↦ rw (e, on) (Shuffled-map-reset p, refl)
      | inr off ↦ rw (e, off) (p, refl)
    ]
  ]

  step-reordered : (call : Call) → Rearranged (step st call) (step reordered call)
  unfolding step protocol_error connection_closed connection_opened tick
  step-reordered (enables b) = set_enabled-Rearranged b
  step-reordered (opens now) = (Shuffled-emplace st.next_connection_id (new_client now) p h, refl)
  step-reordered (hellos id client_id now) = (hello_received-Agree id client_id now).0
  step-reordered (states id sequence reported now) =
      (state_received-Agree id sequence reported now).0
  step-reordered (goodbyes id) = (goodbye_received-Agree id).0
  step-reordered (errors id) = fail_connection-Rearranged id
  step-reordered (closes id) = fail_connection-Rearranged id
  step-reordered (ticks now) = sweep-Rearranged now st p

  mode-reordered : mode st ≡ mode reordered
  unfolding mode
  mode-reordered = rw (is_nil-Shuffled p, scan_clients-Shuffled false p) refl

-- Calls one after another, with the clients put into any other order after each.
pub data Walks : PrivacyState → List Call → PrivacyState → Type 0 where
  stays : {st : PrivacyState} → Walks st [] st
  calls :
      {st st' st'' : PrivacyState} (call : Call) {rest_calls : List Call}
      → Rearranged (step st call) st'
      → Walks st' rest_calls st''
      → Walks st (call ∷ rest_calls) st''

-- A state with another order is the reordered one.
is_reordered :
    (P : PrivacyState → Type 0) {st st' : PrivacyState}
    → Rearranged st st'
    → P (record st { clients = st'.clients })
    → P st'
is_reordered P {st' = st'} r = subst P (λ i. record (r.1 i) { clients = st'.clients })

Walks-Rearranged :
    {st' st'' : PrivacyState} {made : List Call}
    → Walks st' made st''
    → (st : PrivacyState) → Distinct st.clients
    → Rearranged st st'
    → Rearranged (run st made) st''
unfolding run
Walks-Rearranged stays st h r = r
Walks-Rearranged {st' = st'} (calls call r' walk) st h r =
    let stepped =
      is_reordered (λ s. Rearranged (step st call) (step s call)) {st = st} {st' = st'} r
        (step-reordered st r.0 h call) in
    Walks-Rearranged walk (step st call) (step-Distinct st call h)
      (both stepped.0 r'.0, stepped.1 ∙ r'.1)

-- The state after any calls does not depend on the order in which the map of clients is walked, which
-- may change after each call: it is that of `run` but for the order, and the mode is the same.
pub Walks-run :
    (timeout : ℕ) (made : List Call) (st : PrivacyState)
    → Walks (make_state timeout) made st
    → Rearranged (run (make_state timeout) made) st
      × (mode (run (make_state timeout) made) ≡ mode st)
Walks-run timeout made st walk =
    let r = Walks-Rearranged walk (make_state timeout) tt (unchanged [], refl) in
    (
      r,
      is_reordered (λ s. mode (run (make_state timeout) made) ≡ mode s) r
          (mode-reordered (run (make_state timeout) made) r.0
            (run-Distinct (make_state timeout) made tt)),
    )
