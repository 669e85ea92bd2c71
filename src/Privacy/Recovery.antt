-- ===== src/Privacy/Recovery.antt =====
-- The way back to a mode that shows the output: a new client that says HELLO and reports a safe state.
use obs_vscode_privacy_guard.Base.{
  Bool, Bytes, ap, arith, false, if◌then◌else◌, inl, none, refl, some, true, u64_mod, ℕ, ◌%◌, ◌&&◌,
  ◌+◌, ◌∙◌, ◌∷◌, ◌≡◌, ◌≤◌,
}
use obs_vscode_privacy_guard.Privacy.{
  Client, Clients, Mode, PrivacyState, assign, connection_opened, find, hello_received, is_fresh,
  is_taken, mode, new_client, state_received,
}
use obs_vscode_privacy_guard.Privacy.Clients.{Each, Each-mono, find-none_of_le}
use obs_vscode_privacy_guard.Privacy.Outcomes.{
  greeted, hello_accepts, recovered, state_accepts, updated,
}
use obs_vscode_privacy_guard.Privacy.Invariant.{Inv}
use obs_vscode_privacy_guard.Privacy.Modes.{HasReported, Reported, mode_iff}

-- A connection opened at `t0` that says HELLO at `t1` and reports at `t2`: the state, and whether both
-- frames are accepted.
pub connect : PrivacyState → Bytes → ℕ → Bool → ℕ → ℕ → ℕ → PrivacyState × Bool
connect st client_id sequence reported t0 t1 t2 =
    let (opened_state, id) = connection_opened st t0 in
    let (greeted_state, hello_ok) = hello_received opened_state id client_id t1 in
    let (reported_state, state_ok) = state_received greeted_state id sequence reported t2 in
    (reported_state, hello_ok && state_ok)

find_head : (id : ℕ) (c : Client) (cs : Clients) → find id ((id, c) ∷ cs) ≡ some c
unfolding find
find_head id c cs = ground arith

assign_head : (id : ℕ) (c d : Client) (cs : Clients) → assign id d ((id, c) ∷ cs) ≡ (id, d) ∷ cs
unfolding assign
assign_head id c d cs = ground arith

is_taken_head :
    (id : ℕ) (client_id : Bytes) (c : Client) (cs : Clients)
    → is_taken id client_id ((id, c) ∷ cs) ≡ is_taken id client_id cs
unfolding is_taken
is_taken_head id client_id c cs = ground arith

hello_after_open :
    (st : PrivacyState) (id : ℕ) (client_id : Bytes) (c : Client) (cs : Clients) (now : ℕ)
    → st.clients ≡ (id, c) ∷ cs
    → c.hello_received ≡ false
    → is_taken id client_id cs ≡ false
    → hello_received st id client_id now
      ≡ (record st { clients = (id, greeted c client_id now) ∷ cs }, true)
hello_after_open st id client_id c cs now e new free =
    hello_accepts st id client_id now c (rw e (find_head id c cs)) new
      (rw e (is_taken_head id client_id c cs ∙ free))
    ∙ rw e (ap (λ ds. (record st { clients = ds }, true)) (assign_head id c _ cs))

state_after_hello :
    (st : PrivacyState) (id sequence : ℕ) (b : Bool) (c : Client) (cs : Clients) (now : ℕ)
    → st.clients ≡ (id, c) ∷ cs
    → c.hello_received ≡ true
    → is_fresh c.last_sequence sequence ≡ true
    → state_received st id sequence b now ≡ (
      record st {
        clients = (id, updated c sequence b now) ∷ cs;
        untrusted_failure_latched = false;
        disconnected_clients = recovered c st.disconnected_clients;
      },
      true,
    )
state_after_hello st id sequence b c cs now e said fresh =
    state_accepts st id sequence b now c (rw e (find_head id c cs)) said fresh
    ∙ rw e (
        ap
          (λ ds. (
            record st {
              clients = ds;
              untrusted_failure_latched = false;
              disconnected_clients = recovered c st.disconnected_clients;
            },
            true,
          ))
          (assign_head id c _ cs))

-- The state that a new client leaves, whose identity is not taken.
connect_result :
    (st : PrivacyState) (client_id : Bytes) (sequence : ℕ) (reported : Bool) (t0 t1 t2 : ℕ)
    → Inv st
    → is_taken st.next_connection_id client_id st.clients ≡ false
    → connect st client_id sequence reported t0 t1 t2 ≡ (
      record st {
        next_connection_id = (st.next_connection_id + 1) % u64_mod;
        clients =
            (
              st.next_connection_id,
              updated (greeted (new_client t0) client_id t1) sequence reported t2,
            )
            ∷ st.clients;
        untrusted_failure_latched = false;
        disconnected_clients = recovered (new_client t0) st.disconnected_clients;
      },
      true,
    )
unfolding connect connection_opened
connect_result st client_id sequence reported t0 t1 t2 v free = rw (
  absent,
  hello_after_open opened_state id client_id (new_client t0) st.clients t1 refl refl free,
  state_after_hello greeted_state id sequence reported (greeted (new_client t0) client_id t1)
      st.clients t2 refl refl refl,
)
  where
    id : ℕ
    id = st.next_connection_id

    opened_state : PrivacyState
    opened_state = record st {
      next_connection_id = (st.next_connection_id + 1) % u64_mod;
      clients = (id, new_client t0) ∷ st.clients;
    }

    greeted_state : PrivacyState
    greeted_state = record opened_state {
      clients = (id, greeted (new_client t0) client_id t1) ∷ st.clients;
    }

    absent : find st.next_connection_id st.clients ≡ none
    absent = find-none_of_le _ st.next_connection_id st.clients v.below (omega arith)

-- Recovery: with protection enabled, every client safe and at most one failure to make good, a new
-- client under an identity that is not taken gets its HELLO and its first STATE accepted, and the
-- mode is then safe or sensitive, as that client reports.
pub connect_recovers :
    (st : PrivacyState) (client_id : Bytes) (sequence : ℕ) (reported : Bool) (t0 t1 t2 : ℕ)
    → Inv st
    → st.enabled ≡ true
    → st.disconnected_clients ≤ 1
    → Each (λ _. Reported false) st.clients
    → is_taken st.next_connection_id client_id st.clients ≡ false
    → let r = connect st client_id sequence reported t0 t1 t2 in
      (r.1 ≡ true) × (mode r.0 ≡ (if reported then Mode.sensitive else Mode.safe))
connect_recovers st client_id sequence true t0 t1 t2 v on few all_safe free =
    rw (connect_result st client_id sequence true t0 t1 t2 v free) (
      refl,
      (mode_iff Mode.sensitive _).1 (
        on,
        (refl, ground arith),
        (
          (
            (refl, refl),
            Each-mono (λ _. Reported false) HasReported st.clients (λ i c h. ground arith) all_safe,
          ),
          inl (refl, refl),
        ),
      ),
    )
connect_recovers st client_id sequence false t0 t1 t2 v on few all_safe free =
    rw (connect_result st client_id sequence false t0 t1 t2 v free) (
      refl,
      (mode_iff Mode.safe _).1 (on, (refl, ground arith), ((λ z. cc), ((refl, refl), all_safe))),
    )
