-- ===== src/Privacy/Outcomes.antt =====
-- Each operation either refuses and leaves the state alone, or finds its client and goes through: a
-- rule for each, for a property of the new state and the result.
use obs_vscode_privacy_guard.Base.{
  Bool, Bool-cases, Bytes, Option-cases, arith, false, if◌then◌else◌, inl, inr, is_some, ltb, map,
  none, not, some, true, u64_mod, ℕ, ◌%◌, ◌&&◌, ◌+◌, ◌-◌, ◌≡◌,
}
use obs_vscode_privacy_guard.Privacy.{
  Client, PrivacyState, accept_sequence, assign, erase, fail_connection, find, goodbye_received,
  hello_received, is_fresh, is_taken, record_connection_failure, reset_client, same, set_enabled,
  state_received,
}

-- The client as an accepted HELLO, and an accepted STATE (which needs a HELLO before it), leave it.
abbrev pub greeted : Client → Bytes → ℕ → Client
greeted c client_id now = record c {
  client_id = client_id;
  hello_received = true;
  last_update = now;
}

abbrev pub updated : Client → ℕ → Bool → ℕ → Client
updated c sequence reported now = record c {
  last_sequence = some sequence;
  sensitive = some reported;
  last_update = now;
  hello_received = true;
}

-- The count of failures after a STATE of this client.
abbrev pub recovered : Client → ℕ → ℕ
recovered c failed = if not (is_some c.sensitive) && ltb 0 failed then failed - 1 else failed

accept_fresh :
    (c : Client) (sequence : ℕ)
    → is_fresh c.last_sequence sequence ≡ true
    → accept_sequence c sequence ≡ (record c { last_sequence = some sequence }, true)
unfolding accept_sequence
accept_fresh c sequence h = rw h

accept_stale :
    (c : Client) (sequence : ℕ)
    → is_fresh c.last_sequence sequence ≡ false
    → accept_sequence c sequence ≡ (c, false)
unfolding accept_sequence
accept_stale c sequence h = rw h

module _ {ℓ} (P : PrivacyState × Bool → Type ℓ) (st : PrivacyState) (id : ℕ) where
  pub hello_cases :
      (client_id : Bytes) (now : ℕ)
      → P (st, false)
      → ((c : Client)
          → find id st.clients ≡ some c
          → c.hello_received ≡ false
          → is_taken id client_id st.clients ≡ false
          → P (record st { clients = assign id (greeted c client_id now) st.clients }, true))
      → P (hello_received st id client_id now)
  unfolding hello_received
  hello_cases client_id now refused accepted = elim (Option-cases (find id st.clients)) [
    | inl e ↦ rw (e, hello_received) refused
    | inr (c, e) ↦ elim (Bool-cases c.hello_received) [
      | inl said ↦ rw (e, hello_received, said) refused
      | inr new ↦ elim (Bool-cases (is_taken id client_id st.clients)) [
        | inl taken ↦ rw (e, hello_received, new, taken) refused
        | inr free ↦ rw (e, hello_received, new, free) (accepted c e new free)
      ]
    ]
  ]

  pub state_cases :
      (sequence : ℕ) (reported : Bool) (now : ℕ)
      → P (st, false)
      → ((c : Client)
          → find id st.clients ≡ some c
          → c.hello_received ≡ true
          → is_fresh c.last_sequence sequence ≡ true
          → P (
            record st {
              clients = assign id (updated c sequence reported now) st.clients;
              untrusted_failure_latched = false;
              disconnected_clients = recovered c st.disconnected_clients;
            },
            true,
          ))
      → P (state_received st id sequence reported now)
  unfolding state_received
  state_cases sequence reported now refused accepted = elim (Option-cases (find id st.clients)) [
    | inl e ↦ rw (e, state_received) refused
    | inr (c, e) ↦ elim (Bool-cases c.hello_received) [
      | inr new ↦ rw (e, state_received, new) refused
      | inl said ↦ elim (Bool-cases (is_fresh c.last_sequence sequence)) [
        | inl fresh ↦
            rw (e, state_received)
              (simp (said, accept_fresh c sequence fresh) (accepted c e said fresh))
        | inr stale ↦ rw (e, state_received) (simp (said, accept_stale c sequence stale) refused)
      ]
    ]
  ]

  pub goodbye_cases :
      P (st, false)
      → ((c : Client)
          → find id st.clients ≡ some c
          → c.hello_received ≡ true
          → P (record st { clients = erase id st.clients }, true))
      → P (goodbye_received st id)
  unfolding goodbye_received
  goodbye_cases refused accepted = elim (Option-cases (find id st.clients)) [
    | inl e ↦ rw (e, goodbye_received) refused
    | inr (c, e) ↦ elim (Bool-cases c.hello_received) [
      | inl said ↦ rw (e, goodbye_received, said) (accepted c e said)
      | inr new ↦ rw (e, goodbye_received, new) refused
    ]
  ]

module _ {ℓ} (P : PrivacyState → Type ℓ) (st : PrivacyState) (id : ℕ) where
  pub failure_cases :
      (find id st.clients ≡ none → P st)
      → ((c : Client)
          → find id st.clients ≡ some c
          → is_some c.sensitive ≡ true
          → P (record st {
            clients = erase id st.clients;
            disconnected_clients = (st.disconnected_clients + 1) % u64_mod;
          }))
      → ((c : Client)
          → find id st.clients ≡ some c
          → is_some c.sensitive ≡ false
          → P (record st { clients = erase id st.clients; untrusted_failure_latched = true }))
      → P (fail_connection st id)
  unfolding fail_connection
  failure_cases absent counted latched = elim (Option-cases (find id st.clients)) [
    | inl e ↦ rw (e, fail_connection) (absent e)
    | inr (c, e) ↦ elim (Bool-cases (is_some c.sensitive)) [
      | inl told ↦ rw (e, fail_connection, record_connection_failure, told) (counted c e told)
      | inr mute ↦ rw (e, fail_connection, record_connection_failure, mute) (latched c e mute)
    ]
  ]

module _ {ℓ} (P : PrivacyState → Type ℓ) (st : PrivacyState) where
  pub enable_cases :
      (b : Bool)
      → (same st.enabled b ≡ true → P st)
      → (st.enabled ≡ true → P (record st { enabled = false }))
      → (st.enabled ≡ false
          → P (record st {
            enabled = true;
            disconnected_clients = 0;
            untrusted_failure_latched = false;
            clients = map reset_client st.clients;
          }))
      → P (set_enabled st b)
  unfolding set_enabled
  enable_cases b kept off on = elim (Bool-cases (same st.enabled b)) [
    | inl s ↦ rw s (kept s)
    | inr s ↦ elim (Bool-cases b) [
      | inl t ↦ rw (s, t) (on (ground arith))
      | inr f ↦ rw (s, f) (off (ground arith))
    ]
  ]

-- What a HELLO and a STATE that nothing speaks against do.
pub hello_accepts :
    (st : PrivacyState) (id : ℕ) (client_id : Bytes) (now : ℕ) (c : Client)
    → find id st.clients ≡ some c
    → c.hello_received ≡ false
    → is_taken id client_id st.clients ≡ false
    → hello_received st id client_id now
      ≡ (record st { clients = assign id (greeted c client_id now) st.clients }, true)
unfolding hello_received
hello_accepts st id client_id now c e new free = rw (e, hello_received, new, free)

pub state_accepts :
    (st : PrivacyState) (id sequence : ℕ) (reported : Bool) (now : ℕ) (c : Client)
    → find id st.clients ≡ some c
    → c.hello_received ≡ true
    → is_fresh c.last_sequence sequence ≡ true
    → state_received st id sequence reported now ≡ (
      record st {
        clients = assign id (updated c sequence reported now) st.clients;
        untrusted_failure_latched = false;
        disconnected_clients = recovered c st.disconnected_clients;
      },
      true,
    )
unfolding state_received
state_accepts st id sequence reported now c e said fresh =
    rw (e, state_received) (simp (said, accept_fresh c sequence fresh))
