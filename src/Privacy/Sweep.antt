-- ===== src/Privacy/Sweep.antt =====
-- What `tick` does to each field of the state.
use obs_vscode_privacy_guard.Base.{
  Bool, [], arith, false, if◌then◌else◌, is_some, length, not, refl, u64_mod, ℕ, ◌&&◌, ◌+◌, ◌<◌,
  ◌||◌, ◌∷◌, ◌≡◌, ◌≤◌,
}
use obs_vscode_privacy_guard.Privacy.{
  Client, Clients, PrivacyState, is_expired, record_connection_failure, sweep,
}
use obs_vscode_privacy_guard.Privacy.Clients.{live}

-- How many of the clients have expired after they reported a state.
unfoldable pub lost : ℕ → ℕ → Clients → ℕ
lost timeout now [] = 0
lost timeout now ((id, c) ∷ cs) =
    (if is_expired timeout now c && is_some c.sensitive then 1 else 0) + lost timeout now cs

-- One of the clients has expired before it reported a state.
unfoldable pub silent : ℕ → ℕ → Clients → Bool
silent timeout now [] = false
silent timeout now ((id, c) ∷ cs) =
    (is_expired timeout now c && not (is_some c.sensitive)) || silent timeout now cs

-- `sweep` leaves the settings alone.
pub record Kept (st swept : PrivacyState) : Type 0 where
  pub timeout_kept : swept.liveness_timeout ≡ st.liveness_timeout
  pub next_kept : swept.next_connection_id ≡ st.next_connection_id
  pub enabled_kept : swept.enabled ≡ st.enabled

failure-Kept : (st : PrivacyState) (c : Client) → Kept st (record_connection_failure st c)
unfolding record_connection_failure
failure-Kept st c = ground arith

pub sweep-Kept : (now : ℕ) (cs : Clients) (st : PrivacyState) → Kept st (sweep now st cs)
unfolding sweep
sweep-Kept now [] st = record { timeout_kept = refl; next_kept = refl; enabled_kept = refl }
sweep-Kept now ((id, c) ∷ cs) st = ground (
  arith,
  sweep-Kept now cs (record_connection_failure st c),
  sweep-Kept now cs st,
  failure-Kept st c,
)

pub clients-sweep :
    (now : ℕ) (cs : Clients) (st : PrivacyState)
    → (sweep now st cs).clients ≡ live st.liveness_timeout now cs
unfolding sweep live
clients-sweep now [] st = refl
clients-sweep now ((id, c) ∷ cs) st = ground (
  arith,
  clients-sweep now cs (record_connection_failure st c),
  clients-sweep now cs st,
  failure-Kept st c,
)

pub latched-sweep :
    (now : ℕ) (cs : Clients) (st : PrivacyState)
    → (sweep now st cs).untrusted_failure_latched
      ≡ (st.untrusted_failure_latched || silent st.liveness_timeout now cs)
unfolding sweep silent record_connection_failure
latched-sweep now [] st = ground arith
latched-sweep now ((id, c) ∷ cs) st = ground (
  arith,
  latched-sweep now cs (record_connection_failure st c),
  latched-sweep now cs st,
  failure-Kept st c,
)

-- The counter does not wrap as long as the sum fits.
pub disconnected-sweep :
    (now : ℕ) (cs : Clients) (st : PrivacyState)
    → st.disconnected_clients + lost st.liveness_timeout now cs < u64_mod
    → (sweep now st cs).disconnected_clients
      ≡ st.disconnected_clients + lost st.liveness_timeout now cs
unfolding sweep lost record_connection_failure
disconnected-sweep now [] st h = omega arith
disconnected-sweep now ((id, c) ∷ cs) st h = ground (
  arith,
  disconnected-sweep now cs (record_connection_failure st c),
  disconnected-sweep now cs st,
  failure-Kept st c,
)

pub length-live :
    (timeout now : ℕ) (cs : Clients)
    → length (live timeout now cs) + lost timeout now cs ≤ length cs
unfolding live lost
length-live timeout now [] = omega arith
length-live timeout now ((id, c) ∷ cs) = ground (arith, length-live timeout now cs)
