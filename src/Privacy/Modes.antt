-- ===== src/Privacy/Modes.antt =====
-- `mode` against a description of each mode.
use obs_vscode_privacy_guard.Base.{
  Bool, [], arith, false, is_nil, is_some, none, refl, some, true, ℕ, ◌||◌, ◌↔◌, ◌∷◌, ◌≡◌, ◌≢◌, ◌⊎◌,
}
use obs_vscode_privacy_guard.Privacy.{
  Client, Clients, Mode, PrivacyState, mode, scan_clients, value_or_false,
}
use obs_vscode_privacy_guard.Privacy.Clients.{Each}

abbrev pub HasFailed : PrivacyState → Type 0
HasFailed st = (st.untrusted_failure_latched ≡ true) ⊎ (st.disconnected_clients ≢ 0)

abbrev pub IsHealthy : PrivacyState → Type 0
IsHealthy st = (st.untrusted_failure_latched ≡ false) × (st.disconnected_clients ≡ 0)

-- The client has said HELLO and reported this state.
abbrev pub Reported : Bool → Client → Type 0
Reported b c = (c.hello_received ≡ true) × (c.sensitive ≡ some b)

-- Some entry satisfies `P`.
abbrev pub Some : (Client → Type 0) → Clients → Type 0
Some P [] = ⊥
Some P ((id, c) ∷ cs) = P c ⊎ Some P cs

abbrev pub HasReported : ℕ → Client → Type 0
HasReported _ c = (c.hello_received ≡ true) × (is_some c.sensitive ≡ true)

abbrev pub IsPending : Client → Type 0
IsPending c = (c.hello_received ≡ false) ⊎ (c.sensitive ≡ none)

-- What the clients show together, of those that are connected.
abbrev pub Shown : Mode → Clients → Type 0
Shown Mode.awaiting_connection cs = (cs ≡ []) ⊎ Some IsPending cs
Shown Mode.sensitive cs = Each HasReported cs × Some (Reported true) cs
Shown Mode.safe cs = (cs ≢ []) × Each (λ _. Reported false) cs
Shown _ cs = ⊥

-- What each mode means.
abbrev pub Means : Mode → PrivacyState → Type 0
Means Mode.disabled st = st.enabled ≡ false
Means Mode.disconnected st = (st.enabled ≡ true) × HasFailed st
Means m st = (st.enabled ≡ true) × IsHealthy st × Shown m st.clients

Some-is_nil : (P : Client → Type 0) (cs : Clients) → Some P cs → is_nil cs ≡ false
Some-is_nil P [] h = absurd h
Some-is_nil P (e ∷ cs) h = refl

scan_safe :
    (any : Bool) (cs : Clients)
    → (scan_clients any cs ≡ Mode.safe) ↔ ((any ≡ false) × Each (λ _. Reported false) cs)
unfolding scan_clients
scan_safe any [] = ((λ e. ground arith), λ e. ground arith)
scan_safe any ((id, c) ∷ cs) = (
  (λ e. ground (arith, scan_safe (any || value_or_false c.sensitive) cs)),
  (λ e. ground (arith, scan_safe (any || value_or_false c.sensitive) cs)),
)

scan-IsPending :
    (any : Bool) (cs : Clients)
    → (scan_clients any cs ≡ Mode.awaiting_connection) ↔ Some IsPending cs
unfolding scan_clients
scan-IsPending any [] = ((λ e. ground arith), λ e. ground arith)
scan-IsPending any ((id, c) ∷ cs) = (
  (λ e. ground (arith, scan-IsPending (any || value_or_false c.sensitive) cs)),
  (λ e. ground (arith, scan-IsPending (any || value_or_false c.sensitive) cs)),
)

scan_sensitive :
    (any : Bool) (cs : Clients)
    → (scan_clients any cs ≡ Mode.sensitive)
      ↔ (Each HasReported cs × ((any ≡ true) ⊎ Some (Reported true) cs))
unfolding scan_clients
scan_sensitive any [] = ((λ e. ground arith), λ e. ground arith)
scan_sensitive any ((id, c) ∷ cs) = (
  (λ e. ground (arith, scan_sensitive (any || value_or_false c.sensitive) cs)),
  (λ e. ground (arith, scan_sensitive (any || value_or_false c.sensitive) cs)),
)

scan_total :
    (any : Bool) (cs : Clients)
    → (scan_clients any cs ≢ Mode.disabled) × (scan_clients any cs ≢ Mode.disconnected)
unfolding scan_clients
scan_total any [] = ((λ e. ground arith), λ e. ground arith)
scan_total any ((id, c) ∷ cs) = (
  (λ e. ground (arith, scan_total (any || value_or_false c.sensitive) cs)),
  (λ e. ground (arith, scan_total (any || value_or_false c.sensitive) cs)),
)

-- The mode is `m` exactly if the state is as `m` means: disabled in OBS; enabled with a failure that
-- is not made good; or enabled without one, and no client or one that has not reported, or all
-- reported and one of them sensitive, or at least one client and all of them safe.
pub mode_iff : (m : Mode) (st : PrivacyState) → (mode st ≡ m) ↔ Means m st
unfolding mode
mode_iff Mode.disabled st =
    ((λ e. ground (arith, scan_total false st.clients)), (λ h. ground arith))
mode_iff Mode.disconnected st =
    ((λ e. ground (arith, scan_total false st.clients)), (λ h. ground arith))
mode_iff Mode.awaiting_connection st = (
  (λ e. ground (arith, scan-IsPending false st.clients)),
  (λ h. ground (arith, scan-IsPending false st.clients)),
)
mode_iff Mode.sensitive st = (
  (λ e. ground (arith, scan_sensitive false st.clients)),
  (λ h. ground (arith, scan_sensitive false st.clients, Some-is_nil (Reported true) st.clients)),
)
mode_iff Mode.safe st = (
  (λ e. ground (arith, scan_safe false st.clients)),
  (λ h. ground (arith, scan_safe false st.clients)),
)
