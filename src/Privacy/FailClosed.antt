-- ===== src/Privacy/FailClosed.antt =====
-- `tick`, `protocol_error` and `connection_closed`, and the mode that they lead to.
use obs_vscode_privacy_guard.Base.{
  [], arith, false, inl, inr, refl, some, subst, sym, true, ℕ, ◌+◌, ◌<◌, ◌||◌, ◌↔◌, ◌∙◌, ◌∷◌, ◌≡◌,
  ◌≢◌, ◌≤◌, ◌⊎◌,
}
use obs_vscode_privacy_guard.Privacy.{
  Client, Clients, Mode, PrivacyState, connection_closed, fail_connection, find, is_expired, mode,
  protocol_error, tick,
}
use obs_vscode_privacy_guard.Privacy.Clients.{Each, live}
use obs_vscode_privacy_guard.Privacy.Sweep.{
  clients-sweep, disconnected-sweep, latched-sweep, length-live, lost, silent, sweep-Kept,
}
use obs_vscode_privacy_guard.Privacy.Outcomes.{failure_cases}
use obs_vscode_privacy_guard.Privacy.Invariant.{Inv}
use obs_vscode_privacy_guard.Privacy.Modes.{Shown, mode_iff}

-- The client's last update is not older than the timeout.
abbrev pub IsLive : ℕ → ℕ → ℕ → Client → Type 0
IsLive timeout now _ c = now ≤ c.last_update + timeout

none_lost_iff :
    (timeout now : ℕ) (cs : Clients)
    → ((lost timeout now cs ≡ 0) × (silent timeout now cs ≡ false)) ↔ Each (IsLive timeout now) cs
unfolding lost silent
none_lost_iff timeout now [] = ((λ _. tt), λ _. (refl, refl))
none_lost_iff timeout now ((id, c) ∷ cs) = (
  (λ h. ground (arith, none_lost_iff timeout now cs)),
  (λ h. ground (arith, none_lost_iff timeout now cs)),
)

live-all :
    (timeout now : ℕ) (cs : Clients) → Each (IsLive timeout now) cs → live timeout now cs ≡ cs
unfolding live
live-all timeout now [] h = refl
live-all timeout now ((id, c) ∷ cs) h = ground (arith, live-all timeout now cs h.1)

lost_of_expired :
    (timeout now id : ℕ) (c : Client) (cs : Clients)
    → find id cs ≡ some c
    → is_expired timeout now c ≡ true
    → (lost timeout now cs ≢ 0) ⊎ (silent timeout now cs ≡ true)
unfolding find lost silent
lost_of_expired timeout now id c [] e x = cc
lost_of_expired timeout now id c ((key, d) ∷ cs) e x =
    ground (arith, lost_of_expired timeout now id c cs)

-- `tick`, field by field, as long as the count of failures stays in its range.
record Ticked (st : PrivacyState) (now : ℕ) : Type 0 where
  clients_are : (tick st now).clients ≡ live st.liveness_timeout now st.clients
  failed_are :
      (tick st now).disconnected_clients
      ≡ st.disconnected_clients + lost st.liveness_timeout now st.clients
  latched_is :
      (tick st now).untrusted_failure_latched
      ≡ (st.untrusted_failure_latched || silent st.liveness_timeout now st.clients)
  enabled_is : (tick st now).enabled ≡ st.enabled

ticked : (st : PrivacyState) (now : ℕ) → Inv st → Ticked st now
unfolding tick
ticked st now v = record {
  clients_are = clients-sweep now st.clients st;
  failed_are =
      disconnected-sweep now st.clients st
        (omega (arith, v.counted, v.bounded, length-live st.liveness_timeout now st.clients));
  latched_is = latched-sweep now st.clients st;
  enabled_is = (sweep-Kept now st.clients st).enabled_kept;
}

-- After a tick the mode is SAFE exactly if it was SAFE before and every client has sent an update
-- within the timeout; so a client that falls silent ends the mode SAFE.
pub tick_safe_iff :
    (st : PrivacyState) (now : ℕ)
    → Inv st
    → (mode (tick st now) ≡ Mode.safe)
      ↔ ((mode st ≡ Mode.safe) × Each (IsLive st.liveness_timeout now) st.clients)
tick_safe_iff st now v = (to, from)
  where
    open (ticked st now v) use {clients_are, failed_are, latched_is, enabled_is}

    to :
        mode (tick st now) ≡ Mode.safe
        → (mode st ≡ Mode.safe) × Each (IsLive st.liveness_timeout now) st.clients
    to e =
        let (on, healthy, shown) = (mode_iff Mode.safe (tick st now)).0 e in
        let none_lost =
          (none_lost_iff st.liveness_timeout now st.clients).0
            (omega (arith, failed_are, healthy.1), ground (arith, latched_is, healthy.0)) in
        let same = clients_are ∙ live-all st.liveness_timeout now st.clients none_lost in
        (
          (mode_iff Mode.safe st).1 (
            sym enabled_is ∙ on,
            (ground (arith, latched_is, healthy.0), omega (arith, failed_are, healthy.1)),
            subst (Shown Mode.safe) same shown,
          ),
          none_lost,
        )

    from :
        (mode st ≡ Mode.safe) × Each (IsLive st.liveness_timeout now) st.clients
        → mode (tick st now) ≡ Mode.safe
    from (e, fresh) =
        let (on, healthy, shown) = (mode_iff Mode.safe st).0 e in
        let (no_lost, no_silent) = (none_lost_iff st.liveness_timeout now st.clients).1 fresh in
        let same = clients_are ∙ live-all st.liveness_timeout now st.clients fresh in
        (mode_iff Mode.safe (tick st now)).1 (
          enabled_is ∙ on,
          (ground (arith, latched_is), omega (arith, failed_are, healthy.1, no_lost)),
          subst (Shown Mode.safe) (sym same) shown,
        )

tick_disconnected :
    (st : PrivacyState) (id now : ℕ) (c : Client)
    → Inv st
    → st.enabled ≡ true
    → find id st.clients ≡ some c
    → is_expired st.liveness_timeout now c ≡ true
    → mode (tick st now) ≡ Mode.disconnected
tick_disconnected st id now c v on e x =
    let t = ticked st now v in
    (mode_iff Mode.disconnected (tick st now)).1 (
      t.enabled_is ∙ on,
      ground (
        arith,
        t.failed_are,
        t.latched_is,
        lost_of_expired st.liveness_timeout now id c st.clients e x,
      ),
    )

fail_connection_disconnected :
    (st : PrivacyState) (id : ℕ) (c : Client)
    → Inv st
    → st.enabled ≡ true
    → find id st.clients ≡ some c
    → mode (fail_connection st id) ≡ Mode.disconnected
fail_connection_disconnected st id c v on e =
    failure_cases (λ s. mode s ≡ Mode.disconnected) st id (λ absent. cc)
      (λ d _ told. (mode_iff Mode.disconnected _).1 (on, inr (omega (arith, v.counted, v.bounded))))
      (λ d _ mute. (mode_iff Mode.disconnected _).1 (on, inl refl))

-- While protection is enabled, losing a connection hides the output as disconnected, by a protocol
-- error and by a close without GOODBYE alike.
pub lost_connection_disconnects :
    (st : PrivacyState) (id : ℕ) (c : Client)
    → Inv st
    → st.enabled ≡ true
    → find id st.clients ≡ some c
    → (mode (protocol_error st id) ≡ Mode.disconnected)
      × (mode (connection_closed st id) ≡ Mode.disconnected)
unfolding protocol_error connection_closed
lost_connection_disconnects st id c v on e =
    (fail_connection_disconnected st id c v on e, fail_connection_disconnected st id c v on e)

-- While protection is enabled, a tick at which a client's last update is older than the timeout hides
-- the output as disconnected.
pub silent_client_disconnects :
    (st : PrivacyState) (id now : ℕ) (c : Client)
    → Inv st
    → st.enabled ≡ true
    → find id st.clients ≡ some c
    → c.last_update + st.liveness_timeout < now
    → mode (tick st now) ≡ Mode.disconnected
silent_client_disconnects st id now c v on e late =
    tick_disconnected st id now c v on e (ground arith)
