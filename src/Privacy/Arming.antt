-- ===== src/Privacy/Arming.antt =====
-- New connections, sensitive reports, and arming and disarming from OBS.
use mathlib.Core.Option
use obs_vscode_privacy_guard.Base.{
  Bool, Bool-cases, List, [], arith, false, if◌then◌else◌, inl, inr, ltb, map, none, refl, some,
  subst, true, ℕ, ◌==◌, ◌||◌, ◌∙◌, ◌∷◌, ◌≡◌, ◌≢◌, ◌⊎◌,
}
use obs_vscode_privacy_guard.Privacy.{
  Client, Clients, Mode, PrivacyState, connection_closed, connection_opened, find, mode, new_client,
  protocol_error, reset_client, same, set_enabled, tick,
}
use obs_vscode_privacy_guard.Privacy.Clients.{
  Each, Each-find, find-emplace, find-map-reset, find-none_of_le,
}
use obs_vscode_privacy_guard.Privacy.Outcomes.{
  failure_cases, goodbye_cases, hello_cases, state_cases,
}
use obs_vscode_privacy_guard.Privacy.History.{
  Call, closes, enables, errors, goodbyes, hellos, opens, run, states, step, ticks,
}
use obs_vscode_privacy_guard.Privacy.Invariant.{Inv}
use obs_vscode_privacy_guard.Privacy.Sweep.{sweep-Kept}
use obs_vscode_privacy_guard.Privacy.Modes.{IsPending, Reported, Some, mode_iff}

Each-Some :
    (id : ℕ) (P : Client → Type 0) (cs : Clients) (c : Client)
    → find id cs ≡ some c
    → P c
    → Some P cs
unfolding find
Each-Some id P [] c e p = cc
Each-Some id P ((key, d) ∷ cs) c e p = elim (Bool-cases (key == id)) [
  | inl hit ↦ inl (subst P (ground arith) p)
  | inr miss ↦ inr (Each-Some id P cs c (ground arith) p)
]

-- While protection is enabled, a client that has not both said HELLO and reported a state keeps the
-- output hidden, and so does one that has reported a sensitive file.
pub client_hides :
    (st : PrivacyState) (id : ℕ) (c : Client)
    → st.enabled ≡ true
    → find id st.clients ≡ some c
    → IsPending c ⊎ (c.sensitive ≡ some true)
    → (mode st ≢ Mode.safe) × (mode st ≢ Mode.disabled)
client_hides st id c on e why = (not_safe, λ m. cc ((mode_iff Mode.disabled st).0 m))
  where
    not_safe : mode st ≢ Mode.safe
    not_safe m =
        let (_, _, (_, all_safe)) = (mode_iff Mode.safe st).0 m in
        ground (arith, Each-find (λ _ d. Reported false d) id st.clients c all_safe e)

-- While protection is enabled, opening a connection hides the output at once: the mode is awaiting,
-- or disconnected if a failure is not made good yet.
pub connection_opened_hides :
    (st : PrivacyState) (now : ℕ)
    → Inv st
    → st.enabled ≡ true
    → mode (connection_opened st now).0 ≡ (
        if st.untrusted_failure_latched || ltb 0 st.disconnected_clients
        then Mode.disconnected
        else Mode.awaiting_connection)
unfolding connection_opened
connection_opened_hides st now v on = elim (Bool-cases failing) [
  | inl bad ↦ rw bad ((mode_iff Mode.disconnected next).1 (on, ground arith))
  | inr good ↦ rw good ((mode_iff Mode.awaiting_connection next).1 (on, ground arith, inr pending))
]
  where
    failing : Bool
    failing = st.untrusted_failure_latched || ltb 0 st.disconnected_clients

    next : PrivacyState
    next = (connection_opened st now).0

    pending : Some IsPending next.clients
    pending =
        Each-Some st.next_connection_id IsPending next.clients (new_client now)
          (find-emplace st.next_connection_id st.next_connection_id (new_client now) st.clients
              (find-none_of_le _ st.next_connection_id st.clients v.below (omega arith))
            ∙ ground arith)
          (inl refl)

reset-IsPending : (cs : Clients) → (map reset_client cs ≡ []) ⊎ Some IsPending (map reset_client cs)
reset-IsPending [] = inl refl
reset-IsPending ((id, c) ∷ cs) = inr (inl (inr refl))

same_self : (a b : Bool) → a ≡ b → same a b ≡ true
same_self true true e = refl
same_self false false e = refl
same_self true false e = cc
same_self false true e = cc

-- Setting the value that is set changes nothing.
set_enabled_same : (st : PrivacyState) (b : Bool) → st.enabled ≡ b → set_enabled st b ≡ st
unfolding set_enabled
set_enabled_same st b e = rw (same_self st.enabled b e)

unreported : (cs : Clients) → Each (λ _ c. c.sensitive ≡ none) (map reset_client cs)
unreported [] = tt
unreported ((id, c) ∷ cs) = (refl, unreported cs)

-- Arming after a disarming keeps the clients and forgets what each of them had reported and that
-- any had failed: the mode is awaiting, every client's report is missing, and no client is lost or
-- changed otherwise. Arming again changes nothing.
pub set_enabled_rearms :
    (st : PrivacyState)
    → st.enabled ≡ false
    → (mode (set_enabled st true) ≡ Mode.awaiting_connection)
      × Each (λ _ c. c.sensitive ≡ none) (set_enabled st true).clients
      × ((id : ℕ)
          → find id (set_enabled st true).clients
            ≡ Option.map (λ (c : Client). record c { sensitive = none }) (find id st.clients))
      × (set_enabled (set_enabled st true) true ≡ set_enabled st true)
unfolding set_enabled
set_enabled_rearms st off =
    let differs : same st.enabled true ≡ false = ground arith in
    rw differs (
      (mode_iff Mode.awaiting_connection _).1 (refl, (refl, refl), reset-IsPending st.clients),
      unreported st.clients,
      (λ id. find-map-reset id st.clients),
      refl,
    )

-- A history without `set_enabled`.
abbrev pub IsRemote : List Call → Type 0
IsRemote [] = Unit {0}
IsRemote (enables b ∷ calls) = ⊥
IsRemote (_ ∷ calls) = IsRemote calls

pub enabled-step :
    (st : PrivacyState) (call : Call) → IsRemote (call ∷ []) → (step st call).enabled ≡ st.enabled
unfolding step protocol_error connection_closed connection_opened tick
enabled-step st (enables b) h = absurd h
enabled-step st (opens now) h = refl
enabled-step st (hellos id client_id now) h =
    hello_cases (λ r. r.0.enabled ≡ st.enabled) st id client_id now refl (λ c e new free. refl)
enabled-step st (states id sequence reported now) h =
    state_cases (λ r. r.0.enabled ≡ st.enabled) st id sequence reported now refl
      (λ c e said fresh. refl)
enabled-step st (goodbyes id) h =
    goodbye_cases (λ r. r.0.enabled ≡ st.enabled) st id refl (λ c e said. refl)
enabled-step st (errors id) h =
    failure_cases (λ s. s.enabled ≡ st.enabled) st id (λ _. refl) (λ c e told. refl)
      (λ c e mute. refl)
enabled-step st (closes id) h =
    failure_cases (λ s. s.enabled ≡ st.enabled) st id (λ _. refl) (λ c e told. refl)
      (λ c e mute. refl)
enabled-step st (ticks now) h = (sweep-Kept now st.clients st).enabled_kept

pub IsRemote-cons :
    (call : Call) (calls : List Call)
    → IsRemote (call ∷ calls)
    → IsRemote (call ∷ []) × IsRemote calls
IsRemote-cons (enables b) calls h = absurd h
IsRemote-cons (opens now) calls h = (tt, h)
IsRemote-cons _ calls h = (tt, h)

-- No message, connection or passing of time arms or disarms the protection.
pub enabled-run :
    (st : PrivacyState) (calls : List Call) → IsRemote calls → (run st calls).enabled ≡ st.enabled
unfolding run
enabled-run st [] h = refl
enabled-run st (call ∷ calls) h =
    let (one, rest) = IsRemote-cons call calls h in
    enabled-run (step st call) calls rest ∙ enabled-step st call one
