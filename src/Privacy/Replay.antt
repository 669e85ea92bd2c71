-- ===== src/Privacy/Replay.antt =====
-- `accept_sequence` on one connection over a history.
use obs_vscode_privacy_guard.Base.{
  ==_iff, Bool, Bool-cases, List, Option, Option-cases, [], arith, inl, inr, map, none, some, subst,
  true, u64_mod, ℕ, ◌+◌, ◌<◌, ◌==◌, ◌∷◌, ◌≡◌, ◌≤◌, ◌⊎◌,
}
use obs_vscode_privacy_guard.Privacy.{
  Client, Clients, PrivacyState, assign, connection_closed, connection_opened, emplace, erase, find,
  is_fresh, new_client, protocol_error, reset_client, state_received, tick,
}
use obs_vscode_privacy_guard.Privacy.Clients.{
  Distinct, Each-find, find-assign, find-emplace, find-erase, find-live, find-live-none,
  find-map-reset, find-none_of_le, live, reset,
}
use obs_vscode_privacy_guard.Privacy.Sweep.{clients-sweep}
use obs_vscode_privacy_guard.Privacy.Outcomes.{
  enable_cases, failure_cases, goodbye_cases, greeted, hello_cases, state_cases, updated,
}
use obs_vscode_privacy_guard.Privacy.History.{
  Call, closes, enables, errors, goodbyes, hellos, opens, run, states, step, ticks,
}
use obs_vscode_privacy_guard.Privacy.Invariant.{Inv}
use obs_vscode_privacy_guard.Privacy.Preserved.{next-step, opened, opened-cons, step-Inv}

-- The last sequence that the client has sent is `n` or above.
abbrev pub Above : ℕ → Option ℕ → Type 0
Above n none = ⊥
Above n (some m) = n ≤ m

-- The connection is gone, or its sequences have reached `n`.
abbrev FloorIn : ℕ → ℕ → Clients → Type 0
FloorIn id n cs =
    (find id cs ≡ none) ⊎ ((c : Client) × (find id cs ≡ some c) × Above n c.last_sequence)

FloorIn-assign :
    (id n key : ℕ) (c d : Client) (cs : Clients)
    → find key cs ≡ some c
    → (Above n c.last_sequence → Above n d.last_sequence)
    → FloorIn id n cs
    → FloorIn id n (assign key d cs)
FloorIn-assign id n key c d cs e up (inl gone) = inl (ground (arith, find-assign id key d cs))
FloorIn-assign id n key c d cs e up (inr (b, eb, above)) = elim (Bool-cases (key == id)) [
  | inl hit ↦
      let same_key = (==_iff key id).0 hit in
      let same_client : b ≡ c = cc in
      inr (
        d,
        ground (arith, find-assign id key d cs),
        up (subst (λ x. Above n x.last_sequence) same_client above),
      )
  | inr miss ↦ inr (b, ground (arith, find-assign id key d cs), above)
]

FloorIn-erase :
    (id n key : ℕ) (cs : Clients) → Distinct cs → FloorIn id n cs → FloorIn id n (erase key cs)
FloorIn-erase id n key cs dist (inl gone) = inl (ground (arith, find-erase id key cs dist))
FloorIn-erase id n key cs dist (inr (b, eb, above)) = elim (Bool-cases (key == id)) [
  | inl hit ↦ inl (ground (arith, find-erase id key cs dist))
  | inr miss ↦ inr (b, ground (arith, find-erase id key cs dist), above)
]

FloorIn-live :
    (id n timeout now : ℕ) (cs : Clients)
    → Distinct cs
    → FloorIn id n cs
    → FloorIn id n (live timeout now cs)
FloorIn-live id n timeout now cs dist (inl gone) = inl (find-live-none id timeout now cs gone)
FloorIn-live id n timeout now cs dist (inr (b, eb, above)) =
    elim (Option-cases (find id (live timeout now cs))) [
      | inl gone ↦ inl gone
      | inr (d, ed) ↦
          let (there, _) = find-live id timeout now cs d dist ed in
          let same_client : b ≡ d = cc in
          inr (d, ed, subst (λ x. Above n x.last_sequence) same_client above)
    ]

FloorIn-map_reset : (id n : ℕ) (cs : Clients) → FloorIn id n cs → FloorIn id n (map reset_client cs)
FloorIn-map_reset id n cs (inl gone) = inl (ground (arith, find-map-reset id cs))
FloorIn-map_reset id n cs (inr (b, eb, above)) =
    inr (reset b, ground (arith, find-map-reset id cs), above)

FloorIn-emplace :
    (id n next now : ℕ) (cs : Clients)
    → find next cs ≡ none
    → id < next
    → FloorIn id n cs
    → FloorIn id n (emplace next (new_client now) cs)
FloorIn-emplace id n next now cs absent lt (inl gone) =
    inl (ground (arith, find-emplace id next (new_client now) cs absent))
FloorIn-emplace id n next now cs absent lt (inr (b, eb, above)) =
    inr (b, ground (arith, find-emplace id next (new_client now) cs absent), above)

abbrev Floor : ℕ → ℕ → PrivacyState → Type 0
Floor id n st = FloorIn id n st.clients

fresh-Above :
    (n sequence : ℕ) (last : Option ℕ) → is_fresh last sequence ≡ true → Above n last → n < sequence
fresh-Above n sequence none h a = absurd a
fresh-Above n sequence (some m) h a = ground arith

step-Floor :
    (id n : ℕ) (st : PrivacyState) (call : Call)
    → Inv st
    → id < st.next_connection_id
    → Floor id n st
    → Floor id n (step st call)
unfolding step protocol_error connection_closed connection_opened tick
step-Floor id n st (enables b) v lt f =
    enable_cases (Floor id n) st b (λ _. f) (λ _. f) (λ _. FloorIn-map_reset id n st.clients f)
step-Floor id n st (opens now) v lt f =
    FloorIn-emplace id n st.next_connection_id now st.clients
      (find-none_of_le _ st.next_connection_id st.clients v.below (omega arith)) lt f
step-Floor id n st (hellos key client_id now) v lt f =
    hello_cases (λ r. Floor id n r.0) st key client_id now f
      λ c e new free. FloorIn-assign id n key c (greeted c client_id now) st.clients e (λ a. a) f
step-Floor id n st (states key sequence reported now) v lt f =
    state_cases (λ r. Floor id n r.0) st key sequence reported now f
      λ c e said fresh.
        FloorIn-assign id n key c (updated c sequence reported now) st.clients e
          (λ a. omega (arith, fresh-Above n sequence c.last_sequence fresh a)) f
step-Floor id n st (goodbyes key) v lt f =
    goodbye_cases (λ r. Floor id n r.0) st key f
      (λ c e said. FloorIn-erase id n key st.clients v.distinct f)
step-Floor id n st (errors key) v lt f =
    failure_cases (Floor id n) st key (λ _. f)
      (λ c e told. FloorIn-erase id n key st.clients v.distinct f)
      (λ c e mute. FloorIn-erase id n key st.clients v.distinct f)
step-Floor id n st (closes key) v lt f =
    failure_cases (Floor id n) st key (λ _. f)
      (λ c e told. FloorIn-erase id n key st.clients v.distinct f)
      (λ c e mute. FloorIn-erase id n key st.clients v.distinct f)
step-Floor id n st (ticks now) v lt f =
    rw (clients-sweep now st.clients st)
      (FloorIn-live id n st.liveness_timeout now st.clients v.distinct f)

run-Floor :
    (id n : ℕ) (st : PrivacyState) (calls : List Call)
    → Inv st
    → st.next_connection_id + opened calls < u64_mod
    → id < st.next_connection_id
    → Floor id n st
    → Floor id n (run st calls)
unfolding run
run-Floor id n st [] v room lt f = f
run-Floor id n st (call ∷ calls) v room lt f =
    let split = opened-cons call calls in
    let next = next-step st call (omega arith) in
    run-Floor id n (step st call) calls (step-Inv st call (omega arith) v) (omega (arith, next))
      (omega (arith, next)) (step-Floor id n st call v lt f)

-- What an accepted STATE needed and leaves behind.
accepted_state :
    (st : PrivacyState) (id sequence : ℕ) (reported : Bool) (now : ℕ)
    → (state_received st id sequence reported now).1 ≡ true
    → (c : Client) × (find id st.clients ≡ some c)
      × (is_fresh c.last_sequence sequence ≡ true)
      × Floor id sequence (state_received st id sequence reported now).0
accepted_state st id sequence reported now =
    state_cases
      (λ r.
        r.1 ≡ true
        → (c : Client) × (find id st.clients ≡ some c)
          × (is_fresh c.last_sequence sequence ≡ true)
          × Floor id sequence r.0)
      st id sequence reported now (λ e. cc)
      λ c e said fresh _. (
        c,
        e,
        fresh,
        inr (
          updated c sequence reported now,
          ground (arith, find-assign id id (updated c sequence reported now) st.clients),
          omega arith,
        ),
      )

-- Once a STATE with sequence `n` is accepted on a connection, whatever calls follow, a STATE accepted
-- on that connection later has a greater sequence: no replayed or reordered one gets through.
pub replay_rejected :
    (st : PrivacyState) (id n m : ℕ) (b b' : Bool) (now later : ℕ) (calls : List Call)
    → Inv st
    → st.next_connection_id + opened calls < u64_mod
    → (state_received st id n b now).1 ≡ true
    → (state_received (run (state_received st id n b now).0 calls) id m b' later).1 ≡ true
    → n < m
unfolding step
replay_rejected st id n m b b' now later calls v room first second =
    let call = states id n b now in
    let (c, e, _, floor) = accepted_state st id n b now first in
    let lt : id < st.next_connection_id = Each-find _ id st.clients c v.below e in
    let next = next-step st call (omega arith) in
    let floor' =
      run-Floor id n (step st call) calls (step-Inv st call (omega arith) v) (omega (arith, next))
        (omega (arith, next)) floor in
    let (d, e', fresh, _) = accepted_state (run (step st call) calls) id m b' later second in
    above d e' fresh floor'
  where
    above :
        (d : Client)
        → find id (run (step st (states id n b now)) calls).clients ≡ some d
        → is_fresh d.last_sequence m ≡ true
        → Floor id n (run (step st (states id n b now)) calls)
        → n < m
    above d e' fresh (inl gone) = cc
    above d e' fresh (inr (x, ex, a)) =
        let same_client : x ≡ d = cc in
        fresh-Above n m d.last_sequence fresh (subst (λ y. Above n y.last_sequence) same_client a)
