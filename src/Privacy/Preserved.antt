-- ===== src/Privacy/Preserved.antt =====
-- The invariant under every call.
use obs_vscode_privacy_guard.Base.{
  Bool, Bytes, List, [], arith, refl, u64_mod, ℕ, ◌%◌, ◌+◌, ◌<◌, ◌∷◌, ◌≡◌, ◌≤◌,
}
use obs_vscode_privacy_guard.Privacy.{
  Clients, PrivacyState, connection_closed, connection_opened, fail_connection, find,
  goodbye_received, hello_received, make_state, protocol_error, set_enabled, state_received, tick,
}
use obs_vscode_privacy_guard.Privacy.Clients.{Each-find}
use obs_vscode_privacy_guard.Privacy.Sweep.{
  clients-sweep, disconnected-sweep, length-live, sweep-Kept,
}
use obs_vscode_privacy_guard.Privacy.Outcomes.{
  enable_cases, failure_cases, goodbye_cases, hello_cases, state_cases, updated,
}
use obs_vscode_privacy_guard.Privacy.Invariant.{
  Inv, Sound, Sound-assign, Sound-emplace, Sound-erase, Sound-live, Sound-map_reset, not-is_taken,
}
use obs_vscode_privacy_guard.Privacy.History.{
  Call, closes, enables, errors, goodbyes, hellos, opens, run, states, step, ticks,
}

set_enabled-Inv : (st : PrivacyState) (b : Bool) → Inv st → Inv (set_enabled st b)
set_enabled-Inv st b v =
    enable_cases Inv st b (λ _. v) (λ _. v) (λ _. Sound-map_reset _ _ st.clients v)

connection_opened-Inv :
    (st : PrivacyState) (now : ℕ)
    → st.next_connection_id + 1 < u64_mod
    → Inv st
    → Inv (connection_opened st now).0
unfolding connection_opened
connection_opened-Inv st now room v =
    let e : (st.next_connection_id + 1) % u64_mod ≡ st.next_connection_id + 1 = omega arith in
    rw e (Sound-emplace _ _ now st.clients v room)

hello_received-Inv :
    (st : PrivacyState) (id : ℕ) (client_id : Bytes) (now : ℕ)
    → Inv st
    → Inv (hello_received st id client_id now).0
hello_received-Inv st id client_id now v =
    hello_cases (λ r. Inv r.0) st id client_id now v
      λ c e new free.
        Sound-assign _ _ id _ st.clients v (Each-find _ id st.clients c v.below e)
          (λ h. ground (arith, Each-find _ id st.clients c v.reported e h))
          (λ j d ne ed hd _. not-is_taken id j client_id st.clients d free ed ne hd)

Sound-recovered :
    (next failed failed' : ℕ) (cs : Clients)
    → failed' ≤ failed
    → Sound next failed cs
    → Sound next failed' cs
Sound-recovered next failed failed' cs le v = record {
  distinct = v.distinct;
  below = v.below;
  reported = v.reported;
  unique = v.unique;
  counted = omega (arith, v.counted);
  bounded = v.bounded;
}

pub state_received-Inv :
    (st : PrivacyState) (id sequence : ℕ) (reported : Bool) (now : ℕ)
    → Inv st
    → Inv (state_received st id sequence reported now).0
state_received-Inv st id sequence reported now v =
    state_cases (λ r. Inv r.0) st id sequence reported now v
      λ c e said fresh. Sound-recovered _ st.disconnected_clients _ _ (ground arith) (
        Sound-assign _ _ id (updated c sequence reported now) st.clients v
          (Each-find _ id st.clients c v.below e) (λ h. (refl, refl))
          (λ j d ne ed hd hc same_id. ne (v.unique j id d c ed e hd said same_id)))

goodbye_received-Inv : (st : PrivacyState) (id : ℕ) → Inv st → Inv (goodbye_received st id).0
goodbye_received-Inv st id v =
    goodbye_cases (λ r. Inv r.0) st id v
      λ c e said. Sound-erase _ _ _ id c st.clients v e (omega arith)

pub fail_connection-Inv : (st : PrivacyState) (id : ℕ) → Inv st → Inv (fail_connection st id)
fail_connection-Inv st id v =
    failure_cases Inv st id (λ _. v)
      (λ c e told. Sound-erase _ _ _ id c st.clients v e (omega (arith, v.counted, v.bounded)))
      (λ c e mute. Sound-erase _ _ _ id c st.clients v e (omega arith))

pub tick-Inv : (st : PrivacyState) (now : ℕ) → Inv st → Inv (tick st now)
unfolding tick
tick-Inv st now v =
    let kept = sweep-Kept now st.clients st in
    let few = length-live st.liveness_timeout now st.clients in
    rw
      (
        kept.next_kept,
        clients-sweep now st.clients st,
        disconnected-sweep now st.clients st (omega (arith, few, v.counted, v.bounded)),
      )
      (Sound-live _ _ st.liveness_timeout now st.clients v)

-- The numbers of connections that the calls open.
abbrev pub opened : List Call → ℕ
opened [] = 0
opened (opens now ∷ calls) = opened calls + 1
opened (_ ∷ calls) = opened calls

-- A call keeps the invariant, as long as the counter of connections has room for those it opens.
pub step-Inv :
    (st : PrivacyState) (call : Call)
    → st.next_connection_id + opened (call ∷ []) < u64_mod
    → Inv st
    → Inv (step st call)
unfolding step protocol_error connection_closed
step-Inv st (enables b) room v = set_enabled-Inv st b v
step-Inv st (opens now) room v = connection_opened-Inv st now room v
step-Inv st (hellos id client_id now) room v = hello_received-Inv st id client_id now v
step-Inv st (states id sequence reported now) room v =
    state_received-Inv st id sequence reported now v
step-Inv st (goodbyes id) room v = goodbye_received-Inv st id v
step-Inv st (errors id) room v = fail_connection-Inv st id v
step-Inv st (closes id) room v = fail_connection-Inv st id v
step-Inv st (ticks now) room v = tick-Inv st now v

make_state-Inv : (timeout : ℕ) → Inv (make_state timeout)
make_state-Inv timeout = record {
  distinct = tt;
  below = tt;
  reported = tt;
  unique = λ i j c d e. unfold find in cc;
  counted = omega arith;
  bounded = omega arith;
}

pub next-step :
    (st : PrivacyState) (call : Call)
    → st.next_connection_id + opened (call ∷ []) < u64_mod
    → (step st call).next_connection_id ≡ st.next_connection_id + opened (call ∷ [])
unfolding step protocol_error connection_closed connection_opened tick
next-step st (enables b) h =
    enable_cases (λ s. s.next_connection_id ≡ st.next_connection_id + 0) st b (λ _. omega arith)
      (λ _. omega arith) (λ _. omega arith)
next-step st (opens now) h = omega arith
next-step st (hellos id client_id now) h =
    hello_cases (λ r. r.0.next_connection_id ≡ st.next_connection_id + 0) st id client_id now
      (omega arith) (λ c e new free. omega arith)
next-step st (states id sequence reported now) h =
    state_cases (λ r. r.0.next_connection_id ≡ st.next_connection_id + 0) st id sequence reported
      now (omega arith) (λ c e said fresh. omega arith)
next-step st (goodbyes id) h =
    goodbye_cases (λ r. r.0.next_connection_id ≡ st.next_connection_id + 0) st id (omega arith)
      (λ c e said. omega arith)
next-step st (errors id) h =
    failure_cases (λ s. s.next_connection_id ≡ st.next_connection_id + 0) st id (λ _. omega arith)
      (λ c e told. omega arith) (λ c e mute. omega arith)
next-step st (closes id) h =
    failure_cases (λ s. s.next_connection_id ≡ st.next_connection_id + 0) st id (λ _. omega arith)
      (λ c e told. omega arith) (λ c e mute. omega arith)
next-step st (ticks now) h = omega (arith, (sweep-Kept now st.clients st).next_kept)

pub opened-cons :
    (call : Call) (calls : List Call) → opened (call ∷ calls) ≡ opened (call ∷ []) + opened calls
opened-cons (opens now) calls = omega arith
opened-cons (enables b) calls = omega arith
opened-cons _ calls = omega arith

pub run-Inv :
    (st : PrivacyState) (calls : List Call)
    → st.next_connection_id + opened calls < u64_mod
    → Inv st
    → Inv (run st calls)
unfolding run
run-Inv st [] room v = v
run-Inv st (call ∷ calls) room v =
    let split = opened-cons call calls in
    let next = next-step st call (omega arith) in
    run-Inv (step st call) calls (omega (arith, next)) (step-Inv st call (omega arith) v)

-- After every history with fewer than 2^64 - 1 connections, connection numbers are distinct and were
-- handed out, no two connections share an identity, a client with a state has said HELLO and has a
-- last sequence, and failures and clients together are at most as many as the numbers that were handed
-- out, that is, fewer than the next number.
pub run-make_state-Inv :
    (timeout : ℕ) (calls : List Call)
    → opened calls + 1 < u64_mod
    → Inv (run (make_state timeout) calls)
run-make_state-Inv timeout calls room =
    run-Inv (make_state timeout) calls (omega arith) (make_state-Inv timeout)
