-- ===== src/Pipe/Listener/Owned.antt =====
-- The entries of the privacy state and the workers of a running server.
use obs_vscode_privacy_guard.Base.{
  Bool, Bool-cases, List, [], arith, false, if_cases, inl, inr, none, refl, some, subst, sym, true,
  u64_mod, ℕ, ◌&&◌, ◌++◌, ◌+◌, ◌<◌, ◌==◌, ◌∙◌, ◌∷◌, ◌≡◌, ◌≢◌, ◌⊎◌,
}
use obs_vscode_privacy_guard.Privacy.{
  Client, Clients, PrivacyState, connection_opened, find, make_state, new_client,
}
use obs_vscode_privacy_guard.Privacy.Absent.{IsWork, find-emplace-other, step-none}
use obs_vscode_privacy_guard.Privacy.History.{
  Call, closes, enables, errors, goodbyes, hellos, opens, run, states, step, ticks,
}
use obs_vscode_privacy_guard.Privacy.Preserved.{next-step, opened, opened-cons}
use obs_vscode_privacy_guard.Privacy.Distinctness.{run-Distinct}
use obs_vscode_privacy_guard.Pipe.{Round, Schedule, process_connection}
use obs_vscode_privacy_guard.Pipe.Cleanup.{process_connection-gone}
use obs_vscode_privacy_guard.Pipe.Listener.{
  Accepter, Answer, LogEntry, Server, Thread, absent, accept_from, accept_step, add_worker, at_head,
  connecting, creating, ended, fails, finish_worker, make_server, opening, remove_completed, start,
  succeeds, time_of, write_log,
}

-- A thread that serves the connection.
abbrev pub Serves : ℕ → Thread → Type 0
Serves id t = (t.connection_id ≡ id) × (t.finished ≡ false)

abbrev pub HasWorker : ℕ → List Thread → Type 0
HasWorker id [] = ⊥
HasWorker id (t ∷ ts) = Serves id t ⊎ HasWorker id ts

HasWorker-remove_completed :
    (id : ℕ) (ts : List Thread) → HasWorker id ts → HasWorker id (remove_completed ts)
unfolding remove_completed
HasWorker-remove_completed id [] h = h
HasWorker-remove_completed id (t ∷ ts) h = ground (arith, HasWorker-remove_completed id ts)

HasWorker-append :
    (id : ℕ) (ts us : List Thread) → HasWorker id ts ⊎ HasWorker id us → HasWorker id (ts ++ us)
HasWorker-append id [] us h = ground arith
HasWorker-append id (t ∷ ts) us h = ground (arith, HasWorker-append id ts us)

HasWorker-finish_worker :
    (id j : ℕ) (ts : List Thread) → id ≢ j → HasWorker id ts → HasWorker id (finish_worker j ts)
unfolding finish_worker
HasWorker-finish_worker id j [] ne h = h
HasWorker-finish_worker id j (t ∷ ts) ne h = ground (arith, HasWorker-finish_worker id j ts)

-- What happens to a server that is not stopped: it is started, its accept thread goes on, a worker
-- or another part of the plugin calls the privacy state, and a worker finishes:
-- `process_connection` has returned while the server runs, whatever rounds it made and whatever
-- other threads did, and since then others may have made further calls. The calls of the worker
-- itself are among those of `works`.
pub data Happens (v : Server) : Server → Type 0 where
  starts : Happens v (start v)
  accepts : (answer : Answer) → Happens v (accept_step answer v)
  works :
      (call : Call)
      → IsWork call
      → Happens v (record v { privacy_state = step v.privacy_state call })
  finishes :
      (s : Schedule) (id : ℕ) (rounds : List Round) (timeout : ℕ) (calls later : List Call)
      → (let returned =
            (process_connection s id rounds true (run (make_state timeout) calls)).shared in
          (v.privacy_state ≡ run returned later)
          × (id < returned.next_connection_id)
          × (returned.next_connection_id + opened later < u64_mod))
      → Happens v (record v { workers = finish_worker id v.workers })

pub data Reaches (v : Server) : Server → Type 0 where
  here : Reaches v v
  next : {u u' : Server} → Reaches v u → Happens u u' → Reaches v u'

-- No later call brings back the entry of a connection whose number was handed out before.
step-gone :
    (st : PrivacyState) (call : Call) (id : ℕ)
    → id < st.next_connection_id
    → find id st.clients ≡ none
    → find id (step st call).clients ≡ none
unfolding step connection_opened
step-gone st (opens now) id handed_out e =
    find-emplace-other id st.next_connection_id (new_client now) st.clients
      (λ same. omega (arith, same, handed_out))
    ∙ e
step-gone st (enables b) id handed_out e = step-none st (enables b) id tt e
step-gone st (hellos j client_id now) id handed_out e =
    step-none st (hellos j client_id now) id tt e
step-gone st (states j sequence reported now) id handed_out e =
    step-none st (states j sequence reported now) id tt e
step-gone st (goodbyes j) id handed_out e = step-none st (goodbyes j) id tt e
step-gone st (errors j) id handed_out e = step-none st (errors j) id tt e
step-gone st (closes j) id handed_out e = step-none st (closes j) id tt e
step-gone st (ticks now) id handed_out e = step-none st (ticks now) id tt e

run-gone :
    (calls : List Call) (st : PrivacyState) (id : ℕ)
    → id < st.next_connection_id
    → st.next_connection_id + opened calls < u64_mod
    → find id st.clients ≡ none
    → find id (run st calls).clients ≡ none
unfolding run
run-gone [] st id handed_out room e = e
run-gone (call ∷ calls) st id handed_out room e =
    let split = opened-cons call calls in
    let advanced = next-step st call (omega arith) in
    run-gone calls (step st call) id (omega arith) (omega arith) (step-gone st call id handed_out e)

abbrev pub IsOwned : Clients → List Thread → Type 0
IsOwned cs ts = (id : ℕ) → find id cs ≢ none → HasWorker id ts

add_worker-IsOwned :
    (now : ℕ) (v : Server)
    → IsOwned v.privacy_state.clients v.workers
    → IsOwned (add_worker now v).privacy_state.clients (add_worker now v).workers
unfolding add_worker connection_opened
add_worker-IsOwned now v h id present =
    let st = v.privacy_state in
    let ts = remove_completed v.workers in
    elim (Bool-cases (id == st.next_connection_id)) [
      | inl new ↦
          HasWorker-append id ts
            (record { connection_id = st.next_connection_id; finished = false } ∷ [])
            (inr (inl (ground arith, refl)))
      | inr old ↦
          let other =
            find-emplace-other id st.next_connection_id (new_client now) st.clients
              (ground arith) in
          HasWorker-append id ts
            (record { connection_id = st.next_connection_id; finished = false } ∷ [])
            (inl (HasWorker-remove_completed id v.workers (h id (λ e. present (other ∙ e)))))
    ]

abbrev IsOwnedServer : Server → Type 0
IsOwnedServer v = IsOwned v.privacy_state.clients v.workers

write_log-IsOwned :
    (b : Bool) (entry : LogEntry) (v : Server)
    → IsOwnedServer v
    → IsOwnedServer (write_log b entry v)
write_log-IsOwned b entry v h = if_cases IsOwnedServer b _ v (λ _. h) (λ _. h)

accept_from-IsOwned :
    (k : Accepter) (answer : Answer) (v : Server)
    → IsOwnedServer v
    → IsOwnedServer (accept_from k answer v)
unfolding accept_from
accept_from-IsOwned absent answer v h = h
accept_from-IsOwned ended answer v h = h
accept_from-IsOwned at_head answer v h = if_cases IsOwnedServer v.running _ _ (λ _. h) (λ _. h)
accept_from-IsOwned creating (fails code now) v h =
    write_log-IsOwned v.logs _ (record v { accepter = at_head }) h
accept_from-IsOwned creating (succeeds now) v h = h
accept_from-IsOwned connecting (fails code now) v h =
    write_log-IsOwned (v.running && v.logs) _ (record v { accepter = at_head }) h
accept_from-IsOwned connecting (succeeds now) v h =
    if_cases IsOwnedServer v.running _ _ (λ _. h) (λ _. h)
accept_from-IsOwned opening answer v h = add_worker-IsOwned (time_of answer) v h

Happens-IsOwned : {v u : Server} → Happens v u → IsOwnedServer v → IsOwnedServer u
unfolding start accept_step
Happens-IsOwned {v} starts h = if_cases IsOwnedServer v.running v _ (λ _. h) (λ _. h)
Happens-IsOwned {v} (accepts answer) h = accept_from-IsOwned v.accepter answer v h
Happens-IsOwned {v} (works call work) h =
    λ id present. h id (λ e. present (step-none v.privacy_state call id work e))
Happens-IsOwned {v} (finishes s j rounds timeout calls later (is_run, handed_out, room)) h =
    λ id present.
      let st = run (make_state timeout) calls in
      let returned = (process_connection s j rounds true st).shared in
      let gone : (find j v.privacy_state.clients ≡ none) = rw is_run (
        run-gone later returned j handed_out room
          (process_connection-gone s j rounds st (run-Distinct (make_state timeout) calls tt))) in
      HasWorker-finish_worker id j v.workers
        (λ e. present (subst (λ k. find k v.privacy_state.clients ≡ none) (sym e) gone))
        (h id present)

Reaches-IsOwned : (v : Server) {u : Server} → Reaches v u → IsOwnedServer v → IsOwnedServer u
Reaches-IsOwned v here h = h
Reaches-IsOwned v (next r step) h = Happens-IsOwned step (Reaches-IsOwned v r h)

-- From a new server on a new privacy state, through any starts, steps of the accept thread, calls
-- on the privacy state and ends of workers, each behind its `process_connection`, while the numbers
-- of connections do not wrap, and until the server is stopped: a connection that has an entry in
-- the privacy state has a worker in the list that has not finished. So an entry is always one that
-- a worker still answers for, and the list never drops that worker.
pub entry-HasWorker :
    (timeout : ℕ) (logs : Bool) {v : Server} (id : ℕ) (c : Client)
    → Reaches (make_server (make_state timeout) logs) v
    → find id v.privacy_state.clients ≡ some c
    → HasWorker id v.workers
unfolding find
entry-HasWorker timeout logs id c r e =
    Reaches-IsOwned (make_server (make_state timeout) logs) r (λ j present. absurd (present refl))
      id (λ absent. cc)
