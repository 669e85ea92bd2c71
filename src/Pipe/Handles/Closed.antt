-- ===== src/Pipe/Handles/Closed.antt =====
-- The pipes of a server through all that happens to it, up to a stop.
use obs_vscode_privacy_guard.Pipe.Handles.Tidy.{
  IsTidy, accept_pipe-IsTidy, end_all-IsBalanced, end_all-empty, end_worker-IsTidy,
}
use obs_vscode_privacy_guard.Base.{
  Bool, List, [], arith, false, if_cases, none, refl, subst, sym, ℕ, ◌∙◌, ◌≡◌,
}
use obs_vscode_privacy_guard.Privacy.{PrivacyState, same}
use obs_vscode_privacy_guard.Privacy.History.{Call, step}
use obs_vscode_privacy_guard.Pipe.Listener.{Answer, absent, begin_stop, ended, start}
use obs_vscode_privacy_guard.Pipe.Handles.{
  Pipes, accept_pipe, end_all, end_worker, join_pipes, make_pipes,
}
use obs_vscode_privacy_guard.Pipe.Handles.Counts.{
  IsBalanced, IsClosed, IsProper, closed, created, held_by_workers, owners,
}

-- What happens to a server: it is started once it is joined, its accept thread makes a step, calls
-- are made on the privacy state, the thread of a worker ends, and `stop` sets `running_` and, when
-- the accept thread has ended, joins the workers. A pipe that `CreateNamedPipeW` returns is not
-- open.
pub data Happens (p : Pipes) : Pipes → Type 0 where
  starts :
      (p.server.running ≡ false → p.server.accepter ≡ absent)
      → Happens p (record p { server = start p.server })
  accepts :
      (pipe : ℕ) (answer : Answer) → IsClosed pipe p.calls → Happens p (accept_pipe pipe answer p)
  works :
      (call : Call)
      → Happens p (record p {
        server = record p.server { privacy_state = step p.server.privacy_state call };
      })
  ends : (id : ℕ) → Happens p (end_worker id p)
  begins_stop : Happens p (record p { server = begin_stop p.server })
  joins : (calls : List Call) → p.server.accepter ≡ ended → Happens p (join_pipes calls p)

pub data Reaches (p : Pipes) : Pipes → Type 0 where
  here : Reaches p p
  next : {q q' : Pipes} → Reaches p q → Happens q q' → Reaches p q'

-- No pipe is left.
abbrev IsEmpty : Pipes → Type 0
IsEmpty p = (p.connecting_pipe ≡ none) × (p.held ≡ [])

-- The workers end, with no pipe left to the accept thread.
join_pipes-IsTidy :
    (calls : List Call) (p : Pipes)
    → IsTidy p
    → p.server.accepter ≡ ended
    → IsTidy (join_pipes calls p) × IsEmpty (join_pipes calls p)
unfolding join_pipes
join_pipes-IsTidy calls p v over =
    let gone = v.local (λ c. ground (arith, sym c ∙ over)) (λ c. ground (arith, sym c ∙ over)) in
    let (empty, same) = end_all-empty p.held p in
    (
      record {
        owned =
            subst
              (λ held. IsBalanced (end_all p.held p).connecting_pipe held (end_all p.held p).calls)
              (sym empty)
              (subst (λ local. IsBalanced local [] (end_all p.held p).calls) (sym same)
                (end_all-IsBalanced p.held p v.owned));
        local = λ _ _. same ∙ gone;
      },
      (same ∙ gone, empty),
    )

Happens-IsTidy : {p q : Pipes} → Happens p q → IsTidy p → IsTidy q
unfolding start
Happens-IsTidy {p} (starts joined) v =
    if_cases (λ s. IsTidy (record p { server = s })) p.server.running p.server _
      (λ _. record { owned = v.owned; local = v.local })
      (λ off.
        let gone =
          v.local (λ c. ground (arith, sym c ∙ joined off))
            (λ c. ground (arith, sym c ∙ joined off)) in
        record { owned = v.owned; local = λ _ _. gone })
Happens-IsTidy {p} (accepts pipe answer new) v = accept_pipe-IsTidy pipe answer p new v
Happens-IsTidy {p} (works call) v = record { owned = v.owned; local = v.local }
Happens-IsTidy {p} (ends id) v = end_worker-IsTidy id p v
Happens-IsTidy {p} begins_stop v = record { owned = v.owned; local = v.local }
Happens-IsTidy {p} (joins calls over) v = (join_pipes-IsTidy calls p v over).0

Reaches-IsTidy : (p : Pipes) {q : Pipes} → Reaches p q → IsTidy p → IsTidy q
Reaches-IsTidy p here h = h
Reaches-IsTidy p (next r happens) h = Happens-IsTidy happens (Reaches-IsTidy p r h)

make_pipes-IsTidy : (st : PrivacyState) (logs : Bool) → IsTidy (make_pipes st logs)
unfolding created closed held_by_workers
make_pipes-IsTidy st logs = record {
  owned = record { balanced = λ h. refl; single = λ h. omega arith; proper = tt };
  local = λ _ _. refl;
}

-- Whatever has happened to a server, with any number of starts and stops, once its accept thread
-- has ended and `stop` has joined its workers every pipe that it created is closed, as often as it
-- was created; and `DisconnectNamedPipe` and `CloseHandle` were only called on pipes that were
-- open, so none was closed twice or used after it was closed. `CreateNamedPipeW` is taken to return
-- no pipe that is open, and `start` is taken to be called only when no stop is under way.
pub pipes_closed :
    (st : PrivacyState) (logs : Bool) {p : Pipes} (calls : List Call)
    → Reaches (make_pipes st logs) p
    → p.server.accepter ≡ ended
    → IsProper (join_pipes calls p).calls
      × ((h : ℕ) → created h (join_pipes calls p).calls ≡ closed h (join_pipes calls p).calls)
unfolding held_by_workers
pipes_closed st logs {p = p} calls r over =
    let v = Reaches-IsTidy (make_pipes st logs) r (make_pipes-IsTidy st logs) in
    let (tidy, empty) = join_pipes-IsTidy calls p v over in
    let q = join_pipes calls p in
    (
      tidy.owned.proper,
      λ h.
          let owners_none : (owners h q.connecting_pipe q.held ≡ 0) = rw (empty.0, empty.1) refl in
          omega (arith, tidy.owned.balanced h, owners_none),
    )
