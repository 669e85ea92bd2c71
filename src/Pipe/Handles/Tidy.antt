-- ===== src/Pipe/Handles/Tidy.antt =====
-- The pipes of a server under the steps of its accept thread and the ends of its workers.
use obs_vscode_privacy_guard.Base.{
  Bool-cases, List, Option, Option-cases, [], arith, inl, inr, none, refl, some, ℕ, ◌∷◌, ◌≡◌, ◌≢◌,
}
use obs_vscode_privacy_guard.Pipe.Handles.{
  PipeCall, Pipes, accept_pipe, accept_pipe_from, close_pipe, end_all, end_worker, pipe_of,
}
use obs_vscode_privacy_guard.Pipe.Handles.Counts.{
  IsBalanced, IsBalanced-close, IsBalanced-create, IsBalanced-end, IsClosed, held_by_workers,
  held_by_workers-release,
}
use obs_vscode_privacy_guard.Pipe.Listener.{
  Accepter, Answer, Server, absent, accept_from, accept_step, at_head, connecting, creating, ended,
  fails, opening, succeeds,
}

-- The calls are those of the owners, and the accept thread has no pipe unless it waits for a client or
-- opens the connection of one.
pub record IsTidy (p : Pipes) : Type 0 where
  pub owned : IsBalanced p.connecting_pipe p.held p.calls
  pub local :
      p.server.accepter ≢ connecting → p.server.accepter ≢ opening → p.connecting_pipe ≡ none

-- What an accept step makes of pipes that are balanced.
abbrev pub Accepted : Accepter → Answer → Server → Pipes → Type 0
Accepted k answer v p =
    IsBalanced p.connecting_pipe p.held p.calls
    × ((accept_from k answer v).accepter ≢ connecting
        → (accept_from k answer v).accepter ≢ opening
        → p.connecting_pipe ≡ none)

pub hand_over :
    (id pipe : ℕ) (held : List (ℕ × ℕ)) (calls : List PipeCall)
    → IsBalanced (some pipe) held calls
    → IsBalanced none ((id, pipe) ∷ held) calls
unfolding held_by_workers
hand_over id pipe held calls v = record {
  balanced = λ h. omega (arith, v.balanced h);
  single = λ h. omega (arith, v.single h);
  proper = v.proper;
}

pub accept_pipe_from-Accepted :
    (k : Accepter) (local : Option ℕ) (pipe : ℕ) (answer : Answer) (p : Pipes)
    → IsClosed pipe p.calls
    → IsBalanced local p.held p.calls
    → (k ≢ connecting → k ≢ opening → local ≡ none)
    → Accepted k answer p.server
        (accept_pipe_from k local pipe answer (record p { connecting_pipe = local }))
unfolding accept_pipe_from accept_from
accept_pipe_from-Accepted absent local pipe answer p new v h =
    (v, λ _ _. h (λ e. ground (arith, e)) (λ e. ground (arith, e)))
accept_pipe_from-Accepted ended local pipe answer p new v h =
    (v, λ _ _. h (λ e. ground (arith, e)) (λ e. ground (arith, e)))
accept_pipe_from-Accepted at_head local pipe answer p new v h =
    (v, λ _ _. h (λ e. ground (arith, e)) (λ e. ground (arith, e)))
accept_pipe_from-Accepted creating local pipe (fails code now) p new v h =
    (v, λ _ _. h (λ e. ground (arith, e)) (λ e. ground (arith, e)))
accept_pipe_from-Accepted creating (some c) pipe (succeeds now) p new v h =
    absurd (ground (arith, h (λ e. ground (arith, e)) (λ e. ground (arith, e))))
accept_pipe_from-Accepted creating none pipe (succeeds now) p new v h =
    (IsBalanced-create pipe p.held p.calls new v, λ ne _. absurd (ne refl))
accept_pipe_from-Accepted connecting none pipe (fails code now) p new v h = (v, λ _ _. refl)
accept_pipe_from-Accepted connecting none pipe (succeeds now) p new v h = (v, λ _ _. refl)
accept_pipe_from-Accepted connecting (some c) pipe (fails code now) p new v h =
    (IsBalanced-close c (λ k. omega arith) v, λ _ _. refl)
accept_pipe_from-Accepted connecting (some c) pipe (succeeds now) p new v h =
    elim (Bool-cases p.server.running) [
      | inl on ↦ rw on (v, λ _ ne. absurd (ne refl))
      | inr off ↦ rw off (IsBalanced-end c (λ k. omega arith) v, λ _ _. refl)
    ]
accept_pipe_from-Accepted opening none pipe answer p new v h = (v, λ _ _. refl)
accept_pipe_from-Accepted opening (some c) pipe answer p new v h =
    (hand_over p.server.privacy_state.next_connection_id c p.held p.calls v, λ _ _. refl)

pub accept_pipe-IsTidy :
    (pipe : ℕ) (answer : Answer) (p : Pipes)
    → IsClosed pipe p.calls
    → IsTidy p
    → IsTidy (accept_pipe pipe answer p)
unfolding accept_pipe accept_step
accept_pipe-IsTidy pipe answer p new v =
    let (owned, local) =
      accept_pipe_from-Accepted p.server.accepter p.connecting_pipe pipe answer p new v.owned
        v.local in
    record { owned = owned; local = local }

pub end_worker-IsTidy : (id : ℕ) (p : Pipes) → IsTidy p → IsTidy (end_worker id p)
unfolding end_worker
end_worker-IsTidy id p v = elim (Option-cases (pipe_of id p.held)) [
  | inl e ↦ rw (e, end_worker) v
  | inr (c, e) ↦
      rw (e, end_worker)
        (record {
          owned =
              IsBalanced-end c (λ h. omega (arith, held_by_workers-release h id c p.held e))
                v.owned;
          local = v.local;
        })
]

-- Once all workers have ended, each pipe is closed but for that of the accept thread.
pub end_all-IsBalanced :
    (held : List (ℕ × ℕ)) (p : Pipes)
    → IsBalanced p.connecting_pipe held p.calls
    → IsBalanced p.connecting_pipe [] (end_all held p).calls
unfolding end_all held_by_workers
end_all-IsBalanced [] p v = v
end_all-IsBalanced ((id, pipe) ∷ held) p v =
    end_all-IsBalanced held (close_pipe pipe p) (IsBalanced-end pipe (λ h. omega arith) v)

pub end_all-empty :
    (held : List (ℕ × ℕ)) (p : Pipes)
    → ((end_all held p).held ≡ []) × ((end_all held p).connecting_pipe ≡ p.connecting_pipe)
unfolding end_all
end_all-empty [] p = (refl, refl)
end_all-empty ((id, pipe) ∷ held) p = end_all-empty held (close_pipe pipe p)
