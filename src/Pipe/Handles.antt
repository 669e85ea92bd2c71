-- ===== src/Pipe/Handles.antt =====
-- The pipe handles of obs-plugin/src/named-pipe-server.cpp: which calls of Windows the accept
-- thread and the workers make on them. The rest of the server is that of the module Listener.
pub mod Counts
pub mod Tidy
pub mod Closed
mod Tests
use obs_vscode_privacy_guard.Base.{Bool, List, Option, [], if◌then◌else◌, none, some, ℕ, ◌==◌, ◌∷◌}
use obs_vscode_privacy_guard.Privacy.{PrivacyState}
use obs_vscode_privacy_guard.Privacy.History.{Call}
use obs_vscode_privacy_guard.Pipe.Listener.{
  Accepter, Answer, Server, accept_step, clear_workers, connecting, creating, fails, finish_worker,
  make_server, opening, succeeds,
}

-- `CreateNamedPipeW` with its result, `DisconnectNamedPipe` and `CloseHandle`.
pub data PipeCall : Type 0 where
  creates_pipe disconnects_pipe closes_pipe : (pipe : ℕ) → PipeCall

-- The server, the local `pipe` of the accept thread, the pipes that workers have, each with its
-- connection, and the calls that were made, the latest first.
pub record Pipes : Type 0 where
  pub server : Server
  pub connecting_pipe : Option ℕ
  pub held : List (ℕ × ℕ)
  pub calls : List PipeCall

abbrev pub make_pipes : PrivacyState → Bool → Pipes
make_pipes st logs = record {
  server = make_server st logs;
  connecting_pipe = none;
  held = [];
  calls = [];
}

-- What a step of the accept thread does with pipes; `pipe` is what `CreateNamedPipeW` returns if it
-- is called and succeeds. Once a worker is made for the connection that is opened, the pipe is the
-- worker's.
unfoldable pub accept_pipe_from : Accepter → Option ℕ → (pipe : ℕ) → Answer → Pipes → Pipes
accept_pipe_from creating local pipe (succeeds now) p = record p {
  connecting_pipe = some pipe;
  calls = creates_pipe pipe ∷ p.calls;
}
accept_pipe_from connecting (some c) pipe (fails code now) p = record p {
  connecting_pipe = none;
  calls = closes_pipe c ∷ p.calls;
}
accept_pipe_from connecting (some c) pipe (succeeds now) p =
    if p.server.running
    then p
    else record p { connecting_pipe = none; calls = closes_pipe c ∷ disconnects_pipe c ∷ p.calls }
accept_pipe_from opening (some c) pipe answer p = record p {
  connecting_pipe = none;
  held = (p.server.privacy_state.next_connection_id, c) ∷ p.held;
}
accept_pipe_from _ local pipe answer p = p

unfoldable pub accept_pipe : (pipe : ℕ) → Answer → Pipes → Pipes
unfolding accept_pipe_from accept_step
accept_pipe pipe answer p =
    record (accept_pipe_from p.server.accepter p.connecting_pipe pipe answer p) {
      server = accept_step answer p.server;
    }

unfoldable pub pipe_of : (id : ℕ) → List (ℕ × ℕ) → Option ℕ
pipe_of id [] = none
pipe_of id ((key, pipe) ∷ held) = if key == id then some pipe else pipe_of id held

unfoldable pub release : (id : ℕ) → List (ℕ × ℕ) → List (ℕ × ℕ)
release id [] = []
release id ((key, pipe) ∷ held) = if key == id then held else (key, pipe) ∷ release id held

-- The end of `process_connection` with its pipe.
abbrev pub close_pipe : ℕ → Pipes → Pipes
close_pipe pipe p = record p { calls = closes_pipe pipe ∷ disconnects_pipe pipe ∷ p.calls }

-- The thread of a worker ends.
unfoldable pub end_worker : (id : ℕ) → Pipes → Pipes
unfolding pipe_of release finish_worker
end_worker id p = elim (pipe_of id p.held) [
  | none ↦ p
  | some pipe ↦ record (close_pipe pipe p) {
    held = release id p.held;
    server = record p.server { workers = finish_worker id p.server.workers };
  }
]

-- The threads of the workers end one after another.
unfoldable pub end_all : List (ℕ × ℕ) → Pipes → Pipes
end_all [] p = record p { held = [] }
end_all ((id, pipe) ∷ held) p = end_all held (close_pipe pipe p)

-- What `stop` does once the accept thread has ended: it joins the workers, which end on the calls that
-- they still make.
unfoldable pub join_pipes : List Call → Pipes → Pipes
unfolding end_all
join_pipes calls p = record (end_all p.held p) { server = clear_workers calls p.server }
