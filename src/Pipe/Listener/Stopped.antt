-- ===== src/Pipe/Listener/Stopped.antt =====
-- `stop` and `wake_accept_thread`.
use obs_vscode_privacy_guard.Base.{List, false, suc, zero, ℕ, ◌+◌, ◌≡◌}
use obs_vscode_privacy_guard.Pipe.Listener.{Answer, Server, accept_all, ended}

-- No step of the accept thread changes `running_`.
abbrev IsStopping : Server → Type 0
IsStopping v = v.running ≡ false

-- The server at the attempt `k` after this one, if no attempt before it has found the thread waiting.
unfoldable pub at_attempt : (k attempt : ℕ) → (ℕ → List Answer) → Server → Server
unfolding accept_all
at_attempt zero attempt rounds v = accept_all (rounds attempt) v
at_attempt (suc k) attempt rounds v =
    at_attempt k (attempt + 1) rounds (accept_all (rounds attempt) v)

-- What the attempts make of a server whose accept thread waits or has ended at one of them.
abbrev HasEnded : Server → Type 0
HasEnded x = (x.accepter ≡ ended) × IsStopping x
