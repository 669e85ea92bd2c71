-- ===== src/Pipe/Listener/Shown.antt =====
-- The workers of a server and the mode of its privacy state.
use obs_vscode_privacy_guard.Base.{Bool, [], false, some, ℕ, ◌≡◌, ◌≢◌}
use obs_vscode_privacy_guard.Privacy.{Client, Mode, find, make_state, mode}
use obs_vscode_privacy_guard.Privacy.Clients.{Each-find}
use obs_vscode_privacy_guard.Privacy.Modes.{Reported, mode_iff}
use obs_vscode_privacy_guard.Pipe.Listener.{Server, make_server}
use obs_vscode_privacy_guard.Pipe.Listener.Owned.{HasWorker, Reaches, entry-HasWorker}

-- From a new server on a new privacy state, through any starts, steps of the accept thread, calls
-- on the privacy state and ends of workers, each behind its `process_connection`, while the numbers
-- of connections do not wrap, and until the server is stopped: whenever the mode is safe, there is
-- a client, and every client has said HELLO and reported that nothing is sensitive, and is served
-- by a worker of the list that has not finished.
pub safe-HasWorker :
    (timeout : ℕ) (logs : Bool) {v : Server}
    → Reaches (make_server (make_state timeout) logs) v
    → mode v.privacy_state ≡ Mode.safe
    → (v.privacy_state.clients ≢ [])
      × ((id : ℕ) (c : Client)
          → find id v.privacy_state.clients ≡ some c
          → Reported false c × HasWorker id v.workers)
safe-HasWorker timeout logs {v = v} r safe =
    let means = (mode_iff Mode.safe v.privacy_state).0 safe in
    let (some_client, each) = means.2 in
    (
      some_client,
      λ id c e. (
        Each-find (λ _. Reported false) id v.privacy_state.clients c each e,
        entry-HasWorker timeout logs id c r e,
      ),
    )
