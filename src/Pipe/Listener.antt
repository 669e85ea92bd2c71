-- ===== src/Pipe/Listener.antt =====
-- obs-plugin/src/named-pipe-server.hpp and named-pipe-server.cpp: the life of the server, its accept
-- thread and its list of workers. A step of the accept thread is one test of `running_`, one call of
-- Windows with what is tested and logged on its answer, or the end of a round; `running_` may change
-- between any two.
pub mod Owned
pub mod Shown
pub mod Stopped
mod Tests
use obs_vscode_privacy_guard.Base.{
  Bool, Bytes, List, Option, [], codes, false, if◌then◌else◌, none, not, some, suc, true, zero, ℕ,
  ◌&&◌, ◌++◌, ◌+◌, ◌==◌, ◌∷◌,
}
use obs_vscode_privacy_guard.Privacy.{PrivacyState, connection_opened}
use obs_vscode_privacy_guard.Privacy.History.{Call, run}

pub data PipeLogLevel : Type 0 where
  warning error : PipeLogLevel

-- A call of the log callback.
pub record LogEntry : Type 0 where
  pub level : PipeLogLevel
  pub operation : Bytes
  pub code : ℕ

-- A worker: the connection that its thread serves, and whether it has finished.
pub record Thread : Type 0 where
  pub connection_id : ℕ
  pub finished : Bool

-- Where the accept thread is: not started, at the head of its loop, in `CreateNamedPipeW`, in
-- `ConnectNamedPipe`, behind the test of `running_` that follows it, or ended.
pub data Accepter : Type 0 where
  absent at_head creating connecting opening ended : Accepter

-- `logs` is whether there is a callback. `log` has the latest call first.
pub record Server : Type 0 where
  pub privacy_state : PrivacyState
  pub running : Bool
  pub accepter : Accepter
  pub workers : List Thread
  pub logs : Bool
  pub log : List LogEntry

-- What Windows answers, and the time then: an error or success. `ERROR_PIPE_CONNECTED` of
-- `ConnectNamedPipe` is a success. A step without a call of Windows takes no more than the time of it.
pub data Answer : Type 0 where
  fails : (code now : ℕ) → Answer
  succeeds : (now : ℕ) → Answer

abbrev pub time_of : Answer → ℕ
time_of (fails code now) = now
time_of (succeeds now) = now

abbrev pub make_server : PrivacyState → Bool → Server
make_server st logs = record {
  privacy_state = st;
  running = false;
  accepter = absent;
  workers = [];
  logs = logs;
  log = [];
}

unfoldable pub start : Server → Server
start v = if v.running then v else record v { running = true; accepter = at_head }

abbrev pub write_log : Bool → LogEntry → Server → Server
write_log b entry v = if b then record v { log = entry ∷ v.log } else v

unfoldable pub remove_completed : List Thread → List Thread
remove_completed [] = []
remove_completed (t ∷ ts) = let rest = remove_completed ts in if t.finished then rest else t ∷ rest

-- A client has connected: the end of a round of `accept_connections`.
unfoldable pub add_worker : ℕ → Server → Server
unfolding remove_completed connection_opened
add_worker now v =
    let (st, id) = connection_opened v.privacy_state now in
    record v {
      privacy_state = st;
      workers = remove_completed v.workers ++ record { connection_id = id; finished = false } ∷ [];
      accepter = at_head;
    }

-- A step of a round from where the accept thread is.
unfoldable pub accept_from : Accepter → Answer → Server → Server
unfolding add_worker
accept_from absent answer v = v
accept_from ended answer v = v
accept_from at_head answer v =
    if v.running then record v { accepter = creating } else record v { accepter = ended }
accept_from creating (fails code now) v =
    write_log v.logs (record { level = error; operation = codes "CreateNamedPipe"; code = code })
      (record v { accepter = at_head })
accept_from creating (succeeds now) v = record v { accepter = connecting }
accept_from connecting (fails code now) v =
    write_log (v.running && v.logs)
      (record { level = warning; operation = codes "ConnectNamedPipe"; code = code })
      (record v { accepter = at_head })
accept_from connecting (succeeds now) v =
    if v.running then record v { accepter = opening } else record v { accepter = ended }
accept_from opening answer v = add_worker (time_of answer) v

unfoldable pub accept_step : Answer → Server → Server
unfolding accept_from
accept_step answer v = accept_from v.accepter answer v

-- The flag that a worker sets when `process_connection` has returned.
unfoldable pub finish_worker : ℕ → List Thread → List Thread
finish_worker id [] = []
finish_worker id (t ∷ ts) =
    (if t.connection_id == id then record t { finished = true } else t) ∷ finish_worker id ts

unfoldable pub accept_all : List Answer → Server → Server
unfolding accept_step
accept_all [] v = v
accept_all (answer ∷ answers) v = accept_all answers (accept_step answer v)

abbrev pub is_connecting : Accepter → Bool
is_connecting connecting = true
is_connecting _ = false

abbrev pub is_ended : Accepter → Bool
is_ended ended = true
is_ended _ = false

-- The attempts of `wake_accept_thread` from this one on: before each, the accept thread goes on with
-- the answers of that round. `CreateFileW` finds a pipe if the accept thread waits in
-- `ConnectNamedPipe`, which then succeeds.
unfoldable pub wake_from : ℕ → ℕ → (ℕ → List Answer) → ℕ → Server → Server
unfolding accept_step accept_all
wake_from zero attempt rounds now v = v
wake_from (suc left) attempt rounds now v =
    let waiting = accept_all (rounds attempt) v in
    let later = wake_from left (attempt + 1) rounds now waiting in
    if is_connecting waiting.accepter then accept_step (succeeds now) waiting else later

unfoldable pub wake_accept_thread : (ℕ → List Answer) → ℕ → Server → Server
unfolding wake_from
wake_accept_thread rounds now v = wake_from 10 0 rounds now v

-- `running_.exchange(false)`
abbrev pub begin_stop : Server → Server
begin_stop v = record v { running = false }

-- The rest of `stop` once the accept thread has ended; the workers are joined, on the calls that they
-- still make.
abbrev pub clear_workers : List Call → Server → Server
clear_workers calls v = record v {
  privacy_state = run v.privacy_state calls;
  accepter = absent;
  workers = [];
}

-- The join of the accept thread; `none` if it has not ended.
unfoldable pub join : List Call → Server → Option Server
unfolding run
join calls v = if is_ended v.accepter then some (clear_workers calls v) else none

-- `stop`; after the attempts to wake it the accept thread goes on with the answers `after`.
unfoldable pub stop :
    (rounds : ℕ → List Answer) (now : ℕ) (after : List Answer) → List Call → Server → Option Server
unfolding wake_accept_thread accept_all join
stop rounds now after calls v =
    if not v.running
    then some v
    else join calls (accept_all after (wake_accept_thread rounds now (begin_stop v)))
