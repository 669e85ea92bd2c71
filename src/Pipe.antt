-- ===== src/Pipe.antt =====
-- obs-plugin/src/named-pipe-server.cpp: the worker of one connection. The worker shares the
-- `PrivacyState` with the tick of OBS and the other workers; each of its operations holds the mutex, so
-- the other threads act between the operations of this one, and `Schedule` says what they do there.
-- `length pending` is fuel enough for the loop over the frames, since each frame takes its newline.
pub mod Frames
pub mod Append
pub mod Chunks
pub mod Cleanup
pub mod Limits
pub mod Listener
pub mod Alarm
pub mod Handles
mod Tests
use mathlib.Core.Option
use obs_vscode_privacy_guard.Base.{
  Bool, Bytes, List, Option, [], drop, false, if◌then◌else◌, length, ltb, none, not, some, suc,
  take, true, zero, ℕ, ◌&&◌, ◌++◌, ◌==◌, ◌∷◌,
}
use obs_vscode_privacy_guard.Protocol.{Frame, FrameKind, max_frame_size, parse_frame}
use obs_vscode_privacy_guard.Privacy.{
  PrivacyState, connection_closed, goodbye_received, hello_received, protocol_error, state_received,
}
use obs_vscode_privacy_guard.Privacy.History.{Call, run}

pub data FrameResult : Type 0 where
  continue goodbye invalid : FrameResult

-- `received ? result : FrameResult::Invalid`
abbrev pub result_of : FrameResult → PrivacyState × Bool → PrivacyState × FrameResult
result_of result (st, true) = (st, result)
result_of result (st, false) = (st, FrameResult.invalid)

unfoldable pub apply_frame : PrivacyState → ℕ → ℕ → Frame → PrivacyState × FrameResult
apply_frame st id now frame = elim frame.kind [
  | FrameKind.hello ↦ result_of FrameResult.continue (hello_received st id frame.client_id now)
  | FrameKind.state ↦
      result_of FrameResult.continue (state_received st id frame.sequence frame.sensitive now)
  | FrameKind.goodbye ↦ result_of FrameResult.goodbye (goodbye_received st id)
]

-- `clock n` is the time at the worker's use `n` of the shared state, and `others n` are the calls that
-- other threads make on it since the use before.
pub record Schedule : Type 0 where
  pub clock : ℕ → ℕ
  pub others : ℕ → List Call

-- The local variables of `process_connection`, the shared state as this worker sees it, and how often
-- it has used that.
pub record Worker : Type 0 where
  pub shared : PrivacyState
  pub uses : ℕ
  pub pending : Bytes
  pub graceful : Bool
  pub state_entry_active : Bool

abbrev pub make_worker : PrivacyState → Worker
make_worker st = record {
  shared = st;
  uses = 0;
  pending = [];
  graceful = false;
  state_entry_active = true;
}

-- The distance to the next newline; `none` is `npos`.
unfoldable pub find_newline : Bytes → Option ℕ
find_newline [] = none
find_newline (c ∷ cs) = if c == b'\n' then some 0 else Option.map suc (find_newline cs)

module _ (s : Schedule) (id : ℕ) where
  -- The shared state when the worker gets the mutex.
  abbrev pub enter : Worker → PrivacyState
  enter w = run w.shared (s.others w.uses)

  unfoldable pub fail_protocol : Worker → Worker
  fail_protocol w = record w {
    shared = protocol_error (enter w) id;
    uses = suc w.uses;
    state_entry_active = false;
    graceful = true;
  }

  -- The rest of the loop's body once the frame has its result: the worker, and whether the loop goes on.
  abbrev pub after_frame : Bytes → Worker → FrameResult → Worker × Bool
  after_frame rest w FrameResult.invalid = (fail_protocol w, false)
  after_frame rest w FrameResult.goodbye =
      (record w { pending = rest; state_entry_active = false; graceful = true }, false)
  after_frame rest w FrameResult.continue = (record w { pending = rest }, true)

  -- One round of the loop over the frames, on what the line parses to and what follows its newline.
  unfoldable pub take_frame : Option Frame → Bytes → Worker → Worker × Bool
  unfolding apply_frame fail_protocol
  take_frame none rest w = (fail_protocol w, false)
  take_frame (some frame) rest w =
      let (st, result) = apply_frame (enter w) id (s.clock w.uses) frame in
      after_frame rest (record w { shared = st; uses = suc w.uses }) result

  -- The loop over the frames.
  unfoldable pub drain : ℕ → Worker → Worker
  unfolding take_frame find_newline
  drain zero w = w
  drain (suc fuel) w = elim (find_newline w.pending) [
    | none ↦ w
    | some newline ↦
        let line = take newline w.pending in
        let (w', again) = take_frame (parse_frame line) (drop (suc newline) w.pending) w in
        elim again [ true ↦ drain fuel w' | false ↦ w' ]
  ]

  unfoldable pub check_size : Worker → Worker
  unfolding fail_protocol
  check_size w =
      if not w.graceful && ltb max_frame_size (length w.pending) then fail_protocol w else w

  -- What one read of `bytes` leads to.
  unfoldable pub receive : Bytes → Worker → Worker
  unfolding drain check_size
  receive bytes w =
      let pending = w.pending ++ bytes in
      check_size (drain (length pending) (record w { pending = pending }))

-- What a round of the worker's loop finds: no data yet, data, or a pipe that cannot be read.
pub data Round : Type 0 where
  waits : Round
  reads : Bytes → Round
  breaks : Round

module _ (s : Schedule) (id : ℕ) where
  -- The loop of the worker. At the end of the list `running_` is false.
  unfoldable pub serve : List Round → Worker → Worker
  unfolding receive
  serve [] w = w
  serve (r ∷ rs) w = elim w.graceful [
    | true ↦ w
    | false ↦ elim r [
      | waits ↦ serve rs w
      | reads bytes ↦ serve rs (receive s id bytes w)
      | breaks ↦ w
    ]
  ]

  -- What `process_connection` does behind its loop.
  unfoldable pub finish : Bool → Worker → Worker
  finish running w =
      if w.state_entry_active && running
      then record w { shared = connection_closed (enter s id w) id; uses = suc w.uses }
      else w

  unfoldable pub process_connection : List Round → Bool → PrivacyState → Worker
  unfolding serve finish
  process_connection rounds running st = finish running (serve rounds (make_worker st))
