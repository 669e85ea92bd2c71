-- ===== src/Privacy.antt =====
-- obs-plugin/src/privacy-state.hpp and privacy-state.cpp: the aggregation of the connected clients.
-- Each operation holds the mutex from its first to its last line, so it is one function. A time point
-- is the count of clock ticks, and so is the timeout; `now - last_update > liveness_timeout_` is
-- written with the subtraction on the other side, since a time point may precede `last_update`.
pub mod Clients
pub mod Sweep
pub mod Outcomes
pub mod Invariant
pub mod Preserved
pub mod Modes
pub mod FailClosed
pub mod Arming
pub mod Guarded
pub mod Replay
pub mod Latch
pub mod Recovery
pub mod Distinctness
pub mod Absent
pub mod Order
pub mod History
mod Tests
use obs_vscode_privacy_guard.Base.{
  Bool, Bytes, List, Option, [], equal, false, if◌then◌else◌, is_nil, is_some, ltb, map, none, not,
  some, true, u64_mod, ℕ, ◌%◌, ◌&&◌, ◌+◌, ◌-◌, ◌==◌, ◌||◌, ◌∷◌,
}

pub data Mode : Type 0 where
  disabled awaiting_connection safe sensitive disconnected : Mode

pub record Client : Type 0 where
  pub client_id : Bytes
  pub last_sequence : Option ℕ
  pub sensitive : Option Bool
  pub last_update : ℕ
  pub hello_received : Bool

-- `std::unordered_map<ConnectionId, Client>`, in the order in which it is walked.
abbrev pub Clients : Type 0
Clients = List (ℕ × Client)

pub record PrivacyState : Type 0 where
  pub clients : Clients
  pub disconnected_clients : ℕ
  pub liveness_timeout : ℕ
  pub next_connection_id : ℕ
  pub enabled : Bool
  pub untrusted_failure_latched : Bool

unfoldable pub find : ℕ → Clients → Option Client
find id [] = none
find id ((key, c) ∷ cs) = if key == id then some c else find id cs

pub erase : ℕ → Clients → Clients
erase id [] = []
erase id ((key, c) ∷ cs) = if key == id then cs else (key, c) ∷ erase id cs

-- A write through the iterator that `find` returned.
pub assign : ℕ → Client → Clients → Clients
assign id d [] = []
assign id d ((key, c) ∷ cs) = if key == id then (key, d) ∷ cs else (key, c) ∷ assign id d cs

-- `emplace` leaves an entry that is there.
pub emplace : ℕ → Client → Clients → Clients
emplace id c cs = if is_some (find id cs) then cs else (id, c) ∷ cs

abbrev pub make_state : ℕ → PrivacyState
make_state liveness_timeout = record {
  clients = [];
  disconnected_clients = 0;
  liveness_timeout = liveness_timeout;
  next_connection_id = 1;
  enabled = true;
  untrusted_failure_latched = false;
}

abbrev pub same : Bool → Bool → Bool
same true b = b
same false b = not b

abbrev pub reset_client : ℕ × Client → ℕ × Client
reset_client (id, c) = (id, record c { sensitive = none })

unfoldable pub set_enabled : PrivacyState → Bool → PrivacyState
set_enabled st enabled =
    if same st.enabled enabled
    then st
    else if enabled
    then record st {
      enabled = enabled;
      disconnected_clients = 0;
      untrusted_failure_latched = false;
      clients = map reset_client st.clients;
    }
    else record st { enabled = enabled }

abbrev pub new_client : ℕ → Client
new_client now = record {
  client_id = [];
  last_sequence = none;
  sensitive = none;
  last_update = now;
  hello_received = false;
}

unfoldable pub connection_opened : PrivacyState → ℕ → PrivacyState × ℕ
unfolding emplace
connection_opened st now = (
  record st {
    next_connection_id = (st.next_connection_id + 1) % u64_mod;
    clients = emplace st.next_connection_id (new_client now) st.clients;
  },
  st.next_connection_id,
)

-- The loop of `hello_received`: another connection has said HELLO under this identity.
pub is_taken : ℕ → Bytes → Clients → Bool
is_taken id client_id [] = false
is_taken id client_id ((key, c) ∷ cs) =
    (not (key == id) && c.hello_received && equal c.client_id client_id) || is_taken id client_id cs

unfoldable pub hello_received : PrivacyState → ℕ → Bytes → ℕ → PrivacyState × Bool
unfolding assign is_taken
hello_received st id client_id now = elim (find id st.clients) [
  | none ↦ (st, false)
  | some c ↦
      if c.hello_received
      then (st, false)
      else if is_taken id client_id st.clients
      then (st, false)
      else (
        record st {
          clients =
              assign id
                (record c { client_id = client_id; hello_received = true; last_update = now })
                st.clients;
        },
        true,
      )
]

-- `accept_sequence` up to its write of `last_sequence`.
abbrev pub is_fresh : Option ℕ → ℕ → Bool
is_fresh none sequence = true
is_fresh (some last) sequence = ltb last sequence

unfoldable pub accept_sequence : Client → ℕ → Client × Bool
accept_sequence c sequence =
    if is_fresh c.last_sequence sequence
    then (record c { last_sequence = some sequence }, true)
    else (c, false)

-- The rest of `state_received` once the sequence is accepted.
pub record_state : PrivacyState → ℕ → Client → Bool → ℕ → PrivacyState
unfolding assign
record_state st id c reported now = record st {
  clients = assign id (record c { sensitive = some reported; last_update = now }) st.clients;
  untrusted_failure_latched = false;
  disconnected_clients =
      if not (is_some c.sensitive) && ltb 0 st.disconnected_clients
      then st.disconnected_clients - 1
      else st.disconnected_clients;
}

-- The update at the end of `state_received`, if `accept_sequence` has let the sequence through.
pub if_accepted : PrivacyState → ℕ → Client × Bool → Bool → ℕ → PrivacyState × Bool
unfolding record_state
if_accepted st id (c, true) reported now = (record_state st id c reported now, true)
if_accepted st id (c, false) reported now = (st, false)

unfoldable pub state_received : PrivacyState → ℕ → ℕ → Bool → ℕ → PrivacyState × Bool
unfolding if_accepted
state_received st id sequence reported now = elim (find id st.clients) [
  | none ↦ (st, false)
  | some c ↦
      if not c.hello_received
      then (st, false)
      else if_accepted st id (accept_sequence c sequence) reported now
]

unfoldable pub goodbye_received : PrivacyState → ℕ → PrivacyState × Bool
unfolding erase
goodbye_received st id = elim (find id st.clients) [
  | none ↦ (st, false)
  | some c ↦
      if not c.hello_received
      then (st, false)
      else (record st { clients = erase id st.clients }, true)
]

unfoldable pub record_connection_failure : PrivacyState → Client → PrivacyState
record_connection_failure st c =
    if is_some c.sensitive
    then record st { disconnected_clients = (st.disconnected_clients + 1) % u64_mod }
    else record st { untrusted_failure_latched = true }

-- `find`, `record_connection_failure` and `erase`.
unfoldable pub fail_connection : PrivacyState → ℕ → PrivacyState
unfolding record_connection_failure erase
fail_connection st id = elim (find id st.clients) [
  | none ↦ st
  | some c ↦ record (record_connection_failure st c) { clients = erase id st.clients }
]

unfoldable pub protocol_error : PrivacyState → ℕ → PrivacyState
unfolding fail_connection
protocol_error st id = fail_connection st id

unfoldable pub connection_closed : PrivacyState → ℕ → PrivacyState
unfolding fail_connection
connection_closed st id = fail_connection st id

abbrev pub is_expired : ℕ → ℕ → Client → Bool
is_expired timeout now c = ltb (c.last_update + timeout) now

-- The loop of `tick` over the clients from the iterator on, with the state so far; the result holds
-- those of them that stay.
pub sweep : ℕ → PrivacyState → Clients → PrivacyState
sweep now st [] = record st { clients = [] }
sweep now st ((id, c) ∷ cs) =
    let expired = is_expired st.liveness_timeout now c in
    let swept = sweep now (if expired then record_connection_failure st c else st) cs in
    if expired then swept else record swept { clients = (id, c) ∷ swept.clients }

unfoldable pub tick : PrivacyState → ℕ → PrivacyState
unfolding sweep record_connection_failure
tick st now = sweep now st st.clients

abbrev pub value_or_false : Option Bool → Bool
value_or_false none = false
value_or_false (some b) = b

-- The loop of `mode_locked`.
pub scan_clients : Bool → Clients → Mode
scan_clients any_sensitive [] = if any_sensitive then Mode.sensitive else Mode.safe
scan_clients any_sensitive ((id, c) ∷ cs) =
    if not c.hello_received || not (is_some c.sensitive)
    then Mode.awaiting_connection
    else scan_clients (any_sensitive || value_or_false c.sensitive) cs

unfoldable pub mode : PrivacyState → Mode
unfolding scan_clients
mode st =
    if not st.enabled
    then Mode.disabled
    else if st.untrusted_failure_latched || ltb 0 st.disconnected_clients
    then Mode.disconnected
    else if is_nil st.clients
    then Mode.awaiting_connection
    else scan_clients false st.clients
