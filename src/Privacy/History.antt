-- ===== src/Privacy/History.antt =====
-- The calls that the other parts make on a `PrivacyState`, one after another.
use obs_vscode_privacy_guard.Base.{Bool, Bytes, List, [], ℕ, ◌∷◌}
use obs_vscode_privacy_guard.Privacy.{
  PrivacyState, connection_closed, connection_opened, goodbye_received, hello_received,
  protocol_error, set_enabled, state_received, tick,
}

-- A call with its arguments; a time is that of `Clock::now()`.
pub data Call : Type 0 where
  enables : Bool → Call
  opens : (now : ℕ) → Call
  hellos : (id : ℕ) (client_id : Bytes) (now : ℕ) → Call
  states : (id sequence : ℕ) (reported : Bool) (now : ℕ) → Call
  goodbyes errors closes : (id : ℕ) → Call
  ticks : (now : ℕ) → Call

unfoldable pub step : PrivacyState → Call → PrivacyState
step st (enables b) = set_enabled st b
step st (opens now) = (connection_opened st now).0
step st (hellos id client_id now) = (hello_received st id client_id now).0
step st (states id sequence reported now) = (state_received st id sequence reported now).0
step st (goodbyes id) = (goodbye_received st id).0
step st (errors id) = protocol_error st id
step st (closes id) = connection_closed st id
step st (ticks now) = tick st now

unfoldable pub run : PrivacyState → List Call → PrivacyState
run st [] = st
run st (call ∷ calls) = run (step st call) calls
