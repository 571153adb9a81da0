-- ===== src/Connection/State.antt =====
-- `ConnectionStateMachine` of src/quic/connection/connection_state_machine.cpp. The listener is
-- taken to be set, and its calls are recorded in `calls`, the newest first; the two counters of the
-- metrics are fields. The texts of the log are left out.
pub mod Order
pub mod Queries
mod Tests
use quic_x.Common.{ℕ, ◌+◌, Bool, true, false, not, ◌&&◌, ◌||◌, List, [], ◌∷◌, if◌then◌else◌}

pub data ConnectionStateType : Type 0 where
  connecting connected closing draining closed : ConnectionStateType

pub same_state : ConnectionStateType → ConnectionStateType → Bool
same_state connecting connecting = true
same_state connected connected = true
same_state closing closing = true
same_state draining draining = true
same_state closed closed = true
same_state _ _ = false

pub record ConnectionStateMachine : Type 0 where
  pub state : ConnectionStateType
  pub calls : List ConnectionStateType
  pub handshake_success : ℕ
  pub handshake_fail : ℕ

abbrev pub new : ConnectionStateMachine
new = record { state = connecting; calls = []; handshake_success = 0; handshake_fail = 0 }

-- Each of the five calls of the listener is recorded as the state that it announces.
pub set_state : ConnectionStateMachine → ConnectionStateType → ConnectionStateMachine
set_state m next =
    if same_state m.state next then m else record m { state = next; calls = next ∷ m.calls }

pub on_handshake_done : ConnectionStateMachine → ConnectionStateMachine
on_handshake_done m =
    if same_state m.state connecting
    then (let n = set_state m connected in record n { handshake_success = n.handshake_success + 1 })
    else m

pub on_close : ConnectionStateMachine → ConnectionStateMachine
on_close m =
    if same_state m.state connected || same_state m.state connecting
    then set_state
        (if same_state m.state connecting
          then record m { handshake_fail = m.handshake_fail + 1 }
          else m)
        closing
    else m

pub on_connection_close_frame_received : ConnectionStateMachine → ConnectionStateMachine
on_connection_close_frame_received m =
    if not (same_state m.state closed) && not (same_state m.state draining)
    then set_state m draining
    else m

pub on_close_timeout : ConnectionStateMachine → ConnectionStateMachine
on_close_timeout m =
    if same_state m.state closing || same_state m.state draining then set_state m closed else m

pub allow_send : ConnectionStateMachine → Bool
allow_send m = same_state m.state connecting || same_state m.state connected

pub allow_receive : ConnectionStateMachine → Bool
allow_receive m = not (same_state m.state closed)

pub can_send_data : ConnectionStateMachine → Bool
can_send_data m = same_state m.state connected

pub can_receive_data : ConnectionStateMachine → Bool
can_receive_data m = same_state m.state connected || same_state m.state closing

pub is_closing : ConnectionStateMachine → Bool
is_closing m = same_state m.state closing

pub is_draining : ConnectionStateMachine → Bool
is_draining m = same_state m.state draining

pub is_closed : ConnectionStateMachine → Bool
is_closed m = same_state m.state closed

pub is_terminating : ConnectionStateMachine → Bool
is_terminating m =
    same_state m.state closing || (same_state m.state draining || same_state m.state closed)

pub should_ignore_packets : ConnectionStateMachine → Bool
should_ignore_packets m = same_state m.state draining || same_state m.state closed

-- What happens to a connection.
pub data Event : Type 0 where
  handshake_done closes close_frame_received close_timeout : Event

pub step : ConnectionStateMachine → Event → ConnectionStateMachine
step m handshake_done = on_handshake_done m
step m closes = on_close m
step m close_frame_received = on_connection_close_frame_received m
step m close_timeout = on_close_timeout m

pub run : ConnectionStateMachine → List Event → ConnectionStateMachine
run m [] = m
run m (e ∷ es) = run (step m e) es
