-- ===== src/Stream/Send.antt =====
-- `StreamStateMachineSend` of src/quic/stream/state_machine_send.cpp. The callback is taken to be
-- set, and its calls are recorded in `changes`.
pub mod Transitions
mod Tests
use quic_x.Common.{ℕ, Bool, true, false, not, ◌&&◌, ◌||◌, List, [], ◌∷◌, ◌==◌, if◌then◌else◌}
use quic_x.Stream.{
  same_state, k_reset_stream, k_stream_data_blocked, is_stream_frame, has_fin, notify, StreamState,
  ready, send, data_sent, reset_sent, data_recvd, reset_recvd,
}

pub record SendMachine : Type 0 where
  pub state : StreamState
  pub changes : List (StreamState × StreamState)

abbrev pub new : SendMachine
new = record { state = ready; changes = [] }

-- `state_ = next; NotifyStateChange(old_state, state_)`
unfoldable pub move : SendMachine → StreamState → SendMachine
move m next = record { state = next; changes = notify m.state next m.changes }

on_frame_ready : SendMachine → ℕ → SendMachine × Bool
on_frame_ready m frame_type =
    if is_stream_frame frame_type
    then (move m (if has_fin frame_type then data_sent else send), true)
    else if frame_type == k_stream_data_blocked
    then (move m send, true)
    else if frame_type == k_reset_stream
    then (move m reset_sent, true)
    else (m, false)

on_frame_send : SendMachine → ℕ → SendMachine × Bool
on_frame_send m frame_type =
    if is_stream_frame frame_type
    then (if has_fin frame_type then move m data_sent else m, true)
    else if frame_type == k_reset_stream
    then (move m reset_sent, true)
    else (m, false)

on_frame_data_sent : SendMachine → ℕ → SendMachine × Bool
on_frame_data_sent m frame_type =
    if frame_type == k_reset_stream then (move m reset_sent, true) else (m, false)

unfoldable pub on_frame : SendMachine → ℕ → SendMachine × Bool
unfolding on_frame_ready on_frame_send on_frame_data_sent
on_frame m frame_type = elim m.state [
  | ready ↦ on_frame_ready m frame_type
  | send ↦ on_frame_send m frame_type
  | data_sent ↦ on_frame_data_sent m frame_type
  | _ ↦ (m, false)
]

unfoldable pub check_can_send_frame : SendMachine → ℕ → Bool
check_can_send_frame m frame_type =
    if same_state m.state reset_recvd || same_state m.state data_recvd
    then false
    else if is_stream_frame frame_type || frame_type == k_stream_data_blocked
    then not (same_state m.state reset_sent) && not (same_state m.state data_sent)
    else true

unfoldable pub all_ack_done : SendMachine → SendMachine × Bool
all_ack_done m = elim m.state [
  | data_sent ↦ (move m data_recvd, true)
  | reset_sent ↦ (move m reset_recvd, true)
  | _ ↦ (m, false)
]

pub data Call : Type 0 where
  frames : ℕ → Call
  acks : Call

pub step : SendMachine → Call → SendMachine
step m (frames frame_type) = (on_frame m frame_type).0
step m acks = (all_ack_done m).0

pub run : SendMachine → List Call → SendMachine
run m [] = m
run m (c ∷ cs) = run (step m c) cs
