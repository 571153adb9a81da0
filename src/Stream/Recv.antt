-- ===== src/Stream/Recv.antt =====
-- `StreamStateMachineRecv` of src/quic/stream/state_machine_recv.cpp. The callback is taken to be
-- set, and its calls are recorded in `changes`.
pub mod Transitions
mod Tests
use quic_x.Common.{ℕ, Bool, true, false, not, ◌&&◌, ◌||◌, List, [], ◌∷◌, ◌==◌, if◌then◌else◌}
use quic_x.Stream.{
  same_state, k_reset_stream, k_stop_sending, k_max_stream_data, k_stream_data_blocked,
  is_stream_frame, has_fin, notify, StreamState, recv, size_known, data_read, reset_read,
  data_recvd, reset_recvd,
}

pub record RecvMachine : Type 0 where
  pub state : StreamState
  pub is_reset_received : Bool
  pub changes : List (StreamState × StreamState)

abbrev pub new : RecvMachine
new = record { state = recv; is_reset_received = false; changes = [] }

-- `state_ = next; NotifyStateChange(old_state, state_)`
unfoldable pub move : RecvMachine → StreamState → RecvMachine
move m next = record m { state = next; changes = notify m.state next m.changes }

on_frame_recv : RecvMachine → ℕ → RecvMachine × Bool
on_frame_recv m frame_type =
    if is_stream_frame frame_type
    then (if has_fin frame_type then move m size_known else m, true)
    else if frame_type == k_stream_data_blocked
    then (m, true)
    else if frame_type == k_reset_stream
    then (move m reset_recvd, true)
    else (m, false)

on_frame_size_known : RecvMachine → ℕ → RecvMachine × Bool
on_frame_size_known m frame_type =
    if is_stream_frame frame_type
    then (m, true)
    else if frame_type == k_stream_data_blocked
    then (m, true)
    else if frame_type == k_reset_stream
    then (move m reset_recvd, true)
    else (m, false)

on_frame_done : RecvMachine → ℕ → RecvMachine × Bool
on_frame_done m frame_type = (m, is_stream_frame frame_type || frame_type == k_reset_stream)

-- The flag is set in every state, before the switch.
unfoldable pub mark_reset : RecvMachine → ℕ → RecvMachine
mark_reset m frame_type =
    if frame_type == k_reset_stream then record m { is_reset_received = true } else m

dispatch : StreamState → RecvMachine → ℕ → RecvMachine × Bool
unfolding on_frame_recv on_frame_size_known on_frame_done
dispatch recv m frame_type = on_frame_recv m frame_type
dispatch size_known m frame_type = on_frame_size_known m frame_type
dispatch reset_recvd m frame_type = (m, is_stream_frame frame_type)
dispatch data_recvd m frame_type = on_frame_done m frame_type
dispatch data_read m frame_type = on_frame_done m frame_type
dispatch _ m frame_type = (m, false)

unfoldable pub on_frame : RecvMachine → ℕ → RecvMachine × Bool
unfolding dispatch mark_reset
on_frame m frame_type = dispatch m.state (mark_reset m frame_type) frame_type

unfoldable pub check_can_send_frame : RecvMachine → ℕ → Bool
check_can_send_frame m frame_type =
    if frame_type == k_max_stream_data
    then same_state m.state recv || same_state m.state size_known
    else if frame_type == k_stop_sending
    then not (same_state m.state reset_read) && not (same_state m.state reset_recvd)
    else false

unfoldable pub can_app_read_all_data : RecvMachine → Bool
can_app_read_all_data m = same_state m.state data_recvd

unfoldable pub recv_all_data : RecvMachine → RecvMachine × Bool
recv_all_data m = elim m.state [
  | size_known ↦ (if m.is_reset_received then move m reset_recvd else move m data_recvd, true)
  | reset_recvd ↦ (m, true)
  | _ ↦ (m, false)
]

unfoldable pub app_read_all_data : RecvMachine → RecvMachine × Bool
app_read_all_data m = elim m.state [
  | data_recvd ↦ (move m data_read, true)
  | reset_recvd ↦ (move m reset_read, true)
  | _ ↦ (m, false)
]

pub data Call : Type 0 where
  frames : ℕ → Call
  received_all reads_all : Call

pub step : RecvMachine → Call → RecvMachine
step m (frames frame_type) = (on_frame m frame_type).0
step m received_all = (recv_all_data m).0
step m reads_all = (app_read_all_data m).0

pub run : RecvMachine → List Call → RecvMachine
run m [] = m
run m (c ∷ cs) = run (step m c) cs
