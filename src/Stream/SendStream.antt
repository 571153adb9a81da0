-- ===== src/Stream/SendStream.antt =====
-- `SendStream` of src/quic/stream/send_stream.cpp, over its state machine (Send) and its ranges of
-- acknowledged bytes (Acked). The buffer is the list of the bytes that are not sent yet; its blocks
-- are left out, and a span over several of them is taken to be allocated. The callbacks are taken to
-- be set. `GetSendBuffer`, by which the application can write into the buffer itself, is not modelled.
-- Calls from another thread, which are posted to the loop's own, are made there.
pub mod Acks
pub mod Acked
pub mod Calls
pub mod Cut
pub mod Network
pub mod Kept
pub mod Complete
mod Tests
use quic_x.Common.{
  ℕ, ◌+◌, ◌-◌, ◌^◌, min, Bool, true, false, not, ◌&&◌, ◌||◌, Option, none, some, List, [], ◌∷◌,
  ◌++◌, ltb, leb, ◌==◌, ◌!=◌, if◌then◌else◌, length, is_empty, take, drop, add64,
}
use quic_x.Codec.Control.{ControlFrame, stream_data_blocked}
use quic_x.Stream.{
  same_state, k_reset_stream, k_stream, k_stream_data_blocked, ready, send, StreamFrame,
}
use quic_x.Stream.Send.{new, on_frame, check_can_send_frame, SendMachine}

pub data Event : Type 0 where
  active_send : Event
  sended : ℕ → ℕ → Event

pub record SendStream : Type 0 where
  pub stream_id : ℕ
  pub machine : SendMachine
  pub to_fin : Bool
  pub send_data_offset : ℕ
  pub acked_offset : ℕ
  pub fin_sent : Bool
  pub peer_data_limit : ℕ
  pub blocked_at_limit : ℕ
  pub send_buffer : List ℕ
  pub acked_ranges : List (ℕ × ℕ)
  pub frames_list : List ControlFrame
  pub events : List Event

abbrev pub new_send_stream : ℕ → ℕ → SendStream
new_send_stream stream_id init_data_limit = record {
  stream_id = stream_id;
  machine = new;
  to_fin = false;
  send_data_offset = 0;
  acked_offset = 0;
  fin_sent = false;
  peer_data_limit = init_data_limit;
  blocked_at_limit = 0;
  send_buffer = [];
  acked_ranges = [];
  frames_list = [];
  events = [];
}

abbrev pub k_stream_data_blocked_threshold : ℕ
k_stream_data_blocked_threshold = 4096

abbrev pub k_stream_header_reserve : ℕ
k_stream_header_reserve = 24

abbrev pub notify_active : SendStream → SendStream
notify_active s = record s { events = active_send ∷ s.events }

abbrev pub close_stream : SendStream → SendStream
close_stream s = notify_active (record s { to_fin = true })

unfoldable pub reset_stream : SendStream → ℕ → SendStream
reset_stream s error =
    let (m, accepted) = on_frame s.machine k_reset_stream in
    let frame = ControlFrame.reset_stream s.stream_id error s.send_data_offset in
    if accepted
    then notify_active (record s { machine = m; frames_list = s.frames_list ++ frame ∷ [] })
    else s

-- `Send`: the second part is what it returns, `none` for -1.
unfoldable pub send_bytes : SendStream → List ℕ → SendStream × Option ℕ
send_bytes s bytes =
    if check_can_send_frame s.machine k_stream
    then (notify_active (record s { send_buffer = s.send_buffer ++ bytes }), some (length bytes))
    else (s, none)

unfoldable pub flush : SendStream → SendStream × Bool
flush s =
    if check_can_send_frame s.machine k_stream && not (is_empty s.send_buffer)
    then (notify_active s, true)
    else (s, false)

unfoldable pub on_max_stream_data_frame : SendStream → ℕ → SendStream
on_max_stream_data_frame s new_limit =
    let raised = record s { peer_data_limit = new_limit } in
    if leb new_limit s.peer_data_limit
    then s
    else if is_empty s.send_buffer
    then raised
    else notify_active raised

unfoldable pub on_stop_sending_frame : SendStream → ℕ → SendStream
on_stop_sending_frame s error =
    let t =
      if same_state s.machine.state ready || same_state s.machine.state send
      then reset_stream s error
      else s in
    record t { events = sended 0 error ∷ t.events }

-- What the visitor of a packet says: whether it takes the n-th frame of this call, whether a refusal
-- is for want of space, and the sizes that are left.
pub record Visitor : Type 0 where
  pub handle_frame : ℕ → Bool
  pub insufficient_space : Bool
  pub left_stream_data_size : ℕ
  pub packet_left_size : ℕ

pub data TrySendResult : Type 0 where
  success failed break_off flow_control_blocked : TrySendResult

pub data OutFrame : Type 0 where
  control : ControlFrame → OutFrame
  stream_data : StreamFrame → OutFrame

-- The stream, the frames that the visitor took in order, and the result.
pub record Sent : Type 0 where
  pub stream : SendStream
  pub out : List OutFrame
  pub result : TrySendResult

abbrev pub is_blocked_unsaid : SendStream → Bool
is_blocked_unsaid s =
    s.blocked_at_limit != s.peer_data_limit && check_can_send_frame s.machine k_stream_data_blocked

abbrev pub blocked_frame : SendStream → ControlFrame
blocked_frame s = ControlFrame.stream_data_blocked s.stream_id s.peer_data_limit

-- `STREAM_DATA_BLOCKED` ahead of the limit: is it to be said?
abbrev pub is_near_limit : SendStream → Bool
is_near_limit s =
    ltb s.send_data_offset s.peer_data_limit
    && ltb (s.peer_data_limit - s.send_data_offset) k_stream_data_blocked_threshold
    && is_blocked_unsaid s

-- The frames that wait, from the n-th of this call on: those left, and those taken.
unfoldable pub send_frames : Visitor → ℕ → List ControlFrame → List ControlFrame × List OutFrame
send_frames v n [] = ([], [])
send_frames v n (f ∷ fs) =
    let more = send_frames v (n + 1) fs in
    if v.handle_frame n then (more.0, control f ∷ more.1) else (f ∷ fs, [])

-- How many bytes may go into a frame.
unfoldable pub send_size_of : SendStream → Visitor → ℕ
send_size_of s v =
    let stream_send_size = min (s.peer_data_limit - s.send_data_offset) (2 ^ 32 - 1) in
    let send_size = min stream_send_size v.left_stream_data_size in
    let pkt_cap = v.packet_left_size - k_stream_header_reserve in
    if ltb pkt_cap send_size then pkt_cap else send_size

abbrev pub fin_bit : Bool → ℕ
fin_bit true = 1
fin_bit false = 0

-- The type that `Encode` leaves: the offset bit, the length bit where there is data, the fin bit.
abbrev pub stream_type : List ℕ → Bool → ℕ
stream_type bytes fin = 0x0c + (if is_empty bytes then 0 else 2) + fin_bit fin

-- What follows when the visitor has taken the frame.
unfoldable pub frame_sent : SendStream → List ℕ → Bool → SendStream
frame_sent s bytes fin = record s {
  machine = (on_frame s.machine (stream_type bytes fin)).0;
  fin_sent = s.fin_sent || fin;
  send_buffer = drop (length bytes) s.send_buffer;
  send_data_offset = add64 s.send_data_offset (length bytes);
  events = sended (length bytes) 0 ∷ s.events;
}

-- Nothing may go out though bytes are left.
unfoldable pub stalled : SendStream → Visitor → ℕ → SendStream × List OutFrame × TrySendResult
stalled s v n =
    if ltb (s.peer_data_limit - s.send_data_offset) k_stream_data_blocked_threshold
    then (if is_blocked_unsaid s
        then (
          record s { blocked_at_limit = s.peer_data_limit },
          if v.handle_frame n then control (blocked_frame s) ∷ [] else [],
          flow_control_blocked,
        )
        else (s, [], flow_control_blocked))
    else (s, [], break_off)

-- The STREAM frame of a call, the n-th of its frames.
unfoldable pub send_stream_frame :
    SendStream → Visitor → ℕ → SendStream × List OutFrame × TrySendResult
unfolding stalled frame_sent
send_stream_frame s v n =
    let bytes = take (send_size_of s v) s.send_buffer in
    let fin = s.to_fin && length s.send_buffer == length bytes in
    let frame : StreamFrame = record {
      type = stream_type bytes fin;
      offset = s.send_data_offset;
      bytes = bytes;
    } in
    let t = frame_sent s bytes fin in
    if is_empty bytes && not fin
    then (if is_empty s.send_buffer then (s, [], success) else stalled s v n)
    else if v.handle_frame n
    then (t, stream_data frame ∷ [], if is_empty t.send_buffer then success else break_off)
    else (s, [], if v.insufficient_space then break_off else failed)

-- The frames that wait and the STREAM frame; `out` has the frames taken before.
unfoldable pub send_rest : SendStream → Visitor → ℕ → List OutFrame → Sent
unfolding send_stream_frame
send_rest s v n out =
    let (left, taken) = send_frames v n s.frames_list in
    let t = record s { frames_list = left } in
    let (u, more, result) = send_stream_frame t v (n + length taken) in
    if leb s.peer_data_limit s.send_data_offset
    then record { stream = s; out = out; result = flow_control_blocked }
    else if not (is_empty left)
    then record { stream = t; out = out ++ taken; result = failed }
    else if check_can_send_frame s.machine k_stream
    then record { stream = u; out = out ++ (taken ++ more); result = result }
    else record { stream = t; out = out ++ taken; result = success }

unfoldable pub try_send_data : SendStream → Visitor → Sent
unfolding send_rest
try_send_data s v =
    let told = record s { blocked_at_limit = s.peer_data_limit } in
    if is_near_limit s
    then (if v.handle_frame 0
        then send_rest told v 1 (control (blocked_frame s) ∷ [])
        else record { stream = s; out = []; result = failed })
    else send_rest s v 0 []
