-- ===== src/Stream/RecvStream.antt =====
-- `RecvStream` of src/quic/stream/recv_stream.cpp, over its state machine (Recv) and the frames that
-- wait for their turn (Reorder). The buffer is the list of all bytes ever written to it. The
-- callbacks are taken to be set and their calls are recorded in `events`, the newest first; so is
-- `ToSend`. Calls from another thread, which are posted to the loop's own, are made there.
pub mod Steps
pub mod Delivery
pub mod Kept
pub mod Whole
pub mod FinalSize
mod Tests
use quic_x.Common.{
  ℕ, ◌+◌, ◌-◌, ◌*◌, ◌/◌, min, Bool, true, false, ◌&&◌, ◌||◌, Option, none, some, List, [], ◌∷◌,
  ◌++◌, ltb, leb, ◌==◌, ◌!=◌, if◌then◌else◌, length, is_empty, add64, sub64,
}
use quic_x.Codec.Control.{ControlFrame, stop_sending, max_stream_data}
use quic_x.Stream.{
  same_state, k_reset_stream, k_stop_sending, k_max_stream_data, k_stream_data_blocked, has_fin,
  reset_recvd, StreamFrame,
}
use quic_x.Stream.Recv.{
  new, on_frame, check_can_send_frame, can_app_read_all_data, recv_all_data, app_read_all_data,
  RecvMachine,
}
use quic_x.Stream.Reorder.{Waiting, find_at, gather, Gathered}

pub data Event : Type 0 where
  read_callback : Bool → ℕ → Event
  connection_close : ℕ → ℕ → Event
  to_send : Event

pub record RecvStream : Type 0 where
  pub stream_id : ℕ
  pub machine : RecvMachine
  pub final_offset : ℕ
  pub local_data_limit : ℕ
  pub except_offset : ℕ
  pub buffer : List ℕ
  pub out_order_frame : Waiting
  pub reset_error : ℕ
  pub frames_list : List ControlFrame
  pub events : List Event

abbrev pub new_stream : ℕ → ℕ → RecvStream
new_stream stream_id init_data_limit = record {
  stream_id = stream_id;
  machine = new;
  final_offset = 0;
  local_data_limit = init_data_limit;
  except_offset = 0;
  buffer = [];
  out_order_frame = [];
  reset_error = 0;
  frames_list = [];
  events = [];
}

abbrev pub k_flow_control_error : ℕ
k_flow_control_error = 0x03

abbrev pub k_final_size_error : ℕ
k_final_size_error = 0x06

abbrev pub k_stream_window_increment : ℕ
k_stream_window_increment = 2 * 1024 * 1024

abbrev pub k_blocked_window_increment : ℕ
k_blocked_window_increment = 4 * 1024 * 1024

abbrev pub k_max_stream_window_size : ℕ
k_max_stream_window_size = 64 * 1024 * 1024

abbrev pub k_max_out_of_order_frames : ℕ
k_max_out_of_order_frames = 1024

abbrev pub close_with : RecvStream → ℕ → ℕ → RecvStream
close_with s error type = record s { events = connection_close error type ∷ s.events }

-- `Reset`: an error other than 0 asks the peer to stop.
unfoldable pub reset : RecvStream → ℕ → RecvStream
reset s error =
    if error == 0
    then s
    else if check_can_send_frame s.machine k_stop_sending
    then record s {
      frames_list = s.frames_list ++ ControlFrame.stop_sending s.stream_id error ∷ [];
      machine = (on_frame s.machine k_reset_stream).0;
      events = to_send ∷ s.events;
    }
    else s

-- The limit grows by whole increments, to an increment above what has been received at least.
unfoldable pub window_needed : ℕ → ℕ
window_needed remaining_window =
    let needed =
      if ltb remaining_window k_stream_window_increment
      then k_stream_window_increment - remaining_window
      else k_stream_window_increment in
    (needed + k_stream_window_increment - 1) / k_stream_window_increment * k_stream_window_increment

unfoldable pub raise_limit : RecvStream → RecvStream
raise_limit s =
    let limit =
      add64 s.local_data_limit (window_needed (sub64 s.local_data_limit s.except_offset)) in
    record s {
      local_data_limit = limit;
      frames_list = s.frames_list ++ ControlFrame.max_stream_data s.stream_id limit ∷ [];
      events = to_send ∷ s.events;
    }

unfoldable pub update_window : RecvStream → RecvStream
unfolding raise_limit
update_window s =
    let remaining_window = sub64 s.local_data_limit s.except_offset in
    if ltb remaining_window (s.local_data_limit / 4)
      && check_can_send_frame s.machine k_max_stream_data
    then raise_limit s
    else s

-- What is gathered of the stream so far.
abbrev pub gathered : RecvStream → Gathered
gathered s = record {
  next = s.except_offset;
  written = s.buffer;
  waiting = s.out_order_frame;
  last_length = 0;
}

abbrev pub is_last : ℕ → Gathered → Bool
is_last final_offset g = final_offset != 0 && final_offset == g.next && is_empty g.waiting

unfoldable pub read_machine : RecvMachine → Bool → RecvMachine
read_machine m last =
    let m1 = if last then (recv_all_data m).0 else m in
    if can_app_read_all_data m1 then (app_read_all_data m1).0 else m1

-- A frame in its turn. The loop's variable is the frame whose length is returned.
unfoldable pub deliver : RecvStream → List ℕ → RecvStream × ℕ
deliver s bytes =
    let g = gather (gathered s) bytes in
    let last = is_last s.final_offset g in
    (
      record s {
        except_offset = g.next;
        buffer = g.written;
        out_order_frame = g.waiting;
        machine = read_machine s.machine last;
        events = read_callback last s.reset_error ∷ s.events;
      },
      g.last_length,
    )

abbrev pub is_found : Option (List ℕ) → Bool
is_found none = false
is_found (some bytes) = true

-- A frame out of its turn: `none` where the code returns 0.
unfoldable pub keep : RecvStream → StreamFrame → RecvStream × Option ℕ
keep s f =
    if s.final_offset != 0 && ltb s.final_offset f.offset
    then (close_with s k_final_size_error f.type, none)
    else if is_found (find_at f.offset s.out_order_frame) || ltb f.offset s.except_offset
    then (s, none)
    else if leb k_max_out_of_order_frames (length s.out_order_frame)
    then (close_with s k_flow_control_error f.type, none)
    else (
      record s { out_order_frame = (f.offset, f.bytes) ∷ s.out_order_frame },
      some (length f.bytes),
    )

-- In its turn or not; then the window is looked at.
unfoldable pub place : RecvStream → StreamFrame → RecvStream × ℕ
place s f =
    if f.offset == s.except_offset
    then (let (t, n) = deliver s f.bytes in (update_window t, n))
    else elim (keep s f).1 [ none ↦ ((keep s f).0, 0) | some n ↦ (update_window (keep s f).0, n) ]

-- The checks of the limit and of the final size; `none` where a frame is refused.
unfoldable pub check_frame : RecvStream → StreamFrame → RecvStream × Bool
check_frame s f =
    let frame_end = add64 f.offset (length f.bytes) in
    if ltb frame_end f.offset
    then (close_with s k_flow_control_error f.type, false)
    else if ltb s.local_data_limit frame_end
    then (close_with s k_flow_control_error f.type, false)
    else if has_fin f.type
    then (if s.final_offset != 0 && frame_end != s.final_offset
        then (close_with s k_final_size_error f.type, false)
        else (record s { final_offset = frame_end }, true))
    else (s, true)

-- The stream, and the number of bytes that the caller counts.
unfoldable pub on_stream_frame : RecvStream → StreamFrame → RecvStream × ℕ
on_stream_frame s f =
    let (m, accepted) = on_frame s.machine f.type in
    let (t, passed) = check_frame (record s { machine = m }) f in
    if accepted then (if passed then place t f else (t, 0)) else (record s { machine = m }, 0)

unfoldable pub on_stream_data_blocked_frame : RecvStream → RecvStream
on_stream_data_blocked_frame s =
    let (m, accepted) = on_frame s.machine k_stream_data_blocked in
    let limit =
      min (add64 s.local_data_limit k_blocked_window_increment) k_max_stream_window_size in
    if accepted && ltb s.local_data_limit k_max_stream_window_size
    then record s {
      machine = m;
      local_data_limit = limit;
      frames_list = s.frames_list ++ ControlFrame.max_stream_data s.stream_id limit ∷ [];
      events = to_send ∷ s.events;
    }
    else record s { machine = m }

unfoldable pub on_reset_stream_frame : RecvStream → ℕ → ℕ → RecvStream
on_reset_stream_frame s app_error_code fin_offset =
    let (m, accepted) = on_frame s.machine k_reset_stream in
    let t = record s { machine = m } in
    if accepted
    then (if s.final_offset != 0 && fin_offset != s.final_offset
        then close_with t k_final_size_error k_reset_stream
        else if same_state m.state reset_recvd
        then record t {
          final_offset = fin_offset;
          events = read_callback false app_error_code ∷ s.events;
        }
        else record t { final_offset = fin_offset; reset_error = app_error_code })
    else t

-- What comes in: the frames that `OnFrame` is given, and `Reset` by the application.
pub data Input : Type 0 where
  stream_frame : StreamFrame → Input
  stream_data_blocked_frame : Input
  reset_stream_frame : ℕ → ℕ → Input
  local_reset : ℕ → Input

-- `OnFrame` returns what it counts of a STREAM frame, and 0 for the others.
unfoldable pub on_input : RecvStream → Input → RecvStream × ℕ
on_input s (stream_frame f) = on_stream_frame s f
on_input s stream_data_blocked_frame = (on_stream_data_blocked_frame s, 0)
on_input s (reset_stream_frame app_error_code final_size) =
    (on_reset_stream_frame s app_error_code final_size, 0)
on_input s (local_reset error) = (reset s error, 0)

unfoldable pub run_stream : RecvStream → List Input → RecvStream
run_stream s [] = s
run_stream s (i ∷ is) = run_stream (on_input s i).0 is

pub data TrySendResult : Type 0 where
  success failed break_off : TrySendResult

-- The loop of `TrySendData` from the n-th frame on: the frames left, and those the visitor took.
unfoldable pub drain_frames :
    (ℕ → Bool) → ℕ → List ControlFrame → List ControlFrame × List ControlFrame
drain_frames takes n [] = ([], [])
drain_frames takes n (f ∷ fs) =
    let more = drain_frames takes (n + 1) fs in
    if takes n then (more.0, f ∷ more.1) else (f ∷ fs, [])

-- `TrySendData`, with what the visitor says to the n-th frame and whether a refusal is for want of
-- space: the stream, the frames that went out, and the result.
pub try_send_data : RecvStream → (ℕ → Bool) → Bool → RecvStream × List ControlFrame × TrySendResult
unfolding drain_frames
try_send_data s takes insufficient_space =
    let (left, taken) = drain_frames takes 0 s.frames_list in
    (
      record s { frames_list = left },
      taken,
      if is_empty left then success else if insufficient_space then break_off else failed,
    )
