-- ===== src/Stream/SendStream/Calls.antt =====
-- The calls of a sending stream of src/quic/stream/send_stream.cpp, in any order: those of the
-- application, the frames of the peer, the packets that are filled and those that are acknowledged.
use quic_x.Common.{ℕ, ◌≡◌, Bool, List, [], ◌∷◌, ◌++◌, arith}
use quic_x.Stream.SendStream.{
  close_stream, reset_stream, send_bytes, flush, on_max_stream_data_frame, on_stop_sending_frame,
  try_send_data, SendStream, Visitor, OutFrame,
}
use quic_x.Stream.SendStream.Acks.{check_all_data_acked, note_acked, on_data_acked}

pub data SendInput : Type 0 where
  write : List ℕ → SendInput
  flush_written close : SendInput
  reset_call max_stream_data stop_sending : ℕ → SendInput
  send_data : Visitor → SendInput
  acked : ℕ → ℕ → Bool → SendInput

-- The stream after the call, and the frames that went out.
unfoldable pub on_send_input : SendStream → SendInput → SendStream × List OutFrame
on_send_input s (write bytes) = ((send_bytes s bytes).0, [])
on_send_input s flush_written = ((flush s).0, [])
on_send_input s close = (close_stream s, [])
on_send_input s (reset_call error) = (reset_stream s error, [])
on_send_input s (max_stream_data limit) = (on_max_stream_data_frame s limit, [])
on_send_input s (stop_sending error) = (on_stop_sending_frame s error, [])
on_send_input s (send_data v) = ((try_send_data s v).stream, (try_send_data s v).out)
on_send_input s (acked offset_start range_length fin) =
    (on_data_acked s offset_start range_length fin, [])

unfoldable pub run_send : SendStream → List SendInput → SendStream × List OutFrame
run_send s [] = (s, [])
run_send s (i ∷ is) =
    let (t, out) = on_send_input s i in let (u, more) = run_send t is in (u, out ++ more)

-- The calls that touch neither the buffer nor the offsets.
abbrev pub IsSame : SendStream → SendStream → Type 0
IsSame s t =
    (t.send_buffer ≡ s.send_buffer)
    × (t.send_data_offset ≡ s.send_data_offset)
    × (t.peer_data_limit ≡ s.peer_data_limit)

pub reset_stream-IsSame : (s : SendStream) (error : ℕ) → IsSame s (reset_stream s error)
unfolding reset_stream
reset_stream-IsSame s error = ground arith

pub stop_sending-IsSame : (s : SendStream) (error : ℕ) → IsSame s (on_stop_sending_frame s error)
unfolding on_stop_sending_frame reset_stream
stop_sending-IsSame s error = ground arith

pub flush-IsSame : (s : SendStream) → IsSame s (flush s).0
unfolding flush
flush-IsSame s = ground arith

pub on_data_acked-IsSame :
    (s : SendStream) (offset_start range_length : ℕ) (fin : Bool)
    → IsSame s (on_data_acked s offset_start range_length fin)
unfolding on_data_acked note_acked check_all_data_acked
on_data_acked-IsSame s offset_start range_length fin = ground arith
