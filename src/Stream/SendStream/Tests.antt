-- ===== src/Stream/SendStream/Tests.antt =====
-- Runs and instances on a stream that is written 0, 1, 2, closed, sent and acknowledged.
use quic_x.Stream.SendStream.Network.{
  bytes_written, Writes, run_send-slice, IsFrom, run_stream-run_send,
}
use quic_x.Common.{ℕ, ◌<◌, ◌≡◌, refl, sym, subst, inl, inr, true, false, List, [], ◌∷◌, arith, All}
use quic_x.Stream.{same_state, notify, data_recvd, StreamFrame}
use quic_x.Stream.Send.{move, on_frame, check_can_send_frame, all_ack_done}
use quic_x.Stream.SendStream.{
  new_send_stream, send_bytes, send_frames, send_size_of, frame_sent, send_stream_frame, send_rest,
  try_send_data, Visitor, stream_data,
}
use quic_x.Stream.SendStream.Acks.{
  absorb, add_range, advance_offset, check_all_data_acked, note_acked, on_data_acked,
}
use quic_x.Stream.SendStream.Calls.{
  on_send_input, run_send, SendInput, write, close, send_data, acked,
}
use quic_x.Stream.SendStream.Cut.{OutAgrees, IsSending}
use quic_x.Stream.SendStream.Complete.{AckFits, acked_by, nothing, run_send-data_recvd}
use quic_x.Stream.Reorder.Content.{slice}
use quic_x.Stream.RecvStream.{new_stream, run_stream, Input, stream_frame}

abbrev counting : ℕ → ℕ
counting n = n

abbrev all_taken : Visitor
all_taken = record {
  handle_frame = λ n. true;
  insufficient_space = false;
  left_stream_data_size = 1000;
  packet_left_size = 1200;
}

abbrev to_the_end : List SendInput
to_the_end =
    write (0 ∷ 1 ∷ 2 ∷ []) ∷ close ∷ send_data all_taken ∷ acked 0 2 false ∷ acked 1 2 true ∷ []

abbrev last_frame : StreamFrame
last_frame = record { type = 0x0f; offset = 0; bytes = 0 ∷ 1 ∷ 2 ∷ [] }

sent : (run_send (new_send_stream 4 9000) to_the_end).1 ≡ stream_data last_frame ∷ []
unfolding run_send on_send_input send_bytes try_send_data send_rest send_frames send_stream_frame
    send_size_of frame_sent on_data_acked note_acked check_all_data_acked check_can_send_frame
    on_frame same_state notify
sent = refl

received : (run_send (new_send_stream 4 9000) to_the_end).0.machine.state ≡ data_recvd
unfolding run_send on_send_input send_bytes try_send_data send_rest send_frames send_stream_frame
    send_size_of frame_sent on_data_acked note_acked check_all_data_acked check_can_send_frame
    on_frame all_ack_done same_state move notify add_range absorb advance_offset
received = refl

offset_three : (run_send (new_send_stream 4 9000) to_the_end).0.send_data_offset ≡ 3
unfolding run_send on_send_input send_bytes try_send_data send_rest send_frames send_stream_frame
    send_size_of frame_sent on_data_acked note_acked check_all_data_acked check_can_send_frame
    on_frame all_ack_done same_state move notify add_range absorb advance_offset
offset_three = refl

agreed : Writes counting (new_send_stream 4 9000) 0 to_the_end
agreed = (inr refl, (tt, (tt, (tt, (tt, tt)))))

run_send-slice_example :
    IsSending counting
      (bytes_written (new_send_stream 4 9000) to_the_end)
      (run_send (new_send_stream 4 9000) to_the_end).0
    × All
        (OutAgrees counting (run_send (new_send_stream 4 9000) to_the_end).0.peer_data_limit)
        (run_send (new_send_stream 4 9000) to_the_end).1
run_send-slice_example = run_send-slice counting 4 9000 to_the_end (omega arith) agreed

abbrev arrivals : List Input
arrivals = stream_frame last_frame ∷ stream_frame last_frame ∷ []

arrived : All (IsFrom (run_send (new_send_stream 4 9000) to_the_end).1) arrivals
arrived = subst (λ out. All (IsFrom out) arrivals) (sym sent) (inl refl, (inl refl, tt))

run_stream-run_send_example :
    (run_stream (new_stream 4 9000) arrivals).buffer
    ≡ slice counting 0 (run_stream (new_stream 4 9000) arrivals).except_offset
run_stream-run_send_example =
    run_stream-run_send counting 4 9000 9000 to_the_end arrivals (omega arith) agreed arrived
      (omega arith)

acks_fit : All AckFits to_the_end
acks_fit = (tt, (tt, (tt, (omega arith, (omega arith, tt)))))

run_send-data_recvd_example :
    ((run_send (new_send_stream 4 9000) to_the_end).0.fin_sent ≡ true)
    × (acked_by nothing to_the_end 2 ≡ true)
run_send-data_recvd_example =
    run_send-data_recvd 4 9000 to_the_end 2 acks_fit received
      (subst (λ n. 2 < n) (sym offset_three) (omega arith))
