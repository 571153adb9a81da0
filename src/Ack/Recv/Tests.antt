-- ===== src/Ack/Recv/Tests.antt =====
-- The receiver at work.
use quic_x.Ack.Recv.{
  empty_space, new_recv_control, is_ack_eliciting_packet, on_packet_recv, on_timer,
  may_generate_ack_frame, should_send_ack_now, RecvControl, removes_timer,
}
use quic_x.Common.{◌^◌, ◌≡◌, refl, true, false, List, [], ◌∷◌, arith}
use quic_x.Codec.PacketNumber.{initial, handshake, application}
use quic_x.Ack.Recv.Due.{should_send_ack_now-on_timer, may_generate_ack_frame-stops_timer}
use quic_x.Ack.Recv.Calls.{call_all, Call, packet, timer, generate, discard}
use quic_x.Ack.Recv.Invariant.{IsSoundControl, call_all-IsSound}

stream_packet : is_ack_eliciting_packet (2 ^ 8) ≡ true
unfolding is_ack_eliciting_packet
stream_packet = refl

should_send_ack_now-on_timer_example :
    should_send_ack_now
      (on_timer (on_packet_recv new_recv_control 5 (2 ^ 8) application 9).0).0
      application
    ≡ true
should_send_ack_now-on_timer_example =
    should_send_ack_now-on_timer new_recv_control 5 (2 ^ 8) application 9 stream_packet

-- One packet of the application space waits for the timer.
abbrev one_delayed : RecvControl
one_delayed = record new_recv_control {
  in_application = record empty_space {
    pkt_num_largest_recvd = 9;
    wait_ack_packet_numbers = 9 ∷ [];
  };
  set_timer = true;
}

may_generate_ack_frame-stops_timer_example :
    let (after, frame, effects) = may_generate_ack_frame one_delayed 20 handshake false in
    (effects ≡ removes_timer ∷ [])
    × (after.set_timer ≡ false)
    × (after.in_application.wait_ack_packet_numbers
        ≡ one_delayed.in_application.wait_ack_packet_numbers)
    × (should_send_ack_now after application ≡ false)
may_generate_ack_frame-stops_timer_example =
    may_generate_ack_frame-stops_timer one_delayed 20 handshake false refl refl

abbrev some_calls : List Call
some_calls =
    packet 5 (2 ^ 8) application 9
    ∷ packet 6 (2 ^ 6) initial 0
    ∷ timer
    ∷ generate 7 application true
    ∷ discard initial
    ∷ []

call_all-IsSound_example : IsSoundControl (call_all new_recv_control some_calls)
call_all-IsSound_example =
    call_all-IsSound some_calls (omega arith, (omega arith, (tt, (tt, (tt, tt)))))
