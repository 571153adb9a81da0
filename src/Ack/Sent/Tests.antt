-- ===== src/Ack/Sent/Tests.antt =====
-- The walk at concrete frames.
use quic_x.Common.{◌-◌, ◌^◌, ◌≡◌, refl, true, none, [], ◌∷◌, arith}
use quic_x.Codec.PacketNumber.{application}
use quic_x.Ack.Frame.{AckFrame}
use quic_x.Ack.Recv.{empty_space, new_recv_control, space_of, may_generate_ack_frame, RecvControl}
use quic_x.Ack.Sent.{acked_numbers}
use quic_x.Ack.Sent.Covers.{may_generate_ack_frame-Report, Report}
use quic_x.Ack.Sent.Endless.{acked_numbers-none}

-- A receiver that has the packets 9, 8, 5 and 2.
abbrev four_packets : RecvControl
four_packets = record new_recv_control {
  in_application = record empty_space {
    pkt_num_largest_recvd = 9;
    wait_ack_packet_numbers = 9 ∷ 8 ∷ 5 ∷ 2 ∷ [];
  };
}

may_generate_ack_frame-Report_example :
    Report 10 7 9
      (9 ∷ 8 ∷ 5 ∷ 2 ∷ [])
      (space_of
        (may_generate_ack_frame four_packets 20 application true).0
        application).wait_ack_packet_numbers
      (may_generate_ack_frame four_packets 20 application true).1
may_generate_ack_frame-Report_example =
    may_generate_ack_frame-Report four_packets 20 application true 10 7 2 9 (8 ∷ 5 ∷ 2 ∷ []) refl
      (omega arith, (omega arith, (omega arith, tt)))
      (omega arith, (omega arith, (omega arith, (omega arith, tt)))) (omega arith) (omega arith)
      (omega arith)

abbrev long_range : AckFrame
long_range = record {
  largest_acknowledged = 9;
  ack_delay = 0;
  first_ack_range = 0;
  ack_ranges = record { gap = 0; range_length = 2 ^ 32 - 1 } ∷ [];
  ecn = none;
}

acked_numbers-none_example : acked_numbers 1000 0 long_range ≡ none
acked_numbers-none_example =
    acked_numbers-none 1000 0 long_range [] [] (record { gap = 0; range_length = 2 ^ 32 - 1 }) refl
      (omega arith)
