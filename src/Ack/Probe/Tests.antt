-- ===== src/Ack/Probe/Tests.antt =====
-- The prober at work.
use quic_x.Common.{ℕ, ◌≤◌, ◌≡◌, refl, true, List, [], ◌∷◌, ◌++◌, arith}
use quic_x.Codec.PacketNumber.{application}
use quic_x.Ack.Recv.{empty_space, new_recv_control, space_of, may_generate_ack_frame, RecvControl}
use quic_x.Ack.Probe.{new_prober, check_ack_covers_probe, PmtuProber}
use quic_x.Ack.Probe.Covered.{elem, check_ack_covers_probe-may_generate_ack_frame}
use quic_x.Ack.Probe.Limit.{probe_step, probe_run, IsLimit, probe_run-IsLimit, starts, ends, moves}

abbrev three_packets : RecvControl
three_packets = record new_recv_control {
  in_application = record empty_space {
    pkt_num_largest_recvd = 9;
    wait_ack_packet_numbers = 9 ∷ 8 ∷ 5 ∷ [];
  };
}

abbrev probing : PmtuProber
probing = record new_prober {
  probe_inflight = true;
  probe_target_bytes = 1500;
  probe_packet_number = 5;
}

check_ack_covers_probe-may_generate_ack_frame_example :
    (acked : List ℕ) × (9 ∷ 8 ∷ 5 ∷ []
      ≡ 9
        ∷ (acked
            ++ (space_of
                (may_generate_ack_frame three_packets 20 application true).0
                application).wait_ack_packet_numbers))
    × ((check_ack_covers_probe probing
          (may_generate_ack_frame three_packets 20 application true).1).1
        ≡ elem 5 (9 ∷ acked))
check_ack_covers_probe-may_generate_ack_frame_example =
    check_ack_covers_probe-may_generate_ack_frame probing three_packets 20 application true 5 9
      (8 ∷ 5 ∷ []) refl (omega arith, (omega arith, tt))
      (omega arith, (omega arith, (omega arith, tt))) (omega arith) (omega arith) refl (omega arith)

probe_run-IsLimit_example :
    IsLimit (probe_run new_prober (starts ∷ ends true ∷ moves ∷ []))
    × ((probe_run new_prober (starts ∷ ends true ∷ moves ∷ [])).mtu_limit_bytes
        ≤ (probe_step
            (probe_run new_prober (starts ∷ ends true ∷ moves ∷ []))
            starts).mtu_limit_bytes)
probe_run-IsLimit_example = probe_run-IsLimit (starts ∷ ends true ∷ moves ∷ []) starts tt
