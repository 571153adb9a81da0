-- ===== src/Recovery/SendControl/Tests.antt =====
-- Runs: four packets are sent, and an ACK for the last one gives the first one up.
use quic_x.Recovery.Unacked.Outstanding.{outstanding}
use quic_x.Recovery.SendControl.Threshold.{
  three_below, detect_lost_packets-three_below, discard_packet_number_space-account,
}
use quic_x.Common.{
  ℕ, ◌+◌, ◌-◌, ◌^◌, ◌≡◌, refl, false, Option, none, some, List, [], ◌∷◌, ◌++◌, map, arith, All,
}
use quic_x.Codec.PacketNumber.{application}
use quic_x.Ack.Frame.{AckFrame}
use quic_x.Ack.Sent.{walk_first, walk_ranges}
use quic_x.Recovery.Rtt.{RttCalculator}
use quic_x.Recovery.Unacked.{Unacked, find_packet, erase_packet, save_packet, PacketInfo}
use quic_x.Recovery.SendControl.{
  new_space, new_control, space_of, is_ack_eliciting_packet, track_packet, on_packet_send,
  ack_packet, note_ecn, ack_found, look_up_largest, ack_largest, ack_all, SendControl, SentPacket,
}
use quic_x.Recovery.SendControl.Loss.{
  loss_delay, should_declare_lost, lost_numbers, declare_lost, declare_all, detect_lost_packets,
  rearm_pto, process_ack, on_packet_ack, discard_packet_number_space,
}
use quic_x.Recovery.SendControl.Ledger.{sent_bytes, settled_bytes, view, in_flight}
use quic_x.Recovery.SendControl.Account.{
  call, run_calls, CallIsShort, run_calls-account, Call, sends, acks,
}

abbrev new_rtt : RttCalculator
new_rtt = record {
  latest_rtt = 0;
  rtt_var = 125;
  min_rtt = 2 ^ 32 - 1;
  smoothed_rtt = 250;
  last_update_time = 0;
  pto_count = 0;
  consecutive_pto_count = 0;
}

abbrev one_packet : ℕ → SentPacket
one_packet pn = record {
  ns = application;
  pn = pn;
  frame_type_bit = 2;
  packet = 100 + pn;
  pkt_len = 1200;
  stream_data = [];
}

abbrev ack_of_four : AckFrame
ack_of_four = record {
  largest_acknowledged = 4;
  ack_delay = 0;
  first_ack_range = 0;
  ack_ranges = [];
  ecn = none;
}

abbrev four_sent : List Call
four_sent =
    sends 10 10 (one_packet 1)
    ∷ sends 11 11 (one_packet 2)
    ∷ sends 12 12 (one_packet 3)
    ∷ sends 13 13 (one_packet 4)
    ∷ []

abbrev calls : List Call
calls = four_sent ++ acks 40 application ack_of_four ∷ []

after_calls : Option SendControl
after_calls = run_calls 2 (new_control new_rtt) calls

abbrev waiting_numbers : Option SendControl → List ℕ
waiting_numbers none = []
waiting_numbers (some c) = map (λ (e : ℕ × PacketInfo). e.0) c.application_space.unacked_packets

two_left : waiting_numbers after_calls ≡ 3 ∷ 2 ∷ []
unfolding after_calls run_calls call on_packet_send track_packet is_ack_eliciting_packet save_packet
    erase_packet find_packet on_packet_ack process_ack ack_largest look_up_largest ack_found
    note_ecn ack_all ack_packet detect_lost_packets declare_all declare_lost lost_numbers
    should_declare_lost loss_delay rearm_pto walk_first walk_ranges
two_left = refl

calls_short : All (CallIsShort 2) calls
calls_short = (tt, (tt, (tt, (tt, (tt, tt)))))

run_calls-account_example :
    (d : SendControl) × (run_calls 2 (new_control new_rtt) calls ≡ some d)
    × (sent_bytes d.effects ≡ settled_bytes d.effects + in_flight (view d))
run_calls-account_example =
    run_calls-account 2 new_rtt calls (omega arith, (omega arith, (omega arith, (omega arith, tt))))
      calls_short

abbrev one_waits : Unacked
one_waits =
    (1, record { send_time = 10; pkt_len = 1200; stream_data = []; packet = 101; is_lost = false })
    ∷ []

abbrev waiting : SendControl
waiting = record (new_control new_rtt) {
  application_space = record new_space { unacked_packets = one_waits };
}

detect_lost_packets-three_below_example :
    detect_lost_packets
      (ack_all (ack_largest waiting 40 application ack_of_four) 40 application ack_of_four [])
      40
      application
      4
    ≡ declare_all
        (ack_all (ack_largest waiting 40 application ack_of_four) 40 application ack_of_four [])
        40
        application
        (three_below 4
          (space_of
            (ack_all (ack_largest waiting 40 application ack_of_four) 40 application ack_of_four [])
            application).unacked_packets)
detect_lost_packets-three_below_example =
    detect_lost_packets-three_below waiting 40 application ack_of_four [] (omega arith)

discard_packet_number_space-account_example :
    (sent_bytes (discard_packet_number_space waiting application).effects
      ≡ sent_bytes waiting.effects)
    × (settled_bytes (discard_packet_number_space waiting application).effects
        ≡ settled_bytes waiting.effects)
    × (in_flight (view (discard_packet_number_space waiting application))
          + outstanding (space_of waiting application).unacked_packets
        ≡ in_flight (view waiting))
discard_packet_number_space-account_example =
    discard_packet_number_space-account waiting application
