-- ===== src/Ack/Recv/Calls.antt =====
-- Sequences of calls of the receiver.
use quic_x.Common.{ℕ, ◌^◌, ◌<◌, Bool, List, [], ◌∷◌}
use quic_x.Codec.PacketNumber.{PacketNumberSpace}
use quic_x.Ack.Recv.{
  on_packet_recv, on_timer, on_ecn_counters, may_generate_ack_frame, update_config,
  discard_packet_number_space, RecvControl,
}

-- The calls of the class that change its state, with their arguments.
pub data Call : Type 0 where
  packet : ℕ → ℕ → PacketNumberSpace → ℕ → Call
  timer : Call
  ecn : ℕ → PacketNumberSpace → Call
  generate : ℕ → PacketNumberSpace → Bool → Call
  config : ℕ → ℕ → Call
  discard : PacketNumberSpace → Call

unfoldable pub call : RecvControl → Call → RecvControl
call c (packet time frame_type_bit ns pkt_num) = (on_packet_recv c time frame_type_bit ns pkt_num).0
call c timer = (on_timer c).0
call c (ecn codepoint ns) = on_ecn_counters c codepoint ns
call c (generate now ns ecn_enabled) = (may_generate_ack_frame c now ns ecn_enabled).0
call c (config delay exponent) = update_config c delay exponent
call c (discard ns) = discard_packet_number_space c ns

unfoldable pub call_all : RecvControl → List Call → RecvControl
call_all c [] = c
call_all c (x ∷ xs) = call_all (call c x) xs

-- A packet number is below 2^62.
abbrev pub IsSmall : Call → Type 0
IsSmall (packet time frame_type_bit ns pkt_num) = pkt_num < 2 ^ 62
IsSmall _ = Unit {0}
