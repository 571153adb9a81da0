-- ===== src/Recovery/SendControl/Loss.antt =====
-- The rest of `SendControl` (send_control.cpp): `DetectLostPackets`, the PTO timer, `OnPacketAck` as
-- a whole, and the calls that drop packets.
use quic_x.Common.{
  ℕ, ◌-◌, ◌*◌, ◌/◌, ◌%◌, ◌^◌, max, Bool, true, false, not, ◌&&◌, ◌||◌, Option, none, some, List, [],
  ◌∷◌, ◌++◌, map, ltb, leb, if◌then◌else◌, is_empty, ◌>>=◌, add64, mul64,
}
use mathlib.Core.List.{reverse}
use quic_x.Codec.PacketNumber.{PacketNumberSpace, initial, handshake, application}
use quic_x.Ack.Frame.{AckFrame}
use quic_x.Ack.Sent.{walk_first, walk_ranges}
use quic_x.Recovery.Rtt.{on_pto_expired, on_packet_acked, RttCalculator}
use quic_x.Recovery.Unacked.{Unacked, find_packet, erase_packet, mark_lost, PacketInfo}
use quic_x.Recovery.SendControl.{
  space_of, with_space, with_unacked, emit, pto_delay, give_up, ack_largest, ack_all, Effect,
  cc_lost, remove_packet_timer, add_pto_timer, remove_pto_timer, probe_needed, application_probe,
  packet_lost, LostPacketEntry, SendControl,
}

abbrev pub k_packet_threshold : ℕ
k_packet_threshold = 3

-- 9/8 of the smoothed time, computed in a `uint32_t`, and 1 at least.
unfoldable pub loss_delay : RttCalculator → ℕ
loss_delay rtt = max (rtt.smoothed_rtt * 9 % 2 ^ 32 / 8) 1

-- Is one packet to be declared lost? `acked_send_time` is 0 where the largest one is not in the map.
unfoldable pub should_declare_lost : ℕ → ℕ → ℕ → ℕ → PacketInfo → Bool
should_declare_lost delay largest_acked acked_send_time pn info =
    let since =
      if ltb info.send_time acked_send_time then acked_send_time - info.send_time else 0 in
    ltb pn largest_acked
    && not info.is_lost
    && (leb (add64 pn k_packet_threshold) largest_acked
        || (ltb 0 acked_send_time && ltb delay since))

-- `lost_packet_nums`
unfoldable pub lost_numbers : ℕ → ℕ → ℕ → Unacked → List ℕ
lost_numbers delay largest_acked acked_send_time [] = []
lost_numbers delay largest_acked acked_send_time ((pn, info) ∷ m) =
    let rest = lost_numbers delay largest_acked acked_send_time m in
    if should_declare_lost delay largest_acked acked_send_time pn info then pn ∷ rest else rest

unfoldable pub declare_lost : SendControl → ℕ → PacketNumberSpace → ℕ → SendControl
declare_lost c now ns pn = elim (find_packet pn (space_of c ns).unacked_packets) [
  | none ↦ c
  | some info ↦
      emit
        (give_up (with_unacked c ns (erase_packet pn (space_of c ns).unacked_packets)) ns pn info)
        (packet_lost info.packet
          ∷ cc_lost pn info.pkt_len (mul64 now 1000)
          ∷ remove_packet_timer ns pn
          ∷ [])
]

unfoldable pub declare_all : SendControl → ℕ → PacketNumberSpace → List ℕ → SendControl
declare_all c now ns [] = c
declare_all c now ns (pn ∷ pns) = declare_all (declare_lost c now ns pn) now ns pns

abbrev pub send_time_of : Option PacketInfo → ℕ
send_time_of none = 0
send_time_of (some info) = info.send_time

unfoldable pub detect_lost_packets : SendControl → ℕ → PacketNumberSpace → ℕ → SendControl
detect_lost_packets c now ns largest_acked =
    let m = (space_of c ns).unacked_packets in
    declare_all c now ns (
      lost_numbers (loss_delay c.rtt_calculator) largest_acked
        (send_time_of (find_packet largest_acked m)) m)

-- `has_ack_eliciting_in_flight`
abbrev pub is_any_unacked : SendControl → Bool
is_any_unacked c =
    not (is_empty c.initial_space.unacked_packets)
    || not (is_empty c.handshake_space.unacked_packets)
    || not (is_empty c.application_space.unacked_packets)

-- The PTO timer after an ACK: the backoff is reset, and the timer is set again where packets are in
-- flight or the handshake is not complete.
unfoldable pub rearm_pto : SendControl → SendControl
rearm_pto c =
    let c1 =
      emit (record c { rtt_calculator = on_packet_acked c.rtt_calculator })
        (remove_pto_timer ∷ []) in
    if is_any_unacked c || not c.handshake_complete
    then emit c1 (add_pto_timer (pto_delay c1) ∷ [])
    else c1

-- The numbers of the frame below the largest one, in the order of the walk; `none`: out of fuel.
abbrev pub further_numbers : ℕ → AckFrame → Option (List ℕ)
further_numbers fuel f =
    let (first, last) = walk_first (f.first_ack_range % 2 ^ 32) f.largest_acknowledged in
    walk_ranges fuel f.ack_ranges last >>= λ more. some (first ++ more)

unfoldable pub process_ack : SendControl → ℕ → PacketNumberSpace → AckFrame → List ℕ → SendControl
process_ack c now ns f pns = rearm_pto (
    detect_lost_packets (ack_all (ack_largest c now ns f) now ns f pns) now ns
      f.largest_acknowledged)

-- `OnPacketAck`, with fuel for the loop over each range.
unfoldable pub on_packet_ack :
    ℕ → SendControl → ℕ → PacketNumberSpace → AckFrame → Option SendControl
unfolding process_ack
on_packet_ack fuel c now ns f = further_numbers fuel f >>= λ pns. some (process_ack c now ns f pns)

abbrev pub first_packet : Unacked → Option (ℕ × PacketInfo)
first_packet [] = none
first_packet (e ∷ m) = some e

-- The first packet of a space, if it is not marked as lost, is given up; the second part says so.
unfoldable pub probe_space : SendControl → ℕ → PacketNumberSpace → SendControl × Bool
probe_space c clock ns = elim (first_packet (space_of c ns).unacked_packets) [
  | none ↦ (c, false)
  | some (pn, info) ↦
      let marked = with_unacked c ns (mark_lost pn (space_of c ns).unacked_packets) in
      if info.is_lost then (c, false) else (
        emit (give_up marked ns pn info) (
            packet_lost info.packet
            ∷ remove_packet_timer ns pn
            ∷ cc_lost pn info.pkt_len (mul64 clock 1000)
            ∷ []),
        true,
      )
]

-- The spaces in order, up to the first one with a packet to give up.
unfoldable pub probe_spaces : SendControl → ℕ → SendControl × Bool
unfolding probe_space
probe_spaces c clock =
    let first = probe_space c clock initial in
    let second = probe_space c clock handshake in
    let third = probe_space c clock application in
    if first.1 then first else if second.1 then second else third

-- The probes that are asked for behind the retransmission, and the timer for the next one.
unfoldable pub finish_pto : SendControl → Bool → SendControl
finish_pto c found =
    let c2 = if not found && not c.handshake_complete then emit c (probe_needed ∷ []) else c in
    let c3 = if c2.handshake_complete then emit c2 (application_probe ∷ []) else c2 in
    emit c3 (add_pto_timer (pto_delay c3) ∷ remove_pto_timer ∷ [])

unfoldable pub on_pto_timer : SendControl → ℕ → SendControl
unfolding probe_spaces finish_pto
on_pto_timer c clock =
    let (c1, found) =
      probe_spaces (record c { rtt_calculator = on_pto_expired c.rtt_calculator }) clock in
    finish_pto c1 found

abbrev pub same_space : PacketNumberSpace → PacketNumberSpace → Bool
same_space initial initial = true
same_space handshake handshake = true
same_space application application = true
same_space _ _ = false

abbrev pub remove_timers : PacketNumberSpace → Unacked → List Effect
remove_timers ns m = reverse (map (λ (e : ℕ × PacketInfo). remove_packet_timer ns e.0) m)

-- The packets of a space that wait for retransmission are dropped too.
unfoldable pub drop_lost : PacketNumberSpace → List LostPacketEntry → List LostPacketEntry
drop_lost ns [] = []
drop_lost ns (e ∷ es) = let rest = drop_lost ns es in if same_space e.ns ns then rest else e ∷ rest

abbrev pub drop_space : SendControl → PacketNumberSpace → SendControl
drop_space c ns = emit (with_unacked c ns []) (remove_timers ns (space_of c ns).unacked_packets)

unfoldable pub clear_retransmission_data : SendControl → SendControl
clear_retransmission_data c =
    drop_space (drop_space (drop_space (record c { lost_packets = [] }) initial) handshake)
      application

unfoldable pub discard_packet_number_space : SendControl → PacketNumberSpace → SendControl
unfolding drop_lost
discard_packet_number_space c ns =
    let c1 = drop_space (record c { lost_packets = drop_lost ns c.lost_packets }) ns in
    with_space c1 ns (record (space_of c1 ns) {
      pkt_num_largest_sent = 0;
      pkt_num_largest_acked = 0;
      largest_sent_time = 0;
    })

unfoldable pub reset_initial_packet_number : SendControl → SendControl
unfolding drop_lost
reset_initial_packet_number c =
    drop_space (record c { lost_packets = drop_lost initial c.lost_packets }) initial

abbrev pub update_config : SendControl → ℕ → ℕ → SendControl
update_config c max_ack_delay ack_delay_exponent = record c {
  max_ack_delay = max_ack_delay % 2 ^ 32;
  ack_delay_exponent = ack_delay_exponent % 2 ^ 32;
}
