-- ===== src/Recovery/SendControl/Threshold.antt =====
-- Which packets an ACK makes `DetectLostPackets` give up.
use quic_x.Ack.Sent.Returns.{IsShort, walk_ranges-returns}
use quic_x.Ack.Sent.{walk_first}
use mathlib.Core.List.{reverse-append}
use quic_x.Common.{
  ℕ, ◌+◌, ◌%◌, ◌^◌, ◌<◌, ◌≡◌, refl, ap, ◌∙◌, inl, inr, not, ◌&&◌, none, some, List, [], ◌∷◌, ◌++◌,
  map, arith, ltb, leb, if◌then◌else◌, lt→ltb, Option-cases, All, add64,
}
use quic_x.Codec.PacketNumber.{PacketNumberSpace, initial, handshake, application}
use quic_x.Ack.Frame.{AckFrame}
use quic_x.Recovery.Unacked.{Unacked, find_packet, erase_packet, PacketInfo}
use quic_x.Recovery.Unacked.Outstanding.{outstanding, find-erase_self, find-erase_none}
use quic_x.Recovery.SendControl.{
  space_of, with_space, ack_packet, ack_found, look_up_largest, ack_largest, ack_all,
  remove_packet_timer, SendControl,
}
use quic_x.Recovery.SendControl.Loss.{
  loss_delay, should_declare_lost, lost_numbers, declare_all, detect_lost_packets, process_ack,
  on_packet_ack, remove_timers, discard_packet_number_space,
}
use quic_x.Recovery.SendControl.Ledger.{
  sent_bytes, settled_bytes, sent-append, settled-append, view, in_flight,
}
use quic_x.Recovery.SendControl.Views.{
  ack_packet-none, ack_packet-some, ack_found-view, Becomes-map,
}

-- The packets that are three numbers below `largest` and not marked as lost.
unfoldable pub three_below : ℕ → Unacked → List ℕ
three_below largest [] = []
three_below largest ((pn, info) ∷ m) =
    let rest = three_below largest m in
    if ltb pn largest && leb (add64 pn 3) largest && not info.is_lost then pn ∷ rest else rest

lost_numbers-three_below :
    (delay largest : ℕ) (m : Unacked) → lost_numbers delay largest 0 m ≡ three_below largest m
unfolding lost_numbers three_below should_declare_lost
lost_numbers-three_below delay largest [] = refl
lost_numbers-three_below delay largest ((pn, info) ∷ m) =
    ground (arith, lost_numbers-three_below delay largest m)

abbrev Lacks : SendControl → PacketNumberSpace → ℕ → Type 0
Lacks c ns pn = find_packet pn (space_of c ns).unacked_packets ≡ none

ack_packet-Lacks :
    (c : SendControl) (now : ℕ) (ns : PacketNumberSpace) (f : AckFrame) (q pn : ℕ)
    → Lacks c ns pn
    → Lacks (ack_packet c now ns f q) ns pn
ack_packet-Lacks c now ns f q pn l =
    let m = (space_of c ns).unacked_packets in
    elim (Option-cases (find_packet q m)) [
      | inl e ↦ rw (ack_packet-none c now ns f q e) l
      | inr (info, e) ↦
          let d = ack_packet c now ns f q in
          rw (Becomes-map d c ns (erase_packet q m) _ (ack_packet-some c now ns f q info e))
            (find-erase_none pn q m l)
    ]

ack_all-Lacks :
    (c : SendControl) (now : ℕ) (ns : PacketNumberSpace) (f : AckFrame) (pns : List ℕ) (pn : ℕ)
    → Lacks c ns pn
    → Lacks (ack_all c now ns f pns) ns pn
unfolding ack_all
ack_all-Lacks c now ns f [] pn l = l
ack_all-Lacks c now ns f (q ∷ pns) pn l =
    ack_all-Lacks (ack_packet c now ns f q) now ns f pns pn (ack_packet-Lacks c now ns f q pn l)

look_up_largest-Lacks :
    (c : SendControl) (now : ℕ) (ns : PacketNumberSpace) (f : AckFrame)
    → Lacks (look_up_largest c now ns f) ns f.largest_acknowledged
unfolding look_up_largest
look_up_largest-Lacks c now ns f =
    let m = (space_of c ns).unacked_packets in
    let pn = f.largest_acknowledged in
    elim (Option-cases (find_packet pn m)) [
      | inl e ↦ rw (e, look_up_largest) e
      | inr (info, e) ↦
          rw (e, look_up_largest)
            (rw
              (Becomes-map (ack_found c now ns f info) c ns (erase_packet pn m) _
                (ack_found-view c now ns f info))
              (find-erase_self pn m))
    ]

-- When the largest number of an ACK frame is above all those acknowledged before, `DetectLostPackets`
-- behind it gives up exactly the packets that are three numbers below it, whatever the round-trip
-- time and the times of sending: the largest packet is no longer in the map, so that the rule on
-- times never applies.
pub detect_lost_packets-three_below :
    (c : SendControl) (now : ℕ) (ns : PacketNumberSpace) (f : AckFrame) (pns : List ℕ)
    → (space_of c ns).pkt_num_largest_acked < f.largest_acknowledged
    → detect_lost_packets
        (ack_all (ack_largest c now ns f) now ns f pns)
        now
        ns
        f.largest_acknowledged
      ≡ declare_all (ack_all (ack_largest c now ns f) now ns f pns) now ns (
          three_below f.largest_acknowledged
            (space_of (ack_all (ack_largest c now ns f) now ns f pns) ns).unacked_packets)
unfolding detect_lost_packets ack_largest
detect_lost_packets-three_below c now ns f pns h =
    let raised = record (space_of c ns) { pkt_num_largest_acked = f.largest_acknowledged } in
    let c1 = look_up_largest (with_space c ns raised) now ns f in
    let d = ack_all c1 now ns f pns in
    let gone : Lacks d ns f.largest_acknowledged =
      ack_all-Lacks c1 now ns f pns f.largest_acknowledged
        (look_up_largest-Lacks (with_space c ns raised) now ns f) in
    let m = (space_of d ns).unacked_packets in
    rw (lt→ltb _ _ h) (
      rw gone (
        ap (λ l. declare_all d now ns l)
          (lost_numbers-three_below (loss_delay d.rtt_calculator) f.largest_acknowledged m)))

timers_told :
    (ns : PacketNumberSpace) (m : Unacked)
    → (sent_bytes (remove_timers ns m) ≡ 0) × (settled_bytes (remove_timers ns m) ≡ 0)
unfolding sent_bytes settled_bytes
timers_told ns [] = (refl, refl)
timers_told ns ((pn, info) ∷ m) =
    let (s, t) = timers_told ns m in
    let r =
      reverse-append (remove_packet_timer ns pn ∷ [])
        (map (λ (e : ℕ × PacketInfo). remove_packet_timer ns e.0) m) in
    (
      rw r (sent-append (remove_timers ns m) (remove_packet_timer ns pn ∷ []) ∙ omega arith),
      rw r (settled-append (remove_timers ns m) (remove_packet_timer ns pn ∷ []) ∙ omega arith),
    )

-- `DiscardPacketNumberSpace` tells the congestion controller nothing: the bytes that it knows as sent
-- and as settled stay as they were, while the bytes in flight fall by those of the space, which the
-- controller goes on counting.
pub discard_packet_number_space-account :
    (c : SendControl) (ns : PacketNumberSpace)
    → (sent_bytes (discard_packet_number_space c ns).effects ≡ sent_bytes c.effects)
      × (settled_bytes (discard_packet_number_space c ns).effects ≡ settled_bytes c.effects)
      × (in_flight (view (discard_packet_number_space c ns))
            + outstanding (space_of c ns).unacked_packets
          ≡ in_flight (view c))
unfolding discard_packet_number_space outstanding
discard_packet_number_space-account c initial =
    let (s, t) = timers_told initial c.initial_space.unacked_packets in
    (
      sent-append (remove_timers initial c.initial_space.unacked_packets) c.effects ∙ omega arith,
      settled-append (remove_timers initial c.initial_space.unacked_packets) c.effects
          ∙ omega arith,
      omega arith,
    )
discard_packet_number_space-account c handshake =
    let (s, t) = timers_told handshake c.handshake_space.unacked_packets in
    (
      sent-append (remove_timers handshake c.handshake_space.unacked_packets) c.effects
          ∙ omega arith,
      settled-append (remove_timers handshake c.handshake_space.unacked_packets) c.effects
          ∙ omega arith,
      omega arith,
    )
discard_packet_number_space-account c application =
    let (s, t) = timers_told application c.application_space.unacked_packets in
    (
      sent-append (remove_timers application c.application_space.unacked_packets) c.effects
          ∙ omega arith,
      settled-append (remove_timers application c.application_space.unacked_packets) c.effects
          ∙ omega arith,
      omega arith,
    )

-- `OnPacketAck` returns, whatever the control, when the fuel is two more than the length of every
-- further range of the frame and the counter of the loop can reach that length.
pub on_packet_ack-returns :
    (fuel : ℕ) (c : SendControl) (now : ℕ) (ns : PacketNumberSpace) (f : AckFrame)
    → All (IsShort fuel) f.ack_ranges
    → (d : SendControl) × (on_packet_ack fuel c now ns f ≡ some d)
unfolding on_packet_ack
on_packet_ack-returns fuel c now ns f h =
    let (first, last) = walk_first (f.first_ack_range % 2 ^ 32) f.largest_acknowledged in
    let (more, e) = walk_ranges-returns fuel f.ack_ranges last h in
    (process_ack c now ns f (first ++ more), rw e refl)
