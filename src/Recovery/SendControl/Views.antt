-- ===== src/Recovery/SendControl/Views.antt =====
-- What the calls of `SendControl` do to the account of the bytes in flight.
use quic_x.Recovery.Rtt.{update_rtt}
use mathlib.Core.List.{reverse, reverse-append}
use quic_x.Common.{
  ℕ, ◌*◌, ◌%◌, ◌^◌, max, ◌≡◌, refl, ap, ◌∙◌, inl, inr, Bool, true, false, Option, none, some, List,
  [], ◌∷◌, ◌++◌, arith, if◌then◌else◌, Bool-cases, if_both, mul64,
}
use quic_x.Codec.PacketNumber.{PacketNumberSpace, initial, handshake, application}
use quic_x.Ack.Frame.{AckFrame}
use quic_x.Recovery.Unacked.{
  Unacked, find_packet, erase_packet, mark_lost, save_packet, StreamDataInfo, PacketInfo,
}
use quic_x.Recovery.Unacked.Outstanding.{weight}
use quic_x.Recovery.SendControl.{
  space_of, with_space, with_unacked, emit, pto_delay, info_of, track_packet, give_up,
  on_packet_timer, data_acks, ack_packet, note_ecn, ack_found, Space, Effect, cc_sent, cc_acked,
  cc_lost, cc_round_trip, add_packet_timer, remove_packet_timer, add_pto_timer, remove_pto_timer,
  stream_data_ack, packet_lost, SendControl, SentPacket,
}
use quic_x.Recovery.SendControl.Loss.{declare_lost, first_packet, probe_space}
use quic_x.Recovery.SendControl.Ledger.{
  sent_bytes, settled_bytes, sent-append, settled-append, view, put_map,
}

-- A control whose account is the one of another with a new map and new effects.
abbrev pub Becomes : SendControl → SendControl → PacketNumberSpace → Unacked → List Effect → Type 0
Becomes d c ns m es = view d ≡ put_map (view c) ns m es

pub give_up-view :
    (c : SendControl) (ns : PacketNumberSpace) (m : Unacked) (pn : ℕ) (info : PacketInfo)
    (es : List Effect)
    → Becomes (emit (give_up (with_unacked c ns m) ns pn info) es) c ns m es
give_up-view c initial m pn info es = refl
give_up-view c handshake m pn info es = refl
give_up-view c application m pn info es = refl

pub declare_lost-none :
    (c : SendControl) (now : ℕ) (ns : PacketNumberSpace) (pn : ℕ)
    → find_packet pn (space_of c ns).unacked_packets ≡ none
    → declare_lost c now ns pn ≡ c
unfolding declare_lost
declare_lost-none c now ns pn e = rw (e, declare_lost) refl

pub declare_lost-some :
    (c : SendControl) (now : ℕ) (ns : PacketNumberSpace) (pn : ℕ) (info : PacketInfo)
    → find_packet pn (space_of c ns).unacked_packets ≡ some info
    → Becomes (declare_lost c now ns pn) c ns (erase_packet pn (space_of c ns).unacked_packets) (
        packet_lost info.packet
        ∷ cc_lost pn info.pkt_len (mul64 now 1000)
        ∷ remove_packet_timer ns pn
        ∷ [])
unfolding declare_lost
declare_lost-some c now ns pn info e =
    rw (e, declare_lost)
      (give_up-view c ns (erase_packet pn (space_of c ns).unacked_packets) pn info (
        packet_lost info.packet
        ∷ cc_lost pn info.pkt_len (mul64 now 1000)
        ∷ remove_packet_timer ns pn
        ∷ []))

-- The timer of a packet changes nothing, or marks the packet as lost.
pub on_packet_timer-some :
    (c : SendControl) (ns : PacketNumberSpace) (pn clock : ℕ) (info : PacketInfo)
    → find_packet pn (space_of c ns).unacked_packets ≡ some info
    → info.is_lost ≡ false
    → Becomes
        (on_packet_timer c ns pn clock)
        c
        ns
        (mark_lost pn (space_of c ns).unacked_packets)
        (packet_lost info.packet ∷ cc_lost pn info.pkt_len (mul64 clock 1000) ∷ [])
unfolding on_packet_timer
on_packet_timer-some c ns pn clock info e l =
    rw (e, on_packet_timer)
      (rw l (
        give_up-view c ns (mark_lost pn (space_of c ns).unacked_packets) pn info
          (packet_lost info.packet ∷ cc_lost pn info.pkt_len (mul64 clock 1000) ∷ [])))

pub on_packet_timer-none :
    (c : SendControl) (ns : PacketNumberSpace) (pn clock : ℕ)
    → find_packet pn (space_of c ns).unacked_packets ≡ none
    → on_packet_timer c ns pn clock ≡ c
unfolding on_packet_timer
on_packet_timer-none c ns pn clock e = rw (e, on_packet_timer) refl

pub on_packet_timer-lost :
    (c : SendControl) (ns : PacketNumberSpace) (pn clock : ℕ) (info : PacketInfo)
    → find_packet pn (space_of c ns).unacked_packets ≡ some info
    → info.is_lost ≡ true
    → on_packet_timer c ns pn clock ≡ c
unfolding on_packet_timer
on_packet_timer-lost c ns pn clock info e l = rw (e, on_packet_timer) (rw l refl)

pub acked_effects : ℕ → PacketNumberSpace → AckFrame → ℕ → PacketInfo → List Effect
acked_effects now ns f pn info =
    reverse (data_acks info.stream_data)
    ++ ((if info.is_lost
          then []
          else (cc_acked pn info.pkt_len (mul64 now 1000) f.ack_delay false
                (mul64 info.send_time 1000)
              ∷ []))
        ++ remove_packet_timer ns pn ∷ [])

pub emit-view :
    (c : SendControl) (ns : PacketNumberSpace) (m : Unacked) (es : List Effect)
    → Becomes (emit (with_unacked c ns m) es) c ns m es
emit-view c initial m es = refl
emit-view c handshake m es = refl
emit-view c application m es = refl

pub ack_packet-none :
    (c : SendControl) (now : ℕ) (ns : PacketNumberSpace) (f : AckFrame) (pn : ℕ)
    → find_packet pn (space_of c ns).unacked_packets ≡ none
    → ack_packet c now ns f pn ≡ c
unfolding ack_packet
ack_packet-none c now ns f pn e = rw (e, ack_packet) refl

pub ack_packet-some :
    (c : SendControl) (now : ℕ) (ns : PacketNumberSpace) (f : AckFrame) (pn : ℕ) (info : PacketInfo)
    → find_packet pn (space_of c ns).unacked_packets ≡ some info
    → Becomes
        (ack_packet c now ns f pn)
        c
        ns
        (erase_packet pn (space_of c ns).unacked_packets)
        (acked_effects now ns f pn info)
unfolding ack_packet acked_effects
ack_packet-some c now ns f pn info e =
    rw (e, ack_packet)
      (emit-view c ns (erase_packet pn (space_of c ns).unacked_packets)
        (acked_effects now ns f pn info))

pub acks_told :
    (infos : List StreamDataInfo)
    → (sent_bytes (reverse (data_acks infos)) ≡ 0) × (settled_bytes (reverse (data_acks infos)) ≡ 0)
unfolding sent_bytes settled_bytes
acks_told [] = (refl, refl)
acks_told (i ∷ infos) =
    let (s, t) = acks_told infos in
    let r = reverse-append (stream_data_ack i ∷ []) (data_acks infos) in
    (
      rw r (sent-append (reverse (data_acks infos)) (stream_data_ack i ∷ []) ∙ omega arith),
      rw r (settled-append (reverse (data_acks infos)) (stream_data_ack i ∷ []) ∙ omega arith),
    )

pub acked_effects-sent :
    (now : ℕ) (ns : PacketNumberSpace) (f : AckFrame) (pn : ℕ) (info : PacketInfo)
    → sent_bytes (acked_effects now ns f pn info) ≡ 0
unfolding acked_effects sent_bytes
acked_effects-sent now ns f pn info =
    let (s, t) = acks_told info.stream_data in
    rw (sent-append, s) (elim (Bool-cases info.is_lost) [ inl l ↦ rw l refl | inr l ↦ rw l refl ])

pub acked_effects-settled :
    (now : ℕ) (ns : PacketNumberSpace) (f : AckFrame) (pn : ℕ) (info : PacketInfo)
    → settled_bytes (acked_effects now ns f pn info) ≡ weight info
unfolding acked_effects settled_bytes
acked_effects-settled now ns f pn info =
    let (s, t) = acks_told info.stream_data in
    rw (settled-append, t)
      (elim (Bool-cases info.is_lost) [ inl l ↦ rw l refl | inr l ↦ rw l (omega arith) ])

note_ecn-unacked :
    (s : Space) (ecn : Option (ℕ × ℕ × ℕ)) → (note_ecn s ecn).0.unacked_packets ≡ s.unacked_packets
unfolding note_ecn
note_ecn-unacked s none = refl
note_ecn-unacked s (some (a, b, c)) =
    if_both (λ (p : Space × Bool). p.0.unacked_packets ≡ s.unacked_packets) _ _ _ refl refl

-- The effects of the largest acknowledged packet: a round-trip time more.
pub found_effects : SendControl → ℕ → PacketNumberSpace → AckFrame → PacketInfo → List Effect
found_effects c now ns f info =
    let delay = f.ack_delay * 2 ^ c.ack_delay_exponent % 2 ^ 32 in
    let rtt = update_rtt c.rtt_calculator info.send_time now delay in
    reverse (data_acks info.stream_data)
    ++ ((if info.is_lost
          then []
          else (cc_round_trip (max 1 rtt.smoothed_rtt * 1000) (f.ack_delay * 1000)
              ∷ cc_acked f.largest_acknowledged info.pkt_len (mul64 now 1000) f.ack_delay
                  (note_ecn (space_of c ns) f.ecn).1 (mul64 info.send_time 1000)
              ∷ []))
        ++ remove_packet_timer ns f.largest_acknowledged ∷ [])

pub found_effects_told :
    (c : SendControl) (now : ℕ) (ns : PacketNumberSpace) (f : AckFrame) (info : PacketInfo)
    → (sent_bytes (found_effects c now ns f info) ≡ 0)
      × (settled_bytes (found_effects c now ns f info) ≡ weight info)
unfolding found_effects sent_bytes settled_bytes
found_effects_told c now ns f info =
    let (s, t) = acks_told info.stream_data in
    (
      rw (sent-append, s)
          (elim (Bool-cases info.is_lost) [ inl l ↦ rw l refl | inr l ↦ rw l refl ]),
      rw (settled-append, t)
          (elim (Bool-cases info.is_lost) [ inl l ↦ rw l refl | inr l ↦ rw l (omega arith) ]),
    )

space-view :
    (c : SendControl) (ns : PacketNumberSpace) (s : Space) (es : List Effect) (m : Unacked)
    → s.unacked_packets ≡ m
    → Becomes (emit (with_space c ns s) es) c ns m es
space-view c initial s es m e = rw e refl
space-view c handshake s es m e = rw e refl
space-view c application s es m e = rw e refl

pub ack_found-view :
    (c : SendControl) (now : ℕ) (ns : PacketNumberSpace) (f : AckFrame) (info : PacketInfo)
    → Becomes
        (ack_found c now ns f info)
        c
        ns
        (erase_packet f.largest_acknowledged (space_of c ns).unacked_packets)
        (found_effects c now ns f info)
unfolding ack_found found_effects
ack_found-view c now ns f info =
    let pn = f.largest_acknowledged in
    let delay = f.ack_delay * 2 ^ c.ack_delay_exponent % 2 ^ 32 in
    let rtt = update_rtt c.rtt_calculator info.send_time now delay in
    let s = (note_ecn (space_of c ns) f.ecn).0 in
    space-view (record c { rtt_calculator = rtt }) ns
      (record s { unacked_packets = erase_packet pn s.unacked_packets })
      (found_effects c now ns f info) (erase_packet pn (space_of c ns).unacked_packets)
      (ap (λ m. erase_packet pn m) (note_ecn-unacked (space_of c ns) f.ecn))

-- Fields of a space other than its map.
pub space-same :
    (c : SendControl) (ns : PacketNumberSpace) (s : Space)
    → s.unacked_packets ≡ (space_of c ns).unacked_packets
    → view (with_space c ns s) ≡ view c
space-same c initial s e = rw e refl
space-same c handshake s e = rw e refl
space-same c application s e = rw e refl

pub Becomes-map :
    (d c : SendControl) (ns : PacketNumberSpace) (m : Unacked) (es : List Effect)
    → Becomes d c ns m es
    → (space_of d ns).unacked_packets ≡ m
Becomes-map d c initial m es e = ap (λ v. v.map_initial) e
Becomes-map d c handshake m es e = ap (λ v. v.map_handshake) e
Becomes-map d c application m es e = ap (λ v. v.map_application) e

pub with-of :
    (c : SendControl) (ns : PacketNumberSpace) (s : Space) → space_of (with_space c ns s) ns ≡ s
with-of c initial s = refl
with-of c handshake s = refl
with-of c application s = refl

pub track_packet-view :
    (c : SendControl) (now : ℕ) (p : SentPacket)
    → Becomes
        (track_packet c now p)
        c
        p.ns
        (save_packet p.pn
          (info_of p (space_of c p.ns).largest_sent_time)
          (space_of c p.ns).unacked_packets)
        (add_pto_timer (pto_delay c)
          ∷ remove_pto_timer
          ∷ add_packet_timer p.ns p.pn (pto_delay c)
          ∷ cc_sent p.pn p.pkt_len (mul64 now 1000)
          ∷ [])
unfolding track_packet
track_packet-view c now p =
    let s = space_of c p.ns in
    let saved = save_packet p.pn (info_of p s.largest_sent_time) s.unacked_packets in
    space-view c p.ns (record s { unacked_packets = saved })
      (add_pto_timer (pto_delay c)
        ∷ remove_pto_timer
        ∷ add_packet_timer p.ns p.pn (pto_delay c)
        ∷ cc_sent p.pn p.pkt_len (mul64 now 1000)
        ∷ [])
      saved refl

pub probe_space-none :
    (c : SendControl) (clock : ℕ) (ns : PacketNumberSpace)
    → first_packet (space_of c ns).unacked_packets ≡ none
    → probe_space c clock ns ≡ (c, false)
unfolding probe_space
probe_space-none c clock ns e = rw (e, probe_space) refl

pub probe_space-lost :
    (c : SendControl) (clock : ℕ) (ns : PacketNumberSpace) (entry : ℕ × PacketInfo)
    → first_packet (space_of c ns).unacked_packets ≡ some entry
    → entry.1.is_lost ≡ true
    → probe_space c clock ns ≡ (c, false)
unfolding probe_space
probe_space-lost c clock ns (pn, info) e l = rw (e, probe_space) (rw l refl)

pub probe_space-some :
    (c : SendControl) (clock : ℕ) (ns : PacketNumberSpace) (entry : ℕ × PacketInfo)
    → first_packet (space_of c ns).unacked_packets ≡ some entry
    → entry.1.is_lost ≡ false
    → Becomes (probe_space c clock ns).0 c ns (mark_lost entry.0 (space_of c ns).unacked_packets) (
        packet_lost entry.1.packet
        ∷ remove_packet_timer ns entry.0
        ∷ cc_lost entry.0 entry.1.pkt_len (mul64 clock 1000)
        ∷ [])
unfolding probe_space
probe_space-some c clock ns (pn, info) e l =
    rw (e, probe_space)
      (rw l (
        give_up-view c ns (mark_lost pn (space_of c ns).unacked_packets) pn info (
          packet_lost info.packet
          ∷ remove_packet_timer ns pn
          ∷ cc_lost pn info.pkt_len (mul64 clock 1000)
          ∷ [])))

pub find-first_packet :
    (m : Unacked) (entry : ℕ × PacketInfo)
    → first_packet m ≡ some entry
    → find_packet entry.0 m ≡ some entry.1
unfolding find_packet
find-first_packet [] entry e = cc
find-first_packet ((pn, info) ∷ m) (n, i) e = ground arith
