-- ===== src/Recovery/SendControl/Kept.antt =====
-- The calls that keep the account of the bytes in flight.
use quic_x.Common.{
  ℕ, ◌+◌, ◌≡◌, refl, sym, ap, subst, inl, inr, true, false, some, List, [], ◌∷◌, arith, Bool-cases,
  Option-cases,
}
use quic_x.Codec.PacketNumber.{PacketNumberSpace}
use quic_x.Ack.Frame.{AckFrame}
use quic_x.Recovery.Unacked.{Unacked, find_packet, erase_packet, mark_lost, PacketInfo}
use quic_x.Recovery.Unacked.Outstanding.{
  outstanding, weight_of, erase-Distinct, mark-Distinct, outstanding-erase, outstanding-mark,
  erase-Below, mark-Below,
}
use quic_x.Recovery.SendControl.{
  space_of, on_packet_timer, ack_packet, ack_all, Effect, SendControl,
}
use quic_x.Recovery.SendControl.Loss.{declare_lost}
use quic_x.Recovery.SendControl.Ledger.{
  sent_bytes, settled_bytes, view, order_of, put_map-IsBalanced, map-view, InOrder, IsBalanced,
}
use quic_x.Recovery.SendControl.Views.{
  Becomes, declare_lost-none, declare_lost-some, on_packet_timer-some, on_packet_timer-none,
  on_packet_timer-lost, ack_packet-none, ack_packet-some, acked_effects-sent, acked_effects-settled,
}

pub erase-InOrder :
    (bound pn : ℕ) (m : Unacked) → InOrder bound m → InOrder bound (erase_packet pn m)
erase-InOrder bound pn m o = record {
  distinct = erase-Distinct pn m o.distinct;
  below = erase-Below bound pn m o.below;
}

pub mark-InOrder : (bound pn : ℕ) (m : Unacked) → InOrder bound m → InOrder bound (mark_lost pn m)
mark-InOrder bound pn m o = record {
  distinct = mark-Distinct pn m o.distinct;
  below = mark-Below bound pn m o.below;
}

module _ (bound : PacketNumberSpace → ℕ) where
  abbrev pub Balanced : SendControl → Type 0
  Balanced c = IsBalanced bound (view c)

  pub Becomes-Balanced :
      (d c : SendControl) (ns : PacketNumberSpace) (m : Unacked) (es : List Effect)
      → Becomes d c ns m es
      → Balanced c
      → sent_bytes es + outstanding (space_of c ns).unacked_packets
        ≡ settled_bytes es + outstanding m
      → InOrder (bound ns) m
      → Balanced d
  Becomes-Balanced d c ns m es e b s o =
      subst (λ v. IsBalanced bound v) (sym e)
        (put_map-IsBalanced bound (view c) ns m es b (rw (map-view c ns) s) o)

  pub order_in :
      (c : SendControl) (ns : PacketNumberSpace)
      → Balanced c
      → InOrder (bound ns) (space_of c ns).unacked_packets
  order_in c ns b = subst (λ m. InOrder (bound ns) m) (map-view c ns) (order_of b ns)

  pub weight_found :
      (m : Unacked) (pn : ℕ) (info : PacketInfo)
      → find_packet pn m ≡ some info
      → info.is_lost ≡ false
      → weight_of (find_packet pn m) ≡ info.pkt_len
  weight_found m pn info e l = rw e (rw l refl)

  weight_lost :
      (m : Unacked) (pn : ℕ) (info : PacketInfo)
      → find_packet pn m ≡ some info
      → info.is_lost ≡ true
      → weight_of (find_packet pn m) ≡ 0
  weight_lost m pn info e l = rw e (rw l refl)

  -- A packet that is declared lost, or that is not in the map.
  pub declare_lost-Balanced :
      (c : SendControl) (now : ℕ) (ns : PacketNumberSpace) (pn : ℕ)
      → ((info : PacketInfo)
          → find_packet pn (space_of c ns).unacked_packets ≡ some info
          → info.is_lost ≡ false)
      → Balanced c
      → Balanced (declare_lost c now ns pn)
  declare_lost-Balanced c now ns pn w b =
      let m = (space_of c ns).unacked_packets in
      let o = order_in c ns b in
      elim (Option-cases (find_packet pn m)) [
        | inl e ↦ rw (declare_lost-none c now ns pn e) b
        | inr (info, e) ↦
            let k = weight_found m pn info e (w info e) in
            Becomes-Balanced (declare_lost c now ns pn) c ns (erase_packet pn m) _
              (declare_lost-some c now ns pn info e) b
              (unfold sent_bytes in
                unfold settled_bytes in omega (arith, outstanding-erase pn m o.distinct))
              (erase-InOrder (bound ns) pn m o)
      ]

  pub on_packet_timer-Balanced :
      (c : SendControl) (ns : PacketNumberSpace) (pn clock : ℕ)
      → Balanced c
      → Balanced (on_packet_timer c ns pn clock)
  on_packet_timer-Balanced c ns pn clock b =
      let m = (space_of c ns).unacked_packets in
      let o = order_in c ns b in
      elim (Option-cases (find_packet pn m)) [
        | inl e ↦ rw (on_packet_timer-none c ns pn clock e) b
        | inr (info, e) ↦ elim (Bool-cases info.is_lost) [
          | inl l ↦ rw (on_packet_timer-lost c ns pn clock info e l) b
          | inr l ↦
              let k = weight_found m pn info e l in
              Becomes-Balanced (on_packet_timer c ns pn clock) c ns (mark_lost pn m) _
                (on_packet_timer-some c ns pn clock info e l) b
                (unfold sent_bytes in
                  unfold settled_bytes in omega (arith, outstanding-mark pn m o.distinct))
                (mark-InOrder (bound ns) pn m o)
        ]
      ]

  pub ack_packet-Balanced :
      (c : SendControl) (now : ℕ) (ns : PacketNumberSpace) (f : AckFrame) (pn : ℕ)
      → Balanced c
      → Balanced (ack_packet c now ns f pn)
  ack_packet-Balanced c now ns f pn b =
      let m = (space_of c ns).unacked_packets in
      let o = order_in c ns b in
      elim (Option-cases (find_packet pn m)) [
        | inl e ↦ rw (ack_packet-none c now ns f pn e) b
        | inr (info, e) ↦
            Becomes-Balanced (ack_packet c now ns f pn) c ns (erase_packet pn m) _
              (ack_packet-some c now ns f pn info e) b
              (omega (
                arith,
                outstanding-erase pn m o.distinct,
                ap weight_of e,
                acked_effects-sent now ns f pn info,
                acked_effects-settled now ns f pn info,
              ))
              (erase-InOrder (bound ns) pn m o)
      ]

  pub ack_all-Balanced :
      (c : SendControl) (now : ℕ) (ns : PacketNumberSpace) (f : AckFrame) (pns : List ℕ)
      → Balanced c
      → Balanced (ack_all c now ns f pns)
  unfolding ack_all
  ack_all-Balanced c now ns f [] b = b
  ack_all-Balanced c now ns f (pn ∷ pns) b =
      ack_all-Balanced (ack_packet c now ns f pn) now ns f pns (ack_packet-Balanced c now ns f pn b)
