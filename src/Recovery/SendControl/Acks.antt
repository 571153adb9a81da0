-- ===== src/Recovery/SendControl/Acks.antt =====
-- An ACK frame and the PTO timer keep the account of the bytes in flight.
use quic_x.Common.{
  ℕ, ◌≡◌, refl, sym, ap, subst, inl, inr, Bool, not, ◌&&◌, some, List, [], ◌∷◌, arith,
  if◌then◌else◌, Bool-cases, Option-cases, if_both, bind-eq_some, mul64,
}
use quic_x.Codec.PacketNumber.{PacketNumberSpace, initial, handshake, application}
use quic_x.Ack.Frame.{AckFrame}
use quic_x.Recovery.Rtt.{on_pto_expired, on_packet_acked}
use quic_x.Recovery.Unacked.{find_packet, erase_packet, mark_lost}
use quic_x.Recovery.Unacked.Outstanding.{weight_of, outstanding-erase, outstanding-mark}
use quic_x.Recovery.SendControl.{
  space_of, with_space, emit, pto_delay, ack_found, look_up_largest, ack_largest, cc_lost,
  remove_packet_timer, add_pto_timer, remove_pto_timer, probe_needed, application_probe,
  packet_lost, SendControl,
}
use quic_x.Recovery.SendControl.Loss.{
  rearm_pto, further_numbers, process_ack, on_packet_ack, first_packet, probe_space, probe_spaces,
  finish_pto, on_pto_timer,
}
use quic_x.Recovery.SendControl.Ledger.{
  sent_bytes, settled_bytes, view, told-IsBalanced, IsBalanced,
}
use quic_x.Recovery.SendControl.Views.{
  found_effects, found_effects_told, ack_found-view, space-same, probe_space-none, probe_space-lost,
  probe_space-some, find-first_packet,
}
use quic_x.Recovery.SendControl.Kept.{
  erase-InOrder, mark-InOrder, Balanced, Becomes-Balanced, order_in, weight_found, ack_all-Balanced,
}
use quic_x.Recovery.SendControl.Losses.{detect-Balanced}

module _ (bound : PacketNumberSpace → ℕ) where
  look_up_largest-Balanced :
      (c : SendControl) (now : ℕ) (ns : PacketNumberSpace) (f : AckFrame)
      → Balanced bound c
      → Balanced bound (look_up_largest c now ns f)
  unfolding look_up_largest
  look_up_largest-Balanced c now ns f b =
      let m = (space_of c ns).unacked_packets in
      let pn = f.largest_acknowledged in
      let o = order_in bound c ns b in
      elim (Option-cases (find_packet pn m)) [
        | inl e ↦ rw (e, look_up_largest) b
        | inr (info, e) ↦
            let (st, se) = found_effects_told c now ns f info in
            rw (e, look_up_largest)
              (Becomes-Balanced bound (ack_found c now ns f info) c ns (erase_packet pn m)
                (found_effects c now ns f info) (ack_found-view c now ns f info) b
                (omega (arith, st, se, outstanding-erase pn m o.distinct, ap weight_of e))
                (erase-InOrder (bound ns) pn m o))
      ]

  ack_largest-Balanced :
      (c : SendControl) (now : ℕ) (ns : PacketNumberSpace) (f : AckFrame)
      → Balanced bound c
      → Balanced bound (ack_largest c now ns f)
  unfolding ack_largest
  ack_largest-Balanced c now ns f b =
      let raised = record (space_of c ns) { pkt_num_largest_acked = f.largest_acknowledged } in
      let c1 = with_space c ns raised in
      let b1 : Balanced bound c1 =
        subst (λ v. IsBalanced bound v) (sym (space-same c ns raised refl)) b in
      if_both (λ d. Balanced bound d) _ (look_up_largest c1 now ns f) c
        (look_up_largest-Balanced c1 now ns f b1) b

  rearm_pto-Balanced : (c : SendControl) → Balanced bound c → Balanced bound (rearm_pto c)
  unfolding rearm_pto sent_bytes settled_bytes
  rearm_pto-Balanced c b =
      let c1 =
        emit (record c { rtt_calculator = on_packet_acked c.rtt_calculator })
          (remove_pto_timer ∷ []) in
      let b1 : Balanced bound c1 =
        told-IsBalanced bound (view c) (remove_pto_timer ∷ []) b refl refl in
      if_both (λ d. Balanced bound d) _ (emit c1 (add_pto_timer (pto_delay c1) ∷ [])) c1
        (told-IsBalanced bound (view c1) (add_pto_timer (pto_delay c1) ∷ []) b1 refl refl) b1

  process_ack-Balanced :
      (c : SendControl) (now : ℕ) (ns : PacketNumberSpace) (f : AckFrame) (pns : List ℕ)
      → Balanced bound c
      → Balanced bound (process_ack c now ns f pns)
  unfolding process_ack
  process_ack-Balanced c now ns f pns b = rearm_pto-Balanced _ (
      detect-Balanced bound _ now ns f.largest_acknowledged
        (ack_all-Balanced bound _ now ns f pns (ack_largest-Balanced c now ns f b)))

  pub on_packet_ack-Balanced :
      (fuel : ℕ) (c : SendControl) (now : ℕ) (ns : PacketNumberSpace) (f : AckFrame)
      (d : SendControl)
      → on_packet_ack fuel c now ns f ≡ some d
      → Balanced bound c
      → Balanced bound d
  unfolding on_packet_ack
  on_packet_ack-Balanced fuel c now ns f d e b =
      let (pns, n, g) = bind-eq_some (further_numbers fuel f) _ e in
      let h : process_ack c now ns f pns ≡ d = cc in
      subst (λ k. Balanced bound k) h (process_ack-Balanced c now ns f pns b)

  probe_space-Balanced :
      (c : SendControl) (clock : ℕ) (ns : PacketNumberSpace)
      → Balanced bound c
      → Balanced bound (probe_space c clock ns).0
  probe_space-Balanced c clock ns b =
      let m = (space_of c ns).unacked_packets in
      let o = order_in bound c ns b in
      elim (Option-cases (first_packet m)) [
        | inl e ↦ rw (ap (λ p. p.0) (probe_space-none c clock ns e)) b
        | inr (entry, e) ↦ elim (Bool-cases entry.1.is_lost) [
          | inl l ↦ rw (ap (λ p. p.0) (probe_space-lost c clock ns entry e l)) b
          | inr l ↦
              let k = weight_found bound m entry.0 entry.1 (find-first_packet m entry e) l in
              Becomes-Balanced bound (probe_space c clock ns).0 c ns (mark_lost entry.0 m)
                (packet_lost entry.1.packet
                  ∷ remove_packet_timer ns entry.0
                  ∷ cc_lost entry.0 entry.1.pkt_len (mul64 clock 1000)
                  ∷ [])
                (probe_space-some c clock ns entry e l) b
                (unfold sent_bytes in
                  unfold settled_bytes in omega (arith, outstanding-mark entry.0 m o.distinct))
                (mark-InOrder (bound ns) entry.0 m o)
        ]
      ]

  finish_pto-Balanced :
      (c : SendControl) (found : Bool) → Balanced bound c → Balanced bound (finish_pto c found)
  unfolding finish_pto sent_bytes settled_bytes
  finish_pto-Balanced c found b =
      let c2 = if not found && not c.handshake_complete then emit c (probe_needed ∷ []) else c in
      let b2 : Balanced bound c2 =
        if_both (λ d. Balanced bound d) _ (emit c (probe_needed ∷ [])) c
          (told-IsBalanced bound (view c) (probe_needed ∷ []) b refl refl) b in
      let c3 = if c2.handshake_complete then emit c2 (application_probe ∷ []) else c2 in
      let b3 : Balanced bound c3 =
        if_both (λ d. Balanced bound d) _ (emit c2 (application_probe ∷ [])) c2
          (told-IsBalanced bound (view c2) (application_probe ∷ []) b2 refl refl) b2 in
      told-IsBalanced bound (view c3) (add_pto_timer (pto_delay c3) ∷ remove_pto_timer ∷ []) b3 refl
        refl

  pub on_pto_timer-Balanced :
      (c : SendControl) (clock : ℕ) → Balanced bound c → Balanced bound (on_pto_timer c clock)
  unfolding on_pto_timer probe_spaces
  on_pto_timer-Balanced c clock b =
      let c0 = record c { rtt_calculator = on_pto_expired c.rtt_calculator } in
      let P = λ (p : SendControl × Bool). Balanced bound p.0 in
      let first = probe_space c0 clock initial in
      let second = probe_space c0 clock handshake in
      let third = probe_space c0 clock application in
      let b1 : Balanced bound (probe_spaces c0 clock).0 =
        if_both P first.1 first (if second.1 then second else third)
          (probe_space-Balanced c0 clock initial b)
          (if_both P second.1 second third (probe_space-Balanced c0 clock handshake b)
            (probe_space-Balanced c0 clock application b)) in
      finish_pto-Balanced (probe_spaces c0 clock).0 (probe_spaces c0 clock).1 b1
