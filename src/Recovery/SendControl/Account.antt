-- ===== src/Recovery/SendControl/Account.antt =====
-- Whatever packets are sent, acknowledged, declared lost or probed with, the congestion controller
-- is told of every byte once as sent, and once as acknowledged or lost.
use quic_x.Recovery.SendControl.Threshold.{on_packet_ack-returns}
use quic_x.Ack.Sent.Returns.{IsShort}
use quic_x.Common.{
  ℕ, ◌+◌, ◌≤◌, ◌≡◌, refl, sym, subst, true, Option, some, List, [], ◌∷◌, arith, if◌then◌else◌,
  if_both, All, ◌>>=◌, bind-eq_some,
}
use quic_x.Codec.PacketNumber.{PacketNumberSpace, initial, handshake, application}
use quic_x.Ack.Frame.{AckFrame}
use quic_x.Recovery.Rtt.{RttCalculator}
use quic_x.Recovery.Unacked.{Unacked, save_packet}
use quic_x.Recovery.Unacked.Outstanding.{
  outstanding, save-Distinct, outstanding-save, Below-mono, find-Below, save-Below,
}
use quic_x.Recovery.SendControl.{
  new_control, space_of, with_space, info_of, track_packet, on_packet_send, on_packet_timer,
  SendControl, SentPacket,
}
use quic_x.Recovery.SendControl.Loss.{on_packet_ack, on_pto_timer, same_space, update_config}
use quic_x.Recovery.SendControl.Ledger.{
  sent_bytes, settled_bytes, view, in_flight, InOrder, IsBalanced,
}
use quic_x.Recovery.SendControl.Views.{space-same, track_packet-view}
use quic_x.Recovery.SendControl.Kept.{
  Balanced, Becomes-Balanced, order_in, on_packet_timer-Balanced,
}
use quic_x.Recovery.SendControl.Acks.{on_packet_ack-Balanced, on_pto_timer-Balanced}

-- The bound of one space is raised above a number that is sent.
abbrev pub raise_bound : (PacketNumberSpace → ℕ) → PacketNumberSpace → ℕ → PacketNumberSpace → ℕ
raise_bound bound ns pn other = if same_space ns other then pn + 1 else bound other

order_mono : (a b : ℕ) (m : Unacked) → a ≤ b → InOrder a m → InOrder b m
order_mono a b m h o = record { distinct = o.distinct; below = Below-mono a b m h o.below }

raised-Balanced :
    (bound : PacketNumberSpace → ℕ) (ns : PacketNumberSpace) (pn : ℕ) (c : SendControl)
    → bound ns ≤ pn
    → Balanced bound c
    → Balanced (raise_bound bound ns pn) c
raised-Balanced bound initial pn c h b = record {
  account = b.account;
  order_initial = order_mono (bound initial) (pn + 1) _ (omega arith) b.order_initial;
  order_handshake = b.order_handshake;
  order_application = b.order_application;
}
raised-Balanced bound handshake pn c h b = record {
  account = b.account;
  order_initial = b.order_initial;
  order_handshake = order_mono (bound handshake) (pn + 1) _ (omega arith) b.order_handshake;
  order_application = b.order_application;
}
raised-Balanced bound application pn c h b = record {
  account = b.account;
  order_initial = b.order_initial;
  order_handshake = b.order_handshake;
  order_application = order_mono (bound application) (pn + 1) _ (omega arith) b.order_application;
}

raise_bound_self :
    (bound : PacketNumberSpace → ℕ) (ns : PacketNumberSpace) (pn : ℕ)
    → raise_bound bound ns pn ns ≡ pn + 1
raise_bound_self bound initial pn = refl
raise_bound_self bound handshake pn = refl
raise_bound_self bound application pn = refl

track_packet-Balanced :
    (bound : PacketNumberSpace → ℕ) (c : SendControl) (now : ℕ) (p : SentPacket)
    → bound p.ns ≤ p.pn
    → Balanced bound c
    → Balanced (raise_bound bound p.ns p.pn) (track_packet c now p)
track_packet-Balanced bound c now p h b =
    let m = (space_of c p.ns).unacked_packets in
    let info = info_of p (space_of c p.ns).largest_sent_time in
    let o = order_in bound c p.ns b in
    let free = find-Below (bound p.ns) p.pn m h o.below in
    let up = raised-Balanced bound p.ns p.pn c h b in
    let q = order_in (raise_bound bound p.ns p.pn) c p.ns up in
    Becomes-Balanced (raise_bound bound p.ns p.pn) (track_packet c now p) c p.ns
      (save_packet p.pn info m) _ (track_packet-view c now p) up
      (unfold sent_bytes in
        unfold settled_bytes in omega (arith, outstanding-save p.pn info m free))
      (rw raise_bound_self (record {
        distinct = save-Distinct p.pn info m o.distinct;
        below =
            save-Below (p.pn + 1) p.pn info m (omega arith)
              (Below-mono (bound p.ns) (p.pn + 1) m (omega arith) o.below);
      }))

pub on_packet_send-Balanced :
    (bound : PacketNumberSpace → ℕ) (c : SendControl) (now clock : ℕ) (p : SentPacket)
    → bound p.ns ≤ p.pn
    → Balanced bound c
    → Balanced (raise_bound bound p.ns p.pn) (on_packet_send c now clock p)
unfolding on_packet_send
on_packet_send-Balanced bound c now clock p h b =
    let sent = record (space_of c p.ns) {
      pkt_num_largest_sent = p.pn;
      largest_sent_time = clock;
    } in
    let c1 = with_space c p.ns sent in
    let b1 : Balanced bound c1 =
      subst (λ v. IsBalanced bound v) (sym (space-same c p.ns sent refl)) b in
    let up = raised-Balanced bound p.ns p.pn in
    if_both (λ d. Balanced (raise_bound bound p.ns p.pn) d) _ c _ (up c h b)
      (if_both (λ d. Balanced (raise_bound bound p.ns p.pn) d) _ (track_packet c1 now p) c1
        (track_packet-Balanced bound c1 now p h b1) (up c1 h b1))

-- What happens to a control while no packets are dropped.
pub data Call : Type 0 where
  sends : (now clock : ℕ) → SentPacket → Call
  packet_timer : PacketNumberSpace → (pn clock : ℕ) → Call
  acks : (now : ℕ) → PacketNumberSpace → AckFrame → Call
  pto_timer : (clock : ℕ) → Call
  configures : (max_ack_delay ack_delay_exponent : ℕ) → Call
  completes_handshake : Call

unfoldable pub call : ℕ → SendControl → Call → Option SendControl
call fuel c (sends now clock p) = some (on_packet_send c now clock p)
call fuel c (packet_timer ns pn clock) = some (on_packet_timer c ns pn clock)
call fuel c (acks now ns f) = on_packet_ack fuel c now ns f
call fuel c (pto_timer clock) = some (on_pto_timer c clock)
call fuel c (configures delay exponent) = some (update_config c delay exponent)
call fuel c completes_handshake = some (record c { handshake_complete = true })

unfoldable pub run_calls : ℕ → SendControl → List Call → Option SendControl
run_calls fuel c [] = some c
run_calls fuel c (k ∷ ks) = call fuel c k >>= λ d. run_calls fuel d ks

-- The numbers sent in each space rise.
abbrev pub Rises : (PacketNumberSpace → ℕ) → List Call → Type 0
Rises bound [] = Unit {0}
Rises bound (sends now clock p ∷ ks) = (bound p.ns ≤ p.pn) × Rises (raise_bound bound p.ns p.pn) ks
Rises bound (_ ∷ ks) = Rises bound ks

run_calls-Balanced :
    (fuel : ℕ) (bound : PacketNumberSpace → ℕ) (c d : SendControl) (ks : List Call)
    → Rises bound ks
    → Balanced bound c
    → run_calls fuel c ks ≡ some d
    → (bound' : PacketNumberSpace → ℕ) × Balanced bound' d
unfolding run_calls call
run_calls-Balanced fuel bound c d [] r b e = (bound, subst (λ k. Balanced bound k) same b)
  where
    same : c ≡ d
    same = cc
run_calls-Balanced fuel bound c d (sends now clock p ∷ ks) (h, r) b e =
    run_calls-Balanced fuel (raise_bound bound p.ns p.pn) (on_packet_send c now clock p) d ks r
      (on_packet_send-Balanced bound c now clock p h b) e
run_calls-Balanced fuel bound c d (packet_timer ns pn clock ∷ ks) r b e =
    run_calls-Balanced fuel bound (on_packet_timer c ns pn clock) d ks r
      (on_packet_timer-Balanced bound c ns pn clock b) e
run_calls-Balanced fuel bound c d (acks now ns f ∷ ks) r b e =
    let (m, g, k) = bind-eq_some (on_packet_ack fuel c now ns f) _ e in
    run_calls-Balanced fuel bound m d ks r (on_packet_ack-Balanced bound fuel c now ns f m g b) k
run_calls-Balanced fuel bound c d (pto_timer clock ∷ ks) r b e =
    run_calls-Balanced fuel bound (on_pto_timer c clock) d ks r
      (on_pto_timer-Balanced bound c clock b) e
run_calls-Balanced fuel bound c d (configures delay exponent ∷ ks) r b e =
    run_calls-Balanced fuel bound (update_config c delay exponent) d ks r b e
run_calls-Balanced fuel bound c d (completes_handshake ∷ ks) r b e =
    run_calls-Balanced fuel bound (record c { handshake_complete = true }) d ks r b e

-- Every ACK frame has ranges that the loop over them can end.
abbrev pub CallIsShort : ℕ → Call → Type 0
CallIsShort fuel (acks now ns f) = All (IsShort fuel) f.ack_ranges
CallIsShort fuel _ = Unit {0}

call-returns :
    (fuel : ℕ) (c : SendControl) (k : Call)
    → CallIsShort fuel k
    → (d : SendControl) × (call fuel c k ≡ some d)
unfolding call
call-returns fuel c (sends now clock p) h = (on_packet_send c now clock p, refl)
call-returns fuel c (packet_timer ns pn clock) h = (on_packet_timer c ns pn clock, refl)
call-returns fuel c (acks now ns f) h = on_packet_ack-returns fuel c now ns f h
call-returns fuel c (pto_timer clock) h = (on_pto_timer c clock, refl)
call-returns fuel c (configures delay exponent) h = (update_config c delay exponent, refl)
call-returns fuel c completes_handshake h = (record c { handshake_complete = true }, refl)

run_calls-returns :
    (fuel : ℕ) (c : SendControl) (ks : List Call)
    → All (CallIsShort fuel) ks
    → (d : SendControl) × (run_calls fuel c ks ≡ some d)
unfolding run_calls
run_calls-returns fuel c [] h = (c, refl)
run_calls-returns fuel c (k ∷ ks) (s, h) =
    let (m, e) = call-returns fuel c k s in
    let (d, g) = run_calls-returns fuel m ks h in (d, rw e g)

-- Any calls on a new control that drop no packets return, if the numbers sent in each space rise and
-- the fuel and the counter of the loop reach the length of every ACK range. After them the bytes that
-- the congestion controller was told of as sent are those that it was told of as acknowledged or
-- lost, and those of the packets in the three maps that are not marked as lost.
pub run_calls-account :
    (fuel : ℕ) (rtt : RttCalculator) (ks : List Call)
    → Rises (λ ns. 0) ks
    → All (CallIsShort fuel) ks
    → (d : SendControl) × (run_calls fuel (new_control rtt) ks ≡ some d)
      × (sent_bytes d.effects ≡ settled_bytes d.effects + in_flight (view d))
run_calls-account fuel rtt ks r h =
    let (d, e) = run_calls-returns fuel (new_control rtt) ks h in
    (d, e, (run_calls-Balanced fuel (λ ns. 0) (new_control rtt) d ks r new-Balanced e).1.account)
  where
    empty : InOrder 0 []
    empty = record { distinct = tt; below = tt }

    new-Balanced : Balanced (λ ns. 0) (new_control rtt)
    new-Balanced =
        unfold sent_bytes in
        unfold settled_bytes in
        unfold outstanding in
        record {
          account = refl;
          order_initial = empty;
          order_handshake = empty;
          order_application = empty;
        }
