-- ===== src/Ack/Recv/Due.antt =====
-- When the receiver answers: at once, by its timer, or not yet.
use quic_x.Ack.Recv.{
  space_of, with_space, is_application, insert, is_ack_eliciting_packet, should_send_immediate_ack,
  note_packet, on_packet_recv, on_timer, may_generate_ack_frame, should_send_ack_now, Space,
  RecvControl, removes_timer,
}
use quic_x.Common.{
  ℕ, ◌+◌, ◌^◌, ◌<◌, ◌≡◌, refl, inl, inr, Bool, true, false, List, [], ◌∷◌, arith, ltb, leb, ◌==◌,
  if◌then◌else◌, Bool-cases, length, List-cases,
}
use quic_x.Codec.PacketNumber.{PacketNumberSpace, initial, handshake, application}

-- A packet of the application space with no ECN mark, once it is noted, is answered at once if its
-- number is below the largest one received before or if ten packets wait now, and not otherwise: a
-- gap in front of it does not count. Both numbers are below 2^64 - 1.
pub should_send_immediate_ack-note_packet :
    (s : Space) (time pkt_num : ℕ)
    → s.pkt_num_largest_recvd + 1 < 2 ^ 64
    → pkt_num + 1 < 2 ^ 64
    → should_send_immediate_ack application (note_packet s time pkt_num) pkt_num 0 ≡ (
        if ltb pkt_num s.pkt_num_largest_recvd
        then true
        else leb 10 (length (insert pkt_num s.wait_ack_packet_numbers)))
unfolding should_send_immediate_ack note_packet
should_send_immediate_ack-note_packet s time pkt_num h hp =
    elim (Bool-cases (ltb s.pkt_num_largest_recvd pkt_num)) [
      | inl e ↦ rw e (ground arith)
      | inr e ↦ rw e (ground arith)
    ]

insert-some : (pn : ℕ) (xs : List ℕ) → (y : ℕ) × (ys : List ℕ) × (insert pn xs ≡ y ∷ ys)
unfolding insert
insert-some pn [] = (_, _, refl)
insert-some pn (x ∷ xs) = elim (Bool-cases (ltb x pn)) [
  | inl e ↦ rw e (_, _, refl)
  | inr e ↦
      rw e (elim (Bool-cases (x == pn)) [ inl d ↦ rw d (_, _, refl) | inr d ↦ rw d (_, _, refl) ])
]

pub wait-note_packet :
    (s : Space) (time pkt_num : ℕ)
    → (note_packet s time pkt_num).wait_ack_packet_numbers
      ≡ insert pkt_num s.wait_ack_packet_numbers
unfolding note_packet
wait-note_packet s time pkt_num = elim (Bool-cases (ltb s.pkt_num_largest_recvd pkt_num)) [
  | inl e ↦ rw e refl
  | inr e ↦ rw e refl
]

-- The timer of the application space asks for an ACK in whatever space waits.
due_on_timer :
    (c : RecvControl) (ns : PacketNumberSpace) (pn : ℕ) (pns : List ℕ)
    → (space_of c ns).wait_ack_packet_numbers ≡ pn ∷ pns
    → should_send_ack_now (on_timer c).0 ns ≡ true
unfolding should_send_ack_now on_timer
due_on_timer c initial pn pns e = rw e refl
due_on_timer c handshake pn pns e = rw e refl
due_on_timer c application pn pns e = rw e refl

space_of-with_space :
    (c : RecvControl) (ns : PacketNumberSpace) (s : Space) → space_of (with_space c ns s) ns ≡ s
space_of-with_space c initial s = refl
space_of-with_space c handshake s = refl
space_of-with_space c application s = refl

space_of-set_timer :
    (c : RecvControl) (ns : PacketNumberSpace) (s : Space)
    → space_of (record (with_space c ns s) { set_timer = true }) ns ≡ s
space_of-set_timer c initial s = refl
space_of-set_timer c handshake s = refl
space_of-set_timer c application s = refl

-- A packet that asks for an acknowledgement joins the set of its space.
wait-on_packet_recv :
    (c : RecvControl) (time frame_type_bit : ℕ) (ns : PacketNumberSpace) (pkt_num : ℕ)
    → is_ack_eliciting_packet frame_type_bit ≡ true
    → (space_of (on_packet_recv c time frame_type_bit ns pkt_num).0 ns).wait_ack_packet_numbers
      ≡ insert pkt_num (space_of c ns).wait_ack_packet_numbers
unfolding on_packet_recv
wait-on_packet_recv c time frame_type_bit ns pkt_num e =
    rw e
      (elim (Bool-cases
        (should_send_immediate_ack ns (note_packet (space_of c ns) time pkt_num) pkt_num 0)) [
          | inl i ↦
              rw i (rw (space_of-with_space c ns _) (wait-note_packet (space_of c ns) time pkt_num))
          | inr i ↦
              rw i (rw (space_of-set_timer c ns _) (wait-note_packet (space_of c ns) time pkt_num))
        ])

-- Whatever the state, once a packet that asks for an acknowledgement has come in and the timer has
-- fired, an ACK is to be sent in the packet's space.
pub should_send_ack_now-on_timer :
    (c : RecvControl) (time frame_type_bit : ℕ) (ns : PacketNumberSpace) (pkt_num : ℕ)
    → is_ack_eliciting_packet frame_type_bit ≡ true
    → should_send_ack_now (on_timer (on_packet_recv c time frame_type_bit ns pkt_num).0).0 ns ≡ true
should_send_ack_now-on_timer c time frame_type_bit ns pkt_num e =
    let (y, ys, i) = insert-some pkt_num (space_of c ns).wait_ack_packet_numbers in
    due_on_timer (on_packet_recv c time frame_type_bit ns pkt_num).0 ns y ys
      (rw (wait-on_packet_recv c time frame_type_bit ns pkt_num e) i)

not_due :
    (c : RecvControl) → c.in_application.ack_due ≡ false → should_send_ack_now c application ≡ false
unfolding should_send_ack_now
not_due c e = elim (List-cases c.in_application.wait_ack_packet_numbers) [
  | inl w ↦ rw w refl
  | inr (pn, pns, w) ↦ rw (w, e) refl
]

-- Building an ACK frame for the initial or the handshake space stops the timer if it runs, and
-- leaves the packets of the application space waiting: when they were not due, they are not due
-- behind it, and no timer is left to make them so.
pub may_generate_ack_frame-stops_timer :
    (c : RecvControl) (now : ℕ) (ns : PacketNumberSpace) (ecn_enabled : Bool)
    → is_application ns ≡ false
    → c.in_application.ack_due ≡ false
    → let (after, frame, effects) = may_generate_ack_frame c now ns ecn_enabled in
      (effects ≡ (if c.set_timer then removes_timer ∷ [] else []))
      × (after.set_timer ≡ false)
      × (after.in_application.wait_ack_packet_numbers ≡ c.in_application.wait_ack_packet_numbers)
      × (should_send_ack_now after application ≡ false)
unfolding may_generate_ack_frame
may_generate_ack_frame-stops_timer c now initial ecn_enabled a e =
    elim (List-cases c.in_initial.wait_ack_packet_numbers) [
      | inl h ↦ rw h (refl, refl, refl, not_due _ e)
      | inr (pn, pns, h) ↦ rw h (refl, refl, refl, not_due _ e)
    ]
may_generate_ack_frame-stops_timer c now handshake ecn_enabled a e =
    elim (List-cases c.in_handshake.wait_ack_packet_numbers) [
      | inl h ↦ rw h (refl, refl, refl, not_due _ e)
      | inr (pn, pns, h) ↦ rw h (refl, refl, refl, not_due _ e)
    ]
may_generate_ack_frame-stops_timer c now application ecn_enabled a e = absurd (ground arith)
