-- ===== src/Ack/Recv/Invariant.antt =====
-- What holds of the receiver after any sequence of calls.
use quic_x.Common.{
  ℕ, suc, ◌%◌, ◌^◌, ◌≤◌, ◌<◌, ◌≡◌, refl, ◌⊎◌, inl, inr, Bool, true, false, List, [], ◌∷◌, arith,
  ltb, ◌==◌, Bool-cases, List-cases, All,
}
use quic_x.Codec.PacketNumber.{PacketNumberSpace, initial, handshake, application}
use quic_x.Ack.Recv.{
  empty_space, new_recv_control, space_of, with_space, is_application, erase, erase_all,
  is_ack_eliciting_packet, should_send_immediate_ack, note_packet, on_packet_recv, on_timer,
  on_ecn_counters, runs_of, may_generate_ack_frame, update_config, discard_packet_number_space,
  Space, RecvControl,
}
use quic_x.Ack.Recv.Calls.{
  call, call_all, IsSmall, Call, packet, timer, ecn, generate, config, discard,
}
use quic_x.Ack.Recv.Set.{Falls, insert-Falls}

-- The numbers that wait fall strictly, from the largest received at most.
pub record IsSound (s : Space) : Type 0 where
  pub falls : Falls (suc s.pkt_num_largest_recvd) s.wait_ack_packet_numbers
  pub small : s.pkt_num_largest_recvd < 2 ^ 62

-- In the spaces of the handshake, an ACK is due while a packet waits.
abbrev pub IsDue : PacketNumberSpace → Space → Type 0
IsDue ns s = (is_application ns ≡ true) ⊎ ((s.wait_ack_packet_numbers ≡ []) ⊎ (s.ack_due ≡ true))

abbrev pub IsSoundAt : PacketNumberSpace → Space → Type 0
IsSoundAt ns s = IsSound s × IsDue ns s

abbrev pub IsSoundControl : RecvControl → Type 0
IsSoundControl c =
    IsSoundAt initial c.in_initial
    × IsSoundAt handshake c.in_handshake
    × IsSoundAt application c.in_application

Falls-weaken : (a b : ℕ) (xs : List ℕ) → a ≤ b → Falls a xs → Falls b xs
Falls-weaken a b [] h f = tt
Falls-weaken a b (x ∷ xs) h (hx, f) = (omega arith, f)

erase-Falls : (b pn : ℕ) (xs : List ℕ) → Falls b xs → Falls b (erase pn xs)
unfolding erase
erase-Falls b pn [] f = tt
erase-Falls b pn (x ∷ xs) (hx, f) = elim (Bool-cases (x == pn)) [
  | inl e ↦ rw e (Falls-weaken x b xs (omega arith) f)
  | inr e ↦ rw e (hx, erase-Falls x pn xs f)
]

erase_all-Falls : (b : ℕ) (pns xs : List ℕ) → Falls b xs → Falls b (erase_all pns xs)
unfolding erase_all
erase_all-Falls b [] xs f = f
erase_all-Falls b (pn ∷ pns) xs f = erase_all-Falls b pns (erase pn xs) (erase-Falls b pn xs f)

note_packet-IsSound :
    (s : Space) (time pkt_num : ℕ)
    → pkt_num < 2 ^ 62
    → IsSound s
    → IsSound (note_packet s time pkt_num)
unfolding note_packet
note_packet-IsSound s time pkt_num h i = elim (Bool-cases (ltb s.pkt_num_largest_recvd pkt_num)) [
  | inl e ↦ rw e (record {
    falls = insert-Falls (suc pkt_num) pkt_num s.wait_ack_packet_numbers (omega arith) (
        Falls-weaken (suc s.pkt_num_largest_recvd) (suc pkt_num) s.wait_ack_packet_numbers
          (ground arith) i.falls);
    small = h;
  })
  | inr e ↦ rw e (record {
    falls =
        insert-Falls (suc s.pkt_num_largest_recvd) pkt_num s.wait_ack_packet_numbers (ground arith)
          i.falls;
    small = i.small;
  })
]

at_space :
    (c : RecvControl) (ns : PacketNumberSpace) → IsSoundControl c → IsSoundAt ns (space_of c ns)
at_space c initial (i, h, a) = i
at_space c handshake (i, h, a) = h
at_space c application (i, h, a) = a

with_space-IsSound :
    (c : RecvControl) (ns : PacketNumberSpace) (s : Space)
    → IsSoundControl c
    → IsSoundAt ns s
    → IsSoundControl (with_space c ns s)
with_space-IsSound c initial s (i, h, a) x = (x, h, a)
with_space-IsSound c handshake s (i, h, a) x = (i, x, a)
with_space-IsSound c application s (i, h, a) x = (i, h, x)

-- A space that waits for nothing, or is due, keeps its flag.
IsSound-of :
    (s t : Space)
    → s.wait_ack_packet_numbers ≡ t.wait_ack_packet_numbers
    → s.pkt_num_largest_recvd ≡ t.pkt_num_largest_recvd
    → IsSound t
    → IsSound s
IsSound-of s t w l i = record { falls = rw w (rw l i.falls); small = rw l i.small }

-- A packet of the handshake is always answered at once.
immediate :
    (ns : PacketNumberSpace) (s : Space) (pkt_num : ℕ)
    → should_send_immediate_ack ns s pkt_num 0 ≡ false
    → is_application ns ≡ true
unfolding should_send_immediate_ack
immediate initial s pkt_num e = ground arith
immediate handshake s pkt_num e = ground arith
immediate application s pkt_num e = refl

on_packet_recv-IsSound :
    (c : RecvControl) (time frame_type_bit : ℕ) (ns : PacketNumberSpace) (pkt_num : ℕ)
    → pkt_num < 2 ^ 62
    → IsSoundControl c
    → IsSoundControl (on_packet_recv c time frame_type_bit ns pkt_num).0
unfolding on_packet_recv
on_packet_recv-IsSound c time frame_type_bit ns pkt_num h i =
    let noted = note_packet-IsSound (space_of c ns) time pkt_num h (at_space c ns i).0 in
    elim (Bool-cases (is_ack_eliciting_packet frame_type_bit)) [
      | inr e ↦ rw e i
      | inl e ↦
          rw e
            (elim (Bool-cases
              (should_send_immediate_ack ns (note_packet (space_of c ns) time pkt_num) pkt_num 0)) [
                | inl d ↦
                    rw d
                      (with_space-IsSound c ns _ i (IsSound-of _ _ refl refl noted, inr (inr refl)))
                | inr d ↦ rw d (with_space-IsSound c ns _ i (noted, inl (immediate ns _ pkt_num d)))
              ])
    ]

IsDue-flag :
    (ns : PacketNumberSpace) (s : Space) (left : List ℕ)
    → IsDue ns (record s {
      wait_ack_packet_numbers = left;
      ack_due = elim left [ [] ↦ false | x ∷ xs ↦ true ];
    })
IsDue-flag ns s [] = inr (inl refl)
IsDue-flag ns s (x ∷ xs) = inr (inr refl)

with_space_again :
    (c : RecvControl) (ns : PacketNumberSpace) (s t : Space)
    → IsSoundControl c
    → IsSoundAt ns t
    → IsSoundControl (with_space (record (with_space c ns s) { set_timer = false }) ns t)
with_space_again c initial s t (i, h, a) x = (x, h, a)
with_space_again c handshake s t (i, h, a) x = (i, x, a)
with_space_again c application s t (i, h, a) x = (i, h, x)

may_generate_ack_frame-IsSound :
    (c : RecvControl) (now : ℕ) (ns : PacketNumberSpace) (ecn_enabled : Bool)
    → IsSoundControl c
    → IsSoundControl (may_generate_ack_frame c now ns ecn_enabled).0
unfolding may_generate_ack_frame
may_generate_ack_frame-IsSound c now ns ecn_enabled i =
    let s : Space = record (space_of c ns) { ack_due = false } in
    elim (List-cases (space_of c ns).wait_ack_packet_numbers) [
      | inl w ↦
          rw (w, may_generate_ack_frame)
            (with_space-IsSound c ns s i
              (IsSound-of s _ refl refl (at_space c ns i).0, inr (inl w)))
      | inr (high, rest, w) ↦
          rw (w, may_generate_ack_frame)
            (let left = erase_all (runs_of high rest).1 (high ∷ rest) in
              let t : Space = record s {
                wait_ack_packet_numbers = left;
                ack_due = elim left [ [] ↦ false | x ∷ xs ↦ true ];
              } in
              let f = (at_space c ns i).0.falls in
              let t_IsSound : IsSound t = record {
                falls = erase_all-Falls _ (runs_of high rest).1 (high ∷ rest) (rw w at f);
                small = (at_space c ns i).0.small;
              } in
              with_space_again c ns s t i (t_IsSound, IsDue-flag ns s left))
    ]

on_ecn_counters-IsSound :
    (c : RecvControl) (codepoint : ℕ) (ns : PacketNumberSpace)
    → IsSoundControl c
    → IsSoundControl (on_ecn_counters c codepoint ns)
unfolding on_ecn_counters
on_ecn_counters-IsSound c codepoint ns i =
    let (a, d) = at_space c ns i in
    elim (Bool-cases (codepoint % 2 ^ 2 == 0x02)) [
      | inl e ↦ rw e (with_space-IsSound c ns _ i (IsSound-of _ _ refl refl a, d))
      | inr e ↦ rw e (elim (Bool-cases (codepoint % 2 ^ 2 == 0x01)) [
        | inl f ↦ rw f (with_space-IsSound c ns _ i (IsSound-of _ _ refl refl a, d))
        | inr f ↦ rw f (elim (Bool-cases (codepoint % 2 ^ 2 == 0x03)) [
          | inl g ↦ rw g (with_space-IsSound c ns _ i (IsSound-of _ _ refl refl a, d))
          | inr g ↦ rw g (with_space-IsSound c ns _ i (a, d))
        ])
      ])
    ]

new_space : (ns : PacketNumberSpace) → IsSoundAt ns empty_space
new_space ns = (record { falls = tt; small = omega arith }, inr (inl refl))

call-IsSound :
    (c : RecvControl) (x : Call) → IsSmall x → IsSoundControl c → IsSoundControl (call c x)
unfolding call on_timer update_config discard_packet_number_space
call-IsSound c (packet time frame_type_bit ns pkt_num) h i =
    on_packet_recv-IsSound c time frame_type_bit ns pkt_num h i
call-IsSound c timer h (i, s, a) = (i, s, (IsSound-of _ _ refl refl a.0, inl refl))
call-IsSound c (ecn codepoint ns) h i = on_ecn_counters-IsSound c codepoint ns i
call-IsSound c (generate now ns ecn_enabled) h i =
    may_generate_ack_frame-IsSound c now ns ecn_enabled i
call-IsSound c (config delay exponent) h i = i
call-IsSound c (discard ns) h i = with_space-IsSound c ns empty_space i (new_space ns)

call_all_from :
    (c : RecvControl) (xs : List Call)
    → All IsSmall xs
    → IsSoundControl c
    → IsSoundControl (call_all c xs)
unfolding call_all
call_all_from c [] h i = i
call_all_from c (x ∷ xs) (hx, h) i = call_all_from (call c x) xs h (call-IsSound c x hx i)

-- After any calls, in any order, from a new receiver on, with packet numbers below 2^62: in each
-- space the numbers that wait fall strictly from the largest received at most, which is below 2^62,
-- and in the spaces of the handshake an ACK is due while a number waits.
pub call_all-IsSound :
    (xs : List Call) → All IsSmall xs → IsSoundControl (call_all new_recv_control xs)
call_all-IsSound xs h =
    call_all_from new_recv_control xs h
      (new_space initial, new_space handshake, new_space application)
