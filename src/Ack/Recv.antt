-- ===== src/Ack/Recv.antt =====
-- `RecvControl` of src/quic/connection/controler/recv_control.cpp. A set of packet numbers is the
-- list of its elements from the largest down, the order in which the code walks it. What the code
-- does to its timer and its callbacks is recorded as effects. The metrics are left out.
pub mod Set
pub mod Ranges
pub mod Due
pub mod Calls
pub mod Invariant
mod Tests
use quic_x.Common.{
  ℕ, ◌+◌, ◌-◌, ◌/◌, ◌%◌, ◌^◌, bit_and, Bool, true, false, not, Option, none, some, List, [], ◌∷◌,
  ltb, leb, ◌==◌, ◌!=◌, if◌then◌else◌, length, add64, sub64,
}
use quic_x.Codec.PacketNumber.{PacketNumberSpace, initial, handshake, application}
use quic_x.Ack.Frame.{AckRange, AckFrame}

-- The arrays of the class, at one packet number space.
pub record Space : Type 0 where
  pub pkt_num_largest_recvd : ℕ
  pub largest_recv_time : ℕ
  pub wait_ack_packet_numbers : List ℕ
  pub ect0_count : ℕ
  pub ect1_count : ℕ
  pub ce_count : ℕ
  pub ack_due : Bool

abbrev pub empty_space : Space
empty_space = record {
  pkt_num_largest_recvd = 0;
  largest_recv_time = 0;
  wait_ack_packet_numbers = [];
  ect0_count = 0;
  ect1_count = 0;
  ce_count = 0;
  ack_due = false;
}

pub record RecvControl : Type 0 where
  pub in_initial : Space
  pub in_handshake : Space
  pub in_application : Space
  pub set_timer : Bool
  pub max_ack_delay : ℕ
  pub ack_delay_exponent : ℕ
  pub ack_count : ℕ
  pub last_ack_time : ℕ

abbrev pub new_recv_control : RecvControl
new_recv_control = record {
  in_initial = empty_space;
  in_handshake = empty_space;
  in_application = empty_space;
  set_timer = false;
  max_ack_delay = 10;
  ack_delay_exponent = 3;
  ack_count = 0;
  last_ack_time = 0;
}

abbrev pub space_of : RecvControl → PacketNumberSpace → Space
space_of c initial = c.in_initial
space_of c handshake = c.in_handshake
space_of c application = c.in_application

abbrev pub with_space : RecvControl → PacketNumberSpace → Space → RecvControl
with_space c initial s = record c { in_initial = s }
with_space c handshake s = record c { in_handshake = s }
with_space c application s = record c { in_application = s }

abbrev pub is_application : PacketNumberSpace → Bool
is_application application = true
is_application _ = false

pub data Effect : Type 0 where
  calls_immediate_ack : PacketNumberSpace → Effect
  calls_active_send : Effect
  adds_timer : ℕ → Effect
  removes_timer : Effect

abbrev pub k_ack_threshold : ℕ
k_ack_threshold = 10

abbrev pub k_max_ack_ranges : ℕ
k_max_ack_ranges = 64

-- `std::set::insert` and `std::set::erase`, on the list from the largest element down.
pub insert : ℕ → List ℕ → List ℕ
insert pn [] = pn ∷ []
insert pn (x ∷ xs) =
    if ltb x pn then pn ∷ x ∷ xs else if x == pn then x ∷ xs else (x ∷ insert pn xs)

pub erase : ℕ → List ℕ → List ℕ
erase pn [] = []
erase pn (x ∷ xs) = if x == pn then xs else (x ∷ erase pn xs)

pub erase_all : List ℕ → List ℕ → List ℕ
erase_all [] xs = xs
erase_all (pn ∷ pns) xs = erase_all pns (erase pn xs)

-- `IsAckElictingPacket` on the bits of the frame types: ACK, ACK_ECN, PADDING and CONNECTION_CLOSE
-- alone ask for no acknowledgement.
pub is_ack_eliciting_packet : ℕ → Bool
is_ack_eliciting_packet frame_type_bit =
    bit_and frame_type_bit (2 ^ 32 - 1 - (2 ^ 0x02 + 2 ^ 0x03 + 2 ^ 0x00 + 2 ^ 0x1c)) != 0

-- `ShouldSendImmediateAck`, on a space that has the packet already.
pub should_send_immediate_ack : PacketNumberSpace → Space → ℕ → ℕ → Bool
should_send_immediate_ack ns s pkt_num ecn =
    if not (is_application ns)
    then true
    else if ecn % 2 ^ 2 == 0x03
    then true
    else if ltb pkt_num s.pkt_num_largest_recvd
    then true
    else if ltb (add64 s.pkt_num_largest_recvd 1) pkt_num
    then true
    else leb k_ack_threshold (length s.wait_ack_packet_numbers)

-- The space with the packet: the largest number with its time, and the set.
unfoldable pub note_packet : Space → ℕ → ℕ → Space
note_packet s time pkt_num =
    let t : Space =
      if ltb s.pkt_num_largest_recvd pkt_num
      then record s { pkt_num_largest_recvd = pkt_num; largest_recv_time = time }
      else s in
    record t { wait_ack_packet_numbers = insert pkt_num t.wait_ack_packet_numbers }

-- `OnPacketRecv` of a packet with the bits of its frame types, its space and its number. The code
-- sets its `ecn` to 0.
pub on_packet_recv : RecvControl → ℕ → ℕ → PacketNumberSpace → ℕ → RecvControl × List Effect
on_packet_recv c time frame_type_bit ns pkt_num =
    if not (is_ack_eliciting_packet frame_type_bit)
    then (c, [])
    else (let s = note_packet (space_of c ns) time pkt_num in
        if should_send_immediate_ack ns s pkt_num 0
        then (
          with_space c ns (record s { ack_due = true }),
          if is_application ns then calls_active_send ∷ [] else calls_immediate_ack ns ∷ [],
        )
        else (
          record (with_space c ns s) { set_timer = true },
          if c.set_timer then [] else adds_timer c.max_ack_delay ∷ [],
        ))

-- The task of the timer.
pub on_timer : RecvControl → RecvControl × List Effect
on_timer c = (
  record c { set_timer = false; in_application = record c.in_application { ack_due = true } },
  calls_active_send ∷ [],
)

pub on_ecn_counters : RecvControl → ℕ → PacketNumberSpace → RecvControl
on_ecn_counters c ecn ns =
    let s = space_of c ns in
    with_space c ns (
      if ecn % 2 ^ 2 == 0x02
      then record s { ect0_count = add64 s.ect0_count 1 }
      else if ecn % 2 ^ 2 == 0x01
      then record s { ect1_count = add64 s.ect1_count 1 }
      else if ecn % 2 ^ 2 == 0x03
      then record s { ce_count = add64 s.ce_count 1 }
      else s)

-- The loop of `MayGenerateAckFrame` that collects the runs of consecutive numbers, from a run
-- [low, high] on; `left` is how many runs may still be stored. The first result is the runs, the
-- second the numbers that were added to `acked_packets`. The loop breaks when the last run that may
-- be stored is closed.
pub collect_runs : ℕ → ℕ → ℕ → List ℕ → List (ℕ × ℕ) × List ℕ
collect_runs left high low [] = ((high, low) ∷ [], [])
collect_runs left high low (pn ∷ rest) =
    let longer = collect_runs left high pn rest in
    let another = collect_runs (left - 1) pn pn rest in
    if add64 pn 1 == low
    then (longer.0, pn ∷ longer.1)
    else if leb left 1
    then ((high, low) ∷ [], [])
    else ((high, low) ∷ another.0, pn ∷ another.1)

-- The gaps and lengths of the runs behind the first, each against the run before it.
unfoldable pub ranges_of : ℕ → List (ℕ × ℕ) → List AckRange
ranges_of prev_low [] = []
ranges_of prev_low ((high, low) ∷ runs) =
    record { gap = sub64 (sub64 prev_low high) 2; range_length = sub64 high low }
    ∷ ranges_of low runs

-- `frame` for some runs: the first run is in the fields, `first_ack_range` cut to a `uint32_t`.
unfoldable pub frame_of : List (ℕ × ℕ) → ℕ → Option (ℕ × ℕ × ℕ) → Option AckFrame
frame_of [] delay ecn = none
frame_of ((high, low) ∷ runs) delay ecn = some (record {
  largest_acknowledged = high;
  ack_delay = delay;
  first_ack_range = sub64 high low % 2 ^ 32;
  ack_ranges = ranges_of low runs;
  ecn = ecn;
})

-- The delay that the frame reports.
pub delay_of : RecvControl → Space → ℕ → ℕ → ℕ
delay_of c s now largest =
    (if largest == s.pkt_num_largest_recvd then sub64 now s.largest_recv_time else 0)
    / 2 ^ c.ack_delay_exponent
    % 2 ^ 32

-- The runs and the numbers of a set that is not empty, largest number first.
unfoldable pub runs_of : ℕ → List ℕ → List (ℕ × ℕ) × List ℕ
runs_of high rest =
    let (runs, acked) = collect_runs k_max_ack_ranges high high rest in (runs, high ∷ acked)

unfoldable pub may_generate_ack_frame :
    RecvControl → ℕ → PacketNumberSpace → Bool → RecvControl × Option AckFrame × List Effect
may_generate_ack_frame c now ns ecn_enabled =
    let effects = if c.set_timer then removes_timer ∷ [] else [] in
    let s : Space = record (space_of c ns) { ack_due = false } in
    let c' : RecvControl = record (with_space c ns s) { set_timer = false } in
    elim s.wait_ack_packet_numbers [
      | [] ↦ (c', none, effects)
      | high ∷ rest ↦
          (let (runs, acked) = runs_of high rest in
            let left = erase_all acked (high ∷ rest) in
            let ecn = if ecn_enabled then some (s.ect0_count, s.ect1_count, s.ce_count) else none in
            (
              record (with_space c' ns (record s {
                wait_ack_packet_numbers = left;
                ack_due = elim left [ [] ↦ false | x ∷ xs ↦ true ];
              })) { ack_count = add64 c.ack_count 1; last_ack_time = now },
              frame_of runs (delay_of c s now high) ecn,
              effects,
            ))
    ]

pub update_config : RecvControl → ℕ → ℕ → RecvControl
update_config c tp_max_ack_delay tp_ack_delay_exponent = record c {
  max_ack_delay = tp_max_ack_delay % 2 ^ 32;
  ack_delay_exponent = tp_ack_delay_exponent % 2 ^ 32;
}

pub discard_packet_number_space : RecvControl → PacketNumberSpace → RecvControl
discard_packet_number_space c ns = with_space c ns empty_space

unfoldable pub should_send_ack_now : RecvControl → PacketNumberSpace → Bool
should_send_ack_now c ns = elim (space_of c ns).wait_ack_packet_numbers [
  | [] ↦ false
  | x ∷ xs ↦ if not (is_application ns) then true else (space_of c ns).ack_due
]
