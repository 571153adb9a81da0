-- ===== src/Recovery/SendControl.antt =====
-- `SendControl` of src/quic/connection/controler/send_control.cpp: what becomes of the packets sent.
-- The walk over the numbers of an ACK frame is that of Ack.Sent, and the map of a space is that of
-- Unacked. The calls that go out (the congestion controller, the timer, the callbacks, which are
-- taken to be set) are recorded in `effects`, the newest first. Logs, metrics and traces are left out.
pub mod Loss
pub mod Ledger
pub mod Views
pub mod Kept
pub mod Losses
pub mod Acks
pub mod Account
pub mod Threshold
mod Tests
use mathlib.Core.List.{reverse}
use quic_x.Common.{
  ℕ, ◌+◌, ◌-◌, ◌*◌, ◌%◌, ◌^◌, max, bit_and, Bool, false, ◌||◌, Option, none, some, List, [], ◌∷◌,
  ◌++◌, map, ltb, ◌!=◌, if◌then◌else◌, mul64,
}
use quic_x.Codec.PacketNumber.{PacketNumberSpace, initial, handshake, application}
use quic_x.Ack.Frame.{AckFrame}
use quic_x.Recovery.Rtt.{update_rtt, get_pto_with_backoff, RttCalculator}
use quic_x.Recovery.Unacked.{
  Unacked, find_packet, erase_packet, mark_lost, save_packet, StreamDataInfo, PacketInfo,
}

pub data EcnState : Type 0 where
  unknown validated failed : EcnState

-- The members that are arrays over the spaces, for one space.
pub record Space : Type 0 where
  pub unacked_packets : Unacked
  pub pkt_num_largest_sent : ℕ
  pub pkt_num_largest_acked : ℕ
  pub largest_sent_time : ℕ
  pub prev_ect0 : ℕ
  pub prev_ect1 : ℕ
  pub prev_ce : ℕ
  pub ecn_state : EcnState

pub data Effect : Type 0 where
  cc_sent : (pn bytes sent_time : ℕ) → Effect
  cc_acked : (pn bytes ack_time ack_delay : ℕ) → Bool → (send_time : ℕ) → Effect
  cc_lost : (pn bytes lost_time : ℕ) → Effect
  cc_round_trip : (latest_rtt ack_delay : ℕ) → Effect
  add_packet_timer : PacketNumberSpace → (pn delay : ℕ) → Effect
  remove_packet_timer : PacketNumberSpace → (pn : ℕ) → Effect
  add_pto_timer : (delay : ℕ) → Effect
  remove_pto_timer probe_needed application_probe : Effect
  stream_data_ack : StreamDataInfo → Effect
  packet_lost : (packet : ℕ) → Effect

-- `LostPacketEntry`, with the space of the packet's level.
pub record LostPacketEntry : Type 0 where
  pub ns : PacketNumberSpace
  pub packet : ℕ
  pub stream_data : List StreamDataInfo

pub record SendControl : Type 0 where
  pub initial_space : Space
  pub handshake_space : Space
  pub application_space : Space
  pub lost_packets : List LostPacketEntry
  pub rtt_calculator : RttCalculator
  pub max_ack_delay : ℕ
  pub ack_delay_exponent : ℕ
  pub handshake_complete : Bool
  pub last_ack_eliciting_sent_time : ℕ
  pub effects : List Effect

abbrev pub new_space : Space
new_space = record {
  unacked_packets = [];
  pkt_num_largest_sent = 0;
  pkt_num_largest_acked = 0;
  largest_sent_time = 0;
  prev_ect0 = 0;
  prev_ect1 = 0;
  prev_ce = 0;
  ecn_state = unknown;
}

abbrev pub new_control : RttCalculator → SendControl
new_control rtt = record {
  initial_space = new_space;
  handshake_space = new_space;
  application_space = new_space;
  lost_packets = [];
  rtt_calculator = rtt;
  max_ack_delay = 25;
  ack_delay_exponent = 0;
  handshake_complete = false;
  last_ack_eliciting_sent_time = 0;
  effects = [];
}

abbrev pub space_of : SendControl → PacketNumberSpace → Space
space_of c initial = c.initial_space
space_of c handshake = c.handshake_space
space_of c application = c.application_space

abbrev pub with_space : SendControl → PacketNumberSpace → Space → SendControl
with_space c initial s = record c { initial_space = s }
with_space c handshake s = record c { handshake_space = s }
with_space c application s = record c { application_space = s }

abbrev pub with_unacked : SendControl → PacketNumberSpace → Unacked → SendControl
with_unacked c ns m = with_space c ns (record (space_of c ns) { unacked_packets = m })

-- New effects, the newest first, before those so far.
abbrev pub emit : SendControl → List Effect → SendControl
emit c effects = record c { effects = effects ++ c.effects }

-- `IsAckElictingPacket`: bits other than ACK, ACK_ECN, PADDING and CONNECTION_CLOSE.
unfoldable pub is_ack_eliciting_packet : ℕ → Bool
is_ack_eliciting_packet frame_type_bit =
    bit_and frame_type_bit (2 ^ 32 - 1 - (2 ^ 0x02 + 2 ^ 0x03 + 2 ^ 0x00 + 2 ^ 0x1c)) != 0

abbrev pub get_effective_max_ack_delay : SendControl → ℕ
get_effective_max_ack_delay c = if c.handshake_complete then c.max_ack_delay else 0

abbrev pub pto_delay : SendControl → ℕ
pto_delay c = get_pto_with_backoff c.rtt_calculator (get_effective_max_ack_delay c)

-- What is known of a packet that is handed over to be sent.
pub record SentPacket : Type 0 where
  pub ns : PacketNumberSpace
  pub pn : ℕ
  pub frame_type_bit : ℕ
  pub packet : ℕ
  pub pkt_len : ℕ
  pub stream_data : List StreamDataInfo

abbrev pub info_of : SentPacket → ℕ → PacketInfo
info_of p sent_time = record {
  send_time = sent_time;
  pkt_len = p.pkt_len;
  stream_data = p.stream_data;
  packet = p.packet;
  is_lost = false;
}

-- An ack-eliciting packet is counted and saved, with its timer and the PTO timer.
unfoldable pub track_packet : SendControl → ℕ → SentPacket → SendControl
track_packet c now p =
    let s = space_of c p.ns in
    let saved = save_packet p.pn (info_of p s.largest_sent_time) s.unacked_packets in
    emit (record (with_unacked c p.ns saved) { last_ack_eliciting_sent_time = now })
      (add_pto_timer (pto_delay c)
        ∷ remove_pto_timer
        ∷ add_packet_timer p.ns p.pn (pto_delay c)
        ∷ cc_sent p.pn p.pkt_len (mul64 now 1000)
        ∷ [])

-- `OnPacketSend`. `clock` is what `UTCTimeMsec` gives.
unfoldable pub on_packet_send : SendControl → ℕ → ℕ → SentPacket → SendControl
unfolding track_packet
on_packet_send c now clock p =
    let s = space_of c p.ns in
    let sent = record s { pkt_num_largest_sent = p.pn; largest_sent_time = clock } in
    let c1 = with_space c p.ns sent in
    if ltb p.pn s.pkt_num_largest_sent
    then c
    else if is_ack_eliciting_packet p.frame_type_bit
    then track_packet c1 now p
    else c1

-- A packet is given up: it goes to the list for retransmission, and the controller is told.
abbrev pub give_up : SendControl → PacketNumberSpace → ℕ → PacketInfo → SendControl
give_up c ns pn info = record c {
  lost_packets =
      c.lost_packets
      ++ record { ns = ns; packet = info.packet; stream_data = info.stream_data } ∷ [];
}

-- The timer of one packet has fired.
unfoldable pub on_packet_timer : SendControl → PacketNumberSpace → ℕ → ℕ → SendControl
on_packet_timer c ns pn clock = elim (find_packet pn (space_of c ns).unacked_packets) [
  | none ↦ c
  | some info ↦
      let marked = with_unacked c ns (mark_lost pn (space_of c ns).unacked_packets) in
      if info.is_lost
      then c
      else (emit (give_up marked ns pn info)
          (packet_lost info.packet ∷ cc_lost pn info.pkt_len (mul64 clock 1000) ∷ []))
]

abbrev pub data_acks : List StreamDataInfo → List Effect
data_acks infos = map stream_data_ack infos

-- One acknowledged packet that is not the largest one of the frame.
unfoldable pub ack_packet : SendControl → ℕ → PacketNumberSpace → AckFrame → ℕ → SendControl
ack_packet c now ns f pn = elim (find_packet pn (space_of c ns).unacked_packets) [
  | none ↦ c
  | some info ↦ emit (with_unacked c ns (erase_packet pn (space_of c ns).unacked_packets)) (
      reverse (data_acks info.stream_data)
      ++ ((if info.is_lost
            then []
            else (cc_acked pn info.pkt_len (mul64 now 1000) f.ack_delay false
                  (mul64 info.send_time 1000)
                ∷ []))
          ++ remove_packet_timer ns pn ∷ []))
]

-- The counters of an ACK_ECN frame; the second part says whether congestion was marked.
unfoldable pub note_ecn : Space → Option (ℕ × ℕ × ℕ) → Space × Bool
note_ecn s none = (s, false)
note_ecn s (some (ect0, ect1, ce)) =
    let state : EcnState = elim s.ecn_state [ unknown ↦ validated | other ↦ other ] in
    if ltb ect0 s.prev_ect0 || ltb ect1 s.prev_ect1 || ltb ce s.prev_ce
    then (record s { ecn_state = failed }, false)
    else (
      record s { ecn_state = state; prev_ect0 = ect0; prev_ect1 = ect1; prev_ce = ce },
      ltb 0 ce,
    )

-- The largest acknowledged packet, which also gives a round-trip time. The shift of the delay is one
-- of a `uint32_t`.
unfoldable pub ack_found : SendControl → ℕ → PacketNumberSpace → AckFrame → PacketInfo → SendControl
unfolding note_ecn
ack_found c now ns f info =
    let pn = f.largest_acknowledged in
    let delay = f.ack_delay * 2 ^ c.ack_delay_exponent % 2 ^ 32 in
    let rtt = update_rtt c.rtt_calculator info.send_time now delay in
    let (s, ecn_ce) = note_ecn (space_of c ns) f.ecn in
    let c1 =
      with_space (record c { rtt_calculator = rtt }) ns
        (record s { unacked_packets = erase_packet pn s.unacked_packets }) in
    emit c1 (
      reverse (data_acks info.stream_data)
      ++ ((if info.is_lost
            then []
            else (cc_round_trip (max 1 rtt.smoothed_rtt * 1000) (f.ack_delay * 1000)
                ∷ cc_acked pn info.pkt_len (mul64 now 1000) f.ack_delay ecn_ce
                    (mul64 info.send_time 1000)
                ∷ []))
          ++ remove_packet_timer ns pn ∷ []))

unfoldable pub look_up_largest : SendControl → ℕ → PacketNumberSpace → AckFrame → SendControl
unfolding ack_found
look_up_largest c now ns f =
    elim (find_packet f.largest_acknowledged (space_of c ns).unacked_packets) [
      | none ↦ c
      | some info ↦ ack_found c now ns f info
    ]

unfoldable pub ack_largest : SendControl → ℕ → PacketNumberSpace → AckFrame → SendControl
unfolding look_up_largest
ack_largest c now ns f =
    let s = space_of c ns in
    let raised = record s { pkt_num_largest_acked = f.largest_acknowledged } in
    if ltb s.pkt_num_largest_acked f.largest_acknowledged
    then look_up_largest (with_space c ns raised) now ns f
    else c

unfoldable pub ack_all : SendControl → ℕ → PacketNumberSpace → AckFrame → List ℕ → SendControl
ack_all c now ns f [] = c
ack_all c now ns f (pn ∷ pns) = ack_all (ack_packet c now ns f pn) now ns f pns
