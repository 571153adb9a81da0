-- ===== src/Recovery/Unacked.antt =====
-- The map `unacked_packets_` of one packet number space of `SendControl`
-- (src/quic/connection/controler/send_control.h, send_control.cpp): the ack-eliciting packets that are
-- neither acknowledged nor given up. The order in which an `unordered_map` gives them is not
-- specified; here the newest stands first.
pub mod Outstanding
use quic_x.Common.{ℕ, Bool, true, Option, none, some, List, [], ◌∷◌, ◌==◌, if◌then◌else◌}

pub record StreamDataInfo : Type 0 where
  pub stream_id : ℕ
  pub offset_start : ℕ
  pub data_length : ℕ
  pub has_fin : Bool

-- `PacketTimerInfo`. The packet is a number that stands for the shared object.
pub record PacketInfo : Type 0 where
  pub send_time : ℕ
  pub pkt_len : ℕ
  pub stream_data : List StreamDataInfo
  pub packet : ℕ
  pub is_lost : Bool

abbrev pub Unacked : Type 0
Unacked = List (ℕ × PacketInfo)

unfoldable pub find_packet : ℕ → Unacked → Option PacketInfo
find_packet pn [] = none
find_packet pn ((n, info) ∷ m) = if n == pn then some info else find_packet pn m

unfoldable pub erase_packet : ℕ → Unacked → Unacked
erase_packet pn [] = []
erase_packet pn ((n, info) ∷ m) =
    let rest = erase_packet pn m in if n == pn then rest else ((n, info) ∷ rest)

-- `it->second.is_lost = true`
unfoldable pub mark_lost : ℕ → Unacked → Unacked
mark_lost pn [] = []
mark_lost pn ((n, info) ∷ m) =
    let rest = mark_lost pn m in
    if n == pn then ((n, record info { is_lost = true }) ∷ rest) else ((n, info) ∷ rest)

-- `unacked_packets_[pn] = info`
unfoldable pub save_packet : ℕ → PacketInfo → Unacked → Unacked
save_packet pn info m = (pn, info) ∷ erase_packet pn m
