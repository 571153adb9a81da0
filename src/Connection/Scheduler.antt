-- ===== src/Connection/Scheduler.antt =====
-- `EncryptionLevelScheduler` of src/quic/connection/encryption_level_scheduler.cpp: at which level the
-- next packet goes out. What it asks the other parts of the connection is in `Surroundings`; the ACKs
-- that are due are those of RecvControl (Ack.Recv).
pub mod Context
pub mod Priority
mod Tests
use quic_x.Common.{ℕ, Bool, true, false, ◌&&◌, ◌||◌, Option, none, some, leb, ◌==◌, if◌then◌else◌}
use quic_x.Codec.PacketNumber.{PacketNumberSpace, initial, handshake, application}
use quic_x.Ack.Recv.{should_send_ack_now, RecvControl}

abbrev pub k_initial : ℕ
k_initial = 0

abbrev pub k_early_data : ℕ
k_early_data = 1

abbrev pub k_handshake : ℕ
k_handshake = 2

abbrev pub k_application : ℕ
k_application = 3

pub record SendContext : Type 0 where
  pub level : ℕ
  pub has_pending_ack : Bool
  pub ack_space : PacketNumberSpace
  pub is_path_probe : Bool

-- The current level, for which levels there are keys, and whether a path is probed.
pub record Surroundings : Type 0 where
  pub cur_encryption_level : ℕ
  pub has_cryptographer : ℕ → Bool
  pub recv_control : RecvControl
  pub is_path_probe_inflight : Bool

pub record Scheduler : Type 0 where
  pub has_early_data_pending : Bool
  pub initial_packet_sent : Bool

abbrev pub new_scheduler : Scheduler
new_scheduler = record { has_early_data_pending = false; initial_packet_sent = false }

-- `CryptoLevel2PacketNumberSpace`
unfoldable pub level_to_space : ℕ → PacketNumberSpace
level_to_space level =
    if level == k_initial
    then initial
    else if level == k_handshake
    then handshake
    else if level == k_early_data || level == k_application
    then application
    else initial

unfoldable pub has_cross_level_pending_ack : Surroundings → Option SendContext
has_cross_level_pending_ack w =
    if leb k_handshake w.cur_encryption_level
      && should_send_ack_now w.recv_control initial
      && w.has_cryptographer k_initial
    then some (record {
      level = k_initial;
      has_pending_ack = true;
      ack_space = initial;
      is_path_probe = false;
    })
    else if leb k_application w.cur_encryption_level
        && should_send_ack_now w.recv_control handshake
        && w.has_cryptographer k_handshake
    then some (record {
      level = k_handshake;
      has_pending_ack = true;
      ack_space = handshake;
      is_path_probe = false;
    })
    else none

unfoldable pub try_get_0_rtt_level : Scheduler → Surroundings → Bool
try_get_0_rtt_level s w =
    w.cur_encryption_level == k_initial && w.has_cryptographer k_early_data && s.initial_packet_sent

-- The current level, with its ACK if one is due.
unfoldable pub normal_context : Surroundings → SendContext
normal_context w =
    let ns = level_to_space w.cur_encryption_level in
    let due = should_send_ack_now w.recv_control ns in
    record {
      level = w.cur_encryption_level;
      has_pending_ack = due;
      ack_space = if due then ns else initial;
      is_path_probe = false;
    }

-- Without an ACK at another level: a path probe, early data, or the normal flow.
unfoldable pub own_context : Scheduler → Surroundings → SendContext
unfolding normal_context
own_context s w =
    if w.is_path_probe_inflight && w.has_cryptographer k_application
    then record {
      level = k_application;
      has_pending_ack = false;
      ack_space = initial;
      is_path_probe = true;
    }
    else if s.has_early_data_pending && try_get_0_rtt_level s w
    then record {
      level = k_early_data;
      has_pending_ack = false;
      ack_space = initial;
      is_path_probe = false;
    }
    else normal_context w

unfoldable pub get_next_send_context : Scheduler → Surroundings → SendContext
unfolding own_context
get_next_send_context s w = elim (has_cross_level_pending_ack w) [
  | some ctx ↦ ctx
  | none ↦ own_context s w
]
