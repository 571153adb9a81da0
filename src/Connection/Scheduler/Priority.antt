-- ===== src/Connection/Scheduler/Priority.antt =====
-- Which need `EncryptionLevelScheduler::GetNextSendContext` serves first.
use quic_x.Connection.Scheduler.{
  k_initial, k_early_data, k_handshake, k_application, level_to_space, SendContext, Surroundings,
  Scheduler,
}
use quic_x.Common.{ℕ, ◌≡◌, ◌⊎◌, Bool, true, false, not, ◌&&◌, ◌||◌, leb, ◌==◌}
use quic_x.Codec.PacketNumber.{PacketNumberSpace, initial, handshake}
use quic_x.Ack.Recv.{should_send_ack_now}

-- An ACK of a space that the connection has left behind, at a level for which there are keys yet.
abbrev pub initial_ack_waits : Surroundings → Bool
initial_ack_waits w =
    leb k_handshake w.cur_encryption_level
    && should_send_ack_now w.recv_control initial
    && w.has_cryptographer k_initial

abbrev pub handshake_ack_waits : Surroundings → Bool
handshake_ack_waits w =
    leb k_application w.cur_encryption_level
    && should_send_ack_now w.recv_control handshake
    && w.has_cryptographer k_handshake

abbrev pub probe_waits : Surroundings → Bool
probe_waits w = w.is_path_probe_inflight && w.has_cryptographer k_application

-- Early data, behind an Initial packet.
abbrev pub early_data_wait : Scheduler → Surroundings → Bool
early_data_wait s w =
    s.has_early_data_pending
    && (w.cur_encryption_level == k_initial
        && w.has_cryptographer k_early_data
        && s.initial_packet_sent)

-- Each need is served unless it does not wait or one before it does; without any, the current level
-- has its turn, with its ACK if one is due.
pub record IsFirst (a h p e : Bool) (w : Surroundings) (ctx : SendContext) : Type 0 where
  pub initial_ack : (a ≡ false) ⊎ ((ctx.level ≡ k_initial) × (ctx.has_pending_ack ≡ true))
  pub handshake_ack :
      ((a || not h) ≡ true) ⊎ ((ctx.level ≡ k_handshake) × (ctx.has_pending_ack ≡ true))
  pub path_probe : ((a || h || not p) ≡ true) ⊎ (ctx.is_path_probe ≡ true)
  pub early_data :
      ((a || h || p || not e) ≡ true) ⊎ ((ctx.level ≡ k_early_data) × (ctx.has_pending_ack ≡ false))
  pub current :
      ((a || h || p || e) ≡ true)
      ⊎ ((ctx.level ≡ w.cur_encryption_level)
          × (ctx.has_pending_ack
              ≡ should_send_ack_now w.recv_control (level_to_space w.cur_encryption_level)))

abbrev context : ℕ → Bool → PacketNumberSpace → Bool → SendContext
context level ack space probe = record {
  level = level;
  has_pending_ack = ack;
  ack_space = space;
  is_path_probe = probe;
}

abbrev picked : Bool → Bool → Bool → Bool → SendContext → SendContext
picked true h p e own = context k_initial true initial false
picked false true p e own = context k_handshake true handshake false
picked false false true e own = context k_application false initial true
picked false false false true own = context k_early_data false initial false
picked false false false false own = own
