-- ===== src/Connection/Scheduler/Tests.antt =====
-- A connection at the application level, without anything to acknowledge.
use quic_x.Ack.Recv.{new_recv_control, should_send_ack_now}
use quic_x.Common.{◌≡◌, refl, true}
use quic_x.Connection.Scheduler.{
  k_application, new_scheduler, has_cross_level_pending_ack, own_context, get_next_send_context,
  Surroundings,
}

abbrev connected : Surroundings
connected = record {
  cur_encryption_level = k_application;
  has_cryptographer = λ level. true;
  recv_control = new_recv_control;
  is_path_probe_inflight = true;
}

probing : (get_next_send_context new_scheduler connected).is_path_probe ≡ true
unfolding get_next_send_context own_context has_cross_level_pending_ack should_send_ack_now
probing = refl
