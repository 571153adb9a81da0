-- ===== src/Flow/Send/Tests.antt =====
-- Runs.
use quic_x.Flow.Send.DataLimit.{next, here, sends, IsWithin, Reach-IsWithin}
use quic_x.Common.{◌≤◌, ◌≡◌, refl, arith}
use quic_x.Flow.{Limits}
use quic_x.Flow.StreamId.{make_stream_id, next_stream_id, peek_next_stream_id, server}
use quic_x.Flow.Send.{
  new, update_config, on_data_sent, can_send_data, on_max_streams_uni_received,
  can_create_bidi_stream, SendFlowController,
}

abbrev limits : Limits
limits = record {
  initial_max_data = 100;
  initial_max_streams_bidi = 1;
  initial_max_streams_uni = 0;
}

first_stream : (can_create_bidi_stream (update_config (new server) limits)).2 ≡ 1
unfolding can_create_bidi_stream update_config next_stream_id peek_next_stream_id make_stream_id
first_stream = refl

abbrev sender : SendFlowController
sender = update_config (new server) limits

granted_100 : 60 ≤ (can_send_data sender).2
unfolding can_send_data update_config
granted_100 = omega arith

sender-IsWithin : IsWithin sender 0 100
unfolding update_config
sender-IsWithin = (refl, refl, omega arith, omega arith)

Reach-IsWithin_example : IsWithin (on_data_sent (can_send_data sender).0 60) 60 100
Reach-IsWithin_example =
    Reach-IsWithin sender-IsWithin (next here (sends sender 0 100 60 granted_100))

raised_uni : (on_max_streams_uni_received sender 5).max_streams_uni ≡ 5
unfolding on_max_streams_uni_received update_config
raised_uni = refl
