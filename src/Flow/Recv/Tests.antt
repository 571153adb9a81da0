-- ===== src/Flow/Recv/Tests.antt =====
-- Runs.
use quic_x.Common.{◌+◌, ◌^◌, ◌≤◌, ◌<◌, ◌≡◌, refl, true, false, [], ◌∷◌, arith}
use quic_x.Flow.{Limits}
use quic_x.Flow.StreamId.{get_stream_direction, server, bidirectional}
use quic_x.Flow.Recv.PeerLimits.{total}
use quic_x.Flow.Recv.{new, update_config, is_local, on_stream_created, RecvFlowController}

abbrev limits : Limits
limits = record {
  initial_max_data = 100;
  initial_max_streams_bidi = 8;
  initial_max_streams_uni = 0;
}

-- A stream of our own takes nothing from the peer's budget.
own_stream : (on_stream_created (update_config (new server) limits) 401).1 ≡ true
unfolding on_stream_created update_config
own_stream = refl

abbrev receiver : RecvFlowController
receiver = update_config (new server) limits

within_limit : receiver.received_bytes ≤ receiver.max_data
unfolding update_config
within_limit = omega arith

sum_fits : receiver.received_bytes + total (40 ∷ 61 ∷ []) < 2 ^ 64
unfolding update_config total
sum_fits = omega arith

-- A server with a limit of eight streams, of which the client has opened the first.
abbrev eight_streams : RecvFlowController
eight_streams = record {
  received_bytes = 0;
  max_data = 100;
  max_streams_bidi = 8;
  max_streams_uni = 8;
  max_bidi_stream_id = 0;
  max_uni_stream_id = 2;
  local_starter = server;
}

from_client : is_local eight_streams 20 ≡ false
unfolding is_local
from_client = refl

both_ways : get_stream_direction 20 ≡ bidirectional
unfolding get_stream_direction
both_ways = refl
