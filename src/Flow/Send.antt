-- ===== src/Flow/Send.antt =====
-- `SendFlowController` of src/quic/connection/controler/send_flow_controller.cpp. A frame that a
-- call hands out is its last result, `none` where the pointer is left as it was.
pub mod DataLimit
pub mod StreamLimit
mod Tests
use quic_x.Common.{
  ℕ, ◌-◌, ◌/◌, ◌^◌, Bool, true, false, Option, none, some, ltb, leb, ◌!=◌, if◌then◌else◌, add64,
  sub64,
}
use quic_x.Flow.{
  k_data_blocked_threshold, k_streams_blocked_threshold, Frame, data_blocked, streams_blocked,
  Limits,
}
use quic_x.Flow.StreamId.{
  new_generator, next_stream_id, peek_next_stream_id, StreamStarter, bidirectional, unidirectional,
  StreamIdGenerator,
}

pub record SendFlowController : Type 0 where
  pub sent_bytes : ℕ
  pub max_data : ℕ
  pub max_streams_bidi : ℕ
  pub max_streams_uni : ℕ
  pub max_bidi_stream_id : ℕ
  pub max_uni_stream_id : ℕ
  pub id_generator : StreamIdGenerator
  pub last_data_blocked_limit : ℕ

abbrev pub new : StreamStarter → SendFlowController
new starter = record {
  sent_bytes = 0;
  max_data = 0;
  max_streams_bidi = 0;
  max_streams_uni = 0;
  max_bidi_stream_id = 0;
  max_uni_stream_id = 0;
  id_generator = new_generator starter;
  last_data_blocked_limit = 0;
}

pub update_config : SendFlowController → Limits → SendFlowController
update_config c tp = record c {
  max_data = tp.initial_max_data;
  max_streams_bidi = tp.initial_max_streams_bidi;
  max_streams_uni = tp.initial_max_streams_uni;
}

pub on_data_sent : SendFlowController → ℕ → SendFlowController
on_data_sent c size = record c { sent_bytes = add64 c.sent_bytes size }

pub on_max_data_received : SendFlowController → ℕ → SendFlowController
on_max_data_received c limit =
    if ltb c.max_data limit then record c { max_data = limit; last_data_blocked_limit = 0 } else c

-- One DATA_BLOCKED for each limit.
blocked_once : SendFlowController → SendFlowController × Option Frame
blocked_once c =
    if c.last_data_blocked_limit != c.max_data
    then (record c { last_data_blocked_limit = c.max_data }, some (data_blocked c.max_data))
    else (c, none)

-- The controller after the call, whether sending is allowed, `can_send_size` and `blocked_frame`.
pub can_send_data : SendFlowController → SendFlowController × Bool × ℕ × Option Frame
unfolding blocked_once
can_send_data c =
    if leb c.max_data c.sent_bytes
    then (let (c', frame) = blocked_once c in (c', false, 0, frame))
    else (let size = c.max_data - c.sent_bytes in
        if leb size k_data_blocked_threshold
        then (let (c', frame) = blocked_once c in (c', true, size, frame))
        else (c, true, size, none))

pub on_max_streams_bidi_received : SendFlowController → ℕ → SendFlowController
on_max_streams_bidi_received c limit =
    if ltb c.max_streams_bidi limit then record c { max_streams_bidi = limit } else c

pub on_max_streams_uni_received : SendFlowController → ℕ → SendFlowController
on_max_streams_uni_received c limit =
    if ltb c.max_streams_uni limit then record c { max_streams_uni = limit } else c

-- The controller after the call, whether the stream may be created, `stream_id`, `blocked_frame`.
pub can_create_bidi_stream : SendFlowController → SendFlowController × Bool × ℕ × Option Frame
can_create_bidi_stream c =
    let peeked = peek_next_stream_id c.id_generator bidirectional in
    if leb c.max_streams_bidi (peeked / 2 ^ 2)
    then (c, false, peeked, some (streams_blocked bidirectional c.max_streams_bidi))
    else (let (id, generator) = next_stream_id c.id_generator bidirectional in
        (
          record c { id_generator = generator; max_bidi_stream_id = id },
          true,
          id,
          if leb (sub64 c.max_streams_bidi (id / 2 ^ 2)) k_streams_blocked_threshold
              then some (streams_blocked bidirectional c.max_streams_bidi)
              else none,
        ))

pub can_create_uni_stream : SendFlowController → SendFlowController × Bool × ℕ × Option Frame
can_create_uni_stream c =
    let peeked = peek_next_stream_id c.id_generator unidirectional in
    if leb c.max_streams_uni (peeked / 2 ^ 2)
    then (c, false, peeked, some (streams_blocked unidirectional c.max_streams_uni))
    else (let (id, generator) = next_stream_id c.id_generator unidirectional in
        (
          record c { id_generator = generator; max_uni_stream_id = id },
          true,
          id,
          if leb (sub64 c.max_streams_uni (id / 2 ^ 2)) k_streams_blocked_threshold
              then some (streams_blocked unidirectional c.max_streams_uni)
              else none,
        ))
