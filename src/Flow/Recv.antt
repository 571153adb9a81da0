-- ===== src/Flow/Recv.antt =====
-- `RecvFlowController` of src/quic/connection/controler/recv_flow_controller.cpp. A frame that a
-- call hands out is its last result, `none` where the pointer is left as it was.
pub mod PeerLimits
mod Tests
use quic_x.Common.{
  ℕ, ◌-◌, ◌/◌, ◌%◌, ◌^◌, Bool, true, false, not, Option, none, some, ltb, leb, ◌!=◌, if◌then◌else◌,
  u64_max, add64,
}
use quic_x.Flow.{
  k_streams_increase_threshold, k_streams_increase_amount, Frame, max_data, max_streams, Limits,
}
use quic_x.Flow.StreamId.{StreamStarter, client, server, bidirectional, unidirectional}

pub record RecvFlowController : Type 0 where
  pub received_bytes : ℕ
  pub max_data : ℕ
  pub max_streams_bidi : ℕ
  pub max_streams_uni : ℕ
  pub max_bidi_stream_id : ℕ
  pub max_uni_stream_id : ℕ
  pub local_starter : StreamStarter

abbrev pub new : StreamStarter → RecvFlowController
new local_starter = record {
  received_bytes = 0;
  max_data = 0;
  max_streams_bidi = 0;
  max_streams_uni = 0;
  max_bidi_stream_id = 0;
  max_uni_stream_id = 0;
  local_starter = local_starter;
}

pub update_config : RecvFlowController → Limits → RecvFlowController
update_config c tp = record c {
  max_data = tp.initial_max_data;
  max_streams_bidi = tp.initial_max_streams_bidi;
  max_streams_uni = tp.initial_max_streams_uni;
}

pub on_data_received : RecvFlowController → ℕ → RecvFlowController × Bool
on_data_received c size =
    let c' : RecvFlowController = record c { received_bytes = add64 c.received_bytes size } in
    (c', not (ltb c'.max_data c'.received_bytes))

-- Doubled, and capped at the largest `uint64_t`.
pub doubled : ℕ → ℕ
doubled limit = if ltb (u64_max - limit) limit then u64_max else add64 limit limit

pub should_send_max_data : RecvFlowController → RecvFlowController × Bool × Option Frame
should_send_max_data c =
    if ltb c.max_data c.received_bytes
    then (c, false, none)
    else if leb (c.max_data - c.received_bytes) (c.max_data / 10)
    then (record c { max_data = doubled c.max_data }, true, some (max_data (doubled c.max_data)))
    else (c, true, none)

check_bidi_stream_limit : RecvFlowController → RecvFlowController × Bool × Option Frame
check_bidi_stream_limit c =
    let count = c.max_bidi_stream_id / 2 ^ 2 in
    let raised = add64 c.max_streams_bidi k_streams_increase_amount in
    if leb c.max_streams_bidi count
    then (c, false, none)
    else if leb (c.max_streams_bidi - count) k_streams_increase_threshold
    then (record c { max_streams_bidi = raised }, true, some (max_streams bidirectional raised))
    else (c, true, none)

check_uni_stream_limit : RecvFlowController → RecvFlowController × Bool × Option Frame
check_uni_stream_limit c =
    let count = c.max_uni_stream_id / 2 ^ 2 in
    let raised = add64 c.max_streams_uni k_streams_increase_amount in
    if leb c.max_streams_uni count
    then (c, false, none)
    else if leb (c.max_streams_uni - count) k_streams_increase_threshold
    then (record c { max_streams_uni = raised }, true, some (max_streams unidirectional raised))
    else (c, true, none)

abbrev pub is_server : StreamStarter → Bool
is_server client = false
is_server server = true

abbrev pub same_bool : Bool → Bool → Bool
same_bool true b = b
same_bool false b = not b

-- Bit 0 of a stream number against the local side.
pub is_local : RecvFlowController → ℕ → Bool
is_local c stream_id = same_bool (is_server c.local_starter) (stream_id % 2 != 0)

pub on_stream_created : RecvFlowController → ℕ → RecvFlowController × Bool × Option Frame
unfolding is_local check_bidi_stream_limit check_uni_stream_limit
on_stream_created c stream_id =
    if is_local c stream_id
    then (c, true, none)
    else if stream_id / 2 % 2 != 0
    then check_uni_stream_limit (
        if ltb c.max_uni_stream_id stream_id then record c { max_uni_stream_id = stream_id } else c)
    else check_bidi_stream_limit (
        if ltb c.max_bidi_stream_id stream_id
        then record c { max_bidi_stream_id = stream_id }
        else c)
