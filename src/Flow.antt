-- ===== src/Flow.antt =====
-- Flow control at the level of the connection: src/quic/connection/controler/send_flow_controller.*
-- and recv_flow_controller.*, over the stream numbers of src/quic/stream/stream_id_generator.cpp.
-- The thresholds are those of src/quic/config.h.
pub mod StreamId
pub mod Send
pub mod Recv
use quic_x.Common.{ℕ}
use StreamId.{StreamDirection}

abbrev pub k_data_blocked_threshold : ℕ
k_data_blocked_threshold = 16384

abbrev pub k_streams_blocked_threshold : ℕ
k_streams_blocked_threshold = 4

abbrev pub k_streams_increase_threshold : ℕ
k_streams_increase_threshold = 4

abbrev pub k_streams_increase_amount : ℕ
k_streams_increase_amount = 10

-- The frames that the controllers ask for, each with the limit that it carries.
pub data Frame : Type 0 where
  data_blocked max_data : ℕ → Frame
  streams_blocked max_streams : StreamDirection → ℕ → Frame

-- The transport parameters that the controllers read.
pub record Limits : Type 0 where
  pub initial_max_data : ℕ
  pub initial_max_streams_bidi : ℕ
  pub initial_max_streams_uni : ℕ
