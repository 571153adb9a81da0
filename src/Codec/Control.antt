-- ===== src/Codec/Control.antt =====
-- The frames of src/quic/frame/ whose fields are varints alone, one class each: ping and handshake
-- done (if_frame.cpp), RESET_STREAM, STOP_SENDING, MAX_DATA, MAX_STREAM_DATA, MAX_STREAMS,
-- DATA_BLOCKED, STREAM_DATA_BLOCKED, STREAMS_BLOCKED and RETIRE_CONNECTION_ID.
pub mod RoundTrip
mod Tests
use quic_x.Common.{
  ℕ, ◌+◌, ◌%◌, ◌^◌, Bool, true, false, Option, none, some, List, [], ◌∷◌, ltb, ◌==◌, if◌then◌else◌,
  ◌>>=◌,
}
use quic_x.Codec.Varint.{varint_length, decode_varint}
use quic_x.Codec.Wrapper.{put_varints, BufferEncodeWrapper}

-- The classes that serve two types have which one it is: `true` for unidirectional streams.
pub data ControlFrame : Type 0 where
  ping handshake_done : ControlFrame
  reset_stream : ℕ → ℕ → ℕ → ControlFrame
  stop_sending : ℕ → ℕ → ControlFrame
  max_data : ℕ → ControlFrame
  max_stream_data : ℕ → ℕ → ControlFrame
  max_streams : Bool → ℕ → ControlFrame
  data_blocked : ℕ → ControlFrame
  stream_data_blocked : ℕ → ℕ → ControlFrame
  streams_blocked : Bool → ℕ → ControlFrame
  retire_connection_id : ℕ → ControlFrame

unfoldable pub control_type : ControlFrame → ℕ
control_type ping = 0x01
control_type handshake_done = 0x1e
control_type (reset_stream stream_id app_error_code final_size) = 0x04
control_type (stop_sending stream_id app_error_code) = 0x05
control_type (max_data maximum_data) = 0x10
control_type (max_stream_data stream_id maximum_data) = 0x11
control_type (max_streams false maximum_streams) = 0x12
control_type (max_streams true maximum_streams) = 0x13
control_type (data_blocked maximum_data) = 0x14
control_type (stream_data_blocked stream_id maximum_data) = 0x15
control_type (streams_blocked false maximum_streams) = 0x16
control_type (streams_blocked true maximum_streams) = 0x17
control_type (retire_connection_id sequence_number) = 0x19

-- The fields, in the order in which `Encode` writes them.
unfoldable pub control_fields : ControlFrame → List ℕ
control_fields ping = []
control_fields handshake_done = []
control_fields (reset_stream stream_id app_error_code final_size) =
    stream_id ∷ app_error_code ∷ final_size ∷ []
control_fields (stop_sending stream_id app_error_code) = stream_id ∷ app_error_code ∷ []
control_fields (max_data maximum_data) = maximum_data ∷ []
control_fields (max_stream_data stream_id maximum_data) = stream_id ∷ maximum_data ∷ []
control_fields (max_streams uni maximum_streams) = maximum_streams ∷ []
control_fields (data_blocked maximum_data) = maximum_data ∷ []
control_fields (stream_data_blocked stream_id maximum_data) = stream_id ∷ maximum_data ∷ []
control_fields (streams_blocked uni maximum_streams) = maximum_streams ∷ []
control_fields (retire_connection_id sequence_number) = sequence_number ∷ []

unfoldable pub sizes : List ℕ → ℕ
sizes [] = 0
sizes (v ∷ vs) = varint_length v + sizes vs

unfoldable pub control_size : ControlFrame → ℕ
control_size f = sizes (control_type f ∷ control_fields f)

unfoldable pub encode_control : ControlFrame → ℕ → Option BufferEncodeWrapper
encode_control f room =
    if ltb room (control_size f)
    then none
    else put_varints (control_type f ∷ control_fields f) (record { room = room; bytes = [] })

-- One, two or three fields, and the frame that they make.
unfoldable pub one_field : (ℕ → ControlFrame) → List ℕ → Option (ControlFrame × List ℕ)
one_field make bs = decode_varint bs >>= λ (a, rest). some (make a, rest)

unfoldable pub two_fields : (ℕ → ℕ → ControlFrame) → List ℕ → Option (ControlFrame × List ℕ)
two_fields make bs =
    decode_varint bs >>= λ (a, bs1). decode_varint bs1 >>= λ (b, rest). some (make a b, rest)

unfoldable pub three_fields : (ℕ → ℕ → ℕ → ControlFrame) → List ℕ → Option (ControlFrame × List ℕ)
three_fields make bs = decode_varint bs >>= λ (a, bs1).
    decode_varint bs1 >>= λ (b, bs2). decode_varint bs2 >>= λ (c, rest). some (make a b c, rest)

-- The `Decode` of the class that the table of frame_decode.cpp has for a type; `none` also for the
-- types of the classes that are not here. The limit of a STREAMS_BLOCKED frame is a `uint32_t`.
unfoldable pub decode_fields : ℕ → List ℕ → Option (ControlFrame × List ℕ)
decode_fields type bs =
    if type == 0x01
    then some (ping, bs)
    else if type == 0x1e
    then some (handshake_done, bs)
    else if type == 0x04
    then three_fields reset_stream bs
    else if type == 0x05
    then two_fields stop_sending bs
    else if type == 0x10
    then one_field max_data bs
    else if type == 0x11
    then two_fields max_stream_data bs
    else if type == 0x12
    then one_field (max_streams false) bs
    else if type == 0x13
    then one_field (max_streams true) bs
    else if type == 0x14
    then one_field data_blocked bs
    else if type == 0x15
    then two_fields stream_data_blocked bs
    else if type == 0x16
    then one_field (λ v. streams_blocked false (v % 2 ^ 32)) bs
    else if type == 0x17
    then one_field (λ v. streams_blocked true (v % 2 ^ 32)) bs
    else if type == 0x19
    then one_field retire_connection_id bs
    else none

unfoldable pub decode_control : List ℕ → Option (ControlFrame × List ℕ)
decode_control bs = decode_varint bs >>= λ (type, rest). decode_fields (type % 2 ^ 16) rest
