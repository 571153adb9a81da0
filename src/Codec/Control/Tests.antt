-- ===== src/Codec/Control/Tests.antt =====
-- Frames at work.
use quic_x.Common.{◌≡◌, refl, some, [], ◌∷◌, ◌++◌, arith}
use quic_x.Codec.Control.{
  control_type, control_fields, sizes, control_size, encode_control, decode_control, ControlFrame,
  reset_stream,
}
use quic_x.Codec.Varint.{int_set, varint_length, encode_body, encode_varint}
use quic_x.Codec.Wrapper.{put_varint, put_varints}
use quic_x.Codec.Control.RoundTrip.{IsStorable, decode_control-encode_control}

abbrev reset_frame : ControlFrame
reset_frame = reset_stream 4 70 20000

reset_frame-IsStorable : IsStorable reset_frame
unfolding control_fields
reset_frame-IsStorable = (omega arith, (omega arith, (omega arith, tt)))

reset_written :
    encode_control reset_frame 9
    ≡ some (record { room = 1; bytes = 4 ∷ 4 ∷ 64 ∷ 70 ∷ 128 ∷ 0 ∷ 78 ∷ 32 ∷ [] })
unfolding encode_control control_size sizes control_type control_fields put_varints put_varint
    varint_length encode_varint encode_body int_set
reset_written = refl

decode_control-encode_control_example :
    decode_control ((4 ∷ 4 ∷ 64 ∷ 70 ∷ 128 ∷ 0 ∷ 78 ∷ 32 ∷ []) ++ 7 ∷ [])
    ≡ some (reset_frame, 7 ∷ [])
decode_control-encode_control_example =
    decode_control-encode_control reset_frame 9
      (record { room = 1; bytes = 4 ∷ 4 ∷ 64 ∷ 70 ∷ 128 ∷ 0 ∷ 78 ∷ 32 ∷ [] }) (7 ∷ [])
      reset_frame-IsStorable reset_written
