-- ===== src/Ack/Frame/Tests.antt =====
-- Frames at work.
use quic_x.Ack.Frame.{
  ranges_size, encode_size, encode_ranges, ecn_size, class_encode_size, encode_base, put_ecn,
  encode, decode, AckFrame,
}
use quic_x.Common.{ℕ, ◌≡◌, refl, some, List, [], ◌∷◌, ◌++◌, arith}
use quic_x.Codec.Varint.{int_set, varint_length, encode_body, encode_varint}
use quic_x.Codec.Wrapper.{put_varint}
use quic_x.Ack.Frame.Fields.{range_fields, IsEncodable}
use quic_x.Ack.Frame.RoundTrip.{decode-encode}

abbrev ecn_frame : AckFrame
ecn_frame = record {
  largest_acknowledged = 70;
  ack_delay = 3;
  first_ack_range = 4;
  ack_ranges = record { gap = 1; range_length = 2 } ∷ [];
  ecn = some (1, 2, 20000);
}

ecn_frame-IsEncodable : IsEncodable ecn_frame
unfolding range_fields
ecn_frame-IsEncodable = ground arith

abbrev ecn_bytes : List ℕ
ecn_bytes = 3 ∷ 64 ∷ 70 ∷ 3 ∷ 1 ∷ 4 ∷ 1 ∷ 2 ∷ 1 ∷ 2 ∷ 128 ∷ 0 ∷ 78 ∷ 32 ∷ []

ecn_written : encode ecn_frame 20 ≡ some (record { room = 6; bytes = ecn_bytes })
unfolding encode encode_base class_encode_size ecn_size encode_size ranges_size encode_ranges
    put_ecn put_varint varint_length encode_varint encode_body int_set
ecn_written = refl

decode-encode_example : decode (ecn_bytes ++ 7 ∷ []) ≡ some (ecn_frame, 7 ∷ [])
decode-encode_example =
    decode-encode ecn_frame 20 (record { room = 6; bytes = ecn_bytes }) (7 ∷ [])
      ecn_frame-IsEncodable ecn_written
