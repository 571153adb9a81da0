-- ===== src/Codec/Varint/Tests.antt =====
-- Runs of the codec, from the examples of RFC 9000, appendix A.1.
use quic_x.Common.{◌^◌, ◌≡◌, refl, ◌&&◌, none, some, [], ◌∷◌, ltb, leb, if◌then◌else◌}
use quic_x.Codec.Varint.RoundTrip.{varint_bytes, encode_varint-eq}
use quic_x.Codec.Varint.{
  int_set, varint_length, encode_body, encode_varint, shift_in, decode_loop, decode_varint,
}

encode_15293 : encode_varint 9 15293 ≡ some (0x7b ∷ 0xbd ∷ [])
unfolding encode_varint encode_body varint_length int_set
encode_15293 = refl

decode_15293 : decode_varint (0x7b ∷ 0xbd ∷ 5 ∷ []) ≡ some (15293, 5 ∷ [])
unfolding decode_varint decode_loop shift_in
decode_15293 = refl

decode_cut : decode_varint (0x9d ∷ 0x7f ∷ 0x3e ∷ []) ≡ none
unfolding decode_varint decode_loop shift_in
decode_cut = refl

encode_varint-eq_example : encode_varint 1 15293 ≡ (
    if leb (varint_length 15293) 1 && ltb 15293 (2 ^ 62) then some (varint_bytes 15293) else none)
encode_varint-eq_example = encode_varint-eq 1 15293
