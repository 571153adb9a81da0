-- ===== src/Codec/PacketNumber/Tests.antt =====
-- Runs, from RFC 9000, appendix A.3.
use quic_x.Common.{◌^◌, ◌≡◌, refl, some, [], ◌∷◌, ◌++◌, arith}
use quic_x.Codec.PacketNumber.Recover.{receive-encode, two}
use quic_x.Codec.PacketNumber.{
  length_loop, packet_number_length, encode, candidate_of, correct, decode, receive,
}

decode_rfc : decode 0xa82f30ea 0x9b32 16 ≡ 0xa82f9b32
unfolding decode candidate_of correct
decode_rfc = refl

-- Five bytes are announced for a number above 32 bits, and three are written.
encode_long : encode (packet_number_length (2 ^ 32)) (2 ^ 32) ≡ 0 ∷ 0 ∷ 0 ∷ []
unfolding encode packet_number_length length_loop
encode_long = refl

receive-encode_example :
    receive 0xa82f30ea 2 (encode 2 0xa82f9b32 ++ 7 ∷ []) ≡ some (0xa82f9b32, 7 ∷ [])
receive-encode_example =
    receive-encode two 0xa82f30ea 0xa82f9b32 (7 ∷ []) (omega arith) (omega arith) (omega arith)
      (omega arith)
