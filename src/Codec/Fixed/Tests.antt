-- ===== src/Codec/Fixed/Tests.antt =====
-- Runs of the fixed-width codec.
use quic_x.Common.{◌≡◌, refl, some, [], ◌∷◌}
use quic_x.Codec.Fixed.{be_bytes, fixed_encode_uint16}

put_258 : fixed_encode_uint16 2 258 ≡ some (1 ∷ 2 ∷ [])
unfolding fixed_encode_uint16 be_bytes
put_258 = refl
