-- ===== src/Codec/Fixed/RoundTrip.antt =====
-- The fixed-width codec reads what it wrote.
use quic_x.Common.{
  ℕ, ◌%◌, ◌^◌, ◌≡◌, none, some, List, ◌++◌, arith, ltb, if◌then◌else◌, length, length-append,
  take_append, drop_append, ◌>>=◌,
}
use quic_x.Codec.Fixed.{
  be_bytes, be_value, fixed_encode_uint8, fixed_decode_uint8, fixed_encode_uint16,
  fixed_decode_uint16, fixed_encode_uint32, fixed_decode_uint32, fixed_encode_uint64,
  fixed_decode_uint64, encode_bytes, decode_bytes,
}

-- At each width, what is written into a range that is large enough is read back, and what follows
-- is left; a range that is too small makes the writing fail.
pub fixed_round_trips :
    (room v : ℕ) (rest : List ℕ)
    → ((fixed_encode_uint8 room (v % 2 ^ 8) >>= λ bs. fixed_decode_uint8 (bs ++ rest))
        ≡ (if ltb room 1 then none else some (v % 2 ^ 8, rest)))
      × ((fixed_encode_uint16 room (v % 2 ^ 16) >>= λ bs. fixed_decode_uint16 (bs ++ rest))
          ≡ (if ltb room 2 then none else some (v % 2 ^ 16, rest)))
      × ((fixed_encode_uint32 room (v % 2 ^ 32) >>= λ bs. fixed_decode_uint32 (bs ++ rest))
          ≡ (if ltb room 4 then none else some (v % 2 ^ 32, rest)))
      × ((fixed_encode_uint64 room (v % 2 ^ 64) >>= λ bs. fixed_decode_uint64 (bs ++ rest))
          ≡ (if ltb room 8 then none else some (v % 2 ^ 64, rest)))
unfolding fixed_encode_uint8 fixed_decode_uint8 fixed_encode_uint16 fixed_decode_uint16
    fixed_encode_uint32 fixed_decode_uint32 fixed_encode_uint64 fixed_decode_uint64 be_bytes
    be_value
fixed_round_trips room v rest = (ground arith, ground arith, ground arith, ground arith)

-- A byte string that is written is read back by its length, and what follows is left.
pub decode_bytes-encode_bytes :
    (room : ℕ) (bytes bs rest : List ℕ)
    → encode_bytes room bytes ≡ some bs
    → decode_bytes (bs ++ rest) (length bytes) ≡ some (bytes, rest)
unfolding encode_bytes decode_bytes
decode_bytes-encode_bytes room bytes bs rest e =
    ground (arith, take_append bytes rest, drop_append bytes rest, length-append bytes rest)
