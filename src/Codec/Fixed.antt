-- ===== src/Codec/Fixed.antt =====
-- The fixed-width big-endian integers and the byte strings of src/common/decode/decode.cpp. As in
-- the sibling `Varint`, a range is its size when written and a list of bytes when read.
pub mod RoundTrip
mod Tests
use quic_x.Common.{
  ℕ, zero, suc, ◌+◌, ◌*◌, ◌/◌, ◌%◌, ◌^◌, Option, none, some, List, [], ◌∷◌, ltb, leb, if◌then◌else◌,
  length, take, drop,
}

-- The bytes of `htons`, `htonl` and `htobe64`: big-endian, `n` of them.
pub be_bytes : ℕ → ℕ → List ℕ
be_bytes zero value = []
be_bytes (suc n) value = (value / 2 ^ (n * 8) % 2 ^ 8) ∷ be_bytes n value

-- The number in the first `n` bytes, as `ntohs` and its kin read it.
pub be_value : ℕ → ℕ → List ℕ → ℕ
be_value zero acc bs = acc
be_value (suc n) acc [] = acc
be_value (suc n) acc (b ∷ bs) = be_value n (acc * 2 ^ 8 + b) bs

pub fixed_encode_uint8 : ℕ → ℕ → Option (List ℕ)
fixed_encode_uint8 room value = if leb room 0 then none else some (value ∷ [])

pub fixed_decode_uint8 : List ℕ → Option (ℕ × List ℕ)
fixed_decode_uint8 [] = none
fixed_decode_uint8 (b ∷ bs) = some (b, bs)

pub fixed_encode_uint16 : ℕ → ℕ → Option (List ℕ)
fixed_encode_uint16 room value = if ltb room 2 then none else some (be_bytes 2 value)

pub fixed_decode_uint16 : List ℕ → Option (ℕ × List ℕ)
fixed_decode_uint16 bs = if ltb (length bs) 2 then none else some (be_value 2 0 bs, drop 2 bs)

pub fixed_encode_uint32 : ℕ → ℕ → Option (List ℕ)
fixed_encode_uint32 room value = if ltb room 4 then none else some (be_bytes 4 value)

pub fixed_decode_uint32 : List ℕ → Option (ℕ × List ℕ)
fixed_decode_uint32 bs = if ltb (length bs) 4 then none else some (be_value 4 0 bs, drop 4 bs)

pub fixed_encode_uint64 : ℕ → ℕ → Option (List ℕ)
fixed_encode_uint64 room value = if ltb room 8 then none else some (be_bytes 8 value)

pub fixed_decode_uint64 : List ℕ → Option (ℕ × List ℕ)
fixed_decode_uint64 bs = if ltb (length bs) 8 then none else some (be_value 8 0 bs, drop 8 bs)

-- `EncodeBytes` writes the `in_len` bytes that it is given.
unfoldable pub encode_bytes : ℕ → List ℕ → Option (List ℕ)
encode_bytes room bytes = if ltb room (length bytes) then none else some bytes

-- `DecodeBytesCopy` and `DecodeBytesNoCopy`: the bytes, copied or pointed to.
pub decode_bytes : List ℕ → ℕ → Option (List ℕ × List ℕ)
decode_bytes bs out_len =
    if ltb (length bs) out_len then none else some (take out_len bs, drop out_len bs)
