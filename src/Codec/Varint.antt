-- ===== src/Codec/Varint.antt =====
-- `EncodeVarint`, `GetEncodeVarintLength` and `DecodeVarint` of src/common/decode/decode.cpp.
-- The range [start, end) is its size when it is written, `none` is a null pointer, and a list of
-- bytes when it is read: the result is the value and what stands behind the new pointer.
pub mod RoundTrip
mod Tests
use quic_x.Common.{
  ℕ, zero, suc, ◌+◌, ◌-◌, ◌*◌, ◌/◌, ◌%◌, ◌^◌, bit_and, bit_or, Option, none, some, List, [], ◌∷◌,
  ltb, leb, if◌then◌else◌, length,
}

-- `((uint64_t)-1) >> 2`
abbrev pub k_max_decode : ℕ
k_max_decode = (2 ^ 64 - 1) / 2 ^ 2

-- The macro `IntSet(p, value, len, bits)`: the byte that is stored.
unfoldable pub int_set : ℕ → ℕ → ℕ → ℕ
int_set value len bits = bit_or (bit_and (value / 2 ^ (len * 8)) 0xff) (bits * 2 ^ 6) % 2 ^ 8

unfoldable pub varint_length : ℕ → ℕ
varint_length value =
    if leb value 0x3f
    then 1
    else if leb value 0x3fff
    then 2
    else if leb value 0x3fff_ffff
    then 4
    else 8

-- The branches of `EncodeVarint` below its guards, each with its own check of the range.
unfoldable pub encode_body : ℕ → ℕ → Option (List ℕ)
encode_body room value =
    if ltb value (2 ^ 6)
    then (if ltb room 1 then none else some (int_set value 0 0 ∷ []))
    else if ltb value (2 ^ 14)
    then (if ltb room 2 then none else some (int_set value 1 1 ∷ int_set value 0 0 ∷ []))
    else if ltb value (2 ^ 30)
    then (if ltb room 4
        then none
        else some
            (int_set value 3 2 ∷ int_set value 2 0 ∷ int_set value 1 0 ∷ int_set value 0 0 ∷ []))
    else (if ltb room 8
        then none
        else some (
            int_set value 7 3
            ∷ int_set value 6 0
            ∷ int_set value 5 0
            ∷ int_set value 4 0
            ∷ int_set value 3 0
            ∷ int_set value 2 0
            ∷ int_set value 1 0
            ∷ int_set value 0 0
            ∷ []))

unfoldable pub encode_varint : ℕ → ℕ → Option (List ℕ)
encode_varint room value =
    if leb room 0
    then none
    else if ltb room (varint_length value)
    then none
    else if ltb k_max_decode value
    then none
    else encode_body room value

-- `value = (value << 8) + *p`
unfoldable pub shift_in : ℕ → ℕ → ℕ
shift_in value b = (value * 2 ^ 8 + b) % 2 ^ 64

-- `while (--len)`, with the early return at the end of the range. The first argument is what `len`
-- is after the decrement. The caller has checked that the bytes are there, so `[]` is not reached.
unfoldable pub decode_loop : ℕ → ℕ → List ℕ → ℕ × List ℕ
decode_loop zero value bs = (value, bs)
decode_loop (suc len) value [] = (value, [])
decode_loop (suc len) value (b ∷ []) = (shift_in value b, [])
decode_loop (suc len) value (b ∷ c ∷ bs) = decode_loop len (shift_in value b) (c ∷ bs)

unfoldable pub decode_varint : List ℕ → Option (ℕ × List ℕ)
decode_varint [] = none
decode_varint (b ∷ bs) =
    let len = 2 ^ (b / 2 ^ 6) in
    if ltb (length bs) (len - 1) then none else some (decode_loop (len - 1) (bit_and b 0x3f) bs)

-- The overload for `uint32_t`, which cuts the value.
unfoldable pub decode_varint32 : List ℕ → Option (ℕ × List ℕ)
decode_varint32 bs = elim (decode_varint bs) [
  | none ↦ none
  | some (value, rest) ↦ some (value % 2 ^ 32, rest)
]
