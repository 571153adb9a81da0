-- ===== src/Qpack/Prefix.antt =====
-- The prefixed integers and string literals of src/http3/qpack/util.cpp. A buffer that is written is
-- the number of bytes for which it has room, and one that is read is the list of its bytes. The
-- decoding of Huffman codes is not modelled: a literal in such codes is
-- kept apart, with the bytes that are handed to it.
pub mod RoundTrip
pub mod Strings
mod Tests
use quic_x.Common.{
  ℕ, zero, suc, ◌+◌, ◌-◌, ◌/◌, ◌%◌, ◌^◌, bit_and, bit_or, Bool, not, ◌||◌, Option, none, some, List,
  [], ◌∷◌, ◌++◌, ltb, leb, ◌==◌, ◌!=◌, if◌then◌else◌, length, take, drop, ◌>>=◌, add64, mul64,
}

-- `(1u << prefix_bits) - 1u`
abbrev pub max_in_prefix : ℕ → ℕ
max_in_prefix prefix_bits = 2 ^ prefix_bits - 1

-- The continuation bytes, with fuel.
unfoldable pub encode_rest : ℕ → ℕ → ℕ → Option (List ℕ)
encode_rest zero room value = none
encode_rest (suc fuel) room value =
    let more = encode_rest fuel (room - 1) (value / 128) in
    if ltb room 1
    then none
    else if leb 128 value
    then (more >>= (λ bs. some ((value % 128 + 128) ∷ bs)))
    else some (value % 2 ^ 8 ∷ [])

-- `QpackEncodePrefixedInteger`: the bytes written, or `none`.
unfoldable pub encode_prefixed : ℕ → ℕ → ℕ → ℕ → Option (List ℕ)
unfolding encode_rest
encode_prefixed room prefix_bits mask value =
    let top = max_in_prefix prefix_bits in
    if prefix_bits == 0 || ltb 8 prefix_bits
    then none
    else if ltb room 1
    then none
    else if ltb value top
    then some (bit_or mask value ∷ [])
    else (encode_rest 10 (room - 1) (value - top) >>= (λ bs. some (bit_or mask top ∷ bs)))

-- The continuation bytes from the shift `m` on. A shift of 64 or more, which C++ leaves undefined,
-- gives 0 here.
unfoldable pub decode_rest : ℕ → ℕ → List ℕ → Option (ℕ × List ℕ)
decode_rest m value [] = none
decode_rest m value (b ∷ bs) =
    let sum = add64 value (mul64 (bit_and b 0x7f) (2 ^ m)) in
    let more = decode_rest (m + 7) sum bs in if bit_and b 0x80 != 0 then more else some (sum, bs)

-- `QpackDecodePrefixedInteger`: the first byte, the value, and the bytes that are left.
unfoldable pub decode_prefixed : ℕ → List ℕ → Option (ℕ × ℕ × List ℕ)
unfolding decode_rest
decode_prefixed prefix_bits [] = none
decode_prefixed prefix_bits (first ∷ bs) =
    let value = bit_and first (max_in_prefix prefix_bits) in
    if prefix_bits == 0 || ltb 8 prefix_bits
    then none
    else if ltb value (max_in_prefix prefix_bits)
    then some (first, value, bs)
    else (decode_rest 0 value bs >>= (λ r. some (first, r.0, r.1)))

-- `QpackEncodeStringLiteral`
unfoldable pub encode_string : ℕ → List ℕ → Bool → Option (List ℕ)
unfolding encode_prefixed
encode_string room s huffman =
    encode_prefixed room 7 (if huffman then 0x80 else 0) (length s)
    >>= (λ prefix. if ltb room (length prefix + length s) then none else some (prefix ++ s))

-- What becomes of `out`: bytes as they stand, or the outcome of `HuffmanEncoder::Decode` on the
-- bytes named, which is not modelled.
pub data Literal : Type 0 where
  plain coded : List ℕ → Literal

-- `QpackDecodeStringLiteral`: the literal and the bytes that are left. A length of 2^31 or more,
-- beyond what a buffer holds, is refused here.
unfoldable pub decode_string : List ℕ → Option (Literal × List ℕ)
unfolding decode_prefixed
decode_string bs = decode_prefixed 7 bs >>= (λ r.
    let huffman = bit_and r.0 0x80 != 0 in
    if r.1 == 0
    then some (plain [], r.2)
    else if ltb (length r.2) r.1
    then none
    else if not huffman
    then some (plain (take r.1 r.2), drop r.1 r.2)
    else some (coded (take r.1 r.2), drop r.1 r.2))
