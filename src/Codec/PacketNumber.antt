-- ===== src/Codec/PacketNumber.antt =====
-- src/quic/packet/packet_number.cpp: the counters of the packet number spaces, and the truncated
-- packet numbers of RFC 9000, section 17.1 and appendix A.
pub mod Recover
pub mod Counter
mod Tests
use quic_x.Common.{
  ℕ, zero, suc, ◌+◌, ◌-◌, ◌*◌, ◌/◌, ◌%◌, ◌^◌, bit_and, bit_or, ◌&&◌, Option, none, some, List, [],
  ◌∷◌, ◌++◌, ltb, leb, ◌==◌, if◌then◌else◌, u64_max, add64, sub64,
}

pub data PacketNumberSpace : Type 0 where
  initial handshake application : PacketNumberSpace

-- `cur_packet_number_`
pub record PacketNumber : Type 0 where
  pub cur_initial : ℕ
  pub cur_handshake : ℕ
  pub cur_application : ℕ

abbrev pub new : PacketNumber
new = record { cur_initial = 0; cur_handshake = 0; cur_application = 0 }

pub current : PacketNumber → PacketNumberSpace → ℕ
current p initial = p.cur_initial
current p handshake = p.cur_handshake
current p application = p.cur_application

pub store : PacketNumber → PacketNumberSpace → ℕ → PacketNumber
store p initial v = record p { cur_initial = v }
store p handshake v = record p { cur_handshake = v }
store p application v = record p { cur_application = v }

-- `++cur_packet_number_[space]`
pub next_packet_number : PacketNumber → PacketNumberSpace → ℕ × PacketNumber
next_packet_number p space = let v = add64 (current p space) 1 in (v, store p space v)

-- `cur_packet_number_[space] = -1`
pub reset : PacketNumber → PacketNumberSpace → PacketNumber
reset p space = store p space u64_max

-- `while (packet_number > 0)`, with fuel. A `uint64_t` is used up after eight rounds.
pub length_loop : ℕ → ℕ → ℕ → ℕ
length_loop zero pn len = len
length_loop (suc fuel) pn len =
    let more = length_loop fuel (pn / 2 ^ 8) (len + 1) in if ltb 0 pn then more else len

pub packet_number_length : ℕ → ℕ
packet_number_length pn = let len = length_loop 8 pn 0 in if ltb len 2 then 2 else len

-- The four stores of `Encode`, each behind its test.
pub encode : ℕ → ℕ → List ℕ
encode len pn =
    (if len == 4 then (pn / 2 ^ 24 % 2 ^ 8) ∷ [] else [])
    ++ ((if leb 3 len then (pn / 2 ^ 16 % 2 ^ 8) ∷ [] else [])
        ++ ((if leb 2 len then (pn / 2 ^ 8 % 2 ^ 8) ∷ [] else []) ++ ((pn % 2 ^ 8) ∷ [])))

-- The first `Decode`, which continues the number that it is given; `none` is a read past the end.
pub decode_truncated : ℕ → ℕ → List ℕ → Option (ℕ × List ℕ)
decode_truncated zero pn bs = some (pn, bs)
decode_truncated (suc len) pn [] = none
decode_truncated (suc len) pn (b ∷ bs) = decode_truncated len ((pn * 2 ^ 8 + b) % 2 ^ 64) bs

-- `(expected_pn & ~pn_mask) | truncated_pn`
pub candidate_of : ℕ → ℕ → ℕ → ℕ
candidate_of expected truncated win = bit_or (bit_and expected (2 ^ 64 - 1 - (win - 1))) truncated

-- The two corrections by a window. `s_max_number` is 2 ^ 62.
pub correct : ℕ → ℕ → ℕ → ℕ
correct expected candidate win =
    let hwin = win / 2 in
    if leb (add64 candidate hwin) expected && ltb candidate (sub64 (2 ^ 62) win)
    then add64 candidate win
    else if ltb (add64 expected hwin) candidate && leb win candidate
    then candidate - win
    else candidate

-- The second `Decode`. `1 << truncated_pn_bits` is defined below 64 bits.
pub decode : ℕ → ℕ → ℕ → ℕ
decode largest truncated bits =
    let expected = add64 largest 1 in
    let win = 2 ^ bits in correct expected (candidate_of expected truncated win) win

-- The two-bit field of the packet header that carries the length less one: set, then read.
pub set_length_field : ℕ → ℕ
set_length_field len = (len + 2 ^ 8 - 1) % 2 ^ 2

pub length_of_field : ℕ → ℕ
length_of_field field = field + 1

-- How the packets read the number: the bytes first, then the full number.
pub receive : ℕ → ℕ → List ℕ → Option (ℕ × List ℕ)
receive largest len bs = elim (decode_truncated len 0 bs) [
  | none ↦ none
  | some (truncated, rest) ↦ some (decode largest truncated (len * 8), rest)
]
