-- ===== src/Codec/PacketNumber/Counter.antt =====
-- The numbers that the counters hand out.
use quic_x.Common.{
  ℕ, ◌+◌, ◌^◌, ◌≤◌, ◌<◌, ◌≡◌, refl, Bool, true, false, List, [], ◌∷◌, arith, if◌then◌else◌, length,
  u64_max,
}
use quic_x.Codec.PacketNumber.{
  new, current, store, next_packet_number, reset, PacketNumberSpace, initial, handshake,
  application, PacketNumber,
}

-- The state after one number was taken in each of the spaces listed.
pub run : PacketNumber → List PacketNumberSpace → PacketNumber
run p [] = p
run p (s ∷ ss) = run (next_packet_number p s).1 ss

abbrev pub same_space : PacketNumberSpace → PacketNumberSpace → Bool
same_space initial initial = true
same_space handshake handshake = true
same_space application application = true
same_space _ _ = false

-- How often a space is listed.
abbrev pub count : PacketNumberSpace → List PacketNumberSpace → ℕ
count s [] = 0
count s (t ∷ ts) = (if same_space t s then 1 else 0) + count s ts

current-next :
    (p : PacketNumber) (s t : PacketNumberSpace)
    → current p s + 1 < 2 ^ 64
    → current (next_packet_number p t).1 s ≡ (if same_space t s then 1 else 0) + current p s
unfolding next_packet_number current store
current-next p initial initial h = ground arith
current-next p initial handshake h = ground arith
current-next p initial application h = ground arith
current-next p handshake initial h = ground arith
current-next p handshake handshake h = ground arith
current-next p handshake application h = ground arith
current-next p application initial h = ground arith
current-next p application handshake h = ground arith
current-next p application application h = ground arith

current-run :
    (p : PacketNumber) (s : PacketNumberSpace) (ts : List PacketNumberSpace)
    → current p s + length ts < 2 ^ 64
    → current (run p ts) s ≡ count s ts + current p s
unfolding run
current-run p s [] h = omega arith
current-run p s (t ∷ ts) h =
    ground (arith, current-next p s t, current-run (next_packet_number p t).1 s ts)

current-new : (s : PacketNumberSpace) → current new s ≡ 0
unfolding current
current-new initial = refl
current-new handshake = refl
current-new application = refl

count-le : (s : PacketNumberSpace) (ts : List PacketNumberSpace) → count s ts ≤ length ts
count-le s [] = omega arith
count-le s (t ∷ ts) = ground (arith, count-le s ts)

-- Whatever numbers were taken before, in whatever spaces, the next one of a space is one more than
-- the count of those taken in that space, while fewer than 2^64 - 1 were taken.
pub next_packet_number-run :
    (ts : List PacketNumberSpace) (s : PacketNumberSpace)
    → length ts + 1 < 2 ^ 64
    → (next_packet_number (run new ts) s).0 ≡ count s ts + 1
unfolding next_packet_number
next_packet_number-run ts s h = ground (arith, current-run new s ts, current-new s, count-le s ts)

-- `Reset` makes the next number of its space 0 and leaves the counters of the others.
pub next_packet_number-reset :
    (p : PacketNumber) (s t : PacketNumberSpace)
    → ((next_packet_number (reset p s) s).0 ≡ 0)
      × (current (reset p s) t ≡ (if same_space s t then u64_max else current p t))
unfolding next_packet_number reset current store
next_packet_number-reset p initial initial = ground arith
next_packet_number-reset p initial handshake = ground arith
next_packet_number-reset p initial application = ground arith
next_packet_number-reset p handshake initial = ground arith
next_packet_number-reset p handshake handshake = ground arith
next_packet_number-reset p handshake application = ground arith
next_packet_number-reset p application initial = ground arith
next_packet_number-reset p application handshake = ground arith
next_packet_number-reset p application application = ground arith
