-- ===== src/Codec/PacketNumber/Recover.antt =====
-- A packet number survives truncation: what the sender writes and what the receiver makes of it.
use quic_x.Common.{
  ℕ, ◌+◌, ◌-◌, ◌*◌, ◌/◌, ◌%◌, ◌^◌, ◌≤◌, ◌<◌, bit_and, ◌≡◌, ◌↔◌, some, List, ◌++◌, arith, IsU64,
  bit_or_disjoint, bit_and_clear,
}
use quic_x.Codec.PacketNumber.{
  length_loop, packet_number_length, encode, decode_truncated, candidate_of, correct, decode,
  set_length_field, length_of_field, receive,
}

-- A length in bytes with the window that it spans: what the packet headers can carry.
pub data Width : ℕ → ℕ → Type 0 where
  one : Width 1 (2 ^ 8)
  two : Width 2 (2 ^ 16)
  three : Width 3 (2 ^ 24)
  four : Width 4 (2 ^ 32)

clear_low :
    (expected : ℕ)
    → expected < 2 ^ 64
    → (bit_and expected (2 ^ 64 - 2 ^ 8) ≡ expected / 2 ^ 8 * 2 ^ 8)
      × (bit_and expected (2 ^ 64 - 2 ^ 16) ≡ expected / 2 ^ 16 * 2 ^ 16)
      × (bit_and expected (2 ^ 64 - 2 ^ 24) ≡ expected / 2 ^ 24 * 2 ^ 24)
      × (bit_and expected (2 ^ 64 - 2 ^ 32) ≡ expected / 2 ^ 32 * 2 ^ 32)
clear_low expected h = (
  bit_and_clear 56 8 expected (omega arith),
  bit_and_clear 48 16 expected (omega arith),
  bit_and_clear 40 24 expected (omega arith),
  bit_and_clear 32 32 expected (omega arith),
)

-- The candidate has the low digits of the truncated number and the high digits of the expected one.
candidate_of_lem :
    {len win : ℕ} (w : Width len win) (expected truncated : ℕ)
    → expected < 2 ^ 64
    → truncated < win
    → candidate_of expected truncated win ≡ expected / win * win + truncated
unfolding candidate_of
candidate_of_lem one expected truncated h ht =
    rw ((clear_low expected h).0) (bit_or_disjoint 8 (expected / 2 ^ 8) truncated ht)
candidate_of_lem two expected truncated h ht =
    rw ((clear_low expected h).1) (bit_or_disjoint 16 (expected / 2 ^ 16) truncated ht)
candidate_of_lem three expected truncated h ht =
    rw ((clear_low expected h).2) (bit_or_disjoint 24 (expected / 2 ^ 24) truncated ht)
candidate_of_lem four expected truncated h ht =
    rw ((clear_low expected h).3) (bit_or_disjoint 32 (expected / 2 ^ 32) truncated ht)

-- The correction finds the number that lies within half a window of the expected one.
correct_lem :
    {len win : ℕ} (w : Width len win) (expected pn : ℕ)
    → expected ≤ 2 ^ 62
    → pn < 2 ^ 62
    → expected < pn + win / 2
    → pn ≤ expected + win / 2
    → correct expected (expected / win * win + pn % win) win ≡ pn
unfolding correct
correct_lem one expected pn he hp lo hi = ground arith
correct_lem two expected pn he hp lo hi = ground arith
correct_lem three expected pn he hp lo hi = ground arith
correct_lem four expected pn he hp lo hi = ground arith

-- What `Encode` writes at these lengths is read as the number modulo the window.
decode_truncated-encode :
    {len win : ℕ} (w : Width len win) (pn : ℕ) (rest : List ℕ)
    → decode_truncated len 0 (encode len pn ++ rest) ≡ some (pn % win, rest)
unfolding decode_truncated encode
decode_truncated-encode one pn rest = ground arith
decode_truncated-encode two pn rest = ground arith
decode_truncated-encode three pn rest = ground arith
decode_truncated-encode four pn rest = ground arith

decode_lem :
    {len win : ℕ} (w : Width len win) (largest pn : ℕ)
    → largest < 2 ^ 62
    → pn < 2 ^ 62
    → largest + 1 < pn + win / 2
    → pn ≤ largest + 1 + win / 2
    → decode largest (pn % win) (len * 8) ≡ pn
unfolding decode
decode_lem one largest pn hl hp lo hi =
    ground
      (arith, candidate_of_lem one (largest + 1) (pn % 2 ^ 8), correct_lem one (largest + 1) pn)
decode_lem two largest pn hl hp lo hi =
    ground
      (arith, candidate_of_lem two (largest + 1) (pn % 2 ^ 16), correct_lem two (largest + 1) pn)
decode_lem three largest pn hl hp lo hi =
    ground (
      arith,
      candidate_of_lem three (largest + 1) (pn % 2 ^ 24),
      correct_lem three (largest + 1) pn,
    )
decode_lem four largest pn hl hp lo hi =
    ground
      (arith, candidate_of_lem four (largest + 1) (pn % 2 ^ 32), correct_lem four (largest + 1) pn)

-- A packet number below 2^62 that is sent in one to four bytes and lies within half the window of
-- those bytes around the receiver's next expected number is recovered, and what follows is left.
pub receive-encode :
    {len win : ℕ} (w : Width len win) (largest pn : ℕ) (rest : List ℕ)
    → largest < 2 ^ 62
    → pn < 2 ^ 62
    → largest + 1 < pn + win / 2
    → pn ≤ largest + 1 + win / 2
    → receive largest len (encode len pn ++ rest) ≡ some (pn, rest)
unfolding receive
receive-encode {len} w largest pn rest hl hp lo hi =
    rw (decode_truncated-encode w pn rest, receive) (ground (arith, decode_lem w largest pn))

-- For every packet number of 64 bits the length has room for the number, and the two-bit field of
-- the header gives it back exactly when the number is below 2^32.
pub packet_number_length_lem :
    (pn : ℕ)
    → IsU64 pn
    → (pn < 256 ^ packet_number_length pn)
      × ((length_of_field (set_length_field (packet_number_length pn)) ≡ packet_number_length pn)
          ↔ (pn < 2 ^ 32))
unfolding packet_number_length length_loop set_length_field length_of_field
packet_number_length_lem pn h = (ground arith, (λ e. ground arith, λ l. ground arith))
