-- ===== src/Ack/Sent.antt =====
-- The part of `SendControl::OnPacketAck` of src/quic/connection/controler/send_control.cpp that
-- walks over the numbers of an ACK frame: the result lists the numbers that the code looks up among
-- its unacknowledged packets, in order. What it does with each of them is in Recovery/SendControl.
pub mod Covers
pub mod Endless
pub mod Returns
mod Tests
use quic_x.Common.{
  ℕ, zero, suc, ◌+◌, ◌%◌, ◌^◌, Option, none, some, List, [], ◌∷◌, ◌++◌, ltb, leb, if◌then◌else◌,
  ◌>>=◌, sub64,
}
use quic_x.Ack.Frame.{AckRange, AckFrame}

-- `i < GetFirstAckRange()`: `pkt_num--`, then the look-up. The number below the last one follows.
unfoldable pub walk_first : ℕ → ℕ → List ℕ × ℕ
walk_first zero pkt_num = ([], pkt_num)
walk_first (suc n) pkt_num =
    let (pns, last) = walk_first n (sub64 pkt_num 1) in (sub64 pkt_num 1 ∷ pns, last)

-- One further range: the look-up, and `pkt_num--` but after the last number. `i` is a `uint32_t`
-- and is compared with a `uint64_t`. `none`: the fuel has run out.
unfoldable pub walk_range : ℕ → ℕ → ℕ → ℕ → Option (List ℕ × ℕ)
walk_range zero i range_length pkt_num = none
walk_range (suc fuel) i range_length pkt_num =
    let next = if ltb i range_length then sub64 pkt_num 1 else pkt_num in
    let more = walk_range fuel ((i + 1) % 2 ^ 32) range_length next in
    if leb i range_length
    then (more >>= λ (pns, last). some (pkt_num ∷ pns, last))
    else some ([], pkt_num)

-- `ranges`, each with `fuel` rounds.
unfoldable pub walk_ranges : ℕ → List AckRange → ℕ → Option (List ℕ)
walk_ranges fuel [] pkt_num = some []
walk_ranges fuel (r ∷ rs) pkt_num =
    walk_range fuel 0 r.range_length (sub64 (sub64 pkt_num r.gap) 2) >>= λ (pns, last).
    walk_ranges fuel rs last >>= λ more. some (pns ++ more)

-- The whole frame, against the largest number acknowledged before. `GetFirstAckRange` returns a
-- `uint32_t`.
pub acked_numbers : ℕ → ℕ → AckFrame → Option (List ℕ)
acked_numbers fuel largest_acked f =
    let (first, last) = walk_first (f.first_ack_range % 2 ^ 32) f.largest_acknowledged in
    walk_ranges fuel f.ack_ranges last >>= λ more. some (
      (if ltb largest_acked f.largest_acknowledged then f.largest_acknowledged ∷ [] else [])
      ++ (first ++ more))
