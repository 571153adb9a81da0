-- ===== src/Ack/Sent/Endless.antt =====
-- Ranges that the sender's walk never leaves.
use quic_x.Common.{
  ℕ, zero, suc, ◌+◌, ◌-◌, ◌%◌, ◌^◌, ◌≤◌, ◌<◌, ◌≡◌, refl, inl, inr, none, List, [], ◌∷◌, ◌++◌, arith,
  ltb, if◌then◌else◌, Option-cases, sub64,
}
use quic_x.Ack.Frame.{AckRange, AckFrame}
use quic_x.Ack.Sent.{walk_range, walk_ranges, acked_numbers}

walk_range-none :
    (fuel i range_length pn : ℕ)
    → 2 ^ 32 - 1 ≤ range_length
    → i < 2 ^ 32
    → walk_range fuel i range_length pn ≡ none
unfolding walk_range
walk_range-none zero i range_length pn h b = refl
walk_range-none (suc fuel) i range_length pn h b =
    let ih =
      walk_range-none fuel ((i + 1) % 2 ^ 32) range_length
        (if ltb i range_length then sub64 pn 1 else pn) h (omega arith) in
    ground arith

walk_ranges-none :
    (fuel : ℕ) (before after : List AckRange) (r : AckRange) (pn : ℕ)
    → 2 ^ 32 - 1 ≤ r.range_length
    → walk_ranges fuel (before ++ r ∷ after) pn ≡ none
unfolding walk_ranges
walk_ranges-none fuel [] after r pn h =
    rw (walk_range-none fuel 0 r.range_length (sub64 (sub64 pn r.gap) 2) h (omega arith)) refl
walk_ranges-none fuel (s ∷ before) after r pn h =
    elim (Option-cases (walk_range fuel 0 s.range_length (sub64 (sub64 pn s.gap) 2))) [
      | inl e ↦ rw e refl
      | inr ((pns, last), e) ↦ rw e (rw (walk_ranges-none fuel before after r last h) refl)
    ]

-- The walk of `OnPacketAck` over a frame ends for no number of rounds, when one of the frame's
-- further ranges has a length of 2^32 - 1 or more: the counter of the loop is a `uint32_t`, and
-- wraps before it passes the length.
pub acked_numbers-none :
    (fuel largest_acked : ℕ) (f : AckFrame) (before after : List AckRange) (r : AckRange)
    → f.ack_ranges ≡ before ++ r ∷ after
    → 2 ^ 32 - 1 ≤ r.range_length
    → acked_numbers fuel largest_acked f ≡ none
unfolding acked_numbers
acked_numbers-none fuel largest_acked f before after r e h =
    rw e (rw (walk_ranges-none fuel before after r _ h) refl)
