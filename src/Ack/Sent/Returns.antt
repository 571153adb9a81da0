-- ===== src/Ack/Sent/Returns.antt =====
-- The walk over an ACK frame ends when no further range is longer than a `uint32_t` counts.
use quic_x.Common.{
  ℕ, zero, suc, ◌+◌, ◌%◌, ◌^◌, ◌≤◌, ◌<◌, ◌≡◌, refl, some, List, [], ◌∷◌, ◌++◌, arith, ltb,
  if◌then◌else◌, le→leb, All, sub64,
}
use quic_x.Ack.Frame.{AckRange}
use quic_x.Ack.Sent.{walk_range, walk_ranges}

-- A range that the counter of the loop can reach, and that the fuel is enough for.
abbrev pub IsShort : ℕ → AckRange → Type 0
IsShort fuel r = (r.range_length + 2 ≤ fuel) × (r.range_length + 1 < 2 ^ 32)

walk_range-over :
    (fuel i range_length pn : ℕ)
    → range_length < i
    → walk_range (suc fuel) i range_length pn ≡ some ([], pn)
unfolding walk_range
walk_range-over fuel i range_length pn h = ground arith

walk_range-round :
    (fuel i range_length pn : ℕ) (pns : List ℕ) (last : ℕ)
    → i ≤ range_length
    → range_length + 1 < 2 ^ 32
    → walk_range fuel (i + 1) range_length (if ltb i range_length then sub64 pn 1 else pn)
      ≡ some (pns, last)
    → walk_range (suc fuel) i range_length pn ≡ some (pn ∷ pns, last)
unfolding walk_range
walk_range-round fuel i range_length pn pns last h b e =
    let w : (i + 1) % 2 ^ 32 ≡ i + 1 = omega arith in
    rw (le→leb i range_length h) (rw w (rw e refl))

walk_range-returns :
    (k fuel i range_length pn : ℕ)
    → i + k ≡ range_length
    → range_length + 1 < 2 ^ 32
    → k + 2 ≤ fuel
    → (r : List ℕ × ℕ) × (walk_range fuel i range_length pn ≡ some r)
walk_range-returns k zero i range_length pn e h f = absurd (omega arith)
walk_range-returns zero (suc zero) i range_length pn e h f = absurd (omega arith)
walk_range-returns zero (suc (suc fuel)) i range_length pn e h f =
    let next = if ltb i range_length then sub64 pn 1 else pn in
    (
      (pn ∷ [], next),
      walk_range-round (suc fuel) i range_length pn [] next (omega arith) h
          (walk_range-over fuel (i + 1) range_length next (omega arith)),
    )
walk_range-returns (suc k) (suc fuel) i range_length pn e h f =
    let next = if ltb i range_length then sub64 pn 1 else pn in
    let ((pns, last), g) =
      walk_range-returns k fuel (i + 1) range_length next (omega arith) h (omega arith) in
    ((pn ∷ pns, last), walk_range-round fuel i range_length pn pns last (omega arith) h g)

pub walk_ranges-returns :
    (fuel : ℕ) (rs : List AckRange) (pn : ℕ)
    → All (IsShort fuel) rs
    → (l : List ℕ) × (walk_ranges fuel rs pn ≡ some l)
unfolding walk_ranges
walk_ranges-returns fuel [] pn h = ([], refl)
walk_ranges-returns fuel (r ∷ rs) pn ((f, s), h) =
    let ((pns, last), e) =
      walk_range-returns r.range_length fuel 0 r.range_length (sub64 (sub64 pn r.gap) 2)
        (omega arith) s f in
    let (l, g) = walk_ranges-returns fuel rs last h in (pns ++ l, rw e (rw g refl))
