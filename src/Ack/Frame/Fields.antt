-- ===== src/Ack/Frame/Fields.antt =====
-- The numbers that ACK frames are made of.
use quic_x.Common.{
  ℕ, ◌+◌, ◌^◌, ◌≤◌, ◌<◌, inl, inr, Option, none, some, List, [], ◌∷◌, ◌++◌, arith, Option-cases,
  length,
}
use quic_x.Codec.Wrapper.Frames.{varints_bytes, varints_length, AreVarints}
use quic_x.Ack.Frame.{frame_type, AckRange, AckFrame}

-- The numbers that a frame is made of.
unfoldable pub range_fields : List AckRange → List ℕ
range_fields [] = []
range_fields (r ∷ rs) = r.gap ∷ r.range_length ∷ range_fields rs

abbrev pub base_fields : AckFrame → List ℕ
base_fields f =
    frame_type f
    ∷ f.largest_acknowledged
    ∷ f.ack_delay
    ∷ length f.ack_ranges
    ∷ f.first_ack_range
    ∷ range_fields f.ack_ranges

abbrev pub ecn_fields : Option (ℕ × ℕ × ℕ) → List ℕ
ecn_fields none = []
ecn_fields (some (ect_0, ect_1, ecn_ce)) = ect_0 ∷ ect_1 ∷ ecn_ce ∷ []

-- Every field is in the range of a varint, the delay in that of its type, and the frame has no more
-- ranges than the decoder takes.
pub record IsEncodable (f : AckFrame) : Type 0 where
  pub largest : f.largest_acknowledged < 2 ^ 62
  pub delay : f.ack_delay < 2 ^ 32
  pub first : f.first_ack_range < 2 ^ 62
  pub ranges : AreVarints (range_fields f.ack_ranges)
  pub few : length f.ack_ranges ≤ 256
  pub counters : AreVarints (ecn_fields f.ecn)

-- The room that a frame needs.
unfoldable pub whole_size : AckFrame → ℕ
whole_size f = varints_length (base_fields f) + varints_length (ecn_fields f.ecn)

unfoldable pub whole_bytes : AckFrame → List ℕ
whole_bytes f = varints_bytes (base_fields f) ++ varints_bytes (ecn_fields f.ecn)

pub type-IsVarint : (f : AckFrame) → frame_type f < 2 ^ 62
type-IsVarint f = elim (Option-cases f.ecn) [
  | inl e ↦ rw e (omega arith)
  | inr (c, e) ↦ rw e (omega arith)
]

pub base-AreVarints : (f : AckFrame) → IsEncodable f → AreVarints (base_fields f)
base-AreVarints f h =
    let few = h.few in
    let delay = h.delay in
    (type-IsVarint f, (h.largest, (omega arith, (omega arith, (h.first, h.ranges)))))
