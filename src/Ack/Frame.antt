-- ===== src/Ack/Frame.antt =====
-- `AckFrame` and `AckEcnFrame` of src/quic/frame/ack_frame.cpp.
pub mod Fields
pub mod Written
pub mod RoundTrip
mod Tests
use quic_x.Common.{
  ℕ, zero, suc, ◌+◌, ◌%◌, ◌^◌, Option, none, some, List, [], ◌∷◌, ltb, ◌==◌, if◌then◌else◌, length,
  ◌>>=◌,
}
use quic_x.Codec.Varint.{varint_length, decode_varint, decode_varint32}
use quic_x.Codec.Wrapper.{put_varint, BufferEncodeWrapper}

pub record AckRange : Type 0 where
  pub gap : ℕ
  pub range_length : ℕ

-- `ecn` has the three counters of an `AckEcnFrame`, and is `none` in a plain `AckFrame`.
pub record AckFrame : Type 0 where
  pub largest_acknowledged : ℕ
  pub ack_delay : ℕ
  pub first_ack_range : ℕ
  pub ack_ranges : List AckRange
  pub ecn : Option (ℕ × ℕ × ℕ)

abbrev pub k_ack : ℕ
k_ack = 0x02

abbrev pub k_ack_ecn : ℕ
k_ack_ecn = 0x03

abbrev pub frame_type : AckFrame → ℕ
frame_type f = elim f.ecn [ none ↦ k_ack | some c ↦ k_ack_ecn ]

abbrev pub k_max_ack_range_count : ℕ
k_max_ack_range_count = 256

pub ranges_size : List AckRange → ℕ
ranges_size [] = 0
ranges_size (r ∷ rs) = varint_length r.gap + varint_length r.range_length + ranges_size rs

-- `AckFrame::EncodeSize`
pub encode_size : AckFrame → ℕ
encode_size f =
    varint_length (frame_type f)
    + varint_length f.largest_acknowledged
    + varint_length f.ack_delay
    + varint_length (length f.ack_ranges)
    + varint_length f.first_ack_range
    + ranges_size f.ack_ranges

pub encode_ranges : List AckRange → BufferEncodeWrapper → Option BufferEncodeWrapper
encode_ranges [] w = some w
encode_ranges (r ∷ rs) w = put_varint r.gap w >>= put_varint r.range_length >>= encode_ranges rs

pub ecn_size : Option (ℕ × ℕ × ℕ) → ℕ
ecn_size none = 0
ecn_size (some (ect_0, ect_1, ecn_ce)) =
    varint_length ect_0 + varint_length ect_1 + varint_length ecn_ce

-- `EncodeSize` of the frame's own class: that of `AckEcnFrame` has the counters too.
pub class_encode_size : AckFrame → ℕ
class_encode_size f = encode_size f + ecn_size f.ecn

-- `AckFrame::Encode` into a range of `room` bytes.
pub encode_base : AckFrame → ℕ → Option BufferEncodeWrapper
encode_base f room =
    if ltb room (class_encode_size f)
    then none
    else (put_varint (frame_type f) (record { room = room; bytes = [] })
        >>= put_varint f.largest_acknowledged
        >>= put_varint f.ack_delay
        >>= put_varint (length f.ack_ranges)
        >>= put_varint f.first_ack_range
        >>= encode_ranges f.ack_ranges)

-- What `AckEcnFrame::Encode` appends to the frame.
pub put_ecn : Option (ℕ × ℕ × ℕ) → BufferEncodeWrapper → Option BufferEncodeWrapper
put_ecn none w = some w
put_ecn (some (ect_0, ect_1, ecn_ce)) w =
    if ltb w.room (varint_length ect_0 + varint_length ect_1 + varint_length ecn_ce)
    then none
    else (put_varint ect_0 w >>= put_varint ect_1 >>= put_varint ecn_ce)

-- The `Encode` of either class.
pub encode : AckFrame → ℕ → Option BufferEncodeWrapper
encode f room = encode_base f room >>= put_ecn f.ecn

pub decode_ranges : ℕ → List ℕ → Option (List AckRange × List ℕ)
decode_ranges zero bs = some ([], bs)
decode_ranges (suc count) bs = decode_varint bs >>= λ (gap, bs1).
    decode_varint bs1 >>= λ (range, bs2). decode_ranges count bs2 >>= λ (rs, rest).
    some (record { gap = gap; range_length = range } ∷ rs, rest)

-- `AckFrame::Decode` without the type, on a frame with no ranges yet. The delay is a `uint32_t`.
pub decode_base : List ℕ → Option (AckFrame × List ℕ)
decode_base bs = decode_varint bs >>= λ (largest, bs1). decode_varint32 bs1 >>= λ (delay, bs2).
    decode_varint bs2 >>= λ (count, bs3).
    if ltb k_max_ack_range_count count
    then none
    else (decode_varint bs3 >>= λ (first, bs4). decode_ranges count bs4 >>= λ (rs, rest). some (
      record {
        largest_acknowledged = largest;
        ack_delay = delay;
        first_ack_range = first;
        ack_ranges = rs;
        ecn = none;
      },
      rest,
    ))

-- `AckEcnFrame::Decode` without the type.
pub decode_ecn : List ℕ → Option (AckFrame × List ℕ)
decode_ecn bs = decode_base bs >>= λ (f, bs1). decode_varint bs1 >>= λ (ect_0, bs2).
    decode_varint bs2 >>= λ (ect_1, bs3). decode_varint bs3 >>= λ (ecn_ce, rest).
    some (record f { ecn = some (ect_0, ect_1, ecn_ce) }, rest)

-- The type picks the class, as the table of src/quic/frame/frame_decode.cpp does for these two.
pub decode : List ℕ → Option (AckFrame × List ℕ)
decode bs = decode_varint bs >>= λ (type, rest).
    if type % 2 ^ 16 == k_ack
    then decode_base rest
    else if type % 2 ^ 16 == k_ack_ecn
    then decode_ecn rest
    else none
