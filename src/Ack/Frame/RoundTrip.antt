-- ===== src/Ack/Frame/RoundTrip.antt =====
-- ACK frames are read back as they were written.
use mathlib.Core.List.{append_assoc, append-nil}
use quic_x.Common.{
  ℕ, ◌≡◌, refl, inl, inr, false, Option, none, some, List, [], ◌∷◌, ◌++◌, arith, ltb, leb,
  Bool-cases, length,
}
use quic_x.Codec.Varint.RoundTrip.{decode_varint-bytes, decode_varint32-bytes}
use quic_x.Codec.Wrapper.{BufferEncodeWrapper}
use quic_x.Codec.Wrapper.Frames.{varints_bytes, AreVarints}
use quic_x.Ack.Frame.{encode, decode_ranges, decode_base, decode_ecn, decode, AckRange, AckFrame}
use quic_x.Ack.Frame.Fields.{range_fields, whole_size, whole_bytes, IsEncodable}
use quic_x.Ack.Frame.Written.{encode-eq}

decode_ranges-bytes :
    (rs : List AckRange) (rest : List ℕ)
    → AreVarints (range_fields rs)
    → decode_ranges (length rs) (varints_bytes (range_fields rs) ++ rest) ≡ some (rs, rest)
unfolding decode_ranges range_fields varints_bytes
decode_ranges-bytes [] rest h = refl
decode_ranges-bytes (r ∷ rs) rest (hg, (hr, h)) =
    let ih = decode_ranges-bytes rs rest h in
    rw (append_assoc, append_assoc)
      (rw (decode_varint-bytes r.gap _ hg)
        (rw (decode_varint-bytes r.range_length _ hr) (rw ih refl)))

decode_base-bytes :
    (f : AckFrame) (rest : List ℕ)
    → IsEncodable f
    → decode_base (
        varints_bytes (
          f.largest_acknowledged
          ∷ f.ack_delay
          ∷ length f.ack_ranges
          ∷ f.first_ack_range
          ∷ range_fields f.ack_ranges)
        ++ rest)
      ≡ some (record f { ecn = none }, rest)
unfolding decode_base varints_bytes
decode_base-bytes f rest h =
    let few = h.few in
    let limit : ltb 256 (length f.ack_ranges) ≡ false = ground arith in
    rw (append_assoc, append_assoc, append_assoc, append_assoc)
      (rw (decode_varint-bytes f.largest_acknowledged _ h.largest) (
        rw (decode_varint32-bytes f.ack_delay _ h.delay) (
          rw (decode_varint-bytes (length f.ack_ranges) _ (omega arith)) (
            rw limit (
              rw (decode_varint-bytes f.first_ack_range _ h.first)
                (rw (decode_ranges-bytes f.ack_ranges rest h.ranges) refl))))))

abbrev frame : ℕ → ℕ → ℕ → List AckRange → Option (ℕ × ℕ × ℕ) → AckFrame
frame largest delay first ranges ecn = record {
  largest_acknowledged = largest;
  ack_delay = delay;
  first_ack_range = first;
  ack_ranges = ranges;
  ecn = ecn;
}

decode-frame :
    (largest delay first : ℕ) (ranges : List AckRange) (ecn : Option (ℕ × ℕ × ℕ)) (rest : List ℕ)
    → IsEncodable (frame largest delay first ranges ecn)
    → decode (whole_bytes (frame largest delay first ranges ecn) ++ rest)
      ≡ some (frame largest delay first ranges ecn, rest)
unfolding decode decode_ecn whole_bytes varints_bytes
decode-frame largest delay first ranges none rest h =
    rw (append-nil, append_assoc)
      (rw (decode_varint-bytes 2 _ (omega arith))
        (decode_base-bytes (frame largest delay first ranges none) rest h))
decode-frame largest delay first ranges (some (a, b, c)) rest h =
    rw (append_assoc, append_assoc)
      (rw (decode_varint-bytes 3 _ (omega arith)) (
        rw (decode_base-bytes (frame largest delay first ranges (some (a, b, c))) _ h) (
          let (ha, (hb, (hc, t))) = h.counters in
          rw (append_assoc, append_assoc, append_assoc)
            (rw (decode_varint-bytes a _ ha)
              (rw (decode_varint-bytes b _ hb) (rw (decode_varint-bytes c _ hc) refl))))))

decode-whole_bytes :
    (f : AckFrame) (rest : List ℕ) → IsEncodable f → decode (whole_bytes f ++ rest) ≡ some (f, rest)
decode-whole_bytes f rest h =
    decode-frame f.largest_acknowledged f.ack_delay f.first_ack_range f.ack_ranges f.ecn rest h

written :
    (f : AckFrame) (room : ℕ) (w : BufferEncodeWrapper)
    → IsEncodable f
    → encode f room ≡ some w
    → w.bytes ≡ whole_bytes f
written f room w h e =
    let g = encode-eq f room h in
    elim (Bool-cases (leb (whole_size f) room)) [ inl y ↦ ground arith | inr n ↦ ground arith ]

-- What `Encode` has written of a frame whose fields are in range, into whatever room, `Decode` reads
-- back whatever follows: the same frame, and the bytes that follow it.
pub decode-encode :
    (f : AckFrame) (room : ℕ) (w : BufferEncodeWrapper) (rest : List ℕ)
    → IsEncodable f
    → encode f room ≡ some w
    → decode (w.bytes ++ rest) ≡ some (f, rest)
decode-encode f room w rest h e = rw (written f room w h e) (decode-whole_bytes f rest h)
