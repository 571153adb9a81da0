-- ===== src/Ack/Frame/Written.antt =====
-- What is written of an ACK frame.
use quic_x.Ack.Frame.Fields.{
  range_fields, base_fields, ecn_fields, whole_size, whole_bytes, base-AreVarints, IsEncodable,
}
use quic_x.Ack.Frame.{
  ranges_size, encode_size, encode_ranges, ecn_size, class_encode_size, encode_base, put_ecn,
  encode, AckRange, AckFrame,
}
use mathlib.Core.List.{append-nil}
use quic_x.Common.{
  ℕ, ◌+◌, ◌-◌, ◌≤◌, ◌<◌, ◌≡◌, refl, ◌∙◌, inl, inr, false, Option, none, some, List, [], ◌∷◌, ◌++◌,
  arith, ltb, leb, if◌then◌else◌, Bool-cases, Option-cases, length, length-append, ◌>>=◌,
}
use quic_x.Codec.Varint.{varint_length}
use quic_x.Codec.Wrapper.{stage, put_varint, put_varints, BufferEncodeWrapper}
use quic_x.Codec.Wrapper.Frames.{
  varints_bytes, varints_length, AreVarints, put_varints_lem, length-varints_bytes,
}

encode_ranges-put_varints :
    (rs : List AckRange) (w : BufferEncodeWrapper)
    → encode_ranges rs w ≡ put_varints (range_fields rs) w
unfolding encode_ranges range_fields put_varints
encode_ranges-put_varints [] w = refl
encode_ranges-put_varints (r ∷ rs) w = elim (Option-cases (put_varint r.gap w)) [
  | inl e ↦ rw e refl
  | inr (w1, e) ↦ rw e (elim (Option-cases (put_varint r.range_length w1)) [
    | inl g ↦ rw g refl
    | inr (w2, g) ↦ rw g (encode_ranges-put_varints rs w2)
  ])
]

ranges_size-varints_length :
    (rs : List AckRange) → ranges_size rs ≡ varints_length (range_fields rs)
unfolding ranges_size range_fields varints_length
ranges_size-varints_length [] = refl
ranges_size-varints_length (r ∷ rs) = ground (arith, ranges_size-varints_length rs)

encode_size-eq : (f : AckFrame) → encode_size f ≡ varints_length (base_fields f)
unfolding encode_size varints_length
encode_size-eq f = ground (arith, ranges_size-varints_length f.ack_ranges)

ecn_size-varints_length : (o : Option (ℕ × ℕ × ℕ)) → ecn_size o ≡ varints_length (ecn_fields o)
unfolding ecn_size varints_length
ecn_size-varints_length none = refl
ecn_size-varints_length (some (a, b, c)) = omega arith

class_encode_size-eq : (f : AckFrame) → class_encode_size f ≡ whole_size f
unfolding class_encode_size whole_size
class_encode_size-eq f = omega (arith, encode_size-eq f, ecn_size-varints_length f.ecn)

-- A chain of writes is a write of the list.
put_varints_step :
    (m : Option BufferEncodeWrapper) (v : ℕ) (vs : List ℕ)
    → (m >>= put_varint v >>= put_varints vs) ≡ (m >>= put_varints (v ∷ vs))
unfolding put_varints
put_varints_step none v vs = refl
put_varints_step (some w) v vs = refl

put_ranges_step :
    (m : Option BufferEncodeWrapper) (rs : List AckRange)
    → (m >>= encode_ranges rs) ≡ (m >>= put_varints (range_fields rs))
put_ranges_step none rs = refl
put_ranges_step (some w) rs = encode_ranges-put_varints rs w

encode_base-bytes :
    (f : AckFrame) (room : ℕ)
    → IsEncodable f
    → whole_size f ≤ room
    → encode_base f room
      ≡ some (stage (record { room = room; bytes = [] }) (varints_bytes (base_fields f)))
unfolding encode_base put_varints whole_size
encode_base-bytes f room h fits =
    let enough : ltb room (class_encode_size f) ≡ false =
      (let e = class_encode_size-eq f in ground arith) in
    rw enough (
      rw put_ranges_step (
        rw (put_varints_step, put_varints_step, put_varints_step, put_varints_step)
          (put_varints_lem (base_fields f) (record { room = room; bytes = [] })
            (base-AreVarints f h) (omega arith))))

encode_base-none : (f : AckFrame) (room : ℕ) → room < whole_size f → encode_base f room ≡ none
unfolding encode_base
encode_base-none f room h = ground (arith, class_encode_size-eq f)

put_last :
    (m : Option BufferEncodeWrapper) (v : ℕ) → (m >>= put_varint v) ≡ (m >>= put_varints (v ∷ []))
unfolding put_varints
put_last none v = refl
put_last (some w) v = elim (Option-cases (put_varint v w)) [
  | inl e ↦ rw e refl
  | inr (w1, e) ↦ rw e refl
]

-- The counters behind the frame.
put_counters :
    (a b c : ℕ) (w : BufferEncodeWrapper)
    → AreVarints (a ∷ b ∷ c ∷ [])
    → (if ltb w.room (varint_length a + varint_length b + varint_length c)
        then none
        else (put_varint a w >>= put_varint b >>= put_varint c))
      ≡ (if leb (varints_length (a ∷ b ∷ c ∷ [])) w.room
          then some (stage w (varints_bytes (a ∷ b ∷ c ∷ [])))
          else none)
unfolding varints_length put_varints
put_counters a b c w h =
    elim (Bool-cases (ltb w.room (varint_length a + varint_length b + varint_length c))) [
      | inl e ↦ ground arith
      | inr e ↦
          let fits : some (stage w (varints_bytes (a ∷ b ∷ c ∷ []))) ≡ (
              if leb (varints_length (a ∷ b ∷ c ∷ [])) w.room
              then some (stage w (varints_bytes (a ∷ b ∷ c ∷ [])))
              else none) =
            ground arith in
          let all = put_varints_lem (a ∷ b ∷ c ∷ []) w h (ground arith) in
          rw e (rw put_last (rw put_varints_step (all ∙ fits)))
    ]

stage_nothing :
    (w : BufferEncodeWrapper)
    → some w ≡ (if leb (varints_length []) w.room then some (stage w (varints_bytes [])) else none)
unfolding varints_length varints_bytes
stage_nothing w = ground (arith, append-nil w.bytes)

put_ecn_lem :
    (o : Option (ℕ × ℕ × ℕ)) (w : BufferEncodeWrapper)
    → AreVarints (ecn_fields o)
    → put_ecn o w ≡ (
        if leb (varints_length (ecn_fields o)) w.room
        then some (stage w (varints_bytes (ecn_fields o)))
        else none)
unfolding put_ecn
put_ecn_lem none w h = stage_nothing w
put_ecn_lem (some (a, b, c)) w h = put_counters a b c w h

-- Two parts that fit one after the other.
two_parts :
    (room n m : ℕ) (bs cs : List ℕ)
    → length bs ≡ n
    → length cs ≡ m
    → n ≤ room
    → (if leb m (room - length bs)
        then some (stage (stage (record { room = room; bytes = [] }) bs) cs)
        else none)
      ≡ (if leb (n + m) room
          then some (record { room = room - length (bs ++ cs); bytes = bs ++ cs })
          else none)
two_parts room n m bs cs e g h = ground (arith, length-append bs cs)

-- `Encode` into `room` bytes, on a frame whose fields are in range: when there is room for all of
-- it, the bytes of the fields are staged, and there is no result otherwise.
pub encode-eq :
    (f : AckFrame) (room : ℕ)
    → IsEncodable f
    → encode f room ≡ (
        if leb (whole_size f) room
        then some (record { room = room - length (whole_bytes f); bytes = whole_bytes f })
        else none)
unfolding encode whole_size whole_bytes
encode-eq f room h =
    let n = length-varints_bytes (base_fields f) in
    elim (Bool-cases
      (leb (varints_length (base_fields f) + varints_length (ecn_fields f.ecn)) room)) [
        | inl l ↦ rw (encode_base-bytes f room h (ground arith)) (
            rw (put_ecn_lem f.ecn _ h.counters) (
              two_parts room _ _ (varints_bytes (base_fields f)) (varints_bytes (ecn_fields f.ecn))
                n (length-varints_bytes (ecn_fields f.ecn)) (ground arith)))
        | inr l ↦ rw (encode_base-none f room (ground arith)) (ground arith)
      ]
