-- ===== src/Codec/Control/RoundTrip.antt =====
-- Control frames are read back as they were written.
use mathlib.Core.List.{append_assoc}
use quic_x.Common.{
  ℕ, ◌-◌, ◌%◌, ◌^◌, ◌<◌, ◌≡◌, refl, sym, ◌∙◌, inl, inr, true, false, none, some, List, [], ◌∷◌,
  ◌++◌, arith, ltb, leb, if◌then◌else◌, Bool-cases, length,
}
use quic_x.Codec.Varint.RoundTrip.{varint_bytes, decode_varint-bytes}
use quic_x.Codec.Wrapper.Frames.{
  varints_bytes, varints_length, AreVarints, put_varints_lem, length-varints_bytes,
}
use quic_x.Codec.Wrapper.{put_varints, BufferEncodeWrapper}
use quic_x.Codec.Control.{
  control_type, control_fields, sizes, control_size, encode_control, one_field, two_fields,
  three_fields, decode_fields, decode_control, ControlFrame, ping, handshake_done, reset_stream,
  stop_sending, max_data, max_stream_data, max_streams, data_blocked, stream_data_blocked,
  streams_blocked, retire_connection_id,
}

-- Every field is in the range of a varint, and of its type.
abbrev pub IsStorable : ControlFrame → Type 0
IsStorable (streams_blocked uni maximum_streams) = maximum_streams < 2 ^ 32
IsStorable f = AreVarints (control_fields f)

pub control_bytes : ControlFrame → List ℕ
control_bytes f = varints_bytes (control_type f ∷ control_fields f)

one_field-bytes :
    (make : ℕ → ControlFrame) (a : ℕ) (rest : List ℕ)
    → a < 2 ^ 62
    → one_field make (varint_bytes a ++ rest) ≡ some (make a, rest)
unfolding one_field
one_field-bytes make a rest h = rw (decode_varint-bytes a rest h) refl

two_fields-bytes :
    (make : ℕ → ℕ → ControlFrame) (a b : ℕ) (rest : List ℕ)
    → a < 2 ^ 62
    → b < 2 ^ 62
    → two_fields make (varint_bytes a ++ (varint_bytes b ++ rest)) ≡ some (make a b, rest)
unfolding two_fields
two_fields-bytes make a b rest h g =
    rw (decode_varint-bytes a _ h) (rw (decode_varint-bytes b rest g) refl)

three_fields-bytes :
    (make : ℕ → ℕ → ℕ → ControlFrame) (a b c : ℕ) (rest : List ℕ)
    → a < 2 ^ 62
    → b < 2 ^ 62
    → c < 2 ^ 62
    → three_fields make (varint_bytes a ++ (varint_bytes b ++ (varint_bytes c ++ rest)))
      ≡ some (make a b c, rest)
unfolding three_fields
three_fields-bytes make a b c rest h g k =
    rw (decode_varint-bytes a _ h)
      (rw (decode_varint-bytes b _ g) (rw (decode_varint-bytes c rest k) refl))

fields-bytes :
    (f : ControlFrame) (rest : List ℕ)
    → IsStorable f
    → decode_fields (control_type f) (varints_bytes (control_fields f) ++ rest) ≡ some (f, rest)
unfolding decode_fields control_type control_fields varints_bytes
fields-bytes ping rest h = refl
fields-bytes handshake_done rest h = refl
fields-bytes (reset_stream a b c) rest (h, (g, (k, t))) =
    rw (append_assoc, append_assoc, append_assoc) (three_fields-bytes reset_stream a b c rest h g k)
fields-bytes (stop_sending a b) rest (h, (g, t)) =
    rw (append_assoc, append_assoc) (two_fields-bytes stop_sending a b rest h g)
fields-bytes (max_data a) rest (h, t) = rw append_assoc (one_field-bytes max_data a rest h)
fields-bytes (max_stream_data a b) rest (h, (g, t)) =
    rw (append_assoc, append_assoc) (two_fields-bytes max_stream_data a b rest h g)
fields-bytes (max_streams false a) rest (h, t) =
    rw append_assoc (one_field-bytes (max_streams false) a rest h)
fields-bytes (max_streams true a) rest (h, t) =
    rw append_assoc (one_field-bytes (max_streams true) a rest h)
fields-bytes (data_blocked a) rest (h, t) = rw append_assoc (one_field-bytes data_blocked a rest h)
fields-bytes (stream_data_blocked a b) rest (h, (g, t)) =
    rw (append_assoc, append_assoc) (two_fields-bytes stream_data_blocked a b rest h g)
fields-bytes (streams_blocked false a) rest h =
    let cut : a % 2 ^ 32 ≡ a = omega arith in
    rw append_assoc (
      rw (one_field-bytes (λ v. streams_blocked false (v % 2 ^ 32)) a rest (omega arith))
        (rw cut refl))
fields-bytes (streams_blocked true a) rest h =
    let cut : a % 2 ^ 32 ≡ a = omega arith in
    rw append_assoc (
      rw (one_field-bytes (λ v. streams_blocked true (v % 2 ^ 32)) a rest (omega arith))
        (rw cut refl))
fields-bytes (retire_connection_id a) rest (h, t) =
    rw append_assoc (one_field-bytes retire_connection_id a rest h)

control_type-small : (f : ControlFrame) → control_type f < 2 ^ 16
unfolding control_type
control_type-small (max_streams false a) = omega arith
control_type-small (max_streams true a) = omega arith
control_type-small (streams_blocked false a) = omega arith
control_type-small (streams_blocked true a) = omega arith
control_type-small ping = omega arith
control_type-small handshake_done = omega arith
control_type-small (reset_stream a b c) = omega arith
control_type-small (stop_sending a b) = omega arith
control_type-small (max_data a) = omega arith
control_type-small (max_stream_data a b) = omega arith
control_type-small (data_blocked a) = omega arith
control_type-small (stream_data_blocked a b) = omega arith
control_type-small (retire_connection_id a) = omega arith

decode_control-control_bytes :
    (f : ControlFrame) (rest : List ℕ)
    → IsStorable f
    → decode_control (control_bytes f ++ rest) ≡ some (f, rest)
unfolding decode_control control_bytes varints_bytes
decode_control-control_bytes f rest h =
    let s = control_type-small f in
    let cut : control_type f % 2 ^ 16 ≡ control_type f = omega arith in
    rw append_assoc
      (rw (decode_varint-bytes (control_type f) _ (omega arith)) (rw cut (fields-bytes f rest h)))

sizes-varints_length : (vs : List ℕ) → sizes vs ≡ varints_length vs
unfolding sizes varints_length
sizes-varints_length [] = refl
sizes-varints_length (v ∷ vs) = ground (arith, sizes-varints_length vs)

storable-AreVarints : (f : ControlFrame) → IsStorable f → AreVarints (control_fields f)
unfolding control_fields
storable-AreVarints (streams_blocked uni a) h = (omega arith, tt)
storable-AreVarints ping h = h
storable-AreVarints handshake_done h = h
storable-AreVarints (reset_stream a b c) h = h
storable-AreVarints (stop_sending a b) h = h
storable-AreVarints (max_data a) h = h
storable-AreVarints (max_stream_data a b) h = h
storable-AreVarints (max_streams uni a) h = h
storable-AreVarints (data_blocked a) h = h
storable-AreVarints (stream_data_blocked a b) h = h
storable-AreVarints (retire_connection_id a) h = h

staged :
    (room size : ℕ) (vs : List ℕ)
    → AreVarints vs
    → size ≡ varints_length vs
    → length (varints_bytes vs) ≡ varints_length vs
    → (if ltb room size then none else put_varints vs (record { room = room; bytes = [] })) ≡ (
        if leb size room
        then some (record { room = room - size; bytes = varints_bytes vs })
        else none)
staged room size vs h e l = elim (Bool-cases (ltb room size)) [
  | inl y ↦ ground arith
  | inr n ↦
      rw n (
        rw (put_varints_lem vs (record { room = room; bytes = [] }) h (ground arith))
          (ground arith))
]

-- `Encode` of a control frame whose fields are in range, into `room` bytes: when its size fits, its
-- bytes are staged, and they are as many as `EncodeSize` says; otherwise there is no result.
pub encode_control-control_bytes :
    (f : ControlFrame) (room : ℕ)
    → IsStorable f
    → (encode_control f room ≡ (
        if leb (control_size f) room
        then some (record { room = room - control_size f; bytes = control_bytes f })
        else none))
      × (length (control_bytes f) ≡ control_size f)
unfolding encode_control control_size control_bytes
encode_control-control_bytes f room h =
    let vs = control_type f ∷ control_fields f in
    let s = control_type-small f in
    let small : AreVarints vs = (omega arith, storable-AreVarints f h) in
    let size = sizes-varints_length vs in
    let long = length-varints_bytes vs in
    (staged room (sizes vs) vs small size long, long ∙ sym size)

control_written :
    (f : ControlFrame) (room : ℕ) (w : BufferEncodeWrapper)
    → IsStorable f
    → encode_control f room ≡ some w
    → w.bytes ≡ control_bytes f
control_written f room w h e =
    let g = (encode_control-control_bytes f room h).0 in
    elim (Bool-cases (leb (control_size f) room)) [ inl y ↦ ground arith | inr n ↦ ground arith ]

-- What `Encode` has written of a control frame whose fields are in range, into whatever room, is read
-- back as that frame, whatever follows, and what follows is left.
pub decode_control-encode_control :
    (f : ControlFrame) (room : ℕ) (w : BufferEncodeWrapper) (rest : List ℕ)
    → IsStorable f
    → encode_control f room ≡ some w
    → decode_control (w.bytes ++ rest) ≡ some (f, rest)
decode_control-encode_control f room w rest h e =
    rw (control_written f room w h e) (decode_control-control_bytes f rest h)
