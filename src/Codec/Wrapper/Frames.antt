-- ===== src/Codec/Wrapper/Frames.antt =====
-- A sequence of varints through the wrappers.
use mathlib.Core.List.{append-nil, append_assoc}
use quic_x.Common.{
  ℕ, zero, suc, ◌+◌, ◌^◌, ◌≤◌, ◌<◌, ◌≡◌, refl, ◌∙◌, Option, none, some, List, [], ◌∷◌, ◌++◌, arith,
  leb, if◌then◌else◌, length, length-append, All, ◌>>=◌,
}
use quic_x.Codec.Varint.{varint_length, decode_varint}
use quic_x.Codec.Varint.RoundTrip.{
  varint_bytes, varint_length-pos, encode_varint-eq, length-varint_bytes,
}
use quic_x.Codec.Fixed.{encode_bytes}
use quic_x.Codec.Wrapper.{stage, put_varint, put_bytes, put_varints, BufferEncodeWrapper}

-- The bytes of some varints, and how many they are.
unfoldable pub varints_bytes : List ℕ → List ℕ
varints_bytes [] = []
varints_bytes (v ∷ vs) = varint_bytes v ++ varints_bytes vs

unfoldable pub varints_length : List ℕ → ℕ
varints_length [] = 0
varints_length (v ∷ vs) = varint_length v + varints_length vs

abbrev pub AreVarints : List ℕ → Type 0
AreVarints = All (λ v. v < 2 ^ 62)

pub put_varint_lem :
    (v : ℕ) (w : BufferEncodeWrapper)
    → v < 2 ^ 62
    → varint_length v ≤ w.room
    → put_varint v w ≡ some (stage w (varint_bytes v))
unfolding put_varint
put_varint_lem v w h fits = ground (arith, encode_varint-eq w.room v, varint_length-pos v)

-- Where there is room for all of them, they are staged one behind the other.
pub put_varints_lem :
    (vs : List ℕ) (w : BufferEncodeWrapper)
    → AreVarints vs
    → varints_length vs ≤ w.room
    → put_varints vs w ≡ some (stage w (varints_bytes vs))
unfolding put_varints varints_bytes varints_length
put_varints_lem [] w h fits = ground (arith, append-nil w.bytes)
put_varints_lem (v ∷ vs) w (h, hs) fits = rw (put_varint_lem v w h (omega arith)) (
    put_varints_lem vs (stage w (varint_bytes v)) hs (omega (arith, length-varint_bytes v))
    ∙ staged)
  where
    staged :
        some (stage (stage w (varint_bytes v)) (varints_bytes vs))
        ≡ some (stage w (varint_bytes v ++ varints_bytes vs))
    staged = ground (
      arith,
      length-append (varint_bytes v) (varints_bytes vs),
      append_assoc w.bytes (varint_bytes v) (varints_bytes vs),
    )

pub length-varints_bytes : (vs : List ℕ) → length (varints_bytes vs) ≡ varints_length vs
unfolding varints_bytes varints_length
length-varints_bytes [] = refl
length-varints_bytes (v ∷ vs) = ground (
  arith,
  length-append (varint_bytes v) (varints_bytes vs),
  length-varint_bytes v,
  length-varints_bytes vs,
)

-- The reader's counterpart.
pub get_varints : ℕ → List ℕ → Option (List ℕ × List ℕ)
get_varints zero bs = some ([], bs)
get_varints (suc n) bs =
    decode_varint bs >>= λ (v, rest). get_varints n rest >>= λ (vs, more). some (v ∷ vs, more)

-- A byte string is staged when there is room for it.
pub put_bytes_lem :
    (bytes : List ℕ) (w : BufferEncodeWrapper)
    → put_bytes bytes w ≡ (if leb (length bytes) w.room then some (stage w bytes) else none)
unfolding put_bytes encode_bytes
put_bytes_lem bytes w = ground arith
