-- ===== src/Codec/Wrapper.antt =====
-- `BufferEncodeWrapper` and `BufferDecodeWrapper` of src/common/buffer/ over one contiguous range:
-- the bytes staged so far with the room that is left, and the bytes that are still to be read.
-- A failed step is `none`; nothing of it is staged or consumed.
pub mod Frames
use quic_x.Common.{
  ℕ, ◌-◌, Option, none, some, List, [], ◌∷◌, ◌++◌, leb, if◌then◌else◌, length, ◌>>=◌,
}
use quic_x.Codec.Varint.{encode_varint}
use quic_x.Codec.Fixed.{encode_bytes}

pub record BufferEncodeWrapper : Type 0 where
  pub room : ℕ
  pub bytes : List ℕ

-- The step of every `Encode…` method: what the encoder wrote is staged.
abbrev pub stage : BufferEncodeWrapper → List ℕ → BufferEncodeWrapper
stage w bs = record { room = w.room - length bs; bytes = w.bytes ++ bs }

unfoldable pub put_varint : ℕ → BufferEncodeWrapper → Option BufferEncodeWrapper
put_varint value w =
    if leb w.room 0 then none else (encode_varint w.room value >>= λ bs. some (stage w bs))

unfoldable pub put_bytes : List ℕ → BufferEncodeWrapper → Option BufferEncodeWrapper
put_bytes bytes w = encode_bytes w.room bytes >>= λ bs. some (stage w bs)

-- Several varints, one after the other, as the frames write their fields.
unfoldable pub put_varints : List ℕ → BufferEncodeWrapper → Option BufferEncodeWrapper
put_varints [] w = some w
put_varints (v ∷ vs) w = put_varint v w >>= put_varints vs
