-- ===== src/Qpack/Prefix/Strings.antt =====
-- A string literal is read back.
use quic_x.Qpack.Prefix.{encode_prefixed, decode_prefixed, encode_string, decode_string, plain}
use quic_x.Common.{
  ℕ, ◌+◌, ◌*◌, ◌^◌, ◌≤◌, ◌<◌, min, bit_and, ◌≡◌, refl, ap, ◌∙◌, false, some, List, [], ◌∷◌, ◌++◌,
  arith, ltb, ◌==◌, ◌!=◌, length, length-append, take_append, drop_append,
}
use quic_x.Qpack.Prefix.RoundTrip.{byte_lem, decode_prefixed-encode_prefixed}
use mathlib.Core.List.{append_assoc}

plain_bit : (k : ℕ) → k < 128 → (bit_and (0 * 2 ^ 7 + k) 0x80 != 0) ≡ false
plain_bit k h = rw (byte_lem (0 * 2 ^ 7 + k) (omega arith)).1 (ground arith)

string_bytes :
    (bs s rest : List ℕ) (first : ℕ)
    → decode_prefixed 7 bs ≡ some (first, length s, s ++ rest)
    → (bit_and first 0x80 != 0) ≡ false
    → decode_string bs ≡ some (plain s, rest)
unfolding decode_string
string_bytes bs [] rest first e f = rw e refl
string_bytes bs (x ∷ s) rest first e f =
    let n = length-append (x ∷ s) rest in
    let t = take_append (x ∷ s) rest in
    let d = drop_append (x ∷ s) rest in
    let room : ltb (length (x ∷ s ++ rest)) (length (x ∷ s)) ≡ false = ground (arith, n) in
    let some_left : (length (x ∷ s) == 0) ≡ false = ground arith in
    rw (e, f, some_left, room, t, d) refl

string_room :
    (room : ℕ) (s prefix : List ℕ)
    → length prefix + length s ≤ room
    → encode_prefixed room 7 0 (length s) ≡ some prefix
    → encode_string room s false ≡ some (prefix ++ s)
unfolding encode_string
string_room room s prefix h e =
    let n : ltb room (length prefix + length s) ≡ false = ground arith in rw (e, n) refl

-- A string literal below 2^31 bytes that is written without the Huffman flag, into room for 11 bytes
-- more, is read back as it was, with what follows it left.
pub decode_string-encode_string :
    (room : ℕ) (s rest : List ℕ)
    → length s + 11 ≤ room
    → length s < 2 ^ 31
    → (bs : List ℕ) × (encode_string room s false ≡ some bs)
      × (decode_string (bs ++ rest) ≡ some (plain s, rest))
decode_string-encode_string room s rest r l =
    let (prefix, e, n, d) =
      decode_prefixed-encode_prefixed room 7 0 (length s) (s ++ rest) (omega arith) (omega arith)
        (omega arith) (omega arith) in
    (
      prefix ++ s,
      string_room room s prefix (omega arith) e,
      string_bytes (prefix ++ s ++ rest) s rest (0 * 2 ^ 7 + min (length s) 127)
          (ap (λ (k : List ℕ). decode_prefixed 7 k) (append_assoc prefix s rest) ∙ d)
          (plain_bit (min (length s) 127) (omega arith)),
    )
