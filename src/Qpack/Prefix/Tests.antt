-- ===== src/Qpack/Prefix/Tests.antt =====
-- Values of RFC 9204's examples, and instances.
use quic_x.Qpack.Prefix.{
  encode_rest, encode_prefixed, decode_rest, decode_prefixed, encode_string, decode_string, plain,
}
use quic_x.Common.{
  ℕ, ◌+◌, ◌*◌, ◌^◌, ◌≤◌, min, ◌≡◌, refl, false, none, some, List, [], ◌∷◌, ◌++◌, arith, length,
}
use quic_x.Qpack.Prefix.Strings.{decode_string-encode_string}
use quic_x.Qpack.Prefix.RoundTrip.{decode_prefixed-encode_prefixed}

-- 1337 with a prefix of five bits.
prefix_five : encode_prefixed 20 5 0 1337 ≡ some (31 ∷ 154 ∷ 10 ∷ [])
unfolding encode_prefixed encode_rest
prefix_five = refl

endless : decode_prefixed 5 (31 ∷ 154 ∷ []) ≡ none
unfolding decode_prefixed decode_rest
endless = refl

decode_prefixed-encode_prefixed_example :
    (bs : List ℕ) × (encode_prefixed 20 5 (7 * 2 ^ 5) 1337 ≡ some bs)
    × (length bs ≤ 11)
    × (decode_prefixed 5 (bs ++ 9 ∷ []) ≡ some (7 * 2 ^ 5 + min 1337 31, 1337, 9 ∷ []))
decode_prefixed-encode_prefixed_example =
    decode_prefixed-encode_prefixed 20 5 7 1337 (9 ∷ []) (omega arith) (omega arith) (omega arith)
      (omega arith)

decode_string-encode_string_example :
    (bs : List ℕ) × (encode_string 20 (1 ∷ 2 ∷ []) false ≡ some bs)
    × (decode_string (bs ++ 9 ∷ []) ≡ some (plain (1 ∷ 2 ∷ []), 9 ∷ []))
decode_string-encode_string_example =
    decode_string-encode_string 20 (1 ∷ 2 ∷ []) (9 ∷ []) (omega arith) (omega arith)
