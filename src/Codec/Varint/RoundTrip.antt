-- ===== src/Codec/Varint/RoundTrip.antt =====
-- What the variable-length integer codec writes and reads.
use quic_x.Common.{
  ℕ, zero, suc, ◌+◌, ◌*◌, ◌/◌, ◌%◌, ◌^◌, ◌≤◌, ◌<◌, bit_and, ◌≡◌, refl, ◌∙◌, ◌&&◌, none, some, List,
  [], ◌∷◌, ◌++◌, arith, ltb, leb, if◌then◌else◌, length, All, IsU8, bit_or_disjoint_low,
  bit_or-zero, bit_and_mask,
}
use quic_x.Codec.Varint.{
  int_set, varint_length, encode_body, encode_varint, shift_in, decode_loop, decode_varint,
  decode_varint32,
}

-- The byte in plain arithmetic.
int_set-zero : (value len : ℕ) → int_set value len 0 ≡ value / 2 ^ (len * 8) % 256
unfolding int_set
int_set-zero value len = omega (
  arith,
  bit_and_mask 8 (value / 2 ^ (len * 8)),
  bit_or-zero (bit_and (value / 2 ^ (len * 8)) 0xff),
)

int_set_top :
    (value len bits : ℕ)
    → bits < 4
    → value / 2 ^ (len * 8) < 64
    → int_set value len bits ≡ value / 2 ^ (len * 8) + bits * 64
unfolding int_set
int_set_top value len bits hb h = omega (
  arith,
  bit_and_mask 8 (value / 2 ^ (len * 8)),
  bit_or_disjoint_low 6 bits (bit_and (value / 2 ^ (len * 8)) 0xff),
)

-- The encoding in plain arithmetic: big-endian, with the length in the top two bits.
pub varint_bytes : ℕ → List ℕ
varint_bytes v =
    if ltb v (2 ^ 6)
    then v ∷ []
    else if ltb v (2 ^ 14)
    then (v / 256 + 64) ∷ (v % 256) ∷ []
    else if ltb v (2 ^ 30)
    then (v / 2 ^ 24 + 128) ∷ (v / 2 ^ 16 % 256) ∷ (v / 256 % 256) ∷ (v % 256) ∷ []
    else (v / 2 ^ 56 + 192)
      ∷ (v / 2 ^ 48 % 256)
      ∷ (v / 2 ^ 40 % 256)
      ∷ (v / 2 ^ 32 % 256)
      ∷ (v / 2 ^ 24 % 256)
      ∷ (v / 2 ^ 16 % 256)
      ∷ (v / 256 % 256)
      ∷ (v % 256)
      ∷ []

encode_body-bytes :
    (room v : ℕ) → v < 2 ^ 62 → varint_length v ≤ room → encode_body room v ≡ some (varint_bytes v)
unfolding encode_body varint_bytes varint_length
encode_body-bytes room v h fits = ground (
  arith,
  int_set-zero v 0,
  int_set-zero v 1,
  int_set-zero v 2,
  int_set-zero v 3,
  int_set-zero v 4,
  int_set-zero v 5,
  int_set-zero v 6,
  int_set_top v 1 1,
  int_set_top v 3 2,
  int_set_top v 7 3,
)

pub varint_length-pos : (v : ℕ) → 1 ≤ varint_length v
unfolding varint_length
varint_length-pos v = ground arith

-- `EncodeVarint` writes these bytes when they fit the range and the value has at most 62 bits, and
-- returns a null pointer in every other case.
pub encode_varint-eq :
    (room v : ℕ)
    → encode_varint room v
      ≡ (if leb (varint_length v) room && ltb v (2 ^ 62) then some (varint_bytes v) else none)
unfolding encode_varint
encode_varint-eq room v = ground (arith, encode_body-bytes room v, varint_length-pos v)

pub length-varint_bytes : (v : ℕ) → length (varint_bytes v) ≡ varint_length v
unfolding varint_bytes varint_length
length-varint_bytes v = ground arith

pub varint_bytes-IsU8 : (v : ℕ) → v < 2 ^ 62 → All IsU8 (varint_bytes v)
unfolding varint_bytes
varint_bytes-IsU8 v h = ground arith

-- The early return changes nothing: at the end of the range the loop has nothing left to read.
decode_loop_step :
    (len value b : ℕ) (bs : List ℕ)
    → decode_loop (suc len) value (b ∷ bs) ≡ decode_loop len (shift_in value b) bs
unfolding decode_loop
decode_loop_step zero value b [] = refl
decode_loop_step (suc len) value b [] = refl
decode_loop_step zero value b (c ∷ bs) = refl
decode_loop_step (suc len) value b (c ∷ bs) = refl

-- A first byte that announces `len` further bytes, which are there.
decode_varint_start :
    (b k len : ℕ) (bs : List ℕ)
    → b / 64 ≡ k
    → 2 ^ k ≡ suc len
    → len ≤ length bs
    → decode_varint (b ∷ bs) ≡ some (decode_loop len (b % 64) bs)
unfolding decode_varint
decode_varint_start b k len bs hb hk h = rw (bit_and_mask 6 b, hb, hk) (ground arith)

decode_one : (x : ℕ) (rest : List ℕ) → x < 64 → decode_varint (x ∷ rest) ≡ some (x, rest)
unfolding decode_loop
decode_one x rest h = ground (arith, decode_varint_start x 0 0 rest)

decode_two :
    (x c : ℕ) (rest : List ℕ)
    → x < 64
    → c < 256
    → decode_varint ((x + 64) ∷ c ∷ rest) ≡ some (x * 256 + c, rest)
unfolding decode_loop shift_in
decode_two x c rest h hc =
    decode_varint_start (x + 64) 1 1 (c ∷ rest) (omega arith) (omega arith) (omega arith)
    ∙ rw decode_loop_step (ground arith)

decode_four :
    (x c d e : ℕ) (rest : List ℕ)
    → x < 64
    → All IsU8 (c ∷ d ∷ e ∷ [])
    → decode_varint ((x + 128) ∷ c ∷ d ∷ e ∷ rest)
      ≡ some (((x * 256 + c) * 256 + d) * 256 + e, rest)
unfolding decode_loop shift_in
decode_four x c d e rest h hs =
    decode_varint_start (x + 128) 2 3 (c ∷ d ∷ e ∷ rest) (omega arith) (omega arith) (omega arith)
    ∙ rw (decode_loop_step, decode_loop_step, decode_loop_step) (ground arith)

decode_eight :
    (x c d e f g i j : ℕ) (rest : List ℕ)
    → x < 64
    → All IsU8 (c ∷ d ∷ e ∷ f ∷ g ∷ i ∷ j ∷ [])
    → decode_varint ((x + 192) ∷ c ∷ d ∷ e ∷ f ∷ g ∷ i ∷ j ∷ rest)
      ≡ some (
        ((((((x * 256 + c) * 256 + d) * 256 + e) * 256 + f) * 256 + g) * 256 + i) * 256 + j,
        rest,
      )
unfolding decode_loop shift_in
decode_eight x c d e f g i j rest h hs =
    decode_varint_start (x + 192) 3 7 (c ∷ d ∷ e ∷ f ∷ g ∷ i ∷ j ∷ rest) (omega arith) (omega arith)
      (omega arith)
    ∙ rw
        (
          decode_loop_step, decode_loop_step, decode_loop_step, decode_loop_step, decode_loop_step,
          decode_loop_step, decode_loop_step,
        )
        (ground arith)

pub decode_varint-bytes :
    (v : ℕ) (rest : List ℕ) → v < 2 ^ 62 → decode_varint (varint_bytes v ++ rest) ≡ some (v, rest)
unfolding varint_bytes
decode_varint-bytes v rest h = ground (
  arith,
  decode_one v rest,
  decode_two (v / 256) (v % 256) rest,
  decode_four (v / 2 ^ 24) (v / 2 ^ 16 % 256) (v / 256 % 256) (v % 256) rest,
  decode_eight (v / 2 ^ 56) (v / 2 ^ 48 % 256) (v / 2 ^ 40 % 256) (v / 2 ^ 32 % 256)
      (v / 2 ^ 24 % 256) (v / 2 ^ 16 % 256) (v / 256 % 256) (v % 256) rest,
)

pub decode_varint32-bytes :
    (v : ℕ) (rest : List ℕ) → v < 2 ^ 32 → decode_varint32 (varint_bytes v ++ rest) ≡ some (v, rest)
unfolding decode_varint32
decode_varint32-bytes v rest h =
    let cut : v % 2 ^ 32 ≡ v = omega arith in
    rw (decode_varint-bytes v rest (omega arith), decode_varint32) (rw cut refl)

-- `DecodeVarint` reads back every value that `EncodeVarint` wrote, and leaves what follows it.
pub decode_varint-encode_varint :
    (room v : ℕ) (bs rest : List ℕ)
    → encode_varint room v ≡ some bs
    → decode_varint (bs ++ rest) ≡ some (v, rest)
decode_varint-encode_varint room v bs rest e =
    ground (arith, encode_varint-eq room v, decode_varint-bytes v rest)
