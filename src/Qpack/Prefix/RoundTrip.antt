-- ===== src/Qpack/Prefix/RoundTrip.antt =====
-- What is encoded is decoded.
use quic_x.Common.{
  ℕ, zero, suc, ◌+◌, ◌-◌, ◌*◌, ◌/◌, ◌%◌, ◌^◌, ◌≤◌, ◌<◌, min, bit_and, bit_or, ◌≡◌, refl, ap, ◌∙◌,
  inl, inr, true, false, some, List, [], ◌∷◌, ◌++◌, arith, leb, ◌!=◌, if◌then◌else◌, leb→le,
  Bool-cases, Option-cases, length, IsU64, add64, mul64, bit_or_disjoint, and_fields, bit_and_mask,
  bit_and_clear,
}
use quic_x.Qpack.Prefix.{max_in_prefix, encode_rest, encode_prefixed, decode_rest, decode_prefixed}
use native.Mathlib.Nat.{pow-suc, one-le-pow}
use native.Mathlib.Numerals.{towards_suc}

-- The continuation bytes of a value that fits.
encode_rest-some :
    (fuel room value : ℕ)
    → value < 128 ^ suc fuel
    → suc fuel ≤ room
    → (bs : List ℕ) × (encode_rest (suc fuel) room value ≡ some bs) × (length bs ≤ suc fuel)
unfolding encode_rest
encode_rest-some zero room value h r = (value % 2 ^ 8 ∷ [], ground arith, omega arith)
encode_rest-some (suc fuel) room value h r = elim (Bool-cases (leb 128 value)) [
  | inl y ↦
      let p = pow-suc 128 (suc fuel) in
      let (bs, e, n) = encode_rest-some fuel (room - 1) (value / 128) (omega arith) (omega arith) in
      ((value % 128 + 128) ∷ bs, ground (arith, e), omega arith)
  | inr n ↦ (value % 2 ^ 8 ∷ [], ground arith, omega arith)
]

pub byte_lem : (b : ℕ) → b < 256 → (bit_and b 0x7f ≡ b % 128) × (bit_and b 0x80 ≡ b / 128 * 128)
byte_lem b h = (bit_and_mask 7 b, bit_and_clear 1 7 b (omega arith))

pow_seven : (m : ℕ) → 2 ^ (m + 7) ≡ 128 * 2 ^ m
pow_seven m = simp towards_suc (omega arith)

-- The two parts of a value at a shift.
parts : (value m : ℕ) → value * 2 ^ m ≡ value % 128 * 2 ^ m + value / 128 * 2 ^ (m + 7)
parts value m =
    let p = pow_seven m in
    let e : value ≡ value % 128 + value / 128 * 128 = omega arith in
    let f = ap (λ (t : ℕ). t * 2 ^ m) e in
    let g = ap (λ (t : ℕ). value / 128 * t) p in grind (arith, f, g)

decode_step :
    (m sum b : ℕ) (bs : List ℕ)
    → b < 256
    → sum + b % 128 * 2 ^ m < 2 ^ 64
    → decode_rest m sum (b ∷ bs) ≡ (
        if leb 128 b
        then decode_rest (m + 7) (sum + b % 128 * 2 ^ m) bs
        else some (sum + b % 128 * 2 ^ m, bs))
unfolding decode_rest
decode_step m sum b bs h l =
    let (low, high) = byte_lem b h in
    let e : add64 sum (mul64 (bit_and b 0x7f) (2 ^ m)) ≡ sum + b % 128 * 2 ^ m =
      rw low (omega arith) in
    rw e (elim (Bool-cases (leb 128 b)) [
      | inl y ↦ let k : (bit_and b 0x80 != 0) ≡ true = rw high (ground arith) in rw (y, k) refl
      | inr n ↦ let k : (bit_and b 0x80 != 0) ≡ false = rw high (ground arith) in rw (n, k) refl
    ])

encode_rest-more :
    (fuel room value : ℕ) (bs : List ℕ)
    → leb 128 value ≡ true
    → encode_rest (suc fuel) room value ≡ some bs
    → (cs : List ℕ) × (encode_rest fuel (room - 1) (value / 128) ≡ some cs)
      × (bs ≡ (value % 128 + 128) ∷ cs)
unfolding encode_rest
encode_rest-more fuel room value bs y e =
    elim (Option-cases (encode_rest fuel (room - 1) (value / 128))) [
      | inl f ↦ absurd (ground (arith, f))
      | inr (cs, f) ↦ (cs, f, ground (arith, f))
    ]

encode_rest-last :
    (fuel room value : ℕ) (bs : List ℕ)
    → leb 128 value ≡ false
    → encode_rest (suc fuel) room value ≡ some bs
    → bs ≡ value % 2 ^ 8 ∷ []
unfolding encode_rest
encode_rest-last fuel room value bs n e = ground arith

-- They are read back at any shift at which the value stays a word.
encode_rest-decode :
    (fuel room value m sum : ℕ) (bs rest : List ℕ)
    → encode_rest fuel room value ≡ some bs
    → sum + value * 2 ^ m < 2 ^ 64
    → decode_rest m sum (bs ++ rest) ≡ some (sum + value * 2 ^ m, rest)
encode_rest-decode zero room value m sum bs rest e h = unfold encode_rest in cc
encode_rest-decode (suc fuel) room value m sum bs rest e h = elim (Bool-cases (leb 128 value)) [
  | inl y ↦
      let (cs, f, g) = encode_rest-more fuel room value bs y e in
      let p = parts value m in
      let b = value % 128 + 128 in
      let low : b % 128 ≡ value % 128 = omega arith in
      let byte : leb 128 b ≡ true = ground arith in
      let step = decode_step m sum b (cs ++ rest) (omega arith) (rw low (omega arith)) in
      let ih =
        encode_rest-decode fuel (room - 1) (value / 128) (m + 7) (sum + value % 128 * 2 ^ m) cs rest
          f (omega arith) in
      let sum_eq : sum + value % 128 * 2 ^ m + value / 128 * 2 ^ (m + 7) ≡ sum + value * 2 ^ m =
        omega arith in
      let taken : (if leb 128 b
            then decode_rest (m + 7) (sum + b % 128 * 2 ^ m) (cs ++ rest)
            else some (sum + b % 128 * 2 ^ m, cs ++ rest))
          ≡ decode_rest (m + 7) (sum + value % 128 * 2 ^ m) (cs ++ rest) =
        rw (byte, low) refl in
      ap (λ l. decode_rest m sum (l ++ rest)) g
      ∙ step
      ∙ taken
      ∙ ih
      ∙ ap (λ (k : ℕ). some (k, rest)) sum_eq
  | inr n ↦
      let g = encode_rest-last fuel room value bs n e in
      let small : value < 128 = ground arith in
      let b = value % 2 ^ 8 in
      let low : b % 128 ≡ value = omega arith in
      let byte : leb 128 b ≡ false = ground arith in
      let step = decode_step m sum b rest (omega arith) (rw low h) in
      let taken : (if leb 128 b
            then decode_rest (m + 7) (sum + b % 128 * 2 ^ m) rest
            else some (sum + b % 128 * 2 ^ m, rest))
          ≡ some (sum + value * 2 ^ m, rest) =
        rw (byte, low) refl in
      ap (λ l. decode_rest m sum (l ++ rest)) g ∙ step ∙ taken
]

-- The first byte: the mask leaves the bits of the prefix free.
first_lem :
    (prefix_bits q k : ℕ)
    → k < 2 ^ prefix_bits
    → (bit_or (q * 2 ^ prefix_bits) k ≡ q * 2 ^ prefix_bits + k)
      × (bit_and (q * 2 ^ prefix_bits + k) (max_in_prefix prefix_bits) ≡ k)
first_lem prefix_bits q k h = (bit_or_disjoint prefix_bits q k h, and_fields prefix_bits q k h)

module _ (prefix_bits : ℕ) (one : 1 ≤ prefix_bits) (eight : prefix_bits ≤ 8) where
  encode_short :
      (room mask value : ℕ)
      → 1 ≤ room
      → value < max_in_prefix prefix_bits
      → encode_prefixed room prefix_bits mask value ≡ some (bit_or mask value ∷ [])
  unfolding encode_prefixed
  encode_short room mask value r h = ground arith

  encode_long :
      (room mask value : ℕ) (bs : List ℕ)
      → 1 ≤ room
      → max_in_prefix prefix_bits ≤ value
      → encode_rest 10 (room - 1) (value - max_in_prefix prefix_bits) ≡ some bs
      → encode_prefixed room prefix_bits mask value
        ≡ some (bit_or mask (max_in_prefix prefix_bits) ∷ bs)
  unfolding encode_prefixed
  encode_long room mask value bs r h e = ground arith

  decode_short :
      (first value : ℕ) (bs : List ℕ)
      → bit_and first (max_in_prefix prefix_bits) ≡ value
      → value < max_in_prefix prefix_bits
      → decode_prefixed prefix_bits (first ∷ bs) ≡ some (first, value, bs)
  unfolding decode_prefixed
  decode_short first value bs e h = rw e (ground arith)

  decode_long :
      (first value : ℕ) (bs rest : List ℕ)
      → bit_and first (max_in_prefix prefix_bits) ≡ max_in_prefix prefix_bits
      → decode_rest 0 (max_in_prefix prefix_bits) bs ≡ some (value, rest)
      → decode_prefixed prefix_bits (first ∷ bs) ≡ some (first, value, rest)
  unfolding decode_prefixed
  decode_long first value bs rest e f = rw e (ground arith)

-- Every 64-bit value is written within eleven bytes, with any prefix of one to eight bits and any
-- flags above it, and it is read back, with the flags and with what follows.
pub decode_prefixed-encode_prefixed :
    (room prefix_bits q value : ℕ) (rest : List ℕ)
    → 11 ≤ room
    → 1 ≤ prefix_bits
    → prefix_bits ≤ 8
    → IsU64 value
    → (bs : List ℕ) × (encode_prefixed room prefix_bits (q * 2 ^ prefix_bits) value ≡ some bs)
      × (length bs ≤ 11)
      × (decode_prefixed prefix_bits (bs ++ rest)
          ≡ some (q * 2 ^ prefix_bits + min value (max_in_prefix prefix_bits), value, rest))
decode_prefixed-encode_prefixed room prefix_bits q value rest r one eight h =
    let top = max_in_prefix prefix_bits in
    let pos = one-le-pow prefix_bits 2 in
    let mask = q * 2 ^ prefix_bits in
    elim (Bool-cases (leb top value)) [
      | inl y ↦
          let l : top ≤ value = leb→le top value y in
          let fits : value - top < 128 ^ 10 = omega arith in
          let (bs, e, n) = encode_rest-some 9 (room - 1) (value - top) fits (omega arith) in
          let (f, a) = first_lem prefix_bits q top (omega arith) in
          let sum : top + (value - top) * 2 ^ 0 ≡ value = omega arith in
          let d = encode_rest-decode 10 (room - 1) (value - top) 0 top bs rest e (rw sum h) in
          let low : min value top ≡ top = omega arith in
          (
            bit_or mask top ∷ bs,
            encode_long prefix_bits one eight room mask value bs (omega arith) l e,
            omega arith,
            rw (f, low)
                (decode_long prefix_bits one eight (mask + top) value (bs ++ rest) rest a
                  (d ∙ ap (λ (k : ℕ). some (k, rest)) sum)),
          )
      | inr n ↦
          let l : value < top = ground arith in
          let (f, a) = first_lem prefix_bits q value (omega arith) in
          let low : min value top ≡ value = omega arith in
          (
            bit_or mask value ∷ [],
            encode_short prefix_bits one eight room mask value (omega arith) l,
            omega arith,
            rw (f, low) (decode_short prefix_bits one eight (mask + value) value rest a l),
          )
    ]
