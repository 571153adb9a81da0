-- ===== src/Common/Bits.antt =====
-- `&` with a low mask and `|` of disjoint fields as arithmetic, at every width.
use Prim.Native.Nat.{
  ℕ, zero, suc, ◌+◌, ◌-◌, ◌*◌, ◌/◌, ◌%◌, ◌^◌, ◌≤◌, ◌<◌, min, max, bit_and, bit_or, digits,
  bit_and-bitwise, bit_or-bitwise,
}
use mathlib.Core.Path.{◌≡◌, refl, ap}
use native.Mathlib.Nat.{pow-suc, one-le-pow, mod-eq_of_lt}
use native.Mathlib.Omega.{arith}

-- The number of rounds that the digit recursion is given does not matter.
module _ (one : ℕ → ℕ) (op : ℕ → ℕ → ℕ) where
  digits_rounds : (n m a b : ℕ) → a ≤ n → a ≤ m → digits one op n a b ≡ digits one op m a b
  digits_rounds zero zero a b p q = refl
  digits_rounds zero (suc m) zero b p q = refl
  digits_rounds zero (suc m) (suc a) b p q = absurd (omega arith)
  digits_rounds (suc n) zero zero b p q = refl
  digits_rounds (suc n) zero (suc a) b p q = absurd (omega arith)
  digits_rounds (suc n) (suc m) zero b p q = refl
  digits_rounds (suc n) (suc m) (suc a) b p q =
      omega (arith, digits_rounds n m (suc a / 2) (b / 2) (omega arith) (omega arith))

and-low : (b : ℕ) → bit_and 0 b ≡ 0
and-low b = bit_and-bitwise 0 b

or-low : (b : ℕ) → bit_or 0 b ≡ b
or-low b = bit_or-bitwise 0 b

and-step : (a b : ℕ) → bit_and a b ≡ bit_and (a / 2) (b / 2) * 2 + min (a % 2) (b % 2)
and-step zero b = omega (arith, and-low b, and-low (b / 2))
and-step (suc a) b =
    let h =
      digits_rounds (λ b. zero) min a (suc a / 2) (suc a / 2) (b / 2) (omega arith) (omega arith) in
    omega (arith, bit_and-bitwise (suc a) b, bit_and-bitwise (suc a / 2) (b / 2), h)

or-step : (a b : ℕ) → bit_or a b ≡ bit_or (a / 2) (b / 2) * 2 + max (a % 2) (b % 2)
or-step zero b = omega (arith, or-low b, or-low (b / 2))
or-step (suc a) b =
    let h =
      digits_rounds (λ b. b) max a (suc a / 2) (suc a / 2) (b / 2) (omega arith) (omega arith) in
    omega (arith, bit_or-bitwise (suc a) b, bit_or-bitwise (suc a / 2) (b / 2), h)

and-none : (n a : ℕ) → a ≤ n → bit_and a 0 ≡ 0
and-none n zero h = refl
and-none zero (suc a) h = absurd (omega arith)
and-none (suc n) (suc a) h = omega (arith, and-step (suc a) 0, and-none n (suc a / 2) (omega arith))

or-none : (n a : ℕ) → a ≤ n → bit_or a 0 ≡ a
or-none n zero h = refl
or-none zero (suc a) h = absurd (omega arith)
or-none (suc n) (suc a) h = omega (arith, or-step (suc a) 0, or-none n (suc a / 2) (omega arith))

double_pow : (q k : ℕ) → q * 2 ^ suc k ≡ 2 * (q * 2 ^ k)
double_pow q k = omega (arith, ap (λ (t : ℕ). q * t) (pow-suc 2 k))

-- `(q << k) | r` is a sum when `r` has at most `k` bits.
pub bit_or_disjoint : (k q r : ℕ) → r < 2 ^ k → bit_or (q * 2 ^ k) r ≡ q * 2 ^ k + r
bit_or_disjoint zero q r h = ground (arith, or-none q q)
bit_or_disjoint (suc k) q r h = ground (
  arith,
  or-step (q * 2 ^ suc k) r,
  double_pow q k,
  pow-suc 2 k,
  bit_or_disjoint k q (r / 2) (omega (arith, pow-suc 2 k)),
)

-- The same with the low field first.
pub bit_or_disjoint_low : (k q r : ℕ) → r < 2 ^ k → bit_or r (q * 2 ^ k) ≡ q * 2 ^ k + r
bit_or_disjoint_low zero q r h = ground (arith, or-low q)
bit_or_disjoint_low (suc k) q r h = ground (
  arith,
  or-step r (q * 2 ^ suc k),
  double_pow q k,
  pow-suc 2 k,
  bit_or_disjoint_low k q (r / 2) (omega (arith, pow-suc 2 k)),
)

pub bit_or-zero : (a : ℕ) → bit_or a 0 ≡ a
bit_or-zero a = or-none a a (omega arith)

pub and_fields : (k q r : ℕ) → r < 2 ^ k → bit_and (q * 2 ^ k + r) (2 ^ k - 1) ≡ r
and_fields zero q r h = ground (arith, and-none (q + r) (q + r))
and_fields (suc k) q r h = ground (
  arith,
  and-step (q * 2 ^ suc k + r) (2 ^ suc k - 1),
  double_pow q k,
  pow-suc 2 k,
  and_fields k q (r / 2) (omega (arith, pow-suc 2 k)),
)

-- A mask of `k` low bits is the remainder by `2 ^ k`.
pub bit_and_mask : (k a : ℕ) → bit_and a (2 ^ k - 1) ≡ a % 2 ^ k
bit_and_mask k a = ground (arith, one-le-pow k 2, and_fields k (a / 2 ^ k) (a % 2 ^ k))

and_high : (k q r m : ℕ) → r < 2 ^ k → bit_and (q * 2 ^ k + r) (m * 2 ^ k) ≡ bit_and q m * 2 ^ k
and_high zero q r m h = ground arith
and_high (suc k) q r m h = ground (
  arith,
  and-step (q * 2 ^ suc k + r) (m * 2 ^ suc k),
  double_pow q k,
  double_pow m k,
  double_pow (bit_and q m) k,
  pow-suc 2 k,
  and_high k q (r / 2) m (omega (arith, pow-suc 2 k)),
)

-- A mask of `j` ones above `k` zeros clears the `k` low bits of a number that fits it.
pub bit_and_clear :
    (j k a : ℕ) → a / 2 ^ k < 2 ^ j → bit_and a ((2 ^ j - 1) * 2 ^ k) ≡ a / 2 ^ k * 2 ^ k
bit_and_clear j k a h = ground (
  arith,
  one-le-pow k 2,
  and_high k (a / 2 ^ k) (a % 2 ^ k) (2 ^ j - 1),
  bit_and_mask j (a / 2 ^ k),
  mod-eq_of_lt {n = a / 2 ^ k} {m = 2 ^ j},
)
