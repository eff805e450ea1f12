-- ===== src/Common/Bits.antt =====
-- The C++ operators &, | and ^ on unsigned numbers: each law here cuts both operands at one bit.
mod Digits
use Digits.{bit_and_digit, bit_or_digit, bit_xor_digit}
use native.Mathlib.Nat.{pow-suc, one-le-pow}
use mesa_emulator_unix.Common.Words.{u16}
use Prim.Native.Nat.{
  ℕ, zero, suc, ◌+◌, ◌-◌, ◌*◌, ◌/◌, ◌%◌, ◌^◌, ◌≤◌, ◌<◌, min, max, bit_and, bit_or, bit_xor, differ,
  bit_and-bitwise, bit_or-bitwise,
}
use mathlib.Core.Path.{◌≡◌, refl, ap}
use native.Mathlib.Omega.{arith}

double : (q k : ℕ) → q * 2 ^ suc k ≡ 2 * (q * 2 ^ k)
double q k = omega (arith, ap (λ (t : ℕ). q * t) (pow-suc 2 k))

pub two-pow-suc : (k : ℕ) → 2 ^ suc k ≡ 2 * 2 ^ k
two-pow-suc k = omega (arith, pow-suc 2 k)

-- An operation that works digit by digit works on the high and the low part of its operands apart.
module _ (op digit : ℕ → ℕ → ℕ)
    (step : (a b : ℕ) → op a b ≡ op (a / 2) (b / 2) * 2 + digit (a % 2) (b % 2))
    (at_zero : op 0 0 ≡ 0) where
  cut_op :
      (k q p r t : ℕ)
      → r < 2 ^ k
      → t < 2 ^ k
      → op (q * 2 ^ k + r) (p * 2 ^ k + t) ≡ op q p * 2 ^ k + op r t
  cut_op zero q p r t hr ht =
      let r0 : r ≡ 0 = omega arith in let t0 : t ≡ 0 = omega arith in ground (arith, at_zero)
  cut_op (suc k) q p r t hr ht = ground (
    arith,
    step (q * 2 ^ suc k + r) (p * 2 ^ suc k + t),
    step r t,
    double q k,
    double p k,
    double (op q p) k,
    two-pow-suc k,
    cut_op k q p (r / 2) (t / 2),
  )

pub bit_and_cut :
    (k q p r t : ℕ)
    → r < 2 ^ k
    → t < 2 ^ k
    → bit_and (q * 2 ^ k + r) (p * 2 ^ k + t) ≡ bit_and q p * 2 ^ k + bit_and r t
bit_and_cut = cut_op bit_and min bit_and_digit refl

pub bit_or_cut :
    (k q p r t : ℕ)
    → r < 2 ^ k
    → t < 2 ^ k
    → bit_or (q * 2 ^ k + r) (p * 2 ^ k + t) ≡ bit_or q p * 2 ^ k + bit_or r t
bit_or_cut = cut_op bit_or max bit_or_digit refl

pub zero-bit_and : (a : ℕ) → bit_and 0 a ≡ 0
zero-bit_and a = bit_and-bitwise 0 a

pub zero-bit_or : (a : ℕ) → bit_or 0 a ≡ a
zero-bit_or a = bit_or-bitwise 0 a

-- Zero on the right, by the number of digits.
zero_right : (k a : ℕ) → a < 2 ^ k → (bit_and a 0 ≡ 0) × (bit_or a 0 ≡ a) × (bit_xor a 0 ≡ a)
zero_right zero a h = let e : a ≡ 0 = omega arith in ground arith
zero_right (suc k) a h =
    let ih = zero_right k (a / 2) (omega (arith, two-pow-suc k)) in
    (
      omega (arith, bit_and_digit a 0, ih.0),
      omega (arith, bit_or_digit a 0, ih.1),
      omega (arith, xor_low (a % 2), bit_xor_digit a 0, ih.2),
    )
  where
    xor_low : (d : ℕ) → differ d 0 ≡ d
    xor_low zero = refl
    xor_low (suc d) = refl

lt-two-pow : (a : ℕ) → a < 2 ^ a
lt-two-pow zero = omega arith
lt-two-pow (suc a) = omega (arith, lt-two-pow a, two-pow-suc a)

pub bit_and-zero : (a : ℕ) → bit_and a 0 ≡ 0
bit_and-zero a = (zero_right a a (lt-two-pow a)).0

pub bit_or-zero : (a : ℕ) → bit_or a 0 ≡ a
bit_or-zero a = (zero_right a a (lt-two-pow a)).1

-- A mask of `k` ones keeps a number of `k` digits, and takes the remainder of any other.
mask_low : (k a : ℕ) → a < 2 ^ k → bit_and a (2 ^ k - 1) ≡ a
mask_low zero a h = omega (arith, bit_and-zero a)
mask_low (suc k) a h = omega (
  arith,
  bit_and_digit a (2 ^ suc k - 1),
  two-pow-suc k,
  one-le-pow k 2 (omega arith),
  ap (λ (m : ℕ). bit_and (a / 2) m) half_mask,
  mask_low k (a / 2) (omega (arith, two-pow-suc k)),
)
  where
    half_mask : (2 ^ suc k - 1) / 2 ≡ 2 ^ k - 1
    half_mask = omega (arith, two-pow-suc k, one-le-pow k 2 (omega arith))

pub bit_and_mask : (k a : ℕ) → bit_and a (2 ^ k - 1) ≡ a % 2 ^ k
bit_and_mask k a = ground (
  arith,
  one-le-pow k 2,
  bit_and_cut k (a / 2 ^ k) 0 (a % 2 ^ k) (2 ^ k - 1),
  bit_and-zero (a / 2 ^ k),
  mask_low k (a % 2 ^ k),
)

-- `(q << k) | r` is a sum where `r` has at most `k` digits.
pub bit_or_sum : (k q r : ℕ) → r < 2 ^ k → bit_or (q * 2 ^ k) r ≡ q * 2 ^ k + r
bit_or_sum k q r h =
    ground (arith, one-le-pow k 2, bit_or_cut k q 0 0 r, bit_or-zero q, zero-bit_or r)
