-- ===== src/Common/Bits/Digits.antt =====
-- The native operations on binary digits, one digit at a time.
use Prim.Native.Nat.{
  ℕ, zero, suc, ◌+◌, ◌-◌, ◌*◌, ◌/◌, ◌%◌, ◌≤◌, min, max, bit_and, bit_or, bit_xor, differ, digits,
  bitwise, bit_and-bitwise, bit_or-bitwise, bit_xor-bitwise,
}
use mathlib.Core.Path.{◌≡◌, refl}
use native.Mathlib.Omega.{arith}

-- One more digit to go changes nothing once the first operand has run out.
module _ (rest : ℕ → ℕ) (digit : ℕ → ℕ → ℕ) where
  digits_enough : (n a b : ℕ) → a ≤ n → digits rest digit (suc n) a b ≡ digits rest digit n a b
  digits_enough zero zero b p = refl
  digits_enough zero (suc a) b p = absurd (omega arith)
  digits_enough (suc n) zero b p = refl
  digits_enough (suc n) (suc a) b p = rw (digits_enough n (suc a / 2) (b / 2) (omega arith))

  digits_more :
      (k n m a b : ℕ) → m ≡ k + n → a ≤ n → digits rest digit m a b ≡ digits rest digit n a b
  digits_more zero n m a b e p = let same : m ≡ n = omega arith in rw same
  digits_more (suc k) n zero a b e p = absurd (omega arith)
  digits_more (suc k) n (suc m) a b e p =
      rw (digits_enough m a b (omega arith)) (digits_more k n m a b (omega arith) p)

  bitwise_digit :
      (a b : ℕ)
      → bitwise rest digit (suc a) b
        ≡ bitwise rest digit (suc a / 2) (b / 2) * 2 + digit (suc a % 2) (b % 2)
  bitwise_digit a b =
      let gap : a ≡ (a - suc a / 2) + suc a / 2 = omega arith in
      rw (digits_more (a - suc a / 2) (suc a / 2) a (suc a / 2) (b / 2) gap (omega arith))

pub bit_and_digit : (a b : ℕ) → bit_and a b ≡ bit_and (a / 2) (b / 2) * 2 + min (a % 2) (b % 2)
bit_and_digit zero b = simp bit_and-bitwise (omega arith)
bit_and_digit (suc a) b = simp bit_and-bitwise (bitwise_digit (λ _. 0) min a b)

pub bit_or_digit : (a b : ℕ) → bit_or a b ≡ bit_or (a / 2) (b / 2) * 2 + max (a % 2) (b % 2)
bit_or_digit zero b = simp bit_or-bitwise (omega arith)
bit_or_digit (suc a) b = simp bit_or-bitwise (bitwise_digit (λ d. d) max a b)

pub bit_xor_digit : (a b : ℕ) → bit_xor a b ≡ bit_xor (a / 2) (b / 2) * 2 + differ (a % 2) (b % 2)
bit_xor_digit zero b = simp bit_xor-bitwise (omega arith)
bit_xor_digit (suc a) b = simp bit_xor-bitwise (bitwise_digit (λ d. d) differ a b)
