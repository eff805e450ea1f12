-- ===== src/Opcode/EscMore/Signed.antt =====
-- SDIV of src/opcode/OpcodeEsc.cpp: its quotient and remainder as signed numbers, and every branch of it.
use mesa_emulator_unix.Common.{
  ℕ, ◌+◌, ◌-◌, ◌*◌, ◌/◌, ◌%◌, ◌≤◌, ◌<◌, ◌≡◌, ◌≢◌, arith, Bool, true, false, not, ◌==◌,
  if◌then◌else◌, Bool-cases, inl, inr,
}
use native.Mathlib.Nat.{div-add-mod, mod-lt}
use mesa_emulator_unix.Action.{ok, stop, trap, div_zero_trap}
use mesa_emulator_unix.Machine.{Machine}
use mesa_emulator_unix.Opcode.Esc.Division.{replaced, divide_by-replaced}
use mesa_emulator_unix.Opcode.EscMore.{
  size_of16, is_negative16, signed_word, quotient16, remainder16, e_sdiv,
}

size_of16-signed_word : (b : Bool) (n : ℕ) → n ≤ 32768 → size_of16 (signed_word b n) ≡ n
size_of16-signed_word true n h = ground (arith, h)
size_of16-signed_word false n h = ground (arith, h)

is_negative16-signed_word :
    (b : Bool) (n : ℕ) → n < 32768 → signed_word b n ≢ 0 → is_negative16 (signed_word b n) ≡ b
is_negative16-signed_word true n h ne = ground (arith, h, ne)
is_negative16-signed_word false n h ne = ground (arith, h, ne)

signed_word-signs :
    (b : Bool) (n : ℕ)
    → n ≤ 32768
    → signed_word b n ≢ 0
    → signed_word b n ≢ 32768
    → is_negative16 (signed_word b n) ≡ b
signed_word-signs true n h ne other = ground (arith, h, ne, other)
signed_word-signs false n h ne other = ground (arith, h, ne, other)

size_of16-le : (w : ℕ) → w < 65536 → size_of16 w ≤ 32768
size_of16-le w h = ground (arith, h)

size_of16-some : (w : ℕ) → w < 65536 → w ≢ 0 → 0 < size_of16 w
size_of16-some w h ne = ground (arith, h, ne)

quotient-le : (m n : ℕ) → 0 < n → m / n ≤ m
quotient-le m n h = grind (arith, div-add-mod m n)

-- The signs of two words differ.
abbrev pub signs_differ : ℕ → ℕ → Bool
signs_differ j k = if is_negative16 j then not (is_negative16 k) else is_negative16 k

-- The sign of a word, by whether it is 0, and the sign that the others have.
is_negative16-word :
    (w : ℕ) (b : Bool)
    → (w ≢ 0 → is_negative16 w ≡ b)
    → is_negative16 w ≡ (if w == 0 then false else b)
is_negative16-word w b h = elim (Bool-cases (w == 0)) [
  | inl none ↦ ground (arith, none)
  | inr other ↦ let ne : w ≢ 0 = λ e. ground (arith, other, e) in rw other (h ne)
]

quotient_sign :
    (w : ℕ) (b : Bool)
    → (w ≢ 32768 → is_negative16 w ≡ b)
    → is_negative16 w ≡ (if w == 32768 then true else b)
quotient_sign w b h = elim (Bool-cases (w == 32768)) [
  | inl wrapped ↦ ground (arith, wrapped)
  | inr other ↦ let ne : w ≢ 32768 = λ e. ground (arith, other, e) in rw other (h ne)
]

-- The quotient and the remainder of two words, as SDIV computes them, are those of the signed numbers that
-- the words stand for, where the divisor is not 0: the size of the dividend is the size of the divisor
-- times that of the quotient, and that of the remainder, which is below that of the divisor. A remainder
-- that is not 0 has the sign of the dividend. A quotient that is not 0 is negative where the signs of the
-- two differ, or where it is the word 32,768, to which the quotient of -32,768 and -1 wraps around.
pub quotient16_lem :
    (j k : ℕ)
    → j < 65536
    → k < 65536
    → k ≢ 0
    → (size_of16 k * size_of16 (quotient16 j k) + size_of16 (remainder16 j k) ≡ size_of16 j)
      × (size_of16 (remainder16 j k) < size_of16 k)
      × (is_negative16 (remainder16 j k)
          ≡ (if remainder16 j k == 0 then false else is_negative16 j))
      × (is_negative16 (quotient16 j k) ≡ (
          if quotient16 j k == 0
          then false
          else (if quotient16 j k == 32768 then true else signs_differ j k)))
unfolding quotient16 remainder16
quotient16_lem j k hj hk ne =
    let n_some = size_of16-some k hk ne in
    let m_le = size_of16-le j hj in
    let n_le = size_of16-le k hk in
    let q_le = quotient-le (size_of16 j) (size_of16 k) n_some in
    let q_small : size_of16 j / size_of16 k ≤ 32768 = omega (arith, q_le, m_le) in
    let r_lt = mod-lt (size_of16 j) n_some in
    let r_small : size_of16 j % size_of16 k < 32768 = omega (arith, r_lt, n_le) in
    let q_size = size_of16-signed_word (signs_differ j k) (size_of16 j / size_of16 k) q_small in
    let r_size =
      size_of16-signed_word (is_negative16 j) (size_of16 j % size_of16 k)
        (omega (arith, r_small)) in
    (
      rw (q_size, r_size) (div-add-mod (size_of16 j) (size_of16 k)),
      rw r_size r_lt,
      is_negative16-word _ _
          (is_negative16-signed_word (is_negative16 j) (size_of16 j % size_of16 k) r_small),
      is_negative16-word _ _ (λ some_quotient.
          quotient_sign _ _ (
            signed_word-signs (signs_differ j k) (size_of16 j / size_of16 k) q_small
              some_quotient)),
    )

-- On a stack of 2 to 14 words SDIV divides the second word by the first, as signed numbers: where the
-- first is 0 it stops by a divide zero trap, with both words popped; else it replaces both by the
-- quotient, and leaves the remainder above the top.
pub e_sdiv_lem :
    (s : Machine)
    → 2 ≤ s.sp
    → s.sp ≤ 14
    → e_sdiv s ≡ (
        if s.storage (s.sp - 1) == 0
        then stop (trap div_zero_trap) (record s { sp = s.sp - 2 })
        else ok tt (
            replaced
              (quotient16 (s.storage (s.sp - 2)) (s.storage (s.sp - 1)))
              (remainder16 (s.storage (s.sp - 2)) (s.storage (s.sp - 1)))
              s))
unfolding e_sdiv
e_sdiv_lem s h b = divide_by-replaced quotient16 remainder16 s h b
