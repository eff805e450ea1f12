-- ===== src/Opcode/Esc/Division.antt =====
-- UDIV of src/opcode/OpcodeEsc.cpp on every branch, and what SDIV has in common with it.
use mesa_emulator_unix.Common.{
  ℕ, ◌+◌, ◌-◌, ◌/◌, ◌%◌, ◌≤◌, ◌≡◌, refl, arith, true, false, ◌==◌, leb, ltb, if◌then◌else◌, update,
  u16, Bool-cases, inl, inr,
}
use mesa_emulator_unix.Action.{ok, stop, trap, div_zero_trap, ◌>>=◌, ◌>>◌, raise_if}
use mesa_emulator_unix.Machine.{Machine, push, pop, discard}
use mesa_emulator_unix.Opcode.{Instruction}
use mesa_emulator_unix.Opcode.Esc.{e_udiv}

-- What UDIV and SDIV have in common: `f` and `g` give the quotient and the remainder.
abbrev pub divide_by : (ℕ → ℕ → ℕ) → (ℕ → ℕ → ℕ) → Instruction
divide_by f g = do
  t ← pop
  s ← pop
  raise_if (t == 0) (trap div_zero_trap)
  push (f s t)
  push (g s t)
  discard

-- The state that a division leaves: the quotient `q` on the stack, in place of the two operands, and the
-- remainder `r` above it.
abbrev pub replaced : ℕ → ℕ → Machine → Machine
replaced q r s = record s {
  storage = update (update s.storage (s.sp - 2) (u16 q)) (s.sp - 1) (u16 r);
  sp = s.sp - 1;
}

pub divide_by-replaced :
    (f g : ℕ → ℕ → ℕ) (s : Machine)
    → 2 ≤ s.sp
    → s.sp ≤ 14
    → divide_by f g s ≡ (
        if s.storage (s.sp - 1) == 0
        then stop (trap div_zero_trap) (record s { sp = s.sp - 2 })
        else ok tt (
            replaced
              (f (s.storage (s.sp - 2)) (s.storage (s.sp - 1)))
              (g (s.storage (s.sp - 2)) (s.storage (s.sp - 1)))
              s))
unfolding pop push discard ◌>>=◌ raise_if
divide_by-replaced f g s h b =
    let a0 : (s.sp == 0) ≡ false = ground (arith, h) in
    let a1 : leb s.sp 14 ≡ true = ground (arith, b) in
    let a2 : (s.sp - 1 == 0) ≡ false = ground (arith, h) in
    let a3 : leb (s.sp - 1) 14 ≡ true = ground (arith, b) in
    let a4 : s.sp - 1 - 1 ≡ s.sp - 2 = omega arith in
    let a5 : (s.sp - 2 == 14) ≡ false = ground (arith, b) in
    let a6 : ltb (s.sp - 2) 14 ≡ true = ground (arith, b) in
    let a7 : u16 (s.sp - 2 + 1) ≡ s.sp - 1 = omega (arith, h, b) in
    let a8 : (s.sp - 1 == 14) ≡ false = ground (arith, h, b) in
    let a9 : ltb (s.sp - 1) 14 ≡ true = ground (arith, h, b) in
    let b0 : u16 (s.sp - 1 + 1) ≡ s.sp = omega (arith, h, b) in
    let b1 : u16 (s.sp + 65535) ≡ s.sp - 1 = omega (arith, h, b) in
    elim (Bool-cases (s.storage (s.sp - 1) == 0)) [
      | inl z ↦ rw (a0, a1, a2, a3, a4, z) refl
      | inr z ↦ rw (a0, a1, a2, a3, a4, z) (rw (a5, a6, a7, a8, a9) (rw (b0, b1, a0) refl))
    ]

-- The state that a division by `t` of `d` leaves: the quotient on the stack, in place of the two
-- operands, and the remainder above it.
abbrev pub divided : ℕ → ℕ → Machine → Machine
divided d t s = replaced (d / t) (d % t) s

-- On a stack of 2 to 14 words UDIV divides the second word by the first: where that is 0 it stops
-- by a divide zero trap, with both words popped; else it replaces both by the quotient, and leaves
-- the remainder above the top.
pub e_udiv_lem :
    (s : Machine)
    → 2 ≤ s.sp
    → s.sp ≤ 14
    → e_udiv s ≡ (
        if s.storage (s.sp - 1) == 0
        then stop (trap div_zero_trap) (record s { sp = s.sp - 2 })
        else ok tt (divided (s.storage (s.sp - 2)) (s.storage (s.sp - 1)) s))
unfolding e_udiv
e_udiv_lem s h b = divide_by-replaced (λ d t. d / t) (λ d t. d % t) s h b
