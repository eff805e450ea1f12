-- ===== src/Opcode/Arith/Dinc.antt =====
-- DINC of src/opcode/OpcodeMop2xx.cpp, which adds to the low word and carries, against the code with
-- `PopLong` and `PushLong` in its comment.
use mesa_emulator_unix.Common.{
  ℕ, ◌+◌, ◌-◌, ◌*◌, ◌/◌, ◌≤◌, ◌<◌, ◌≡◌, refl, arith, true, false, ◌==◌, leb, ltb, if◌then◌else◌,
  update, u16, u32, Bool-cases, inl, inr, fun_ext, ap, eq→==,
}
use mesa_emulator_unix.Common.Bits.{bit_or_sum}
use mesa_emulator_unix.Action.{Outcome, ◌>>=◌, gets, raise_if, ok, skip}
use mesa_emulator_unix.Machine.{Machine, push_long, pop_long, stack_at, set_stack_at}
use mesa_emulator_unix.Opcode.{Instruction}
use mesa_emulator_unix.Opcode.Arith.{e_dinc}

unfoldable pub by_pop_long : Instruction
by_pop_long = do value ← pop_long; push_long (u32 (value + 1))

abbrev restored : Machine → (ℕ → ℕ) → Outcome Machine (Unit {0})
restored s storage = ok tt (record s { storage = storage })

by_pop_long_lem :
    (s : Machine)
    → 2 ≤ s.sp
    → s.sp ≤ 14
    → s.storage (s.sp - 2) < 65536
    → by_pop_long s
      ≡ restored s (
          update
            (update s.storage
              (s.sp - 2)
              (u16 (u32 (s.storage (s.sp - 1) * 65536 + s.storage (s.sp - 2) + 1))))
            (s.sp - 1)
            (u16 (u32 (s.storage (s.sp - 1) * 65536 + s.storage (s.sp - 2) + 1) / 65536)))
unfolding by_pop_long pop_long push_long ◌>>=◌
by_pop_long_lem s h b w =
    let a0 : leb s.sp 1 ≡ false = ground (arith, h) in
    let a1 : leb s.sp 14 ≡ true = ground (arith, b) in
    let a2 : leb 13 (s.sp - 2) ≡ false = ground (arith, b) in
    let a3 : s.sp - 2 + 1 ≡ s.sp - 1 = omega (arith, h) in
    let a4 : u16 (s.sp - 2 + 2) ≡ s.sp = omega (arith, h, b) in
    rw (a0, a1, bit_or_sum 16 (s.storage (s.sp - 1)) (s.storage (s.sp - 2)) w)
      (rw (a2, a4) (rw a3 refl))

e_dinc_lem :
    (s : Machine)
    → 2 ≤ s.sp
    → s.sp ≤ 14
    → e_dinc s
      ≡ restored s (
          if u16 (s.storage (s.sp - 2) + 1) == 0
          then update
              (update s.storage (s.sp - 2) (u16 (s.storage (s.sp - 2) + 1)))
              (s.sp - 1)
              (u16 (s.storage (s.sp - 1) + 1))
          else update s.storage (s.sp - 2) (u16 (s.storage (s.sp - 2) + 1)))
unfolding e_dinc stack_at set_stack_at ◌>>=◌ gets raise_if skip
e_dinc_lem s h b =
    let a0 : ltb s.sp 2 ≡ false = ground (arith, h) in
    let a1 : leb 14 (s.sp - 2) ≡ false = ground (arith, b) in
    let a2 : leb 14 (s.sp - 1) ≡ false = ground (arith, b) in
    let a3 : (s.sp - 2 == s.sp - 2) ≡ true = eq→== (s.sp - 2) (s.sp - 2) refl in
    let a4 : (s.sp - 1 == s.sp - 2) ≡ false = ground (arith, h) in
    elim (Bool-cases (u16 (s.storage (s.sp - 2) + 1) == 0)) [
      | inl z ↦ rw (a0, a1) (rw a1 (rw (a1, a3, z) (rw (a2, a4) (rw a2 refl))))
      | inr z ↦ rw (a0, a1) (rw a1 (rw (a1, a3, z) refl))
    ]

-- On a stack of 2 to 14 words of 16 bits, DINC does what the PopLong and PushLong of its comment do:
-- it adds 1 to the number of the two words, and wraps at 2 ^ 32.
pub e_dinc-by_pop_long :
    (s : Machine)
    → 2 ≤ s.sp
    → s.sp ≤ 14
    → ((i : ℕ) → s.storage i < 65536)
    → e_dinc s ≡ by_pop_long s
e_dinc-by_pop_long s h b w =
    let low = w (s.sp - 2) in
    let high = w (s.sp - 1) in
    rw (e_dinc_lem s h b, by_pop_long_lem s h b low)
      (ap (restored s) (fun_ext (λ j. ground (arith, low, high, h))))
