-- ===== src/Opcode/Arith/InPlace.antt =====
-- The instructions of src/opcode/OpcodeMop2xx.cpp that change the top of the stack in place, against
-- the code with `Pop` and `Push` that stands in their comments.
use mesa_emulator_unix.Common.{
  ℕ, ◌+◌, ◌-◌, ◌*◌, ◌≤◌, ◌≡◌, refl, arith, true, false, ◌==◌, leb, ltb, u16, sub16, Bool-cases, inl,
  inr,
}
use mesa_emulator_unix.Action.{◌>>=◌, ◌>>◌, gets, raise_if, trap, stack_error}
use mesa_emulator_unix.Machine.{Machine, push, pop, stack_at, set_stack_at}
use mesa_emulator_unix.Opcode.{Instruction}
use mesa_emulator_unix.Opcode.Arith.{e_neg, e_inc, e_dec, e_dbl, e_trpl}

-- `Pop`, and `Push` of a function of the word.
unfoldable pub by_pop : (ℕ → ℕ) → Instruction
by_pop f = do value ← pop; push (f value)

in_place-by_pop :
    (f : ℕ → ℕ) (s : Machine)
    → s.sp ≤ 14
    → (do
      sp ← gets (λ s. s.sp)
      raise_if (sp == 0) (trap stack_error)
      top ← stack_at (sp - 1)
      set_stack_at (sp - 1) (f top))
        s
      ≡ by_pop f s
unfolding by_pop pop push stack_at set_stack_at ◌>>=◌ gets raise_if
in_place-by_pop f s h = elim (Bool-cases (s.sp == 0)) [
  | inl e ↦ rw e refl
  | inr e ↦
      let in0 : leb s.sp 14 ≡ true = ground (arith, h) in
      let in1 : leb 14 (s.sp - 1) ≡ false = ground (arith, h) in
      let in2 : (s.sp - 1 == 14) ≡ false = ground (arith, h) in
      let in3 : ltb (s.sp - 1) 14 ≡ true = ground (arith, h) in
      let back : u16 (s.sp - 1 + 1) ≡ s.sp = ground (arith, h) in
      rw (e, in0, in1, in2, in3, back) (rw in1 refl)
]

-- On a stack of at most 14 words INC, DEC, NEG, DBL and TRPL do what the Pop and Push of their
-- comments do, a stack error included.
pub in_place_lem :
    (s : Machine)
    → s.sp ≤ 14
    → (e_inc s ≡ by_pop (λ u. u + 1) s)
      × (e_dec s ≡ by_pop (λ u. sub16 u 1) s)
      × (e_neg s ≡ by_pop (λ u. sub16 0 u) s)
      × (e_dbl s ≡ by_pop (λ u. u * 2) s)
      × (e_trpl s ≡ by_pop (λ u. u * 3) s)
unfolding e_inc e_dec e_neg e_dbl e_trpl
in_place_lem s h = (
  in_place-by_pop (λ u. u + 1) s h,
  in_place-by_pop (λ u. sub16 u 1) s h,
  in_place-by_pop (λ u. sub16 0 u) s h,
  in_place-by_pop (λ u. u * 2) s h,
  in_place-by_pop (λ u. u * 3) s h,
)
