-- ===== src/Opcode/Arith.antt =====
-- src/opcode/OpcodeMop2xx.cpp: the evaluation stack and arithmetic, codes 0242 to 0276.
pub mod InPlace
pub mod Dinc
use mesa_emulator_unix.Common.{
  ℕ, ◌+◌, ◌-◌, ◌*◌, ◌/◌, ◌%◌, bit_and, bit_or, bit_xor, List, [], ◌∷◌, ◌++◌, Bool, true, false, not,
  leb, ltb, ◌==◌, if◌then◌else◌, u16, u32, sub16, sub32,
}
use mesa_emulator_unix.Common.Int.{int16, int32, ltb_ℤ}
use mesa_emulator_unix.Action.{
  Action, ◌>>=◌, ◌>>◌, gets, modify, raise, raise_if, skip, error, trap, stack_error, pure,
}
use mesa_emulator_unix.Types.{
  byte_pair, low_byte, nibble_pair, NibblePair, sign_extend, field_desc, FieldDesc,
}
use mesa_emulator_unix.Types.Shifts.{shift}
use mesa_emulator_unix.Types.Fields.{read_field, write_field}
use mesa_emulator_unix.Machine.{
  Machine, push, pop, push_long, pop_long, recover, discard, sp_inc, sp_dec, set_pc, stack_at,
  set_stack_at,
}
use mesa_emulator_unix.Machine.Access.{
  fetch, store, load, assign, lengthen_pointer, fetch_mds, store_mds, fetch_mds_pair,
  store_mds_pair, fetch_pair, store_pair, read_dbl, read_dbl_mds, read_code, get_code_byte,
  get_code_word, fetch_byte, store_byte, fetch_link,
}
use mesa_emulator_unix.Opcode.{Instruction, with_byte, with_word, with_pair, with_desc, or_error}

unfoldable pub e_rec2 : Instruction
e_rec2 = do recover; recover

unfoldable pub e_dis2 : Instruction
e_dis2 = do discard; discard

unfoldable pub e_exch : Instruction
e_exch = do v ← pop; u ← pop; push v; push u

unfoldable pub e_dexch : Instruction
e_dexch = do v ← pop_long; u ← pop_long; push_long v; push_long u

unfoldable pub e_dup : Instruction
e_dup = do u ← pop; push u; push u

unfoldable pub e_ddup : Instruction
e_ddup = do u ← pop_long; push_long u; push_long u

unfoldable pub e_exdis : Instruction
e_exdis = do u ← pop; v ← pop; push u

unfoldable pub e_neg : Instruction
e_neg = do
  sp ← gets (λ s. s.sp)
  raise_if (sp == 0) (trap stack_error)
  top ← stack_at (sp - 1)
  set_stack_at (sp - 1) (sub16 0 top)

unfoldable pub e_inc : Instruction
e_inc = do
  sp ← gets (λ s. s.sp)
  raise_if (sp == 0) (trap stack_error)
  top ← stack_at (sp - 1)
  set_stack_at (sp - 1) (top + 1)

unfoldable pub e_dec : Instruction
e_dec = do
  sp ← gets (λ s. s.sp)
  raise_if (sp == 0) (trap stack_error)
  top ← stack_at (sp - 1)
  set_stack_at (sp - 1) (sub16 top 1)

unfoldable pub e_dinc : Instruction
e_dinc = do
  sp ← gets (λ s. s.sp)
  raise_if (ltb sp 2) (trap stack_error)
  low ← stack_at (sp - 2)
  set_stack_at (sp - 2) (low + 1)
  sum ← stack_at (sp - 2)
  (if sum == 0 then (do high ← stack_at (sp - 1); set_stack_at (sp - 1) (high + 1)) else skip)

unfoldable pub e_dbl : Instruction
e_dbl = do
  sp ← gets (λ s. s.sp)
  raise_if (sp == 0) (trap stack_error)
  top ← stack_at (sp - 1)
  set_stack_at (sp - 1) (top * 2)

unfoldable pub e_ddbl : Instruction
e_ddbl = do u ← pop_long; push_long (u32 (u * 2))

unfoldable pub e_trpl : Instruction
e_trpl = do
  sp ← gets (λ s. s.sp)
  raise_if (sp == 0) (trap stack_error)
  top ← stack_at (sp - 1)
  set_stack_at (sp - 1) (top * 3)

unfoldable pub e_and : Instruction
e_and = do v ← pop; u ← pop; push (bit_and u v)

unfoldable pub e_ior : Instruction
e_ior = do v ← pop; u ← pop; push (bit_or u v)

unfoldable pub e_adds : ℕ → Instruction
e_adds arg = do i ← pop; push (i + arg)

unfoldable pub e_add : Instruction
e_add = do t ← pop; s ← pop; push (s + t)

unfoldable pub e_sub : Instruction
e_sub = do t ← pop; s ← pop; push (sub16 s t)

unfoldable pub e_dadd : Instruction
e_dadd = do t ← pop_long; s ← pop_long; push_long (u32 (s + t))

unfoldable pub e_dsub : Instruction
e_dsub = do t ← pop_long; s ← pop_long; push_long (sub32 s t)

unfoldable pub e_adc : Instruction
e_adc = do t ← pop; s ← pop_long; push_long (u32 (s + t))

unfoldable pub e_acd : Instruction
e_acd = do t ← pop_long; s ← pop; push_long (u32 (s + t))

unfoldable pub e_al0i : ℕ → Instruction
e_al0i arg = do lf ← gets (λ s. s.lf); p ← fetch_mds lf; value ← load p; push (value + arg)

unfoldable pub e_mul : Instruction
e_mul = do t ← pop; s ← pop; push_long (u32 (s * t)); sp_dec

unfoldable pub e_dcmp : Instruction
e_dcmp = do
  k ← pop_long
  j ← pop_long
  push (if k == j then 0 else (if ltb_ℤ (int32 k) (int32 j) then 1 else 65535))

unfoldable pub e_udcmp : Instruction
e_udcmp = do t ← pop_long; s ← pop_long; push (if s == t then 0 else (if ltb t s then 1 else 65535))
