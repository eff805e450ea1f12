-- ===== src/Opcode/Esc.antt =====
-- src/opcode/OpcodeEsc.cpp: logic, division, checks and the global code, codes 022 to 046.
pub mod Division
use mesa_emulator_unix.Common.{
  ℕ, ◌+◌, ◌*◌, ◌/◌, ◌%◌, bit_and, bit_or, bit_xor, List, [], ◌∷◌, ◌++◌, Bool, true, false, not, leb,
  ltb, ◌==◌, if◌then◌else◌, u16, u32, sub16, sub32,
}
use mesa_emulator_unix.Common.Int.{int16, ltb_ℤ, pos}
use mesa_emulator_unix.Action.{
  Action, ◌>>=◌, ◌>>◌, gets, modify, raise, raise_if, skip, error, trap, stack_error, div_zero_trap,
  div_check_trap, bounds_trap, pointer_trap, pure,
}
use mesa_emulator_unix.Types.{
  byte_pair, low_byte, nibble_pair, NibblePair, sign_extend, field_desc, FieldDesc,
}
use mesa_emulator_unix.Types.Shifts.{rotate, long_shift}
use mesa_emulator_unix.Types.Fields.{read_field, write_field}
use mesa_emulator_unix.Machine.{
  Machine, push, pop, push_long, pop_long, recover, discard, sp_inc, sp_dec, set_pc, stack_at,
  set_stack_at,
}
use mesa_emulator_unix.Machine.Access.{
  fetch, store, load, assign, lengthen_pointer, fetch_mds, store_mds, fetch_mds_pair,
  store_mds_pair, fetch_pair, store_pair, read_dbl, read_dbl_mds, read_code, get_code_byte,
  get_code_word, fetch_byte, store_byte, fetch_link,
}
use mesa_emulator_unix.Opcode.{Instruction, with_byte, with_word, with_pair, with_desc, or_error}

unfoldable pub e_xor : Instruction
e_xor = do v ← pop; u ← pop; push (bit_xor u v)

unfoldable pub e_dand : Instruction
e_dand = do v ← pop_long; u ← pop_long; push_long (bit_and u v)

unfoldable pub e_dior : Instruction
e_dior = do v ← pop_long; u ← pop_long; push_long (bit_or u v)

unfoldable pub e_dxor : Instruction
e_dxor = do v ← pop_long; u ← pop_long; push_long (bit_xor u v)

unfoldable pub e_rotate : Instruction
e_rotate = do count ← pop; u ← pop; push (rotate u (int16 count))

unfoldable pub e_dshift : Instruction
e_dshift = do count ← pop; u ← pop_long; push_long (long_shift u (int16 count))

unfoldable pub e_lint : Instruction
e_lint = do i ← pop; push i; push (if ltb_ℤ (int16 i) (pos 0) then 65535 else 0)

unfoldable pub e_js : Instruction
e_js = do target ← pop; set_pc target

unfoldable pub e_rcfs : Instruction
e_rcfs = do
  word ← pop
  offset ← pop
  source ← read_code (offset + (field_desc word).offset)
  value ← or_error (read_field source (field_desc word).field)
  push value

unfoldable pub e_rc : ℕ → Instruction
e_rc arg = do offset ← pop; value ← read_code (offset + arg); push value

unfoldable pub e_udiv : Instruction
e_udiv = do
  t ← pop
  s ← pop
  raise_if (t == 0) (trap div_zero_trap)
  push (s / t)
  push (s % t)
  discard

unfoldable pub e_ludiv : Instruction
e_ludiv = do
  t ← pop
  s ← pop_long
  raise_if (t == 0) (trap div_zero_trap)
  raise_if (leb t (s / 65536)) (trap div_check_trap)
  push (s / t)
  push (s % t)
  discard

unfoldable pub e_rob : ℕ → Instruction
e_rob arg = do ptr ← pop; p ← fetch_mds (sub16 ptr arg); value ← load p; push value

unfoldable pub e_wob : ℕ → Instruction
e_wob arg = do ptr ← pop; p ← fetch_mds (sub16 ptr arg); value ← pop; assign p value

unfoldable pub e_bndckl : Instruction
e_bndckl = do
  range ← pop_long
  index ← pop_long
  sp_inc
  sp_inc
  (if leb range index then raise (trap bounds_trap) else skip)

unfoldable pub e_nilck : Instruction
e_nilck = do ptr ← pop; sp_inc; (if ptr == 0 then raise (trap pointer_trap) else skip)

unfoldable pub e_nilckl : Instruction
e_nilckl = do ptr ← pop_long; sp_inc; sp_inc; (if ptr == 0 then raise (trap pointer_trap) else skip)

-- The instructions above, in the order of their codes.
unfoldable pub esc_codes : List Instruction
esc_codes =
    e_xor
    ∷ e_dand
    ∷ e_dior
    ∷ e_dxor
    ∷ e_rotate
    ∷ e_dshift
    ∷ e_lint
    ∷ e_js
    ∷ e_rcfs
    ∷ with_byte e_rc
    ∷ e_udiv
    ∷ e_ludiv
    ∷ with_byte e_rob
    ∷ with_byte e_wob
    ∷ e_bndckl
    ∷ e_nilck
    ∷ e_nilckl
    ∷ []
