-- ===== src/Opcode/Control/Traps.antt =====
-- The trap routines and the saving of the stack of src/opcode/Opcode_control.cpp. `handle_trap` is
-- what runs between the raise of a trap and the throw of `Abort`, on the state of the raise. As the
-- options of src/util/Debug.h are, DEBUG_STOP_AT_CONTROL_TRAP and DEBUG_STOP_AT_STACK_ERROR are 1, and
-- DEBUG_STOP_AT_UNBOUND_TRAP and DEBUG_STOP_AT_OPCODE_TRAP are 0.
use mesa_emulator_unix.Common.{ℕ, zero, suc, ◌+◌, ◌*◌, false, leb, if◌then◌else◌, u8}
use mesa_emulator_unix.Action.{
  Trap, ok, ◌>>=◌, ◌>>◌, gets, skip, raise, error, stack_error, bounds_trap, break_trap,
  div_check_trap, div_zero_trap, interrupt_error, pointer_trap, process_trap, reschedule_error,
  hardware_error, esc_opcode_trap, opcode_trap, code_trap, control_trap, unbound_trap, xfer_trap,
}
use mesa_emulator_unix.Types.{high_half, low_half, high_byte, low_byte}
use mesa_emulator_unix.Machine.{stack_at, set_stack_at}
use mesa_emulator_unix.Machine.Access.{read_dbl_mds}
use mesa_emulator_unix.Machine.Registers.{restore, clear_sp, set_break_byte}
use mesa_emulator_unix.Machine.Words.{read, write, write_mds}
use mesa_emulator_unix.Opcode.{Instruction}
use mesa_emulator_unix.Opcode.Control.{sd_item, ett_item, XferType, first_pc}
use mesa_emulator_unix.Opcode.Control.Xfer.{xfer}
use mesa_emulator_unix.Opcode.Control.Calls.{save_pc}

-- `if (ValidContext()) *StoreMds(LO_OFFSET(LF, pc)) = PC;`
unfoldable pub save_valid_pc : Instruction
save_valid_pc = do pc ← gets (λ s. s.pc); (if leb first_pc pc then save_pc else skip)

unfoldable pub trap_to : ℕ → Instruction
trap_to ptr = do
  handler ← read_dbl_mds ptr
  restore
  save_valid_pc
  lf ← gets (λ s. s.lf)
  xfer handler lf XferType.trap false

-- `*StoreMds(LF + n) = parameter;`
unfoldable pub write_local : ℕ → ℕ → Instruction
write_local n parameter = do lf ← gets (λ s. s.lf); write_mds (lf + n) parameter

unfoldable pub trap_one : ℕ → ℕ → Instruction
trap_one ptr parameter = do trap_to ptr; write_local 0 parameter

unfoldable pub trap_two : ℕ → ℕ → Instruction
trap_two ptr parameter = do
  trap_to ptr
  write_local 0 (low_half parameter)
  write_local 1 (high_half parameter)

-- The indices of SystemData are those of src/mesa/Constant.h. ERROR() of StackError and ControlTrap
-- throws, so that nothing behind it runs.
unfoldable pub handle_trap : Trap → Instruction
handle_trap break_trap = trap_to (sd_item 0)
handle_trap stack_error = raise error
handle_trap reschedule_error = trap_to (sd_item 3)
handle_trap (xfer_trap dst type) = do
  trap_to (sd_item 4)
  write_local 0 (low_half dst)
  write_local 1 (high_half dst)
  write_local 2 type
handle_trap (opcode_trap code) = trap_one (sd_item 5) code
handle_trap (control_trap src) = raise error
handle_trap (code_trap gfi) = trap_one (sd_item 7) gfi
handle_trap hardware_error = trap_to (sd_item 8)
handle_trap (unbound_trap dst) = trap_two (sd_item 9) dst
handle_trap div_zero_trap = trap_to (sd_item 10)
handle_trap div_check_trap = trap_to (sd_item 11)
handle_trap interrupt_error = trap_to (sd_item 12)
handle_trap process_trap = trap_to (sd_item 13)
handle_trap bounds_trap = trap_to (sd_item 14)
handle_trap pointer_trap = trap_to (sd_item 15)
handle_trap (esc_opcode_trap code) = trap_one (ett_item code) code

-- The loop of SaveStack over `n` words from `sp` on; StateVector has the stack at its start.
unfoldable pub save_words : ℕ → ℕ → ℕ → Instruction
save_words zero sp state = skip
save_words (suc n) sp state = do
  value ← stack_at sp
  write (state + sp) value
  save_words n (sp + 1) state

-- The word of StateVector at 14 has `breakByte` for its high byte and `stkptr` for its low one.
unfoldable pub save_stack : ℕ → Instruction
save_stack state = do
  save_words 14 0 state
  break_byte ← gets (λ s. s.break_byte)
  sp ← gets (λ s. s.sp)
  write (state + 14) (u8 break_byte * 256 + u8 sp)
  clear_sp
  set_break_byte 0

unfoldable pub load_words : ℕ → ℕ → ℕ → Instruction
load_words zero sp state = skip
load_words (suc n) sp state = do
  value ← read (state + sp)
  set_stack_at sp value
  load_words n (sp + 1) state

-- `SP = savedSP = word.stkptr;`
unfoldable pub set_both_sp : ℕ → Instruction
set_both_sp sp s = ok tt (record s { sp = sp; saved_sp = sp })

unfoldable pub load_stack : ℕ → Instruction
load_stack state = do
  word ← read (state + 14)
  load_words 14 0 state
  set_both_sp (low_byte word)
  set_break_byte (high_byte word)
