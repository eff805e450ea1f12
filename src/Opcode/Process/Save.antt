-- ===== src/Opcode/Process/Save.antt =====
-- State vectors, SaveProcess and LoadProcess of src/opcode/Opcode_process.cpp.
use mesa_emulator_unix.Common.{ℕ, ◌+◌, Bool, false, ◌==◌, if◌then◌else◌}
use mesa_emulator_unix.Action.{Action, ◌>>=◌, ◌>>◌, pure, gets, raise_if, skip, error}
use mesa_emulator_unix.Machine.{Machine, push}
use mesa_emulator_unix.Machine.Registers.{set_mds}
use mesa_emulator_unix.Machine.Words.{
  read, write, read_pda, write_pda, lengthen_pda_ptr, offset_pda,
}
use mesa_emulator_unix.Opcode.{Instruction}
use mesa_emulator_unix.Opcode.Control.Calls.{no_abort}
use mesa_emulator_unix.Opcode.Control.Traps.{save_valid_pc, save_stack, load_stack}
use mesa_emulator_unix.Opcode.Process.{
  link_of, context_of, mds_of, state_of, sv_frame, bit0, bit1, bit2, with_bit0, with_bit2, priority,
}

unfoldable pub empty_state : ℕ → Action Machine Bool
empty_state pri = do state ← read_pda (state_of pri); pure (state == 0)

unfoldable pub alloc_state : ℕ → Action Machine ℕ
alloc_state pri = do
  offset ← read_pda (state_of pri)
  raise_if (offset == 0) error
  next ← read (lengthen_pda_ptr offset)
  write_pda (state_of pri) next
  pure (lengthen_pda_ptr offset)

unfoldable pub free_state : ℕ → ℕ → Instruction
free_state pri state = do
  first ← read_pda (state_of pri)
  write state first
  offset ← offset_pda state
  write_pda (state_of pri) offset

-- The state vector of a process that is preempted.
unfoldable pub save_state : ℕ → ℕ → Action Machine ℕ
save_state psb link =
    if bit1 link
    then (do context ← read_pda (context_of psb); pure (lengthen_pda_ptr context))
    else alloc_state (priority link)

unfoldable pub save_preempted : ℕ → ℕ → Instruction
save_preempted psb link = do
  state ← save_state psb link
  save_stack state
  lf ← gets (λ s. s.lf)
  write (state + sv_frame) lf
  (if bit1 link then skip else (do offset ← offset_pda state; write_pda (context_of psb) offset))

unfoldable pub save_frame : ℕ → ℕ → Instruction
save_frame psb link = do
  lf ← gets (λ s. s.lf)
  (if bit1 link
      then (do context ← read_pda (context_of psb); write (lengthen_pda_ptr context + sv_frame) lf)
      else write_pda (context_of psb) lf)

-- `link.preempted = preemption` stands before both branches, and is not read in them.
unfoldable pub save_process : Bool → Instruction
save_process preemption = no_abort (do
  psb ← gets (λ s. s.psb)
  link ← read_pda (link_of psb)
  save_valid_pc
  (if preemption then save_preempted psb link else save_frame psb link)
  write_pda (link_of psb) (with_bit0 link preemption))

unfoldable pub load_preempted : ℕ → ℕ → Action Machine ℕ
load_preempted link context = do
  load_stack (lengthen_pda_ptr context)
  frame ← read (lengthen_pda_ptr context + sv_frame)
  (if bit1 link then skip else free_state (priority link) (lengthen_pda_ptr context))
  pure frame

unfoldable pub load_frame : ℕ → ℕ → ℕ → Action Machine ℕ
load_frame psb link context = do
  (if bit2 link then (do push 0; write_pda (link_of psb) (with_bit2 link false)) else skip)
  (if bit1 link then read (lengthen_pda_ptr context + sv_frame) else pure context)

unfoldable pub load_process : Action Machine ℕ
load_process = no_abort (do
  psb ← gets (λ s. s.psb)
  link ← read_pda (link_of psb)
  context ← read_pda (context_of psb)
  frame ← (if bit0 link then load_preempted link context else load_frame psb link context)
  high ← read_pda (mds_of psb)
  set_mds high
  pure frame)
