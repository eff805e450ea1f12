-- ===== src/Opcode/Interpreter.antt =====
-- The interpreter's step: `Dispatch` and `Execute` of src/opcode/opcode.h. `op_mop` is the array of
-- the same name, which src/opcode/opcode.cpp fills; `lastMop` and the counters are left out.
use mesa_emulator_unix.Common.{ℕ}
use mesa_emulator_unix.Action.{◌>>=◌, ◌>>◌, modify}
use mesa_emulator_unix.Machine.Access.{get_code_byte}
use mesa_emulator_unix.Opcode.{Instruction}

unfoldable pub dispatch : (ℕ → Instruction) → ℕ → Instruction
dispatch op_mop code = op_mop code

unfoldable pub execute : (ℕ → Instruction) → Instruction
execute op_mop = do
  modify (λ s. record s { saved_pc = s.pc; saved_sp = s.sp })
  code ← get_code_byte
  dispatch op_mop code
