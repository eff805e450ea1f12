-- ===== src/Opcode/Safety/EscMore.antt =====
-- The instructions of Opcode/EscMore keep the invariant of the machine.
use mesa_emulator_unix.Common.{ℕ, All}
use mesa_emulator_unix.Machine.Safe.{Safe}
use mesa_emulator_unix.Machine.Safe.Rules.{instruction, Safe-get_code_byte, Safe-gets}
use mesa_emulator_unix.Machine.Safe.Stays.{Safe-end}
use mesa_emulator_unix.Machine.Safe.Statements.{staying}
use mesa_emulator_unix.Opcode.{with_byte}
use mesa_emulator_unix.Opcode.EscMore.{
  e_dsk, e_dmul, e_sdiv, e_uddiv, e_version, e_214, e_305, e_306, more_codes,
}
use mesa_emulator_unix.Opcode.Esc.{esc_codes}
use mesa_emulator_unix.Opcode.EscRegisters.{register_codes}
use mesa_emulator_unix.Opcode.Safety.Esc.{esc_codes-Safe}
use mesa_emulator_unix.Opcode.Safety.EscRegisters.{register_codes-Safe}
use mesa_emulator_unix.Opcode.Safety.Monitors.{save_stack-Stays}

module _ {size : ℕ} where
  e_dsk-Safe : (arg : ℕ) → Safe size 0 (e_dsk arg)
  unfolding e_dsk
  e_dsk-Safe arg = Safe-gets _ _ (λ lf. Safe-end (search (staying, save_stack-Stays) depth 10))

  e_dmul-Safe : Safe size 0 e_dmul
  unfolding e_dmul
  e_dmul-Safe = search (instruction) depth 15

  e_sdiv-Safe : Safe size 0 e_sdiv
  unfolding e_sdiv
  e_sdiv-Safe = search (instruction) depth 15

  e_uddiv-Safe : Safe size 0 e_uddiv
  unfolding e_uddiv
  e_uddiv-Safe = search (instruction) depth 15

  e_version-Safe : Safe size 0 e_version
  unfolding e_version
  e_version-Safe = search (instruction) depth 15

  e_214-Safe : Safe size 0 e_214
  unfolding e_214
  e_214-Safe = search (instruction) depth 15

  e_305-Safe : Safe size 0 e_305
  unfolding e_305
  e_305-Safe = search (instruction) depth 15

  e_306-Safe : Safe size 0 e_306
  unfolding e_306
  e_306-Safe = search (instruction) depth 15

more_codes-Safe : (size : ℕ) → All (Safe size 0) more_codes
unfolding more_codes with_byte
more_codes-Safe size =
    search
      (
        Safe-get_code_byte, e_dsk-Safe, e_dmul-Safe, e_sdiv-Safe, e_uddiv-Safe, e_version-Safe,
        e_214-Safe, e_305-Safe, e_306-Safe,
      )
      depth 40

-- The modelled instructions of src/opcode/OpcodeEsc.cpp and src/opcode/Opcode_special.cpp, but LSK and
-- MAPDISPLAY, keep the invariant of the machine: those of logic, division and checks, those of the map and
-- the interrupts, those that write and read the registers, and DSK, VERSION, A214, A305 and A306. Run on a
-- machine whose cache agrees with its map, with 16-bit words and at most 14 words on the stack, each ends
-- in such a machine, or stops in one, or meets a null page, inside every array.
pub extended_codes-Safe :
    (size time : ℕ)
    → All (Safe size 0) esc_codes
      × All (Safe size 0) (register_codes time)
      × All (Safe size 0) more_codes
extended_codes-Safe size time =
    (esc_codes-Safe size, register_codes-Safe size time, more_codes-Safe size)
