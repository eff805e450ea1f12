-- ===== src/Opcode/Safety/Esc.antt =====
-- The instructions of Opcode/Esc keep the invariant of the machine.
use mesa_emulator_unix.Common.{ℕ, All}
use mesa_emulator_unix.Machine.Safe.{Safe}
use mesa_emulator_unix.Machine.Safe.Rules.{instruction, Safe-get_code_byte}
use mesa_emulator_unix.Opcode.{with_byte}
use mesa_emulator_unix.Opcode.Safety.{Safe-or_error}
use mesa_emulator_unix.Opcode.Esc.{
  esc_codes, e_xor, e_dand, e_dior, e_dxor, e_rotate, e_dshift, e_lint, e_js, e_rcfs, e_rc, e_udiv,
  e_ludiv, e_rob, e_wob, e_bndckl, e_nilck, e_nilckl,
}

module _ {size : ℕ} where
  e_xor-Safe : Safe size 0 (e_xor)
  unfolding e_xor
  e_xor-Safe = search (instruction) depth 15

  e_dand-Safe : Safe size 0 (e_dand)
  unfolding e_dand
  e_dand-Safe = search (instruction) depth 15

  e_dior-Safe : Safe size 0 (e_dior)
  unfolding e_dior
  e_dior-Safe = search (instruction) depth 15

  e_dxor-Safe : Safe size 0 (e_dxor)
  unfolding e_dxor
  e_dxor-Safe = search (instruction) depth 15

  e_rotate-Safe : Safe size 0 (e_rotate)
  unfolding e_rotate
  e_rotate-Safe = search (instruction) depth 15

  e_dshift-Safe : Safe size 0 (e_dshift)
  unfolding e_dshift
  e_dshift-Safe = search (instruction) depth 15

  e_lint-Safe : Safe size 0 (e_lint)
  unfolding e_lint
  e_lint-Safe = search (instruction) depth 15

  e_js-Safe : Safe size 0 (e_js)
  unfolding e_js
  e_js-Safe = search (instruction) depth 15

  e_rcfs-Safe : Safe size 0 (e_rcfs)
  unfolding e_rcfs
  e_rcfs-Safe = search (instruction, Safe-or_error) depth 15

  e_rc-Safe : (arg : ℕ) → Safe size 0 (e_rc arg)
  unfolding e_rc
  e_rc-Safe arg = search (instruction) depth 15

  e_udiv-Safe : Safe size 0 (e_udiv)
  unfolding e_udiv
  e_udiv-Safe = search (instruction) depth 15

  e_ludiv-Safe : Safe size 0 (e_ludiv)
  unfolding e_ludiv
  e_ludiv-Safe = search (instruction) depth 15

  e_rob-Safe : (arg : ℕ) → Safe size 0 (e_rob arg)
  unfolding e_rob
  e_rob-Safe arg = search (instruction) depth 15

  e_wob-Safe : (arg : ℕ) → Safe size 0 (e_wob arg)
  unfolding e_wob
  e_wob-Safe arg = search (instruction) depth 15

  e_bndckl-Safe : Safe size 0 (e_bndckl)
  unfolding e_bndckl
  e_bndckl-Safe = search (instruction) depth 15

  e_nilck-Safe : Safe size 0 (e_nilck)
  unfolding e_nilck
  e_nilck-Safe = search (instruction) depth 15

  e_nilckl-Safe : Safe size 0 (e_nilckl)
  unfolding e_nilckl
  e_nilckl-Safe = search (instruction) depth 15

-- Each of these instructions of src/opcode/OpcodeEsc.cpp keeps the invariant of the machine: the
-- logical ones, ROTATE, DSHIFT, LINT, JS, RCFS, RC, UDIV, LUDIV, ROB, WOB, BNDCKL, NILCK and NILCKL.
-- Run on a machine whose cache agrees with its map, with 16-bit words and at most 14 words on the
-- stack, it ends in such a machine, or stops in one, or meets a null page, inside every array.
pub esc_codes-Safe : (size : ℕ) → All (Safe size 0) esc_codes
unfolding esc_codes with_byte
esc_codes-Safe size =
    search
      (
        Safe-get_code_byte, e_xor-Safe, e_dand-Safe, e_dior-Safe, e_dxor-Safe, e_rotate-Safe,
        e_dshift-Safe, e_lint-Safe, e_js-Safe, e_rcfs-Safe, e_rc-Safe, e_udiv-Safe, e_ludiv-Safe,
        e_rob-Safe, e_wob-Safe, e_bndckl-Safe, e_nilck-Safe, e_nilckl-Safe,
      )
      depth 80
