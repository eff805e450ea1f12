-- ===== src/Opcode/Safety/Mop1.antt =====
-- The instructions of Opcode/Mop1 keep the invariant of the machine, by the rules of Machine/Safe/Rules.
use mesa_emulator_unix.Common.{ℕ}
use mesa_emulator_unix.Machine.Safe.{Safe}
use mesa_emulator_unix.Machine.Safe.Rules.{instruction}
use mesa_emulator_unix.Opcode.Mop1.{e_sgd, e_llk, e_rki, e_rkdi, e_lk, e_shift, e_shift_pop}

module _ {size n : ℕ} where
  pub e_sgd-Safe : (arg : ℕ) → Safe size n (e_sgd arg)
  unfolding e_sgd
  e_sgd-Safe arg = search (instruction) depth 15

  pub e_llk-Safe : (arg : ℕ) → Safe size n (e_llk arg)
  unfolding e_llk
  e_llk-Safe arg = search (instruction) depth 15

  pub e_rki-Safe : (arg : ℕ) → Safe size n (e_rki arg)
  unfolding e_rki
  e_rki-Safe arg = search (instruction) depth 15

  pub e_rkdi-Safe : (arg : ℕ) → Safe size n (e_rkdi arg)
  unfolding e_rkdi
  e_rkdi-Safe arg = search (instruction) depth 15

  pub e_lk-Safe : (arg : ℕ) → Safe size n (e_lk arg)
  unfolding e_lk
  e_lk-Safe arg = search (instruction) depth 15

  pub e_shift-Safe : (arg : ℕ) → Safe size n (e_shift arg)
  unfolding e_shift
  e_shift-Safe arg = search (instruction) depth 15

module _ {size n : ℕ} where
  pub e_shift_pop-Safe : Safe size n (e_shift_pop)
  unfolding e_shift_pop
  e_shift_pop-Safe = search (instruction, e_shift-Safe) depth 15
