-- ===== src/Opcode/Safety/FieldAccess.antt =====
-- The instructions of Opcode/FieldAccess keep the invariant of the machine, by the rules of Machine/Safe/Rules.
use mesa_emulator_unix.Common.{ℕ}
use mesa_emulator_unix.Machine.Safe.{Safe}
use mesa_emulator_unix.Machine.Safe.Rules.{instruction}
use mesa_emulator_unix.Opcode.Safety.{Safe-or_error}
use mesa_emulator_unix.Opcode.FieldAccess.{
  e_rf, e_rlf, e_rlipf, e_rlilpf, e_wf, e_psf, e_wsf, e_wlf, e_pslf, e_rlfs, e_wlfs,
}

module _ {size n : ℕ} where
  pub e_rf-Safe : (arg0 arg1 : ℕ) → Safe size n (e_rf arg0 arg1)
  unfolding e_rf
  e_rf-Safe arg0 arg1 = search (instruction, Safe-or_error) depth 15

  pub e_rlf-Safe : (offset spec : ℕ) → Safe size n (e_rlf offset spec)
  unfolding e_rlf
  e_rlf-Safe offset spec = search (instruction, Safe-or_error) depth 15

  pub e_rlipf-Safe : (arg0 arg1 : ℕ) → Safe size n (e_rlipf arg0 arg1)
  unfolding e_rlipf
  e_rlipf-Safe arg0 arg1 = search (instruction, Safe-or_error) depth 15

  pub e_rlilpf-Safe : (arg0 arg1 : ℕ) → Safe size n (e_rlilpf arg0 arg1)
  unfolding e_rlilpf
  e_rlilpf-Safe arg0 arg1 = search (instruction, Safe-or_error) depth 15

  pub e_wf-Safe : (arg0 arg1 : ℕ) → Safe size n (e_wf arg0 arg1)
  unfolding e_wf
  e_wf-Safe arg0 arg1 = search (instruction, Safe-or_error) depth 15

  pub e_psf-Safe : (arg0 arg1 : ℕ) → Safe size n (e_psf arg0 arg1)
  unfolding e_psf
  e_psf-Safe arg0 arg1 = search (instruction, Safe-or_error) depth 15

  pub e_wsf-Safe : (arg0 arg1 : ℕ) → Safe size n (e_wsf arg0 arg1)
  unfolding e_wsf
  e_wsf-Safe arg0 arg1 = search (instruction, Safe-or_error) depth 15

  pub e_wlf-Safe : (offset spec : ℕ) → Safe size n (e_wlf offset spec)
  unfolding e_wlf
  e_wlf-Safe offset spec = search (instruction, Safe-or_error) depth 15

  pub e_pslf-Safe : (offset spec : ℕ) → Safe size n (e_pslf offset spec)
  unfolding e_pslf
  e_pslf-Safe offset spec = search (instruction, Safe-or_error) depth 15

module _ {size n : ℕ} where
  pub e_rlfs-Safe : Safe size n (e_rlfs)
  unfolding e_rlfs
  e_rlfs-Safe = search (instruction, e_rlf-Safe) depth 15

module _ {size n : ℕ} where
  pub e_wlfs-Safe : Safe size n (e_wlfs)
  unfolding e_wlfs
  e_wlfs-Safe = search (instruction, e_wlf-Safe) depth 15
