-- ===== src/Opcode/Safety/Reads.antt =====
-- The instructions of Opcode/Reads keep the invariant of the machine, by the rules of Machine/Safe/Rules.
use mesa_emulator_unix.Common.{ℕ}
use mesa_emulator_unix.Machine.Safe.{Safe}
use mesa_emulator_unix.Machine.Safe.Rules.{instruction}
use mesa_emulator_unix.Opcode.Reads.{
  e_r, e_rl, e_rd, e_rdl, e_rli, e_rlil, e_rldi, e_rldil, e_rgi, e_rgil, e_rs, e_rls,
}

module _ {size n : ℕ} where
  pub e_r-Safe : (arg : ℕ) → Safe size n (e_r arg)
  unfolding e_r
  e_r-Safe arg = search (instruction) depth 15

  pub e_rl-Safe : (arg : ℕ) → Safe size n (e_rl arg)
  unfolding e_rl
  e_rl-Safe arg = search (instruction) depth 15

  pub e_rd-Safe : (arg : ℕ) → Safe size n (e_rd arg)
  unfolding e_rd
  e_rd-Safe arg = search (instruction) depth 15

  pub e_rdl-Safe : (arg : ℕ) → Safe size n (e_rdl arg)
  unfolding e_rdl
  e_rdl-Safe arg = search (instruction) depth 15

  pub e_rli-Safe : (arg0 arg1 : ℕ) → Safe size n (e_rli arg0 arg1)
  unfolding e_rli
  e_rli-Safe arg0 arg1 = search (instruction) depth 15

  pub e_rlil-Safe : (arg0 arg1 : ℕ) → Safe size n (e_rlil arg0 arg1)
  unfolding e_rlil
  e_rlil-Safe arg0 arg1 = search (instruction) depth 15

  pub e_rldi-Safe : (arg0 arg1 : ℕ) → Safe size n (e_rldi arg0 arg1)
  unfolding e_rldi
  e_rldi-Safe arg0 arg1 = search (instruction) depth 15

  pub e_rldil-Safe : (arg0 arg1 : ℕ) → Safe size n (e_rldil arg0 arg1)
  unfolding e_rldil
  e_rldil-Safe arg0 arg1 = search (instruction) depth 15

  pub e_rgi-Safe : (arg0 arg1 : ℕ) → Safe size n (e_rgi arg0 arg1)
  unfolding e_rgi
  e_rgi-Safe arg0 arg1 = search (instruction) depth 15

  pub e_rgil-Safe : (arg0 arg1 : ℕ) → Safe size n (e_rgil arg0 arg1)
  unfolding e_rgil
  e_rgil-Safe arg0 arg1 = search (instruction) depth 15

  pub e_rs-Safe : (arg : ℕ) → Safe size n (e_rs arg)
  unfolding e_rs
  e_rs-Safe arg = search (instruction) depth 15

  pub e_rls-Safe : (arg : ℕ) → Safe size n (e_rls arg)
  unfolding e_rls
  e_rls-Safe arg = search (instruction) depth 15
