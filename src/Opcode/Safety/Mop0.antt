-- ===== src/Opcode/Safety/Mop0.antt =====
-- The instructions of Opcode/Mop0 keep the invariant of the machine, by the rules of Machine/Safe/Rules.
use mesa_emulator_unix.Common.{ℕ}
use mesa_emulator_unix.Machine.Safe.{Safe}
use mesa_emulator_unix.Machine.Safe.Rules.{instruction}
use mesa_emulator_unix.Opcode.Mop0.{
  e_noop, e_ll, e_lld, e_sl, e_sld, e_pl, e_pld, e_lg, e_lgd, e_sg, e_bndck,
}

module _ {size n : ℕ} where
  pub e_noop-Safe : Safe size n (e_noop)
  unfolding e_noop
  e_noop-Safe = search (instruction) depth 15

  pub e_ll-Safe : (arg : ℕ) → Safe size n (e_ll arg)
  unfolding e_ll
  e_ll-Safe arg = search (instruction) depth 15

  pub e_lld-Safe : (arg : ℕ) → Safe size n (e_lld arg)
  unfolding e_lld
  e_lld-Safe arg = search (instruction) depth 15

  pub e_sl-Safe : (arg : ℕ) → Safe size n (e_sl arg)
  unfolding e_sl
  e_sl-Safe arg = search (instruction) depth 15

  pub e_sld-Safe : (arg : ℕ) → Safe size n (e_sld arg)
  unfolding e_sld
  e_sld-Safe arg = search (instruction) depth 15

  pub e_pl-Safe : (arg : ℕ) → Safe size n (e_pl arg)
  unfolding e_pl
  e_pl-Safe arg = search (instruction) depth 15

  pub e_pld-Safe : (arg : ℕ) → Safe size n (e_pld arg)
  unfolding e_pld
  e_pld-Safe arg = search (instruction) depth 15

  pub e_lg-Safe : (arg : ℕ) → Safe size n (e_lg arg)
  unfolding e_lg
  e_lg-Safe arg = search (instruction) depth 15

  pub e_lgd-Safe : (arg : ℕ) → Safe size n (e_lgd arg)
  unfolding e_lgd
  e_lgd-Safe arg = search (instruction) depth 15

  pub e_sg-Safe : (arg : ℕ) → Safe size n (e_sg arg)
  unfolding e_sg
  e_sg-Safe arg = search (instruction) depth 15

  pub e_bndck-Safe : Safe size n (e_bndck)
  unfolding e_bndck
  e_bndck-Safe = search (instruction) depth 15
