-- ===== src/Opcode/Safety/Arith.antt =====
-- The instructions of Opcode/Arith keep the invariant of the machine, by the rules of Machine/Safe/Rules.
use mesa_emulator_unix.Common.{ℕ}
use mesa_emulator_unix.Machine.Safe.{Safe}
use mesa_emulator_unix.Machine.Safe.Rules.{instruction}
use mesa_emulator_unix.Opcode.Arith.{
  e_rec2, e_dis2, e_exch, e_dexch, e_dup, e_ddup, e_exdis, e_neg, e_inc, e_dec, e_dinc, e_dbl,
  e_ddbl, e_trpl, e_and, e_ior, e_adds, e_add, e_sub, e_dadd, e_dsub, e_adc, e_acd, e_al0i, e_mul,
  e_dcmp, e_udcmp,
}

module _ {size n : ℕ} where
  pub e_rec2-Safe : Safe size n (e_rec2)
  unfolding e_rec2
  e_rec2-Safe = search (instruction) depth 15

  pub e_dis2-Safe : Safe size n (e_dis2)
  unfolding e_dis2
  e_dis2-Safe = search (instruction) depth 15

  pub e_exch-Safe : Safe size n (e_exch)
  unfolding e_exch
  e_exch-Safe = search (instruction) depth 15

  pub e_dexch-Safe : Safe size n (e_dexch)
  unfolding e_dexch
  e_dexch-Safe = search (instruction) depth 15

  pub e_dup-Safe : Safe size n (e_dup)
  unfolding e_dup
  e_dup-Safe = search (instruction) depth 15

  pub e_ddup-Safe : Safe size n (e_ddup)
  unfolding e_ddup
  e_ddup-Safe = search (instruction) depth 15

  pub e_exdis-Safe : Safe size n (e_exdis)
  unfolding e_exdis
  e_exdis-Safe = search (instruction) depth 15

  pub e_neg-Safe : Safe size n (e_neg)
  unfolding e_neg
  e_neg-Safe = search (instruction) depth 15

  pub e_inc-Safe : Safe size n (e_inc)
  unfolding e_inc
  e_inc-Safe = search (instruction) depth 15

  pub e_dec-Safe : Safe size n (e_dec)
  unfolding e_dec
  e_dec-Safe = search (instruction) depth 15

  pub e_dinc-Safe : Safe size n (e_dinc)
  unfolding e_dinc
  e_dinc-Safe = search (instruction) depth 15

  pub e_dbl-Safe : Safe size n (e_dbl)
  unfolding e_dbl
  e_dbl-Safe = search (instruction) depth 15

  pub e_ddbl-Safe : Safe size n (e_ddbl)
  unfolding e_ddbl
  e_ddbl-Safe = search (instruction) depth 15

  pub e_trpl-Safe : Safe size n (e_trpl)
  unfolding e_trpl
  e_trpl-Safe = search (instruction) depth 15

  pub e_and-Safe : Safe size n (e_and)
  unfolding e_and
  e_and-Safe = search (instruction) depth 15

  pub e_ior-Safe : Safe size n (e_ior)
  unfolding e_ior
  e_ior-Safe = search (instruction) depth 15

  pub e_adds-Safe : (arg : ℕ) → Safe size n (e_adds arg)
  unfolding e_adds
  e_adds-Safe arg = search (instruction) depth 15

  pub e_add-Safe : Safe size n (e_add)
  unfolding e_add
  e_add-Safe = search (instruction) depth 15

  pub e_sub-Safe : Safe size n (e_sub)
  unfolding e_sub
  e_sub-Safe = search (instruction) depth 15

  pub e_dadd-Safe : Safe size n (e_dadd)
  unfolding e_dadd
  e_dadd-Safe = search (instruction) depth 15

  pub e_dsub-Safe : Safe size n (e_dsub)
  unfolding e_dsub
  e_dsub-Safe = search (instruction) depth 15

  pub e_adc-Safe : Safe size n (e_adc)
  unfolding e_adc
  e_adc-Safe = search (instruction) depth 15

  pub e_acd-Safe : Safe size n (e_acd)
  unfolding e_acd
  e_acd-Safe = search (instruction) depth 15

  pub e_al0i-Safe : (arg : ℕ) → Safe size n (e_al0i arg)
  unfolding e_al0i
  e_al0i-Safe arg = search (instruction) depth 15

  pub e_mul-Safe : Safe size n (e_mul)
  unfolding e_mul
  e_mul-Safe = search (instruction) depth 15

  pub e_dcmp-Safe : Safe size n (e_dcmp)
  unfolding e_dcmp
  e_dcmp-Safe = search (instruction) depth 15

  pub e_udcmp-Safe : Safe size n (e_udcmp)
  unfolding e_udcmp
  e_udcmp-Safe = search (instruction) depth 15
