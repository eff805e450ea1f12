-- ===== src/Opcode/Safety/Writes.antt =====
-- The instructions of Opcode/Writes keep the invariant of the machine, by the rules of Machine/Safe/Rules.
use mesa_emulator_unix.Common.{ℕ}
use mesa_emulator_unix.Machine.Safe.{Safe}
use mesa_emulator_unix.Machine.Safe.Rules.{instruction}
use mesa_emulator_unix.Opcode.Writes.{
  e_w, e_ps, e_wl, e_psl, e_wd, e_psd, e_wdl, e_psdl, e_wli, e_wlil, e_wldil, e_ws, e_wls,
}

module _ {size n : ℕ} where
  pub e_w-Safe : (arg : ℕ) → Safe size n (e_w arg)
  unfolding e_w
  e_w-Safe arg = search (instruction) depth 15

  pub e_ps-Safe : (arg : ℕ) → Safe size n (e_ps arg)
  unfolding e_ps
  e_ps-Safe arg = search (instruction) depth 15

  pub e_wl-Safe : (arg : ℕ) → Safe size n (e_wl arg)
  unfolding e_wl
  e_wl-Safe arg = search (instruction) depth 15

  pub e_psl-Safe : (arg : ℕ) → Safe size n (e_psl arg)
  unfolding e_psl
  e_psl-Safe arg = search (instruction) depth 15

  pub e_wd-Safe : (arg : ℕ) → Safe size n (e_wd arg)
  unfolding e_wd
  e_wd-Safe arg = search (instruction) depth 15

  pub e_psd-Safe : (arg : ℕ) → Safe size n (e_psd arg)
  unfolding e_psd
  e_psd-Safe arg = search (instruction) depth 15

  pub e_wdl-Safe : (arg : ℕ) → Safe size n (e_wdl arg)
  unfolding e_wdl
  e_wdl-Safe arg = search (instruction) depth 15

  pub e_psdl-Safe : (arg : ℕ) → Safe size n (e_psdl arg)
  unfolding e_psdl
  e_psdl-Safe arg = search (instruction) depth 15

  pub e_wli-Safe : (arg0 arg1 : ℕ) → Safe size n (e_wli arg0 arg1)
  unfolding e_wli
  e_wli-Safe arg0 arg1 = search (instruction) depth 15

  pub e_wlil-Safe : (arg0 arg1 : ℕ) → Safe size n (e_wlil arg0 arg1)
  unfolding e_wlil
  e_wlil-Safe arg0 arg1 = search (instruction) depth 15

  pub e_wldil-Safe : (arg0 arg1 : ℕ) → Safe size n (e_wldil arg0 arg1)
  unfolding e_wldil
  e_wldil-Safe arg0 arg1 = search (instruction) depth 15

  pub e_ws-Safe : (arg : ℕ) → Safe size n (e_ws arg)
  unfolding e_ws
  e_ws-Safe arg = search (instruction) depth 15

  pub e_wls-Safe : (arg : ℕ) → Safe size n (e_wls arg)
  unfolding e_wls
  e_wls-Safe arg = search (instruction) depth 15
