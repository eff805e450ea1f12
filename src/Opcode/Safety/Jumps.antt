-- ===== src/Opcode/Safety/Jumps.antt =====
-- The instructions of Opcode/Jumps keep the invariant of the machine, by the rules of Machine/Safe/Rules.
use mesa_emulator_unix.Common.{ℕ}
use mesa_emulator_unix.Machine.Safe.{Safe}
use mesa_emulator_unix.Machine.Safe.Rules.{instruction}
use mesa_emulator_unix.Opcode.Jumps.{
  e_catch, e_j, e_jue, e_jeb, e_june, e_jne, e_jl, e_jge, e_jg, e_jle, e_jul, e_juge, e_jug, e_jule,
  e_jz, e_jnz, e_jde, e_jdne, e_jib, e_jiw,
}

module _ {size n : ℕ} where
  pub e_catch-Safe : (arg : ℕ) → Safe size n (e_catch arg)
  unfolding e_catch
  e_catch-Safe arg = search (instruction) depth 15

  pub e_j-Safe : (arg : ℕ) → Safe size n (e_j arg)
  unfolding e_j
  e_j-Safe arg = search (instruction) depth 15

  pub e_jue-Safe : (arg0 arg1 : ℕ) → Safe size n (e_jue arg0 arg1)
  unfolding e_jue
  e_jue-Safe arg0 arg1 = search (instruction) depth 15

  pub e_jeb-Safe : (arg : ℕ) → Safe size n (e_jeb arg)
  unfolding e_jeb
  e_jeb-Safe arg = search (instruction) depth 15

  pub e_june-Safe : (arg0 arg1 : ℕ) → Safe size n (e_june arg0 arg1)
  unfolding e_june
  e_june-Safe arg0 arg1 = search (instruction) depth 15

  pub e_jne-Safe : (arg : ℕ) → Safe size n (e_jne arg)
  unfolding e_jne
  e_jne-Safe arg = search (instruction) depth 15

  pub e_jl-Safe : (arg : ℕ) → Safe size n (e_jl arg)
  unfolding e_jl
  e_jl-Safe arg = search (instruction) depth 15

  pub e_jge-Safe : (arg : ℕ) → Safe size n (e_jge arg)
  unfolding e_jge
  e_jge-Safe arg = search (instruction) depth 15

  pub e_jg-Safe : (arg : ℕ) → Safe size n (e_jg arg)
  unfolding e_jg
  e_jg-Safe arg = search (instruction) depth 15

  pub e_jle-Safe : (arg : ℕ) → Safe size n (e_jle arg)
  unfolding e_jle
  e_jle-Safe arg = search (instruction) depth 15

  pub e_jul-Safe : (arg : ℕ) → Safe size n (e_jul arg)
  unfolding e_jul
  e_jul-Safe arg = search (instruction) depth 15

  pub e_juge-Safe : (arg : ℕ) → Safe size n (e_juge arg)
  unfolding e_juge
  e_juge-Safe arg = search (instruction) depth 15

  pub e_jug-Safe : (arg : ℕ) → Safe size n (e_jug arg)
  unfolding e_jug
  e_jug-Safe arg = search (instruction) depth 15

  pub e_jule-Safe : (arg : ℕ) → Safe size n (e_jule arg)
  unfolding e_jule
  e_jule-Safe arg = search (instruction) depth 15

  pub e_jz-Safe : (arg : ℕ) → Safe size n (e_jz arg)
  unfolding e_jz
  e_jz-Safe arg = search (instruction) depth 15

  pub e_jnz-Safe : (arg : ℕ) → Safe size n (e_jnz arg)
  unfolding e_jnz
  e_jnz-Safe arg = search (instruction) depth 15

  pub e_jde-Safe : (arg : ℕ) → Safe size n (e_jde arg)
  unfolding e_jde
  e_jde-Safe arg = search (instruction) depth 15

  pub e_jdne-Safe : (arg : ℕ) → Safe size n (e_jdne arg)
  unfolding e_jdne
  e_jdne-Safe arg = search (instruction) depth 15

  pub e_jib-Safe : (arg : ℕ) → Safe size n (e_jib arg)
  unfolding e_jib
  e_jib-Safe arg = search (instruction) depth 15

  pub e_jiw-Safe : (arg : ℕ) → Safe size n (e_jiw arg)
  unfolding e_jiw
  e_jiw-Safe arg = search (instruction) depth 15
