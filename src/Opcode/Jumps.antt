-- ===== src/Opcode/Jumps.antt =====
-- src/opcode/OpcodeMop2xx.cpp: jumps, codes 0200 to 0241. A displacement, an INT16, is its 16-bit pattern.
use mesa_emulator_unix.Common.{ℕ, ◌+◌, ◌/◌, ◌%◌, not, leb, ltb, ◌==◌, if◌then◌else◌}
use mesa_emulator_unix.Common.Int.{int16, ltb_ℤ}
use mesa_emulator_unix.Action.{◌>>=◌, gets, skip}
use mesa_emulator_unix.Types.{byte_pair}
use mesa_emulator_unix.Machine.{pop, pop_long, set_pc}
use mesa_emulator_unix.Machine.Access.{read_code}
use mesa_emulator_unix.Opcode.{Instruction}

unfoldable pub e_catch : ℕ → Instruction
e_catch arg = do skip

unfoldable pub e_j : ℕ → Instruction
e_j arg = do saved ← gets (λ s. s.saved_pc); set_pc (saved + arg)

unfoldable pub e_jue : ℕ → ℕ → Instruction
e_jue arg0 arg1 = do
  value ← pop
  saved ← gets (λ s. s.saved_pc)
  (if value == arg0 then set_pc (saved + arg1) else skip)

unfoldable pub e_jeb : ℕ → Instruction
e_jeb arg = do
  v ← pop
  u ← pop
  saved ← gets (λ s. s.saved_pc)
  (if u == v then set_pc (saved + arg) else skip)

unfoldable pub e_june : ℕ → ℕ → Instruction
e_june arg0 arg1 = do
  value ← pop
  saved ← gets (λ s. s.saved_pc)
  (if not (value == arg0) then set_pc (saved + arg1) else skip)

unfoldable pub e_jne : ℕ → Instruction
e_jne arg = do
  v ← pop
  u ← pop
  saved ← gets (λ s. s.saved_pc)
  (if not (u == v) then set_pc (saved + arg) else skip)

unfoldable pub e_jl : ℕ → Instruction
e_jl arg = do
  k ← pop
  j ← pop
  saved ← gets (λ s. s.saved_pc)
  (if ltb_ℤ (int16 j) (int16 k) then set_pc (saved + arg) else skip)

unfoldable pub e_jge : ℕ → Instruction
e_jge arg = do
  k ← pop
  j ← pop
  saved ← gets (λ s. s.saved_pc)
  (if not (ltb_ℤ (int16 j) (int16 k)) then set_pc (saved + arg) else skip)

unfoldable pub e_jg : ℕ → Instruction
e_jg arg = do
  k ← pop
  j ← pop
  saved ← gets (λ s. s.saved_pc)
  (if ltb_ℤ (int16 k) (int16 j) then set_pc (saved + arg) else skip)

unfoldable pub e_jle : ℕ → Instruction
e_jle arg = do
  k ← pop
  j ← pop
  saved ← gets (λ s. s.saved_pc)
  (if not (ltb_ℤ (int16 k) (int16 j)) then set_pc (saved + arg) else skip)

unfoldable pub e_jul : ℕ → Instruction
e_jul arg = do
  v ← pop
  u ← pop
  saved ← gets (λ s. s.saved_pc)
  (if ltb u v then set_pc (saved + arg) else skip)

unfoldable pub e_juge : ℕ → Instruction
e_juge arg = do
  v ← pop
  u ← pop
  saved ← gets (λ s. s.saved_pc)
  (if leb v u then set_pc (saved + arg) else skip)

unfoldable pub e_jug : ℕ → Instruction
e_jug arg = do
  v ← pop
  u ← pop
  saved ← gets (λ s. s.saved_pc)
  (if ltb v u then set_pc (saved + arg) else skip)

unfoldable pub e_jule : ℕ → Instruction
e_jule arg = do
  v ← pop
  u ← pop
  saved ← gets (λ s. s.saved_pc)
  (if leb u v then set_pc (saved + arg) else skip)

unfoldable pub e_jz : ℕ → Instruction
e_jz arg = do
  u ← pop
  saved ← gets (λ s. s.saved_pc)
  (if u == 0 then set_pc (saved + arg) else skip)

unfoldable pub e_jnz : ℕ → Instruction
e_jnz arg = do
  u ← pop
  saved ← gets (λ s. s.saved_pc)
  (if not (u == 0) then set_pc (saved + arg) else skip)

unfoldable pub e_jde : ℕ → Instruction
e_jde arg = do
  v ← pop_long
  u ← pop_long
  saved ← gets (λ s. s.saved_pc)
  (if u == v then set_pc (saved + arg) else skip)

unfoldable pub e_jdne : ℕ → Instruction
e_jdne arg = do
  v ← pop_long
  u ← pop_long
  saved ← gets (λ s. s.saved_pc)
  (if not (u == v) then set_pc (saved + arg) else skip)

unfoldable pub e_jib : ℕ → Instruction
e_jib arg = do
  limit ← pop
  index ← pop
  saved ← gets (λ s. s.saved_pc)
  (if ltb index limit
      then (do
        disp ← read_code (arg + index / 2)
        set_pc (saved + (if index % 2 == 0 then (byte_pair disp).left else (byte_pair disp).right)))
      else skip)

unfoldable pub e_jiw : ℕ → Instruction
e_jiw arg = do
  limit ← pop
  index ← pop
  saved ← gets (λ s. s.saved_pc)
  (if ltb index limit then (do disp ← read_code (arg + index); set_pc (saved + disp)) else skip)
