-- ===== src/Opcode/Writes.antt =====
-- src/opcode/OpcodeMop1xx.cpp: stores through pointers, codes 0111 to 0122 and others.
use mesa_emulator_unix.Common.{ℕ, ◌+◌, u16, u32}
use mesa_emulator_unix.Action.{◌>>=◌, ◌>>◌, gets}
use mesa_emulator_unix.Types.{low_byte}
use mesa_emulator_unix.Machine.{pop, pop_long, sp_inc}
use mesa_emulator_unix.Machine.Access.{
  store, load, assign, lengthen_pointer, fetch_mds, store_mds, store_mds_pair, store_pair,
  read_dbl_mds, store_byte,
}
use mesa_emulator_unix.Opcode.{Instruction}

unfoldable pub e_w : ℕ → Instruction
e_w arg = do ptr ← pop; p ← store_mds (ptr + arg); value ← pop; assign p value

unfoldable pub e_ps : ℕ → Instruction
e_ps arg = do u ← pop; ptr ← pop; p ← store_mds (ptr + arg); assign p u; sp_inc

unfoldable pub e_wl : ℕ → Instruction
e_wl arg = do ptr ← pop_long; p ← store (ptr + arg); value ← pop; assign p value

unfoldable pub e_psl : ℕ → Instruction
e_psl arg = do u ← pop; ptr ← pop_long; p ← store (ptr + arg); assign p u; sp_inc; sp_inc

unfoldable pub e_wd : ℕ → Instruction
e_wd arg = do
  ptr ← pop
  (p0, p1) ← store_mds_pair (u16 (ptr + arg))
  high ← pop
  assign p1 high
  low ← pop
  assign p0 low

unfoldable pub e_psd : ℕ → Instruction
e_psd arg = do
  v ← pop
  u ← pop
  ptr ← pop
  (p0, p1) ← store_mds_pair (u16 (ptr + arg))
  assign p1 v
  assign p0 u
  sp_inc

unfoldable pub e_wdl : ℕ → Instruction
e_wdl arg = do
  ptr ← pop_long
  (p0, p1) ← store_pair (u32 (ptr + arg))
  high ← pop
  assign p1 high
  low ← pop
  assign p0 low

unfoldable pub e_psdl : ℕ → Instruction
e_psdl arg = do
  v ← pop
  u ← pop
  ptr ← pop_long
  (p0, p1) ← store_pair (u32 (ptr + arg))
  assign p1 v
  assign p0 u
  sp_inc
  sp_inc

unfoldable pub e_wli : ℕ → ℕ → Instruction
e_wli arg0 arg1 = do
  lf ← gets (λ s. s.lf)
  q ← fetch_mds (lf + arg0)
  ptr ← load q
  p ← store_mds (ptr + arg1)
  value ← pop
  assign p value

unfoldable pub e_wlil : ℕ → ℕ → Instruction
e_wlil arg0 arg1 = do
  lf ← gets (λ s. s.lf)
  ptr ← read_dbl_mds (lf + arg0)
  p ← store (ptr + arg1)
  value ← pop
  assign p value

unfoldable pub e_wldil : ℕ → ℕ → Instruction
e_wldil arg0 arg1 = do
  lf ← gets (λ s. s.lf)
  ptr ← read_dbl_mds (lf + arg0)
  (p0, p1) ← store_pair (u32 (ptr + arg1))
  high ← pop
  assign p1 high
  low ← pop
  assign p0 low

unfoldable pub e_ws : ℕ → Instruction
e_ws arg = do
  index ← pop
  short ← pop
  ptr ← lengthen_pointer short
  data_word ← pop
  store_byte ptr (arg + index) (low_byte data_word)

unfoldable pub e_wls : ℕ → Instruction
e_wls arg = do
  index ← pop
  ptr ← pop_long
  data_word ← pop
  store_byte ptr (arg + index) (low_byte data_word)
