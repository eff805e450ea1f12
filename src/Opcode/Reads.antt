-- ===== src/Opcode/Reads.antt =====
-- src/opcode/OpcodeMop1xx.cpp: loads through pointers, codes 0100 to 0110 and others.
use mesa_emulator_unix.Common.{ℕ, ◌+◌, u16, u32}
use mesa_emulator_unix.Action.{◌>>=◌, ◌>>◌, gets}
use mesa_emulator_unix.Machine.{push, pop, pop_long}
use mesa_emulator_unix.Machine.Access.{
  fetch, load, lengthen_pointer, fetch_mds, fetch_mds_pair, fetch_pair, read_dbl, read_dbl_mds,
  fetch_byte,
}
use mesa_emulator_unix.Opcode.{Instruction}

unfoldable pub e_r : ℕ → Instruction
e_r arg = do ptr ← pop; p ← fetch_mds (ptr + arg); value ← load p; push value

unfoldable pub e_rl : ℕ → Instruction
e_rl arg = do ptr ← pop_long; p ← fetch (ptr + arg); value ← load p; push value

unfoldable pub e_rd : ℕ → Instruction
e_rd arg = do
  ptr ← pop
  (p0, p1) ← fetch_mds_pair (u16 (ptr + arg))
  u ← load p0
  v ← load p1
  push u
  push v

unfoldable pub e_rdl : ℕ → Instruction
e_rdl arg = do
  ptr ← pop_long
  (p0, p1) ← fetch_pair (u32 (ptr + arg))
  u ← load p0
  v ← load p1
  push u
  push v

unfoldable pub e_rli : ℕ → ℕ → Instruction
e_rli arg0 arg1 = do
  lf ← gets (λ s. s.lf)
  q ← fetch_mds (lf + arg0)
  ptr ← load q
  p ← fetch_mds (ptr + arg1)
  value ← load p
  push value

unfoldable pub e_rlil : ℕ → ℕ → Instruction
e_rlil arg0 arg1 = do
  lf ← gets (λ s. s.lf)
  ptr ← read_dbl_mds (lf + arg0)
  p ← fetch (ptr + arg1)
  value ← load p
  push value

unfoldable pub e_rldi : ℕ → ℕ → Instruction
e_rldi arg0 arg1 = do
  lf ← gets (λ s. s.lf)
  q ← fetch_mds (lf + arg0)
  ptr ← load q
  (p0, p1) ← fetch_mds_pair (u16 (ptr + arg1))
  u ← load p0
  v ← load p1
  push u
  push v

unfoldable pub e_rldil : ℕ → ℕ → Instruction
e_rldil arg0 arg1 = do
  lf ← gets (λ s. s.lf)
  ptr ← read_dbl_mds (lf + arg0)
  (p0, p1) ← fetch_pair (u32 (ptr + arg1))
  u ← load p0
  v ← load p1
  push u
  push v

unfoldable pub e_rgi : ℕ → ℕ → Instruction
e_rgi arg0 arg1 = do
  gf ← gets (λ s. s.gf)
  p ← fetch (gf + arg0)
  ptr ← load p
  q ← fetch_mds (ptr + arg1)
  value ← load q
  push value

unfoldable pub e_rgil : ℕ → ℕ → Instruction
e_rgil arg0 arg1 = do
  gf ← gets (λ s. s.gf)
  ptr ← read_dbl (u32 (gf + arg0))
  p ← fetch (ptr + arg1)
  value ← load p
  push value

unfoldable pub e_rs : ℕ → Instruction
e_rs arg = do
  index ← pop
  short ← pop
  ptr ← lengthen_pointer short
  byte ← fetch_byte ptr (arg + index)
  push byte

unfoldable pub e_rls : ℕ → Instruction
e_rls arg = do index ← pop; ptr ← pop_long; byte ← fetch_byte ptr (arg + index); push byte
