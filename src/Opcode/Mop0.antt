-- ===== src/Opcode/Mop0.antt =====
-- src/opcode/OpcodeMop0xx.cpp: loads and stores of local and global frames, codes 000 to 075.
use mesa_emulator_unix.Common.{ℕ, ◌+◌, List, [], ◌∷◌, ◌++◌, leb, ◌==◌, if◌then◌else◌, u16, u32, u8}
use mesa_emulator_unix.Action.{
  ◌>>=◌, ◌>>◌, gets, modify, raise, raise_if, skip, error, trap, bounds_trap, break_trap,
}
use mesa_emulator_unix.Machine.{push, pop, sp_inc}
use mesa_emulator_unix.Machine.Access.{
  fetch, store, load, assign, fetch_mds, store_mds, fetch_mds_pair, store_mds_pair, fetch_pair,
}
use mesa_emulator_unix.Opcode.{Instruction, with_byte}

unfoldable pub e_noop : Instruction
e_noop = raise error

unfoldable pub e_ll : ℕ → Instruction
e_ll arg = do lf ← gets (λ s. s.lf); p ← fetch_mds (lf + arg); value ← load p; push value

unfoldable pub e_lld : ℕ → Instruction
e_lld arg = do
  lf ← gets (λ s. s.lf)
  (p0, p1) ← fetch_mds_pair (u16 (lf + arg))
  low ← load p0
  push low
  high ← load p1
  push high

unfoldable pub e_sl : ℕ → Instruction
e_sl arg = do lf ← gets (λ s. s.lf); p ← store_mds (lf + arg); value ← pop; assign p value

unfoldable pub e_sld : ℕ → Instruction
e_sld arg = do
  lf ← gets (λ s. s.lf)
  (p0, p1) ← store_mds_pair (u16 (lf + arg))
  high ← pop
  assign p1 high
  low ← pop
  assign p0 low

unfoldable pub e_pl : ℕ → Instruction
e_pl arg = do lf ← gets (λ s. s.lf); p ← store_mds (lf + arg); value ← pop; assign p value; sp_inc

unfoldable pub e_pld : ℕ → Instruction
e_pld arg = do
  lf ← gets (λ s. s.lf)
  (p0, p1) ← store_mds_pair (u16 (lf + arg))
  high ← pop
  assign p1 high
  low ← pop
  assign p0 low
  sp_inc
  sp_inc

unfoldable pub e_lg : ℕ → Instruction
e_lg arg = do gf ← gets (λ s. s.gf); p ← fetch (gf + arg); value ← load p; push value

unfoldable pub e_lgd : ℕ → Instruction
e_lgd arg = do
  gf ← gets (λ s. s.gf)
  (p0, p1) ← fetch_pair (u32 (gf + arg))
  low ← load p0
  push low
  high ← load p1
  push high

unfoldable pub e_sg : ℕ → Instruction
e_sg arg = do gf ← gets (λ s. s.gf); p ← store (gf + arg); value ← pop; assign p value

unfoldable pub e_bndck : Instruction
e_bndck = do
  range ← pop
  index ← pop
  sp_inc
  (if leb range index then raise (trap bounds_trap) else skip)

-- `dispatch` is the interpreter's `Dispatch`, which may run this instruction again.
unfoldable pub e_brk : (ℕ → Instruction) → Instruction
e_brk dispatch = do
  byte ← gets (λ s. s.break_byte)
  raise_if (byte == 0) (trap break_trap)
  dispatch (u8 byte)
  modify (λ s. record s { break_byte = 0 })

-- The instructions of each kind, in the order of their codes.
unfoldable pub ll_codes : List Instruction
ll_codes =
    (e_ll 0
      ∷ e_ll 1
      ∷ e_ll 2
      ∷ e_ll 3
      ∷ e_ll 4
      ∷ e_ll 5
      ∷ e_ll 6
      ∷ e_ll 7
      ∷ e_ll 8
      ∷ e_ll 9
      ∷ e_ll 10
      ∷ e_ll 11
      ∷ with_byte e_ll
      ∷ [])

unfoldable pub lld_codes : List Instruction
lld_codes =
    (e_lld 0
      ∷ e_lld 1
      ∷ e_lld 2
      ∷ e_lld 3
      ∷ e_lld 4
      ∷ e_lld 5
      ∷ e_lld 6
      ∷ e_lld 7
      ∷ e_lld 8
      ∷ e_lld 10
      ∷ with_byte e_lld
      ∷ [])

unfoldable pub sl_codes : List Instruction
sl_codes =
    (e_sl 0
      ∷ e_sl 1
      ∷ e_sl 2
      ∷ e_sl 3
      ∷ e_sl 4
      ∷ e_sl 5
      ∷ e_sl 6
      ∷ e_sl 7
      ∷ e_sl 8
      ∷ e_sl 9
      ∷ e_sl 10
      ∷ with_byte e_sl
      ∷ [])

unfoldable pub sld_codes : List Instruction
sld_codes = (e_sld 0 ∷ e_sld 1 ∷ e_sld 2 ∷ e_sld 3 ∷ e_sld 4 ∷ e_sld 5 ∷ e_sld 6 ∷ e_sld 8 ∷ [])

unfoldable pub pl_codes : List Instruction
pl_codes = (e_pl 0 ∷ e_pl 1 ∷ e_pl 2 ∷ e_pl 3 ∷ with_byte e_pl ∷ [])

unfoldable pub pld_codes : List Instruction
pld_codes = (e_pld 0 ∷ with_byte e_pld ∷ [])

unfoldable pub lg_codes : List Instruction
lg_codes = (e_lg 0 ∷ e_lg 1 ∷ e_lg 2 ∷ with_byte e_lg ∷ [])

unfoldable pub lgd_codes : List Instruction
lgd_codes = (e_lgd 0 ∷ e_lgd 2 ∷ with_byte e_lgd ∷ [])

unfoldable pub mop0_table : List Instruction
mop0_table =
    (e_noop ∷ [])
    ++ ll_codes
    ++ lld_codes
    ++ sl_codes
    ++ sld_codes
    ++ pl_codes
    ++ pld_codes
    ++ lg_codes
    ++ lgd_codes
    ++ (with_byte e_sg ∷ e_bndck ∷ [])
