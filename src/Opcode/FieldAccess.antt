-- ===== src/Opcode/FieldAccess.antt =====
-- src/opcode/OpcodeMop1xx.cpp: bit fields in memory, codes 0145 to 0164.
use mesa_emulator_unix.Common.{ℕ, ◌+◌}
use mesa_emulator_unix.Action.{◌>>=◌, ◌>>◌, gets}
use mesa_emulator_unix.Types.{nibble_pair, field_desc}
use mesa_emulator_unix.Types.Fields.{read_field, write_field}
use mesa_emulator_unix.Machine.{push, pop, pop_long, sp_inc}
use mesa_emulator_unix.Machine.Access.{
  fetch, store, load, assign, fetch_mds, store_mds, read_dbl_mds,
}
use mesa_emulator_unix.Opcode.{Instruction, or_error}

unfoldable pub e_rf : ℕ → ℕ → Instruction
e_rf arg0 arg1 = do
  ptr ← pop
  p ← fetch_mds (ptr + arg0)
  word ← load p
  value ← or_error (read_field word arg1)
  push value

unfoldable pub e_rlf : ℕ → ℕ → Instruction
e_rlf offset spec = do
  ptr ← pop_long
  p ← fetch (ptr + offset)
  word ← load p
  value ← or_error (read_field word spec)
  push value

unfoldable pub e_rlfs : Instruction
e_rlfs = do word ← pop; e_rlf (field_desc word).offset (field_desc word).field

unfoldable pub e_rlipf : ℕ → ℕ → Instruction
e_rlipf arg0 arg1 = do
  lf ← gets (λ s. s.lf)
  q ← fetch_mds (lf + (nibble_pair arg0).left)
  ptr ← load q
  p ← fetch_mds (ptr + (nibble_pair arg0).right)
  word ← load p
  value ← or_error (read_field word arg1)
  push value

unfoldable pub e_rlilpf : ℕ → ℕ → Instruction
e_rlilpf arg0 arg1 = do
  lf ← gets (λ s. s.lf)
  ptr ← read_dbl_mds (lf + (nibble_pair arg0).left)
  p ← fetch (ptr + (nibble_pair arg0).right)
  word ← load p
  value ← or_error (read_field word arg1)
  push value

unfoldable pub e_wf : ℕ → ℕ → Instruction
e_wf arg0 arg1 = do
  ptr ← pop
  value ← pop
  p ← store_mds (ptr + arg0)
  word ← load p
  updated ← or_error (write_field word arg1 value)
  assign p updated

unfoldable pub e_psf : ℕ → ℕ → Instruction
e_psf arg0 arg1 = do
  value ← pop
  ptr ← pop
  p ← store_mds (ptr + arg0)
  word ← load p
  updated ← or_error (write_field word arg1 value)
  assign p updated
  sp_inc

unfoldable pub e_wsf : ℕ → ℕ → Instruction
e_wsf arg0 arg1 = do
  value ← pop
  ptr ← pop
  p ← store_mds (ptr + arg0)
  word ← load p
  updated ← or_error (write_field word arg1 value)
  assign p updated

unfoldable pub e_wlf : ℕ → ℕ → Instruction
e_wlf offset spec = do
  ptr ← pop_long
  value ← pop
  p ← store (ptr + offset)
  word ← load p
  updated ← or_error (write_field word spec value)
  assign p updated

unfoldable pub e_pslf : ℕ → ℕ → Instruction
e_pslf offset spec = do
  value ← pop
  ptr ← pop_long
  p ← store (ptr + offset)
  word ← load p
  updated ← or_error (write_field word spec value)
  assign p updated
  sp_inc
  sp_inc

unfoldable pub e_wlfs : Instruction
e_wlfs = do word ← pop; e_wlf (field_desc word).offset (field_desc word).field
