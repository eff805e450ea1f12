-- ===== src/Opcode/Control/Calls.antt =====
-- The calls and returns of src/opcode/Opcode_control.cpp: EFC, LFC, SFC, RET, KFCB, and the port and
-- transfer instructions PI, PO, POR, XE and XF.
use mesa_emulator_unix.Common.{
  ℕ, ◌+◌, ◌*◌, ◌/◌, ◌%◌, Bool, true, false, ◌==◌, if◌then◌else◌, u16, List, [], ◌∷◌, bit_or,
}
use mesa_emulator_unix.Action.{
  Action, Outcome, Stop, ok, stop, error, fault, ◌>>=◌, ◌>>◌, gets, raise_if, skip, unbound_trap,
}
use mesa_emulator_unix.Types.{byte_pair}
use mesa_emulator_unix.Machine.{Machine, pop, pop_long, recover, set_pc}
use mesa_emulator_unix.Machine.Access.{
  read_dbl_mds, read_code, get_code_byte, get_code_word, fetch_link,
}
use mesa_emulator_unix.Machine.Registers.{set_lf, enable_interrupts}
use mesa_emulator_unix.Machine.Words.{read_mds, write_mds}
use mesa_emulator_unix.Opcode.{Instruction, with_byte}
use mesa_emulator_unix.Opcode.Control.{
  lo_offset, lo_returnlink, lo_globallink, lo_pc, sd_item, call, local_call, return, port, xfer,
}
use mesa_emulator_unix.Opcode.Control.Frames.{alloc}
use mesa_emulator_unix.Opcode.Control.Xfer as Xfer
use mesa_emulator_unix.Opcode.Control.Xfer.{check_for_xfer_traps}

-- `*StoreMds(LO_OFFSET(LF, pc)) = PC;`
unfoldable pub save_pc : Instruction
save_pc = do lf ← gets (λ s. s.lf); pc ← gets (λ s. s.pc); write_mds (lo_offset lf lo_pc) pc

unfoldable pub call_link : ℕ → Instruction
call_link dst = do save_pc; lf ← gets (λ s. s.lf); Xfer.xfer dst lf call false

unfoldable pub e_efc : ℕ → Instruction
e_efc arg = do link ← fetch_link arg; call_link link

unfoldable pub e_lfc : Instruction
e_lfc = do
  pc ← get_code_word
  save_pc
  raise_if (pc == 0) (Stop.trap (unbound_trap 0))
  word ← read_code (pc / 2)
  lf ← alloc (if pc % 2 == 0 then (byte_pair word).left else (byte_pair word).right)
  gfi ← gets (λ s. s.gfi)
  write_mds (lo_offset lf lo_globallink) gfi
  old ← gets (λ s. s.lf)
  write_mds (lo_offset lf lo_returnlink) old
  set_lf lf
  set_pc (pc + 1)
  check_for_xfer_traps (u16 (pc + 1 + 65535) * 65536 + bit_or gfi 1) local_call

unfoldable pub e_sfc : Instruction
e_sfc = do link ← pop_long; call_link link

unfoldable pub e_ret : Instruction
e_ret = do
  lf ← gets (λ s. s.lf)
  dst ← read_mds (lo_offset lf lo_returnlink)
  Xfer.xfer dst 0 return true

unfoldable pub e_kfcb : Instruction
e_kfcb = do alpha ← get_code_byte; link ← read_dbl_mds (sd_item alpha); call_link link

-- The fields `inport` and `outport` of a Port are its words 0 and 2.
unfoldable pub e_pi : Instruction
e_pi = do
  recover
  recover
  src ← pop
  port_link ← pop
  write_mds port_link 0
  (if src == 0 then skip else write_mds (port_link + 2) src)

-- PO and POR have one body.
unfoldable pub e_po : Instruction
e_po = do
  reserved ← pop
  port_link ← pop
  save_pc
  lf ← gets (λ s. s.lf)
  write_mds port_link lf
  dst ← read_dbl_mds (port_link + 2)
  Xfer.xfer dst port_link port false

-- TransferDescriptor: `src` is its word 0, `dst` its word 2.
unfoldable pub transfer_by : ℕ → Bool → Instruction
transfer_by ptr free_flag = do
  save_pc
  lf ← gets (λ s. s.lf)
  dst ← read_dbl_mds (lf + ptr + 2)
  src ← read_mds (lf + ptr)
  Xfer.xfer dst src xfer free_flag

-- `try { m } catch (Abort &) { ERROR(); }`: a trap or a fault within `m` ends in ERROR().
abbrev pub abort_is_error : {A : Type 0} → Outcome Machine A → Outcome Machine A
abort_is_error (ok a s) = ok a s
abort_is_error (stop (Stop.trap x) s) = stop error s
abort_is_error (stop (fault x) s) = stop error s
abort_is_error (stop c s) = stop c s

unfoldable pub no_abort : {A : Type 0} → Action Machine A → Action Machine A
no_abort m s = abort_is_error (m s)

unfoldable pub e_xe : Instruction
e_xe = no_abort (do ptr ← get_code_byte; transfer_by ptr false; enable_interrupts)

unfoldable pub e_xf : Instruction
e_xf = do ptr ← get_code_byte; transfer_by ptr true

-- EFC0 to EFC12 and EFCB, LFC, SFC, RET and KFCB, in the order of their codes.
unfoldable pub call_codes : List Instruction
call_codes =
    e_efc 0
    ∷ e_efc 1
    ∷ e_efc 2
    ∷ e_efc 3
    ∷ e_efc 4
    ∷ e_efc 5
    ∷ e_efc 6
    ∷ e_efc 7
    ∷ e_efc 8
    ∷ e_efc 9
    ∷ e_efc 10
    ∷ e_efc 11
    ∷ e_efc 12
    ∷ with_byte e_efc
    ∷ e_lfc
    ∷ e_sfc
    ∷ e_ret
    ∷ e_kfcb
    ∷ []
