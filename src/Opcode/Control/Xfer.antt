-- ===== src/Opcode/Control/Xfer.antt =====
-- XFER of src/opcode/Opcode_control.cpp, with CheckForXferTraps.
use mesa_emulator_unix.Common.{
  ℕ, zero, suc, ◌+◌, ◌*◌, ◌/◌, ◌%◌, Bool, true, false, not, ◌&&◌, ◌==◌, if◌then◌else◌, u16,
}
use mesa_emulator_unix.Action.{
  Action, Stop, ◌>>=◌, ◌>>◌, pure, gets, raise, raise_if, skip, error, diverges, code_trap,
  control_trap, unbound_trap, xfer_trap,
}
use mesa_emulator_unix.Types.{byte_pair}
use mesa_emulator_unix.Machine.{Machine, push, discard, set_pc}
use mesa_emulator_unix.Machine.Access.{read_dbl, read_dbl_mds, read_code, lengthen_pointer}
use mesa_emulator_unix.Machine.Registers.{
  set_lf, set_gf, set_cb, set_gfi, set_xts, disable_interrupt,
}
use mesa_emulator_unix.Machine.Words.{read, read_mds, write_mds}
use mesa_emulator_unix.Opcode.{Instruction}
use mesa_emulator_unix.Opcode.Control.{
  lo_offset, lo_returnlink, lo_globallink, lo_pc, go_word, gft_global_frame, gft_codebase, LinkType,
  frame, old_procedure, indirect, new_procedure, control_link_type, XferType, is_trap, xfer_code,
}
use mesa_emulator_unix.Opcode.Control.Frames.{alloc, free}

unfoldable pub check_for_xfer_traps : ℕ → XferType → Instruction
check_for_xfer_traps dst type = do
  xts ← gets (λ s. s.xts)
  (if xts % 2 == 1
      then (do
        gf ← gets (λ s. s.gf)
        word ← read (go_word gf)
        (if word / 2 % 2 == 1
            then (do set_xts (xts / 2); raise (Stop.trap (xfer_trap dst (xfer_code type))))
            else skip))
      else set_xts (xts / 2))

-- Where XFER goes on: the link behind the indirect ones, and whether there was one. An indirect link
-- is a POINTER, and a read changes none, so a walk over more than 65,536 of them never ends.
unfoldable pub follow : ℕ → XferType → ℕ → Bool → Action Machine (ℕ × Bool)
follow zero type dst push = raise diverges
follow (suc fuel) type dst push =
    if dst % 4 == 2
    then (if is_trap type
        then raise error
        else (do next ← read_dbl_mds (u16 dst); follow fuel type next true))
    else pure (dst, push)

abbrev pub links : ℕ
links = 65537

-- The frame and the PC of a procedure, behind the test of its code base: both kinds of descriptors.
unfoldable pub enter : ℕ → ℕ → ℕ → ℕ → Action Machine (ℕ × ℕ × ℕ)
enter gfi pc src dst = do
  base ← read_dbl (gft_codebase gfi)
  set_cb base
  raise_if (base % 2 == 1) (Stop.trap (code_trap gfi))
  raise_if (pc == 0) (Stop.trap (unbound_trap dst))
  word ← read_code (pc / 2)
  lf ← alloc (if pc % 2 == 0 then (byte_pair word).left else (byte_pair word).right)
  write_mds (lo_offset lf lo_globallink) gfi
  write_mds (lo_offset lf lo_returnlink) src
  pure (gfi, u16 (pc + 1), lf)

-- `& 0xfffc`
abbrev pub untag : ℕ → ℕ
untag u = u16 u / 4 * 4

unfoldable pub enter_old : ℕ → ℕ → ℕ → Action Machine (ℕ × ℕ × ℕ)
enter_old link src dst = do
  let gf = untag link
  raise_if (gf == 0) (Stop.trap (unbound_trap dst))
  word ← read_mds (go_word gf)
  let gfi = untag word
  raise_if (gfi == 0) (Stop.trap (unbound_trap dst))
  global ← read_dbl (gft_global_frame gfi)
  set_gf global
  expected ← lengthen_pointer gf
  raise_if (not (global == expected)) error
  enter gfi (link / 65536) src dst

unfoldable pub enter_new : ℕ → ℕ → ℕ → Action Machine (ℕ × ℕ × ℕ)
enter_new link src dst = do
  let gfi = untag link
  raise_if (gfi == 0) (Stop.trap (unbound_trap dst))
  global ← read_dbl (gft_global_frame gfi)
  set_gf global
  enter gfi (link / 65536) src dst

unfoldable pub resume : ℕ → ℕ → ℕ → XferType → Action Machine (ℕ × ℕ × ℕ)
resume link src dst type = do
  let lf = u16 link
  raise_if (lf == 0) (Stop.trap (control_trap src))
  gfi ← read_mds (lo_offset lf lo_globallink)
  raise_if (gfi == 0) (Stop.trap (unbound_trap dst))
  global ← read_dbl (gft_global_frame gfi)
  set_gf global
  base ← read_dbl (gft_codebase gfi)
  set_cb base
  raise_if (base % 2 == 1) (Stop.trap (code_trap gfi))
  pc ← read_mds (lo_offset lf lo_pc)
  raise_if (pc == 0) (Stop.trap (unbound_trap dst))
  (if is_trap type
      then (do write_mds (lo_offset lf lo_returnlink) src; disable_interrupt)
      else skip)
  pure (gfi, pc, lf)

-- The new GFI, PC and LF. `follow` leaves no indirect link, which would be an ERROR().
unfoldable pub transfer : LinkType → ℕ → ℕ → ℕ → XferType → Action Machine (ℕ × ℕ × ℕ)
transfer frame link src dst type = resume link src dst type
transfer old_procedure link src dst type = enter_old link src dst
transfer indirect link src dst type = raise error
transfer new_procedure link src dst type = enter_new link src dst

-- `Push((CARD16)dst); Push(src); Discard(); Discard();`
unfoldable pub push_link : ℕ → ℕ → Instruction
push_link dst src = do push dst; push src; discard; discard

unfoldable pub xfer : ℕ → ℕ → XferType → Bool → Instruction
xfer dst src type free_flag = do
  raise_if (is_trap type && free_flag) error
  (link, is_indirect) ← follow links type dst false
  (gfi, pc, lf) ← transfer (control_link_type link) link src dst type
  (if is_indirect then push_link dst src else skip)
  old ← gets (λ s. s.lf)
  (if free_flag then free old else skip)
  set_lf lf
  set_gfi gfi
  set_pc pc
  check_for_xfer_traps dst type
