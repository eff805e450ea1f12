-- ===== src/Opcode/Safety/Transfers.antt =====
-- The control transfers of Opcode/Control keep the invariant of the machine: the frames, XFER and
-- the calls.
use mesa_emulator_unix.Common.{ℕ, zero, suc, Bool, true, [], ◌∷◌, All}
use mesa_emulator_unix.Action.{
  Action, Outcome, Stop, ok, stop, fault, error, diverges, undefined, null_page, index_out_of_range,
  bad_shift,
}
use mesa_emulator_unix.Machine.{Machine}
use mesa_emulator_unix.Machine.Safe.{Safe, GivesOk}
use mesa_emulator_unix.Machine.Safe.Rules.{instruction, Safe-get_code_byte}
use mesa_emulator_unix.Machine.Safe.Stays.{Stays, Safe-then, Safe-end}
use mesa_emulator_unix.Machine.Safe.Statements.{staying, pushes-Stays}
use mesa_emulator_unix.Opcode.{with_byte}
use mesa_emulator_unix.Opcode.Control.{
  XferType, LinkType, frame, old_procedure, indirect, new_procedure,
}
use mesa_emulator_unix.Opcode.Control.Frames.{av_frame, alloc_slot, alloc, free, e_af, e_ff}
use mesa_emulator_unix.Opcode.Control.Xfer.{
  check_for_xfer_traps, follow, enter, enter_old, enter_new, resume, transfer, push_link, xfer,
}
use mesa_emulator_unix.Opcode.Control.Calls.{
  save_pc, call_link, e_efc, e_lfc, e_sfc, e_ret, e_kfcb, e_pi, e_po, transfer_by, e_xe, e_xf,
  no_abort, abort_is_error, call_codes,
}

module _ {size n : ℕ} where
  av_frame-Stays : (u : ℕ) → Stays size n (av_frame u)
  unfolding av_frame
  av_frame-Stays u = search (staying) depth 8

  alloc_slot-Stays : (fuel slot : ℕ) → Stays size n (alloc_slot fuel slot)
  unfolding alloc_slot
  alloc_slot-Stays zero slot = search (staying) depth 8
  alloc_slot-Stays (suc fuel) slot =
      let rest : (next : ℕ) → Stays size n (alloc_slot fuel next) = alloc_slot-Stays fuel in
      search (staying, rest) depth 8

  pub alloc-Stays : (fsi : ℕ) → Stays size n (alloc fsi)
  unfolding alloc
  alloc-Stays fsi = search (staying, alloc_slot-Stays, av_frame-Stays) depth 15

  pub free-Stays : (block : ℕ) → Stays size n (free block)
  unfolding free
  free-Stays block = search (staying) depth 15

  pub check_for_xfer_traps-Stays :
      (dst : ℕ) (type : XferType) → Stays size n (check_for_xfer_traps dst type)
  unfolding check_for_xfer_traps
  check_for_xfer_traps-Stays dst type = search (staying) depth 15

  follow-Stays :
      (fuel : ℕ) (type : XferType) (dst : ℕ) (b : Bool) → Stays size n (follow fuel type dst b)
  unfolding follow
  follow-Stays zero type dst b = search (staying) depth 8
  follow-Stays (suc fuel) type dst b =
      let rest : (next : ℕ) → Stays size n (follow fuel type next true) =
        λ next. follow-Stays fuel type next true in
      search (staying, rest) depth 12

  enter-Stays : (gfi pc src dst : ℕ) → Stays size n (enter gfi pc src dst)
  unfolding enter
  enter-Stays gfi pc src dst = search (staying, alloc-Stays) depth 20

  enter_old-Stays : (link src dst : ℕ) → Stays size n (enter_old link src dst)
  unfolding enter_old
  enter_old-Stays link src dst = search (staying, enter-Stays) depth 20

  enter_new-Stays : (link src dst : ℕ) → Stays size n (enter_new link src dst)
  unfolding enter_new
  enter_new-Stays link src dst = search (staying, enter-Stays) depth 20

  resume-Stays : (link src dst : ℕ) (type : XferType) → Stays size n (resume link src dst type)
  unfolding resume
  resume-Stays link src dst type = search (staying) depth 25

  transfer-Stays :
      (t : LinkType) (link src dst : ℕ) (type : XferType)
      → Stays size n (transfer t link src dst type)
  unfolding transfer
  transfer-Stays frame link src dst type = resume-Stays link src dst type
  transfer-Stays old_procedure link src dst type = enter_old-Stays link src dst
  transfer-Stays indirect link src dst type = search (staying) depth 8
  transfer-Stays new_procedure link src dst type = enter_new-Stays link src dst

  push_link-Stays : (dst src : ℕ) → Stays size n (push_link dst src)
  unfolding push_link
  push_link-Stays dst src = pushes-Stays dst src

  pub xfer-Stays : (dst src : ℕ) (type : XferType) (b : Bool) → Stays size n (xfer dst src type b)
  unfolding xfer
  xfer-Stays dst src type b =
      search
        (
          staying, follow-Stays, transfer-Stays, push_link-Stays, free-Stays,
          check_for_xfer_traps-Stays,
        )
        depth 25

  pub save_pc-Stays : Stays size n save_pc
  unfolding save_pc
  save_pc-Stays = search (staying) depth 8

  call_link-Stays : (dst : ℕ) → Stays size n (call_link dst)
  unfolding call_link
  call_link-Stays dst = search (staying, save_pc-Stays, xfer-Stays) depth 8

  e_efc-Stays : (arg : ℕ) → Stays size n (e_efc arg)
  unfolding e_efc
  e_efc-Stays arg = search (staying, call_link-Stays) depth 8

abort_is_error-GivesOk :
    (size k : ℕ) {A : Type 0} (V : A → Type 0) (o : Outcome Machine A)
    → GivesOk size k V o
    → GivesOk size k V (abort_is_error o)
abort_is_error-GivesOk size k V (ok a s) h = h
abort_is_error-GivesOk size k V (stop (Stop.trap x) s) h = (tt, h.1)
abort_is_error-GivesOk size k V (stop (fault x) s) h = (tt, h.1)
abort_is_error-GivesOk size k V (stop error s) h = h
abort_is_error-GivesOk size k V (stop diverges s) h = h
abort_is_error-GivesOk size k V (stop (undefined null_page) s) h = h
abort_is_error-GivesOk size k V (stop (undefined index_out_of_range) s) h = h
abort_is_error-GivesOk size k V (stop (undefined bad_shift) s) h = h

pub no_abort-Stays :
    {size n : ℕ} {A : Type 0} (m : Action Machine A) → Stays size n m → Stays size n (no_abort m)
unfolding no_abort
no_abort-Stays {size} {n} m h = record {
  at = λ s r. abort_is_error-GivesOk size n (λ _. Unit {0}) _ (h.at s r);
}

module _ {size : ℕ} where
  e_lfc-Stays : Stays size 0 e_lfc
  unfolding e_lfc
  e_lfc-Stays = search (staying, save_pc-Stays, alloc-Stays, check_for_xfer_traps-Stays) depth 20

  e_sfc-Safe : Safe size 0 e_sfc
  unfolding e_sfc
  e_sfc-Safe = search (instruction, Safe-end, call_link-Stays) depth 10

  e_ret-Safe : Safe size 0 e_ret
  unfolding e_ret
  e_ret-Safe = search (staying, Safe-end, xfer-Stays) depth 10

  e_kfcb-Safe : Safe size 0 e_kfcb
  unfolding e_kfcb
  e_kfcb-Safe = search (staying, Safe-end, call_link-Stays) depth 10

  e_pi-Safe : Safe size 0 e_pi
  unfolding e_pi
  e_pi-Safe = search (staying, instruction, Safe-then, Safe-end) depth 15

  e_po-Safe : Safe size 0 e_po
  unfolding e_po
  e_po-Safe = search (staying, instruction, Safe-then, Safe-end, save_pc-Stays, xfer-Stays) depth 15

  e_af-Safe : Safe size 0 e_af
  unfolding e_af
  e_af-Safe = search (instruction, Safe-then, alloc-Stays) depth 10

  e_ff-Safe : Safe size 0 e_ff
  unfolding e_ff
  e_ff-Safe = search (instruction, Safe-end, free-Stays) depth 10

  transfer_by-Stays : (ptr : ℕ) (b : Bool) → Stays size 0 (transfer_by ptr b)
  unfolding transfer_by
  transfer_by-Stays ptr b = search (staying, save_pc-Stays, xfer-Stays) depth 10

  e_xe-Safe : Safe size 0 e_xe
  unfolding e_xe
  e_xe-Safe = Safe-end (no_abort-Stays _ (search (staying, transfer_by-Stays) depth 10))

  e_xf-Safe : Safe size 0 e_xf
  unfolding e_xf
  e_xf-Safe = search (staying, Safe-then, Safe-end, transfer_by-Stays) depth 10

call_codes-Safe : (size : ℕ) → All (Safe size 0) call_codes
unfolding call_codes with_byte
call_codes-Safe size =
    search
      (Safe-get_code_byte, Safe-end, e_efc-Stays, e_lfc-Stays, e_sfc-Safe, e_ret-Safe, e_kfcb-Safe)
      depth 40

frame_codes-Safe : (size : ℕ) → All (Safe size 0) (e_af ∷ e_ff ∷ e_pi ∷ e_po ∷ e_xe ∷ e_xf ∷ [])
frame_codes-Safe size =
    search (e_af-Safe, e_ff-Safe, e_pi-Safe, e_po-Safe, e_xe-Safe, e_xf-Safe) depth 20
