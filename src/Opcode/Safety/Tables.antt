-- ===== src/Opcode/Safety/Tables.antt =====
-- The tables of instructions keep the invariant.
use mesa_emulator_unix.Common.{ℕ, All}
use mesa_emulator_unix.Machine.Safe.{Safe}
use mesa_emulator_unix.Machine.Safe.Rules.{
  Safe-get_code_byte, Safe-get_code_word, Safe-end_recover, Safe-end_discard,
}
use mesa_emulator_unix.Opcode.{Instruction, with_byte, with_word, with_pair, with_desc}
use mesa_emulator_unix.Opcode.Mop0.{
  mop0_table, ll_codes, lld_codes, sl_codes, sld_codes, pl_codes, pld_codes, lg_codes, lgd_codes,
}
use mesa_emulator_unix.Opcode.Mop1.{mop1_table}
use mesa_emulator_unix.Opcode.Mop2.{jump_codes, arith_codes}
use mesa_emulator_unix.Opcode.Safety.Mop0.{
  e_noop-Safe, e_ll-Safe, e_lld-Safe, e_sl-Safe, e_sld-Safe, e_pl-Safe, e_pld-Safe, e_lg-Safe,
  e_lgd-Safe, e_sg-Safe, e_bndck-Safe,
}
use mesa_emulator_unix.Opcode.Safety.Reads.{
  e_r-Safe, e_rl-Safe, e_rd-Safe, e_rdl-Safe, e_rli-Safe, e_rlil-Safe, e_rldi-Safe, e_rldil-Safe,
  e_rgi-Safe, e_rgil-Safe, e_rs-Safe, e_rls-Safe,
}
use mesa_emulator_unix.Opcode.Safety.Writes.{
  e_w-Safe, e_ps-Safe, e_wl-Safe, e_psl-Safe, e_wd-Safe, e_psd-Safe, e_wdl-Safe, e_psdl-Safe,
  e_wli-Safe, e_wlil-Safe, e_wldil-Safe, e_ws-Safe, e_wls-Safe,
}
use mesa_emulator_unix.Opcode.Safety.FieldAccess.{
  e_rf-Safe, e_rlf-Safe, e_rlipf-Safe, e_rlilpf-Safe, e_wf-Safe, e_psf-Safe, e_wsf-Safe, e_wlf-Safe,
  e_pslf-Safe, e_rlfs-Safe, e_wlfs-Safe,
}
use mesa_emulator_unix.Opcode.Safety.Mop1.{
  e_sgd-Safe, e_llk-Safe, e_rki-Safe, e_rkdi-Safe, e_lk-Safe, e_shift-Safe, e_shift_pop-Safe,
}
use mesa_emulator_unix.Opcode.Safety.Jumps.{
  e_catch-Safe, e_j-Safe, e_jue-Safe, e_jeb-Safe, e_june-Safe, e_jne-Safe, e_jl-Safe, e_jge-Safe,
  e_jg-Safe, e_jle-Safe, e_jul-Safe, e_juge-Safe, e_jug-Safe, e_jule-Safe, e_jz-Safe, e_jnz-Safe,
  e_jde-Safe, e_jdne-Safe, e_jib-Safe, e_jiw-Safe,
}
use mesa_emulator_unix.Opcode.Safety.Arith.{
  e_rec2-Safe, e_dis2-Safe, e_exch-Safe, e_dexch-Safe, e_dup-Safe, e_ddup-Safe, e_exdis-Safe,
  e_neg-Safe, e_inc-Safe, e_dec-Safe, e_dinc-Safe, e_dbl-Safe, e_ddbl-Safe, e_trpl-Safe, e_and-Safe,
  e_ior-Safe, e_adds-Safe, e_add-Safe, e_sub-Safe, e_dadd-Safe, e_dsub-Safe, e_adc-Safe, e_acd-Safe,
  e_al0i-Safe, e_mul-Safe, e_dcmp-Safe, e_udcmp-Safe,
}

module _ {size : ℕ} where
  with_byte-Safe :
      (f : ℕ → Instruction) → ((arg : ℕ) → Safe size 0 (f arg)) → Safe size 0 (with_byte f)
  unfolding with_byte
  with_byte-Safe f h = Safe-get_code_byte f h

  with_word-Safe :
      (f : ℕ → Instruction) → ((arg : ℕ) → Safe size 0 (f arg)) → Safe size 0 (with_word f)
  unfolding with_word
  with_word-Safe f h = Safe-get_code_word f h

  with_pair-Safe :
      (f : ℕ → ℕ → Instruction) → ((a b : ℕ) → Safe size 0 (f a b)) → Safe size 0 (with_pair f)
  unfolding with_pair
  with_pair-Safe f h = Safe-get_code_byte _ (λ byte. h _ _)

  with_desc-Safe :
      (f : ℕ → ℕ → Instruction) → ((a b : ℕ) → Safe size 0 (f a b)) → Safe size 0 (with_desc f)
  unfolding with_desc
  with_desc-Safe f h = Safe-get_code_word _ (λ word. h _ _)

ruleset operands = (with_byte-Safe, with_word-Safe, with_pair-Safe, with_desc-Safe)

-- Each instruction of src/opcode/OpcodeMop0xx.cpp but BRK, run on a machine whose cache agrees with
-- its map, with 16-bit words and at most 14 words on the stack, ends in such a machine with as many
-- real pages, or stops in one by a trap, a fault, ERROR() or spent fuel, or meets a null page, of which
-- nothing more is said; it never reads or writes outside an array.
pub mop0_table-Safe : (size : ℕ) → All (Safe size 0) mop0_table
unfolding mop0_table ll_codes lld_codes sl_codes sld_codes pl_codes pld_codes lg_codes lgd_codes
mop0_table-Safe size =
    search
      (
        operands, e_noop-Safe, e_ll-Safe, e_lld-Safe, e_sl-Safe, e_sld-Safe, e_pl-Safe, e_pld-Safe,
        e_lg-Safe, e_lgd-Safe, e_sg-Safe, e_bndck-Safe,
      )
      depth 80

-- Each instruction of src/opcode/OpcodeMop1xx.cpp keeps the invariant of the machine.
-- Run on a machine whose cache agrees with its map, with 16-bit words and at most 14 words on the
-- stack, it ends in such a machine, or stops in one, or meets a null page, inside every array.
pub mop1_table-Safe : (size : ℕ) → All (Safe size 0) mop1_table
unfolding mop1_table
mop1_table-Safe size =
    search
      (
        operands, e_r-Safe, e_rl-Safe, e_rd-Safe, e_rdl-Safe, e_rli-Safe, e_rlil-Safe, e_rldi-Safe,
        e_rldil-Safe, e_rgi-Safe, e_rgil-Safe, e_rs-Safe, e_rls-Safe, e_w-Safe, e_ps-Safe,
        e_wl-Safe, e_psl-Safe, e_wd-Safe, e_psd-Safe, e_wdl-Safe, e_psdl-Safe, e_wli-Safe,
        e_wlil-Safe, e_wldil-Safe, e_ws-Safe, e_wls-Safe, e_rf-Safe, e_rlf-Safe, e_rlipf-Safe,
        e_rlilpf-Safe, e_wf-Safe, e_psf-Safe, e_wsf-Safe, e_wlf-Safe, e_pslf-Safe, e_rlfs-Safe,
        e_wlfs-Safe, e_sgd-Safe, e_llk-Safe, e_rki-Safe, e_rkdi-Safe, e_lk-Safe, e_shift-Safe,
        e_shift_pop-Safe, e_sld-Safe,
      )
      depth 80

jump_codes-Safe : (size : ℕ) → All (Safe size 0) jump_codes
unfolding jump_codes
jump_codes-Safe size =
    search
      (
        operands, e_catch-Safe, e_j-Safe, e_jue-Safe, e_jeb-Safe, e_june-Safe, e_jne-Safe,
        e_jl-Safe, e_jge-Safe, e_jg-Safe, e_jle-Safe, e_jul-Safe, e_juge-Safe, e_jug-Safe,
        e_jule-Safe, e_jz-Safe, e_jnz-Safe, e_jde-Safe, e_jdne-Safe, e_jib-Safe, e_jiw-Safe,
      )
      depth 80

arith_codes-Safe : (size : ℕ) → All (Safe size 0) arith_codes
unfolding arith_codes
arith_codes-Safe size =
    search
      (
        operands, Safe-end_recover, Safe-end_discard, e_rec2-Safe, e_dis2-Safe, e_exch-Safe,
        e_dexch-Safe, e_dup-Safe, e_ddup-Safe, e_exdis-Safe, e_neg-Safe, e_inc-Safe, e_dec-Safe,
        e_dinc-Safe, e_dbl-Safe, e_ddbl-Safe, e_trpl-Safe, e_and-Safe, e_ior-Safe, e_adds-Safe,
        e_add-Safe, e_sub-Safe, e_dadd-Safe, e_dsub-Safe, e_adc-Safe, e_acd-Safe, e_al0i-Safe,
        e_mul-Safe, e_dcmp-Safe, e_udcmp-Safe,
      )
      depth 80

-- Each instruction of src/opcode/OpcodeMop2xx.cpp but VMFIND, a jump or an instruction of the stack and
-- of arithmetic, keeps the invariant of the machine. Run on a machine whose cache agrees with its map,
-- with 16-bit words and at most 14 words on the stack, it ends in such a machine, or stops in one, or
-- meets a null page, inside every array.
pub mop2_codes-Safe : (size : ℕ) → All (Safe size 0) jump_codes × All (Safe size 0) arith_codes
mop2_codes-Safe size = (jump_codes-Safe size, arith_codes-Safe size)
