-- ===== src/Opcode/Mop1.antt =====
-- src/opcode/OpcodeMop1xx.cpp: links and shifts, and the table of codes 0100 to 0174.
use mesa_emulator_unix.Common.{ℕ, ◌+◌, List, [], ◌∷◌, u32, sub16}
use mesa_emulator_unix.Common.Int.{int16}
use mesa_emulator_unix.Action.{◌>>=◌, ◌>>◌, gets}
use mesa_emulator_unix.Types.{sign_extend}
use mesa_emulator_unix.Types.Shifts.{shift}
use mesa_emulator_unix.Machine.{push, pop, push_long, recover}
use mesa_emulator_unix.Machine.Access.{fetch, load, assign, store_mds, fetch_pair, fetch_link}
use mesa_emulator_unix.Opcode.Mop0.{e_sld}
use mesa_emulator_unix.Opcode.Reads.{
  e_r, e_rl, e_rd, e_rdl, e_rli, e_rlil, e_rldi, e_rldil, e_rgi, e_rgil, e_rs, e_rls,
}
use mesa_emulator_unix.Opcode.Writes.{
  e_w, e_ps, e_wl, e_psl, e_wd, e_psd, e_wdl, e_psdl, e_wli, e_wlil, e_wldil, e_ws, e_wls,
}
use mesa_emulator_unix.Opcode.FieldAccess.{
  e_rf, e_rlf, e_rlfs, e_rlipf, e_rlilpf, e_wf, e_psf, e_wsf, e_wlf, e_pslf, e_wlfs,
}
use mesa_emulator_unix.Opcode.{Instruction, with_byte, with_pair, with_desc}

unfoldable pub e_sgd : ℕ → Instruction
e_sgd arg = do
  gf ← gets (λ s. s.gf)
  (p0, p1) ← fetch_pair (u32 (gf + arg))
  high ← pop
  assign p1 high
  low ← pop
  assign p0 low

unfoldable pub e_llk : ℕ → Instruction
e_llk arg = do link ← fetch_link arg; push_long link

unfoldable pub e_rki : ℕ → Instruction
e_rki arg = do ptr ← fetch_link arg; p ← fetch ptr; value ← load p; push value

unfoldable pub e_rkdi : ℕ → Instruction
e_rkdi arg = do
  ptr ← fetch_link arg
  (p0, p1) ← fetch_pair ptr
  u ← load p0
  push u
  v ← load p1
  push v

unfoldable pub e_lk : ℕ → Instruction
e_lk arg = do
  recover
  link ← pop
  lf ← gets (λ s. s.lf)
  p ← store_mds lf
  assign p (sub16 link arg)

unfoldable pub e_shift : ℕ → Instruction
e_shift arg = do u ← pop; push (shift u (int16 arg))

unfoldable pub e_shift_pop : Instruction
e_shift_pop = do arg ← pop; e_shift arg

unfoldable pub mop1_table : List Instruction
mop1_table =
    e_r 0
    ∷ e_r 1
    ∷ with_byte e_r
    ∷ e_rl 0
    ∷ with_byte e_rl
    ∷ e_rd 0
    ∷ with_byte e_rd
    ∷ e_rdl 0
    ∷ with_byte e_rdl
    ∷ e_w 0
    ∷ with_byte e_w
    ∷ with_byte e_ps
    ∷ with_byte e_wl
    ∷ with_byte e_psl
    ∷ with_byte e_wd
    ∷ e_psd 0
    ∷ with_byte e_psd
    ∷ with_byte e_wdl
    ∷ with_byte e_psdl
    ∷ e_rli 0 0
    ∷ e_rli 0 1
    ∷ e_rli 0 2
    ∷ e_rli 0 3
    ∷ with_pair e_rli
    ∷ with_pair e_rlil
    ∷ e_rldi 0 0
    ∷ with_pair e_rldi
    ∷ with_pair e_rldil
    ∷ with_pair e_rgi
    ∷ with_pair e_rgil
    ∷ with_pair e_wli
    ∷ with_pair e_wlil
    ∷ with_pair e_wldil
    ∷ with_byte e_rs
    ∷ with_byte e_rls
    ∷ with_byte e_ws
    ∷ with_byte e_wls
    ∷ with_byte (e_rf 0)
    ∷ with_desc e_rf
    ∷ with_byte (e_rlf 0)
    ∷ with_desc e_rlf
    ∷ e_rlfs
    ∷ with_desc e_rlipf
    ∷ with_desc e_rlilpf
    ∷ with_byte (e_wf 0)
    ∷ with_desc e_wf
    ∷ with_desc e_psf
    ∷ with_byte (e_psf 0)
    ∷ with_byte (e_wsf 0)
    ∷ with_byte (e_wlf 0)
    ∷ with_desc e_wlf
    ∷ with_desc e_pslf
    ∷ e_wlfs
    ∷ with_byte e_sld
    ∷ with_byte e_sgd
    ∷ with_byte e_llk
    ∷ with_byte e_rki
    ∷ with_byte e_rkdi
    ∷ with_byte e_lk
    ∷ e_shift_pop
    ∷ with_byte (λ arg. e_shift (sign_extend arg))
    ∷ []
