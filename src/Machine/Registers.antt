-- ===== src/Machine/Registers.antt =====
-- The assignments to the registers of src/mesa/Variable.h, each with the width of its variable, and
-- the wakeup disable counter. The observers of MDS, LF, GF, CB and PSB do nothing but count.
use mesa_emulator_unix.Common.{ℕ, ◌+◌, ◌*◌, Bool, ◌==◌, u16, u32, u8}
use mesa_emulator_unix.Action.{Action, ◌>>=◌, ◌>>◌, ok, gets, raise_if, trap, interrupt_error}
use mesa_emulator_unix.Machine.{Machine}

abbrev Setter : Type 0
Setter = Action Machine (Unit {0})

unfoldable pub set_lf : ℕ → Setter
set_lf v s = ok tt (record s { lf = u16 v })

unfoldable pub set_gf : ℕ → Setter
set_gf v s = ok tt (record s { gf = u32 v })

unfoldable pub set_cb : ℕ → Setter
set_cb v s = ok tt (record s { cb = u32 v })

unfoldable pub set_gfi : ℕ → Setter
set_gfi v s = ok tt (record s { gfi = u16 v })

unfoldable pub set_psb : ℕ → Setter
set_psb v s = ok tt (record s { psb = u16 v })

unfoldable pub set_mp : ℕ → Setter
set_mp v s = ok tt (record s { mp = u16 v })

unfoldable pub set_wp : ℕ → Setter
set_wp v s = ok tt (record s { wp = u16 v })

unfoldable pub set_wdc : ℕ → Setter
set_wdc v s = ok tt (record s { wdc = u16 v })

unfoldable pub set_ptc : ℕ → Setter
set_ptc v s = ok tt (record s { ptc = u16 v })

unfoldable pub set_xts : ℕ → Setter
set_xts v s = ok tt (record s { xts = u16 v })

unfoldable pub set_break_byte : ℕ → Setter
set_break_byte v s = ok tt (record s { break_byte = u8 v })

unfoldable pub set_running : Bool → Setter
set_running b s = ok tt (record s { running = b })

unfoldable pub set_timeout_time : ℕ → Setter
set_timeout_time v s = ok tt (record s { timeout_time = u32 v })

-- MDS takes a word shifted to the left by 16.
unfoldable pub set_mds : ℕ → Setter
set_mds v s = ok tt (record s { mds = u16 v * 65536 })

-- `PC = savedPC; SP = savedSP;`
unfoldable pub restore : Setter
restore s = ok tt (record s { pc = s.saved_pc; sp = s.saved_sp })

-- `SP = savedSP = 0;`
unfoldable pub clear_sp : Setter
clear_sp s = ok tt (record s { sp = 0; saved_sp = 0 })

-- `PC = savedPC = 0;`
unfoldable pub clear_pc : Setter
clear_pc s = ok tt (record s { pc = 0; saved_pc = 0 })

-- VariableWDC::enable and disable; cWDC is 7.
unfoldable pub enable_interrupts : Setter
enable_interrupts = do
  wdc ← gets (λ s. s.wdc)
  raise_if (wdc == 0) (trap interrupt_error)
  set_wdc (wdc + 65535)

unfoldable pub disable_interrupt : Setter
disable_interrupt = do
  wdc ← gets (λ s. s.wdc)
  raise_if (wdc == 7) (trap interrupt_error)
  set_wdc (wdc + 1)
