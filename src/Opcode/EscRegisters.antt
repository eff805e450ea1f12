-- ===== src/Opcode/EscRegisters.antt =====
-- The instructions of src/opcode/OpcodeEsc.cpp on the map (SM, SMF, GMF), on interrupts (DI, EI), and
-- those that write and read the registers (WRPSB to RRXTS). RRIT takes the interval timer of the host.
use mesa_emulator_unix.Common.{ℕ, ◌/◌, List, [], ◌∷◌, if◌then◌else◌, u16}
use mesa_emulator_unix.Action.{Action, ◌>>=◌, ◌>>◌, gets, skip, raise, error}
use mesa_emulator_unix.Types.{map_flags, map_flags_u, is_vacant}
use mesa_emulator_unix.Memory.{Map, read_map, write_map}
use mesa_emulator_unix.Machine.{Machine, on_memory, push, pop, push_long, pop_long}
use mesa_emulator_unix.Machine.Registers.{
  set_psb, set_mds, set_wp, set_wdc, set_ptc, set_xts, set_mp, enable_interrupts, disable_interrupt,
}
use mesa_emulator_unix.Opcode.{Instruction}
use mesa_emulator_unix.Opcode.Process.{handle, index}

unfoldable pub take_map : ℕ → Action Machine Map
take_map vp = on_memory (read_map vp)

unfoldable pub put_map : ℕ → Map → Instruction
put_map vp map = on_memory (write_map vp map)

unfoldable pub e_sm : Instruction
e_sm = do
  mf ← pop
  rp ← pop_long
  vp ← pop_long
  put_map vp (record { mf = map_flags mf; rp = if is_vacant (map_flags mf) then 0 else u16 rp })

unfoldable pub e_smf : Instruction
e_smf = do
  flags ← pop
  vp ← pop_long
  map ← take_map vp
  push (map_flags_u map.mf)
  push_long map.rp
  (if is_vacant map.mf then skip else put_map vp (record map { mf = map_flags flags }))

unfoldable pub e_gmf : Instruction
e_gmf = do
  vp ← pop_long
  map ← take_map vp
  push (map_flags_u map.mf)
  push_long (if is_vacant map.mf then 0 else map.rp)

unfoldable pub e_di : Instruction
e_di = disable_interrupt

unfoldable pub e_ei : Instruction
e_ei = enable_interrupts

unfoldable pub e_wrpsb : Instruction
e_wrpsb = do value ← pop; set_psb (index value)

unfoldable pub e_wrmds : Instruction
e_wrmds = do value ← pop; set_mds value

unfoldable pub e_wrwp : Instruction
e_wrwp = do value ← pop; set_wp value

unfoldable pub e_wrwdc : Instruction
e_wrwdc = do value ← pop; set_wdc value

unfoldable pub e_wrptc : Instruction
e_wrptc = do value ← pop; set_ptc value

unfoldable pub e_writ : Instruction
e_writ = raise error

unfoldable pub e_wrxts : Instruction
e_wrxts = do value ← pop; set_xts value

unfoldable pub e_wrmp : Instruction
e_wrmp = do value ← pop; set_mp value

unfoldable pub e_rrpsb : Instruction
e_rrpsb = do value ← gets (λ s. s.psb); push (handle value)

unfoldable pub e_rrmds : Instruction
e_rrmds = do value ← gets (λ s. s.mds); push (value / 65536)

unfoldable pub e_rrwp : Instruction
e_rrwp = do value ← gets (λ s. s.wp); push value

unfoldable pub e_rrwdc : Instruction
e_rrwdc = do value ← gets (λ s. s.wdc); push value

unfoldable pub e_rrptc : Instruction
e_rrptc = do value ← gets (λ s. s.ptc); push value

unfoldable pub e_rrit : ℕ → Instruction
e_rrit time = push_long time

unfoldable pub e_rrxts : Instruction
e_rrxts = do value ← gets (λ s. s.xts); push value

-- In the order of their codes, with the time that RRIT reads.
unfoldable pub register_codes : ℕ → List Instruction
register_codes time =
    e_sm
    ∷ e_smf
    ∷ e_gmf
    ∷ e_di
    ∷ e_ei
    ∷ e_wrpsb
    ∷ e_wrmds
    ∷ e_wrwp
    ∷ e_wrwdc
    ∷ e_wrptc
    ∷ e_writ
    ∷ e_wrxts
    ∷ e_wrmp
    ∷ e_rrpsb
    ∷ e_rrmds
    ∷ e_rrwp
    ∷ e_rrwdc
    ∷ e_rrptc
    ∷ e_rrit time
    ∷ e_rrxts
    ∷ []
