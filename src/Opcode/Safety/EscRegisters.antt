-- ===== src/Opcode/Safety/EscRegisters.antt =====
-- The instructions of Opcode/EscRegisters keep the invariant of the machine.
use mesa_emulator_unix.Common.{ℕ, ◌≡◌, refl, true, false, arith, Bool-cases, inl, inr, leb, All}
use mesa_emulator_unix.Action.{◌>>=◌, gets, raise_if, pure, stop, error}
use mesa_emulator_unix.Memory.{Map, Memory, read_map, write_map, check_vp}
use mesa_emulator_unix.Memory.Coherent.{IsCoherent}
use mesa_emulator_unix.Memory.Coherent.Maps.{remapped, write_map-IsCoherent}
use mesa_emulator_unix.Machine.{Machine, on_memory}
use mesa_emulator_unix.Machine.Safe.{IsOk, Safe}
use mesa_emulator_unix.Machine.Safe.Rules.{instruction}
use mesa_emulator_unix.Machine.Safe.Stays.{Stays, Safe-then, Safe-end}
use mesa_emulator_unix.Machine.Safe.Statements.{staying}
use mesa_emulator_unix.Opcode.EscRegisters.{
  take_map, put_map, e_sm, e_smf, e_gmf, e_di, e_ei, e_wrpsb, e_wrmds, e_wrwp, e_wrwdc, e_wrptc,
  e_writ, e_wrxts, e_wrmp, e_rrpsb, e_rrmds, e_rrwp, e_rrwdc, e_rrptc, e_rrit, e_rrxts,
  register_codes,
}

with_map :
    {size : ℕ} (s : Machine) (vp : ℕ) (map : Map)
    → IsOk size s
    → IsCoherent (remapped vp map s.memory)
    → IsOk size (record s { memory = remapped vp map s.memory })
with_map s vp map h c = record {
  coherent = c;
  real_size = h.real_size;
  memory_words = h.memory_words;
  stack_words = h.stack_words;
  sp_bound = h.sp_bound;
  pc_word = h.pc_word;
  saved_pc_word = h.saved_pc_word;
  saved_sp_bound = h.saved_sp_bound;
  mds_aligned = h.mds_aligned;
}

write_map-out :
    (s : Memory) (vp : ℕ) (map : Map) → leb s.vp_size vp ≡ true → write_map vp map s ≡ stop error s
unfolding write_map check_vp ◌>>=◌
write_map-out s vp map e = rw e refl

write_map-big :
    (s : Memory) (vp : ℕ) (map : Map)
    → leb s.vp_size vp ≡ false
    → leb s.rp_size map.rp ≡ true
    → write_map vp map s ≡ stop error s
unfolding write_map check_vp ◌>>=◌ gets raise_if
write_map-big s vp map e h = rw (e, h) refl

module _ {size n : ℕ} where
  take_map-Stays : (vp : ℕ) → Stays size n (take_map vp)
  unfolding take_map on_memory read_map check_vp ◌>>=◌ gets pure
  take_map-Stays vp = record {
    at = λ s r. elim (Bool-cases (leb s.memory.vp_size vp)) [
      | inl out ↦ rw out (tt, r.fine)
      | inr in_map ↦ rw in_map (tt, r)
    ];
  }

  put_map-Stays : (vp : ℕ) (map : Map) → Stays size n (put_map vp map)
  unfolding put_map on_memory
  put_map-Stays vp map = record {
    at = λ s r. elim (Bool-cases (leb s.memory.vp_size vp)) [
      | inl out ↦ rw (write_map-out s.memory vp map out) (tt, r.fine)
      | inr in_map ↦ elim (Bool-cases (leb s.memory.rp_size map.rp)) [
        | inl big ↦ rw (write_map-big s.memory vp map in_map big) (tt, r.fine)
        | inr fits ↦
            let done =
              write_map-IsCoherent s.memory vp map r.fine.coherent (ground (arith, in_map))
                (ground (arith, fits)) in
            rw done.0 (tt, record { fine = with_map s vp map r.fine done.1; spare = r.spare })
      ]
    ];
  }

ruleset register = (instruction, staying, Safe-then, Safe-end)

module _ {size : ℕ} where
  e_sm-Safe : Safe size 0 e_sm
  unfolding e_sm
  e_sm-Safe = search (register, put_map-Stays) depth 12

  e_smf-Safe : Safe size 0 e_smf
  unfolding e_smf
  e_smf-Safe = search (register, take_map-Stays, put_map-Stays) depth 12

  e_gmf-Safe : Safe size 0 e_gmf
  unfolding e_gmf
  e_gmf-Safe = search (register, take_map-Stays) depth 12

  e_di-Safe : Safe size 0 e_di
  unfolding e_di
  e_di-Safe = search (register) depth 12

  e_ei-Safe : Safe size 0 e_ei
  unfolding e_ei
  e_ei-Safe = search (register) depth 12

  e_wrpsb-Safe : Safe size 0 e_wrpsb
  unfolding e_wrpsb
  e_wrpsb-Safe = search (register) depth 12

  e_wrmds-Safe : Safe size 0 e_wrmds
  unfolding e_wrmds
  e_wrmds-Safe = search (register) depth 12

  e_wrwp-Safe : Safe size 0 e_wrwp
  unfolding e_wrwp
  e_wrwp-Safe = search (register) depth 12

  e_wrwdc-Safe : Safe size 0 e_wrwdc
  unfolding e_wrwdc
  e_wrwdc-Safe = search (register) depth 12

  e_wrptc-Safe : Safe size 0 e_wrptc
  unfolding e_wrptc
  e_wrptc-Safe = search (register) depth 12

  e_writ-Safe : Safe size 0 e_writ
  unfolding e_writ
  e_writ-Safe = search (register) depth 12

  e_wrxts-Safe : Safe size 0 e_wrxts
  unfolding e_wrxts
  e_wrxts-Safe = search (register) depth 12

  e_wrmp-Safe : Safe size 0 e_wrmp
  unfolding e_wrmp
  e_wrmp-Safe = search (register) depth 12

  e_rrpsb-Safe : Safe size 0 e_rrpsb
  unfolding e_rrpsb
  e_rrpsb-Safe = search (register) depth 12

  e_rrmds-Safe : Safe size 0 e_rrmds
  unfolding e_rrmds
  e_rrmds-Safe = search (register) depth 12

  e_rrwp-Safe : Safe size 0 e_rrwp
  unfolding e_rrwp
  e_rrwp-Safe = search (register) depth 12

  e_rrwdc-Safe : Safe size 0 e_rrwdc
  unfolding e_rrwdc
  e_rrwdc-Safe = search (register) depth 12

  e_rrptc-Safe : Safe size 0 e_rrptc
  unfolding e_rrptc
  e_rrptc-Safe = search (register) depth 12

  e_rrxts-Safe : Safe size 0 e_rrxts
  unfolding e_rrxts
  e_rrxts-Safe = search (register) depth 12

  e_rrit-Safe : (time : ℕ) → Safe size 0 (e_rrit time)
  unfolding e_rrit
  e_rrit-Safe time = search (instruction) depth 5

pub register_codes-Safe : (size time : ℕ) → All (Safe size 0) (register_codes time)
unfolding register_codes
register_codes-Safe size time =
    search
      (
        e_sm-Safe, e_smf-Safe, e_gmf-Safe, e_di-Safe, e_ei-Safe, e_wrpsb-Safe, e_wrmds-Safe,
        e_wrwp-Safe, e_wrwdc-Safe, e_wrptc-Safe, e_writ-Safe, e_wrxts-Safe, e_wrmp-Safe,
        e_rrpsb-Safe, e_rrmds-Safe, e_rrwp-Safe, e_rrwdc-Safe, e_rrptc-Safe, e_rrxts-Safe,
        e_rrit-Safe,
      )
      depth 80
