-- ===== src/Opcode/Process/Monitors.antt =====
-- The process instructions of src/opcode/Opcode_process.cpp: ME, MX, MW, MR, NC, BC, REQ and SPP.
use mesa_emulator_unix.Common.{
  ℕ, zero, suc, ◌+◌, Bool, true, false, not, ◌||◌, ◌==◌, if◌then◌else◌, u16,
}
use mesa_emulator_unix.Action.{
  Action, Stop, ◌>>=◌, ◌>>◌, pure, gets, raise, raise_if, skip, diverges, stack_error, process_trap,
}
use mesa_emulator_unix.Machine.{Machine, push, pop, pop_long}
use mesa_emulator_unix.Machine.Words.{read, write, read_pda, write_pda, pda}
use mesa_emulator_unix.Opcode.{Instruction}
use mesa_emulator_unix.Opcode.Process.{
  link_of, flags_of, timeout_of, ready, index, psb_field, with_psb, bit0, bit1, with_bit0,
  with_bit1, with_bit2, with_priority,
}
use mesa_emulator_unix.Opcode.Process.Queues.{requeue, blocks}
use mesa_emulator_unix.Opcode.Process.Conditions.{exit, wake_head, cleanup_condition}
use mesa_emulator_unix.Opcode.Process.Schedule.{reschedule}

-- MINIMAL_STACK
unfoldable pub minimal_stack : Instruction
minimal_stack = do sp ← gets (λ s. s.sp); raise_if (not (sp == 0)) (Stop.trap stack_error)

unfoldable pub reschedule_if : Bool → Instruction
reschedule_if b = if b then reschedule false else skip

unfoldable pub enter_failed : ℕ → Instruction
enter_failed m = do
  psb ← gets (λ s. s.psb)
  link ← read_pda (link_of psb)
  write_pda (link_of psb) (with_bit2 link true)
  requeue (pda + ready) m psb
  reschedule false

-- `mon.locked = 1; *Store(m) = mon.u; Push(1);`
unfoldable pub lock : ℕ → ℕ → Instruction
lock m mon = do write m (with_bit0 mon true); push 1

unfoldable pub e_me : Instruction
e_me = do
  m ← pop_long
  minimal_stack
  mon ← read m
  (if bit0 mon then enter_failed m else lock m mon)

unfoldable pub e_mx : Instruction
e_mx = do m ← pop_long; minimal_stack; requeued ← exit m; reschedule_if requeued

-- `std::max((CARD16)1, (CARD16)(PTC + t))`, and 0 for no timeout.
abbrev pub deadline : ℕ → ℕ → ℕ
deadline ptc t = if t == 0 then 0 else (if u16 (ptc + t) == 0 then 1 else u16 (ptc + t))

-- The part of MW for a process that is not aborted; whether it has to be scheduled again.
unfoldable pub wait_on : ℕ → ℕ → ℕ → ℕ → Bool → Action Machine Bool
wait_on c cond flags t requeued =
    if bit0 cond then (do write c (with_bit0 cond false); pure requeued) else (do
      psb ← gets (λ s. s.psb)
      ptc ← gets (λ s. s.ptc)
      write_pda (timeout_of psb) (deadline ptc t)
      write_pda (flags_of psb) (with_bit1 flags true)
      requeue (pda + ready) c psb
      pure true)

unfoldable pub e_mw : Instruction
e_mw = do
  t ← pop
  c ← pop_long
  m ← pop_long
  minimal_stack
  cleanup_condition c
  requeued ← exit m
  psb ← gets (λ s. s.psb)
  flags ← read_pda (flags_of psb)
  cond ← read c
  again ←
      (if not (bit0 flags) || not (bit1 cond)
        then wait_on c cond flags t requeued
        else pure requeued)
  reschedule_if again

unfoldable pub e_mr : Instruction
e_mr = do
  c ← pop_long
  m ← pop_long
  minimal_stack
  mon ← read m
  (if bit0 mon then enter_failed m else (do
    cleanup_condition c
    psb ← gets (λ s. s.psb)
    flags ← read_pda (flags_of psb)
    write_pda (flags_of psb) (with_psb flags 0)
    (if bit0 flags then (do cond ← read c; raise_if (bit1 cond) (Stop.trap process_trap)) else skip)
    lock m mon))

unfoldable pub e_nc : Instruction
e_nc = do
  c ← pop_long
  minimal_stack
  cleanup_condition c
  cond ← read c
  (if psb_field cond == 0 then skip else (do wake_head c; reschedule false))

-- The loop of BC; a queue has fewer blocks than the 1,024 that there are.
unfoldable pub wake_all : ℕ → ℕ → Bool → Action Machine Bool
wake_all zero c requeued = raise diverges
wake_all (suc fuel) c requeued = do
  cond ← read c
  (if psb_field cond == 0 then pure requeued else (do wake_head c; wake_all fuel c true))

unfoldable pub e_bc : Instruction
e_bc = do
  c ← pop_long
  minimal_stack
  cleanup_condition c
  requeued ← wake_all blocks c false
  reschedule_if requeued

unfoldable pub e_req : Instruction
e_req = do
  h ← pop
  dst ← pop_long
  src ← pop_long
  minimal_stack
  requeue src dst (index h)
  reschedule false

unfoldable pub e_spp : Instruction
e_spp = do
  pri ← pop
  minimal_stack
  psb ← gets (λ s. s.psb)
  link ← read_pda (link_of psb)
  write_pda (link_of psb) (with_priority link pri)
  requeue (pda + ready) (pda + ready) psb
  reschedule false
