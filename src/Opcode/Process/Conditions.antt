-- ===== src/Opcode/Process/Conditions.antt =====
-- Monitor exit, condition variables, interrupts and timeouts of src/opcode/Opcode_process.cpp.
use mesa_emulator_unix.Common.{
  ℕ, zero, suc, ◌+◌, ◌/◌, ◌%◌, Bool, true, false, not, ◌&&◌, ◌||◌, leb, ltb, ◌==◌, if◌then◌else◌,
  u16, u32,
}
use mesa_emulator_unix.Action.{
  Action, ◌>>=◌, ◌>>◌, pure, gets, raise, raise_if, skip, error, diverges,
}
use mesa_emulator_unix.Machine.{Machine}
use mesa_emulator_unix.Machine.Registers.{set_wp, set_ptc, set_timeout_time}
use mesa_emulator_unix.Machine.Words.{read, write, read_pda, write_pda, pda}
use mesa_emulator_unix.Opcode.{Instruction}
use mesa_emulator_unix.Opcode.Process.{
  link_of, flags_of, timeout_of, ready, count, interrupt_condition, start_psb, psb_field, with_psb,
  bit0, with_bit0, with_bit1,
}
use mesa_emulator_unix.Opcode.Process.Queues.{requeue, find_prev, blocks}

unfoldable pub exit : ℕ → Action Machine Bool
exit m = do
  mon ← read m
  raise_if (not (bit0 mon)) error
  write m (with_bit0 mon false)
  (if psb_field mon == 0 then pure false else (do
    link ← read_pda (link_of (psb_field mon))
    requeue m (pda + ready) (psb_field link)
    pure true))

unfoldable pub wake_head : ℕ → Instruction
wake_head c = do
  cond ← read c
  link ← read_pda (link_of (psb_field cond))
  flags ← read_pda (flags_of (psb_field link))
  write_pda (flags_of (psb_field link)) (with_bit1 flags false)
  write_pda (timeout_of (psb_field link)) 0
  requeue c (pda + ready) (psb_field link)

-- The end of the chain of cleanup links from `psb` on, whose link is `cleanup`; 0 where the chain
-- ends in a block that names itself.
unfoldable pub follow_cleanup : ℕ → ℕ → ℕ → Action Machine ℕ
follow_cleanup zero psb cleanup = raise diverges
follow_cleanup (suc fuel) psb cleanup = if cleanup == psb then pure 0 else (do
  flags ← read_pda (flags_of cleanup)
  let rest = follow_cleanup fuel cleanup (psb_field flags)
  (if psb_field flags == 0 then pure cleanup else rest))

unfoldable pub cleanup_condition : ℕ → Instruction
cleanup_condition c = do
  cond ← read c
  (if psb_field cond == 0 then skip else (do
    flags ← read_pda (flags_of (psb_field cond))
    (if psb_field flags == 0 then skip else (do
      head ← follow_cleanup blocks (psb_field cond) (psb_field flags)
      (if head == 0
          then write c (with_psb (with_bit0 cond false) 0)
          else (do (tail, link) ← find_prev blocks head head; write c (with_psb cond tail)))))))

unfoldable pub notify_wakeup : ℕ → Action Machine Bool
notify_wakeup c = do
  cleanup_condition c
  cond ← read c
  (if psb_field cond == 0
      then (do write c (with_bit0 cond true); pure false)
      else (do wake_head c; pure true))

unfoldable pub interrupts_enabled : Action Machine Bool
interrupts_enabled = gets (λ s. s.wdc == 0)

-- The loop of Interrupt over the levels below `n`, the highest first; bit 0 of `wakeups` is for
-- level `n - 1`.
unfoldable pub interrupt_levels : ℕ → ℕ → Bool → Action Machine Bool
interrupt_levels zero wakeups requeued = pure requeued
interrupt_levels (suc n) wakeups requeued = do
  woken ← (if wakeups % 2 == 1 then notify_wakeup (pda + interrupt_condition n) else pure false)
  interrupt_levels n (wakeups / 2) (woken || requeued)

unfoldable pub interrupt : Action Machine Bool
interrupt = do wakeups ← gets (λ s. s.wp); set_wp 0; interrupt_levels 16 wakeups false

unfoldable pub check_for_interrupt : Action Machine Bool
check_for_interrupt = do
  wp ← gets (λ s. s.wp)
  enabled ← interrupts_enabled
  (if not (wp == 0) && enabled then interrupt else pure false)

-- The loop of TimeoutScan, from the block `psb` on, below `StartPsb + count`, which is an `int`. The index
-- is a CARD16: with a count of 65,528 or more it is always below, and the loop never ends.
unfoldable pub timeout_blocks : ℕ → ℕ → ℕ → Bool → Action Machine Bool
timeout_blocks zero psb bound requeued = raise diverges
timeout_blocks (suc fuel) psb bound requeued = do
  let rest : Bool → Action Machine Bool = λ b. timeout_blocks fuel (u16 (psb + 1)) bound b
  (if ltb psb bound
      then (do
        timeout ← read_pda (timeout_of psb)
        ptc ← gets (λ s. s.ptc)
        (if not (timeout == 0) && (timeout == ptc)
            then (do
              flags ← read_pda (flags_of psb)
              write_pda (flags_of psb) (with_bit1 flags false)
              write_pda (timeout_of psb) 0
              requeue 0 (pda + ready) psb
              rest true)
            else rest requeued))
      else pure requeued)

-- A count that ends takes at most 65,527 blocks, and one round behind the last.
unfoldable pub timeout_scan : Action Machine Bool
timeout_scan = do n ← read_pda count; timeout_blocks 65536 start_psb (start_psb + n) false

-- `PTC++; if (PTC == 0) PTC++;`
unfoldable pub next_ptc : Instruction
next_ptc = do ptc ← gets (λ s. s.ptc); set_ptc (if u16 (ptc + 1) == 0 then 1 else ptc + 1)

-- `time` is the interval timer; cTick of src/mesa/Constant.h is 40.
unfoldable pub check_for_timeouts : ℕ → Action Machine Bool
check_for_timeouts time = do
  enabled ← interrupts_enabled
  last ← gets (λ s. s.timeout_time)
  (if enabled && leb (u32 (last + 40)) (u32 time)
      then (do set_timeout_time time; next_ptc; timeout_scan)
      else pure false)
