-- ===== src/Opcode/Process/Schedule.antt =====
-- Reschedule, the faults, and what follows a trap or a fault (src/opcode/Opcode_process.cpp).
use mesa_emulator_unix.Common.{
  ℕ, zero, suc, ◌+◌, Bool, true, false, not, ◌||◌, Option, none, some, ◌==◌, if◌then◌else◌,
}
use mesa_emulator_unix.Action.{
  Action, Outcome, Stop, Fault, ok, stop, fault, diverges, page_fault, write_protect_fault,
  frame_fault, reschedule_error, ◌>>=◌, ◌>>◌, pure, gets, raise, raise_if, skip,
}
use mesa_emulator_unix.Types.{low_half, high_half}
use mesa_emulator_unix.Machine.{Machine}
use mesa_emulator_unix.Machine.Registers.{set_lf, set_psb, set_running, clear_pc, restore}
use mesa_emulator_unix.Machine.Words.{read_pda, write_pda, pda}
use mesa_emulator_unix.Opcode.{Instruction}
use mesa_emulator_unix.Opcode.Control.{XferType}
use mesa_emulator_unix.Opcode.Control.Xfer.{xfer}
use mesa_emulator_unix.Opcode.Control.Traps.{handle_trap}
use mesa_emulator_unix.Opcode.Process.{
  link_of, context_of, ready, fault_queue, fault_condition, sv_data, psb_field, bit0, bit1,
  priority,
}
use mesa_emulator_unix.Opcode.Process.Queues.{requeue, blocks}
use mesa_emulator_unix.Opcode.Process.Save.{empty_state, save_process, load_process}
use mesa_emulator_unix.Opcode.Process.Conditions.{notify_wakeup, interrupts_enabled}

-- Whether a process may run: it is permanent or preempted, or a state vector is left for it.
unfoldable pub may_run : ℕ → Action Machine Bool
may_run link =
    if bit1 link || bit0 link
    then pure true
    else (do empty ← empty_state (priority link); pure (not empty))

-- The first block of the ring, from that behind `link` to `tail`, that may run.
unfoldable pub find_runnable : ℕ → ℕ → ℕ → Action Machine (Option ℕ)
find_runnable zero tail link = raise diverges
find_runnable (suc fuel) tail link = do
  next ← read_pda (link_of (psb_field link))
  runs ← may_run next
  let rest = find_runnable fuel tail next
  (if runs
      then pure (some (psb_field link))
      else (if psb_field link == tail then pure none else rest))

unfoldable pub pick : Action Machine (Option ℕ)
pick = do
  queue ← read_pda ready
  (if psb_field queue == 0 then pure none else (do
    link ← read_pda (link_of (psb_field queue))
    find_runnable blocks (psb_field queue) link))

-- With no process, BusyWait; else the process is loaded and entered.
unfoldable pub switch_to : Option ℕ → Instruction
switch_to none = do
  enabled ← interrupts_enabled
  raise_if (not enabled) (Stop.trap reschedule_error)
  set_running false
switch_to (some psb) = do
  set_psb psb
  clear_pc
  frame ← load_process
  set_lf frame
  set_running true
  lf ← gets (λ s. s.lf)
  xfer lf 0 XferType.process_switch false

unfoldable pub reschedule : Bool → Instruction
reschedule preemption = do
  running ← gets (λ s. s.running)
  (if running then save_process preemption else skip)
  chosen ← pick
  switch_to chosen

-- The block that was running when the fault came.
unfoldable pub fault_process : ℕ → Action Machine ℕ
fault_process fi = do
  faulted ← gets (λ s. s.psb)
  requeue (pda + ready) (pda + fault_queue fi) faulted
  woken ← notify_wakeup (pda + fault_condition fi)
  restore
  reschedule true
  pure faulted

unfoldable pub fault_one : ℕ → ℕ → Instruction
fault_one fi parameter = do
  psb ← fault_process fi
  state ← read_pda (context_of psb)
  write_pda (state + sv_data) parameter

unfoldable pub fault_two : ℕ → ℕ → Instruction
fault_two fi parameter = do
  psb ← fault_process fi
  state ← read_pda (context_of psb)
  write_pda (state + sv_data) (low_half parameter)
  write_pda (state + sv_data + 1) (high_half parameter)

-- What runs between the raise of a fault and the throw of `Abort`.
unfoldable pub handle_fault : Fault → Instruction
handle_fault (frame_fault fsi) = fault_one 0 fsi
handle_fault (page_fault ptr) = fault_two 1 ptr
handle_fault (write_protect_fault ptr) = fault_two 2 ptr

-- What a run leaves behind the handlers of its traps and faults, which may raise some in turn: an
-- `Abort` of a handler unwinds the handlers around it. With no fuel the stop stays as it is.
unfoldable pub settle : ℕ → Outcome Machine (Unit {0}) → Outcome Machine (Unit {0})
settle zero o = o
settle (suc fuel) (ok a s) = ok a s
settle (suc fuel) (stop (Stop.trap x) s) = settle fuel (handle_trap x s)
settle (suc fuel) (stop (fault x) s) = settle fuel (handle_fault x s)
settle (suc fuel) (stop c s) = stop c s
