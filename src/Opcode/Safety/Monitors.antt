-- ===== src/Opcode/Safety/Monitors.antt =====
-- The queues, monitors, conditions and timers of Opcode/Process, and the trap handlers of
-- Opcode/Control, keep the invariant of the machine.
use mesa_emulator_unix.Common.{ℕ, zero, suc, ◌+◌, Bool}
use mesa_emulator_unix.Action.{
  Trap, stack_error, bounds_trap, break_trap, div_check_trap, div_zero_trap, interrupt_error, raise,
  error, pointer_trap, process_trap, reschedule_error, hardware_error, esc_opcode_trap, opcode_trap,
  code_trap, control_trap, unbound_trap, xfer_trap,
}
use mesa_emulator_unix.Machine.{Machine}
use mesa_emulator_unix.Machine.Safe.Stays.{Stays, Stays-then}
use mesa_emulator_unix.Machine.Safe.Statements.{staying, restore-Stays, stack_at-Stays, write-Stays}
use mesa_emulator_unix.Opcode.Safety.Transfers.{save_pc-Stays, xfer-Stays, no_abort-Stays}
use mesa_emulator_unix.Opcode.Control.Traps.{
  save_valid_pc, trap_to, write_local, trap_one, trap_two, handle_trap, save_words, save_stack,
}
use mesa_emulator_unix.Opcode.Process.Queues.{
  find_prev, unlink, dequeue, find_place, place, enqueue, requeue,
}
use mesa_emulator_unix.Opcode.Process.Save.{
  alloc_state, free_state, save_state, save_preempted, save_frame, save_process,
}
use mesa_emulator_unix.Opcode.Process.Conditions.{
  exit, wake_head, follow_cleanup, cleanup_condition, notify_wakeup, interrupts_enabled,
  interrupt_levels, interrupt, check_for_interrupt, timeout_blocks, timeout_scan, next_ptc,
  check_for_timeouts,
}

module _ {size n : ℕ} where
  find_prev-Stays : (fuel psb prev : ℕ) → Stays size n (find_prev fuel psb prev)
  unfolding find_prev
  find_prev-Stays zero psb prev = search (staying) depth 8
  find_prev-Stays (suc fuel) psb prev =
      let rest : (next : ℕ) → Stays size n (find_prev fuel psb next) = find_prev-Stays fuel psb in
      search (staying, rest) depth 8

  unlink-Stays : (que tail psb link : ℕ) → Stays size n (unlink que tail psb link)
  unfolding unlink
  unlink-Stays que tail psb link = search (staying, find_prev-Stays) depth 8

  dequeue-Stays : (que psb : ℕ) → Stays size n (dequeue que psb)
  unfolding dequeue
  dequeue-Stays que psb = search (staying, unlink-Stays) depth 12

  find_place-Stays : (fuel link prev current : ℕ) → Stays size n (find_place fuel link prev current)
  unfolding find_place
  find_place-Stays zero link prev current = search (staying) depth 8
  find_place-Stays (suc fuel) link prev current =
      let rest : (at next : ℕ) → Stays size n (find_place fuel link at next) =
        find_place-Stays fuel link in
      search (staying, rest) depth 8

  place-Stays : (que queue psb link current : ℕ) → Stays size n (place que queue psb link current)
  unfolding place
  place-Stays que queue psb link current = search (staying, find_place-Stays) depth 8

  enqueue-Stays : (que psb : ℕ) → Stays size n (enqueue que psb)
  unfolding enqueue
  enqueue-Stays que psb = search (staying, place-Stays) depth 12

  requeue-Stays : (src dst psb : ℕ) → Stays size n (requeue src dst psb)
  unfolding requeue
  requeue-Stays src dst psb = search (staying, dequeue-Stays, enqueue-Stays) depth 8

  exit-Stays : (m : ℕ) → Stays size n (exit m)
  unfolding exit
  exit-Stays m = search (staying, requeue-Stays) depth 12

  wake_head-Stays : (c : ℕ) → Stays size n (wake_head c)
  unfolding wake_head
  wake_head-Stays c = search (staying, requeue-Stays) depth 12

  follow_cleanup-Stays : (fuel psb cleanup : ℕ) → Stays size n (follow_cleanup fuel psb cleanup)
  unfolding follow_cleanup
  follow_cleanup-Stays zero psb cleanup = search (staying) depth 8
  follow_cleanup-Stays (suc fuel) psb cleanup =
      let rest : (at next : ℕ) → Stays size n (follow_cleanup fuel at next) =
        follow_cleanup-Stays fuel in
      search (staying, rest) depth 8

  cleanup_condition-Stays : (c : ℕ) → Stays size n (cleanup_condition c)
  unfolding cleanup_condition
  cleanup_condition-Stays c = search (staying, follow_cleanup-Stays, find_prev-Stays) depth 15

  notify_wakeup-Stays : (c : ℕ) → Stays size n (notify_wakeup c)
  unfolding notify_wakeup
  notify_wakeup-Stays c = search (staying, cleanup_condition-Stays, wake_head-Stays) depth 10

  interrupt_levels-Stays : (k wakeups : ℕ) (b : Bool) → Stays size n (interrupt_levels k wakeups b)
  unfolding interrupt_levels
  interrupt_levels-Stays zero wakeups b = search (staying) depth 8
  interrupt_levels-Stays (suc k) wakeups b =
      let rest : (next : ℕ) (c : Bool) → Stays size n (interrupt_levels k next c) =
        interrupt_levels-Stays k in
      search (staying, rest, notify_wakeup-Stays) depth 8

  -- The work between two instructions, on pending wakeups and on due timeouts, keeps the invariant.
  pub check_for_interrupt-Stays : Stays size n check_for_interrupt
  unfolding check_for_interrupt interrupt interrupts_enabled
  check_for_interrupt-Stays = search (staying, interrupt_levels-Stays) depth 12

  timeout_blocks-Stays :
      (fuel psb bound : ℕ) (b : Bool) → Stays size n (timeout_blocks fuel psb bound b)
  unfolding timeout_blocks
  timeout_blocks-Stays zero psb bound b = search (staying) depth 8
  timeout_blocks-Stays (suc fuel) psb bound b =
      let rest : (next : ℕ) (c : Bool) → Stays size n (timeout_blocks fuel next bound c) =
        λ next c. timeout_blocks-Stays fuel next bound c in
      search (staying, rest, requeue-Stays) depth 15

  pub check_for_timeouts-Stays : (time : ℕ) → Stays size n (check_for_timeouts time)
  unfolding check_for_timeouts interrupts_enabled timeout_scan next_ptc
  check_for_timeouts-Stays time = search (staying, timeout_blocks-Stays) depth 12

  save_valid_pc-Stays : Stays size n save_valid_pc
  unfolding save_valid_pc
  save_valid_pc-Stays = search (staying, save_pc-Stays) depth 8

  save_words-Stays : (k sp state : ℕ) → Stays size n (save_words k sp state)
  unfolding save_words
  save_words-Stays zero sp state = search (staying) depth 8
  save_words-Stays (suc k) sp state =
      Stays-then _ (stack_at-Stays sp)
        (λ v. Stays-then _ (write-Stays (state + sp) v) (λ _. save_words-Stays k (sp + 1) state))

  pub save_stack-Stays : (state : ℕ) → Stays size n (save_stack state)
  unfolding save_stack
  save_stack-Stays state = search (staying, save_words-Stays) depth 12

  save_state-Stays : (psb link : ℕ) → Stays size n (save_state psb link)
  unfolding save_state alloc_state
  save_state-Stays psb link = search (staying) depth 12

  free_state-Stays : (pri state : ℕ) → Stays size n (free_state pri state)
  unfolding free_state
  free_state-Stays pri state = search (staying) depth 12

  save_preempted-Stays : (psb link : ℕ) → Stays size n (save_preempted psb link)
  unfolding save_preempted
  save_preempted-Stays psb link = search (staying, save_state-Stays, save_stack-Stays) depth 12

  save_frame-Stays : (psb link : ℕ) → Stays size n (save_frame psb link)
  unfolding save_frame
  save_frame-Stays psb link = search (staying) depth 12

  save_process-Stays : (b : Bool) → Stays size n (save_process b)
  unfolding save_process
  save_process-Stays b =
      no_abort-Stays _
        (search (staying, save_valid_pc-Stays, save_preempted-Stays, save_frame-Stays) depth 12)

module _ {size : ℕ} where
  trap_to-Stays : (ptr : ℕ) → Stays size 0 (trap_to ptr)
  unfolding trap_to
  trap_to-Stays ptr = search (staying, restore-Stays, save_valid_pc-Stays, xfer-Stays) depth 12

  write_local-Stays : (k v : ℕ) → Stays size 0 (write_local k v)
  unfolding write_local
  write_local-Stays k v = search (staying) depth 8

  trap_one-Stays : (ptr parameter : ℕ) → Stays size 0 (trap_one ptr parameter)
  unfolding trap_one
  trap_one-Stays ptr parameter = search (staying, trap_to-Stays, write_local-Stays) depth 8

  trap_two-Stays : (ptr parameter : ℕ) → Stays size 0 (trap_two ptr parameter)
  unfolding trap_two
  trap_two-Stays ptr parameter = search (staying, trap_to-Stays, write_local-Stays) depth 8

  raise_error-Stays : Stays size 0 (raise {S = Machine} {A = Unit {0}} error)
  raise_error-Stays = search (staying) depth 4

  -- Each trap handler keeps the invariant of the machine, on whatever state the trap was raised in.
  pub handle_trap-Stays : (x : Trap) → Stays size 0 (handle_trap x)
  unfolding handle_trap
  handle_trap-Stays break_trap = trap_to-Stays _
  handle_trap-Stays stack_error = raise_error-Stays
  handle_trap-Stays reschedule_error = trap_to-Stays _
  handle_trap-Stays hardware_error = trap_to-Stays _
  handle_trap-Stays div_zero_trap = trap_to-Stays _
  handle_trap-Stays div_check_trap = trap_to-Stays _
  handle_trap-Stays interrupt_error = trap_to-Stays _
  handle_trap-Stays process_trap = trap_to-Stays _
  handle_trap-Stays bounds_trap = trap_to-Stays _
  handle_trap-Stays pointer_trap = trap_to-Stays _
  handle_trap-Stays (opcode_trap p) = trap_one-Stays _ _
  handle_trap-Stays (control_trap p) = raise_error-Stays
  handle_trap-Stays (code_trap p) = trap_one-Stays _ _
  handle_trap-Stays (esc_opcode_trap p) = trap_one-Stays _ _
  handle_trap-Stays (unbound_trap p) = trap_two-Stays _ _
  handle_trap-Stays (xfer_trap dst type) =
      search (staying, trap_to-Stays, write_local-Stays) depth 8
