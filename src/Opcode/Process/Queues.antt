-- ===== src/Opcode/Process/Queues.antt =====
-- Dequeue, Enqueue and Requeue of src/opcode/Opcode_process.cpp. A queue is a ring of process state
-- blocks: its head word names the last, whose link names the first. A walk reads and does not write,
-- so one that has not ended after the 1,024 blocks that there are never ends.
use mesa_emulator_unix.Common.{ℕ, zero, suc, leb, ltb, ◌==◌, if◌then◌else◌}
use mesa_emulator_unix.Action.{Action, ◌>>=◌, ◌>>◌, pure, raise, raise_if, skip, error, diverges}
use mesa_emulator_unix.Machine.{Machine}
use mesa_emulator_unix.Machine.Words.{read, write, read_pda, write_pda}
use mesa_emulator_unix.Opcode.{Instruction}
use mesa_emulator_unix.Opcode.Process.{link_of, flags_of, psb_field, with_psb, priority}

abbrev pub blocks : ℕ
blocks = 1025

-- The block before `psb`, from `prev` on, and its link.
unfoldable pub find_prev : ℕ → ℕ → ℕ → Action Machine (ℕ × ℕ)
find_prev zero psb prev = raise diverges
find_prev (suc fuel) psb prev = do
  temp ← read_pda (link_of prev)
  let rest = find_prev fuel psb (psb_field temp)
  (if psb_field temp == psb then pure (prev, temp) else rest)

-- What Dequeue does to the ring; the block that is then before `psb`, or PsbNull.
unfoldable pub unlink : ℕ → ℕ → ℕ → ℕ → Action Machine ℕ
unlink que tail psb link = if psb_field link == psb then pure 0 else (do
  (prev, temp) ← find_prev blocks psb (if que == 0 then psb else tail)
  write_pda (link_of prev) (with_psb temp (psb_field link))
  pure prev)

unfoldable pub dequeue : ℕ → ℕ → Instruction
dequeue que psb = do
  queue ← (if que == 0 then pure 0 else read que)
  link ← read_pda (link_of psb)
  prev ← unlink que (psb_field queue) psb link
  (if que == 0
      then (do
        flags ← read_pda (flags_of psb)
        write_pda (flags_of psb) (with_psb flags (psb_field link)))
      else (if psb_field queue == psb then write que (with_psb queue prev) else skip))

-- The last block with the priority of `link` or a higher one, and its link.
unfoldable pub find_place : ℕ → ℕ → ℕ → ℕ → Action Machine (ℕ × ℕ)
find_place zero link prev current = raise diverges
find_place (suc fuel) link prev current = do
  next ← read_pda (link_of (psb_field current))
  let rest = find_place fuel link (psb_field current) next
  (if ltb (priority next) (priority link) then pure (prev, current) else rest)

unfoldable pub place : ℕ → ℕ → ℕ → ℕ → ℕ → Action Machine (ℕ × ℕ)
place que queue psb link current =
    if leb (priority link) (priority current)
    then (do write que (with_psb queue psb); pure (psb_field queue, current))
    else find_place blocks link (psb_field queue) current

unfoldable pub enqueue : ℕ → ℕ → Instruction
enqueue que psb = do
  queue ← read que
  link ← read_pda (link_of psb)
  (if psb_field queue == 0
      then (do write_pda (link_of psb) (with_psb link psb); write que (with_psb queue psb))
      else (do
        first ← read_pda (link_of (psb_field queue))
        (prev, current) ← place que queue psb link first
        write_pda (link_of psb) (with_psb link (psb_field current))
        write_pda (link_of prev) (with_psb current psb)))

unfoldable pub requeue : ℕ → ℕ → ℕ → Instruction
requeue src dst psb = do raise_if (psb == 0) error; dequeue src psb; enqueue dst psb
